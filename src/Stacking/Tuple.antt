-- ===== src/Stacking/Tuple.antt =====
-- packages/stacking/src/utils.ts and packages/encryption/src/keys.ts: what is written into a tuple
-- and into a base58 text is read again.
use funai_sdk.Prelude.{
  ◌≡◌, refl, ℕ, ◌≤◌, ◌<◌, ◌-◌, ◌+◌, ◌%◌, true, false, some, [], ◌∷◌, ◌++◌, length, take, drop,
  take_front, drop_front, length-append, All, All-append, ap, arith, ltb,
}
use funai_sdk.Prelude.Int.{pos}
use funai_sdk.Js.Text.{JsString, js, str_eq}
use funai_sdk.Js.Result.{ok, ◌>>=◌}
use funai_sdk.Bytes.Hex.{Bytes, IsByte, bytes_to_hex}
use funai_sdk.Bytes.HexLaws.{hex_to_bytes-bytes_to_hex}
use funai_sdk.Bytes.Ints.{big_int_to_bytes, int_to_bytes}
use funai_sdk.Bytes.IntLaws.{int_to_bytes-be_bytes, be_bytes}
use funai_sdk.Clarity.Create.{buffer_cv, tuple_cv, all_clarity_names, to_tuple_data}
use funai_sdk.Clarity.Names.{is_clarity_name, matches_name, all_name_chars, is_name_char}
use funai_sdk.Clarity.Types.{ClarityValue, buffer, tuple, entry, empty}
use funai_sdk.Signing.Structured.{entry_at}
use funai_sdk.Signing.Crypto.{Crypto}
use funai_sdk.Signing.StructuredLaws.{Sha256Laws}
use funai_sdk.Stacking.Codec.{Codec}
use funai_sdk.Stacking.Base58.{
  byte_or_zero, same_checksum, base58_check_decode, base58_encode, base58_check_encode,
}
use funai_sdk.Stacking.Address.{
  PoxAddressVersion, p2pkh, p2sh, p2shp2wpkh, p2shp2wsh, p2wpkh, p2wsh, p2tr, version_number,
  first_word, decode_btc_address_bytes, pox_address_to_tuple,
  extract_pox_address_from_clarity_value, buffer_text,
}

take_all : (n : ℕ) (bs : Bytes) → length bs ≤ n → take n bs ≡ bs
take_all ℕ.zero [] h = refl
take_all (ℕ.suc n) [] h = refl
take_all ℕ.zero (b ∷ bs) h = absurd (omega arith)
take_all (ℕ.suc n) (b ∷ bs) h = ap (◌∷◌ b) (take_all n bs (omega arith))

take_longer : (xs ys : Bytes) (n : ℕ) → take (length xs + n) (xs ++ ys) ≡ xs ++ take n ys
take_longer [] ys n = ap (λ k. take k ys) (omega arith)
take_longer (x ∷ xs) ys n =
    let next : length (x ∷ xs) + n ≡ ℕ.suc (length xs + n) = omega arith in
    rw next (ap (◌∷◌ x) (take_longer xs ys n))

length-take_within : (n : ℕ) (bs : Bytes) → n ≤ length bs → length (take n bs) ≡ n
length-take_within ℕ.zero bs h = refl
length-take_within (ℕ.suc n) [] h = absurd (omega arith)
length-take_within (ℕ.suc n) (b ∷ bs) h = ap ℕ.suc (length-take_within n bs (omega arith))

All-take : (n : ℕ) (bs : Bytes) → All IsByte bs → All IsByte (take n bs)
All-take ℕ.zero bs h = tt
All-take (ℕ.suc n) [] h = tt
All-take (ℕ.suc n) (b ∷ bs) (hb, h) = (hb, All-take n bs h)

-- The checksum of four bytes is all that the test reads.
same_checksum-take : (bs : Bytes) → same_checksum (take 4 bs) bs ≡ true
unfolding same_checksum byte_or_zero
same_checksum-take [] = refl
same_checksum-take (a ∷ []) = ground arith
same_checksum-take (a ∷ b ∷ []) = ground arith
same_checksum-take (a ∷ b ∷ c ∷ []) = ground arith
same_checksum-take (a ∷ b ∷ c ∷ d ∷ bs) = ground arith

version_number_small : (version : PoxAddressVersion) → version_number version < 256
unfolding version_number
version_number_small p2pkh = omega arith
version_number_small p2sh = omega arith
version_number_small p2shp2wpkh = omega arith
version_number_small p2shp2wsh = omega arith
version_number_small p2wpkh = omega arith
version_number_small p2wsh = omega arith
version_number_small p2tr = omega arith

version_digits :
    (version : PoxAddressVersion)
    → big_int_to_bytes (pos (version_number version)) 1 ≡ ok (version_number version ∷ [])
unfolding int_to_bytes be_bytes
version_digits version =
    let small = version_number_small version in
    let same : version_number version % 256 ≡ version_number version = omega arith in
    rw same at (int_to_bytes-be_bytes 1 (version_number version) (omega arith) (omega arith))

buffer_cv_lem : (bs : Bytes) → length bs ≤ 1_048_576 → buffer_cv bs ≡ ok (buffer (bytes_to_hex bs))
unfolding buffer_cv
buffer_cv_lem bs h = let small : ltb 1_048_576 (length bs) ≡ false = ground arith in rw small refl

tuple_cv_lem :
    (version hashbytes : ClarityValue)
    → tuple_cv ((js "version", version) ∷ (js "hashbytes", hashbytes) ∷ [])
      ≡ ok (tuple (entry (js "version") version (entry (js "hashbytes") hashbytes empty)))
unfolding tuple_cv all_clarity_names to_tuple_data is_clarity_name matches_name all_name_chars
    is_name_char
tuple_cv_lem version hashbytes = refl

extract_lem :
    (version : ℕ)
    → (data' : Bytes) → version < 256
    → All IsByte data'
    → extract_pox_address_from_clarity_value (
        tuple (
          entry
            (js "version")
            (buffer (bytes_to_hex (version ∷ [])))
            (entry (js "hashbytes") (buffer (bytes_to_hex data')) empty)))
      ≡ ok (some version, data')
unfolding extract_pox_address_from_clarity_value buffer_text entry_at str_eq first_word
extract_lem version data' hv hd =
    rw (hex_to_bytes-bytes_to_hex (version ∷ []) (hv, tt), hex_to_bytes-bytes_to_hex data' hd) refl

module _ (codec : Codec) (crypto : Crypto) where
  base58_encode_lem :
      (payload : Bytes)
      → base58_encode codec crypto payload
        ≡ codec.base58_encode (payload ++ take 4 (crypto.sha256 (crypto.sha256 payload)))
  unfolding base58_encode
  base58_encode_lem payload =
      ap codec.base58_encode (take_longer payload (crypto.sha256 (crypto.sha256 payload)) 4)

  check_decode_lem :
      (text : JsString) (payload short : Bytes)
      → codec.base58_decode text ≡ ok (payload ++ short)
      → length short ≡ 4
      → length payload ≡ 21
      → same_checksum short (crypto.sha256 (crypto.sha256 payload)) ≡ true
      → base58_check_decode codec crypto text ≡ ok (byte_or_zero payload 0, drop 1 payload)
  unfolding base58_check_decode
  check_decode_lem text payload short reads l len same =
      let total : length (payload ++ short) - 4 ≡ length payload =
        omega (arith, length-append payload short) in
      rw reads
        (rw total (rw (take_front payload short, drop_front payload short) (rw same (rw len refl))))

  -- For a base58 that decodes what it encodes and a SHA-256 of 32 bytes, `base58CheckDecode` of
  -- what `base58CheckEncode` made of a version below 256 and a hash of 20 bytes is that version
  -- and that hash.
  pub base58_check_decode-base58_check_encode :
      Sha256Laws crypto
      → ((bs : Bytes) → All IsByte bs → codec.base58_decode (codec.base58_encode bs) ≡ ok bs)
      → (version : ℕ) → (hash : Bytes) → IsByte version
      → All IsByte hash
      → length hash ≡ 20
      → base58_check_decode codec crypto (base58_check_encode codec crypto version hash)
        ≡ ok (version, hash)
  unfolding base58_check_encode byte_or_zero
  base58_check_decode-base58_check_encode sizes reads version hash hv hh len =
      let payload : Bytes = version ∷ hash in
      let sum = crypto.sha256 (crypto.sha256 payload) in
      let short : Bytes = take 4 sum in
      let l : length short ≡ 4 =
        length-take_within 4 sum (omega (arith, sizes.length-sha256 (crypto.sha256 payload))) in
      let are_bytes : All IsByte (payload ++ short) =
        All-append IsByte payload short (hv, hh)
          (All-take 4 sum (sizes.sha256-IsByte (crypto.sha256 payload))) in
      let small : version % 256 ≡ version = omega arith in
      rw (small, take_all 20 hash (omega arith))
        (check_decode_lem (base58_encode codec crypto payload) payload short
          (rw (base58_encode_lem payload) (reads (payload ++ short) are_bytes)) l (omega arith)
          (same_checksum-take sum))

  -- Where `decodeBtcAddressBytes` reads an address as a version and at most 1,048,576 bytes,
  -- `poxAddressToTuple` makes a tuple of it, and `extractPoxAddressFromClarityValue` of the tuple
  -- gives back the version and the bytes.
  pub extract_pox_address_from_clarity_value-pox_address_to_tuple :
      (pox_address : JsString)
      → (version : PoxAddressVersion) → (data' : Bytes)
      → decode_btc_address_bytes codec crypto pox_address ≡ ok (version, data')
      → All IsByte data'
      → length data' ≤ 1_048_576
      → (pox_address_to_tuple codec crypto pox_address >>= extract_pox_address_from_clarity_value)
        ≡ ok (some (version_number version), data')
  unfolding pox_address_to_tuple
  extract_pox_address_from_clarity_value-pox_address_to_tuple pox_address version data' h hb hl =
      rw
        (
          h,
          version_digits version,
          buffer_cv_lem (version_number version ∷ []) (omega arith),
          buffer_cv_lem data' hl,
          tuple_cv_lem (buffer (bytes_to_hex (version_number version ∷ [])))
              (buffer (bytes_to_hex data')),
        )
        (extract_lem (version_number version) data' (version_number_small version) hb)
