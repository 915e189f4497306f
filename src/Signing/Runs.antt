-- ===== src/Signing/Runs.antt =====
-- The calls of a signer, one for each public key, and what they leave.
use funai_sdk.Prelude.{
  ℕ, suc, ◌+◌, ◌<◌, ◌≤◌, ◌≡◌, refl, Bool, true, false, not, ◌&&◌, Option, none, some, List, [], ◌∷◌,
  ◌++◌, ◌==◌, All, arith, inr, length, map, append-nil, append_assoc,
}
use funai_sdk.Prelude.Int.{pos}
use funai_sdk.Js.Text.{JsString, str_eq_refl}
use funai_sdk.Js.Number.{int, geb_number, ltb_number, number_eq}
use funai_sdk.Js.Result.{Result, ok, no_public_keys, segwit_uncompressed}
use funai_sdk.Js.Inversion.{check-Returned, bind_ok}
use funai_sdk.Bytes.Hex.{Bytes, IsByte, bytes_to_hex}
use funai_sdk.Bytes.HexLaws.{hex_to_bytes-bytes_to_hex}
use funai_sdk.Platform.{Platform}
use funai_sdk.Wire.Types.{AddressWire}
use funai_sdk.Auth.Types.{
  Curve, MultiSigHashMode, p2sh, p2wsh, p2sh_non_sequential, p2wsh_non_sequential, MultiSig,
  TransactionAuthField, standard_type,
}
use funai_sdk.Auth.Spending.{is_segwit}
use funai_sdk.Auth.Valid.{IsUint64}
use funai_sdk.Signing.Crypto.{Crypto}
use funai_sdk.Signing.Keys.{key_text, create_funai_public_key}
use funai_sdk.Signing.Hashes.{
  address_from_public_keys, every_compressed, is_segwit_mode, is_single_mode,
}
use funai_sdk.Signing.Verify.{
  is_sequential_multi_sig, is_non_sequential_multi_sig, wrong_count, check_signer, finish_verifying,
  verify_multi_sig, verify,
}
use funai_sdk.Signing.Transaction.{verify_origin}
use funai_sdk.Signing.Signer.{TransactionSigner}
use funai_sdk.Signing.Append.{sign_or_append, sign_in_order}
use funai_sdk.Signing.Laws.{CryptoLaws}
use funai_sdk.Signing.Begin.{verify_origin_auth-origin_of}
use funai_sdk.Signing.Progress.{
  with_fields, verifying, Progress, HasRoom, append_origin-Advances, sign_origin-Advances,
  verify_fields-with_fields,
}
use funai_sdk.Signing.Finding.{
  IsSecret, Fits, has_signer, has_signer_le, signer_count, Suffices, find_signer-Finds,
}

swap_not : (a b : Bool) → not (a && b) ≡ true → (b && a) ≡ false
swap_not true true h = cc
swap_not true false h = refl
swap_not false true h = refl
swap_not false false h = refl

wrong_count-Suffices :
    (mode : MultiSigHashMode) (required count : ℕ)
    → Suffices mode required count
    → wrong_count mode count (int (pos required)) ≡ false
unfolding wrong_count is_sequential_multi_sig is_non_sequential_multi_sig number_eq ltb_number
wrong_count-Suffices p2sh required count h = ground arith
wrong_count-Suffices p2wsh required count h = ground arith
wrong_count-Suffices p2sh_non_sequential required count h = ground arith
wrong_count-Suffices p2wsh_non_sequential required count h = ground arith

Suffices-exact :
    (mode : MultiSigHashMode) (required count : ℕ)
    → Suffices mode required count
    → is_sequential_multi_sig mode ≡ true
    → count ≡ required
unfolding is_sequential_multi_sig
Suffices-exact p2sh required count h e = h
Suffices-exact p2wsh required count h e = h
Suffices-exact p2sh_non_sequential required count h e = cc
Suffices-exact p2wsh_non_sequential required count h e = cc

-- Keys for which there is an address are compressed where the mode wants it.
short_keys :
    (crypto : Crypto) (mode : MultiSigHashMode) (required : ℕ) (keys : List Bytes)
    (address : AddressWire)
    → address_from_public_keys crypto (int (pos 0)) (inr mode) (int (pos required)) keys
      ≡ ok address
    → (not (every_compressed keys) && is_segwit mode) ≡ false
unfolding address_from_public_keys is_segwit_mode is_single_mode
short_keys crypto mode required keys address h =
    let one = check-Returned (not (length keys == 0)) no_public_keys _ address h in
    let all_short = not (is_segwit mode && not (every_compressed keys)) in
    let two = check-Returned all_short segwit_uncompressed _ address one.1 in
    swap_not (is_segwit mode) (not (every_compressed keys)) two.0

module _ (env : Platform) (curve : Curve) (crypto : Crypto) (laws : CryptoLaws crypto)
    (c : MultiSig) (first : JsString) (required : ℕ) (signer_keys : List JsString) where
  -- A run of calls returns, and makes progress.
  pub record Runs (call : Result TransactionSigner) (keys : List Bytes) (sigs : ℕ) : Type 0 where
    pub signer : TransactionSigner
    pub returns : call ≡ ok signer
    pub progress : Progress env curve crypto c first keys sigs signer

  room_lem :
      (sigs total : ℕ)
      → c.signatures_required ≡ int (pos required)
      → Suffices c.hash_mode required total
      → sigs < total
      → HasRoom env curve crypto c first sigs
  unfolding geb_number
  room_lem sigs total r s less e =
      let exact = Suffices-exact c.hash_mode required total s e in rw r (ground arith)

  sign_or_append-Runs :
      (keys : List Bytes) (sigs total : ℕ) (signer : TransactionSigner) (key : Bytes)
      (found : Option JsString)
      → IsUint64 c.fee
      → IsUint64 c.nonce
      → All IsByte key
      → Fits crypto key found
      → c.signatures_required ≡ int (pos required)
      → Suffices c.hash_mode required total
      → sigs + has_signer (ok found) ≤ total
      → sigs + 1 < 65536
      → Progress env curve crypto c first keys sigs signer
      → Runs
          (sign_or_append crypto signer (bytes_to_hex key) found)
          (keys ++ (key ∷ []))
          (sigs + has_signer (ok found))
  unfolding sign_or_append create_funai_public_key has_signer
  sign_or_append-Runs keys sigs total signer key none fee nonce hk fits r s less few p =
      let a = append_origin-Advances env curve crypto c first keys sigs signer key p in
      let same : sigs ≡ sigs + 0 = omega arith in
      record {
        signer = a.signer;
        returns = rw (hex_to_bytes-bytes_to_hex key hk) (a.returns);
        progress = rw same at (a.progress);
      }
  sign_or_append-Runs keys sigs total signer key (some secret) fee nonce hk fits r s less few p =
      let room = room_lem sigs total r s (omega arith) in
      let a =
        sign_origin-Advances env curve crypto c first laws keys sigs signer (key_text secret) key
          fee nonce fits room (omega arith) p in
      let same : suc sigs ≡ sigs + 1 = omega arith in
      record { signer = a.signer; returns = a.returns; progress = rw same at (a.progress) }

  pub sign_in_order-Runs :
      (keys more : List Bytes) (sigs total : ℕ) (signer : TransactionSigner)
      → IsUint64 c.fee
      → IsUint64 c.nonce
      → All (IsSecret crypto) signer_keys
      → All (All IsByte) more
      → c.signatures_required ≡ int (pos required)
      → Suffices c.hash_mode required total
      → sigs + signer_count crypto signer_keys more ≡ total
      → sigs + length more < 65536
      → Progress env curve crypto c first keys sigs signer
      → Runs (sign_in_order crypto signer_keys (map bytes_to_hex more) signer) (keys ++ more) total
  unfolding sign_in_order signer_count
  sign_in_order-Runs keys [] sigs total signer fee nonce ks hm r s e few p =
      let same : sigs ≡ total = omega arith in
      record { signer = signer; returns = refl; progress = rw (append-nil, ← same) p }
  sign_in_order-Runs keys (key ∷ more) sigs total signer fee nonce ks (hk, hm) r s e few p =
      let f = find_signer-Finds crypto laws signer_keys key ks hk in
      let found = rw (f.returns) at e in
      let one =
        sign_or_append-Runs keys sigs total signer key f.found fee nonce hk f.fits r s
          (omega (arith, found)) (omega arith) p in
      let rest =
        sign_in_order-Runs (keys ++ (key ∷ [])) more (sigs + has_signer (ok f.found)) total
          one.signer fee nonce ks hm r s (omega (arith, found))
          (omega (arith, has_signer_le (ok f.found))) one.progress in
      record {
        signer = rest.signer;
        returns = bind_ok _ (bind_ok _ f.returns one.returns) rest.returns;
        progress = rw append_assoc at rest.progress;
      }

  -- The checks behind the loop, where the signer is the hash of the keys.
  finish_verifying_lem :
      (keys : List Bytes) (hash : JsString) (total : ℕ) (fields : List TransactionAuthField)
      (address : AddressWire)
      → c.signatures_required ≡ int (pos required)
      → Suffices c.hash_mode required total
      → address_from_public_keys crypto (int (pos 0)) (inr c.hash_mode) (int (pos required)) keys
        ≡ ok address
      → address.hash160 ≡ c.signer
      → finish_verifying crypto (with_fields c fields) (verifying keys hash total) ≡ ok hash
  unfolding finish_verifying check_signer
  finish_verifying_lem keys hash total fields address r s h same =
      let short = short_keys crypto c.hash_mode required keys address h in
      rw (r, wrong_count-Suffices c.hash_mode required total s)
        (rw short (rw h (rw (same, str_eq_refl c.signer) refl)))

  -- What the signer leaves is accepted.
  pub verify_origin-Progress :
      (keys : List Bytes) (total : ℕ) (signer : TransactionSigner) (address : AddressWire)
      → c.signatures_required ≡ int (pos required)
      → Suffices c.hash_mode required total
      → address_from_public_keys crypto (int (pos 0)) (inr c.hash_mode) (int (pos required)) keys
        ≡ ok address
      → address.hash160 ≡ c.signer
      → Progress env curve crypto c first keys total signer
      → verify_origin env curve crypto signer.transaction ≡ ok signer.sig_hash
  unfolding verify_origin verify verify_multi_sig
  verify_origin-Progress keys total signer address r s h same p = rw (p.begins) (
      rw (verify_origin_auth-origin_of, p.is_multi)
        (rw (verify_fields-with_fields crypto c standard_type p.fields p.fields, p.verifies)
          (finish_verifying_lem keys signer.sig_hash total p.fields address r s h same)))
