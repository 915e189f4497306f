-- ===== src/Signing/Chain.antt =====
-- A signature that `nextSignature` makes is one that `nextVerification` takes.
use funai_sdk.Prelude.{
  ℕ, ◌≡◌, refl, sym, ◌∙◌, Bool, true, false, not, inl, inr, [], ◌∷◌, ◌++◌, length, length-append,
  take, All, All-append, arith,
}
use funai_sdk.Prelude.Int.{ℤ, pos}
use funai_sdk.Js.Text.{JsString}
use funai_sdk.Js.Number.{to_string16, hex_digits}
use funai_sdk.Js.Result.{ok}
use funai_sdk.Bytes.Hex.{Bytes, IsByte, bytes_to_hex, hex_to_bytes, hexes}
use funai_sdk.Bytes.HexLaws.{bytes_to_hex-append, hex_to_bytes-bytes_to_hex}
use funai_sdk.Bytes.IntLaws.{be_bytes, be_bytes-IsByte, length-be_bytes, int_to_bytes-be_bytes}
use funai_sdk.Wire.HexText.{IsHex}
use funai_sdk.Auth.Types.{
  AuthType, standard_type, sponsored_type, public_key_is_compressed, starts_with_04, encoding_byte,
}
use funai_sdk.Auth.Valid.{IsUint64}
use funai_sdk.Signing.Crypto.{Crypto}
use funai_sdk.Signing.Keys.{
  PrivateKey, private_key_is_compressed, private_key_to_public, create_funai_public_key,
}
use funai_sdk.Signing.Hashes.{txid_from_data}
use funai_sdk.Signing.SigHash.{
  auth_type_byte, left_pad_hex, NextSignature, encoding_of, sig_hash_pre_sign, sig_hash_post_sign,
  next_signature, next_verification,
}
use funai_sdk.Signing.Laws.{IsPrefix, IsPublicKey, CryptoLaws, IsKeyPair}
use funai_sdk.Signing.Recovery.{signed_lem}

prefix-IsByte : (short : Bool) (first : ℕ) → IsPrefix short first → IsByte first
prefix-IsByte true first (inl h) = omega (arith, h)
prefix-IsByte true first (inr h) = omega (arith, h)
prefix-IsByte false first h = omega (arith, h)

module _ (crypto : Crypto) (laws : CryptoLaws crypto) where
  pub txid-IsHex : (bs : Bytes) → IsHex 32 (txid_from_data crypto bs)
  unfolding txid_from_data
  txid-IsHex bs = record {
    data_bytes = crypto.sha512_256 bs;
    are_bytes = laws.sha512_256-IsByte bs;
    size_is = laws.length-sha512_256 bs;
    text_is = refl;
  }

  pub public_key-IsByte : (short : Bool) (key : Bytes) → IsPublicKey short key → All IsByte key
  public_key-IsByte true key k = rw (k.key_is) (prefix-IsByte true k.first k.prefix, k.rest_bytes)
  public_key-IsByte false key k = rw (k.key_is) (prefix-IsByte false k.first k.prefix, k.rest_bytes)

  pub key_bytes_back :
      {private_key : PrivateKey} (public_key : Bytes)
      → IsKeyPair crypto private_key public_key
      → hex_to_bytes (bytes_to_hex public_key) ≡ ok public_key
  key_bytes_back public_key pair = hex_to_bytes-bytes_to_hex public_key (
      public_key-IsByte _ public_key
        (laws.get_public_key-IsPublicKey (take 32 pair.key) public_key _ pair.makes))

  -- The first byte shows in the text whether a key is compressed.
  pub is_compressed-IsPublicKey :
      (short : Bool) (key : Bytes)
      → IsPublicKey short key
      → not (starts_with_04 (bytes_to_hex key)) ≡ short
  unfolding starts_with_04 bytes_to_hex hexes
  is_compressed-IsPublicKey true key k = elim k.prefix [
    | inl e ↦ rw (k.key_is, e) refl
    | inr e ↦ rw (k.key_is, e) refl
  ]
  is_compressed-IsPublicKey false key k = rw (k.key_is, k.prefix) refl

  pub is_compressed-IsKeyPair :
      (private_key : PrivateKey) (public_key : Bytes)
      → IsKeyPair crypto private_key public_key
      → public_key_is_compressed public_key ≡ private_key_is_compressed private_key
  unfolding public_key_is_compressed
  is_compressed-IsKeyPair private_key public_key pair =
      is_compressed-IsPublicKey _ public_key
        (laws.get_public_key-IsPublicKey (take 32 pair.key) public_key _ pair.makes)
      ∙ sym pair.form

  -- What the hash before a signature covers.
  pre_bytes : Bytes → AuthType → ℕ → ℕ → Bytes
  pre_bytes hash t fee nonce = hash ++ auth_type_byte t ++ be_bytes 8 fee ++ be_bytes 8 nonce

  auth_type_byte-IsByte : (t : AuthType) → All IsByte (auth_type_byte t)
  unfolding auth_type_byte
  auth_type_byte-IsByte standard_type = omega arith
  auth_type_byte-IsByte sponsored_type = omega arith

  length-auth_type_byte : (t : AuthType) → length (auth_type_byte t) ≡ 1
  unfolding auth_type_byte
  length-auth_type_byte standard_type = refl
  length-auth_type_byte sponsored_type = refl

  pre_bytes-IsByte :
      (hash : Bytes) (t : AuthType) (fee nonce : ℕ)
      → All IsByte hash
      → All IsByte (pre_bytes hash t fee nonce)
  unfolding pre_bytes
  pre_bytes-IsByte hash t fee nonce h =
      All-append IsByte _ (be_bytes 8 nonce)
        (All-append IsByte _ (be_bytes 8 fee)
          (All-append IsByte hash (auth_type_byte t) h (auth_type_byte-IsByte t))
          (be_bytes-IsByte 8 fee))
        (be_bytes-IsByte 8 nonce)

  length-pre_bytes :
      (hash : Bytes) (t : AuthType) (fee nonce : ℕ)
      → length hash ≡ 32
      → length (pre_bytes hash t fee nonce) ≡ 49
  unfolding pre_bytes
  length-pre_bytes hash t fee nonce h =
      rw (length-append, length-append, length-append)
        (rw (h, length-auth_type_byte t, length-be_bytes, length-be_bytes) refl)

  sig_hash_pre_sign_lem :
      (hash : JsString) (t : AuthType) (fee nonce : ℤ) (h : IsHex 32 hash) (f : IsUint64 fee)
      (n : IsUint64 nonce)
      → sig_hash_pre_sign crypto hash t fee nonce
        ≡ ok (txid_from_data crypto (pre_bytes h.data_bytes t f.value n.value))
  unfolding sig_hash_pre_sign pre_bytes
  sig_hash_pre_sign_lem hash t fee nonce h f n =
      let whole : Bytes = pre_bytes h.data_bytes t f.value n.value in
      let text : hash
            ++ bytes_to_hex (auth_type_byte t)
            ++ bytes_to_hex (be_bytes 8 f.value)
            ++ bytes_to_hex (be_bytes 8 n.value)
          ≡ bytes_to_hex whole =
        rw (h.text_is, ← bytes_to_hex-append, ← bytes_to_hex-append, ← bytes_to_hex-append) refl in
      rw (f.value_is, n.value_is)
        (rw
          (
            int_to_bytes-be_bytes 8 f.value (omega arith) (omega (arith, f.small)),
            int_to_bytes-be_bytes 8 n.value (omega arith) (omega (arith, n.small)),
          )
          (rw text (
            rw (hex_to_bytes-bytes_to_hex whole (pre_bytes-IsByte _ t f.value n.value h.are_bytes))
              (rw (length-pre_bytes h.data_bytes t f.value n.value h.size_is) refl))))

  encoding_hex :
      (b : Bool)
      → left_pad_hex (to_string16 (pos (encoding_byte (encoding_of b))))
        ≡ bytes_to_hex (encoding_byte (encoding_of b) ∷ [])
  unfolding left_pad_hex to_string16 hex_digits encoding_byte encoding_of bytes_to_hex hexes
  encoding_hex true = refl
  encoding_hex false = refl

  encoding-IsByte : (b : Bool) → IsByte (encoding_byte (encoding_of b))
  unfolding encoding_byte encoding_of
  encoding-IsByte true = omega arith
  encoding-IsByte false = omega arith

  post_bytes : Bytes → Bytes → Bytes → Bytes
  post_bytes hash key text =
      hash ++ (encoding_byte (encoding_of (public_key_is_compressed key)) ∷ []) ++ text

  sig_hash_post_sign_lem :
      (hash text : JsString) (key : Bytes) (h : IsHex 32 hash) (s : IsHex 65 text)
      → sig_hash_post_sign crypto hash key text
        ≡ ok (txid_from_data crypto (post_bytes h.data_bytes key s.data_bytes))
  unfolding sig_hash_post_sign post_bytes
  sig_hash_post_sign_lem hash text key h s =
      let b : Bool = public_key_is_compressed key in
      let whole : Bytes = post_bytes h.data_bytes key s.data_bytes in
      let joined : hash ++ bytes_to_hex (encoding_byte (encoding_of b) ∷ []) ++ text
          ≡ bytes_to_hex whole =
        rw (h.text_is, s.text_is) (rw (← bytes_to_hex-append, ← bytes_to_hex-append) refl) in
      let bytes : All IsByte whole =
        All-append IsByte _ s.data_bytes
          (All-append IsByte h.data_bytes _ h.are_bytes (encoding-IsByte b, tt)) s.are_bytes in
      let size : length whole ≡ 98 =
        rw (length-append, length-append) (rw (h.size_is, s.size_is) refl) in
      rw (encoding_hex b) (rw joined (rw (hex_to_bytes-bytes_to_hex whole bytes) (rw size refl)))

  -- The signature that a key pair makes, and what its check returns.
  pub record Links (hash : JsString) (t : AuthType) (fee nonce : ℤ) (private_key : PrivateKey)
      (public_key : Bytes) : Type 0 where
    pub signed : NextSignature
    pub signs : next_signature crypto hash t fee nonce private_key ≡ ok signed
    pub verifies :
        next_verification crypto hash t fee nonce
          (encoding_of (private_key_is_compressed private_key))
          signed.next_sig
        ≡ ok (record { pub_key = public_key; next_sig_hash = signed.next_sig_hash })
    pub sig-IsHex : IsHex 65 signed.next_sig
    pub hash-IsHex : IsHex 32 signed.next_sig_hash

  -- A hash of 32 bytes, a fee and a nonce of eight: signing succeeds, and the check of the signature
  -- gives the public key and the same next hash.
  pub next_signature-Links :
      (hash : JsString) (t : AuthType) (fee nonce : ℤ) (private_key : PrivateKey)
      (public_key : Bytes)
      → IsHex 32 hash
      → IsUint64 fee
      → IsUint64 nonce
      → IsKeyPair crypto private_key public_key
      → Links hash t fee nonce private_key public_key
  unfolding next_signature next_verification private_key_to_public create_funai_public_key
      private_key_is_compressed
  next_signature-Links hash t fee nonce private_key public_key h f n pair =
      let pre = txid_from_data crypto (pre_bytes h.data_bytes t f.value n.value) in
      let first = sig_hash_pre_sign_lem hash t fee nonce h f n in
      let s = signed_lem crypto laws pre private_key public_key (txid-IsHex _) pair in
      let last = sig_hash_post_sign_lem pre s.text public_key (txid-IsHex _) s.text-IsHex in
      let key = key_bytes_back public_key pair in
      record {
        signed = record {
          next_sig = s.text;
          next_sig_hash = txid_from_data crypto (
              post_bytes (txid-IsHex (pre_bytes h.data_bytes t f.value n.value)).data_bytes
                public_key s.text-IsHex.data_bytes);
        };
        signs =
            rw first (rw (s.signed) (rw (pair.reads) (rw (pair.makes) (rw key (rw last refl)))));
        verifies = rw first (rw (s.recovered) (rw key (rw last refl)));
        sig-IsHex = s.text-IsHex;
        hash-IsHex = txid-IsHex _;
      }
