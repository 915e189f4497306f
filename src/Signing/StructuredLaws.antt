-- ===== src/Signing/StructuredLaws.antt =====
-- packages/transactions/src/structuredDataSignature.ts: what is encoded is found again, and what is
-- signed verifies.
use funai_sdk.Prelude.{
  ◌≡◌, refl, ◌≤◌, ◌-◌, true, [], ◌∷◌, ◌++◌, length, length-append, take_front, drop_front, take,
  All, arith,
}
use funai_sdk.Js.Text.{JsString}
use funai_sdk.Js.Result.{ok, ◌>>=◌}
use funai_sdk.Bytes.Hex.{Bytes, IsByte, bytes_to_hex}
use funai_sdk.Bytes.HexLaws.{length-bytes_to_hex}
use funai_sdk.Platform.{Platform}
use funai_sdk.Clarity.Types.{ClarityValue}
use funai_sdk.Clarity.Serialize.{serialize_cv_bytes}
use funai_sdk.Auth.Types.{PubKeyEncoding, compressed, uncompressed}
use funai_sdk.Signing.Crypto.{Crypto}
use funai_sdk.Signing.Laws.{CryptoLaws}
use funai_sdk.Signing.Keys.{
  PrivateKey, private_key_to_bytes, is_compressed_encoding, sign_message_hash_rsv,
  public_key_from_signature_rsv, signature_vrs_to_rsv, signature_rsv_to_vrs,
}
use funai_sdk.Signing.SigHash.{encoding_of}
use funai_sdk.Signing.Recovery.{signed_form_lem}
use funai_sdk.Signing.Structured.{
  hash_structured_data_bytes, is_domain, encode_structured_data_bytes,
  decode_structured_data_signature_bytes, sign_structured_data,
}

-- What is documented of SHA-256: 32 bytes.
pub record Sha256Laws (crypto : Crypto) : Type 0 where
  pub sha256-IsByte : (bs : Bytes) → All IsByte (crypto.sha256 bs)
  pub length-sha256 : (bs : Bytes) → length (crypto.sha256 bs) ≡ 32

decode_lem :
    (d m : Bytes)
    → length d ≡ 32
    → decode_structured_data_signature_bytes (0x53 ∷ 0x49 ∷ 0x50 ∷ 0x30 ∷ 0x31 ∷ 0x38 ∷ (d ++ m))
      ≡ (d, m)
unfolding decode_structured_data_signature_bytes
decode_lem d m h = rw (rw h at (take_front d m), rw h at (drop_front d m)) refl

-- The rotation of a signature, and back.
signature_rsv_to_vrs-signature_vrs_to_rsv :
    (text : JsString) → 2 ≤ length text → signature_rsv_to_vrs (signature_vrs_to_rsv text) ≡ text
unfolding signature_rsv_to_vrs signature_vrs_to_rsv
signature_rsv_to_vrs-signature_vrs_to_rsv [] h = refl
signature_rsv_to_vrs-signature_vrs_to_rsv (a ∷ []) h = absurd (omega arith)
signature_rsv_to_vrs-signature_vrs_to_rsv (a ∷ b ∷ rest) h =
    let n : length (rest ++ (a ∷ b ∷ [])) - 2 ≡ length rest =
      omega (arith, length-append rest (a ∷ b ∷ [])) in
    rw (n, drop_front rest (a ∷ b ∷ []), take_front rest (a ∷ b ∷ [])) refl

encoding_of-is_compressed_encoding :
    (encoding : PubKeyEncoding) → encoding_of (is_compressed_encoding encoding) ≡ encoding
unfolding encoding_of is_compressed_encoding
encoding_of-is_compressed_encoding compressed = refl
encoding_of-is_compressed_encoding uncompressed = refl

module _ (env : Platform) (crypto : Crypto) (sizes : Sha256Laws crypto) where
  -- For a SHA-256 of 32 bytes: where a message and a valid domain serialize,
  -- `encodeStructuredDataBytes` returns bytes, and `decodeStructuredDataSignatureBytes` finds in
  -- them the hash of the domain and the hash of the message.
  pub encode_structured_data_bytes-decodes :
      (message domain : ClarityValue) (message_bytes domain_bytes : Bytes)
      → serialize_cv_bytes env message ≡ ok message_bytes
      → serialize_cv_bytes env domain ≡ ok domain_bytes
      → is_domain domain ≡ true
      → (do
        encoded ← encode_structured_data_bytes env crypto message domain
        ok (decode_structured_data_signature_bytes encoded))
        ≡ ok (crypto.sha256 domain_bytes, crypto.sha256 message_bytes)
  unfolding encode_structured_data_bytes hash_structured_data_bytes
  encode_structured_data_bytes-decodes message domain message_bytes domain_bytes hm hd h =
      rw (hm, h)
        (rw hd (
          rw
            (decode_lem (crypto.sha256 domain_bytes) (crypto.sha256 message_bytes)
              (sizes.length-sha256 domain_bytes))
            refl))

  -- For a curve that keeps its laws and a SHA-256 of 32 bytes: let `encodeStructuredDataBytes`
  -- return bytes for a message and a domain, let `privateKeyToBytes` accept a private key, and let
  -- its first 32 bytes have a public key in an encoding, compressed or not. `signStructuredData`
  -- with the private key returns a signature, and `publicKeyFromSignatureRsv` of the hash of those
  -- bytes, that signature and that encoding is that public key.
  pub public_key_from_signature_rsv-sign_structured_data :
      (laws : CryptoLaws crypto)
      → (message domain : ClarityValue) → (encoded : Bytes) → (private_key : PrivateKey)
      → (key public_key : Bytes) → (encoding : PubKeyEncoding)
      → encode_structured_data_bytes env crypto message domain ≡ ok encoded
      → private_key_to_bytes private_key ≡ ok key
      → crypto.get_public_key (take 32 key) (is_compressed_encoding encoding) ≡ ok public_key
      → (do
        signature ← sign_structured_data env crypto message domain private_key
        public_key_from_signature_rsv crypto
            (bytes_to_hex (crypto.sha256 encoded))
            signature
            encoding)
        ≡ ok (bytes_to_hex public_key)
  unfolding sign_structured_data sign_message_hash_rsv public_key_from_signature_rsv
  public_key_from_signature_rsv-sign_structured_data laws message domain encoded private_key key
        public_key encoding encodes key_reads makes =
      let hash = crypto.sha256 encoded in
      let s =
        signed_form_lem crypto laws (bytes_to_hex hash) private_key key public_key
          (is_compressed_encoding encoding)
          (record {
            data_bytes = hash;
            are_bytes = sizes.sha256-IsByte encoded;
            size_is = sizes.length-sha256 encoded;
            text_is = refl;
          })
          key_reads makes in
      let hex = s.text-IsHex in
      let wide : 2 ≤ length s.text =
        rw (hex.text_is)
          (omega (arith, length-bytes_to_hex hex.data_bytes hex.are_bytes, hex.size_is)) in
      rw encodes (
        rw (s.signed) (
          rw (signature_rsv_to_vrs-signature_vrs_to_rsv s.text wide)
            (rw (encoding_of-is_compressed_encoding encoding) at (s.recovered))))
