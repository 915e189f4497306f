-- ===== src/Signing/SigHash.antt =====
-- packages/transactions/src/authorization.ts: the chain of hashes that signatures cover.
use funai_sdk.Prelude.{Bool, ◌∷◌, [], ◌++◌, ◌==◌, leb, if◌then◌else◌, length, ◌%◌}
use funai_sdk.Prelude.Int.{ℤ, pos}
use funai_sdk.Js.Text.{JsString}
use funai_sdk.Js.Number.{to_string16}
use funai_sdk.Js.Result.{Result, ok, guard, ◌>>=◌, ◌>>◌, invalid_sig_hash_length}
use funai_sdk.Bytes.Hex.{Bytes, bytes_to_hex, hex_to_bytes}
use funai_sdk.Bytes.Ints.{int_to_bytes}
use funai_sdk.Auth.Types.{
  PubKeyEncoding, compressed, uncompressed, AuthType, standard_type, sponsored_type, encoding_byte,
  public_key_is_compressed,
}
use funai_sdk.Signing.Crypto.{Crypto}
use funai_sdk.Signing.Hashes.{txid_from_data}
use funai_sdk.Signing.Keys.{
  PrivateKey, private_key_to_public, create_funai_public_key, sign_with_key,
  public_key_from_signature_vrs,
}

unfoldable pub auth_type_byte : AuthType → Bytes
auth_type_byte standard_type = 0x04 ∷ []
auth_type_byte sponsored_type = 0x05 ∷ []

-- `leftPadHex`
unfoldable pub left_pad_hex : JsString → JsString
left_pad_hex text = if length text % 2 == 0 then text else b'0' ∷ text

unfoldable pub encoding_of : Bool → PubKeyEncoding
encoding_of short = if short then compressed else uncompressed

unfoldable pub sig_hash_pre_sign : Crypto → JsString → AuthType → ℤ → ℤ → Result JsString
sig_hash_pre_sign crypto cur_sig_hash auth_type fee nonce = do
  fee_bytes ← int_to_bytes fee 8
  nonce_bytes ← int_to_bytes nonce 8
  data_bytes ← hex_to_bytes (
      cur_sig_hash
      ++ bytes_to_hex (auth_type_byte auth_type)
      ++ bytes_to_hex fee_bytes
      ++ bytes_to_hex nonce_bytes)
  guard (length data_bytes == 49) invalid_sig_hash_length
  ok (txid_from_data crypto data_bytes)

unfoldable pub sig_hash_post_sign : Crypto → JsString → Bytes → JsString → Result JsString
sig_hash_post_sign crypto cur_sig_hash public_key signature_text = do
  let encoding = encoding_byte (encoding_of (public_key_is_compressed public_key))
  data_bytes ←
      hex_to_bytes (cur_sig_hash ++ left_pad_hex (to_string16 (pos encoding)) ++ signature_text)
  guard (leb (length data_bytes) 98) invalid_sig_hash_length
  ok (txid_from_data crypto data_bytes)

pub record NextSignature : Type 0 where
  pub next_sig : JsString
  pub next_sig_hash : JsString

unfoldable pub next_signature :
    Crypto → JsString → AuthType → ℤ → ℤ → PrivateKey → Result NextSignature
next_signature crypto cur_sig_hash auth_type fee nonce private_key = do
  sig_hash_pre ← sig_hash_pre_sign crypto cur_sig_hash auth_type fee nonce
  signature_text ← sign_with_key crypto private_key sig_hash_pre
  key_text ← private_key_to_public crypto private_key
  public_key ← create_funai_public_key key_text
  next_sig_hash ← sig_hash_post_sign crypto sig_hash_pre public_key signature_text
  ok (record { next_sig = signature_text; next_sig_hash = next_sig_hash })

pub record NextVerification : Type 0 where
  pub pub_key : Bytes
  pub next_sig_hash : JsString

unfoldable pub next_verification :
    Crypto → JsString → AuthType → ℤ → ℤ → PubKeyEncoding → JsString → Result NextVerification
next_verification crypto initial_sig_hash auth_type fee nonce encoding signature_text = do
  sig_hash_pre ← sig_hash_pre_sign crypto initial_sig_hash auth_type fee nonce
  key_text ← public_key_from_signature_vrs crypto sig_hash_pre signature_text encoding
  public_key ← create_funai_public_key key_text
  next_sig_hash ← sig_hash_post_sign crypto sig_hash_pre public_key signature_text
  ok (record { pub_key = public_key; next_sig_hash = next_sig_hash })
