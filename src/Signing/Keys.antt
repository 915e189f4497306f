-- ===== src/Signing/Keys.antt =====
-- packages/transactions/src/keys.ts, packages/common/src/keys.ts and signatures.ts: private and
-- public keys, and signatures in the order V, R, S.
use funai_sdk.Prelude.{
  ℕ, ◌-◌, Bool, true, false, ◌&&◌, ◌||◌, not, Option, none, some, [], ◌∷◌, ◌++◌, ◌==◌, ltb,
  if◌then◌else◌, length, take, drop,
}
use funai_sdk.Prelude.Int.{pos}
use funai_sdk.Js.Text.{JsString}
use funai_sdk.Js.Number.{Number, big_int16}
use funai_sdk.Js.Result.{
  Result, ok, err, guard, ◌>>=◌, ◌>>◌, invalid_signature, invalid_key_length, invalid_key_suffix,
  no_recovery_id,
}
use funai_sdk.Bytes.Hex.{Bytes, bytes_to_hex, hex_to_bytes, hex_to_int}
use funai_sdk.Bytes.Ints.{int_to_hex}
use funai_sdk.Auth.Types.{PubKeyEncoding, compressed, uncompressed}
use funai_sdk.Signing.Crypto.{Crypto}

-- A hex text, or an array of bytes.
pub data PrivateKey : Type 0 where
  key_text : JsString → PrivateKey
  key_bytes : Bytes → PrivateKey

unfoldable pub key_data : PrivateKey → Result Bytes
key_data (key_text text) = hex_to_bytes text
key_data (key_bytes bytes) = ok bytes

-- `privateKeyBuffer[32]` is undefined where there are fewer bytes.
unfoldable pub ends_in_one : Bytes → Bool
ends_in_one key = elim (drop 32 key) [ [] ↦ false | b ∷ bs ↦ b == 1 ]

unfoldable pub private_key_to_bytes : PrivateKey → Result Bytes
private_key_to_bytes private_key = do
  buffer ← key_data private_key
  guard (length buffer == 32 || length buffer == 33) invalid_key_length
  guard (not (length buffer == 33 && not (ends_in_one buffer))) invalid_key_suffix
  ok buffer

-- A text has two digits for each byte.
unfoldable pub private_key_is_compressed : PrivateKey → Bool
private_key_is_compressed (key_text text) = length text == 66
private_key_is_compressed (key_bytes bytes) = length bytes == 33

unfoldable pub private_key_to_public : Crypto → PrivateKey → Result JsString
private_key_to_public crypto private_key = do
  key ← private_key_to_bytes private_key
  public_key ← crypto.get_public_key (take 32 key) (private_key_is_compressed (key_bytes key))
  ok (bytes_to_hex public_key)

-- `createFunaiPublicKey` of a hex text: the bytes of the key.
unfoldable pub create_funai_public_key : JsString → Result Bytes
create_funai_public_key text = hex_to_bytes text

-- `${privateKey}01`
unfoldable pub compress_private_key : JsString → JsString
compress_private_key text = if length text == 66 then text else text ++ (b'0' ∷ b'1' ∷ [])

unfoldable pub recovery_hex : Option ℕ → Result JsString
recovery_hex none = err no_recovery_id
recovery_hex (some id) = ok (int_to_hex (pos id) 1)

-- The recovery id in front of the two coordinates.
unfoldable pub sign_with_key : Crypto → PrivateKey → JsString → Result JsString
sign_with_key crypto private_key message_hash = do
  key ← private_key_to_bytes private_key
  (raw_signature, recovery_id) ← crypto.sign_sync message_hash (take 32 key)
  recovery_id_hex ← recovery_hex recovery_id
  compact ← crypto.compact_hex raw_signature
  ok (recovery_id_hex ++ compact)

pub record RecoverableSignature : Type 0 where
  pub recovery_id : Number
  pub r : JsString
  pub s : JsString

unfoldable pub parse_recoverable_signature_vrs : JsString → Result RecoverableSignature
parse_recoverable_signature_vrs text =
    if ltb (length text) 129
    then err invalid_signature
    else ok (record {
      recovery_id = hex_to_int (take 2 text);
      r = take 64 (drop 2 text);
      s = drop 66 text;
    })

unfoldable pub is_compressed_encoding : PubKeyEncoding → Bool
is_compressed_encoding compressed = true
is_compressed_encoding uncompressed = false

unfoldable pub public_key_from_signature_vrs :
    Crypto → JsString → JsString → PubKeyEncoding → Result JsString
public_key_from_signature_vrs crypto message_hash message_signature encoding = do
  parsed ← parse_recoverable_signature_vrs message_signature
  r ← big_int16 parsed.r
  s ← big_int16 parsed.s
  crypto.recover message_hash r s parsed.recovery_id (is_compressed_encoding encoding)

unfoldable pub signature_vrs_to_rsv : JsString → JsString
signature_vrs_to_rsv text = drop 2 text ++ take 2 text

-- `slice(-2)` begins two units before the end, or at the start.
unfoldable pub signature_rsv_to_vrs : JsString → JsString
signature_rsv_to_vrs text = drop (length text - 2) text ++ take (length text - 2) text

unfoldable pub sign_message_hash_rsv : Crypto → JsString → PrivateKey → Result JsString
sign_message_hash_rsv crypto message_hash private_key = do
  text ← sign_with_key crypto private_key message_hash
  ok (signature_vrs_to_rsv text)

unfoldable pub public_key_from_signature_rsv :
    Crypto → JsString → JsString → PubKeyEncoding → Result JsString
public_key_from_signature_rsv crypto message_hash message_signature encoding =
    public_key_from_signature_vrs crypto message_hash (signature_rsv_to_vrs message_signature)
      encoding
