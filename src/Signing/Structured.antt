-- ===== src/Signing/Structured.antt =====
-- packages/transactions/src/structuredDataSignature.ts: signatures of structured data (SIP-018).
use funai_sdk.Prelude.{
  Bool, true, false, ◌&&◌, Option, none, some, ◌∷◌, [], ◌++◌, if◌then◌else◌, take, drop,
}
use funai_sdk.Js.Text.{JsString, js, str_eq}
use funai_sdk.Js.Result.{Result, ok, ◌>>=◌, ◌>>◌, guard, invalid_domain}
use funai_sdk.Bytes.Hex.{Bytes, bytes_to_hex}
use funai_sdk.Platform.{Platform}
use funai_sdk.Clarity.Types.{ClarityValue, unsigned, string_ascii, tuple, TupleData, empty, entry}
use funai_sdk.Clarity.Serialize.{serialize_cv_bytes}
use funai_sdk.Signing.Crypto.{Crypto}
use funai_sdk.Signing.Keys.{PrivateKey, sign_message_hash_rsv}

abbrev pub structured_data_prefix : Bytes
structured_data_prefix = 0x53 ∷ 0x49 ∷ 0x50 ∷ 0x30 ∷ 0x31 ∷ 0x38 ∷ []

unfoldable pub hash_structured_data_bytes : Platform → Crypto → ClarityValue → Result Bytes
hash_structured_data_bytes env crypto structured_data = do
  bs ← serialize_cv_bytes env structured_data
  ok (crypto.sha256 bs)

unfoldable pub hash_structured_data : Platform → Crypto → ClarityValue → Result JsString
hash_structured_data env crypto structured_data = do
  bs ← serialize_cv_bytes env structured_data
  ok (bytes_to_hex (crypto.sha256 bs))

-- `value.value[key]`
unfoldable pub entry_at : JsString → TupleData → Option ClarityValue
entry_at key empty = none
entry_at key (entry k v data') = if str_eq k key then some v else entry_at key data'

-- Is there a value, and is it of the type `StringASCII`, or `UInt`?
unfoldable pub is_ascii_entry : Option ClarityValue → Bool
is_ascii_entry (some (string_ascii _)) = true
is_ascii_entry _ = false

unfoldable pub is_uint_entry : Option ClarityValue → Bool
is_uint_entry (some (unsigned _)) = true
is_uint_entry _ = false

unfoldable pub is_domain : ClarityValue → Bool
is_domain (tuple data') =
    is_ascii_entry (entry_at (js "name") data')
    && is_ascii_entry (entry_at (js "version") data')
    && is_uint_entry (entry_at (js "chain-id") data')
is_domain _ = false

unfoldable pub encode_structured_data_bytes :
    Platform → Crypto → ClarityValue → ClarityValue → Result Bytes
encode_structured_data_bytes env crypto message domain = do
  structured_data_hash ← hash_structured_data_bytes env crypto message
  guard (is_domain domain) invalid_domain
  domain_hash ← hash_structured_data_bytes env crypto domain
  ok (structured_data_prefix ++ (domain_hash ++ structured_data_hash))

unfoldable pub encode_structured_data :
    Platform → Crypto → ClarityValue → ClarityValue → Result JsString
encode_structured_data env crypto message domain = do
  bs ← encode_structured_data_bytes env crypto message domain
  ok (bytes_to_hex bs)

-- The hash of the domain and that of the message, of encoded bytes.
unfoldable pub decode_structured_data_signature_bytes : Bytes → Bytes × Bytes
decode_structured_data_signature_bytes encoded = (take 32 (drop 6 encoded), drop 38 encoded)

unfoldable pub sign_structured_data :
    Platform → Crypto → ClarityValue → ClarityValue → PrivateKey → Result JsString
sign_structured_data env crypto message domain private_key = do
  bs ← encode_structured_data_bytes env crypto message domain
  sign_message_hash_rsv crypto (bytes_to_hex (crypto.sha256 bs)) private_key
