-- ===== src/Auth/Fields.antt =====
-- packages/transactions/src/wire/serialization.ts and create.ts: signatures, public keys, the fields
-- of multi-signature conditions, and their lists.
use funai_sdk.Prelude.{ℕ, zero, suc, true, false, List, [], ◌∷◌, ◌++◌, ◌==◌, if◌then◌else◌, length}
use funai_sdk.Prelude.Int.{pos, negsuc}
use funai_sdk.Js.Text.{JsString}
use funai_sdk.Js.Number.{Number, nan, int}
use funai_sdk.Js.Result
use funai_sdk.Js.Result.{
  Result, ok, err, guard, invalid_signature, invalid_bytes, unknown_auth_field,
}
use funai_sdk.Bytes.Hex.{
  Bytes, Part, octet, bytes, bytes_to_hex, hex_to_bytes, hex_to_int, concat_array, octets_to_bytes,
}
use funai_sdk.Bytes.Ints.{int_to_hex}
use funai_sdk.Reader.{Reader, pure, lift, ◌>>=◌, read_bytes, read_number8, read_uint8_enum}
use funai_sdk.Clarity.Deserialize.{rounds}
use funai_sdk.Auth.Types.{
  Curve, PubKeyEncoding, compressed, uncompressed, AuthFieldType, public_key_compressed,
  public_key_uncompressed, signature_compressed, signature_uncompressed, FieldContents, public_key,
  signature, TransactionAuthField, auth_field_type,
}

abbrev pub signature_length_bytes : ℕ
signature_length_bytes = 65

unfoldable pub create_message_signature : JsString → Result JsString
create_message_signature text =
    Result.◌>>=◌ (hex_to_bytes text)
      (λ bs. if length bs == signature_length_bytes then ok text else err invalid_signature)

unfoldable pub deserialize_message_signature : Reader JsString
deserialize_message_signature = do
  bs ← read_bytes (int (pos signature_length_bytes))
  lift (create_message_signature (bytes_to_hex bs))

-- `concatArray([fieldId, …])`, where `fieldId` is undefined past the end of the source.
unfoldable pub number_octet : Number → Result Bytes
number_octet nan = err invalid_bytes
number_octet (int (negsuc n)) = err invalid_bytes
number_octet (int (pos n)) = octets_to_bytes n

unfoldable pub prepend_octet : Number → Bytes → Result Bytes
prepend_octet first rest = Result.◌>>=◌ (number_octet first) (λ front. ok (front ++ rest))

-- 64 bytes behind a 4, 32 behind anything else.
unfoldable pub key_length : Number → ℕ
key_length nan = 32
key_length (int (negsuc n)) = 32
key_length (int (pos n)) = if n == 4 then 64 else 32

unfoldable pub deserialize_public_key : Reader Bytes
deserialize_public_key = do
  field_id ← read_number8
  rest ← read_bytes (int (pos (key_length field_id)))
  lift (prepend_octet field_id rest)

unfoldable pub compress_public_key : Curve → Bytes → Result JsString
compress_public_key curve key = curve.point_hex true (bytes_to_hex key)

unfoldable pub uncompress_public_key : Curve → Bytes → Result JsString
uncompress_public_key curve key = curve.point_hex false (bytes_to_hex key)

unfoldable pub key_type_byte : PubKeyEncoding → ℕ
key_type_byte compressed = 0x00
key_type_byte uncompressed = 0x01

unfoldable pub signature_type_byte : PubKeyEncoding → ℕ
signature_type_byte compressed = 0x02
signature_type_byte uncompressed = 0x03

unfoldable pub serialize_contents : Curve → PubKeyEncoding → FieldContents → Result Bytes
serialize_contents curve encoding (public_key key) =
    Result.◌>>=◌ (compress_public_key curve key) (λ text.
      Result.◌>>=◌ (hex_to_bytes text)
        (λ bs. concat_array (octet (key_type_byte encoding) ∷ bytes bs ∷ [])))
serialize_contents curve encoding (signature text) =
    Result.◌>>=◌ (hex_to_bytes text)
      (λ bs. concat_array (octet (signature_type_byte encoding) ∷ bytes bs ∷ []))

unfoldable pub serialize_auth_field_bytes : Curve → TransactionAuthField → Result Bytes
serialize_auth_field_bytes curve field =
    serialize_contents curve field.pub_key_encoding field.contents

abbrev pub create_transaction_auth_field : PubKeyEncoding → FieldContents → TransactionAuthField
create_transaction_auth_field encoding contents = record {
  pub_key_encoding = encoding;
  contents = contents;
}

unfoldable pub deserialize_auth_field_of : Curve → AuthFieldType → Reader TransactionAuthField
deserialize_auth_field_of curve public_key_compressed = do
  key ← deserialize_public_key
  pure (create_transaction_auth_field compressed (public_key key))
deserialize_auth_field_of curve public_key_uncompressed = do
  key ← deserialize_public_key
  text ← lift (uncompress_public_key curve key)
  data_bytes ← lift (hex_to_bytes text)
  pure (create_transaction_auth_field uncompressed (public_key data_bytes))
deserialize_auth_field_of curve signature_compressed = do
  text ← deserialize_message_signature
  pure (create_transaction_auth_field compressed (signature text))
deserialize_auth_field_of curve signature_uncompressed = do
  text ← deserialize_message_signature
  pure (create_transaction_auth_field uncompressed (signature text))

unfoldable pub deserialize_auth_field : Curve → Reader TransactionAuthField
deserialize_auth_field curve = do
  type ← read_uint8_enum auth_field_type unknown_auth_field
  deserialize_auth_field_of curve type

unfoldable pub serialize_fields : Curve → List TransactionAuthField → Result (List Part)
serialize_fields curve [] = ok []
serialize_fields curve (field ∷ fields) =
    Result.◌>>=◌ (serialize_auth_field_bytes curve field)
      (λ bs. Result.◌>>=◌ (serialize_fields curve fields) (λ parts. ok (bytes bs ∷ parts)))

-- `serializeLPListBytes(createLPList(fields))`: four bytes of length.
unfoldable pub serialize_field_list : Curve → List TransactionAuthField → Result Bytes
serialize_field_list curve fields =
    Result.◌>>=◌ (hex_to_bytes (int_to_hex (pos (length fields)) 4)) (λ length_bytes.
      Result.◌>>=◌ (serialize_fields curve fields)
        (λ parts. concat_array (bytes length_bytes ∷ parts)))

unfoldable pub read_fields : Curve → ℕ → Reader (List TransactionAuthField)
read_fields curve zero = pure []
read_fields curve (suc n) = do
  field ← deserialize_auth_field curve
  fields ← read_fields curve n
  pure (field ∷ fields)

-- `deserializeLPList(bytesReader, FunaiWireType.TransactionAuthField).values`
unfoldable pub deserialize_field_list : Curve → Reader (List TransactionAuthField)
deserialize_field_list curve = do
  length_bytes ← read_bytes (int (pos 4))
  read_fields curve (rounds (hex_to_int (bytes_to_hex length_bytes)))
