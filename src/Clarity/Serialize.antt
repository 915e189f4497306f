-- ===== src/Clarity/Serialize.antt =====
-- packages/transactions/src/clarity/serialize.ts
use funai_sdk.Prelude.{ℕ, ◌+◌, ◌/◌, ◌%◌, List, [], ◌∷◌, none, length, map}
use funai_sdk.Js.Text.{JsString}
use funai_sdk.Js.Result.{Result, ok, ◌>>=◌}
use funai_sdk.Bytes.Hex.{Bytes, Part, octet, bytes, concat_array, hex_to_bytes, bytes_to_hex}
use funai_sdk.Bytes.Ints.{big_int_to_bytes, to_twos}
use funai_sdk.Bytes.Buffer.{write_uint32_be}
use funai_sdk.Platform.{Platform}
use funai_sdk.Wire.Create.{create_address, create_lp_string}
use funai_sdk.Wire.Write.{serialize_address_bytes, serialize_lp_string_bytes}
use funai_sdk.Clarity.Types.{
  ClarityValue, Values, TupleData, integer, unsigned, buffer, bool_true, bool_false,
  principal_standard, principal_contract, response_ok, response_err, optional_none, optional_some,
  list, tuple, string_ascii, string_utf8, nil, cons, empty, entry, count_values, count_entries,
}
use funai_sdk.Clarity.Names.{parse_contract_id}
use funai_sdk.Clarity.Entries.{sort_keys}

unfoldable pub bytes_with_type_id : ℕ → Bytes → Result Bytes
bytes_with_type_id type_id bs = concat_array (octet type_id ∷ bytes bs ∷ [])

-- `Math.ceil(cv.value.length / 2)` counts a `0x` in front of the digits too.
unfoldable pub serialize_buffer : JsString → Result Bytes
serialize_buffer value = do
  value_bytes ← hex_to_bytes value
  concat_array (bytes (write_uint32_be ((length value + 1) / 2)) ∷ bytes value_bytes ∷ [])

unfoldable pub serialize_standard_principal : Platform → JsString → Result Bytes
serialize_standard_principal env value = do
  address ← create_address env value
  serialize_address_bytes address

unfoldable pub serialize_contract_principal : Platform → JsString → Result Bytes
serialize_contract_principal env value = do
  (address_text, name) ← parse_contract_id value
  address ← create_address env address_text
  address_bytes ← serialize_address_bytes address
  lps ← create_lp_string env name none none
  name_bytes ← serialize_lp_string_bytes env lps
  concat_array (bytes address_bytes ∷ bytes name_bytes ∷ [])

-- A string behind the length of its bytes.
unfoldable pub serialize_string : Bytes → Result Bytes
serialize_string str = concat_array (bytes (write_uint32_be (length str)) ∷ bytes str ∷ [])

-- `charCodeAt(i) & 0xff`
unfoldable pub ascii_to_bytes : JsString → Bytes
ascii_to_bytes s = map (λ c. c % 256) s

-- The loop over the sorted keys; the bytes of a value are computed in its turn.
unfoldable pub serialize_sorted : Platform → List (JsString × Result Bytes) → Result (List Part)
serialize_sorted env [] = ok []
serialize_sorted env ((key, value) ∷ rest) = do
  name_with_length ← create_lp_string env key none none
  name_bytes ← serialize_lp_string_bytes env name_with_length
  value_bytes ← value
  parts ← serialize_sorted env rest
  ok (bytes name_bytes ∷ bytes value_bytes ∷ parts)

unfoldable mutual
  pub serialize_cv_bytes : Platform → ClarityValue → Result Bytes
  serialize_cv_bytes env (integer value) = do
    twos ← to_twos value 128
    bs ← big_int_to_bytes twos 16
    bytes_with_type_id 0x00 bs
  serialize_cv_bytes env (unsigned value) = do
    bs ← big_int_to_bytes value 16
    bytes_with_type_id 0x01 bs
  serialize_cv_bytes env (buffer value) = do bs ← serialize_buffer value; bytes_with_type_id 0x02 bs
  serialize_cv_bytes env bool_true = ok (0x03 ∷ [])
  serialize_cv_bytes env bool_false = ok (0x04 ∷ [])
  serialize_cv_bytes env (principal_standard value) = do
    bs ← serialize_standard_principal env value
    bytes_with_type_id 0x05 bs
  serialize_cv_bytes env (principal_contract value) = do
    bs ← serialize_contract_principal env value
    bytes_with_type_id 0x06 bs
  serialize_cv_bytes env (response_ok value) = do
    bs ← serialize_cv_bytes env value
    bytes_with_type_id 0x07 bs
  serialize_cv_bytes env (response_err value) = do
    bs ← serialize_cv_bytes env value
    bytes_with_type_id 0x08 bs
  serialize_cv_bytes env optional_none = ok (0x09 ∷ [])
  serialize_cv_bytes env (optional_some value) = do
    bs ← serialize_cv_bytes env value
    bytes_with_type_id 0x0a bs
  serialize_cv_bytes env (list values) = do
    parts ← serialize_values env values
    bs ← concat_array (bytes (write_uint32_be (count_values values)) ∷ parts)
    bytes_with_type_id 0x0b bs
  serialize_cv_bytes env (tuple data') = do
    parts ← serialize_sorted env (sort_keys env.locale_le (serialize_entries env data'))
    bs ← concat_array (bytes (write_uint32_be (count_entries data')) ∷ parts)
    bytes_with_type_id 0x0c bs
  serialize_cv_bytes env (string_ascii value) = do
    bs ← serialize_string (ascii_to_bytes value)
    bytes_with_type_id 0x0d bs
  serialize_cv_bytes env (string_utf8 value) = do
    bs ← serialize_string (env.utf8_to_bytes value)
    bytes_with_type_id 0x0e bs

  pub serialize_values : Platform → Values → Result (List Part)
  serialize_values env nil = ok []
  serialize_values env (cons value values) = do
    bs ← serialize_cv_bytes env value
    parts ← serialize_values env values
    ok (bytes bs ∷ parts)

  pub serialize_entries : Platform → TupleData → List (JsString × Result Bytes)
  serialize_entries env empty = []
  serialize_entries env (entry key value data') =
      (key, serialize_cv_bytes env value) ∷ serialize_entries env data'

unfoldable pub serialize_cv : Platform → ClarityValue → Result JsString
serialize_cv env value = do bs ← serialize_cv_bytes env value; ok (bytes_to_hex bs)
