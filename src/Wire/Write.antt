-- ===== src/Wire/Write.antt =====
-- packages/transactions/src/wire/serialization.ts: the serializers of addresses, strings, assets
-- and principals.
use funai_sdk.Prelude.{◌*◌, [], ◌∷◌, length}
use funai_sdk.Prelude.Int.{pos}
use funai_sdk.Js.Text.{pad_end}
use funai_sdk.Js.Result.{Result, ◌>>=◌}
use funai_sdk.Bytes.Hex.{Bytes, octet, bytes, concat_array, hex_to_bytes, bytes_to_hex}
use funai_sdk.Bytes.Ints.{int_to_hex, number_to_big_int}
use funai_sdk.Platform.{Platform}
use funai_sdk.Wire.Create.{memo_max_length_bytes}
use funai_sdk.Wire.Types.{
  AddressWire, LengthPrefixedStringWire, MemoStringWire, AssetWire, PostConditionPrincipalWire,
  origin, standard, contract,
}

unfoldable pub serialize_address_bytes : AddressWire → Result Bytes
serialize_address_bytes address = do
  version ← number_to_big_int address.version
  version_bytes ← hex_to_bytes (int_to_hex version 1)
  hash_bytes ← hex_to_bytes address.hash160
  concat_array (bytes version_bytes ∷ bytes hash_bytes ∷ [])

unfoldable pub serialize_lp_string_bytes : Platform → LengthPrefixedStringWire → Result Bytes
serialize_lp_string_bytes env lps = do
  let content_bytes = env.utf8_to_bytes lps.content
  length_bytes ← hex_to_bytes (int_to_hex (pos (length content_bytes)) lps.length_prefix_bytes)
  concat_array (bytes length_bytes ∷ bytes content_bytes ∷ [])

unfoldable pub serialize_memo_string_bytes : Platform → MemoStringWire → Result Bytes
serialize_memo_string_bytes env memo = do
  let content_bytes = env.utf8_to_bytes memo.content
  let padded = pad_end (bytes_to_hex content_bytes) (memo_max_length_bytes * 2) b'0'
  padded_bytes ← hex_to_bytes padded
  concat_array (bytes padded_bytes ∷ [])

unfoldable pub serialize_asset_bytes : Platform → AssetWire → Result Bytes
serialize_asset_bytes env info = do
  address ← serialize_address_bytes info.address
  contract_name ← serialize_lp_string_bytes env info.contract_name
  asset_name ← serialize_lp_string_bytes env info.asset_name
  concat_array (bytes address ∷ bytes contract_name ∷ bytes asset_name ∷ [])

unfoldable pub serialize_principal_bytes : Platform → PostConditionPrincipalWire → Result Bytes
serialize_principal_bytes env origin = concat_array (octet 1 ∷ [])
serialize_principal_bytes env (standard address) = do
  address_bytes ← serialize_address_bytes address
  concat_array (octet 2 ∷ bytes address_bytes ∷ [])
serialize_principal_bytes env (contract address contract_name) = do
  address_bytes ← serialize_address_bytes address
  name_bytes ← serialize_lp_string_bytes env contract_name
  concat_array (octet 3 ∷ bytes address_bytes ∷ bytes name_bytes ∷ [])
