-- ===== src/Clarity/Create.antt =====
-- packages/transactions/src/clarity/values: the functions that make Clarity values, and their
-- checks. (`listCV`, `someCV`, `noneCV`, `responseOkCV`, `responseErrorCV`, `trueCV`, `falseCV`,
-- `stringAsciiCV` and `stringUtf8CV` check nothing: they are the constructors.)
use funai_sdk.Prelude.{
  ◌-◌, ◌^◌, Bool, true, ◌&&◌, List, [], ◌∷◌, ◌++◌, none, ltb, leb, if◌then◌else◌, length,
}
use funai_sdk.Prelude.Int.{ℤ, pos, neg_of, ltb_ℤ}
use funai_sdk.Js.Text.{JsString, before, after, includes}
use funai_sdk.Js.Result.{
  Result, ok, err, ◌>>=◌, int_too_large, int_too_small, uint_negative, uint_too_large,
  buffer_too_large, contract_name_too_long, invalid_clarity_name,
}
use funai_sdk.Bytes.Hex.{Bytes, bytes_to_hex}
use funai_sdk.Platform.{Platform}
use funai_sdk.Wire.Types.{AddressWire, LengthPrefixedStringWire}
use funai_sdk.Wire.Create.{create_address, create_lp_string, address_to_string}
use funai_sdk.Clarity.Types.{
  ClarityValue, TupleData, integer, unsigned, buffer, principal_standard, principal_contract, tuple,
  empty, entry,
}
use funai_sdk.Clarity.Names.{is_clarity_name}

-- `intCV` and `uintCV` of a bigint.
unfoldable pub int_cv : ℤ → Result ClarityValue
int_cv value =
    if ltb_ℤ (pos (2 ^ 127 - 1)) value
    then err int_too_large
    else if ltb_ℤ value (neg_of (2 ^ 127))
    then err int_too_small
    else ok (integer value)

unfoldable pub uint_cv : ℤ → Result ClarityValue
uint_cv value =
    if ltb_ℤ value (pos 0)
    then err uint_negative
    else if ltb_ℤ (pos (2 ^ 128 - 1)) value
    then err uint_too_large
    else ok (unsigned value)

unfoldable pub buffer_cv : Bytes → Result ClarityValue
buffer_cv bytes =
    if ltb 1_048_576 (length bytes) then err buffer_too_large else ok (buffer (bytes_to_hex bytes))

unfoldable pub standard_principal_cv_from_address : Platform → AddressWire → Result ClarityValue
standard_principal_cv_from_address env address = do
  value ← address_to_string env address
  ok (principal_standard value)

unfoldable pub standard_principal_cv : Platform → JsString → Result ClarityValue
standard_principal_cv env address_string = do
  addr ← create_address env address_string
  standard_principal_cv_from_address env addr

unfoldable pub contract_principal_cv_from_address :
    Platform → AddressWire → LengthPrefixedStringWire → Result ClarityValue
contract_principal_cv_from_address env address contract_name =
    if leb 128 (length (env.utf8_to_bytes contract_name.content))
    then err contract_name_too_long
    else (do
      value ← address_to_string env address
      ok (principal_contract (value ++ (b'.' ∷ contract_name.content))))

unfoldable pub contract_principal_cv : Platform → JsString → JsString → Result ClarityValue
contract_principal_cv env address_string contract_name = do
  addr ← create_address env address_string
  name ← create_lp_string env contract_name none none
  contract_principal_cv_from_address env addr name

-- `principal.split('.')`
unfoldable pub principal_cv : Platform → JsString → Result ClarityValue
principal_cv env principal =
    if includes b'.' principal
    then contract_principal_cv env (before b'.' principal) (before b'.' (after b'.' principal))
    else standard_principal_cv env principal

-- `for (const key in data)`: every key is checked.
unfoldable pub all_clarity_names : List (JsString × ClarityValue) → Bool
all_clarity_names [] = true
all_clarity_names ((key, _) ∷ data') = is_clarity_name key && all_clarity_names data'

unfoldable pub to_tuple_data : List (JsString × ClarityValue) → TupleData
to_tuple_data [] = empty
to_tuple_data ((key, value) ∷ data') = entry key value (to_tuple_data data')

unfoldable pub tuple_cv : List (JsString × ClarityValue) → Result ClarityValue
tuple_cv data' =
    if all_clarity_names data' then ok (tuple (to_tuple_data data')) else err invalid_clarity_name
