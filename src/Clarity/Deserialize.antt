-- ===== src/Clarity/Deserialize.antt =====
-- packages/transactions/src/clarity/deserialize.ts
use funai_sdk.Prelude.{ℕ, zero, suc, List, [], none, length}
use funai_sdk.Prelude.Int.{pos, negsuc}
use funai_sdk.Js.Text.{JsString}
use funai_sdk.Js.Number.{Number, nan, int}
use funai_sdk.Js.Result
use funai_sdk.Js.Result.{Result, ok, out_of_fuel, unknown_clarity_type}
use funai_sdk.Bytes.Hex.{Bytes}
use funai_sdk.Bytes.Ints.{bytes_to_big_int, bytes_to_twos}
use funai_sdk.Platform.{Platform}
use funai_sdk.Reader.{
  new_reader, Reader, pure, lift, ◌>>=◌, read_bytes, read_uint32, read_uint8_enum,
}
use funai_sdk.Wire.Read.{deserialize_address, deserialize_lp_string}
use funai_sdk.Clarity.Types.{
  ClarityValue, Values, ClarityWireType, bool_true, bool_false, response_ok, response_err,
  optional_none, optional_some, list, string_ascii, string_utf8, nil, cons, int_type, uint_type,
  buffer_type, true_type, false_type, address_type, contract_type, ok_type, err_type, none_type,
  some_type, list_type, tuple_type, ascii_type, utf8_type, wire_type,
}
use funai_sdk.Clarity.Create.{
  int_cv, uint_cv, buffer_cv, standard_principal_cv_from_address,
  contract_principal_cv_from_address, tuple_cv,
}
use funai_sdk.Clarity.Entries.{assign}

-- `for (let i = 0; i < n; i++)` makes no round where `n` is NaN.
unfoldable pub rounds : Number → ℕ
rounds nan = 0
rounds (int (pos n)) = n
rounds (int (negsuc n)) = 0

unfoldable pub uint_cv_from_bytes : Bytes → Result ClarityValue
uint_cv_from_bytes bs = Result.◌>>=◌ (bytes_to_big_int bs) (λ n. uint_cv (pos n))

unfoldable pub int_cv_from_bytes : Bytes → Result ClarityValue
int_cv_from_bytes bs = Result.◌>>=◌ (bytes_to_twos bs) int_cv

module _ (env : Platform) (self : Reader ClarityValue) where
  -- The loop of a list; `self` reads one value.
  unfoldable pub read_values : ℕ → Reader Values
  read_values zero = pure nil
  read_values (suc n) = do value ← self; values ← read_values n; pure (cons value values)

  -- The loop of a tuple.
  unfoldable pub read_entries :
      ℕ → List (JsString × ClarityValue) → Reader (List (JsString × ClarityValue))
  read_entries zero data' = pure data'
  read_entries (suc n) data' = do
    lps ← deserialize_lp_string env none none
    value ← self
    read_entries n (assign lps.content value data')

  unfoldable pub deserialize_as : ClarityWireType → Reader ClarityValue
  deserialize_as int_type = do bs ← read_bytes (int (pos 16)); lift (int_cv_from_bytes bs)
  deserialize_as uint_type = do bs ← read_bytes (int (pos 16)); lift (uint_cv_from_bytes bs)
  deserialize_as buffer_type = do
    buffer_length ← read_uint32
    bs ← read_bytes buffer_length
    lift (buffer_cv bs)
  deserialize_as true_type = pure bool_true
  deserialize_as false_type = pure bool_false
  deserialize_as address_type = do
    address ← deserialize_address
    lift (standard_principal_cv_from_address env address)
  deserialize_as contract_type = do
    address ← deserialize_address
    contract_name ← deserialize_lp_string env none none
    lift (contract_principal_cv_from_address env address contract_name)
  deserialize_as ok_type = do value ← self; pure (response_ok value)
  deserialize_as err_type = do value ← self; pure (response_err value)
  deserialize_as none_type = pure optional_none
  deserialize_as some_type = do value ← self; pure (optional_some value)
  deserialize_as list_type = do
    list_length ← read_uint32
    values ← read_values (rounds list_length)
    pure (list values)
  deserialize_as tuple_type = do
    tuple_length ← read_uint32
    contents ← read_entries (rounds tuple_length) []
    lift (tuple_cv contents)
  deserialize_as ascii_type = do
    ascii_length ← read_uint32
    bs ← read_bytes ascii_length
    pure (string_ascii bs)
  deserialize_as utf8_type = do
    utf8_length ← read_uint32
    bs ← read_bytes utf8_length
    pure (string_utf8 (env.bytes_to_utf8 bs))

-- Each level of nesting costs a unit of fuel, and takes a byte at least.
unfoldable pub deserialize_cv_fuel : Platform → ℕ → Reader ClarityValue
deserialize_cv_fuel env zero = lift out_of_fuel
deserialize_cv_fuel env (suc f) = do
  type ← read_uint8_enum wire_type unknown_clarity_type
  deserialize_as env (deserialize_cv_fuel env f) type

-- The nesting is never deeper than the source is long.
unfoldable pub deserialize_cv : Platform → Reader ClarityValue
deserialize_cv env r = deserialize_cv_fuel env (suc (length r.source)) r

-- `deserializeCV` of a byte array, and of a hex text. (`hexToBytes` drops a `0x` too.)
unfoldable pub deserialize_cv_bytes : Platform → Bytes → Result ClarityValue
deserialize_cv_bytes env bs =
    Result.◌>>=◌ (deserialize_cv env (new_reader bs)) (λ (value, _). ok value)
