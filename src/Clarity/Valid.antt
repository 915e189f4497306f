-- ===== src/Clarity/Valid.antt =====
-- The Clarity values that the functions of clarity/values make, and the order that serialization
-- gives to the keys of their tuples.
use funai_sdk.Prelude.{ℕ, suc, ◌^◌, ◌≤◌, ◌<◌, ◌≡◌, true, false, List, [], ◌∷◌, ◌++◌, length, All}
use Prim.Native.Nat.{max}
use funai_sdk.Prelude.Int.{pos, negsuc}
use funai_sdk.Js.Text.{JsString, includes}
use funai_sdk.Js.Number.{int}
use funai_sdk.Js.Result.{ok}
use funai_sdk.Bytes.Hex.{Bytes, IsByte, bytes_to_hex}
use funai_sdk.Bytes.Twos.{Fits}
use funai_sdk.Platform.{Platform, IsScalarText, IsHash160}
use funai_sdk.Clarity.Types.{
  ClarityValue, Values, TupleData, integer, unsigned, buffer, bool_true, bool_false,
  principal_standard, principal_contract, response_ok, response_err, optional_none, optional_some,
  list, tuple, string_ascii, string_utf8, nil, cons, empty, entry, count_values, count_entries,
}
use funai_sdk.Clarity.Names.{is_clarity_name}
use funai_sdk.Clarity.Create.{to_tuple_data}
use funai_sdk.Clarity.Entries.{sort_keys, Distinct}

-- The text of at most a megabyte of bytes, as `bufferCV` makes it.
pub record IsBuffer (value : JsString) : Type 0 where
  pub data_bytes : Bytes
  pub are_bytes : All IsByte data_bytes
  pub fits : length data_bytes ≤ 1_048_576
  pub text : value ≡ bytes_to_hex data_bytes

module _ (env : Platform) where
  -- The c32 address of a version and a hash.
  pub record IsStandard (value : JsString) : Type 0 where
    pub version : ℕ
    pub hash160 : JsString
    pub five_bits : version < 32
    pub hash : IsHash160 hash160
    pub encodes : env.c32_address (int (pos version)) hash160 ≡ ok value

  pub record IsContract (value : JsString) : Type 0 where
    pub address : JsString
    pub name : JsString
    pub standard : IsStandard address
    pub scalar : IsScalarText name
    pub fits : length (env.utf8_to_bytes name) < 128
    pub no_dot : includes b'.' name ≡ false
    pub nonempty : 0 < length name
    pub text : value ≡ address ++ (b'.' ∷ name)

-- The entries of a tuple, as a list.
unfoldable pub entries : TupleData → List (JsString × ClarityValue)
entries empty = []
entries (entry key value data') = (key, value) ∷ entries data'

abbrev mutual
  pub IsValid : Platform → ClarityValue → Type 0
  IsValid env (integer value) = Fits 128 value
  IsValid env (unsigned (pos n)) = n < 2 ^ 128
  IsValid env (unsigned (negsuc n)) = ⊥
  IsValid env (buffer value) = IsBuffer value
  IsValid env bool_true = Unit {0}
  IsValid env bool_false = Unit {0}
  IsValid env (principal_standard value) = IsStandard env value
  IsValid env (principal_contract value) = IsContract env value
  IsValid env (response_ok value) = IsValid env value
  IsValid env (response_err value) = IsValid env value
  IsValid env optional_none = Unit {0}
  IsValid env (optional_some value) = IsValid env value
  IsValid env (list values) = (count_values values < 2 ^ 32) × AreValid env values
  IsValid env (tuple data') =
      (count_entries data' < 2 ^ 32) × Distinct (entries data') × HasValid env data'
  IsValid env (string_ascii value) = All IsByte value × (length value < 2 ^ 32)
  IsValid env (string_utf8 value) = IsScalarText value × (length (env.utf8_to_bytes value) < 2 ^ 32)

  pub AreValid : Platform → Values → Type 0
  AreValid env nil = Unit {0}
  AreValid env (cons value values) = IsValid env value × AreValid env values

  pub HasValid : Platform → TupleData → Type 0
  HasValid env empty = Unit {0}
  HasValid env (entry key value data') =
      (is_clarity_name key ≡ true) × IsValid env value × HasValid env data'

-- The keys of every tuple in the order of `localeCompare`.
unfoldable mutual
  pub canonical : Platform → ClarityValue → ClarityValue
  canonical env (integer value) = integer value
  canonical env (unsigned value) = unsigned value
  canonical env (buffer value) = buffer value
  canonical env bool_true = bool_true
  canonical env bool_false = bool_false
  canonical env (principal_standard value) = principal_standard value
  canonical env (principal_contract value) = principal_contract value
  canonical env (response_ok value) = response_ok (canonical env value)
  canonical env (response_err value) = response_err (canonical env value)
  canonical env optional_none = optional_none
  canonical env (optional_some value) = optional_some (canonical env value)
  canonical env (list values) = list (canonical_values env values)
  canonical env (tuple data') =
      tuple (to_tuple_data (sort_keys env.locale_le (canonical_entries env data')))
  canonical env (string_ascii value) = string_ascii value
  canonical env (string_utf8 value) = string_utf8 value

  pub canonical_values : Platform → Values → Values
  canonical_values env nil = nil
  canonical_values env (cons value values) =
      cons (canonical env value) (canonical_values env values)

  pub canonical_entries : Platform → TupleData → List (JsString × ClarityValue)
  canonical_entries env empty = []
  canonical_entries env (entry key value data') =
      (key, canonical env value) ∷ canonical_entries env data'

-- How deep a value nests.
unfoldable mutual
  pub depth : ClarityValue → ℕ
  depth (integer value) = 0
  depth (unsigned value) = 0
  depth (buffer value) = 0
  depth bool_true = 0
  depth bool_false = 0
  depth (principal_standard value) = 0
  depth (principal_contract value) = 0
  depth (response_ok value) = suc (depth value)
  depth (response_err value) = suc (depth value)
  depth optional_none = 0
  depth (optional_some value) = suc (depth value)
  depth (list values) = suc (depth_values values)
  depth (tuple data') = suc (depth_entries data')
  depth (string_ascii value) = 0
  depth (string_utf8 value) = 0

  pub depth_values : Values → ℕ
  depth_values nil = 0
  depth_values (cons value values) = max (depth value) (depth_values values)

  pub depth_entries : TupleData → ℕ
  depth_entries empty = 0
  depth_entries (entry key value data') = max (depth value) (depth_entries data')
