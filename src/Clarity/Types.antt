-- ===== src/Clarity/Types.antt =====
-- packages/transactions/src/clarity/types.ts and constants.ts: Clarity values. A constructor is a
-- member of `ClarityType`; the value of an integer is a bigint, as `intCV` and `uintCV` leave it.
use funai_sdk.Prelude.{ℕ, suc, Option, none, some, ◌==◌, if◌then◌else◌}
use funai_sdk.Prelude.Int.{ℤ}
use funai_sdk.Js.Text.{JsString}

mutual
  pub data ClarityValue : Type 0 where
    integer : ℤ → ClarityValue
    unsigned : ℤ → ClarityValue
    -- the hex text of the bytes
    buffer : JsString → ClarityValue
    bool_true bool_false : ClarityValue
    -- a c32 address
    principal_standard : JsString → ClarityValue
    -- a c32 address, a dot and a name
    principal_contract : JsString → ClarityValue
    response_ok : ClarityValue → ClarityValue
    response_err : ClarityValue → ClarityValue
    optional_none : ClarityValue
    optional_some : ClarityValue → ClarityValue
    list : Values → ClarityValue
    tuple : TupleData → ClarityValue
    string_ascii : JsString → ClarityValue
    string_utf8 : JsString → ClarityValue

  pub data Values : Type 0 where
    nil : Values
    cons : ClarityValue → Values → Values

  -- An object's own properties, in the order of its keys.
  pub data TupleData : Type 0 where
    empty : TupleData
    entry : JsString → ClarityValue → TupleData → TupleData

pub data ClarityWireType : Type 0 where
  int_type uint_type buffer_type true_type false_type address_type contract_type : ClarityWireType
  ok_type err_type none_type some_type list_type tuple_type ascii_type utf8_type : ClarityWireType

-- `clarityTypeToByte(value.type)`
unfoldable pub clarity_type_to_byte : ClarityValue → ℕ
clarity_type_to_byte (integer _) = 0x00
clarity_type_to_byte (unsigned _) = 0x01
clarity_type_to_byte (buffer _) = 0x02
clarity_type_to_byte bool_true = 0x03
clarity_type_to_byte bool_false = 0x04
clarity_type_to_byte (principal_standard _) = 0x05
clarity_type_to_byte (principal_contract _) = 0x06
clarity_type_to_byte (response_ok _) = 0x07
clarity_type_to_byte (response_err _) = 0x08
clarity_type_to_byte optional_none = 0x09
clarity_type_to_byte (optional_some _) = 0x0a
clarity_type_to_byte (list _) = 0x0b
clarity_type_to_byte (tuple _) = 0x0c
clarity_type_to_byte (string_ascii _) = 0x0d
clarity_type_to_byte (string_utf8 _) = 0x0e

-- The member of `ClarityWireType` that a number stands for.
unfoldable pub wire_type : ℕ → Option ClarityWireType
wire_type n =
    if n == 0x00
    then some int_type
    else if n == 0x01
    then some uint_type
    else if n == 0x02
    then some buffer_type
    else if n == 0x03
    then some true_type
    else if n == 0x04
    then some false_type
    else if n == 0x05
    then some address_type
    else if n == 0x06
    then some contract_type
    else if n == 0x07
    then some ok_type
    else if n == 0x08
    then some err_type
    else if n == 0x09
    then some none_type
    else if n == 0x0a
    then some some_type
    else if n == 0x0b
    then some list_type
    else if n == 0x0c
    then some tuple_type
    else if n == 0x0d
    then some ascii_type
    else if n == 0x0e
    then some utf8_type
    else none

abbrev pub count_values : Values → ℕ
count_values nil = 0
count_values (cons _ vs) = suc (count_values vs)

abbrev pub count_entries : TupleData → ℕ
count_entries empty = 0
count_entries (entry _ _ d) = suc (count_entries d)
