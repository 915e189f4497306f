-- ===== src/Wire/Create.antt =====
-- packages/transactions/src/wire/create.ts and helpers.ts: addresses and strings.
use funai_sdk.Prelude.{
  ℕ, zero, suc, Bool, false, Option, none, some, ltb, if◌then◌else◌, length, [], ◌∷◌, replicate,
}
use funai_sdk.Prelude.Int.{pos}
use funai_sdk.Js.Text.{JsString}
use funai_sdk.Js.Number.{int}
use funai_sdk.Js.Result.{Result, ok, err, ◌>>=◌, string_too_long, memo_too_long}
use funai_sdk.Platform.{Platform}
use funai_sdk.Wire.Types.{
  AddressWire, LengthPrefixedStringWire, MemoStringWire, AssetWire, PostConditionPrincipalWire,
  standard, contract,
}

-- `a || d`, where an argument may be left out: 0 is replaced too.
abbrev pub or_default : Option ℕ → ℕ → ℕ
or_default none d = d
or_default (some zero) d = d
or_default (some (suc a)) d = suc a

-- `a ?? d`
abbrev pub some_or : Option ℕ → ℕ → ℕ
some_or none d = d
some_or (some a) d = a

abbrev pub max_string_length_bytes : ℕ
max_string_length_bytes = 128

abbrev pub memo_max_length_bytes : ℕ
memo_max_length_bytes = 34

-- The empty string is falsy.
unfoldable pub exceeds_max_length_bytes : Platform → JsString → ℕ → Bool
exceeds_max_length_bytes env [] max_length_bytes = false
exceeds_max_length_bytes env (c ∷ cs) max_length_bytes =
    ltb max_length_bytes (length (env.utf8_to_bytes (c ∷ cs)))

unfoldable pub create_lp_string :
    Platform → JsString → Option ℕ → Option ℕ → Result LengthPrefixedStringWire
create_lp_string env content length_prefix_bytes max_length_bytes =
    let max_length = or_default max_length_bytes max_string_length_bytes in
    if exceeds_max_length_bytes env content max_length
    then err string_too_long
    else ok (record {
      content = content;
      length_prefix_bytes = or_default length_prefix_bytes 1;
      max_length_bytes = max_length;
    })

unfoldable pub create_memo_string : Platform → JsString → Result MemoStringWire
create_memo_string env content =
    if exceeds_max_length_bytes env content memo_max_length_bytes
    then err memo_too_long
    else ok (record { content = content })

unfoldable pub create_address : Platform → JsString → Result AddressWire
create_address env c32_address_string = do
  (version, hash160) ← env.c32_address_decode c32_address_string
  ok (record { version = version; hash160 = hash160 })

unfoldable pub address_to_string : Platform → AddressWire → Result JsString
address_to_string env address = env.c32_address address.version address.hash160

-- `'0'.repeat(40)` under the version 22 of single-signature addresses on mainnet.
abbrev pub create_empty_address : AddressWire
create_empty_address = record { version = int (pos 22); hash160 = replicate 40 b'0' }

unfoldable pub create_asset : Platform → JsString → JsString → JsString → Result AssetWire
create_asset env address_string contract_name asset_name = do
  address ← create_address env address_string
  contract_lps ← create_lp_string env contract_name none none
  asset_lps ← create_lp_string env asset_name none none
  ok (record { address = address; contract_name = contract_lps; asset_name = asset_lps })

unfoldable pub create_contract_principal :
    Platform → JsString → JsString → Result PostConditionPrincipalWire
create_contract_principal env address_string contract_name = do
  addr ← create_address env address_string
  name ← create_lp_string env contract_name none none
  ok (contract addr name)

unfoldable pub create_standard_principal : Platform → JsString → Result PostConditionPrincipalWire
create_standard_principal env address_string = do
  addr ← create_address env address_string
  ok (standard addr)
