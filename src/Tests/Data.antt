-- ===== src/Tests/Data.antt =====
-- Concrete values on the sample platform.
use funai_sdk.Prelude.{ℕ, ◌+◌, ◌≡◌, ◌≢◌, refl, ap, true, [], ◌∷◌, replicate, All, arith}
use funai_sdk.Prelude.Int.{pos, negsuc}
use funai_sdk.Js.Text.{JsString, js}
use funai_sdk.Js.Number.{int}
use funai_sdk.Bytes.Hex.{Bytes, bytes_to_hex}
use funai_sdk.Platform.{IsHash160, IsAscii, IsScalarText-ascii}
use funai_sdk.Platform.Sample.{sample_platform}
use funai_sdk.Wire.Types.{
  AddressWire, AssetWire, MemoStringWire, PostConditionPrincipalWire, contract,
}
use funai_sdk.Wire.Strings.{name_of}
use funai_sdk.Wire.RoundTrip.{IsAddress, IsName, IsAsset, IsPrincipal}
use funai_sdk.Wire.Memo.{IsMemo}
use funai_sdk.Clarity.Types.{
  ClarityValue, TupleData, integer, bool_true, list, tuple, string_utf8, cons, nil, entry, empty,
  principal_standard, optional_some,
}
use funai_sdk.Clarity.Names.{
  is_clarity_name, matches_name, all_name_chars, is_name_char, is_symbol_name, is_operator,
  is_order,
}
use funai_sdk.Clarity.Valid.{IsValid, IsStandard, entries}
use funai_sdk.PostCondition.Types.{PostConditionWire, non_fungible, sends}
use funai_sdk.PostCondition.RoundTrip.{IsPostCondition}
use funai_sdk.Payload.Types.{PayloadWire, contract_call}
use funai_sdk.Payload.Valid.{IsPayload}

abbrev pub hash_bytes : Bytes
hash_bytes = replicate 20 7

abbrev pub hash_text : JsString
hash_text = bytes_to_hex hash_bytes

pub hash_text-IsHash160 : IsHash160 hash_text
hash_text-IsHash160 = record {
  data_bytes = hash_bytes;
  are_bytes = omega arith;
  twenty = refl;
  text = refl;
}

abbrev pub owner : AddressWire
owner = record { version = int (pos 22); hash160 = hash_text }

pub owner-IsAddress : IsAddress owner
owner-IsAddress = record {
  version = 22;
  version_byte = omega arith;
  same_version = refl;
  hash = hash_text-IsHash160;
}

-- The text of `owner`.
abbrev pub owner_text : JsString
owner_text = (65 + 22) ∷ hash_text

pub owner_text-IsStandard : IsStandard sample_platform owner_text
owner_text-IsStandard = record {
  version = 22;
  hash160 = hash_text;
  five_bits = omega arith;
  hash = hash_text-IsHash160;
  encodes = refl;
}

abbrev pub token : JsString
token = js "token"

pub token-IsAscii : All IsAscii token
token-IsAscii = omega arith

pub token-IsName : IsName sample_platform (name_of token)
token-IsName = record {
  scalar = IsScalarText-ascii token token-IsAscii;
  fits = omega arith;
  same_prefix = refl;
  same_max = refl;
}

abbrev pub thanks : MemoStringWire
thanks = record { content = js "thanks" }

pub thanks-IsMemo : IsMemo sample_platform thanks
thanks-IsMemo = record {
  scalar = IsScalarText-ascii (js "thanks") (omega arith);
  fits = omega arith;
  no_null = refl;
}

abbrev pub token_asset : AssetWire
token_asset = record { address = owner; contract_name = name_of token; asset_name = name_of token }

pub token_asset-IsAsset : IsAsset sample_platform token_asset
token_asset-IsAsset = record {
  address = owner-IsAddress;
  contract_name = token-IsName;
  asset_name = token-IsName;
}

abbrev pub token_contract : PostConditionPrincipalWire
token_contract = contract owner (name_of token)

pub token_contract-IsPrincipal : IsPrincipal sample_platform token_contract
token_contract-IsPrincipal = (owner-IsAddress, token-IsName)

-- { b: -5, a: [true, some 'SP…', u"hi"] }
abbrev pub pair_data : TupleData
pair_data = entry (js "b") (integer (negsuc 4)) (
    entry (js "a")
      (list (
        cons bool_true (
          cons (optional_some (principal_standard owner_text)) (cons (string_utf8 (js "hi")) nil))))
      empty)

abbrev pub pair : ClarityValue
pair = tuple pair_data

head_of : JsString → ℕ
head_of [] = 0
head_of (c ∷ cs) = c

keys_differ : js "a" ≢ js "b"
unfolding head_of
keys_differ p = absurd (omega (arith, ap head_of p))

is_clarity_name-keys : (is_clarity_name (js "a") ≡ true) × (is_clarity_name (js "b") ≡ true)
unfolding is_clarity_name matches_name all_name_chars is_name_char is_symbol_name is_operator
    is_order
is_clarity_name-keys = (refl, refl)

pub pair-IsValid : IsValid sample_platform pair
unfolding entries
pair-IsValid = (
  omega arith,
  ((keys_differ, tt), (tt, tt)),
  (
    is_clarity_name-keys.1,
    omega arith,
    (
      is_clarity_name-keys.0,
      (
        omega arith,
        (
          tt,
          (owner_text-IsStandard, ((IsScalarText-ascii (js "hi") (omega arith), omega arith), tt)),
        ),
      ),
      tt,
    ),
  ),
)

-- The owner sends the token that `pair` names.
abbrev pub sends_pair : PostConditionWire
sends_pair = non_fungible token_contract sends token_asset pair

pub sends_pair-IsPostCondition : IsPostCondition sample_platform sends_pair
sends_pair-IsPostCondition = (token_contract-IsPrincipal, token_asset-IsAsset, pair-IsValid)

abbrev pub call : PayloadWire
call = contract_call (record {
  contract_address = owner;
  contract_name = name_of token;
  function_name = name_of (js "transfer");
  function_args = cons pair nil;
})

pub call-IsPayload : IsPayload sample_platform call
call-IsPayload = record {
  contract_address = owner-IsAddress;
  contract_name = token-IsName;
  function_name = record {
    scalar = IsScalarText-ascii (js "transfer") (omega arith);
    fits = omega arith;
    same_prefix = refl;
    same_max = refl;
  };
  few_args = omega arith;
  function_args = (pair-IsValid, tt);
}
