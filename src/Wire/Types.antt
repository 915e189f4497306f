-- ===== src/Wire/Types.antt =====
-- packages/transactions/src/wire/types.ts: addresses, strings, assets and principals. The `type`
-- tags of the program are the types here.
use funai_sdk.Prelude.{ℕ, zero, suc, Option, none, some}
use funai_sdk.Js.Text.{JsString}
use funai_sdk.Js.Number.{Number}

-- A version that is read past the end of the bytes is NaN.
pub record AddressWire : Type 0 where
  pub version : Number
  pub hash160 : JsString

pub record LengthPrefixedStringWire : Type 0 where
  pub content : JsString
  pub length_prefix_bytes : ℕ
  pub max_length_bytes : ℕ

pub record MemoStringWire : Type 0 where
  pub content : JsString

pub record AssetWire : Type 0 where
  pub address : AddressWire
  pub contract_name : LengthPrefixedStringWire
  pub asset_name : LengthPrefixedStringWire

pub data PostConditionPrincipalId : Type 0 where
  origin_id standard_id contract_id : PostConditionPrincipalId

-- The member that a number stands for.
unfoldable pub principal_id : ℕ → Option PostConditionPrincipalId
principal_id (suc zero) = some origin_id
principal_id (suc (suc zero)) = some standard_id
principal_id (suc (suc (suc zero))) = some contract_id
principal_id _ = none

pub data PostConditionPrincipalWire : Type 0 where
  origin : PostConditionPrincipalWire
  standard : AddressWire → PostConditionPrincipalWire
  contract : AddressWire → LengthPrefixedStringWire → PostConditionPrincipalWire
