-- ===== src/PostCondition/Read.antt =====
-- packages/transactions/src/wire/serialization.ts: the deserializer of post-conditions.
use funai_sdk.Prelude.Int.{pos}
use funai_sdk.Js.Number.{int}
use funai_sdk.Js.Result.{unknown_post_condition, unknown_condition_code}
use funai_sdk.Platform.{Platform}
use funai_sdk.Reader.{Reader, pure, ◌>>=◌, read_uint8_enum, read_big_uint_be}
use funai_sdk.Wire.Types.{PostConditionPrincipalWire}
use funai_sdk.Wire.Read.{deserialize_asset, deserialize_principal}
use funai_sdk.Clarity.Deserialize.{deserialize_cv}
use funai_sdk.PostCondition.Types.{
  PostConditionType, stx_type, fungible_type, non_fungible_type, PostConditionWire, stx, fungible,
  non_fungible, fungible_code, non_fungible_code, post_condition_type,
}

unfoldable pub deserialize_condition_of :
    Platform → PostConditionPrincipalWire → PostConditionType → Reader PostConditionWire
deserialize_condition_of env principal stx_type = do
  code ← read_uint8_enum fungible_code unknown_condition_code
  amount ← read_big_uint_be (int (pos 8))
  pure (stx principal code (pos amount))
deserialize_condition_of env principal fungible_type = do
  asset ← deserialize_asset env
  code ← read_uint8_enum fungible_code unknown_condition_code
  amount ← read_big_uint_be (int (pos 8))
  pure (fungible principal code (pos amount) asset)
deserialize_condition_of env principal non_fungible_type = do
  asset ← deserialize_asset env
  asset_name ← deserialize_cv env
  code ← read_uint8_enum non_fungible_code unknown_condition_code
  pure (non_fungible principal code asset asset_name)

unfoldable pub deserialize_post_condition : Platform → Reader PostConditionWire
deserialize_post_condition env = do
  type ← read_uint8_enum post_condition_type unknown_post_condition
  principal ← deserialize_principal env
  deserialize_condition_of env principal type
