-- ===== src/PostCondition/Write.antt =====
-- packages/transactions/src/wire/serialization.ts: the serializer of post-conditions.
use funai_sdk.Prelude.{◌^◌, ◌-◌, if◌then◌else◌, [], ◌∷◌}
use funai_sdk.Prelude.Int.{ℤ, pos, ltb_ℤ}
use funai_sdk.Js.Result.{Result, err, ◌>>=◌, amount_too_large}
use funai_sdk.Bytes.Hex.{Bytes, octet, bytes, concat_array}
use funai_sdk.Bytes.Ints.{int_to_bytes}
use funai_sdk.Platform.{Platform}
use funai_sdk.Wire.Write.{serialize_asset_bytes, serialize_principal_bytes}
use funai_sdk.Clarity.Serialize.{serialize_cv_bytes}
use funai_sdk.PostCondition.Types.{
  PostConditionWire, stx, fungible, non_fungible, fungible_code_byte, non_fungible_code_byte,
}

unfoldable pub serialize_amount : ℤ → Result Bytes
serialize_amount amount =
    if ltb_ℤ (pos (2 ^ 64 - 1)) amount then err amount_too_large else int_to_bytes amount 8

unfoldable pub serialize_post_condition_bytes : Platform → PostConditionWire → Result Bytes
serialize_post_condition_bytes env (stx principal code amount) = do
  principal_bytes ← serialize_principal_bytes env principal
  amount_bytes ← serialize_amount amount
  concat_array (
      octet 0x00
      ∷ bytes principal_bytes
      ∷ octet (fungible_code_byte code)
      ∷ bytes amount_bytes
      ∷ [])
serialize_post_condition_bytes env (fungible principal code amount asset) = do
  principal_bytes ← serialize_principal_bytes env principal
  asset_bytes ← serialize_asset_bytes env asset
  amount_bytes ← serialize_amount amount
  concat_array (
      octet 0x01
      ∷ bytes principal_bytes
      ∷ bytes asset_bytes
      ∷ octet (fungible_code_byte code)
      ∷ bytes amount_bytes
      ∷ [])
serialize_post_condition_bytes env (non_fungible principal code asset asset_name) = do
  principal_bytes ← serialize_principal_bytes env principal
  asset_bytes ← serialize_asset_bytes env asset
  name_bytes ← serialize_cv_bytes env asset_name
  concat_array (
      octet 0x02
      ∷ bytes principal_bytes
      ∷ bytes asset_bytes
      ∷ bytes name_bytes
      ∷ octet (non_fungible_code_byte code)
      ∷ [])
