-- ===== src/PostCondition/Types.antt =====
-- packages/transactions/src/wire/types.ts and constants.ts: post-conditions.
use funai_sdk.Prelude.{ℕ, Option, none, some, ◌==◌, if◌then◌else◌}
use funai_sdk.Prelude.Int.{ℤ}
use funai_sdk.Wire.Types.{AssetWire, PostConditionPrincipalWire}
use funai_sdk.Clarity.Types.{ClarityValue}

pub data FungibleConditionCode : Type 0 where
  equal greater greater_equal less less_equal : FungibleConditionCode

pub data NonFungibleConditionCode : Type 0 where
  sends does_not_send : NonFungibleConditionCode

pub data PostConditionType : Type 0 where
  stx_type fungible_type non_fungible_type : PostConditionType

pub data PostConditionWire : Type 0 where
  stx : PostConditionPrincipalWire → FungibleConditionCode → ℤ → PostConditionWire
  fungible : PostConditionPrincipalWire → FungibleConditionCode → ℤ → AssetWire → PostConditionWire
  -- The last argument is `assetName`.
  non_fungible :
      PostConditionPrincipalWire
      → NonFungibleConditionCode
      → AssetWire
      → ClarityValue
      → PostConditionWire

unfoldable pub fungible_code_byte : FungibleConditionCode → ℕ
fungible_code_byte equal = 0x01
fungible_code_byte greater = 0x02
fungible_code_byte greater_equal = 0x03
fungible_code_byte less = 0x04
fungible_code_byte less_equal = 0x05

unfoldable pub fungible_code : ℕ → Option FungibleConditionCode
fungible_code n =
    if n == 0x01
    then some equal
    else if n == 0x02
    then some greater
    else if n == 0x03
    then some greater_equal
    else if n == 0x04
    then some less
    else if n == 0x05
    then some less_equal
    else none

unfoldable pub non_fungible_code_byte : NonFungibleConditionCode → ℕ
non_fungible_code_byte sends = 0x10
non_fungible_code_byte does_not_send = 0x11

unfoldable pub non_fungible_code : ℕ → Option NonFungibleConditionCode
non_fungible_code n =
    if n == 0x10 then some sends else if n == 0x11 then some does_not_send else none

unfoldable pub post_condition_type : ℕ → Option PostConditionType
post_condition_type n =
    if n == 0x00
    then some stx_type
    else if n == 0x01
    then some fungible_type
    else if n == 0x02
    then some non_fungible_type
    else none
