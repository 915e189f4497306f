-- ===== src/Transaction/Types.antt =====
-- packages/transactions/src/transaction.ts: the fields of a transaction, and the enumerations of
-- packages/network/src/constants.ts and packages/transactions/src/constants.ts that they take.
use funai_sdk.Prelude.{ℕ, Option, none, some, List, ◌==◌, if◌then◌else◌}
use funai_sdk.Js.Number.{Number}
use funai_sdk.PostCondition.Types.{PostConditionWire}
use funai_sdk.Payload.Types.{PayloadWire}
use funai_sdk.Auth.Types.{Authorization}

pub data TransactionVersion : Type 0 where
  mainnet testnet : TransactionVersion

pub data AnchorMode : Type 0 where
  on_chain_only off_chain_only any : AnchorMode

pub data PostConditionMode : Type 0 where
  allow deny : PostConditionMode

-- The prefix of the list of post-conditions has four bytes, as `createLPList` makes it.
pub record FunaiTransactionWire : Type 0 where
  pub transaction_version : TransactionVersion
  pub chain_id : Number
  pub auth : Authorization
  pub anchor_mode : AnchorMode
  pub post_condition_mode : PostConditionMode
  pub post_conditions : List PostConditionWire
  pub payload : PayloadWire

unfoldable pub version_byte : TransactionVersion → ℕ
version_byte mainnet = 0x00
version_byte testnet = 0x80

unfoldable pub transaction_version_of : ℕ → Option TransactionVersion
transaction_version_of n =
    if n == 0x00 then some mainnet else if n == 0x80 then some testnet else none

unfoldable pub anchor_mode_byte : AnchorMode → ℕ
anchor_mode_byte on_chain_only = 1
anchor_mode_byte off_chain_only = 2
anchor_mode_byte any = 3

unfoldable pub anchor_mode_of : ℕ → Option AnchorMode
anchor_mode_of n =
    if n == 1
    then some on_chain_only
    else if n == 2
    then some off_chain_only
    else if n == 3
    then some any
    else none

unfoldable pub mode_byte : PostConditionMode → ℕ
mode_byte allow = 1
mode_byte deny = 2

unfoldable pub post_condition_mode_of : ℕ → Option PostConditionMode
post_condition_mode_of n = if n == 1 then some allow else if n == 2 then some deny else none
