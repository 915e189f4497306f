-- ===== src/Payload/Types.antt =====
-- packages/transactions/src/wire/types.ts and constants.ts: payloads. `as PrincipalCV` checks
-- nothing, so a recipient is any Clarity value here.
use funai_sdk.Prelude.{ℕ, Option, none, some, ◌==◌, if◌then◌else◌}
use funai_sdk.Prelude.Int.{ℤ}
use funai_sdk.Js.Text.{JsString}
use funai_sdk.Js.Number.{Number}
use funai_sdk.Bytes.Hex.{Bytes}
use funai_sdk.Wire.Types.{AddressWire, LengthPrefixedStringWire, MemoStringWire}
use funai_sdk.Clarity.Types.{ClarityValue, Values}

pub data PayloadType : Type 0 where
  token_transfer_type smart_contract_type versioned_smart_contract_type : PayloadType
  contract_call_type poison_microblock_type coinbase_type : PayloadType
  coinbase_to_alt_recipient_type tenure_change_type nakamoto_coinbase_type : PayloadType
  infer_type register_model_type : PayloadType

pub data ClarityVersion : Type 0 where
  clarity1 clarity2 clarity3 : ClarityVersion

pub data TenureChangeCause : Type 0 where
  block_found extended : TenureChangeCause

-- `coinbaseBytes` and `vrfProof` are byte arrays, the hashes are hex texts.
pub record TenureChange : Type 0 where
  pub tenure_hash : JsString
  pub previous_tenure_hash : JsString
  pub burn_view_hash : JsString
  pub previous_tenure_end : JsString
  pub previous_tenure_blocks : Number
  pub cause : TenureChangeCause
  pub public_key_hash : JsString

pub record Infer : Type 0 where
  pub infer_user_address : ClarityValue
  pub amount : ℤ
  pub user_input : LengthPrefixedStringWire
  pub context : LengthPrefixedStringWire
  pub node_principal : ClarityValue
  pub model_name : LengthPrefixedStringWire
  pub output_hash : LengthPrefixedStringWire

pub record ContractCall : Type 0 where
  pub contract_address : AddressWire
  pub contract_name : LengthPrefixedStringWire
  pub function_name : LengthPrefixedStringWire
  pub function_args : Values

pub data PayloadWire : Type 0 where
  -- recipient, amount, memo
  token_transfer : ClarityValue → ℤ → MemoStringWire → PayloadWire
  infer : Infer → PayloadWire
  -- name and parameters of the model
  register_model : LengthPrefixedStringWire → LengthPrefixedStringWire → PayloadWire
  contract_call : ContractCall → PayloadWire
  -- contract name, code body
  smart_contract : LengthPrefixedStringWire → LengthPrefixedStringWire → PayloadWire
  versioned_smart_contract :
      ClarityVersion → LengthPrefixedStringWire → LengthPrefixedStringWire → PayloadWire
  poison_microblock : PayloadWire
  coinbase : Bytes → PayloadWire
  coinbase_to_alt_recipient : Bytes → ClarityValue → PayloadWire
  -- bytes, recipient, proof
  nakamoto_coinbase : Bytes → Option ClarityValue → Bytes → PayloadWire
  tenure_change : TenureChange → PayloadWire

-- The members that a number stands for.
unfoldable pub payload_type : ℕ → Option PayloadType
payload_type n =
    if n == 0x00
    then some token_transfer_type
    else if n == 0x01
    then some smart_contract_type
    else if n == 0x06
    then some versioned_smart_contract_type
    else if n == 0x02
    then some contract_call_type
    else if n == 0x03
    then some poison_microblock_type
    else if n == 0x04
    then some coinbase_type
    else if n == 0x05
    then some coinbase_to_alt_recipient_type
    else if n == 0x07
    then some tenure_change_type
    else if n == 0x08
    then some nakamoto_coinbase_type
    else if n == 0x09
    then some infer_type
    else if n == 0x0a
    then some register_model_type
    else none

unfoldable pub clarity_version : ℕ → Option ClarityVersion
clarity_version n =
    if n == 1
    then some clarity1
    else if n == 2
    then some clarity2
    else if n == 3
    then some clarity3
    else none

unfoldable pub clarity_version_byte : ClarityVersion → ℕ
clarity_version_byte clarity1 = 1
clarity_version_byte clarity2 = 2
clarity_version_byte clarity3 = 3

unfoldable pub tenure_change_cause : ℕ → Option TenureChangeCause
tenure_change_cause n = if n == 0 then some block_found else if n == 1 then some extended else none

unfoldable pub cause_byte : TenureChangeCause → ℕ
cause_byte block_found = 0
cause_byte extended = 1
