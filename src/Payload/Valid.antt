-- ===== src/Payload/Valid.antt =====
-- The payloads that serialization keeps, and the form in which they read back.
use funai_sdk.Prelude.{ℕ, ◌<◌, ◌^◌, ◌≡◌, Option, none, some, length, All}
use funai_sdk.Prelude.Int.{pos, negsuc}
use funai_sdk.Js.Number.{Number, nan, int}
use funai_sdk.Bytes.Hex.{Bytes, IsByte}
use funai_sdk.Platform.{Platform}
use funai_sdk.Wire.RoundTrip.{IsAddress, IsName}
use funai_sdk.Wire.Strings.{IsLpString}
use funai_sdk.Wire.HexText.{IsHex}
use funai_sdk.Wire.Memo.{IsMemo}
use funai_sdk.Wire.Types.{LengthPrefixedStringWire}
use funai_sdk.Clarity.Types.{ClarityValue, count_values}
use funai_sdk.Clarity.Valid.{IsValid, AreValid, canonical, canonical_values}
use funai_sdk.PostCondition.RoundTrip.{IsAmount}
use funai_sdk.Payload.Types.{
  PayloadWire, TenureChange, Infer, ContractCall, token_transfer, infer, register_model,
  contract_call, smart_contract, versioned_smart_contract, poison_microblock, coinbase,
  coinbase_to_alt_recipient, nakamoto_coinbase, tenure_change,
}

abbrev pub IsUint32 : Number → Type 0
IsUint32 nan = ⊥
IsUint32 (int (pos n)) = n < 2 ^ 32
IsUint32 (int (negsuc n)) = ⊥

pub record IsTenureChange (p : TenureChange) : Type 0 where
  pub tenure_hash : IsHex 20 p.tenure_hash
  pub previous_tenure_hash : IsHex 20 p.previous_tenure_hash
  pub burn_view_hash : IsHex 20 p.burn_view_hash
  pub previous_tenure_end : IsHex 32 p.previous_tenure_end
  pub previous_tenure_blocks : IsUint32 p.previous_tenure_blocks
  pub public_key_hash : IsHex 20 p.public_key_hash

abbrev pub IsArray : ℕ → Bytes → Type 0
IsArray size bs = All IsByte bs × (length bs ≡ size)

-- Source code: four bytes of length, 100000 bytes at most.
abbrev pub IsCodeBody : Platform → LengthPrefixedStringWire → Type 0
IsCodeBody env lps = IsLpString env 4 100_000 lps

module _ (env : Platform) where
  pub record IsInfer (p : Infer) : Type 0 where
    pub infer_user_address : IsValid env p.infer_user_address
    pub amount : IsAmount p.amount
    pub user_input : IsName env p.user_input
    pub context : IsName env p.context
    pub node_principal : IsValid env p.node_principal
    pub model_name : IsName env p.model_name
    pub output_hash : IsName env p.output_hash

  pub record IsContractCall (p : ContractCall) : Type 0 where
    pub contract_address : IsAddress p.contract_address
    pub contract_name : IsName env p.contract_name
    pub function_name : IsName env p.function_name
    pub few_args : count_values p.function_args < 2 ^ 32
    pub function_args : AreValid env p.function_args

abbrev pub IsRecipient : Platform → Option ClarityValue → Type 0
IsRecipient env none = Unit {0}
IsRecipient env (some value) = IsValid env value

abbrev pub IsPayload : Platform → PayloadWire → Type 0
IsPayload env (token_transfer recipient amount memo) =
    IsValid env recipient × IsAmount amount × IsMemo env memo
IsPayload env (infer p) = IsInfer env p
IsPayload env (register_model model_name model_params) =
    IsName env model_name × IsName env model_params
IsPayload env (contract_call p) = IsContractCall env p
IsPayload env (smart_contract contract_name code_body) =
    IsName env contract_name × IsCodeBody env code_body
IsPayload env (versioned_smart_contract version contract_name code_body) =
    IsName env contract_name × IsCodeBody env code_body
IsPayload env poison_microblock = Unit {0}
IsPayload env (coinbase coinbase_bytes) = IsArray 32 coinbase_bytes
IsPayload env (coinbase_to_alt_recipient coinbase_bytes recipient) =
    IsArray 32 coinbase_bytes × IsValid env recipient
IsPayload env (nakamoto_coinbase coinbase_bytes recipient vrf_proof) =
    IsArray 32 coinbase_bytes × IsRecipient env recipient × IsArray 80 vrf_proof
IsPayload env (tenure_change p) = IsTenureChange p

unfoldable pub canonical_recipient : Platform → Option ClarityValue → Option ClarityValue
canonical_recipient env none = none
canonical_recipient env (some value) = some (canonical env value)

-- The tuples of Clarity values in their canonical form.
unfoldable pub canonical_payload : Platform → PayloadWire → PayloadWire
canonical_payload env (token_transfer recipient amount memo) =
    token_transfer (canonical env recipient) amount memo
canonical_payload env (infer p) = infer (record p {
  infer_user_address = canonical env p.infer_user_address;
  node_principal = canonical env p.node_principal;
})
canonical_payload env (register_model model_name model_params) =
    register_model model_name model_params
canonical_payload env (contract_call p) =
    contract_call (record p { function_args = canonical_values env p.function_args })
canonical_payload env (smart_contract contract_name code_body) =
    smart_contract contract_name code_body
canonical_payload env (versioned_smart_contract version contract_name code_body) =
    versioned_smart_contract version contract_name code_body
canonical_payload env poison_microblock = poison_microblock
canonical_payload env (coinbase coinbase_bytes) = coinbase coinbase_bytes
canonical_payload env (coinbase_to_alt_recipient coinbase_bytes recipient) =
    coinbase_to_alt_recipient coinbase_bytes (canonical env recipient)
canonical_payload env (nakamoto_coinbase coinbase_bytes recipient vrf_proof) =
    nakamoto_coinbase coinbase_bytes (canonical_recipient env recipient) vrf_proof
canonical_payload env (tenure_change p) = tenure_change p
