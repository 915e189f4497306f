-- ===== src/Payload/Create.antt =====
-- packages/transactions/src/wire/create.ts: payloads. Where the program takes a text or the wire
-- form of it, `inl` is the text.
use funai_sdk.Prelude.{ℕ, Option, none, some, ◌⊎◌, inl, inr, ◌==◌, length, [], replicate}
use funai_sdk.Prelude.Int.{ℤ, pos}
use funai_sdk.Js.Text.{JsString}
use funai_sdk.Js.Number.{int}
use funai_sdk.Js.Result.{Result, ok, ◌>>=◌, ◌>>◌, guard, invalid_coinbase, invalid_vrf_proof}
use funai_sdk.Bytes.Hex.{Bytes}
use funai_sdk.Platform.{Platform}
use funai_sdk.Wire.Types.{AddressWire, LengthPrefixedStringWire, MemoStringWire}
use funai_sdk.Wire.Create.{create_lp_string, create_memo_string, create_address, address_to_string}
use funai_sdk.Clarity.Types.{ClarityValue, Values, principal_standard, optional_some}
use funai_sdk.Clarity.Create.{principal_cv}
use funai_sdk.Payload.Types.{
  PayloadWire, ClarityVersion, token_transfer, infer, register_model, contract_call, smart_contract,
  versioned_smart_contract, coinbase, coinbase_to_alt_recipient, nakamoto_coinbase,
}

abbrev pub coinbase_bytes_length : ℕ
coinbase_bytes_length = 32

abbrev pub vrf_proof_bytes_length : ℕ
vrf_proof_bytes_length = 80

module _ (env : Platform) where
  unfoldable pub to_principal : JsString ⊎ ClarityValue → Result ClarityValue
  to_principal (inl text) = principal_cv env text
  to_principal (inr value) = ok value

  unfoldable pub to_lp_string :
      JsString ⊎ LengthPrefixedStringWire → Result LengthPrefixedStringWire
  to_lp_string (inl text) = create_lp_string env text none none
  to_lp_string (inr lps) = ok lps

  unfoldable pub to_address : JsString ⊎ AddressWire → Result AddressWire
  to_address (inl text) = create_address env text
  to_address (inr address) = ok address

  -- A memo that is left out is empty.
  unfoldable pub to_memo : Option (JsString ⊎ MemoStringWire) → Result MemoStringWire
  to_memo none = create_memo_string env []
  to_memo (some (inl text)) = create_memo_string env text
  to_memo (some (inr memo)) = ok memo

  -- The address of version 0 and of zeros stands for a node that is not chosen yet.
  unfoldable pub to_node_principal : Option (JsString ⊎ ClarityValue) → Result ClarityValue
  to_node_principal none = do
    text ← address_to_string env (record { version = int (pos 0); hash160 = replicate 40 b'0' })
    ok (principal_standard text)
  to_node_principal (some principal) = to_principal principal

  unfoldable pub to_output_hash :
      Option (JsString ⊎ LengthPrefixedStringWire) → Result LengthPrefixedStringWire
  to_output_hash none = create_lp_string env [] none none
  to_output_hash (some output_hash) = to_lp_string output_hash

  unfoldable pub code_body_string : JsString → Result LengthPrefixedStringWire
  code_body_string content = create_lp_string env content (some 4) (some 100_000)

  unfoldable pub to_code_body :
      JsString ⊎ LengthPrefixedStringWire → Result LengthPrefixedStringWire
  to_code_body (inl text) = code_body_string text
  to_code_body (inr lps) = ok lps

  unfoldable pub create_token_transfer_payload :
      JsString ⊎ ClarityValue → ℤ → Option (JsString ⊎ MemoStringWire) → Result PayloadWire
  create_token_transfer_payload recipient amount memo = do
    recipient_cv ← to_principal recipient
    memo_wire ← to_memo memo
    ok (token_transfer recipient_cv amount memo_wire)

  unfoldable pub create_infer_payload :
      JsString ⊎ ClarityValue
      → ℤ
      → JsString ⊎ LengthPrefixedStringWire
      → JsString ⊎ LengthPrefixedStringWire
      → Option (JsString ⊎ ClarityValue)
      → JsString ⊎ LengthPrefixedStringWire
      → Option (JsString ⊎ LengthPrefixedStringWire)
      → Result PayloadWire
  create_infer_payload user amount user_input context node model_name output_hash = do
    user_cv ← to_principal user
    user_input_lps ← to_lp_string user_input
    context_lps ← to_lp_string context
    node_cv ← to_node_principal node
    model_name_lps ← to_lp_string model_name
    output_hash_lps ← to_output_hash output_hash
    ok (
        infer (record {
          infer_user_address = user_cv;
          amount = amount;
          user_input = user_input_lps;
          context = context_lps;
          node_principal = node_cv;
          model_name = model_name_lps;
          output_hash = output_hash_lps;
        }))

  unfoldable pub create_register_model_payload :
      JsString ⊎ LengthPrefixedStringWire → JsString ⊎ LengthPrefixedStringWire → Result PayloadWire
  create_register_model_payload model_name model_params = do
    name_lps ← to_lp_string model_name
    params_lps ← to_lp_string model_params
    ok (register_model name_lps params_lps)

  unfoldable pub create_contract_call_payload :
      JsString ⊎ AddressWire
      → JsString ⊎ LengthPrefixedStringWire
      → JsString ⊎ LengthPrefixedStringWire
      → Values
      → Result PayloadWire
  create_contract_call_payload address contract_name function_name function_args = do
    contract_lps ← to_lp_string contract_name
    function_lps ← to_lp_string function_name
    address_wire ← to_address address
    ok (
        contract_call (record {
          contract_address = address_wire;
          contract_name = contract_lps;
          function_name = function_lps;
          function_args = function_args;
        }))

  unfoldable pub create_smart_contract_payload :
      JsString ⊎ LengthPrefixedStringWire
      → JsString ⊎ LengthPrefixedStringWire
      → Option ClarityVersion
      → Result PayloadWire
  create_smart_contract_payload contract_name code_body none = do
    name_lps ← to_lp_string contract_name
    code_lps ← to_code_body code_body
    ok (smart_contract name_lps code_lps)
  create_smart_contract_payload contract_name code_body (some version) = do
    name_lps ← to_lp_string contract_name
    code_lps ← to_code_body code_body
    ok (versioned_smart_contract version name_lps code_lps)

unfoldable pub create_coinbase_payload : Bytes → Option ClarityValue → Result PayloadWire
create_coinbase_payload coinbase_bytes none = do
  guard (length coinbase_bytes == coinbase_bytes_length) invalid_coinbase
  ok (coinbase coinbase_bytes)
create_coinbase_payload coinbase_bytes (some recipient) = do
  guard (length coinbase_bytes == coinbase_bytes_length) invalid_coinbase
  ok (coinbase_to_alt_recipient coinbase_bytes recipient)

-- `recipient.type === OptionalSome ? recipient.value : undefined`
unfoldable pub some_recipient : ClarityValue → Option ClarityValue
some_recipient (optional_some value) = some value
some_recipient _ = none

unfoldable pub create_nakamoto_coinbase_payload : Bytes → ClarityValue → Bytes → Result PayloadWire
create_nakamoto_coinbase_payload coinbase_bytes recipient vrf_proof = do
  guard (length coinbase_bytes == coinbase_bytes_length) invalid_coinbase
  guard (length vrf_proof == vrf_proof_bytes_length) invalid_vrf_proof
  ok (nakamoto_coinbase coinbase_bytes (some_recipient recipient) vrf_proof)
