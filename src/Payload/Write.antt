-- ===== src/Payload/Write.antt =====
-- packages/transactions/src/wire/serialization.ts: the serializer of payloads.
use funai_sdk.Prelude.{◌-◌, ◌%◌, ◌^◌, Option, none, some, [], ◌∷◌, suc}
use funai_sdk.Prelude.Int.{pos, negsuc}
use funai_sdk.Js.Number.{Number, nan, int}
use funai_sdk.Js.Result.{Result, ◌>>=◌}
use funai_sdk.Bytes.Hex.{Bytes, octet, bytes, hex_to_bytes, concat_array}
use funai_sdk.Bytes.Ints.{int_to_bytes}
use funai_sdk.Bytes.Buffer.{write_uint32_be}
use funai_sdk.Platform.{Platform}
use funai_sdk.Wire.Write.{
  serialize_address_bytes, serialize_lp_string_bytes, serialize_memo_string_bytes,
}
use funai_sdk.Clarity.Types.{ClarityValue, optional_none, optional_some, count_values}
use funai_sdk.Clarity.Serialize.{serialize_cv_bytes, serialize_values}
use funai_sdk.Payload.Types.{
  PayloadWire, token_transfer, infer, register_model, contract_call, smart_contract,
  versioned_smart_contract, poison_microblock, coinbase, coinbase_to_alt_recipient,
  nakamoto_coinbase, tenure_change, clarity_version_byte, cause_byte,
}

-- `writeUInt32BE(new Uint8Array(4), value)` of any number: NaN becomes 0 and a negative number
-- wraps around.
unfoldable pub write_uint32_number : Number → Bytes
write_uint32_number nan = write_uint32_be 0
write_uint32_number (int (pos n)) = write_uint32_be n
write_uint32_number (int (negsuc n)) = write_uint32_be (2 ^ 32 - suc (n % 2 ^ 32))

-- `payload.recipient ? someCV(payload.recipient) : noneCV()`
unfoldable pub recipient_cv : Option ClarityValue → ClarityValue
recipient_cv none = optional_none
recipient_cv (some value) = optional_some value

unfoldable pub serialize_payload_bytes : Platform → PayloadWire → Result Bytes
serialize_payload_bytes env (token_transfer recipient amount memo) = do
  recipient_bytes ← serialize_cv_bytes env recipient
  amount_bytes ← int_to_bytes amount 8
  memo_bytes ← serialize_memo_string_bytes env memo
  concat_array (octet 0x00 ∷ bytes recipient_bytes ∷ bytes amount_bytes ∷ bytes memo_bytes ∷ [])
serialize_payload_bytes env (infer p) = do
  user ← serialize_cv_bytes env p.infer_user_address
  amount ← int_to_bytes p.amount 8
  user_input ← serialize_lp_string_bytes env p.user_input
  context ← serialize_lp_string_bytes env p.context
  node ← serialize_cv_bytes env p.node_principal
  model_name ← serialize_lp_string_bytes env p.model_name
  output_hash ← serialize_lp_string_bytes env p.output_hash
  concat_array (
      octet 0x09
      ∷ bytes user
      ∷ bytes amount
      ∷ bytes user_input
      ∷ bytes context
      ∷ bytes node
      ∷ bytes model_name
      ∷ bytes output_hash
      ∷ [])
serialize_payload_bytes env (register_model model_name model_params) = do
  name_bytes ← serialize_lp_string_bytes env model_name
  params_bytes ← serialize_lp_string_bytes env model_params
  concat_array (octet 0x0a ∷ bytes name_bytes ∷ bytes params_bytes ∷ [])
serialize_payload_bytes env (contract_call p) = do
  address ← serialize_address_bytes p.contract_address
  contract_name ← serialize_lp_string_bytes env p.contract_name
  function_name ← serialize_lp_string_bytes env p.function_name
  let num_args = write_uint32_be (count_values p.function_args)
  args ← serialize_values env p.function_args
  concat_array (
      octet 0x02
      ∷ bytes address
      ∷ bytes contract_name
      ∷ bytes function_name
      ∷ bytes num_args
      ∷ args)
serialize_payload_bytes env (smart_contract contract_name code_body) = do
  name_bytes ← serialize_lp_string_bytes env contract_name
  code_bytes ← serialize_lp_string_bytes env code_body
  concat_array (octet 0x01 ∷ bytes name_bytes ∷ bytes code_bytes ∷ [])
serialize_payload_bytes env (versioned_smart_contract version contract_name code_body) = do
  name_bytes ← serialize_lp_string_bytes env contract_name
  code_bytes ← serialize_lp_string_bytes env code_body
  concat_array
      (octet 0x06 ∷ octet (clarity_version_byte version) ∷ bytes name_bytes ∷ bytes code_bytes ∷ [])
serialize_payload_bytes env poison_microblock = concat_array (octet 0x03 ∷ [])
serialize_payload_bytes env (coinbase coinbase_bytes) =
    concat_array (octet 0x04 ∷ bytes coinbase_bytes ∷ [])
serialize_payload_bytes env (coinbase_to_alt_recipient coinbase_bytes recipient) = do
  recipient_bytes ← serialize_cv_bytes env recipient
  concat_array (octet 0x05 ∷ bytes coinbase_bytes ∷ bytes recipient_bytes ∷ [])
serialize_payload_bytes env (nakamoto_coinbase coinbase_bytes recipient vrf_proof) = do
  recipient_bytes ← serialize_cv_bytes env (recipient_cv recipient)
  concat_array (octet 0x08 ∷ bytes coinbase_bytes ∷ bytes recipient_bytes ∷ bytes vrf_proof ∷ [])
serialize_payload_bytes env (tenure_change p) = do
  tenure_hash ← hex_to_bytes p.tenure_hash
  previous_tenure_hash ← hex_to_bytes p.previous_tenure_hash
  burn_view_hash ← hex_to_bytes p.burn_view_hash
  previous_tenure_end ← hex_to_bytes p.previous_tenure_end
  public_key_hash ← hex_to_bytes p.public_key_hash
  concat_array (
      octet 0x07
      ∷ bytes tenure_hash
      ∷ bytes previous_tenure_hash
      ∷ bytes burn_view_hash
      ∷ bytes previous_tenure_end
      ∷ bytes (write_uint32_number p.previous_tenure_blocks)
      ∷ bytes (cause_byte p.cause ∷ [])
      ∷ bytes public_key_hash
      ∷ [])
