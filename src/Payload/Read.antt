-- ===== src/Payload/Read.antt =====
-- packages/transactions/src/wire/serialization.ts: the deserializer of payloads.
use funai_sdk.Prelude.{none, some, inr}
use funai_sdk.Prelude.Int.{pos}
use funai_sdk.Js.Number.{int}
use funai_sdk.Js.Result.{unknown_payload, unknown_clarity_version, unknown_tenure_cause}
use funai_sdk.Bytes.Hex.{bytes_to_hex}
use funai_sdk.Platform.{Platform}
use funai_sdk.Reader.{
  Reader, pure, lift, ◌>>=◌, read_bytes, read_uint32, read_big_uint_be, read_uint8_enum,
}
use funai_sdk.Wire.Read.{deserialize_address, deserialize_lp_string, deserialize_memo_string}
use funai_sdk.Clarity.Deserialize.{deserialize_cv, read_values, rounds}
use funai_sdk.Payload.Types.{
  PayloadWire, PayloadType, token_transfer_type, smart_contract_type, versioned_smart_contract_type,
  contract_call_type, poison_microblock_type, coinbase_type, coinbase_to_alt_recipient_type,
  tenure_change_type, nakamoto_coinbase_type, infer_type, register_model_type, poison_microblock,
  tenure_change, payload_type, clarity_version, tenure_change_cause,
}
use funai_sdk.Payload.Create.{
  coinbase_bytes_length, vrf_proof_bytes_length, create_token_transfer_payload,
  create_infer_payload, create_register_model_payload, create_contract_call_payload,
  create_smart_contract_payload, create_coinbase_payload, create_nakamoto_coinbase_payload,
}

unfoldable pub deserialize_payload_of : Platform → PayloadType → Reader PayloadWire
deserialize_payload_of env token_transfer_type = do
  recipient ← deserialize_cv env
  amount ← read_big_uint_be (int (pos 8))
  memo ← deserialize_memo_string env
  lift (create_token_transfer_payload env (inr recipient) (pos amount) (some (inr memo)))
deserialize_payload_of env infer_type = do
  user ← deserialize_cv env
  amount ← read_big_uint_be (int (pos 8))
  user_input ← deserialize_lp_string env none none
  context ← deserialize_lp_string env none none
  node ← deserialize_cv env
  model_name ← deserialize_lp_string env none none
  output_hash ← deserialize_lp_string env none none
  lift (
      create_infer_payload env (inr user) (pos amount) (inr user_input) (inr context)
        (some (inr node)) (inr model_name) (some (inr output_hash)))
deserialize_payload_of env register_model_type = do
  model_name ← deserialize_lp_string env none none
  model_params ← deserialize_lp_string env none none
  lift (create_register_model_payload env (inr model_name) (inr model_params))
deserialize_payload_of env contract_call_type = do
  address ← deserialize_address
  contract_name ← deserialize_lp_string env none none
  function_name ← deserialize_lp_string env none none
  number_of_args ← read_uint32
  args ← read_values env (deserialize_cv env) (rounds number_of_args)
  lift (create_contract_call_payload env (inr address) (inr contract_name) (inr function_name) args)
deserialize_payload_of env smart_contract_type = do
  name ← deserialize_lp_string env none none
  code_body ← deserialize_lp_string env (some 4) (some 100_000)
  lift (create_smart_contract_payload env (inr name) (inr code_body) none)
deserialize_payload_of env versioned_smart_contract_type = do
  version ← read_uint8_enum clarity_version unknown_clarity_version
  name ← deserialize_lp_string env none none
  code_body ← deserialize_lp_string env (some 4) (some 100_000)
  lift (create_smart_contract_payload env (inr name) (inr code_body) (some version))
deserialize_payload_of env poison_microblock_type = pure poison_microblock
deserialize_payload_of env coinbase_type = do
  coinbase_bytes ← read_bytes (int (pos coinbase_bytes_length))
  lift (create_coinbase_payload coinbase_bytes none)
deserialize_payload_of env coinbase_to_alt_recipient_type = do
  coinbase_bytes ← read_bytes (int (pos coinbase_bytes_length))
  alt_recipient ← deserialize_cv env
  lift (create_coinbase_payload coinbase_bytes (some alt_recipient))
deserialize_payload_of env nakamoto_coinbase_type = do
  coinbase_bytes ← read_bytes (int (pos coinbase_bytes_length))
  recipient ← deserialize_cv env
  vrf_proof ← read_bytes (int (pos vrf_proof_bytes_length))
  lift (create_nakamoto_coinbase_payload coinbase_bytes recipient vrf_proof)
deserialize_payload_of env tenure_change_type = do
  tenure_hash ← read_bytes (int (pos 20))
  previous_tenure_hash ← read_bytes (int (pos 20))
  burn_view_hash ← read_bytes (int (pos 20))
  previous_tenure_end ← read_bytes (int (pos 32))
  previous_tenure_blocks ← read_uint32
  cause ← read_uint8_enum tenure_change_cause unknown_tenure_cause
  public_key_hash ← read_bytes (int (pos 20))
  pure (
      tenure_change (record {
        tenure_hash = bytes_to_hex tenure_hash;
        previous_tenure_hash = bytes_to_hex previous_tenure_hash;
        burn_view_hash = bytes_to_hex burn_view_hash;
        previous_tenure_end = bytes_to_hex previous_tenure_end;
        previous_tenure_blocks = previous_tenure_blocks;
        cause = cause;
        public_key_hash = bytes_to_hex public_key_hash;
      }))

unfoldable pub deserialize_payload : Platform → Reader PayloadWire
deserialize_payload env = do
  type ← read_uint8_enum payload_type unknown_payload
  deserialize_payload_of env type
