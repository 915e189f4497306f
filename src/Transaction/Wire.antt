-- ===== src/Transaction/Wire.antt =====
-- packages/transactions/src/transaction.ts: `serializeBytes` and `deserializeTransaction`.
use funai_sdk.Prelude.{ℕ, zero, suc, List, [], ◌∷◌, length}
use funai_sdk.Prelude.Int.{pos}
use funai_sdk.Js.Number.{int}
use funai_sdk.Js.Result
use funai_sdk.Js.Result.{
  Result, ok, unknown_transaction_version, unknown_anchor_mode, unknown_post_condition_mode,
}
use funai_sdk.Bytes.Hex.{
  Bytes, Part, octet, bytes, bytes_to_hex, hex_to_bytes, hex_to_int, concat_array,
}
use funai_sdk.Bytes.Ints.{int_to_hex}
use funai_sdk.Platform.{Platform}
use funai_sdk.Reader.{Reader, pure, ◌>>=◌, read_bytes, read_uint32, read_uint8_enum}
use funai_sdk.Clarity.Deserialize.{rounds}
use funai_sdk.PostCondition.Types.{PostConditionWire}
use funai_sdk.PostCondition.Write.{serialize_post_condition_bytes}
use funai_sdk.PostCondition.Read.{deserialize_post_condition}
use funai_sdk.Payload.Write.{serialize_payload_bytes, write_uint32_number}
use funai_sdk.Payload.Read.{deserialize_payload}
use funai_sdk.Auth.Types.{Curve}
use funai_sdk.Auth.Authorization.{serialize_authorization_bytes, deserialize_authorization}
use funai_sdk.Transaction.Types.{
  FunaiTransactionWire, version_byte, transaction_version_of, anchor_mode_byte, anchor_mode_of,
  mode_byte, post_condition_mode_of,
}

unfoldable pub serialize_conditions : Platform → List PostConditionWire → Result (List Part)
serialize_conditions env [] = ok []
serialize_conditions env (c ∷ cs) =
    Result.◌>>=◌ (serialize_post_condition_bytes env c)
      (λ bs. Result.◌>>=◌ (serialize_conditions env cs) (λ parts. ok (bytes bs ∷ parts)))

-- `serializeLPListBytes(this.postConditions)`
unfoldable pub serialize_condition_list : Platform → List PostConditionWire → Result Bytes
serialize_condition_list env cs =
    Result.◌>>=◌ (hex_to_bytes (int_to_hex (pos (length cs)) 4)) (λ length_bytes.
      Result.◌>>=◌ (serialize_conditions env cs)
        (λ parts. concat_array (bytes length_bytes ∷ parts)))

unfoldable pub serialize_transaction_bytes : Platform → Curve → FunaiTransactionWire → Result Bytes
serialize_transaction_bytes env curve tx =
    Result.◌>>=◌ (serialize_authorization_bytes curve tx.auth) (λ auth.
      Result.◌>>=◌ (serialize_condition_list env tx.post_conditions) (λ conditions.
        Result.◌>>=◌ (serialize_payload_bytes env tx.payload) (λ payload. concat_array (
          octet (version_byte tx.transaction_version)
          ∷ bytes (write_uint32_number tx.chain_id)
          ∷ bytes auth
          ∷ octet (anchor_mode_byte tx.anchor_mode)
          ∷ octet (mode_byte tx.post_condition_mode)
          ∷ bytes conditions
          ∷ bytes payload
          ∷ []))))

unfoldable pub read_conditions : Platform → ℕ → Reader (List PostConditionWire)
read_conditions env zero = pure []
read_conditions env (suc n) = do
  c ← deserialize_post_condition env
  cs ← read_conditions env n
  pure (c ∷ cs)

-- `deserializeLPList(bytesReader, FunaiWireType.PostCondition)`
unfoldable pub deserialize_condition_list : Platform → Reader (List PostConditionWire)
deserialize_condition_list env = do
  length_bytes ← read_bytes (int (pos 4))
  read_conditions env (rounds (hex_to_int (bytes_to_hex length_bytes)))

unfoldable pub deserialize_transaction : Platform → Curve → Reader FunaiTransactionWire
deserialize_transaction env curve = do
  transaction_version ← read_uint8_enum transaction_version_of unknown_transaction_version
  chain_id ← read_uint32
  auth ← deserialize_authorization curve
  anchor_mode ← read_uint8_enum anchor_mode_of unknown_anchor_mode
  post_condition_mode ← read_uint8_enum post_condition_mode_of unknown_post_condition_mode
  post_conditions ← deserialize_condition_list env
  payload ← deserialize_payload env
  pure (record {
    transaction_version = transaction_version;
    chain_id = chain_id;
    auth = auth;
    anchor_mode = anchor_mode;
    post_condition_mode = post_condition_mode;
    post_conditions = post_conditions;
    payload = payload;
  })
