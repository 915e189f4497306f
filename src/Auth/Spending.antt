-- ===== src/Auth/Spending.antt =====
-- packages/transactions/src/authorization.ts: spending conditions, written and read.
use funai_sdk.Prelude.{
  ℕ, suc, ◌-◌, ◌%◌, ◌^◌, ◌⊎◌, inl, inr, Bool, true, false, ◌&&◌, ◌||◌, not, List, [], ◌∷◌, ◌==◌,
  if◌then◌else◌,
}
use funai_sdk.Prelude.Int.{pos, negsuc}
use funai_sdk.Js.Number.{Number, nan, int}
use funai_sdk.Js.Result
use funai_sdk.Js.Result.{
  Result, ok, err, guard, incompatible_hash_mode, unknown_hash_mode, unknown_key_encoding,
  too_many_signatures, uncompressed_keys,
}
use funai_sdk.Bytes.Hex.{Bytes, octet, bytes, bytes_to_hex, hex_to_bytes, concat_array}
use funai_sdk.Bytes.Ints.{int_to_bytes}
use funai_sdk.Bytes.Buffer.{write_uint16_be}
use funai_sdk.Reader.{
  Reader, pure, lift, ◌>>=◌, read_bytes, read_uint16, read_big_uint_be, read_uint8_enum,
}
use funai_sdk.Auth.Types.{
  Curve, PubKeyEncoding, compressed, uncompressed, SingleSigHashMode, p2wpkh, MultiSigHashMode,
  p2sh, p2wsh, p2sh_non_sequential, p2wsh_non_sequential, FieldContents, public_key, signature,
  TransactionAuthField, SingleSig, MultiSig, SpendingCondition, single, multi, encoding_byte,
  pub_key_encoding_of, single_byte, multi_byte, hash_mode_of, public_key_is_compressed,
}
use funai_sdk.Auth.Fields.{
  deserialize_message_signature, serialize_field_list, deserialize_field_list,
}

unfoldable pub serialize_single_sig_bytes : SingleSig → Result Bytes
serialize_single_sig_bytes condition = Result.◌>>=◌ (hex_to_bytes condition.signer) (λ signer.
    Result.◌>>=◌ (int_to_bytes condition.nonce 8) (λ nonce.
      Result.◌>>=◌ (int_to_bytes condition.fee 8) (λ fee.
        Result.◌>>=◌ (hex_to_bytes condition.signature_text) (λ signature_bytes. concat_array (
          octet (single_byte condition.hash_mode)
          ∷ bytes signer
          ∷ bytes nonce
          ∷ bytes fee
          ∷ octet (encoding_byte condition.key_encoding)
          ∷ bytes signature_bytes
          ∷ [])))))

-- `writeUInt16BE(new Uint8Array(2), value)` of any number.
unfoldable pub write_uint16_number : Number → Bytes
write_uint16_number nan = write_uint16_be 0
write_uint16_number (int (pos n)) = write_uint16_be n
write_uint16_number (int (negsuc n)) = write_uint16_be (2 ^ 32 - suc (n % 2 ^ 32))

unfoldable pub serialize_multi_sig_bytes : Curve → MultiSig → Result Bytes
serialize_multi_sig_bytes curve condition = Result.◌>>=◌ (hex_to_bytes condition.signer) (λ signer.
    Result.◌>>=◌ (int_to_bytes condition.nonce 8) (λ nonce.
      Result.◌>>=◌ (int_to_bytes condition.fee 8) (λ fee.
        Result.◌>>=◌ (serialize_field_list curve condition.fields) (λ fields. concat_array (
          octet (multi_byte condition.hash_mode)
          ∷ bytes signer
          ∷ bytes nonce
          ∷ bytes fee
          ∷ bytes fields
          ∷ bytes (write_uint16_number condition.signatures_required)
          ∷ [])))))

unfoldable pub serialize_spending_condition_bytes : Curve → SpendingCondition → Result Bytes
serialize_spending_condition_bytes curve (single condition) = serialize_single_sig_bytes condition
serialize_spending_condition_bytes curve (multi condition) =
    serialize_multi_sig_bytes curve condition

-- Hash mode P2WPKH takes compressed keys alone.
unfoldable pub check_key_encoding : SingleSigHashMode → PubKeyEncoding → Result (Unit {0})
check_key_encoding p2wpkh uncompressed = err incompatible_hash_mode
check_key_encoding _ _ = ok tt

unfoldable pub deserialize_single_sig : SingleSigHashMode → Reader SpendingCondition
deserialize_single_sig hash_mode = do
  signer ← read_bytes (int (pos 20))
  nonce ← read_big_uint_be (int (pos 8))
  fee ← read_big_uint_be (int (pos 8))
  key_encoding ← read_uint8_enum pub_key_encoding_of unknown_key_encoding
  checked ← lift (check_key_encoding hash_mode key_encoding)
  text ← deserialize_message_signature
  pure (
      single (record {
        hash_mode = hash_mode;
        signer = bytes_to_hex signer;
        nonce = pos nonce;
        fee = pos fee;
        key_encoding = key_encoding;
        signature_text = text;
      }))

unfoldable pub is_uncompressed : PubKeyEncoding → Bool
is_uncompressed compressed = false
is_uncompressed uncompressed = true

-- The loop over the fields, with `haveUncompressed` and `numSigs`.
unfoldable pub check_contents : PubKeyEncoding → FieldContents → Bool × ℕ → Result (Bool × ℕ)
check_contents encoding (public_key key) (have_uncompressed, num_sigs) =
    ok (have_uncompressed || not (public_key_is_compressed key), num_sigs)
check_contents encoding (signature text) (have_uncompressed, num_sigs) =
    if suc num_sigs == 65536
    then err too_many_signatures
    else ok (have_uncompressed || is_uncompressed encoding, suc num_sigs)

unfoldable pub check_fields : List TransactionAuthField → Bool × ℕ → Result (Bool × ℕ)
check_fields [] state = ok state
check_fields (field ∷ fields) state =
    Result.◌>>=◌ (check_contents field.pub_key_encoding field.contents state) (check_fields fields)

unfoldable pub is_segwit : MultiSigHashMode → Bool
is_segwit p2sh = false
is_segwit p2wsh = true
is_segwit p2sh_non_sequential = false
is_segwit p2wsh_non_sequential = true

unfoldable pub deserialize_multi_sig : Curve → MultiSigHashMode → Reader SpendingCondition
deserialize_multi_sig curve hash_mode = do
  signer ← read_bytes (int (pos 20))
  nonce ← read_big_uint_be (int (pos 8))
  fee ← read_big_uint_be (int (pos 8))
  fields ← deserialize_field_list curve
  state ← lift (check_fields fields (false, 0))
  signatures_required ← read_uint16
  checked ← lift (guard (not (state.0 && is_segwit hash_mode)) uncompressed_keys)
  pure (
      multi (record {
        hash_mode = hash_mode;
        signer = bytes_to_hex signer;
        nonce = pos nonce;
        fee = pos fee;
        fields = fields;
        signatures_required = signatures_required;
      }))

unfoldable pub deserialize_condition_by :
    Curve → SingleSigHashMode ⊎ MultiSigHashMode → Reader SpendingCondition
deserialize_condition_by curve (inl hash_mode) = deserialize_single_sig hash_mode
deserialize_condition_by curve (inr hash_mode) = deserialize_multi_sig curve hash_mode

unfoldable pub deserialize_spending_condition : Curve → Reader SpendingCondition
deserialize_spending_condition curve = do
  hash_mode ← read_uint8_enum hash_mode_of unknown_hash_mode
  deserialize_condition_by curve hash_mode
