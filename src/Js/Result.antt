-- ===== src/Js/Result.antt =====
-- The outcome of a call: a value or a thrown error, one constructor for each `throw` of the program
-- (and of the platform, where the program relies on it to throw).
use funai_sdk.Prelude.{Bool, true, false}

pub data Error : Type 0 where
  -- packages/common/src/utils.ts
  invalid_byte_sequence invalid_bytes unable_to_represent : Error
  not_an_integer unsafe_integer : Error
  -- `BigInt(text)` on a text that is no integer literal
  bigint_syntax : Error
  -- packages/transactions/src/clarity/values
  int_too_large int_too_small uint_negative uint_too_large buffer_too_large : Error
  contract_name_too_long invalid_clarity_name : Error
  -- packages/transactions/src/clarity/deserialize.ts
  unknown_clarity_type : Error
  -- packages/transactions/src/structuredDataSignature.ts
  invalid_domain : Error
  -- packages/encryption/src/keys.ts and packages/stacking/src/utils.ts
  invalid_checksum invalid_address_length invalid_pox_address_version : Error
  invalid_witness_version unknown_prefix invalid_address not_a_pox_tuple : Error
  -- packages/transactions/src/utils.ts
  invalid_contract_id invalid_asset_name : Error
  -- packages/transactions/src/wire
  string_too_long memo_too_long invalid_signature invalid_coinbase invalid_vrf_proof : Error
  unknown_principal unknown_post_condition unknown_condition_code amount_too_large : Error
  unknown_payload unknown_clarity_version unknown_tenure_cause unknown_auth_field : Error
  -- packages/transactions/src/authorization.ts
  unknown_hash_mode unknown_key_encoding incompatible_hash_mode unknown_auth_type : Error
  too_many_signatures wrong_signature_count uncompressed_keys signer_mismatch : Error
  invalid_sig_hash_length : Error
  -- packages/transactions/src/wire/helpers.ts and packages/transactions/src/utils.ts
  no_public_keys wrong_key_count segwit_uncompressed too_many_keys : Error
  -- packages/transactions/src/transaction.ts
  unknown_transaction_version unknown_anchor_mode unknown_post_condition_mode not_sponsored : Error
  -- packages/common/src/keys.ts and packages/transactions/src/keys.ts
  invalid_key_length invalid_key_suffix no_recovery_id : Error
  -- packages/transactions/src/signer.ts
  no_matching_address too_many_expected origin_after_sponsor origin_oversigned not_multi_sig : Error
  -- c32check
  invalid_c32 : Error

-- `out_of_fuel` has no counterpart in the program.
pub data Result {ℓ} (Value : Type ℓ) : Type ℓ where
  out_of_fuel : Result Value
  err : Error → Result Value
  ok : Value → Result Value

infixl 5 ◌>>=◌
abbrev pub ◌>>=◌ {ℓ κ} :
    {Value : Type ℓ} {Next : Type κ} → Result Value → (Value → Result Next) → Result Next
out_of_fuel >>= next = out_of_fuel
err error >>= next = err error
ok value >>= next = next value

-- `if (!test) throw error`
abbrev pub guard : Bool → Error → Result (Unit {0})
guard false error = err error
guard true error = ok tt

infixl 5 ◌>>◌
abbrev pub ◌>>◌ {ℓ} : {Next : Type ℓ} → Result (Unit {0}) → Result Next → Result Next
check >> next = check >>= (λ _. next)
