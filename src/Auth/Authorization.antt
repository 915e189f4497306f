-- ===== src/Auth/Authorization.antt =====
-- packages/transactions/src/authorization.ts: authorizations, and what they change of their
-- spending conditions.
use funai_sdk.Prelude.{[], ◌∷◌}
use funai_sdk.Prelude.Int.{ℤ, pos}
use funai_sdk.Js.Result
use funai_sdk.Js.Result.{Result, unknown_auth_type}
use funai_sdk.Bytes.Hex.{Bytes, octet, bytes, concat_array}
use funai_sdk.Reader.{Reader, pure, ◌>>=◌, read_uint8_enum}
use funai_sdk.Wire.Create.{create_empty_address}
use funai_sdk.Auth.Types.{
  p2pkh, compressed, Curve, SpendingCondition, single, multi, Authorization, standard_auth,
  sponsored_auth, AuthType, standard_type, sponsored_type, auth_type, empty_message_signature,
}
use funai_sdk.Auth.Spending.{serialize_spending_condition_bytes, deserialize_spending_condition}

unfoldable pub with_fee : ℤ → SpendingCondition → SpendingCondition
with_fee amount (single c) = single (record c { fee = amount })
with_fee amount (multi c) = multi (record c { fee = amount })

unfoldable pub with_nonce : ℤ → SpendingCondition → SpendingCondition
with_nonce nonce (single c) = single (record c { nonce = nonce })
with_nonce nonce (multi c) = multi (record c { nonce = nonce })

unfoldable pub fee_of : SpendingCondition → ℤ
fee_of (single c) = c.fee
fee_of (multi c) = c.fee

-- The sponsor, where there is one, pays the fee.
unfoldable pub set_fee : Authorization → ℤ → Authorization
set_fee (standard_auth c) amount = standard_auth (with_fee amount c)
set_fee (sponsored_auth c s) amount = sponsored_auth c (with_fee amount s)

unfoldable pub get_fee : Authorization → ℤ
get_fee (standard_auth c) = fee_of c
get_fee (sponsored_auth c s) = fee_of s

unfoldable pub set_nonce : Authorization → ℤ → Authorization
set_nonce (standard_auth c) nonce = standard_auth (with_nonce nonce c)
set_nonce (sponsored_auth c s) nonce = sponsored_auth (with_nonce nonce c) s

-- `clearCondition`: no nonce, no fee, no signature, no fields.
unfoldable pub clear_condition : SpendingCondition → SpendingCondition
clear_condition (single c) =
    single (record c { nonce = pos 0; fee = pos 0; signature_text = empty_message_signature })
clear_condition (multi c) = multi (record c { nonce = pos 0; fee = pos 0; fields = [] })

-- `setSponsorNonce` and `setSponsor` take sponsored authorizations alone; there is no sponsor in
-- another one.
unfoldable pub set_sponsor_nonce : Authorization → ℤ → Authorization
set_sponsor_nonce (standard_auth c) nonce = standard_auth c
set_sponsor_nonce (sponsored_auth c s) nonce = sponsored_auth c (with_nonce nonce s)

unfoldable pub set_sponsor : Authorization → SpendingCondition → Authorization
set_sponsor (standard_auth c) sponsor = standard_auth c
set_sponsor (sponsored_auth c s) sponsor = sponsored_auth c sponsor

-- `newInitialSigHash`: the sponsor that stands in the first hash, with the signer of an empty
-- address.
unfoldable pub new_initial_sig_hash : SpendingCondition
new_initial_sig_hash = single (record {
  hash_mode = p2pkh;
  signer = create_empty_address.hash160;
  nonce = pos 0;
  fee = pos 0;
  key_encoding = compressed;
  signature_text = empty_message_signature;
})

unfoldable pub into_initial_sighash_auth : Authorization → Authorization
into_initial_sighash_auth (standard_auth c) = standard_auth (clear_condition c)
into_initial_sighash_auth (sponsored_auth c s) =
    sponsored_auth (clear_condition c) new_initial_sig_hash

unfoldable pub serialize_authorization_bytes : Curve → Authorization → Result Bytes
serialize_authorization_bytes curve (standard_auth c) =
    Result.◌>>=◌ (serialize_spending_condition_bytes curve c)
      (λ condition. concat_array (octet 0x04 ∷ bytes condition ∷ []))
serialize_authorization_bytes curve (sponsored_auth c s) =
    Result.◌>>=◌ (serialize_spending_condition_bytes curve c) (λ condition.
      Result.◌>>=◌ (serialize_spending_condition_bytes curve s)
        (λ sponsor. concat_array (octet 0x05 ∷ bytes condition ∷ bytes sponsor ∷ [])))

unfoldable pub deserialize_authorization_of : Curve → AuthType → Reader Authorization
deserialize_authorization_of curve standard_type = do
  condition ← deserialize_spending_condition curve
  pure (standard_auth condition)
deserialize_authorization_of curve sponsored_type = do
  condition ← deserialize_spending_condition curve
  sponsor ← deserialize_spending_condition curve
  pure (sponsored_auth condition sponsor)

unfoldable pub deserialize_authorization : Curve → Reader Authorization
deserialize_authorization curve = do
  type ← read_uint8_enum auth_type unknown_auth_type
  deserialize_authorization_of curve type
