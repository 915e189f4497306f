-- ===== src/Auth/Fees.antt =====
-- packages/transactions/src/authorization.ts: fees, nonces and sponsors, and the authorization that the
-- first hash of a transaction is made from.
use funai_sdk.Prelude.{◌≡◌, refl}
use funai_sdk.Prelude.Int.{ℤ}
use funai_sdk.Auth.Types.{
  SpendingCondition, single, multi, Authorization, standard_auth, sponsored_auth,
}
use funai_sdk.Auth.Authorization.{
  with_fee, with_nonce, fee_of, set_fee, get_fee, set_nonce, set_sponsor, set_sponsor_nonce,
  clear_condition, into_initial_sighash_auth,
}

clear_condition-with_fee :
    (amount : ℤ) (c : SpendingCondition) → clear_condition (with_fee amount c) ≡ clear_condition c
unfolding clear_condition with_fee
clear_condition-with_fee amount (single c) = refl
clear_condition-with_fee amount (multi c) = refl

clear_condition-with_nonce :
    (nonce : ℤ) (c : SpendingCondition) → clear_condition (with_nonce nonce c) ≡ clear_condition c
unfolding clear_condition with_nonce
clear_condition-with_nonce nonce (single c) = refl
clear_condition-with_nonce nonce (multi c) = refl

fee_of-with_fee : (amount : ℤ) (c : SpendingCondition) → fee_of (with_fee amount c) ≡ amount
unfolding fee_of with_fee
fee_of-with_fee amount (single c) = refl
fee_of-with_fee amount (multi c) = refl

fee_of-with_nonce : (nonce : ℤ) (c : SpendingCondition) → fee_of (with_nonce nonce c) ≡ fee_of c
unfolding fee_of with_nonce
fee_of-with_nonce nonce (single c) = refl
fee_of-with_nonce nonce (multi c) = refl

-- For every authorization, `getFee` returns what `setFee` has set, in a sponsored authorization
-- too, and neither `setNonce` nor `setSponsorNonce` changes the fee.
pub get_fee-set_fee :
    (a : Authorization) (amount nonce : ℤ)
    → (get_fee (set_fee a amount) ≡ amount)
      × (get_fee (set_nonce a nonce) ≡ get_fee a)
      × (get_fee (set_sponsor_nonce a nonce) ≡ get_fee a)
unfolding get_fee set_fee set_nonce set_sponsor_nonce
get_fee-set_fee (standard_auth c) amount nonce =
    (fee_of-with_fee amount c, fee_of-with_nonce nonce c, refl)
get_fee-set_fee (sponsored_auth c s) amount nonce =
    (fee_of-with_fee amount s, refl, fee_of-with_nonce nonce s)

-- For every authorization, `intoInitialSighashAuth` gives the same after `setFee`, after
-- `setNonce` and after `setSponsor` as before, and it is idempotent.
pub into_initial_sighash_auth_lem :
    (a : Authorization) (amount nonce : ℤ) (sponsor : SpendingCondition)
    → (into_initial_sighash_auth (set_fee a amount) ≡ into_initial_sighash_auth a)
      × (into_initial_sighash_auth (set_nonce a nonce) ≡ into_initial_sighash_auth a)
      × (into_initial_sighash_auth (set_sponsor a sponsor) ≡ into_initial_sighash_auth a)
      × (into_initial_sighash_auth (into_initial_sighash_auth a) ≡ into_initial_sighash_auth a)
unfolding into_initial_sighash_auth set_fee set_nonce set_sponsor clear_condition
into_initial_sighash_auth_lem (standard_auth (single c)) amount nonce sponsor = (
  rw (clear_condition-with_fee amount (single c)) refl,
  rw (clear_condition-with_nonce nonce (single c)) refl,
  refl,
  refl,
)
into_initial_sighash_auth_lem (standard_auth (multi c)) amount nonce sponsor = (
  rw (clear_condition-with_fee amount (multi c)) refl,
  rw (clear_condition-with_nonce nonce (multi c)) refl,
  refl,
  refl,
)
into_initial_sighash_auth_lem (sponsored_auth (single c) s) amount nonce sponsor =
    (refl, rw (clear_condition-with_nonce nonce (single c)) refl, refl, refl)
into_initial_sighash_auth_lem (sponsored_auth (multi c) s) amount nonce sponsor =
    (refl, rw (clear_condition-with_nonce nonce (multi c)) refl, refl, refl)
