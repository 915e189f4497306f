-- ===== src/Signing/Sponsor.antt =====
-- packages/transactions/src/signer.ts: `createSponsorSigner` and the origin's signatures.
use funai_sdk.Prelude.{◌≡◌, ◌≢◌, refl, ◌∙◌, true}
use funai_sdk.Js.Text.{JsString}
use funai_sdk.Js.Number.{geb_number}
use funai_sdk.Js.Result.{ok}
use funai_sdk.Js.Inversion.{bind-Returned, ok_eq}
use funai_sdk.Platform.{Platform}
use funai_sdk.Auth.Types.{
  Curve, standard_type, MultiSig, SpendingCondition, multi, Authorization, standard_auth,
  sponsored_auth,
}
use funai_sdk.Auth.Authorization.{set_sponsor}
use funai_sdk.Transaction.Types.{FunaiTransactionWire}
use funai_sdk.Signing.Crypto.{Crypto}
use funai_sdk.Signing.Verify.{verify}
use funai_sdk.Signing.Transaction.{
  sign_begin, verify_origin, origin_of, check_sponsored, set_tx_sponsor,
}
use funai_sdk.Signing.Signer.{
  TransactionSigner, has_all_signatures, replay_condition, auth_type_of, new_signer,
  create_sponsor_signer,
}
use funai_sdk.Signing.Begin.{verify_origin_auth-origin_of}
use funai_sdk.Signing.Accepted.{Accepted, verify_multi_sig-Accepted}

-- A condition that is accepted has all signatures, and the constructor refuses it.
has_all_signatures-Accepted :
    (crypto : Crypto) (c : MultiSig) (first last : JsString)
    → Accepted crypto c first last standard_type
    → has_all_signatures c ≡ true
unfolding has_all_signatures geb_number
has_all_signatures-Accepted crypto c first last a = rw (a.required_is) (rw (a.enough.at_least) refl)

replay_condition-all :
    (crypto : Crypto) (c : MultiSig) (a : Authorization) (hash replayed : JsString)
    → has_all_signatures c ≡ true
    → replay_condition crypto (multi c) (auth_type_of a) hash ≢ ok replayed
unfolding replay_condition
replay_condition-all crypto c a hash replayed all h = let refused = rw all at h in cc

origin_of-set_sponsor :
    (a : Authorization) (sponsor : SpendingCondition)
    → origin_of (set_sponsor a sponsor) ≡ origin_of a
unfolding set_sponsor
origin_of-set_sponsor (standard_auth o) sponsor = refl
origin_of-set_sponsor (sponsored_auth o s) sponsor = refl

module _ (env : Platform) (curve : Curve) (crypto : Crypto) (tx : FunaiTransactionWire)
    (c : MultiSig) where
  verify_origin-all :
      (last : JsString)
      → origin_of tx.auth ≡ multi c
      → verify_origin env curve crypto tx ≡ ok last
      → has_all_signatures c ≡ true
  unfolding verify_origin verify
  verify_origin-all last o h =
      let r = bind-Returned (sign_begin env curve crypto tx) _ last h in
      let checked = rw (verify_origin_auth-origin_of, o) at r.after in
      has_all_signatures-Accepted crypto c r.value last
        (verify_multi_sig-Accepted crypto c r.value last standard_type checked)

  new_signer-all :
      (signer : TransactionSigner)
      → origin_of tx.auth ≡ multi c
      → has_all_signatures c ≡ true
      → new_signer env curve crypto tx ≢ ok signer
  unfolding new_signer
  new_signer-all signer o all h =
      let r = bind-Returned (sign_begin env curve crypto tx) _ signer h in
      let s =
        bind-Returned (replay_condition crypto (origin_of tx.auth) (auth_type_of tx.auth) r.value) _
          signer r.after in
      replay_condition-all crypto c tx.auth r.value s.value all (rw o at s.before)

-- For a transaction whose origin is a multi-signature condition, `createSponsorSigner` never
-- returns a signer: an origin that `verifyOrigin` accepts has all its signatures, and then the
-- constructor of `TransactionSigner` throws.
pub create_sponsor_signer-multi :
    (env : Platform) (curve : Curve) (crypto : Crypto) (tx : FunaiTransactionWire) (c : MultiSig)
    (sponsor : SpendingCondition) (signer : TransactionSigner)
    → origin_of tx.auth ≡ multi c
    → create_sponsor_signer env curve crypto tx sponsor ≢ ok signer
unfolding create_sponsor_signer set_tx_sponsor
create_sponsor_signer-multi env curve crypto tx c sponsor signer o h =
    let checked = bind-Returned (check_sponsored tx.auth) _ signer h in
    let new_tx = bind-Returned (set_tx_sponsor tx sponsor) _ signer checked.after in
    let again = bind-Returned (check_sponsored tx.auth) _ new_tx.value new_tx.before in
    let origin : origin_of new_tx.value.auth ≡ multi c =
      rw (← ok_eq again.after) (origin_of-set_sponsor tx.auth sponsor ∙ o) in
    let verified =
      bind-Returned (verify_origin env curve crypto new_tx.value) _ signer new_tx.after in
    let made = bind-Returned (new_signer env curve crypto new_tx.value) _ signer verified.after in
    let all =
      verify_origin-all env curve crypto new_tx.value c verified.value origin verified.before in
    new_signer-all env curve crypto new_tx.value c made.value origin all made.before
