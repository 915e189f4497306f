-- ===== src/Signing/Steps.antt =====
-- packages/transactions/src/signer.ts: the calls of a `TransactionSigner` in any order.
use funai_sdk.Prelude.{◌≡◌, refl, true, false, not, ◌&&◌}
use funai_sdk.Js.Result.{ok, err, origin_after_sponsor}
use funai_sdk.Js.Inversion.{bind-Returned, ok_eq}
use funai_sdk.Bytes.Hex.{Bytes}
use funai_sdk.Platform.{Platform}
use funai_sdk.Auth.Types.{Curve}
use funai_sdk.Transaction.Types.{FunaiTransactionWire}
use funai_sdk.Signing.Crypto.{Crypto}
use funai_sdk.Signing.Keys.{PrivateKey}
use funai_sdk.Signing.Transaction.{sign_next_sponsor, check_sponsored}
use funai_sdk.Signing.Signer.{TransactionSigner, sign_origin, append_origin, sign_sponsor, resume}

module _ (env : Platform) (curve : Curve) (crypto : Crypto) where
  -- A call that returns, or a call of `resume` that throws.
  pub data Step : TransactionSigner → TransactionSigner → Type 0 where
    origin_signs :
        {before after : TransactionSigner} (private_key : PrivateKey)
        → sign_origin crypto before private_key ≡ ok after
        → Step before after
    origin_appends :
        {before after : TransactionSigner} (key : Bytes)
        → append_origin before key ≡ ok after
        → Step before after
    sponsor_signs :
        {before after : TransactionSigner} (private_key : PrivateKey)
        → sign_sponsor crypto before private_key ≡ ok after
        → Step before after
    resumes :
        {before : TransactionSigner} (tx : FunaiTransactionWire)
        → Step before (resume env curve crypto before tx).0

  -- Any number of them. (Any other call that throws leaves the signer as it was.)
  pub data Steps : TransactionSigner → TransactionSigner → Type 0 where
    stay : {signer : TransactionSigner} → Steps signer signer
    step :
        {before middle after : TransactionSigner}
        → Step before middle
        → Steps middle after
        → Steps before after

-- The origin is closed: a sponsor has signed.
pub record IsClosed (signer : TransactionSigner) : Type 0 where
  pub done : signer.origin_done ≡ true
  pub checks : signer.check_overlap ≡ true

overlap-IsClosed :
    (signer : TransactionSigner)
    → IsClosed signer
    → not (signer.check_overlap && signer.origin_done) ≡ false
overlap-IsClosed signer h = rw (h.done, h.checks) refl

sign_origin-IsClosed :
    (crypto : Crypto) (signer : TransactionSigner) (private_key : PrivateKey)
    → IsClosed signer
    → sign_origin crypto signer private_key ≡ err origin_after_sponsor
unfolding sign_origin
sign_origin-IsClosed crypto signer private_key h = rw (overlap-IsClosed signer h) refl

append_origin-IsClosed :
    (signer : TransactionSigner) (key : Bytes)
    → IsClosed signer
    → append_origin signer key ≡ err origin_after_sponsor
unfolding append_origin
append_origin-IsClosed signer key h = rw (overlap-IsClosed signer h) refl

sign_sponsor-IsClosed :
    (crypto : Crypto) (before after : TransactionSigner) (private_key : PrivateKey)
    → before.check_overlap ≡ true
    → sign_sponsor crypto before private_key ≡ ok after
    → IsClosed after
unfolding sign_sponsor
sign_sponsor-IsClosed crypto before after private_key c h =
    let sponsored = bind-Returned (check_sponsored before.transaction.auth) _ after h in
    let signed =
      bind-Returned (sign_next_sponsor crypto before.transaction before.sig_hash private_key) _
        after sponsored.after in
    let same = ok_eq signed.after in rw (← same) (record { done = refl; checks = c })

module _ (env : Platform) (curve : Curve) (crypto : Crypto) where
  resume-IsClosed :
      (before : TransactionSigner) (tx : FunaiTransactionWire)
      → IsClosed before
      → IsClosed (resume env curve crypto before tx).0
  unfolding resume
  resume-IsClosed before tx c = record { done = c.done; checks = c.checks }

  Step-IsClosed :
      {before after : TransactionSigner}
      → Step env curve crypto before after
      → IsClosed before
      → IsClosed after
  Step-IsClosed {before} {after} (origin_signs private_key h) c =
      let refused = rw (sign_origin-IsClosed crypto before private_key c) at h in cc
  Step-IsClosed {before} {after} (origin_appends key h) c =
      let refused = rw (append_origin-IsClosed before key c) at h in cc
  Step-IsClosed {before} {after} (sponsor_signs private_key h) c =
      sign_sponsor-IsClosed crypto before after private_key c.checks h
  Step-IsClosed {before} {after} (resumes tx) c = resume-IsClosed before tx c

  Steps-IsClosed :
      {before after : TransactionSigner}
      → Steps env curve crypto before after
      → IsClosed before
      → IsClosed after
  Steps-IsClosed stay c = c
  Steps-IsClosed (step one more) c = Steps-IsClosed more (Step-IsClosed one c)

  -- Once `signSponsor` has returned for a signer that checks overlaps, `signOrigin` and
  -- `appendOrigin` throw, whatever calls of `signOrigin`, `appendOrigin` and `signSponsor` return
  -- in between, and whatever calls of `resume` return or throw.
  pub sign_sponsor-closes :
      (before signed after : TransactionSigner) (sponsor_key private_key : PrivateKey) (key : Bytes)
      → before.check_overlap ≡ true
      → sign_sponsor crypto before sponsor_key ≡ ok signed
      → Steps env curve crypto signed after
      → (sign_origin crypto after private_key ≡ err origin_after_sponsor)
        × (append_origin after key ≡ err origin_after_sponsor)
  sign_sponsor-closes before signed after sponsor_key private_key key checks h run =
      let closed =
        Steps-IsClosed run (sign_sponsor-IsClosed crypto before signed sponsor_key checks h) in
      (
        sign_origin-IsClosed crypto after private_key closed,
        append_origin-IsClosed after key closed,
      )
