-- ===== src/Signing/Bounded.antt =====
-- packages/transactions/src/signer.ts: a signer never takes more signatures than are required.
use funai_sdk.Prelude.{ℕ, ◌+◌, ◌≡◌, refl, ap, subst, Bool, true, false, not, ◌&&◌, arith}
use funai_sdk.Prelude.Int.{pos, negsuc}
use funai_sdk.Js.Text.{JsString}
use funai_sdk.Js.Number.{Number, nan, int, ltb_number, geb_number}
use funai_sdk.Js.Result.{ok, too_many_expected, origin_after_sponsor, origin_oversigned}
use funai_sdk.Js.Inversion.{bind-Returned, check-Returned, ok_eq}
use funai_sdk.Bytes.Hex.{Bytes}
use funai_sdk.Platform.{Platform}
use funai_sdk.Auth.Types.{
  Curve, standard_type, sponsored_type, MultiSig, SpendingCondition, single, multi, Authorization,
  standard_auth, sponsored_auth,
}
use funai_sdk.Auth.Fields.{create_message_signature}
use funai_sdk.Transaction.Types.{FunaiTransactionWire}
use funai_sdk.Signing.Crypto.{Crypto}
use funai_sdk.Signing.Keys.{PrivateKey}
use funai_sdk.Signing.SigHash.{next_signature}
use funai_sdk.Signing.Verify.{is_sequential_multi_sig}
use funai_sdk.Signing.Transaction.{
  origin_of, sign_begin, append_signature, sign_and_append, sign_next_origin, sign_sponsor_of,
  sign_next_sponsor, append_key, append_pubkey, check_sponsored, condition_fee, condition_nonce,
}
use funai_sdk.Signing.Signer.{
  TransactionSigner, signatures_of, has_all_signatures, replay_condition, auth_type_of, new_signer,
  is_oversigned, sign_origin, append_origin, sign_sponsor,
}
use funai_sdk.Signing.Begin.{origin_of-with_origin}
use funai_sdk.Signing.Progress.{signatures_of-append}

-- A sequential condition has no more signatures than it requires.
abbrev pub IsBounded : SpendingCondition → Type 0
IsBounded (single c) = Unit {0}
IsBounded (multi c) =
    is_sequential_multi_sig c.hash_mode ≡ true
    → ltb_number c.signatures_required (int (pos (signatures_of c.fields))) ≡ false

-- The number that is not reached yet.
few_signatures :
    (n : ℕ) (required : Number)
    → geb_number (int (pos n)) required ≡ false
    → (ltb_number required (int (pos n)) ≡ false)
      × (ltb_number required (int (pos (n + 1))) ≡ false)
unfolding geb_number ltb_number
few_signatures n nan h = (refl, refl)
few_signatures n (int (pos m)) h = (ground arith, ground arith)
few_signatures n (int (negsuc m)) h = cc

not-true : (b : Bool) → not b ≡ true → b ≡ false
not-true true h = cc
not-true false h = refl

append_signature-IsBounded :
    (c signed : SpendingCondition) (check : Bool) (private_key : PrivateKey) (text : JsString)
    → check ≡ true
    → is_oversigned check c ≡ false
    → append_signature c private_key text ≡ ok signed
    → IsBounded signed
unfolding append_signature is_oversigned has_all_signatures signatures_of
append_signature-IsBounded (single c) signed check private_key text e o h =
    let r = bind-Returned (create_message_signature text) _ signed h in
    subst IsBounded (ok_eq r.after) tt
append_signature-IsBounded (multi c) signed check private_key text e o h =
    let r = bind-Returned (create_message_signature text) _ signed h in
    subst IsBounded (ok_eq r.after) (λ s.
      let few = few_signatures (signatures_of c.fields) c.signatures_required (rw (s, e) at o) in
      rw signatures_of-append (few.1))

append_key-IsBounded :
    (c appended : SpendingCondition) (key : Bytes)
    → IsBounded c
    → append_key c key ≡ ok appended
    → IsBounded appended
unfolding append_key signatures_of
append_key-IsBounded (single c) appended key b h = cc
append_key-IsBounded (multi c) appended key b h =
    let same : signatures_of c.fields ≡ signatures_of c.fields + 0 = omega arith in
    subst IsBounded (ok_eq h) (λ s. rw (signatures_of-append, ← same) (b s))

replayed-IsBounded :
    (crypto : Crypto) (c : SpendingCondition) (a : Authorization) (hash replayed : JsString)
    → replay_condition crypto c (auth_type_of a) hash ≡ ok replayed
    → IsBounded c
unfolding replay_condition has_all_signatures
replayed-IsBounded crypto (single c) a hash replayed h = tt
replayed-IsBounded crypto (multi c) a hash replayed h =
    let room = check-Returned (not (has_all_signatures c)) too_many_expected _ replayed h in
    λ s. (few_signatures (signatures_of c.fields) c.signatures_required (not-true _ room.0)).0

pub record IsBoundedSigner (signer : TransactionSigner) : Type 0 where
  pub bounded : IsBounded (origin_of signer.transaction.auth)
  pub checks : signer.check_oversign ≡ true

new_signer-IsBoundedSigner :
    (env : Platform) (curve : Curve) (crypto : Crypto) (tx : FunaiTransactionWire)
    (signer : TransactionSigner)
    → new_signer env curve crypto tx ≡ ok signer
    → IsBoundedSigner signer
unfolding new_signer
new_signer-IsBoundedSigner env curve crypto tx signer h =
    let first = bind-Returned (sign_begin env curve crypto tx) _ signer h in
    let replayed =
      bind-Returned (replay_condition crypto (origin_of tx.auth) (auth_type_of tx.auth) first.value)
        _ signer first.after in
    subst IsBoundedSigner (ok_eq replayed.after) (record {
      bounded = replayed-IsBounded crypto (origin_of tx.auth) tx.auth _ _ replayed.before;
      checks = refl;
    })

sign_origin-IsBoundedSigner :
    (crypto : Crypto) (before after : TransactionSigner) (private_key : PrivateKey)
    → IsBoundedSigner before
    → sign_origin crypto before private_key ≡ ok after
    → IsBoundedSigner after
unfolding sign_origin sign_next_origin sign_and_append
sign_origin-IsBoundedSigner crypto before after private_key b h =
    let origin = origin_of before.transaction.auth in
    let one =
      check-Returned (not (before.check_overlap && before.origin_done)) origin_after_sponsor _ after
        h in
    let two =
      check-Returned (not (is_oversigned before.check_oversign origin)) origin_oversigned _ after
        one.1 in
    let tx =
      bind-Returned (sign_next_origin crypto before.transaction before.sig_hash private_key) _ after
        two.1 in
    let signed =
      bind-Returned (sign_and_append crypto origin before.sig_hash standard_type private_key) _
        tx.value tx.before in
    let next =
      bind-Returned
        (next_signature crypto before.sig_hash standard_type (condition_fee origin)
          (condition_nonce origin) private_key)
        _ signed.value signed.before in
    let appended =
      bind-Returned (append_signature origin private_key next.value.next_sig) _ signed.value
        next.after in
    let few =
      append_signature-IsBounded origin appended.value before.check_oversign private_key _ b.checks
        (not-true _ two.0) appended.before in
    let by_signed = subst (λ x. IsBounded (x.0)) (ok_eq appended.after) few in
    let by_tx =
      subst (λ x. IsBounded (origin_of (x.0).auth)) (ok_eq signed.after)
        (rw (origin_of-with_origin before.transaction.auth _) by_signed) in
    subst IsBoundedSigner (ok_eq tx.after) (record { bounded = by_tx; checks = b.checks })

append_origin-IsBoundedSigner :
    (before after : TransactionSigner) (key : Bytes)
    → IsBoundedSigner before
    → append_origin before key ≡ ok after
    → IsBoundedSigner after
unfolding append_origin append_pubkey
append_origin-IsBoundedSigner before after key b h =
    let origin = origin_of before.transaction.auth in
    let overlap = not (before.check_overlap && before.origin_done) in
    let one = check-Returned overlap origin_after_sponsor _ after h in
    let tx = bind-Returned (append_pubkey before.transaction key) _ after one.1 in
    let appended = bind-Returned (append_key origin key) _ tx.value tx.before in
    let few = append_key-IsBounded origin appended.value key b.bounded appended.before in
    let by_tx =
      subst (λ x. IsBounded (origin_of x.auth)) (ok_eq appended.after)
        (rw (origin_of-with_origin before.transaction.auth appended.value) few) in
    subst IsBoundedSigner (ok_eq tx.after) (record { bounded = by_tx; checks = b.checks })

-- A sponsor's signature leaves the origin as it is.
sign_sponsor_of-origin :
    (crypto : Crypto) (a : Authorization) (hash : JsString) (private_key : PrivateKey)
    (signed : Authorization × JsString)
    → sign_sponsor_of crypto a hash private_key ≡ ok signed
    → origin_of a ≡ origin_of (signed.0)
unfolding sign_sponsor_of
sign_sponsor_of-origin crypto (standard_auth c) hash private_key signed h = cc
sign_sponsor_of-origin crypto (sponsored_auth c s) hash private_key signed h =
    let r = bind-Returned (sign_and_append crypto s hash sponsored_type private_key) _ signed h in
    ap (λ x. origin_of (x.0)) (ok_eq r.after)

sign_sponsor-IsBoundedSigner :
    (crypto : Crypto) (before after : TransactionSigner) (private_key : PrivateKey)
    → IsBoundedSigner before
    → sign_sponsor crypto before private_key ≡ ok after
    → IsBoundedSigner after
unfolding sign_sponsor sign_next_sponsor
sign_sponsor-IsBoundedSigner crypto before after private_key b h =
    let auth = before.transaction.auth in
    let one = bind-Returned (check_sponsored auth) _ after h in
    let tx =
      bind-Returned (sign_next_sponsor crypto before.transaction before.sig_hash private_key) _
        after one.after in
    let signed =
      bind-Returned (sign_sponsor_of crypto auth before.sig_hash private_key) _ tx.value
        tx.before in
    let same = sign_sponsor_of-origin crypto auth before.sig_hash private_key _ signed.before in
    let by_tx =
      subst (λ x. IsBounded (origin_of (x.0).auth)) (ok_eq signed.after)
        (subst IsBounded same b.bounded) in
    subst IsBoundedSigner (ok_eq tx.after) (record { bounded = by_tx; checks = b.checks })

-- The signers that come of a new one by calls of `signOrigin`, `appendOrigin` and `signSponsor` that
-- return.
pub data Reachable (env : Platform) (curve : Curve) (crypto : Crypto)
    : TransactionSigner → Type 0 where
  starts :
      {signer : TransactionSigner} (tx : FunaiTransactionWire)
      → new_signer env curve crypto tx ≡ ok signer
      → Reachable env curve crypto signer
  origin_signed :
      {before after : TransactionSigner} (private_key : PrivateKey)
      → Reachable env curve crypto before
      → sign_origin crypto before private_key ≡ ok after
      → Reachable env curve crypto after
  origin_appended :
      {before after : TransactionSigner} (key : Bytes)
      → Reachable env curve crypto before
      → append_origin before key ≡ ok after
      → Reachable env curve crypto after
  sponsor_signed :
      {before after : TransactionSigner} (private_key : PrivateKey)
      → Reachable env curve crypto before
      → sign_sponsor crypto before private_key ≡ ok after
      → Reachable env curve crypto after

Reachable-IsBoundedSigner :
    {env : Platform} {curve : Curve} {crypto : Crypto} {signer : TransactionSigner}
    → Reachable env curve crypto signer
    → IsBoundedSigner signer
Reachable-IsBoundedSigner (starts tx h) = new_signer-IsBoundedSigner _ _ _ tx _ h
Reachable-IsBoundedSigner (origin_signed private_key run h) =
    sign_origin-IsBoundedSigner _ _ _ private_key (Reachable-IsBoundedSigner run) h
Reachable-IsBoundedSigner (origin_appended key run h) =
    append_origin-IsBoundedSigner _ _ key (Reachable-IsBoundedSigner run) h
Reachable-IsBoundedSigner (sponsor_signed private_key run h) =
    sign_sponsor-IsBoundedSigner _ _ _ private_key (Reachable-IsBoundedSigner run) h

-- Whatever calls of `signOrigin`, `appendOrigin` and `signSponsor` return, in any order, after
-- `new TransactionSigner(transaction)`: where the origin is a sequential multi-signature
-- condition, it never has more signatures than it requires.
pub signatures_of-Reachable :
    (env : Platform) (curve : Curve) (crypto : Crypto) (signer : TransactionSigner) (c : MultiSig)
    → Reachable env curve crypto signer
    → origin_of signer.transaction.auth ≡ multi c
    → is_sequential_multi_sig c.hash_mode ≡ true
    → ltb_number c.signatures_required (int (pos (signatures_of c.fields))) ≡ false
signatures_of-Reachable env curve crypto signer c run o s =
    (subst IsBounded o (Reachable-IsBoundedSigner run).bounded) s
