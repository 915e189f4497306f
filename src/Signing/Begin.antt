-- ===== src/Signing/Begin.antt =====
-- packages/transactions/src/transaction.ts: the first hash that signatures cover, `signBegin`.
use funai_sdk.Prelude.{◌≡◌, refl, subst, true, false}
use funai_sdk.Js.Text.{JsString}
use funai_sdk.Js.Result.{ok}
use funai_sdk.Js.Inversion.{bind-Returned, ok_eq}
use funai_sdk.Platform.{Platform}
use funai_sdk.Wire.HexText.{IsHex}
use funai_sdk.Auth.Types.{
  Curve, SpendingCondition, Authorization, standard_auth, sponsored_auth, standard_type,
}
use funai_sdk.Auth.Authorization.{clear_condition, into_initial_sighash_auth}
use funai_sdk.Transaction.Types.{FunaiTransactionWire}
use funai_sdk.Transaction.Wire.{serialize_transaction_bytes}
use funai_sdk.Signing.Crypto.{Crypto}
use funai_sdk.Signing.Verify.{verify, verify_origin_auth}
use funai_sdk.Signing.Transaction.{txid_payload, txid, sign_begin, origin_of, with_origin}
use funai_sdk.Signing.Signer.{TransactionSigner}
use funai_sdk.Signing.Laws.{CryptoLaws}
use funai_sdk.Signing.Chain.{txid-IsHex}

into_initial-with_origin :
    (a : Authorization) (c : SpendingCondition)
    → clear_condition c ≡ clear_condition (origin_of a)
    → into_initial_sighash_auth (with_origin a c) ≡ into_initial_sighash_auth a
unfolding into_initial_sighash_auth
into_initial-with_origin (standard_auth o) c h = rw h refl
into_initial-with_origin (sponsored_auth o s) c h = rw h refl

pub origin_of-with_origin :
    (a : Authorization) (c : SpendingCondition) → origin_of (with_origin a c) ≡ c
origin_of-with_origin (standard_auth o) c = refl
origin_of-with_origin (sponsored_auth o s) c = refl

pub verify_origin_auth-origin_of :
    (crypto : Crypto) (a : Authorization) (hash : JsString)
    → verify_origin_auth crypto a hash ≡ verify crypto (origin_of a) hash standard_type
unfolding verify_origin_auth
verify_origin_auth-origin_of crypto (standard_auth o) hash = refl
verify_origin_auth-origin_of crypto (sponsored_auth o s) hash = refl

module _ (env : Platform) (curve : Curve) (crypto : Crypto) where
  -- A hash is one of bytes, so it has 32.
  pub sign_begin-IsHex :
      (laws : CryptoLaws crypto) (tx : FunaiTransactionWire) (hash : JsString)
      → sign_begin env curve crypto tx ≡ ok hash
      → IsHex 32 hash
  unfolding sign_begin txid
  sign_begin-IsHex laws tx hash h =
      let payload = bind-Returned (txid_payload env tx.payload) _ hash h in
      let wire = bind-Returned (serialize_transaction_bytes env curve _) _ hash payload.after in
      subst (IsHex 32) (ok_eq wire.after) (txid-IsHex crypto laws wire.value)

  -- A signature of the origin is not covered.
  pub sign_begin-with_origin :
      (tx : FunaiTransactionWire) (c : SpendingCondition)
      → clear_condition c ≡ clear_condition (origin_of tx.auth)
      → sign_begin env curve crypto (record tx { auth = with_origin tx.auth c })
        ≡ sign_begin env curve crypto tx
  unfolding sign_begin
  sign_begin-with_origin tx c h = rw (into_initial-with_origin tx.auth c h) refl

-- A signer at its start.
abbrev pub start_signer : FunaiTransactionWire → JsString → TransactionSigner
start_signer tx hash = record {
  transaction = tx;
  sig_hash = hash;
  origin_done = false;
  check_oversign = true;
  check_overlap = true;
}
