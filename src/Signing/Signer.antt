-- ===== src/Signing/Signer.antt =====
-- packages/transactions/src/signer.ts: the class `TransactionSigner`. A method returns the signer
-- that it leaves; one that throws, `resume` apart, leaves the signer as it was.
use funai_sdk.Prelude.{ℕ, suc, Bool, true, false, ◌&&◌, not, List, [], ◌∷◌, if◌then◌else◌}
use funai_sdk.Prelude.Int.{pos}
use funai_sdk.Js.Text.{JsString}
use funai_sdk.Js.Number.{int, geb_number}
use funai_sdk.Js.Result.{
  Result, ok, guard, ◌>>=◌, ◌>>◌, too_many_expected, origin_after_sponsor, origin_oversigned,
}
use funai_sdk.Bytes.Hex.{Bytes}
use funai_sdk.Platform.{Platform}
use funai_sdk.Auth.Types.{
  Curve, compressed, AuthType, standard_type, sponsored_type, FieldContents, public_key, signature,
  TransactionAuthField, MultiSig, SpendingCondition, single, multi, Authorization, standard_auth,
  sponsored_auth,
}
use funai_sdk.Transaction.Types.{FunaiTransactionWire}
use funai_sdk.Signing.Crypto.{Crypto}
use funai_sdk.Signing.Keys.{PrivateKey}
use funai_sdk.Signing.SigHash.{next_verification}
use funai_sdk.Signing.Verify.{is_sequential_multi_sig, is_non_sequential_multi_sig}
use funai_sdk.Signing.Transaction.{
  sign_begin, verify_origin, origin_of, sign_next_origin, sign_next_sponsor, append_pubkey,
  check_sponsored, set_tx_sponsor,
}

pub record TransactionSigner : Type 0 where
  pub transaction : FunaiTransactionWire
  pub sig_hash : JsString
  pub origin_done : Bool
  pub check_oversign : Bool
  pub check_overlap : Bool

-- The length of the list of fields, filtered by `type === MessageSignature`.
unfoldable pub signatures_of : List TransactionAuthField → ℕ
signatures_of [] = 0
signatures_of (field ∷ fields) = elim field.contents [
  | public_key key ↦ signatures_of fields
  | signature text ↦ suc (signatures_of fields)
]

unfoldable pub auth_type_of : Authorization → AuthType
auth_type_of (standard_auth c) = standard_type
auth_type_of (sponsored_auth c s) = sponsored_type

unfoldable pub replay_contents :
    Crypto → MultiSig → AuthType → FieldContents → JsString → Result JsString
replay_contents crypto condition auth_type (public_key key) sig_hash = ok sig_hash
replay_contents crypto condition auth_type (signature text) sig_hash = do
  next ← next_verification crypto sig_hash auth_type condition.fee condition.nonce compressed text
  ok (if is_non_sequential_multi_sig condition.hash_mode then sig_hash else next.next_sig_hash)

-- The constructor's loop over the fields.
unfoldable pub replay_fields :
    Crypto → MultiSig → AuthType → List TransactionAuthField → JsString → Result JsString
replay_fields crypto condition auth_type [] sig_hash = ok sig_hash
replay_fields crypto condition auth_type (field ∷ fields) sig_hash =
    replay_contents crypto condition auth_type field.contents sig_hash
    >>= replay_fields crypto condition auth_type fields

unfoldable pub has_all_signatures : MultiSig → Bool
has_all_signatures condition =
    geb_number (int (pos (signatures_of condition.fields))) condition.signatures_required

unfoldable pub replay_condition : Crypto → SpendingCondition → AuthType → JsString → Result JsString
replay_condition crypto (single condition) auth_type sig_hash = ok sig_hash
replay_condition crypto (multi condition) auth_type sig_hash = do
  guard (not (has_all_signatures condition)) too_many_expected
  replay_fields crypto condition auth_type condition.fields sig_hash

-- `new TransactionSigner(transaction)`
unfoldable pub new_signer :
    Platform → Curve → Crypto → FunaiTransactionWire → Result TransactionSigner
new_signer env curve crypto transaction = do
  first ← sign_begin env curve crypto transaction
  sig_hash ←
      replay_condition crypto (origin_of transaction.auth) (auth_type_of transaction.auth) first
  ok (record {
    transaction = transaction;
    sig_hash = sig_hash;
    origin_done = false;
    check_oversign = true;
    check_overlap = true;
  })

unfoldable pub create_sponsor_signer :
    Platform → Curve → Crypto → FunaiTransactionWire → SpendingCondition → Result TransactionSigner
create_sponsor_signer env curve crypto transaction sponsor = do
  check_sponsored transaction.auth
  tx ← set_tx_sponsor transaction sponsor
  origin_sig_hash ← verify_origin env curve crypto tx
  signer ← new_signer env curve crypto tx
  ok (record signer {
    origin_done = true;
    sig_hash = origin_sig_hash;
    check_oversign = true;
    check_overlap = true;
  })

-- The legacy multi-signature modes alone are checked.
unfoldable pub is_oversigned : Bool → SpendingCondition → Bool
is_oversigned check (single condition) = false
is_oversigned check (multi condition) =
    is_sequential_multi_sig condition.hash_mode && check && has_all_signatures condition

-- Does the signature of this condition go into the next hash?
unfoldable pub advances : SpendingCondition → Bool
advances (single condition) = true
advances (multi condition) = is_sequential_multi_sig condition.hash_mode

unfoldable pub sign_origin : Crypto → TransactionSigner → PrivateKey → Result TransactionSigner
sign_origin crypto signer private_key = do
  guard (not (signer.check_overlap && signer.origin_done)) origin_after_sponsor
  guard (not (is_oversigned signer.check_oversign (origin_of signer.transaction.auth)))
      origin_oversigned
  (tx, next) ← sign_next_origin crypto signer.transaction signer.sig_hash private_key
  ok (record signer {
    transaction = tx;
    sig_hash = if advances (origin_of tx.auth) then next else signer.sig_hash;
  })

unfoldable pub append_origin : TransactionSigner → Bytes → Result TransactionSigner
append_origin signer key = do
  guard (not (signer.check_overlap && signer.origin_done)) origin_after_sponsor
  tx ← append_pubkey signer.transaction key
  ok (record signer { transaction = tx })

unfoldable pub sign_sponsor : Crypto → TransactionSigner → PrivateKey → Result TransactionSigner
sign_sponsor crypto signer private_key = do
  check_sponsored signer.transaction.auth
  (tx, next) ← sign_next_sponsor crypto signer.transaction signer.sig_hash private_key
  ok (record signer { transaction = tx; sig_hash = next; origin_done = true })

-- `this.sigHash = transaction.signBegin()`: the hash stays where that throws.
unfoldable pub hash_after : JsString → Result JsString → JsString
hash_after old (ok sig_hash) = sig_hash
hash_after old _ = old

-- The signer that it leaves, and whether it returns. The transaction is replaced before `signBegin`
-- may throw; neither the flags nor `originDone` change.
unfoldable pub resume :
    Platform
    → Curve
    → Crypto
    → TransactionSigner
    → FunaiTransactionWire
    → TransactionSigner × Result (Unit {0})
resume env curve crypto signer transaction =
    let begun = sign_begin env curve crypto transaction in
    (
      record signer { transaction = transaction; sig_hash = hash_after signer.sig_hash begun },
      begun >>= λ sig_hash. ok tt,
    )
