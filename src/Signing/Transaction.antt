-- ===== src/Signing/Transaction.antt =====
-- packages/transactions/src/transaction.ts: the hash of a transaction, its signatures and its
-- setters. A method returns the transaction that it leaves.
use funai_sdk.Prelude.{[], ◌∷◌, ◌++◌, replicate, none}
use funai_sdk.Prelude.Int.{ℤ, pos}
use funai_sdk.Js.Text.{JsString}
use funai_sdk.Js.Number.{int}
use funai_sdk.Js.Result.{Result, ok, err, ◌>>=◌, not_sponsored, not_multi_sig}
use funai_sdk.Bytes.Hex.{Bytes}
use funai_sdk.Platform.{Platform}
use funai_sdk.Wire.Create.{create_lp_string}
use funai_sdk.Clarity.Types.{principal_standard}
use funai_sdk.Payload.Types.{PayloadWire, infer}
use funai_sdk.Auth.Types.{
  Curve, AuthType, standard_type, sponsored_type, public_key, signature, SpendingCondition, single,
  multi, Authorization, standard_auth, sponsored_auth, public_key_is_compressed,
}
use funai_sdk.Auth.Fields.{create_message_signature, create_transaction_auth_field}
use funai_sdk.Auth.Authorization.{
  set_fee, set_nonce, set_sponsor, set_sponsor_nonce, into_initial_sighash_auth,
}
use funai_sdk.Transaction.Types.{FunaiTransactionWire}
use funai_sdk.Transaction.Wire.{serialize_transaction_bytes}
use funai_sdk.Signing.Crypto.{Crypto}
use funai_sdk.Signing.Keys.{PrivateKey, private_key_is_compressed}
use funai_sdk.Signing.Hashes.{txid_from_data}
use funai_sdk.Signing.SigHash.{encoding_of, next_signature}
use funai_sdk.Signing.Verify.{verify_origin_auth}

-- The payload of which the hash is taken: an inference has no node and no output yet.
unfoldable pub txid_payload : Platform → PayloadWire → Result PayloadWire
txid_payload env (infer payload) = do
  node ← env.c32_address (int (pos 0)) (replicate 40 b'0')
  output_hash ← create_lp_string env [] none none
  ok (
      infer
        (record payload { node_principal = principal_standard node; output_hash = output_hash }))
txid_payload env payload = ok payload

unfoldable pub txid : Platform → Curve → Crypto → FunaiTransactionWire → Result JsString
txid env curve crypto tx = do
  payload ← txid_payload env tx.payload
  serialized ← serialize_transaction_bytes env curve (record tx { payload = payload })
  ok (txid_from_data crypto serialized)

-- `verifyBegin` is the same.
unfoldable pub sign_begin : Platform → Curve → Crypto → FunaiTransactionWire → Result JsString
sign_begin env curve crypto tx =
    txid env curve crypto (record tx { auth = into_initial_sighash_auth tx.auth })

unfoldable pub verify_origin : Platform → Curve → Crypto → FunaiTransactionWire → Result JsString
verify_origin env curve crypto tx =
    sign_begin env curve crypto tx >>= verify_origin_auth crypto tx.auth

-- The signature takes its place in the condition.
unfoldable pub append_signature :
    SpendingCondition → PrivateKey → JsString → Result SpendingCondition
append_signature (single condition) private_key next_sig = do
  text ← create_message_signature next_sig
  ok (single (record condition { signature_text = text }))
append_signature (multi condition) private_key next_sig = do
  text ← create_message_signature next_sig
  ok (
      multi (record condition {
        fields =
            condition.fields
            ++ (create_transaction_auth_field (encoding_of (private_key_is_compressed private_key))
                  (signature text)
                ∷ []);
      }))

abbrev pub condition_fee : SpendingCondition → ℤ
condition_fee (single condition) = condition.fee
condition_fee (multi condition) = condition.fee

abbrev pub condition_nonce : SpendingCondition → ℤ
condition_nonce (single condition) = condition.nonce
condition_nonce (multi condition) = condition.nonce

-- The condition that is left, and the next hash.
unfoldable pub sign_and_append :
    Crypto
    → SpendingCondition
    → JsString
    → AuthType
    → PrivateKey
    → Result (SpendingCondition × JsString)
sign_and_append crypto condition cur_sig_hash auth_type private_key = do
  next ←
      next_signature crypto cur_sig_hash auth_type (condition_fee condition)
        (condition_nonce condition) private_key
  signed ← append_signature condition private_key next.next_sig
  ok (signed, next.next_sig_hash)

abbrev pub origin_of : Authorization → SpendingCondition
origin_of (standard_auth c) = c
origin_of (sponsored_auth c s) = c

abbrev pub with_origin : Authorization → SpendingCondition → Authorization
with_origin (standard_auth c) origin = standard_auth origin
with_origin (sponsored_auth c s) origin = sponsored_auth origin s

unfoldable pub sign_next_origin :
    Crypto → FunaiTransactionWire → JsString → PrivateKey → Result (FunaiTransactionWire × JsString)
sign_next_origin crypto tx sig_hash private_key = do
  (signed, next) ← sign_and_append crypto (origin_of tx.auth) sig_hash standard_type private_key
  ok (record tx { auth = with_origin tx.auth signed }, next)

unfoldable pub sign_sponsor_of :
    Crypto → Authorization → JsString → PrivateKey → Result (Authorization × JsString)
sign_sponsor_of crypto (standard_auth c) sig_hash private_key = err not_sponsored
sign_sponsor_of crypto (sponsored_auth c s) sig_hash private_key = do
  (signed, next) ← sign_and_append crypto s sig_hash sponsored_type private_key
  ok (sponsored_auth c signed, next)

unfoldable pub sign_next_sponsor :
    Crypto → FunaiTransactionWire → JsString → PrivateKey → Result (FunaiTransactionWire × JsString)
sign_next_sponsor crypto tx sig_hash private_key = do
  (auth, next) ← sign_sponsor_of crypto tx.auth sig_hash private_key
  ok (record tx { auth = auth }, next)

unfoldable pub append_key : SpendingCondition → Bytes → Result SpendingCondition
append_key (single condition) key = err not_multi_sig
append_key (multi condition) key = ok (
    multi (record condition {
      fields =
          condition.fields
          ++ (create_transaction_auth_field (encoding_of (public_key_is_compressed key))
                (public_key key)
              ∷ []);
    }))

unfoldable pub append_pubkey : FunaiTransactionWire → Bytes → Result FunaiTransactionWire
append_pubkey tx key = do
  origin ← append_key (origin_of tx.auth) key
  ok (record tx { auth = with_origin tx.auth origin })

-- `this.auth.authType != AuthType.Sponsored`
unfoldable pub check_sponsored : Authorization → Result (Unit {0})
check_sponsored (standard_auth c) = err not_sponsored
check_sponsored (sponsored_auth c s) = ok tt

unfoldable pub set_tx_sponsor :
    FunaiTransactionWire → SpendingCondition → Result FunaiTransactionWire
set_tx_sponsor tx sponsor =
    check_sponsored tx.auth >>= λ _. ok (record tx { auth = set_sponsor tx.auth sponsor })

unfoldable pub set_tx_fee : FunaiTransactionWire → ℤ → FunaiTransactionWire
set_tx_fee tx amount = record tx { auth = set_fee tx.auth amount }

unfoldable pub set_tx_nonce : FunaiTransactionWire → ℤ → FunaiTransactionWire
set_tx_nonce tx nonce = record tx { auth = set_nonce tx.auth nonce }

unfoldable pub set_tx_sponsor_nonce : FunaiTransactionWire → ℤ → Result FunaiTransactionWire
set_tx_sponsor_nonce tx nonce =
    check_sponsored tx.auth >>= λ _. ok (record tx { auth = set_sponsor_nonce tx.auth nonce })
