-- ===== src/Signing/Conditions.antt =====
-- packages/transactions/src/authorization.ts: the making of spending conditions.
use funai_sdk.Prelude.{List, [], ◌∷◌, inl, inr, replicate, Option, none, some, not}
use funai_sdk.Prelude.Int.{ℤ, pos}
use funai_sdk.Js.Text.{JsString}
use funai_sdk.Js.Number.{Number, int}
use funai_sdk.Js.Result.{Result, ok, ◌>>=◌}
use funai_sdk.Bytes.Hex.{Bytes}
use funai_sdk.Auth.Types.{
  SingleSigHashMode, p2pkh, MultiSigHashMode, p2sh, SpendingCondition, single, multi, Authorization,
  sponsored_auth, starts_with_04, empty_message_signature,
}
use funai_sdk.Signing.Crypto.{Crypto}
use funai_sdk.Signing.Keys.{create_funai_public_key}
use funai_sdk.Signing.Hashes.{address_from_public_keys}
use funai_sdk.Signing.SigHash.{encoding_of}

-- The key is a hex text, which begins with `04` where it is not compressed.
unfoldable pub create_single_sig_spending_condition :
    Crypto → SingleSigHashMode → JsString → ℤ → ℤ → Result SpendingCondition
create_single_sig_spending_condition crypto hash_mode pub_key nonce fee = do
  key ← create_funai_public_key pub_key
  address ← address_from_public_keys crypto (int (pos 0)) (inl hash_mode) (int (pos 1)) (key ∷ [])
  ok (
      single (record {
        hash_mode = hash_mode;
        signer = address.hash160;
        nonce = nonce;
        fee = fee;
        key_encoding = encoding_of (not (starts_with_04 pub_key));
        signature_text = empty_message_signature;
      }))

-- `pubKeys.map(createFunaiPublicKey)`
unfoldable pub create_funai_public_keys : List JsString → Result (List Bytes)
create_funai_public_keys [] = ok []
create_funai_public_keys (text ∷ texts) = do
  key ← create_funai_public_key text
  keys ← create_funai_public_keys texts
  ok (key ∷ keys)

unfoldable pub create_multi_sig_spending_condition :
    Crypto → MultiSigHashMode → Number → List JsString → ℤ → ℤ → Result SpendingCondition
create_multi_sig_spending_condition crypto hash_mode num_sigs pub_keys nonce fee = do
  public_keys ← create_funai_public_keys pub_keys
  address ← address_from_public_keys crypto (int (pos 0)) (inr hash_mode) num_sigs public_keys
  ok (
      multi (record {
        hash_mode = hash_mode;
        signer = address.hash160;
        nonce = nonce;
        fee = fee;
        fields = [];
        signatures_required = num_sigs;
      }))

-- The options have one key, or some keys and a number of signatures.
pub data SpendingConditionOptions : Type 0 where
  one_key : JsString → SpendingConditionOptions
  some_keys : List JsString → Number → SpendingConditionOptions

unfoldable pub create_spending_condition :
    Crypto → SpendingConditionOptions → ℤ → ℤ → Result SpendingCondition
create_spending_condition crypto (one_key pub_key) nonce fee =
    create_single_sig_spending_condition crypto p2pkh pub_key nonce fee
create_spending_condition crypto (some_keys pub_keys num_signatures) nonce fee =
    create_multi_sig_spending_condition crypto p2sh num_signatures pub_keys nonce fee

-- Without a sponsor, one stands in whose key is all zeros.
unfoldable pub create_sponsored_auth :
    Crypto → SpendingCondition → Option SpendingCondition → Result Authorization
create_sponsored_auth crypto condition none = do
  sponsor ← create_single_sig_spending_condition crypto p2pkh (replicate 66 b'0') (pos 0) (pos 0)
  ok (sponsored_auth condition sponsor)
create_sponsored_auth crypto condition (some sponsor) = ok (sponsored_auth condition sponsor)
