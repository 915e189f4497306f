-- ===== src/Signing/Append.antt =====
-- packages/transactions/src/builders.ts: the signing of a multi-signature transaction by the keys
-- that are at hand.
use funai_sdk.Prelude.{
  Bool, true, false, ◌&&◌, ◌||◌, Option, none, some, List, [], ◌∷◌, ◌==◌, ltb, if◌then◌else◌, inr,
}
use funai_sdk.Prelude.Int.{pos}
use funai_sdk.Js.Text.{JsString, str_eq}
use funai_sdk.Js.Number.{Number, int}
use funai_sdk.Js.Result.{Result, ok, err, ◌>>=◌, not_multi_sig, no_matching_address}
use funai_sdk.Platform.{Platform}
use funai_sdk.Wire.Create.{create_address}
use funai_sdk.Auth.Types.{Curve, MultiSigHashMode, MultiSig, SpendingCondition, single, multi}
use funai_sdk.Transaction.Types.{FunaiTransactionWire}
use funai_sdk.Signing.Crypto.{Crypto}
use funai_sdk.Signing.Keys.{key_text, private_key_to_public, create_funai_public_key}
use funai_sdk.Signing.Hashes.{address_from_public_keys}
use funai_sdk.Signing.Conditions.{create_funai_public_keys}
use funai_sdk.Signing.Transaction.{origin_of}
use funai_sdk.Signing.Signer.{TransactionSigner, new_signer, sign_origin, append_origin}

-- `a <= b` in the order of code units.
unfoldable pub str_le : JsString → JsString → Bool
str_le [] t = true
str_le (c ∷ s) [] = false
str_le (c ∷ s) (d ∷ t) = ltb c d || (c == d && str_le s t)

unfoldable pub insert_text : JsString → List JsString → List JsString
insert_text s [] = s ∷ []
insert_text s (t ∷ ts) = let rest = insert_text s ts in if str_le s t then s ∷ t ∷ ts else t ∷ rest

-- `publicKeys.slice().sort()`
unfoldable pub sorted_texts : List JsString → List JsString
sorted_texts [] = []
sorted_texts (s ∷ ss) = insert_text s (sorted_texts ss)

-- The hash of the address of some keys.
unfoldable pub multi_sig_hash : Crypto → List JsString → Number → MultiSigHashMode → Result JsString
multi_sig_hash crypto texts num_sigs hash_mode = do
  keys ← create_funai_public_keys texts
  address ← address_from_public_keys crypto (int (pos 0)) (inr hash_mode) num_sigs keys
  ok address.hash160

-- The second attempt, with the keys in order.
unfoldable pub sorted_for_address :
    Crypto → List JsString → Number → MultiSigHashMode → JsString → Result (List JsString)
sorted_for_address crypto public_keys_sorted num_sigs hash_mode hash = do
  hash_sorted ← multi_sig_hash crypto public_keys_sorted num_sigs hash_mode
  if str_eq hash_sorted hash then ok public_keys_sorted else err no_matching_address

unfoldable pub sort_public_keys_for_address :
    Crypto → List JsString → Number → MultiSigHashMode → JsString → Result (List JsString)
sort_public_keys_for_address crypto public_keys num_sigs hash_mode hash = do
  hash_unsorted ← multi_sig_hash crypto public_keys num_sigs hash_mode
  if str_eq hash_unsorted hash
      then ok public_keys
      else sorted_for_address crypto (sorted_texts public_keys) num_sigs hash_mode hash

-- `signerKeys.find(key => privateKeyToPublic(key) === publicKey)`
unfoldable pub find_signer : Crypto → List JsString → JsString → Result (Option JsString)
find_signer crypto [] public_key = ok none
find_signer crypto (key ∷ keys) public_key =
    let rest = find_signer crypto keys public_key in
    private_key_to_public crypto (key_text key) >>= λ text.
    if str_eq text public_key then ok (some key) else rest

-- Sign with the key that was found, or append the public key.
unfoldable pub sign_or_append :
    Crypto → TransactionSigner → JsString → Option JsString → Result TransactionSigner
sign_or_append crypto signer public_key none =
    create_funai_public_key public_key >>= append_origin signer
sign_or_append crypto signer public_key (some key) = sign_origin crypto signer (key_text key)

unfoldable pub sign_in_order :
    Crypto → List JsString → List JsString → TransactionSigner → Result TransactionSigner
sign_in_order crypto signer_keys [] signer = ok signer
sign_in_order crypto signer_keys (public_key ∷ public_keys) signer =
    find_signer crypto signer_keys public_key
    >>= sign_or_append crypto signer public_key
    >>= sign_in_order crypto signer_keys public_keys

unfoldable pub ordered_keys :
    Platform → Crypto → MultiSig → List JsString → Option JsString → Result (List JsString)
ordered_keys env crypto condition public_keys none = ok public_keys
ordered_keys env crypto condition public_keys (some address) = do
  decoded ← create_address env address
  sort_public_keys_for_address crypto public_keys condition.signatures_required condition.hash_mode
      decoded.hash160

-- The signer shares the transaction with its caller, so the result is what the signer leaves.
unfoldable pub sign_append_by :
    Platform
    → Curve
    → Crypto
    → FunaiTransactionWire
    → List JsString
    → List JsString
    → Option JsString
    → SpendingCondition
    → Result FunaiTransactionWire
sign_append_by env curve crypto tx public_keys signer_keys address (single condition) =
    err not_multi_sig
sign_append_by env curve crypto tx public_keys signer_keys address (multi condition) = do
  signer ← new_signer env curve crypto tx
  pubs ← ordered_keys env crypto condition public_keys address
  signed ← sign_in_order crypto signer_keys pubs signer
  ok signed.transaction

unfoldable pub mutating_sign_append_multi_sig :
    Platform
    → Curve
    → Crypto
    → FunaiTransactionWire
    → List JsString
    → List JsString
    → Option JsString
    → Result FunaiTransactionWire
mutating_sign_append_multi_sig env curve crypto tx public_keys signer_keys address =
    sign_append_by env curve crypto tx public_keys signer_keys address (origin_of tx.auth)
