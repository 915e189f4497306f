-- ===== src/Signing/Verify.antt =====
-- packages/transactions/src/authorization.ts: the checking of the signatures of a condition.
use funai_sdk.Prelude.{
  ℕ, suc, Bool, true, false, ◌&&◌, ◌||◌, not, List, [], ◌∷◌, ◌++◌, ◌==◌, if◌then◌else◌, inl, inr,
}
use funai_sdk.Prelude.Int.{pos}
use funai_sdk.Js.Text.{JsString, str_eq}
use funai_sdk.Js.Number.{Number, int, ltb_number, number_eq}
use funai_sdk.Js.Result.{
  Result, ok, err, guard, ◌>>=◌, ◌>>◌, too_many_signatures, wrong_signature_count,
  uncompressed_keys, signer_mismatch,
}
use funai_sdk.Bytes.Hex.{Bytes}
use funai_sdk.Auth.Types.{
  PubKeyEncoding, MultiSigHashMode, p2sh, p2wsh, p2sh_non_sequential, p2wsh_non_sequential,
  AuthType, standard_type, FieldContents, public_key, signature, TransactionAuthField, SingleSig,
  MultiSig, SpendingCondition, single, multi, Authorization, standard_auth, sponsored_auth,
  public_key_is_compressed,
}
use funai_sdk.Auth.Spending.{is_uncompressed, is_segwit}
use funai_sdk.Signing.Crypto.{Crypto}
use funai_sdk.Signing.Hashes.{address_from_public_keys}
use funai_sdk.Signing.SigHash.{next_verification}

unfoldable pub is_sequential_multi_sig : MultiSigHashMode → Bool
is_sequential_multi_sig p2sh = true
is_sequential_multi_sig p2wsh = true
is_sequential_multi_sig p2sh_non_sequential = false
is_sequential_multi_sig p2wsh_non_sequential = false

unfoldable pub is_non_sequential_multi_sig : MultiSigHashMode → Bool
is_non_sequential_multi_sig p2sh = false
is_non_sequential_multi_sig p2wsh = false
is_non_sequential_multi_sig p2sh_non_sequential = true
is_non_sequential_multi_sig p2wsh_non_sequential = true

-- The last check, of the signer against the hash of the keys.
unfoldable pub check_signer : JsString → JsString → Result (Unit {0})
check_signer addr_bytes signer = guard (str_eq addr_bytes signer) signer_mismatch

unfoldable pub verify_single_sig : Crypto → SingleSig → JsString → AuthType → Result JsString
verify_single_sig crypto condition initial_sig_hash auth_type = do
  next ←
      next_verification crypto initial_sig_hash auth_type condition.fee condition.nonce
        condition.key_encoding condition.signature_text
  address ←
      address_from_public_keys crypto (int (pos 0)) (inl condition.hash_mode) (int (pos 1))
        (next.pub_key ∷ [])
  check_signer address.hash160 condition.signer
  ok next.next_sig_hash

-- The variables of the loop over the fields.
pub record Verifying : Type 0 where
  pub public_keys : List Bytes
  pub cur_sig_hash : JsString
  pub have_uncompressed : Bool
  pub num_sigs : ℕ

abbrev pub start_verifying : JsString → Verifying
start_verifying initial_sig_hash = record {
  public_keys = [];
  cur_sig_hash = initial_sig_hash;
  have_uncompressed = false;
  num_sigs = 0;
}

unfoldable pub verify_contents :
    Crypto → MultiSig → AuthType → PubKeyEncoding → FieldContents → Verifying → Result Verifying
verify_contents crypto condition auth_type encoding (public_key key) state = ok (record state {
  public_keys = state.public_keys ++ (key ∷ []);
  have_uncompressed = state.have_uncompressed || not (public_key_is_compressed key);
})
verify_contents crypto condition auth_type encoding (signature text) state =
    next_verification crypto state.cur_sig_hash auth_type condition.fee condition.nonce encoding
      text
    >>= (λ next.
        if suc state.num_sigs == 65536
        then err too_many_signatures
        else ok (record {
          public_keys = state.public_keys ++ (next.pub_key ∷ []);
          cur_sig_hash =
              if is_sequential_multi_sig condition.hash_mode
              then next.next_sig_hash
              else state.cur_sig_hash;
          have_uncompressed = state.have_uncompressed || is_uncompressed encoding;
          num_sigs = suc state.num_sigs;
        }))

unfoldable pub verify_fields :
    Crypto → MultiSig → AuthType → List TransactionAuthField → Verifying → Result Verifying
verify_fields crypto condition auth_type [] state = ok state
verify_fields crypto condition auth_type (field ∷ fields) state =
    verify_contents crypto condition auth_type field.pub_key_encoding field.contents state
    >>= verify_fields crypto condition auth_type fields

-- Sequential modes take exactly the signatures required, the others may have more.
unfoldable pub wrong_count : MultiSigHashMode → ℕ → Number → Bool
wrong_count hash_mode num_sigs signatures_required =
    (is_sequential_multi_sig hash_mode && not (number_eq (int (pos num_sigs)) signatures_required))
    || (is_non_sequential_multi_sig hash_mode
        && ltb_number (int (pos num_sigs)) signatures_required)

-- What follows the loop.
unfoldable pub finish_verifying : Crypto → MultiSig → Verifying → Result JsString
finish_verifying crypto condition state = do
  guard (not (wrong_count condition.hash_mode state.num_sigs condition.signatures_required))
      wrong_signature_count
  guard (not (state.have_uncompressed && is_segwit condition.hash_mode)) uncompressed_keys
  address ←
      address_from_public_keys crypto (int (pos 0)) (inr condition.hash_mode)
        condition.signatures_required state.public_keys
  check_signer address.hash160 condition.signer
  ok state.cur_sig_hash

unfoldable pub verify_multi_sig : Crypto → MultiSig → JsString → AuthType → Result JsString
verify_multi_sig crypto condition initial_sig_hash auth_type =
    verify_fields crypto condition auth_type condition.fields (start_verifying initial_sig_hash)
    >>= finish_verifying crypto condition

unfoldable pub verify : Crypto → SpendingCondition → JsString → AuthType → Result JsString
verify crypto (single condition) initial_sig_hash auth_type =
    verify_single_sig crypto condition initial_sig_hash auth_type
verify crypto (multi condition) initial_sig_hash auth_type =
    verify_multi_sig crypto condition initial_sig_hash auth_type

-- Of a sponsored authorization too, the origin is checked as a standard one.
unfoldable pub verify_origin_auth : Crypto → Authorization → JsString → Result JsString
verify_origin_auth crypto (standard_auth c) initial_sig_hash =
    verify crypto c initial_sig_hash standard_type
verify_origin_auth crypto (sponsored_auth c s) initial_sig_hash =
    verify crypto c initial_sig_hash standard_type
