-- ===== src/Signing/Accepted.antt =====
-- What `verifyMultiSig` has checked of a condition that it accepts.
use funai_sdk.Prelude.{
  ℕ, ltb, ◌+◌, ◌≡◌, refl, sym, ap, Bool, true, false, not, ◌&&◌, ◌||◌, List, [], ◌∷◌, ◌==◌, inr,
  length, ◌⊎◌, length-append, arith, inl, if◌then◌else◌,
}
use funai_sdk.Prelude.Int.{ℤ, pos, negsuc, ltb_ℤ}
use funai_sdk.Js.Text.{JsString, str_eq, str_eq→eq}
use funai_sdk.Js.Number.{Number, nan, int, ltb_number, number_eq, add_number}
use funai_sdk.Js.Result.{
  ok, err, too_many_signatures, too_many_keys, no_public_keys, wrong_signature_count,
  uncompressed_keys, signer_mismatch, segwit_uncompressed,
}
use funai_sdk.Js.Inversion.{bind-Returned, check-Returned, ok_eq}
use funai_sdk.Bytes.Hex.{Bytes, concat_array}
use funai_sdk.Wire.Types.{AddressWire}
use funai_sdk.Auth.Types.{
  PubKeyEncoding, MultiSigHashMode, p2sh, p2wsh, p2sh_non_sequential, p2wsh_non_sequential,
  AuthType, FieldContents, public_key, signature, TransactionAuthField, MultiSig,
}
use funai_sdk.Auth.Fields.{prepend_octet, number_octet}
use funai_sdk.Auth.Spending.{is_segwit}
use funai_sdk.Signing.Crypto.{Crypto}
use funai_sdk.Signing.Hashes.{
  every_compressed, is_segwit_mode, is_single_mode, address_from_version_hash, script_tail,
  multisig_script, hash_p2sh, hash_p2wsh, keys_hash, address_from_public_keys,
}
use funai_sdk.Signing.SigHash.{next_verification}
use funai_sdk.Signing.Verify.{
  Verifying, start_verifying, is_sequential_multi_sig, is_non_sequential_multi_sig, check_signer,
  verify_contents, verify_fields, wrong_count, finish_verifying, verify_multi_sig,
}
use funai_sdk.Signing.Signer.{signatures_of}

unfoldable signature_count : FieldContents → ℕ
signature_count (public_key key) = 0
signature_count (signature text) = 1

-- The loop over the fields takes a key for each of them, and counts the signatures.
record Counts (keys sigs : ℕ) (before after : Verifying) : Type 0 where
  key_count : length after.public_keys ≡ length before.public_keys + keys
  sig_count : after.num_sigs ≡ before.num_sigs + sigs

signatures_of-cons :
    (field : TransactionAuthField) (fields : List TransactionAuthField)
    → signatures_of (field ∷ fields) ≡ signature_count field.contents + signatures_of fields
unfolding signatures_of signature_count
signatures_of-cons field fields = ground arith

-- The state behind a signature, where there are not too many.
signature-state :
    (many : Bool) (state after : Verifying)
    → (if many then err too_many_signatures else ok state) ≡ ok after
    → state ≡ after
signature-state true state after h = cc
signature-state false state after h = ok_eq h

module _ (crypto : Crypto) (c : MultiSig) (t : AuthType) where
  contents-Counts :
      (encoding : PubKeyEncoding) (contents : FieldContents) (before after : Verifying)
      → verify_contents crypto c t encoding contents before ≡ ok after
      → Counts 1 (signature_count contents) before after
  unfolding verify_contents signature_count
  contents-Counts encoding (public_key key) before after h =
      let same = ok_eq h in
      rw (← same) (record {
        key_count = length-append before.public_keys (key ∷ []);
        sig_count = omega arith;
      })
  contents-Counts encoding (signature text) before after h =
      let r =
        bind-Returned (next_verification crypto before.cur_sig_hash t c.fee c.nonce encoding text) _
          after h in
      let same = signature-state _ _ after r.after in
      rw (← same) (record {
        key_count = length-append before.public_keys (r.value.pub_key ∷ []);
        sig_count = omega arith;
      })

  fields-Counts :
      (fields : List TransactionAuthField) (before after : Verifying)
      → verify_fields crypto c t fields before ≡ ok after
      → Counts (length fields) (signatures_of fields) before after
  unfolding verify_fields
  fields-Counts [] before after h =
      rw (← ok_eq h)
        (record { key_count = omega arith; sig_count = unfold signatures_of in omega arith })
  fields-Counts (field ∷ fields) before after h =
      let r =
        bind-Returned (verify_contents crypto c t field.pub_key_encoding field.contents before) _
          after h in
      let one = contents-Counts field.pub_key_encoding field.contents before r.value r.before in
      let rest = fields-Counts fields r.value after r.after in
      record {
        key_count = omega (arith, one.key_count, rest.key_count);
        sig_count = omega (arith, one.sig_count, rest.sig_count, signatures_of-cons field fields);
      }

-- A script needs a number of signatures.
multisig_script-nan :
    (keys : List Bytes) (script : Bytes) → multisig_script nan keys ≡ ok script → ⊥
unfolding multisig_script prepend_octet number_octet add_number
multisig_script-nan keys script h =
    let fits = not (ltb_number (int (pos 15)) nan || ltb 15 (length keys)) in
    let c = check-Returned fits too_many_keys _ script h in
    let r = bind-Returned (concat_array (script_tail keys keys)) _ script c.1 in cc

keys_hash-nan :
    (crypto : Crypto) (mode : MultiSigHashMode) (keys : List Bytes) (hash : JsString)
    → keys_hash crypto (inr mode) nan keys ≡ ok hash
    → ⊥
unfolding keys_hash hash_p2sh hash_p2wsh
keys_hash-nan crypto p2sh keys hash h =
    let r = bind-Returned (multisig_script nan keys) _ hash h in
    multisig_script-nan keys r.value r.before
keys_hash-nan crypto p2sh_non_sequential keys hash h =
    let r = bind-Returned (multisig_script nan keys) _ hash h in
    multisig_script-nan keys r.value r.before
keys_hash-nan crypto p2wsh keys hash h =
    let r = bind-Returned (multisig_script nan keys) _ hash h in
    multisig_script-nan keys r.value r.before
keys_hash-nan crypto p2wsh_non_sequential keys hash h =
    let r = bind-Returned (multisig_script nan keys) _ hash h in
    multisig_script-nan keys r.value r.before

address-nan :
    (crypto : Crypto) (mode : MultiSigHashMode) (keys : List Bytes) (a : AddressWire)
    → address_from_public_keys crypto (int (pos 0)) (inr mode) nan keys ≡ ok a
    → ⊥
unfolding address_from_public_keys is_segwit_mode is_single_mode
address-nan crypto mode keys a h =
    let one = check-Returned (not (length keys == 0)) no_public_keys _ a h in
    let all_short = not (is_segwit mode && not (every_compressed keys)) in
    let two = check-Returned all_short segwit_uncompressed _ a one.1 in
    let r =
      bind-Returned (keys_hash crypto (inr mode) nan keys)
        (λ hash. ok (address_from_version_hash (int (pos 0)) hash)) a two.1 in
    keys_hash-nan crypto mode keys r.value r.before

-- The number that a condition requires, and the signatures it has.
pub record Enough (mode : MultiSigHashMode) (sigs : ℕ) (required : ℤ) : Type 0 where
  pub at_least : ltb_ℤ (pos sigs) required ≡ false
  pub exact : is_sequential_multi_sig mode ≡ true → required ≡ pos sigs

number_eq→eq : (n : ℕ) (z : ℤ) → number_eq (int (pos n)) (int z) ≡ true → z ≡ pos n
unfolding number_eq
number_eq→eq n (pos m) h = ap pos (ground arith)
number_eq→eq n (negsuc m) h = cc

right_count-Enough :
    (mode : MultiSigHashMode) (sigs : ℕ) (required : ℤ)
    → not (wrong_count mode sigs (int required)) ≡ true
    → Enough mode sigs required
unfolding wrong_count is_sequential_multi_sig is_non_sequential_multi_sig ltb_number
right_count-Enough p2sh sigs required h =
    let same = number_eq→eq sigs required (ground arith) in
    record { at_least = rw same (ground arith); exact = λ _. same }
right_count-Enough p2wsh sigs required h =
    let same = number_eq→eq sigs required (ground arith) in
    record { at_least = rw same (ground arith); exact = λ _. same }
right_count-Enough p2sh_non_sequential sigs required h = record {
  at_least = ground arith;
  exact = λ e. cc;
}
right_count-Enough p2wsh_non_sequential sigs required h = record {
  at_least = ground arith;
  exact = λ e. cc;
}

-- What holds of a condition that is accepted: `state` is what the loop over the fields has found.
pub record Accepted (crypto : Crypto) (c : MultiSig) (first last : JsString) (t : AuthType)
    : Type 0 where
  pub state : Verifying
  pub found : verify_fields crypto c t c.fields (start_verifying first) ≡ ok state
  pub key_count : length state.public_keys ≡ length c.fields
  pub sig_count : state.num_sigs ≡ signatures_of c.fields
  pub required : ℤ
  pub required_is : c.signatures_required ≡ int required
  pub enough : Enough c.hash_mode (signatures_of c.fields) required
  pub address : AddressWire
  pub hashes :
      address_from_public_keys crypto
        (int (pos 0))
        (inr c.hash_mode)
        (int required)
        state.public_keys
      ≡ ok address
  pub signer : address.hash160 ≡ c.signer
  pub last_is : last ≡ state.cur_sig_hash

-- A number is NaN, or an integer.
record IsInteger (n : Number) : Type 0 where
  value : ℤ
  value_is : n ≡ int value

number_cases : (n : Number) → (n ≡ nan) ⊎ IsInteger n
number_cases nan = inl refl
number_cases (int z) = inr (record { value = z; value_is = refl })

-- The checks that follow the loop.
record Finished (crypto : Crypto) (c : MultiSig) (state : Verifying) (last : JsString)
    : Type 0 where
  right : not (wrong_count c.hash_mode state.num_sigs c.signatures_required) ≡ true
  address : AddressWire
  hashes :
      address_from_public_keys crypto
        (int (pos 0))
        (inr c.hash_mode)
        c.signatures_required
        state.public_keys
      ≡ ok address
  signer : address.hash160 ≡ c.signer
  last_is : last ≡ state.cur_sig_hash

finish_verifying-Finished :
    (crypto : Crypto) (c : MultiSig) (state : Verifying) (last : JsString)
    → finish_verifying crypto c state ≡ ok last
    → Finished crypto c state last
unfolding finish_verifying check_signer
finish_verifying-Finished crypto c state last h =
    let right = not (wrong_count c.hash_mode state.num_sigs c.signatures_required) in
    let one = check-Returned right wrong_signature_count _ last h in
    let short = not (state.have_uncompressed && is_segwit c.hash_mode) in
    let two = check-Returned short uncompressed_keys _ last one.1 in
    let r =
      bind-Returned
        (address_from_public_keys crypto (int (pos 0)) (inr c.hash_mode) c.signatures_required
          state.public_keys)
        _ last two.1 in
    let three = check-Returned (str_eq r.value.hash160 c.signer) signer_mismatch _ last r.after in
    record {
      right = one.0;
      address = r.value;
      hashes = r.before;
      signer = str_eq→eq r.value.hash160 c.signer three.0;
      last_is = sym (ok_eq three.1);
    }

-- Where `verifyMultiSig` returns, its loop has found one public key for each field of the
-- condition; the number of signatures among the fields is the number required in a sequential
-- mode, and no less than it in the others; and the hash of the address of the keys found is the
-- signer of the condition.
pub verify_multi_sig-Accepted :
    (crypto : Crypto) (c : MultiSig) (first last : JsString) (t : AuthType)
    → verify_multi_sig crypto c first t ≡ ok last
    → Accepted crypto c first last t
unfolding verify_multi_sig
verify_multi_sig-Accepted crypto c first last t h =
    let r = bind-Returned (verify_fields crypto c t c.fields (start_verifying first)) _ last h in
    let counts = fields-Counts crypto c t c.fields (start_verifying first) r.value r.before in
    let f = finish_verifying-Finished crypto c r.value last r.after in
    let sigs : r.value.num_sigs ≡ signatures_of c.fields = omega (arith, counts.sig_count) in
    elim (number_cases c.signatures_required) [
      | inl n ↦
          absurd (address-nan crypto c.hash_mode r.value.public_keys f.address (rw n at f.hashes))
      | inr z ↦ record {
        state = r.value;
        found = r.before;
        key_count = omega (arith, counts.key_count);
        sig_count = sigs;
        required = z.value;
        required_is = z.value_is;
        enough =
            rw sigs at (
              right_count-Enough c.hash_mode r.value.num_sigs z.value (rw (z.value_is) at f.right));
        address = f.address;
        hashes = rw (z.value_is) at f.hashes;
        signer = f.signer;
        last_is = f.last_is;
      }
    ]
