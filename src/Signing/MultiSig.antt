-- ===== src/Signing/MultiSig.antt =====
-- packages/transactions/src/builders.ts: `mutatingSignAppendMultiSig` signs what `verifyOrigin` takes.
use funai_sdk.Prelude.{
  ℕ, ◌<◌, ◌≡◌, refl, sym, true, none, List, [], ◌∷◌, All, arith, inr, length, map, ltb,
}
use funai_sdk.Prelude.Int.{ℤ, pos}
use funai_sdk.Js.Text.{JsString}
use funai_sdk.Js.Number.{int, geb_number}
use funai_sdk.Js.Result.{Result, ok}
use funai_sdk.Js.Inversion.{bind-Returned, ok_eq, bind_ok}
use funai_sdk.Bytes.Hex.{Bytes, IsByte, bytes_to_hex}
use funai_sdk.Bytes.HexLaws.{hex_to_bytes-bytes_to_hex}
use funai_sdk.Platform.{Platform}
use funai_sdk.Wire.Types.{AddressWire}
use funai_sdk.Auth.Types.{Curve, MultiSigHashMode, MultiSig, SpendingCondition, multi}
use funai_sdk.Auth.Valid.{IsUint64}
use funai_sdk.Transaction.Types.{FunaiTransactionWire}
use funai_sdk.Signing.Crypto.{Crypto}
use funai_sdk.Signing.Keys.{create_funai_public_key}
use funai_sdk.Signing.Hashes.{address_from_public_keys, every_compressed}
use funai_sdk.Signing.Verify.{verify_fields}
use funai_sdk.Signing.Conditions.{create_funai_public_keys, create_multi_sig_spending_condition}
use funai_sdk.Signing.Transaction.{sign_begin, verify_origin, origin_of}
use funai_sdk.Signing.Signer.{
  signatures_of, has_all_signatures, new_signer, replay_condition, replay_fields,
}
use funai_sdk.Signing.Append.{ordered_keys, sign_append_by, mutating_sign_append_multi_sig}
use funai_sdk.Signing.Laws.{CryptoLaws}
use funai_sdk.Signing.Begin.{sign_begin-IsHex, start_signer}
use funai_sdk.Signing.Progress.{with_fields, Progress}
use funai_sdk.Signing.Finding.{IsSecret, signer_count, Suffices}
use funai_sdk.Signing.Runs.{sign_in_order-Runs, verify_origin-Progress}

-- The parts of a condition that `createMultiSigSpendingCondition` has made for the keys.
record MadeFor (crypto : Crypto) (required : ℕ) (mode : MultiSigHashMode) (nonce fee : ℤ)
    (keys : List Bytes) (c : SpendingCondition) : Type 0 where
  condition : MultiSig
  address : AddressWire
  is_multi : multi (with_fields condition []) ≡ c
  mode_is : condition.hash_mode ≡ mode
  nonce_is : condition.nonce ≡ nonce
  fee_is : condition.fee ≡ fee
  required_is : condition.signatures_required ≡ int (pos required)
  hashes :
      address_from_public_keys crypto
        (int (pos 0))
        (inr condition.hash_mode)
        (int (pos required))
        keys
      ≡ ok address
  signer_is : address.hash160 ≡ condition.signer

create_funai_public_keys_lem :
    (keys : List Bytes)
    → All (All IsByte) keys
    → create_funai_public_keys (map bytes_to_hex keys) ≡ ok keys
unfolding create_funai_public_keys create_funai_public_key
create_funai_public_keys_lem [] h = refl
create_funai_public_keys_lem (key ∷ keys) (hk, h) =
    rw (hex_to_bytes-bytes_to_hex key hk) (rw (create_funai_public_keys_lem keys h) refl)

created-MadeFor :
    (crypto : Crypto) (required : ℕ) (mode : MultiSigHashMode) (nonce fee : ℤ) (keys : List Bytes)
    (c : SpendingCondition)
    → All (All IsByte) keys
    → create_multi_sig_spending_condition crypto mode
        (int (pos required))
        (map bytes_to_hex keys)
        nonce
        fee
      ≡ ok c
    → MadeFor crypto required mode nonce fee keys c
unfolding create_multi_sig_spending_condition
created-MadeFor crypto required mode nonce fee keys c hk h =
    let made = rw (create_funai_public_keys_lem keys hk) at h in
    let a =
      bind-Returned
        (address_from_public_keys crypto (int (pos 0)) (inr mode) (int (pos required)) keys) _ c
        made in
    record {
      condition = record {
        hash_mode = mode;
        signer = a.value.hash160;
        nonce = nonce;
        fee = fee;
        fields = [];
        signatures_required = int (pos required);
      };
      address = a.value;
      is_multi = ok_eq a.after;
      mode_is = refl;
      nonce_is = refl;
      fee_is = refl;
      required_is = refl;
      hashes = a.before;
      signer_is = refl;
    }

-- The transaction that the call leaves, and its check.
pub record MultiSigned (env : Platform) (curve : Curve) (crypto : Crypto)
    (call : Result FunaiTransactionWire) : Type 0 where
  pub signed : FunaiTransactionWire
  pub last : JsString
  pub returns : call ≡ ok signed
  pub verifies : verify_origin env curve crypto signed ≡ ok last

module _ (env : Platform) (curve : Curve) (crypto : Crypto) (laws : CryptoLaws crypto) where
  start-Progress :
      (c : MultiSig) (tx : FunaiTransactionWire) (first : JsString)
      → origin_of tx.auth ≡ multi (with_fields c [])
      → sign_begin env curve crypto tx ≡ ok first
      → Progress env curve crypto c first [] 0 (start_signer tx first)
  unfolding verify_fields signatures_of every_compressed
  start-Progress c tx first o begins = record {
    fields = [];
    is_multi = o;
    verifies = refl;
    hash = sign_begin-IsHex env curve crypto laws tx first begins;
    begins = begins;
    not_done = refl;
    counts = refl;
  }

  new_signer_lem :
      (c : MultiSig) (tx : FunaiTransactionWire) (first : JsString) (required : ℕ)
      → origin_of tx.auth ≡ multi (with_fields c [])
      → c.signatures_required ≡ int (pos required)
      → 0 < required
      → sign_begin env curve crypto tx ≡ ok first
      → new_signer env curve crypto tx ≡ ok (start_signer tx first)
  unfolding new_signer replay_condition replay_fields has_all_signatures signatures_of geb_number
  new_signer_lem c tx first required o r some_required begins =
      let room : ltb 0 required ≡ true = ground arith in rw begins (rw o (rw (r, room) refl))

  -- For hash functions and a curve that keep their laws: let the origin of a transaction be what
  -- `createMultiSigSpendingCondition` makes for some public keys and a positive number of
  -- signatures, in any of the four modes, with a fee and a nonce of eight bytes, and let the
  -- transaction have a first hash. Where the private keys at hand are valid texts without `0x` in
  -- front and belong to exactly as many of the public keys as signatures are required (in a
  -- non-sequential mode, to as many or more), `mutatingSignAppendMultiSig` without an address
  -- returns a transaction, and `verifyOrigin` accepts it.
  pub mutating_sign_append_multi_sig-verify_origin :
      (tx : FunaiTransactionWire) (first : JsString) (mode : MultiSigHashMode) (required : ℕ)
      (keys : List Bytes) (signer_keys : List JsString) (nonce fee : ℤ)
      → All (All IsByte) keys
      → length keys < 65536
      → All (IsSecret crypto) signer_keys
      → 0 < required
      → Suffices mode required (signer_count crypto signer_keys keys)
      → IsUint64 nonce
      → IsUint64 fee
      → create_multi_sig_spending_condition crypto mode
          (int (pos required))
          (map bytes_to_hex keys)
          nonce
          fee
        ≡ ok (origin_of tx.auth)
      → sign_begin env curve crypto tx ≡ ok first
      → MultiSigned env curve crypto (
          mutating_sign_append_multi_sig env curve crypto tx
            (map bytes_to_hex keys)
            signer_keys
            none)
  unfolding mutating_sign_append_multi_sig sign_append_by ordered_keys
  mutating_sign_append_multi_sig-verify_origin tx first mode required keys signer_keys nonce fee hk
        few hs some_required enough n f h begins =
      let m = created-MadeFor crypto required mode nonce fee keys _ hk h in
      let c = m.condition in
      let s = rw (← m.mode_is) at enough in
      let start = start-Progress c tx first (sym m.is_multi) begins in
      let made =
        new_signer_lem c tx first required (sym m.is_multi) m.required_is some_required begins in
      let runs =
        sign_in_order-Runs env curve crypto laws c first required signer_keys [] keys 0 _
          (start_signer tx first) (rw (m.fee_is) f) (rw (m.nonce_is) n) hs hk m.required_is s
          (omega arith) (omega arith) start in
      record {
        signed = runs.signer.transaction;
        last = runs.signer.sig_hash;
        returns = rw (← m.is_multi) (bind_ok _ made (bind_ok _ runs.returns refl));
        verifies =
            verify_origin-Progress env curve crypto laws c first required signer_keys keys _
              runs.signer m.address m.required_is s m.hashes m.signer_is runs.progress;
      }
