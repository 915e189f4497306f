-- ===== src/Signing/SingleSig.antt =====
-- A transaction with one signature: what `TransactionSigner` signs, `verifyOrigin` takes.
use funai_sdk.Prelude.{◌≡◌, refl, ap, subst, true, not, inl, [], ◌∷◌}
use funai_sdk.Prelude.Int.{ℤ, pos}
use funai_sdk.Js.Text.{JsString, str_eq_refl}
use funai_sdk.Js.Number.{int}
use funai_sdk.Js.Result.{ok}
use funai_sdk.Js.Inversion.{bind-Returned, ok_eq}
use funai_sdk.Bytes.Hex.{Bytes, bytes_to_hex}
use funai_sdk.Platform.{Platform}
use funai_sdk.Wire.Types.{AddressWire}
use funai_sdk.Wire.HexText.{IsHex, hex-writes}
use funai_sdk.Auth.Types.{
  Curve, SingleSigHashMode, SingleSig, SpendingCondition, single, AuthType, standard_type,
  starts_with_04, public_key_is_compressed, empty_message_signature,
}
use funai_sdk.Auth.Fields.{create_message_signature}
use funai_sdk.Auth.Authorization.{clear_condition}
use funai_sdk.Auth.Valid.{IsUint64}
use funai_sdk.Transaction.Types.{FunaiTransactionWire}
use funai_sdk.Signing.Crypto.{Crypto}
use funai_sdk.Signing.Keys.{PrivateKey, private_key_is_compressed, create_funai_public_key}
use funai_sdk.Signing.Hashes.{address_from_public_keys}
use funai_sdk.Signing.SigHash.{encoding_of}
use funai_sdk.Signing.Verify.{check_signer, verify_single_sig, verify}
use funai_sdk.Signing.Conditions.{create_single_sig_spending_condition}
use funai_sdk.Signing.Transaction.{
  sign_begin, verify_origin, append_signature, sign_and_append, origin_of, with_origin,
  sign_next_origin,
}
use funai_sdk.Signing.Signer.{
  TransactionSigner, new_signer, replay_condition, is_oversigned, advances, sign_origin,
}
use funai_sdk.Signing.Laws.{CryptoLaws, IsKeyPair}
use funai_sdk.Signing.Chain.{next_signature-Links, is_compressed-IsKeyPair, key_bytes_back}
use funai_sdk.Signing.Begin.{
  verify_origin_auth-origin_of, start_signer, sign_begin-IsHex, sign_begin-with_origin,
  origin_of-with_origin,
}

pub create_message_signature_lem :
    (text : JsString) → IsHex 65 text → create_message_signature text ≡ ok text
unfolding create_message_signature
create_message_signature_lem text h = rw (hex-writes h) (rw (h.size_is) refl)

-- A condition for the key of a pair.
record IsConditionOf (crypto : Crypto) (private_key : PrivateKey) (public_key : Bytes)
    (c : SingleSig) : Type 0 where
  address : AddressWire
  hashes :
      address_from_public_keys crypto
        (int (pos 0))
        (inl c.hash_mode)
        (int (pos 1))
        (public_key ∷ [])
      ≡ ok address
  signer_is : address.hash160 ≡ c.signer
  encoding_is : c.key_encoding ≡ encoding_of (private_key_is_compressed private_key)
  fee : IsUint64 c.fee
  nonce : IsUint64 c.nonce

-- The result of signing, and its check.
record SignsAndVerifies (crypto : Crypto) (c : SpendingCondition) (hash : JsString) (t : AuthType)
    (private_key : PrivateKey) : Type 0 where
  signed : SpendingCondition
  next : JsString
  signs : sign_and_append crypto c hash t private_key ≡ ok (signed, next)
  verifies : verify crypto signed hash t ≡ ok next
  clears : clear_condition signed ≡ clear_condition c
  advance : advances signed ≡ true

sign_and_append-verify :
    (crypto : Crypto) (laws : CryptoLaws crypto) (c : SingleSig) (hash : JsString) (t : AuthType)
    (private_key : PrivateKey) (public_key : Bytes)
    → IsKeyPair crypto private_key public_key
    → IsConditionOf crypto private_key public_key c
    → IsHex 32 hash
    → SignsAndVerifies crypto (single c) hash t private_key
unfolding sign_and_append append_signature verify verify_single_sig clear_condition advances
    check_signer
sign_and_append-verify crypto laws c hash t private_key public_key pair k h =
    let l =
      next_signature-Links crypto laws hash t c.fee c.nonce private_key public_key h k.fee k.nonce
        pair in
    record {
      signed = single (record c { signature_text = l.signed.next_sig });
      next = l.signed.next_sig_hash;
      signs = rw (l.signs) (rw (create_message_signature_lem _ l.sig-IsHex) refl);
      verifies =
          rw (k.encoding_is)
            (rw (l.verifies) (rw (k.hashes) (rw (k.signer_is) (rw (str_eq_refl c.signer) refl))));
      clears = refl;
      advance = refl;
    }

-- What a signer leaves after `signOrigin`, and that `verifyOrigin` accepts it.
pub record SignerVerifies (env : Platform) (curve : Curve) (crypto : Crypto)
    (signer : TransactionSigner) (private_key : PrivateKey) : Type 0 where
  pub signed : TransactionSigner
  pub signs : sign_origin crypto signer private_key ≡ ok signed
  pub verifies : verify_origin env curve crypto signed.transaction ≡ ok signed.sig_hash

-- The first hash of a new signer, for a single-signature origin.
record FirstHash (env : Platform) (curve : Curve) (crypto : Crypto) (tx : FunaiTransactionWire)
    (signer : TransactionSigner) : Type 0 where
  hash : JsString
  begins : sign_begin env curve crypto tx ≡ ok hash
  starts : start_signer tx hash ≡ signer

module _ (env : Platform) (curve : Curve) (crypto : Crypto) where
  new_signer-FirstHash :
      (tx : FunaiTransactionWire) (c : SingleSig) (signer : TransactionSigner)
      → single c ≡ origin_of tx.auth
      → new_signer env curve crypto tx ≡ ok signer
      → FirstHash env curve crypto tx signer
  unfolding new_signer replay_condition
  new_signer-FirstHash tx c signer o h =
      let first = bind-Returned (sign_begin env curve crypto tx) _ signer h in
      let same = ok_eq (rw (← o) at first.after) in
      record { hash = first.value; begins = first.before; starts = same }

  start_signer-Verifies :
      (laws : CryptoLaws crypto) (tx : FunaiTransactionWire) (c : SingleSig) (hash : JsString)
      (private_key : PrivateKey) (public_key : Bytes)
      → IsKeyPair crypto private_key public_key
      → IsConditionOf crypto private_key public_key c
      → single c ≡ origin_of tx.auth
      → sign_begin env curve crypto tx ≡ ok hash
      → SignerVerifies env curve crypto (start_signer tx hash) private_key
  unfolding sign_origin sign_next_origin verify_origin is_oversigned
  start_signer-Verifies laws tx c hash private_key public_key pair k o begins =
      let v =
        sign_and_append-verify crypto laws c hash standard_type private_key public_key pair k
          (sign_begin-IsHex env curve crypto laws tx hash begins) in
      let cleared : clear_condition v.signed ≡ clear_condition (origin_of tx.auth) =
        rw (← o) v.clears in
      record {
        signed = start_signer (record tx { auth = with_origin tx.auth v.signed }) v.next;
        signs =
            rw (← o)
              (rw (v.signs) (rw (origin_of-with_origin tx.auth v.signed) (rw (v.advance) refl)));
        verifies =
            rw (sign_begin-with_origin env curve crypto tx v.signed cleared)
              (rw begins (rw (verify_origin_auth-origin_of, origin_of-with_origin) v.verifies));
      }

  -- The parts of a condition that `createSingleSigSpendingCondition` has made.
  record Made (private_key : PrivateKey) (public_key : Bytes) (c : SpendingCondition) : Type 0 where
    condition : SingleSig
    fits : IsConditionOf crypto private_key public_key condition
    is_single : single condition ≡ c

  created-Made :
      (laws : CryptoLaws crypto) (hash_mode : SingleSigHashMode) (private_key : PrivateKey)
      (public_key : Bytes) (nonce fee : ℤ) (c : SpendingCondition)
      → IsKeyPair crypto private_key public_key
      → IsUint64 nonce
      → IsUint64 fee
      → create_single_sig_spending_condition crypto hash_mode (bytes_to_hex public_key) nonce fee
        ≡ ok c
      → Made private_key public_key c
  unfolding create_single_sig_spending_condition create_funai_public_key public_key_is_compressed
  created-Made laws hash_mode private_key public_key nonce fee c pair n f h =
      let read = key_bytes_back crypto laws public_key pair in
      let made = rw read at h in
      let a =
        bind-Returned
          (address_from_public_keys crypto (int (pos 0)) (inl hash_mode) (int (pos 1))
            (public_key ∷ []))
          _ c made in
      record {
        condition = record {
          hash_mode = hash_mode;
          signer = a.value.hash160;
          nonce = nonce;
          fee = fee;
          key_encoding = encoding_of (not (starts_with_04 (bytes_to_hex public_key)));
          signature_text = empty_message_signature;
        };
        fits = record {
          address = a.value;
          hashes = a.before;
          signer_is = refl;
          encoding_is =
              ap encoding_of (is_compressed-IsKeyPair crypto laws private_key public_key pair);
          fee = f;
          nonce = n;
        };
        is_single = ok_eq a.after;
      }

  -- For hash functions and a curve that keep their laws: let the origin of a transaction be what
  -- `createSingleSigSpendingCondition` makes for the public key of a private key without `0x` in
  -- front, with a fee and a nonce of eight bytes. Where `new TransactionSigner(transaction)`
  -- returns, `signOrigin` with the private key returns too, and `verifyOrigin` accepts the
  -- transaction it leaves and returns the hash that the signer has then.
  pub sign_origin-verify_origin :
      (laws : CryptoLaws crypto) (tx : FunaiTransactionWire) (signer : TransactionSigner)
      (hash_mode : SingleSigHashMode) (private_key : PrivateKey) (public_key : Bytes)
      (nonce fee : ℤ)
      → IsKeyPair crypto private_key public_key
      → IsUint64 nonce
      → IsUint64 fee
      → create_single_sig_spending_condition crypto hash_mode (bytes_to_hex public_key) nonce fee
        ≡ ok (origin_of tx.auth)
      → new_signer env curve crypto tx ≡ ok signer
      → SignerVerifies env curve crypto signer private_key
  sign_origin-verify_origin laws tx signer hash_mode private_key public_key nonce fee pair n f h k =
      let m = created-Made laws hash_mode private_key public_key nonce fee _ pair n f h in
      let first = new_signer-FirstHash tx m.condition signer m.is_single k in
      subst (λ s. SignerVerifies env curve crypto s private_key) first.starts
        (start_signer-Verifies laws tx m.condition first.hash private_key public_key pair m.fits
          m.is_single first.begins)
