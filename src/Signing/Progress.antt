-- ===== src/Signing/Progress.antt =====
-- What holds of a signer of a multi-signature transaction after each of its calls.
use funai_sdk.Prelude.{
  ℕ, suc, ◌+◌, ◌<◌, ◌≡◌, refl, ap, ◌∙◌, Bool, true, false, not, ◌&&◌, ◌||◌, List, [], ◌∷◌, ◌++◌,
  ◌==◌, if◌then◌else◌, arith, Bool-cases, inl, inr,
}
use funai_sdk.Prelude.Int.{pos}
use funai_sdk.Js.Text.{JsString}
use funai_sdk.Js.Number.{int, geb_number}
use funai_sdk.Js.Result.{Result, out_of_fuel, err, ok, ◌>>=◌}
use funai_sdk.Js.Inversion.{bind-Returned, ok_eq}
use funai_sdk.Bytes.Hex.{Bytes}
use funai_sdk.Platform.{Platform}
use funai_sdk.Wire.HexText.{IsHex}
use funai_sdk.Auth.Types.{
  Curve, PubKeyEncoding, AuthType, standard_type, FieldContents, public_key, signature,
  TransactionAuthField, MultiSig, SpendingCondition, multi, public_key_is_compressed,
}
use funai_sdk.Auth.Fields.{create_transaction_auth_field}
use funai_sdk.Auth.Authorization.{clear_condition}
use funai_sdk.Auth.Spending.{is_uncompressed}
use funai_sdk.Auth.Valid.{IsUint64}
use funai_sdk.Signing.Crypto.{Crypto}
use funai_sdk.Signing.Keys.{PrivateKey, private_key_is_compressed}
use funai_sdk.Signing.Hashes.{every_compressed}
use funai_sdk.Signing.SigHash.{encoding_of}
use funai_sdk.Signing.Verify.{
  Verifying, start_verifying, is_sequential_multi_sig, verify_contents, verify_fields,
}
use funai_sdk.Signing.Transaction.{
  sign_begin, origin_of, with_origin, append_signature, sign_and_append, sign_next_origin,
  append_key, append_pubkey,
}
use funai_sdk.Signing.Signer.{
  TransactionSigner, signatures_of, has_all_signatures, is_oversigned, advances, sign_origin,
  append_origin,
}
use funai_sdk.Signing.Laws.{CryptoLaws, IsKeyPair}
use funai_sdk.Signing.Chain.{next_signature-Links, is_compressed-IsKeyPair}
use funai_sdk.Signing.SingleSig.{create_message_signature_lem}
use funai_sdk.Signing.Begin.{sign_begin-with_origin, origin_of-with_origin}

every_compressed-append :
    (ks : List Bytes) (k : Bytes)
    → not (every_compressed (ks ++ (k ∷ [])))
      ≡ (not (every_compressed ks) || not (public_key_is_compressed k))
unfolding every_compressed
every_compressed-append [] k = ground arith
every_compressed-append (x ∷ ks) k = ground (arith, every_compressed-append ks k)

is_uncompressed-encoding_of : (b : Bool) → is_uncompressed (encoding_of b) ≡ not b
unfolding is_uncompressed encoding_of
is_uncompressed-encoding_of true = refl
is_uncompressed-encoding_of false = refl

pub signatures_of-append :
    (fs : List TransactionAuthField) (f : TransactionAuthField)
    → signatures_of (fs ++ (f ∷ [])) ≡ signatures_of fs + signatures_of (f ∷ [])
unfolding signatures_of
signatures_of-append [] f = ground arith
signatures_of-append (g ∷ fs) f = ground (arith, signatures_of-append fs f)

abbrev pub with_fields : MultiSig → List TransactionAuthField → MultiSig
with_fields c fields = record c { fields = fields }

and_false : (b : Bool) → (b && false) ≡ false
and_false true = refl
and_false false = refl

if-IsHex : (b : Bool) (s t : JsString) → IsHex 32 s → IsHex 32 t → IsHex 32 (if b then s else t)
if-IsHex true s t h k = h
if-IsHex false s t h k = k

bind_same {ℓ κ} :
    {A : Type ℓ} {B : Type κ} {f g : A → Result B} (m : Result A)
    → ((a : A) → f a ≡ g a)
    → (m >>= f) ≡ (m >>= g)
bind_same out_of_fuel h = refl
bind_same (err e) h = refl
bind_same (ok a) h = h a

module _ (crypto : Crypto) (c : MultiSig) (t : AuthType) where
  -- The loop over one more field.
  verify_fields-append :
      (fs : List TransactionAuthField) (f : TransactionAuthField) (before middle after : Verifying)
      → verify_fields crypto c t fs before ≡ ok middle
      → verify_contents crypto c t f.pub_key_encoding f.contents middle ≡ ok after
      → verify_fields crypto c t (fs ++ (f ∷ [])) before ≡ ok after
  unfolding verify_fields
  verify_fields-append [] f before middle after h k = rw (ok_eq h) (rw k refl)
  verify_fields-append (g ∷ fs) f before middle after h k =
      let r =
        bind-Returned (verify_contents crypto c t g.pub_key_encoding g.contents before)
          (verify_fields crypto c t fs) middle h in
      rw (r.before) (verify_fields-append fs f r.value middle after r.after k)

  verify_contents-with_fields :
      (all_fields : List TransactionAuthField) (e : PubKeyEncoding) (contents : FieldContents)
      (state : Verifying)
      → verify_contents crypto (with_fields c all_fields) t e contents state
        ≡ verify_contents crypto c t e contents state
  unfolding verify_contents
  verify_contents-with_fields all_fields e (public_key key) state = refl
  verify_contents-with_fields all_fields e (signature text) state = refl

  -- The loop does not look at the list of fields of the condition.
  pub verify_fields-with_fields :
      (all_fields fs : List TransactionAuthField) (state : Verifying)
      → verify_fields crypto (with_fields c all_fields) t fs state
        ≡ verify_fields crypto c t fs state
  unfolding verify_fields
  verify_fields-with_fields all_fields [] state = refl
  verify_fields-with_fields all_fields (f ∷ fs) state =
      rw (verify_contents-with_fields all_fields f.pub_key_encoding f.contents state) (
        bind_same (verify_contents crypto c t f.pub_key_encoding f.contents state)
          (verify_fields-with_fields all_fields fs))

-- What the loop has found where it has seen `keys`, and `sigs` signatures, and not failed.
abbrev pub verifying : List Bytes → JsString → ℕ → Verifying
verifying keys hash sigs = record {
  public_keys = keys;
  cur_sig_hash = hash;
  have_uncompressed = not (every_compressed keys);
  num_sigs = sigs;
}

module _ (env : Platform) (curve : Curve) (crypto : Crypto) (c : MultiSig) (first : JsString) where
  -- A signer that started at the hash `first` has fields for `keys`, `sigs` of them signatures, and
  -- `verifyOrigin` would take them.
  pub record Progress (keys : List Bytes) (sigs : ℕ) (signer : TransactionSigner) : Type 0 where
    pub fields : List TransactionAuthField
    pub is_multi : origin_of signer.transaction.auth ≡ multi (with_fields c fields)
    pub verifies :
        verify_fields crypto c standard_type fields (start_verifying first)
        ≡ ok (verifying keys signer.sig_hash sigs)
    pub hash : IsHex 32 signer.sig_hash
    pub begins : sign_begin env curve crypto signer.transaction ≡ ok first
    pub not_done : signer.origin_done ≡ false
    pub counts : signatures_of fields ≡ sigs

  -- A call of the signer returns, and makes progress.
  pub record Advances (call : Result TransactionSigner) (keys : List Bytes) (sigs : ℕ)
      : Type 0 where
    pub signer : TransactionSigner
    pub returns : call ≡ ok signer
    pub progress : Progress keys sigs signer

  pub append_origin-Advances :
      (keys : List Bytes) (sigs : ℕ) (signer : TransactionSigner) (key : Bytes)
      → Progress keys sigs signer
      → Advances (append_origin signer key) (keys ++ (key ∷ [])) sigs
  unfolding append_origin append_pubkey append_key verify_contents signatures_of clear_condition
      every_compressed
  append_origin-Advances keys sigs signer key p =
      let field =
        create_transaction_auth_field (encoding_of (public_key_is_compressed key))
          (public_key key) in
      let appended : SpendingCondition = multi (with_fields c (p.fields ++ (field ∷ []))) in
      let auth = with_origin signer.transaction.auth appended in
      record {
        signer = record signer { transaction = record (signer.transaction) { auth = auth } };
        returns = rw (p.not_done) (rw (and_false, p.is_multi) refl);
        progress = record {
          fields = p.fields ++ (field ∷ []);
          is_multi = origin_of-with_origin signer.transaction.auth appended;
          verifies =
              verify_fields-append crypto c standard_type p.fields field (start_verifying first) _ _
                p.verifies (rw (every_compressed-append keys key) refl);
          hash = p.hash;
          begins =
              sign_begin-with_origin env curve crypto signer.transaction appended
                (rw (p.is_multi) refl)
              ∙ p.begins;
          not_done = p.not_done;
          counts = signatures_of-append p.fields field ∙ omega (arith, p.counts);
        };
      }

  -- A condition takes one more signature: in a sequential mode, not all are there.
  abbrev pub HasRoom : ℕ → Type 0
  HasRoom sigs =
      is_sequential_multi_sig c.hash_mode ≡ true
      → geb_number (int (pos sigs)) c.signatures_required ≡ false

  is_oversigned-HasRoom :
      (check : Bool) (fields : List TransactionAuthField)
      → HasRoom (signatures_of fields)
      → is_oversigned check (multi (with_fields c fields)) ≡ false
  unfolding is_oversigned has_all_signatures
  is_oversigned-HasRoom check fields room =
      elim (Bool-cases (is_sequential_multi_sig c.hash_mode)) [
        | inl one ↦ rw (one, room one) (and_false check)
        | inr other ↦ rw other refl
      ]

  pub sign_origin-Advances :
      (laws : CryptoLaws crypto) (keys : List Bytes) (sigs : ℕ) (signer : TransactionSigner)
      (private_key : PrivateKey) (key : Bytes)
      → IsUint64 c.fee
      → IsUint64 c.nonce
      → IsKeyPair crypto private_key key
      → HasRoom sigs
      → suc sigs < 65536
      → Progress keys sigs signer
      → Advances (sign_origin crypto signer private_key) (keys ++ (key ∷ [])) (suc sigs)
  unfolding sign_origin sign_next_origin sign_and_append append_signature verify_contents
      signatures_of clear_condition advances
  sign_origin-Advances laws keys sigs signer private_key key fee nonce pair room few p =
      let l =
        next_signature-Links crypto laws signer.sig_hash standard_type c.fee c.nonce private_key key
          p.hash fee nonce pair in
      let encoding = encoding_of (private_key_is_compressed private_key) in
      let field = create_transaction_auth_field encoding (signature l.signed.next_sig) in
      let appended : SpendingCondition = multi (with_fields c (p.fields ++ (field ∷ []))) in
      let auth = with_origin signer.transaction.auth appended in
      let next : JsString =
        if is_sequential_multi_sig c.hash_mode then l.signed.next_sig_hash else signer.sig_hash in
      let fits = is_oversigned-HasRoom signer.check_oversign p.fields (rw (p.counts) room) in
      let less : (suc sigs == 65536) ≡ false = ground arith in
      let short = ap not (is_compressed-IsKeyPair crypto laws private_key key pair) in
      record {
        signer = record signer {
          transaction = record (signer.transaction) { auth = auth };
          sig_hash = next;
        };
        returns = rw (p.not_done) (
            rw (and_false, p.is_multi)
              (rw fits (
                rw (l.signs) (
                  rw (create_message_signature_lem _ l.sig-IsHex)
                    (rw origin_of-with_origin refl)))));
        progress = record {
          fields = p.fields ++ (field ∷ []);
          is_multi = origin_of-with_origin signer.transaction.auth appended;
          verifies =
              verify_fields-append crypto c standard_type p.fields field (start_verifying first) _ _
                p.verifies
                (rw (l.verifies) (
                  rw less (
                    rw (every_compressed-append keys key, short, is_uncompressed-encoding_of)
                      refl)));
          hash = if-IsHex _ _ _ l.hash-IsHex p.hash;
          begins =
              sign_begin-with_origin env curve crypto signer.transaction appended
                (rw (p.is_multi) refl)
              ∙ p.begins;
          not_done = p.not_done;
          counts = signatures_of-append p.fields field ∙ omega (arith, p.counts);
        };
      }
