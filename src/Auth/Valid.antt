-- ===== src/Auth/Valid.antt =====
-- The authorizations that serialization keeps, and the check of their fields.
use funai_sdk.Prelude.{
  ℕ, suc, ◌+◌, ◌<◌, ◌^◌, ◌≡◌, refl, ap, Bool, true, false, ◌&&◌, ◌||◌, not, List, [], ◌∷◌, length,
  All, arith, ◌==◌,
}
use funai_sdk.Prelude.Int.{ℤ, pos}
use funai_sdk.Js.Number.{int}
use funai_sdk.Js.Result.{ok}
use funai_sdk.Wire.HexText.{IsHex}
use funai_sdk.Auth.Types.{
  Curve, PubKeyEncoding, compressed, uncompressed, SingleSigHashMode, p2pkh, p2wpkh, FieldContents,
  public_key, signature, TransactionAuthField, SingleSig, MultiSig, SpendingCondition, single,
  multi, Authorization, standard_auth, sponsored_auth, public_key_is_compressed,
}
use funai_sdk.Auth.Spending.{
  check_key_encoding, is_uncompressed, check_contents, check_fields, is_segwit,
}
use funai_sdk.Auth.FieldLaws.{IsField}

-- A number of eight bytes.
pub record IsUint64 (v : ℤ) : Type 0 where
  pub value : ℕ
  pub small : value < 2 ^ 64
  pub value_is : v ≡ pos value

abbrev pub Compatible : SingleSigHashMode → PubKeyEncoding → Type 0
Compatible p2pkh encoding = Unit {0}
Compatible p2wpkh compressed = Unit {0}
Compatible p2wpkh uncompressed = ⊥

pub record IsSingleSig (c : SingleSig) : Type 0 where
  pub signer : IsHex 20 c.signer
  pub nonce : IsUint64 c.nonce
  pub fee : IsUint64 c.fee
  pub encoding : Compatible c.hash_mode c.key_encoding
  pub signed : IsHex 65 c.signature_text

-- Does the field stand for an uncompressed key?
unfoldable pub contents_uncompressed : PubKeyEncoding → FieldContents → Bool
contents_uncompressed encoding (public_key key) = not (public_key_is_compressed key)
contents_uncompressed encoding (signature text) = is_uncompressed encoding

unfoldable pub any_uncompressed : List TransactionAuthField → Bool
any_uncompressed [] = false
any_uncompressed (field ∷ fields) =
    contents_uncompressed field.pub_key_encoding field.contents || any_uncompressed fields

unfoldable pub contents_count : FieldContents → ℕ
contents_count (public_key key) = 0
contents_count (signature text) = 1

unfoldable pub count_signatures : List TransactionAuthField → ℕ
count_signatures [] = 0
count_signatures (field ∷ fields) = contents_count field.contents + count_signatures fields

pub record IsMultiSig (curve : Curve) (c : MultiSig) : Type 0 where
  pub signer : IsHex 20 c.signer
  pub nonce : IsUint64 c.nonce
  pub fee : IsUint64 c.fee
  pub fields : All (IsField curve) c.fields
  pub few_fields : length c.fields < 2 ^ 32
  pub few_signatures : count_signatures c.fields < 65536
  pub keys_allowed : (any_uncompressed c.fields && is_segwit c.hash_mode) ≡ false
  pub required : ℕ
  pub required_small : required < 2 ^ 16
  pub required_is : c.signatures_required ≡ int (pos required)

abbrev pub IsSpendingCondition : Curve → SpendingCondition → Type 0
IsSpendingCondition curve (single c) = IsSingleSig c
IsSpendingCondition curve (multi c) = IsMultiSig curve c

abbrev pub IsAuthorization : Curve → Authorization → Type 0
IsAuthorization curve (standard_auth c) = IsSpendingCondition curve c
IsAuthorization curve (sponsored_auth c s) =
    IsSpendingCondition curve c × IsSpendingCondition curve s

pub check_key_encoding-Compatible :
    (m : SingleSigHashMode) (e : PubKeyEncoding) → Compatible m e → check_key_encoding m e ≡ ok tt
unfolding check_key_encoding
check_key_encoding-Compatible p2pkh compressed h = refl
check_key_encoding-Compatible p2pkh uncompressed h = refl
check_key_encoding-Compatible p2wpkh compressed h = refl
check_key_encoding-Compatible p2wpkh uncompressed h = elim h [ ]

or_assoc : (a b c : Bool) → ((a || b) || c) ≡ (a || (b || c))
or_assoc true b c = refl
or_assoc false b c = refl

check_contents-few :
    (e : PubKeyEncoding) (contents : FieldContents) (b : Bool) (n : ℕ)
    → n + contents_count contents < 65536
    → check_contents e contents (b, n)
      ≡ ok (b || contents_uncompressed e contents, n + contents_count contents)
unfolding check_contents contents_uncompressed contents_count
check_contents-few e (public_key key) b n h =
    ap (λ m. ok (b || not (public_key_is_compressed key), m)) (omega arith)
check_contents-few e (signature text) b n h =
    let other : (suc n == 65536) ≡ false = ground arith in
    rw other (ap (λ m. ok (b || is_uncompressed e, m)) (omega arith))

-- The loop finds whether a key is uncompressed, and the number of signatures.
pub check_fields-few :
    (fields : List TransactionAuthField) (b : Bool) (n : ℕ)
    → n + count_signatures fields < 65536
    → check_fields fields (b, n) ≡ ok (b || any_uncompressed fields, n + count_signatures fields)
unfolding check_fields any_uncompressed count_signatures
check_fields-few [] true n h = ap (λ m. ok (true, m)) (omega arith)
check_fields-few [] false n h = ap (λ m. ok (false, m)) (omega arith)
check_fields-few (field ∷ fields) b n h =
    let k : ℕ = contents_count field.contents in
    let step = check_contents-few field.pub_key_encoding field.contents b n (omega arith) in
    let rest =
      check_fields-few fields (b || contents_uncompressed field.pub_key_encoding field.contents)
        (n + k) (omega arith) in
    rw (step, rest, or_assoc)
      (ap
        (λ m. ok (
          b
              || (contents_uncompressed field.pub_key_encoding field.contents
                  || any_uncompressed fields),
          m,
        ))
        (omega arith))
