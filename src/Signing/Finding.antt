-- ===== src/Signing/Finding.antt =====
-- packages/transactions/src/builders.ts: the search for the private key of a public key.
use funai_sdk.Prelude.{
  ℕ, ◌+◌, ◌≤◌, ◌≡◌, refl, sym, ◌∙◌, subst, Option, none, some, List, [], ◌∷◌, All, arith,
  Bool-cases, inl, inr, take,
}
use funai_sdk.Js.Text.{JsString, str_eq, str_eq→eq}
use funai_sdk.Js.Result.{Result, out_of_fuel, err, ok}
use funai_sdk.Js.Inversion.{ok_eq}
use funai_sdk.Bytes.Hex.{Bytes, IsByte, bytes_to_hex}
use funai_sdk.Bytes.HexLaws.{hex_to_bytes-bytes_to_hex}
use funai_sdk.Auth.Types.{MultiSigHashMode, p2sh, p2wsh, p2sh_non_sequential, p2wsh_non_sequential}
use funai_sdk.Signing.Crypto.{Crypto}
use funai_sdk.Signing.Keys.{key_text, private_key_is_compressed, private_key_to_public}
use funai_sdk.Signing.Append.{find_signer}
use funai_sdk.Signing.Laws.{CryptoLaws, IsKeyPair}
use funai_sdk.Signing.Chain.{public_key-IsByte}

-- A text of a private key that the program accepts, without `0x` in front.
pub record IsSecret (crypto : Crypto) (key : JsString) : Type 0 where
  pub public_key : Bytes
  pub pair : IsKeyPair crypto (key_text key) public_key

abbrev pub Fits : Crypto → Bytes → Option JsString → Type 0
Fits crypto public_key none = Unit {0}
Fits crypto public_key (some key) = IsKeyPair crypto (key_text key) public_key

-- What is found for a public key is its private key.
pub record Finds (crypto : Crypto) (signer_keys : List JsString) (public_key : Bytes) : Type 0 where
  pub found : Option JsString
  pub returns : find_signer crypto signer_keys (bytes_to_hex public_key) ≡ ok found
  pub fits : Fits crypto public_key found

same_hex : (a b : Bytes) → All IsByte a → All IsByte b → bytes_to_hex a ≡ bytes_to_hex b → a ≡ b
same_hex a b ha hb h =
    ok_eq (sym (hex_to_bytes-bytes_to_hex a ha) ∙ rw h (hex_to_bytes-bytes_to_hex b hb))

-- Is there a private key for the public key?
unfoldable pub has_signer : Result (Option JsString) → ℕ
has_signer (ok (some key)) = 1
has_signer _ = 0

pub has_signer_le : (r : Result (Option JsString)) → has_signer r ≤ 1
unfolding has_signer
has_signer_le (ok (some key)) = omega arith
has_signer_le (ok none) = omega arith
has_signer_le (err e) = omega arith
has_signer_le out_of_fuel = omega arith

-- The number of public keys whose private key is at hand.
unfoldable pub signer_count : Crypto → List JsString → List Bytes → ℕ
signer_count crypto signer_keys [] = 0
signer_count crypto signer_keys (key ∷ keys) =
    has_signer (find_signer crypto signer_keys (bytes_to_hex key))
    + signer_count crypto signer_keys keys

-- A sequential mode takes the signatures required, the others take more too.
abbrev pub Suffices : MultiSigHashMode → ℕ → ℕ → Type 0
Suffices p2sh required count = count ≡ required
Suffices p2wsh required count = count ≡ required
Suffices p2sh_non_sequential required count = required ≤ count
Suffices p2wsh_non_sequential required count = required ≤ count

module _ (crypto : Crypto) (laws : CryptoLaws crypto) where
  private_key_to_public-IsSecret :
      (key : JsString) (h : IsSecret crypto key)
      → private_key_to_public crypto (key_text key) ≡ ok (bytes_to_hex h.public_key)
  unfolding private_key_to_public private_key_is_compressed
  private_key_to_public-IsSecret key h = rw (h.pair.reads) (rw (h.pair.makes) refl)

  pub find_signer-Finds :
      (signer_keys : List JsString) (public_key : Bytes)
      → All (IsSecret crypto) signer_keys
      → All IsByte public_key
      → Finds crypto signer_keys public_key
  unfolding find_signer
  find_signer-Finds [] public_key h k = record { found = none; returns = refl; fits = tt }
  find_signer-Finds (key ∷ keys) public_key (hk, hs) k =
      let rest = find_signer-Finds keys public_key hs k in
      let same = str_eq (bytes_to_hex hk.public_key) (bytes_to_hex public_key) in
      let bytes =
        public_key-IsByte crypto laws _ hk.public_key
          (laws.get_public_key-IsPublicKey (take 32 hk.pair.key) hk.public_key _ hk.pair.makes) in
      elim (Bool-cases same) [
        | inl e ↦ record {
          found = some key;
          returns = rw (private_key_to_public-IsSecret key hk) (rw e refl);
          fits =
              subst (IsKeyPair crypto (key_text key))
                (same_hex hk.public_key public_key bytes k (str_eq→eq _ _ e)) hk.pair;
        }
        | inr e ↦ record {
          found = rest.found;
          returns = rw (private_key_to_public-IsSecret key hk) (rw e rest.returns);
          fits = rest.fits;
        }
      ]
