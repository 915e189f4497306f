-- ===== src/Tests/SignData.antt =====
-- A concrete curve and hash functions that keep the laws, and transactions to sign.
use funai_sdk.Prelude.{
  ℕ, ◌%◌, ◌≡◌, refl, subst, Bool, true, false, some, inl, [], ◌∷◌, ◌++◌, replicate, length,
  length-replicate, All, arith,
}
use funai_sdk.Js.Text.{JsString}
use funai_sdk.Js.Result.{ok}
use funai_sdk.Js.Inversion.{ok_eq}
use funai_sdk.Bytes.Hex.{Bytes, IsByte, bytes_to_hex}
use funai_sdk.Bytes.IntLaws.{be_value}
use funai_sdk.Signing.Crypto.{Crypto}
use funai_sdk.Signing.Laws.{IsPublicKey, IsSignedBy, CryptoLaws}

abbrev digest : ℕ → Bytes → Bytes
digest size bs = (length bs % 256) ∷ replicate size 7

abbrev seed : Bytes → ℕ
seed [] = 0
seed (b ∷ bs) = b % 256

abbrev public_of : Bool → ℕ → Bytes
public_of true n = 2 ∷ replicate 32 n
public_of false n = 4 ∷ replicate 64 n

-- A key and a signature consist of the first byte of the secret.
abbrev pub sample_crypto : Crypto
sample_crypto = record {
  sha256 = digest 31;
  ripemd160 = digest 19;
  sha512_256 = digest 31;
  get_public_key = λ secret short. ok (public_of short (seed secret));
  sign_sync = λ message secret. ok (seed secret ∷ [], some 1);
  compact_hex = λ raw. ok (bytes_to_hex (replicate 32 (seed raw) ++ replicate 32 9));
  recover = λ message r s id short. ok (bytes_to_hex (public_of short (r % 256)));
}

replicate-IsByte : (n b : ℕ) → IsByte b → All IsByte (replicate n b)
replicate-IsByte ℕ.zero b h = tt
replicate-IsByte (ℕ.suc n) b h = (h, replicate-IsByte n b h)

seed-IsByte : (bs : Bytes) → IsByte (seed bs)
seed-IsByte [] = omega arith
seed-IsByte (b ∷ bs) = omega arith

public_of-IsPublicKey : (short : Bool) (n : ℕ) → IsByte n → IsPublicKey short (public_of short n)
public_of-IsPublicKey true n h = record {
  first = 2;
  rest = replicate 32 n;
  key_is = refl;
  prefix = inl refl;
  rest_bytes = replicate-IsByte 32 n h;
}
public_of-IsPublicKey false n h = record {
  first = 4;
  rest = replicate 64 n;
  key_is = refl;
  prefix = refl;
  rest_bytes = replicate-IsByte 64 n h;
}

be_value-replicate : (n : ℕ) → IsByte n → be_value 0 (replicate 32 n) % 256 ≡ n
unfolding be_value
be_value-replicate n h = omega arith

small : (n : ℕ) → IsByte n → n % 256 ≡ n
small n h = omega arith

signed :
    (message : JsString) (secret : Bytes) (short : Bool)
    → IsSignedBy sample_crypto message secret short (public_of short (seed secret))
signed message secret short =
    let b = seed-IsByte secret in
    record {
      raw = seed secret ∷ [];
      id = 1;
      r_bytes = replicate 32 (seed secret);
      s_bytes = replicate 32 9;
      signs = refl;
      small_id = omega arith;
      compact = rw (small (seed secret) b) refl;
      are_bytes_r = replicate-IsByte 32 (seed secret) b;
      are_bytes_s = replicate-IsByte 32 9 (omega arith);
      size_r = length-replicate 32 (seed secret);
      size_s = refl;
      recovers = rw (be_value-replicate (seed secret) b) refl;
    }

pub sample_crypto-CryptoLaws : CryptoLaws sample_crypto
sample_crypto-CryptoLaws = record {
  sha512_256-IsByte = λ bs. (omega arith, replicate-IsByte 31 7 (omega arith));
  length-sha512_256 = λ bs. refl;
  get_public_key-IsPublicKey = λ secret public_key short h.
      subst (IsPublicKey short) (ok_eq h)
        (public_of-IsPublicKey short (seed secret) (seed-IsByte secret));
  signs = λ message secret public_key short hex h.
      subst (IsSignedBy sample_crypto message secret short) (ok_eq h) (signed message secret short);
}
