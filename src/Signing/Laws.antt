-- ===== src/Signing/Laws.antt =====
-- What is documented of the hash functions and of the curve: the sizes of hashes and keys, and that
-- a recoverable signature gives back the key that made it.
use funai_sdk.Prelude.{
  ℕ, ◌<◌, ◌≡◌, ◌⊎◌, Bool, true, false, some, ◌∷◌, ◌++◌, ◌==◌, length, take, All,
}
use funai_sdk.Prelude.Int.{pos}
use funai_sdk.Js.Text.{JsString}
use funai_sdk.Js.Number.{int}
use funai_sdk.Js.Result.{ok}
use funai_sdk.Bytes.Hex.{Bytes, IsByte, bytes_to_hex}
use funai_sdk.Bytes.IntLaws.{be_value}
use funai_sdk.Wire.HexText.{IsHex}
use funai_sdk.Signing.Crypto.{Crypto}
use funai_sdk.Signing.Keys.{PrivateKey, private_key_to_bytes, private_key_is_compressed}

-- The first byte of a key tells its form.
abbrev pub IsPrefix : Bool → ℕ → Type 0
IsPrefix true first = (first ≡ 2) ⊎ (first ≡ 3)
IsPrefix false first = first ≡ 4

pub record IsPublicKey (short : Bool) (key : Bytes) : Type 0 where
  pub first : ℕ
  pub rest : Bytes
  pub key_is : key ≡ first ∷ rest
  pub prefix : IsPrefix short first
  pub rest_bytes : All IsByte rest

-- A signature of the message: its coordinates of 32 bytes, and the id with which they give the key.
pub record IsSignedBy (crypto : Crypto) (message_hash : JsString) (secret : Bytes) (short : Bool)
    (public_key : Bytes) : Type 0 where
  pub raw : Bytes
  pub id : ℕ
  pub r_bytes : Bytes
  pub s_bytes : Bytes
  pub signs : crypto.sign_sync message_hash secret ≡ ok (raw, some id)
  pub small_id : id < 4
  pub compact : crypto.compact_hex raw ≡ ok (bytes_to_hex (r_bytes ++ s_bytes))
  pub are_bytes_r : All IsByte r_bytes
  pub are_bytes_s : All IsByte s_bytes
  pub size_r : length r_bytes ≡ 32
  pub size_s : length s_bytes ≡ 32
  pub recovers :
      crypto.recover message_hash (be_value 0 r_bytes) (be_value 0 s_bytes) (int (pos id)) short
      ≡ ok (bytes_to_hex public_key)

pub record CryptoLaws (crypto : Crypto) : Type 0 where
  pub sha512_256-IsByte : (bs : Bytes) → All IsByte (crypto.sha512_256 bs)
  pub length-sha512_256 : (bs : Bytes) → length (crypto.sha512_256 bs) ≡ 32
  pub get_public_key-IsPublicKey :
      (secret public_key : Bytes) (short : Bool)
      → crypto.get_public_key secret short ≡ ok public_key
      → IsPublicKey short public_key
  -- Any message of 32 bytes can be signed with a secret that has a public key.
  pub signs :
      (message_hash : JsString) (secret public_key : Bytes) (short : Bool)
      → IsHex 32 message_hash
      → crypto.get_public_key secret short ≡ ok public_key
      → IsSignedBy crypto message_hash secret short public_key

-- A private key that the program accepts, and its public key. The text of a private key has no `0x`
-- in front, so that its length tells whether it is a compressed one.
pub record IsKeyPair (crypto : Crypto) (private_key : PrivateKey) (public_key : Bytes)
    : Type 0 where
  pub key : Bytes
  pub reads : private_key_to_bytes private_key ≡ ok key
  pub form : private_key_is_compressed private_key ≡ (length key == 33)
  pub makes : crypto.get_public_key (take 32 key) (length key == 33) ≡ ok public_key
