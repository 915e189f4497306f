-- ===== src/Signing/Crypto.antt =====
-- What signing calls and the repository does not implement: the hash functions of @noble/hashes and
-- the curve of @noble/secp256k1. Definitions take a `Crypto`; theorems take the documented laws.
use funai_sdk.Prelude.{ℕ, Bool, Option}
use funai_sdk.Js.Text.{JsString}
use funai_sdk.Js.Number.{Number}
use funai_sdk.Js.Result.{Result}
use funai_sdk.Bytes.Hex.{Bytes}

pub record Crypto : Type 0 where
  pub sha256 : Bytes → Bytes
  pub ripemd160 : Bytes → Bytes
  pub sha512_256 : Bytes → Bytes
  -- `getPublicKey(privateKey, isCompressed)`
  pub get_public_key : Bytes → Bool → Result Bytes
  -- `signSync(messageHash, privateKey, { canonical: true, recovered: true })`: the raw signature,
  -- and its recovery id, if there is one.
  pub sign_sync : JsString → Bytes → Result (Bytes × Option ℕ)
  -- `Signature.fromHex(rawSignature).toCompactHex()`
  pub compact_hex : Bytes → Result JsString
  -- `Point.fromSignature(messageHash, new Signature(r, s), recoveryId).toHex(compressed)`
  pub recover : JsString → ℕ → ℕ → Number → Bool → Result JsString
