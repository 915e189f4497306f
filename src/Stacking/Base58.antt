-- ===== src/Stacking/Base58.antt =====
-- packages/encryption/src/keys.ts: base58 with a checksum.
use funai_sdk.Prelude.{ℕ, ◌-◌, Bool, ◌&&◌, [], ◌∷◌, ◌++◌, ◌==◌, length, take, drop, ◌+◌, ◌%◌}
use funai_sdk.Js.Text.{JsString}
use funai_sdk.Js.Result.{Result, ok, ◌>>=◌, ◌>>◌, guard, invalid_checksum, invalid_address_length}
use funai_sdk.Bytes.Hex.{Bytes}
use funai_sdk.Signing.Crypto.{Crypto}
use funai_sdk.Stacking.Codec.{Codec}

-- The bits of `bytes[i]`, which `^` takes for 0 behind the end.
unfoldable pub byte_or_zero : Bytes → ℕ → ℕ
byte_or_zero [] i = 0
byte_or_zero (b ∷ bs) ℕ.zero = b
byte_or_zero (b ∷ bs) (ℕ.suc i) = byte_or_zero bs i

-- The disjunction of the `^` of bytes is 0 where they are equal.
unfoldable pub same_checksum : Bytes → Bytes → Bool
same_checksum checksum new_checksum =
    byte_or_zero checksum 0 == byte_or_zero new_checksum 0
    && byte_or_zero checksum 1 == byte_or_zero new_checksum 1
    && byte_or_zero checksum 2 == byte_or_zero new_checksum 2
    && byte_or_zero checksum 3 == byte_or_zero new_checksum 3

unfoldable pub base58_check_decode : Codec → Crypto → JsString → Result (ℕ × Bytes)
base58_check_decode codec crypto btc_address = do
  bs ← codec.base58_decode btc_address
  let payload = take (length bs - 4) bs
  let checksum = drop (length bs - 4) bs
  guard (same_checksum checksum (crypto.sha256 (crypto.sha256 payload))) invalid_checksum
  guard (length payload == 21) invalid_address_length
  ok (byte_or_zero payload 0, drop 1 payload)

unfoldable pub base58_encode : Codec → Crypto → Bytes → JsString
base58_encode codec crypto hash =
    codec.base58_encode (take (length hash + 4) (hash ++ crypto.sha256 (crypto.sha256 hash)))

-- `new Uint8Array([version])` keeps the low eight bits.
unfoldable pub base58_check_encode : Codec → Crypto → ℕ → Bytes → JsString
base58_check_encode codec crypto version hash =
    base58_encode codec crypto (version % 256 ∷ take 20 hash)
