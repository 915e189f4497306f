-- ===== src/Bytes/Buffer.antt =====
-- packages/common/src/buffer.ts: big-endian words. What lies past the end of an array is
-- `undefined`: NaN in a sum, 0 under `<<` and `|`.
use funai_sdk.Prelude.{ℕ, ◌+◌, ◌*◌, ◌/◌, ◌%◌, ◌^◌, [], ◌∷◌}
use funai_sdk.Prelude.Int.{pos}
use funai_sdk.Js.Number.{Number, nan, int}
use funai_sdk.Bytes.Hex.{Bytes}

-- `writeUInt32BE(new Uint8Array(4), value)`: `>>>` takes the value modulo 2 ^ 32, and a store
-- takes it modulo 256.
unfoldable pub write_uint32_be : ℕ → Bytes
write_uint32_be value =
    value % 2 ^ 32 / 2 ^ 24 % 256
    ∷ value % 2 ^ 32 / 2 ^ 16 % 256
    ∷ value % 2 ^ 32 / 2 ^ 8 % 256
    ∷ value % 256
    ∷ []

unfoldable pub write_uint16_be : ℕ → Bytes
write_uint16_be value = value % 2 ^ 32 / 2 ^ 8 % 256 ∷ value % 256 ∷ []

-- At offset 0.
unfoldable pub read_uint32_be : Bytes → Number
read_uint32_be (a ∷ b ∷ c ∷ d ∷ _) = int (pos (a * 2 ^ 24 + b * 2 ^ 16 + c * 2 ^ 8 + d))
read_uint32_be _ = nan

unfoldable pub read_uint16_be : Bytes → Number
read_uint16_be [] = int (pos 0)
read_uint16_be (a ∷ []) = int (pos (a * 2 ^ 8))
read_uint16_be (a ∷ b ∷ _) = int (pos (a * 2 ^ 8 + b))

-- `undefined` past the end, which is no number of an enumeration, just as NaN is none.
unfoldable pub read_uint8 : Bytes → Number
read_uint8 [] = nan
read_uint8 (a ∷ _) = int (pos a)
