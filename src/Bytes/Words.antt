-- ===== src/Bytes/Words.antt =====
-- Big-endian words of 32 and 16 bits.
use funai_sdk.Prelude.{ℕ, ◌^◌, ◌<◌, ◌≡◌, refl, ap, All, arith, length}
use funai_sdk.Prelude.Int.{pos}
use funai_sdk.Js.Number.{int}
use funai_sdk.Bytes.Hex.{IsByte}
use funai_sdk.Bytes.Buffer.{write_uint32_be, write_uint16_be, read_uint32_be, read_uint16_be}

pub write_uint32_be-IsByte : (v : ℕ) → All IsByte (write_uint32_be v)
unfolding write_uint32_be
write_uint32_be-IsByte v = omega arith

pub length-write_uint32_be : (v : ℕ) → length (write_uint32_be v) ≡ 4
unfolding write_uint32_be
length-write_uint32_be v = refl

-- `readUInt32BE` of what `writeUInt32BE` wrote is the number, for a number below 2 ^ 32.
pub read_uint32_be-write_uint32_be :
    (v : ℕ) → v < 2 ^ 32 → read_uint32_be (write_uint32_be v) ≡ int (pos v)
unfolding read_uint32_be write_uint32_be
read_uint32_be-write_uint32_be v h = ap (λ n. int (pos n)) (omega arith)

pub write_uint16_be-IsByte : (v : ℕ) → All IsByte (write_uint16_be v)
unfolding write_uint16_be
write_uint16_be-IsByte v = omega arith

pub length-write_uint16_be : (v : ℕ) → length (write_uint16_be v) ≡ 2
unfolding write_uint16_be
length-write_uint16_be v = refl

-- `readUInt16BE` of what `writeUInt16BE` wrote is the number, for a number below 2 ^ 16.
pub read_uint16_be-write_uint16_be :
    (v : ℕ) → v < 2 ^ 16 → read_uint16_be (write_uint16_be v) ≡ int (pos v)
unfolding read_uint16_be write_uint16_be
read_uint16_be-write_uint16_be v h = ap (λ n. int (pos n)) (omega arith)
