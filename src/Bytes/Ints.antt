-- ===== src/Bytes/Ints.antt =====
-- packages/common/src/utils.ts: integers as hex texts and bytes, and two's complement. A bigint is
-- an integer ℤ; `1 << (width - 1)` is 2 ^ (width - 1).
use funai_sdk.Prelude.{ℕ, ◌-◌, ◌*◌, ◌/◌, ◌%◌, ◌^◌, ◌==◌, if◌then◌else◌, length, ◌||◌}
use funai_sdk.Prelude.Int.{ℤ, pos, ◌+ℤ◌, ltb_ℤ, neg_of}
use funai_sdk.Js.Text.{JsString, pad_start}
use funai_sdk.Js.Number.{Number, nan, int, to_string16, big_int16}
use funai_sdk.Js.Result.{
  Result, ok, err, unable_to_represent, not_an_integer, unsafe_integer, ◌>>=◌,
}
use funai_sdk.Bytes.Hex.{Bytes, bytes_to_hex, hex_to_bytes}

-- `intToBigInt` of a number, which is an integer here or NaN.
unfoldable pub number_to_big_int : Number → Result ℤ
number_to_big_int nan = err not_an_integer
number_to_big_int (int value) =
    if ltb_ℤ (pos (2 ^ 53 - 1)) value then err unsafe_integer else ok value

unfoldable pub int_to_hex : ℤ → ℕ → JsString
unfolding to_string16 pad_start
int_to_hex value byte_length = pad_start (to_string16 value) (byte_length * 2) b'0'

unfoldable pub big_int_to_bytes : ℤ → ℕ → Result Bytes
unfolding int_to_hex hex_to_bytes
big_int_to_bytes value length = hex_to_bytes (int_to_hex value length)

-- `intToBytes` of a bigint: `intToBigInt` returns it as it is.
unfoldable pub int_to_bytes : ℤ → ℕ → Result Bytes
unfolding big_int_to_bytes
int_to_bytes value byte_length = big_int_to_bytes value byte_length

-- `intToBigInt` of a byte array.
unfoldable pub bytes_to_big_int : Bytes → Result ℕ
unfolding big_int16 bytes_to_hex
bytes_to_big_int bs = big_int16 (bytes_to_hex bs)

unfoldable pub to_twos : ℤ → ℕ → Result ℤ
to_twos value width =
    if ltb_ℤ value (neg_of (2 ^ (width - 1))) || ltb_ℤ (pos (2 ^ (width - 1) - 1)) value
    then err unable_to_represent
    else if ltb_ℤ value (pos 0)
    then ok (value +ℤ pos (2 ^ width))
    else ok value

-- `value & (1 << n)` is not zero.
unfoldable pub nth_bit : ℕ → ℕ → ℕ
nth_bit value n = value / 2 ^ n % 2

-- A byte array is never negative as a number, and so is not the argument of `fromTwos`.
unfoldable pub from_twos : ℕ → ℕ → ℤ
unfolding nth_bit
from_twos value width =
    if nth_bit value (width - 1) == 1 then pos value +ℤ neg_of (2 ^ width) else pos value

unfoldable pub bytes_to_twos : Bytes → Result ℤ
unfolding bytes_to_big_int from_twos
bytes_to_twos bs = do value ← bytes_to_big_int bs; ok (from_twos value (length bs * 8))
