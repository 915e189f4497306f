-- ===== src/Bytes/Hex.antt =====
-- packages/common/src/utils.ts: hex texts of byte arrays.
use funai_sdk.Prelude.{
  ℕ, ◌%◌, ◌<◌, Bool, false, ◌&&◌, ◌||◌, List, [], ◌∷◌, ◌++◌, ◌==◌, if◌then◌else◌, length, leb,
}
use funai_sdk.Prelude.Int.{pos, negsuc}
use funai_sdk.Js.Text.{JsString, pad_start}
use funai_sdk.Js.Number.{Number, nan, int, to_string16, parse_int16}
use funai_sdk.Js.Result.{Result, ok, err, invalid_byte_sequence, invalid_bytes, ◌>>=◌}

abbrev pub Bytes : Type 0
Bytes = List ℕ

abbrev pub IsByte : ℕ → Type 0
IsByte b = b < 256

-- An entry of the table `hexes`.
unfoldable pub hexes : ℕ → JsString
unfolding to_string16 pad_start
hexes u = pad_start (to_string16 (pos u)) 2 b'0'

unfoldable pub bytes_to_hex : Bytes → JsString
bytes_to_hex [] = []
bytes_to_hex (u ∷ us) = hexes u ++ bytes_to_hex us

-- `/^0x/i.test(value)`
unfoldable pub has_0x : JsString → Bool
has_0x [] = false
has_0x (c ∷ []) = false
has_0x (c ∷ d ∷ cs) = c == b'0' && (d == b'x' || d == b'X')

unfoldable pub drop_two : JsString → JsString
drop_two [] = []
drop_two (c ∷ []) = []
drop_two (c ∷ d ∷ cs) = cs

unfoldable pub with0x : JsString → JsString
unfolding has_0x
with0x value = if has_0x value then value else b'0' ∷ b'x' ∷ value

unfoldable pub without0x : JsString → JsString
unfolding has_0x drop_two
without0x value = if has_0x value then drop_two value else value

-- `array[i] = byte` for what `parseInt` gave.
unfoldable pub check_byte : Number → Result ℕ
check_byte nan = err invalid_byte_sequence
check_byte (int (negsuc n)) = err invalid_byte_sequence
check_byte (int (pos n)) = ok (n % 256)

-- The loop of `hexToBytes`, two digits a round. The text has an even length, so the case of a
-- single one does not arise.
unfoldable pub hex_pairs : JsString → Result Bytes
unfolding check_byte parse_int16
hex_pairs [] = ok []
hex_pairs (c ∷ []) = ok []
hex_pairs (c ∷ d ∷ cs) = do
  byte ← check_byte (parse_int16 (c ∷ d ∷ []))
  rest ← hex_pairs cs
  ok (byte ∷ rest)

unfoldable pub pad_even : JsString → JsString
pad_even hex = if length hex % 2 == 1 then b'0' ∷ hex else hex

unfoldable pub hex_to_bytes : JsString → Result Bytes
unfolding hex_pairs pad_even without0x
hex_to_bytes hex = hex_pairs (pad_even (without0x hex))

unfoldable pub hex_to_int : JsString → Number
hex_to_int hex = parse_int16 hex

-- An element of the list that `concatArray` takes: a number, or an array of bytes.
pub data Part : Type 0 where
  octet : ℕ → Part
  bytes : Bytes → Part

unfoldable pub octets_to_bytes : ℕ → Result Bytes
octets_to_bytes n = if leb n 255 then ok (n ∷ []) else err invalid_bytes

unfoldable pub part_bytes : Part → Result Bytes
unfolding octets_to_bytes
part_bytes (octet n) = octets_to_bytes n
part_bytes (bytes bs) = ok bs

unfoldable pub concat_array : List Part → Result Bytes
unfolding part_bytes
concat_array [] = ok []
concat_array (p ∷ ps) = do bs ← part_bytes p; rest ← concat_array ps; ok (bs ++ rest)
