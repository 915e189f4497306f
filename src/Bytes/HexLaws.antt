-- ===== src/Bytes/HexLaws.antt =====
use funai_sdk.Prelude.{
  ℕ, zero, suc, ◌*◌, ◌/◌, ◌%◌, ◌<◌, ◌≡◌, refl, Bool, true, false, ◌&&◌, [], ◌∷◌, ◌++◌, ◌==◌, ==_iff,
  length, All, arith, append_assoc,
}
use funai_sdk.Prelude.Int.{pos, negsuc}
use funai_sdk.Js.Text.{str_eq, str_eq→eq}
use funai_sdk.Js.Number.{
  Number, nan, int, to_digit, parse_int16, parse_signed, parse_unsigned, parse_digits,
  digits_prefix, digit_value, strip_radix, signed, trim_start,
}
use funai_sdk.Js.Result.{ok}
use funai_sdk.Bytes.Hex.{
  Bytes, IsByte, hexes, bytes_to_hex, hex_to_bytes, hex_pairs, pad_even, without0x,
}

-- A test passes on every value below a bound.
passes : (ℕ → Bool) → ℕ → Bool
passes test zero = true
passes test (suc m) = passes test m && test m

passes_sound :
    (test : ℕ → Bool) (bound u : ℕ) → u < bound → passes test bound ≡ true → test u ≡ true
unfolding passes
passes_sound test zero u below h = absurd (omega arith)
passes_sound test (suc m) u below h = ground (arith, passes_sound test m u)

hexes_table : passes (λ u. str_eq (hexes u) (to_digit (u / 16) ∷ to_digit (u % 16) ∷ [])) 256 ≡ true
unfolding passes str_eq hexes to_digit
hexes_table = refl

pub hexes_lem : (u : ℕ) → IsByte u → hexes u ≡ to_digit (u / 16) ∷ to_digit (u % 16) ∷ []
hexes_lem u h = str_eq→eq _ _ (passes_sound _ 256 u h hexes_table)

is_int_of : Number → ℕ → Bool
is_int_of nan n = false
is_int_of (int (pos m)) n = m == n
is_int_of (int (negsuc m)) n = false

is_int_of→eq : (x : Number) (n : ℕ) → is_int_of x n ≡ true → x ≡ int (pos n)
unfolding is_int_of
is_int_of→eq nan n h = cc
is_int_of→eq (int (pos m)) n h = rw ((==_iff m n).0 h)
is_int_of→eq (int (negsuc m)) n h = cc

parse_table :
    passes (λ u. is_int_of (parse_int16 (to_digit (u / 16) ∷ to_digit (u % 16) ∷ [])) u) 256 ≡ true
unfolding passes is_int_of parse_int16 parse_signed signed parse_unsigned parse_digits digits_prefix
    digit_value strip_radix trim_start to_digit
parse_table = refl

pub parse-pair :
    (u : ℕ) → IsByte u → parse_int16 (to_digit (u / 16) ∷ to_digit (u % 16) ∷ []) ≡ int (pos u)
parse-pair u h = is_int_of→eq _ u (passes_sound _ 256 u h parse_table)

pub bytes_to_hex-append :
    (as' bs : Bytes) → bytes_to_hex (as' ++ bs) ≡ bytes_to_hex as' ++ bytes_to_hex bs
unfolding bytes_to_hex
bytes_to_hex-append [] bs = refl
bytes_to_hex-append (a ∷ as') bs = simp (bytes_to_hex-append as' bs, append_assoc)

-- Two digits for each byte.
pub length-bytes_to_hex : (bs : Bytes) → All IsByte bs → length (bytes_to_hex bs) ≡ 2 * length bs
unfolding bytes_to_hex
length-bytes_to_hex [] h = refl
length-bytes_to_hex (u ∷ us) (hu, h) = rw (hexes_lem u hu) (omega (arith, length-bytes_to_hex us h))

without0x-bytes_to_hex :
    (bs : Bytes) → All IsByte bs → without0x (bytes_to_hex bs) ≡ bytes_to_hex bs
unfolding bytes_to_hex without0x
without0x-bytes_to_hex [] h = refl
without0x-bytes_to_hex (u ∷ us) (hu, h) = rw (hexes_lem u hu) (unfold to_digit in ground arith)

pad_even-bytes_to_hex : (bs : Bytes) → All IsByte bs → pad_even (bytes_to_hex bs) ≡ bytes_to_hex bs
unfolding pad_even
pad_even-bytes_to_hex bs h = ground (arith, length-bytes_to_hex bs h)

hex_pairs-bytes_to_hex : (bs : Bytes) → All IsByte bs → hex_pairs (bytes_to_hex bs) ≡ ok bs
unfolding hex_pairs bytes_to_hex
hex_pairs-bytes_to_hex [] h = refl
hex_pairs-bytes_to_hex (u ∷ us) (hu, h) =
    rw (hexes_lem u hu) (rw (parse-pair u hu, hex_pairs-bytes_to_hex us h) (ground arith))

-- `hexToBytes` of `bytesToHex` of any array of bytes is that array.
pub hex_to_bytes-bytes_to_hex :
    (bs : Bytes) → All IsByte bs → hex_to_bytes (bytes_to_hex bs) ≡ ok bs
unfolding hex_to_bytes
hex_to_bytes-bytes_to_hex bs h =
    rw (without0x-bytes_to_hex bs h, pad_even-bytes_to_hex bs h) (hex_pairs-bytes_to_hex bs h)
