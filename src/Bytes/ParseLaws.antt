-- ===== src/Bytes/ParseLaws.antt =====
-- `hexToInt(bytesToHex(bs))`, and what `intToBytes` makes of a negative integer.
use funai_sdk.Prelude.{
  ℕ, ◌+◌, ◌*◌, ◌/◌, ◌%◌, ◌^◌, ◌≤◌, ◌<◌, ◌≡◌, refl, ◌∙◌, ap, false, [], ◌∷◌, length, All, arith,
  some,
}
use funai_sdk.Prelude.Int.{pos}
use funai_sdk.Js.Text.{JsString}
use funai_sdk.Js.Number.{
  int, to_digit, digit_value, parse_int16, parse_signed, parse_unsigned, parse_digits, strip_radix,
  digits_prefix, trim_start, is_white, signed,
}
use funai_sdk.Bytes.Hex.{Bytes, IsByte, bytes_to_hex, hex_to_int}
use funai_sdk.Bytes.HexLaws.{hexes_lem}
use funai_sdk.Bytes.IntLaws.{
  be_value, be_bytes, be_bytes-IsByte, length-be_bytes, be_value-be_bytes, digit_value-to_digit,
}

is_white-to_digit : (d : ℕ) → d < 16 → is_white (to_digit d) ≡ false
unfolding is_white to_digit
is_white-to_digit d h = ground arith

trim_start-to_digit :
    (d : ℕ) (cs : JsString) → d < 16 → trim_start (to_digit d ∷ cs) ≡ to_digit d ∷ cs
unfolding trim_start
trim_start-to_digit d cs h = rw (is_white-to_digit d h)

parse_signed-to_digit :
    (d : ℕ) (cs : JsString)
    → d < 16
    → parse_signed (to_digit d ∷ cs) ≡ signed pos (parse_unsigned (to_digit d ∷ cs))
unfolding parse_signed to_digit
parse_signed-to_digit d cs h = ground arith

strip_radix-to_digit :
    (d e : ℕ) (cs : JsString)
    → e < 16
    → strip_radix (to_digit d ∷ to_digit e ∷ cs) ≡ to_digit d ∷ to_digit e ∷ cs
unfolding strip_radix to_digit
strip_radix-to_digit d e cs h = ground arith

digits_prefix_step :
    (acc c d : ℕ) (cs : JsString)
    → digit_value c ≡ some d
    → digits_prefix acc (c ∷ cs) ≡ digits_prefix (acc * 16 + d) cs
unfolding digits_prefix
digits_prefix_step acc c d cs e = rw (e, digits_prefix)

parse_digits_step :
    (c d : ℕ) (cs : JsString)
    → digit_value c ≡ some d
    → parse_digits (c ∷ cs) ≡ some (digits_prefix d cs)
unfolding parse_digits
parse_digits_step c d cs e = rw (e, parse_digits)

digits_prefix-bytes_to_hex :
    (acc : ℕ) (bs : Bytes) → All IsByte bs → digits_prefix acc (bytes_to_hex bs) ≡ be_value acc bs
unfolding bytes_to_hex be_value
digits_prefix-bytes_to_hex acc [] h = unfold digits_prefix in refl
digits_prefix-bytes_to_hex acc (u ∷ us) (hu, h) =
    let high = digit_value-to_digit (u / 16) (omega arith) in
    let low = digit_value-to_digit (u % 16) (omega arith) in
    let join : (acc * 16 + u / 16) * 16 + u % 16 ≡ acc * 256 + u = omega arith in
    rw (hexes_lem u hu) (
      digits_prefix_step acc _ _ _ high
      ∙ digits_prefix_step _ _ _ _ low
      ∙ rw join (digits_prefix-bytes_to_hex (acc * 256 + u) us h))

unfold_parse : (s : JsString) → parse_unsigned s ≡ parse_digits (strip_radix s)
unfolding parse_unsigned
unfold_parse s = refl

signed-some : (n : ℕ) → signed pos (some n) ≡ int (pos n)
unfolding signed
signed-some n = refl

parse_unsigned-two :
    (a b : ℕ) (cs : JsString)
    → a < 16
    → b < 16
    → parse_unsigned (to_digit a ∷ to_digit b ∷ cs) ≡ some (digits_prefix (a * 16 + b) cs)
parse_unsigned-two a b cs ha hb =
    unfold_parse (to_digit a ∷ to_digit b ∷ cs)
    ∙ rw (strip_radix-to_digit a b cs hb) (
        parse_digits_step _ a _ (digit_value-to_digit a ha)
        ∙ ap some (digits_prefix_step a _ b cs (digit_value-to_digit b hb)))

-- `hexToInt(bytesToHex(bs))` is the value of the bytes, where there is one at least.
pub hex_to_int-bytes_to_hex :
    (bs : Bytes)
    → 0 < length bs
    → All IsByte bs
    → hex_to_int (bytes_to_hex bs) ≡ int (pos (be_value 0 bs))
unfolding hex_to_int parse_int16 bytes_to_hex be_value
hex_to_int-bytes_to_hex [] n h = absurd (omega arith)
hex_to_int-bytes_to_hex (u ∷ us) n (hu, h) =
    let ha : u / 16 < 16 = omega arith in
    let hb : u % 16 < 16 = omega arith in
    let join : u / 16 * 16 + u % 16 ≡ 0 * 256 + u = omega arith in
    rw (hexes_lem u hu) (
      rw (trim_start-to_digit (u / 16) (to_digit (u % 16) ∷ bytes_to_hex us) ha) (
        parse_signed-to_digit (u / 16) _ ha
        ∙ rw (parse_unsigned-two (u / 16) (u % 16) (bytes_to_hex us) ha hb) (
            signed-some _
            ∙ rw join (ap (λ t. int (pos t)) (digits_prefix-bytes_to_hex (0 * 256 + u) us h)))))

-- A length prefix reads back as the length.
pub hex_to_int-be_bytes :
    (k n : ℕ) → 1 ≤ k → n < 256 ^ k → hex_to_int (bytes_to_hex (be_bytes k n)) ≡ int (pos n)
hex_to_int-be_bytes k n hk h =
    hex_to_int-bytes_to_hex (be_bytes k n) (rw length-be_bytes hk) (be_bytes-IsByte k n)
    ∙ ap (λ v. int (pos v)) (be_value-be_bytes k n h)
