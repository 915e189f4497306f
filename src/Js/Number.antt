-- ===== src/Js/Number.antt =====
-- Numbers that are integers or NaN, and the text of numbers in base 16.
use funai_sdk.Prelude.{
  ℕ, zero, suc, ◌+◌, ◌-◌, ◌*◌, ◌/◌, ◌%◌, Bool, false, ◌&&◌, ◌||◌, not, [], ◌∷◌, ◌++◌, Option, none,
  some, ltb, leb, ◌==◌, if◌then◌else◌, min,
}
use funai_sdk.Prelude.Int.{ℤ, pos, negsuc, ◌+ℤ◌, neg_of, ltb_ℤ}
use funai_sdk.Js.Text.{JsString}
use funai_sdk.Js.Result.{Result, ok, err, bigint_syntax}

-- The numbers that the code computes with: integers, and NaN.
pub data Number : Type 0 where
  nan : Number
  int : ℤ → Number

-- `a + b`
unfoldable pub add_number : Number → Number → Number
add_number nan b = nan
add_number (int a) nan = nan
add_number (int a) (int b) = int (a +ℤ b)

-- `a < b`
unfoldable pub ltb_number : Number → Number → Bool
ltb_number nan b = false
ltb_number (int a) nan = false
ltb_number (int a) (int b) = ltb_ℤ a b

-- `a >= b`
unfoldable pub geb_number : Number → Number → Bool
geb_number nan b = false
geb_number (int a) nan = false
geb_number (int a) (int b) = not (ltb_ℤ a b)

-- `a === b`
unfoldable pub number_eq : Number → Number → Bool
number_eq nan b = false
number_eq (int a) nan = false
number_eq (int a) (int b) = not (ltb_ℤ a b) && not (ltb_ℤ b a)

-- An argument of `subarray`, relative to the array's length.
unfoldable pub relative_index : ℕ → Number → ℕ
relative_index len nan = 0
relative_index len (int (pos k)) = min k len
relative_index len (int (negsuc k)) = len - suc k

-- One digit of `n.toString(16)`.
unfoldable pub to_digit : ℕ → ℕ
to_digit d = if ltb d 10 then 48 + d else 87 + d

unfoldable pub digit_value : ℕ → Option ℕ
digit_value c =
    if leb 48 c && leb c 57
    then some (c - 48)
    else if leb 97 c && leb c 102
    then some (c - 87)
    else if leb 65 c && leb c 70
    then some (c - 55)
    else none

-- `n.toString(16)` for `n` from 0 on: a digit falls off in each round.
unfoldable pub hex_digits : ℕ → ℕ → JsString
unfolding to_digit
hex_digits zero n = to_digit (n % 16) ∷ []
hex_digits (suc f) n =
    let front = hex_digits f (n / 16) in
    if ltb n 16 then to_digit n ∷ [] else front ++ (to_digit (n % 16) ∷ [])

-- `n.toString(16)`; a value has fewer digits than units, so `n` rounds are enough.
unfoldable pub to_string16 : ℤ → JsString
unfolding hex_digits
to_string16 (pos n) = hex_digits n n
to_string16 (negsuc n) = b'-' ∷ hex_digits (suc n) (suc n)

-- The white space that `parseInt` skips.
unfoldable pub is_white : ℕ → Bool
is_white c =
    (leb 9 c && leb c 13)
    || c == 32
    || c == 0xa0
    || c == 0x1680
    || (leb 0x2000 c && leb c 0x200a)
    || c == 0x2028
    || c == 0x2029
    || c == 0x202f
    || c == 0x205f
    || c == 0x3000
    || c == 0xfeff

unfoldable pub trim_start : JsString → JsString
unfolding is_white
trim_start [] = []
trim_start (c ∷ cs) = if is_white c then trim_start cs else c ∷ cs

-- The value of the longest run of digits, which follows `acc`.
unfoldable pub digits_prefix : ℕ → JsString → ℕ
digits_prefix acc [] = acc
digits_prefix acc (c ∷ cs) = elim (digit_value c) [
  | none ↦ acc
  | some d ↦ digits_prefix (acc * 16 + d) cs
]

unfoldable pub parse_digits : JsString → Option ℕ
parse_digits [] = none
parse_digits (c ∷ cs) = elim (digit_value c) [ none ↦ none | some d ↦ some (digits_prefix d cs) ]

-- `0x` in front of the digits
unfoldable pub strip_radix : JsString → JsString
strip_radix [] = []
strip_radix (c ∷ []) = c ∷ []
strip_radix (c ∷ d ∷ cs) = if c == b'0' && (d == b'x' || d == b'X') then cs else c ∷ d ∷ cs

unfoldable pub parse_unsigned : JsString → Option ℕ
parse_unsigned s = parse_digits (strip_radix s)

unfoldable pub signed : (ℕ → ℤ) → Option ℕ → Number
signed sign none = nan
signed sign (some n) = int (sign n)

-- `Number.parseInt(s, 16)`, without the rounding that starts at 2 ^ 53. (-0 is 0.)
unfoldable pub parse_signed : JsString → Number
parse_signed [] = nan
parse_signed (c ∷ cs) =
    if c == b'-'
    then signed neg_of (parse_unsigned cs)
    else if c == b'+'
    then signed pos (parse_unsigned cs)
    else signed pos (parse_unsigned (c ∷ cs))

unfoldable pub parse_int16 : JsString → Number
parse_int16 s = parse_signed (trim_start s)

-- ``BigInt(`0x${s}`)``: digits only, and one at least.
unfoldable pub big_digits : ℕ → JsString → Result ℕ
big_digits acc [] = ok acc
big_digits acc (c ∷ cs) = elim (digit_value c) [
  | none ↦ err bigint_syntax
  | some d ↦ big_digits (acc * 16 + d) cs
]

unfoldable pub big_int16 : JsString → Result ℕ
big_int16 [] = err bigint_syntax
big_int16 (c ∷ cs) = big_digits 0 (c ∷ cs)
