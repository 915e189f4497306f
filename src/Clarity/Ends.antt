-- ===== src/Clarity/Ends.antt =====
-- The parts of `deserializeCV` return or throw.
use funai_sdk.Prelude.{
  ℕ, ◌+◌, ◌-◌, ◌*◌, ◌^◌, ltb, Bool-cases, inl, inr, Option, none, some, List, [], ◌∷◌, length, All,
  arith,
}
use funai_sdk.Prelude.Int.{ℤ, pos, ltb_ℤ, neg_of}
use funai_sdk.Js.Text.{JsString}
use funai_sdk.Js.Number.{
  int, big_int16, big_digits, digit_value, parse_int16, parse_signed, trim_start,
}
use funai_sdk.Js.Result
use funai_sdk.Js.Result.{Result, out_of_fuel, err, ok, unknown_clarity_type, bigint_syntax}
use funai_sdk.Bytes.Hex.{Bytes, IsByte, bytes_to_hex, hex_to_int}
use funai_sdk.Bytes.Ints.{bytes_to_big_int, bytes_to_twos}
use funai_sdk.Bytes.ParseLaws.{hex_to_int-bytes_to_hex}
use funai_sdk.Platform.{Platform}
use funai_sdk.Reader.Cursor.{
  IsCount, AlwaysEnds, Defined, AlwaysEnds-pure, AlwaysEnds-lift, AlwaysEnds-bind,
  read_bytes-AlwaysEnds,
}
use funai_sdk.Wire.Create.{create_lp_string, exceeds_max_length_bytes, or_default}
use funai_sdk.Wire.Read.{deserialize_address, deserialize_lp_string}
use funai_sdk.Clarity.Types.{ClarityValue}
use funai_sdk.Clarity.Create.{int_cv, uint_cv, buffer_cv, tuple_cv, all_clarity_names}
use funai_sdk.Clarity.Deserialize.{uint_cv_from_bytes, int_cv_from_bytes}

-- Any value will do.
abbrev pub Anything {ℓ} : {A : Type ℓ} → A → Type 0
Anything a = Unit {0}

module _ {ℓ κ} {A : Type ℓ} {B : Type κ} where
  pub Defined-bind :
      (m : Result A) (f : A → Result B)
      → Defined Anything m
      → ((a : A) → Defined Anything (f a))
      → Defined Anything (Result.◌>>=◌ m f)
  Defined-bind out_of_fuel f d h = elim d [ ]
  Defined-bind (err e) f d h = tt
  Defined-bind (ok a) f d h = h a

big_digits-Defined : (acc : ℕ) (s : JsString) → Defined Anything (big_digits acc s)
unfolding big_digits
big_digits-Defined acc [] = tt
big_digits-Defined acc (c ∷ cs) =
    elim (digit_value c)
      as (λ found.
        Defined Anything
          (elim found [ none ↦ err bigint_syntax | some d ↦ big_digits (acc * 16 + d) cs ])) [
            | none ↦ tt
            | some d ↦ big_digits-Defined (acc * 16 + d) cs
          ]

big_int16-Defined : (s : JsString) → Defined Anything (big_int16 s)
unfolding big_int16
big_int16-Defined [] = tt
big_int16-Defined (c ∷ cs) = big_digits-Defined 0 (c ∷ cs)

bytes_to_big_int-Defined : (bs : Bytes) → Defined Anything (bytes_to_big_int bs)
unfolding bytes_to_big_int
bytes_to_big_int-Defined bs = big_int16-Defined (bytes_to_hex bs)

int_cv-Defined : (z : ℤ) → Defined Anything (int_cv z)
unfolding int_cv
int_cv-Defined z = elim (Bool-cases (ltb_ℤ (pos (2 ^ 127 - 1)) z)) [
  | inl h ↦ rw h tt
  | inr h ↦
      rw h (elim (Bool-cases (ltb_ℤ z (neg_of (2 ^ 127)))) [ inl e ↦ rw e tt | inr e ↦ rw e tt ])
]

uint_cv-Defined : (z : ℤ) → Defined Anything (uint_cv z)
unfolding uint_cv
uint_cv-Defined z = elim (Bool-cases (ltb_ℤ z (pos 0))) [
  | inl h ↦ rw h tt
  | inr h ↦
      rw h (elim (Bool-cases (ltb_ℤ (pos (2 ^ 128 - 1)) z)) [ inl e ↦ rw e tt | inr e ↦ rw e tt ])
]

pub uint_cv_from_bytes-Defined : (bs : Bytes) → Defined Anything (uint_cv_from_bytes bs)
unfolding uint_cv_from_bytes
uint_cv_from_bytes-Defined bs =
    Defined-bind _ _ (bytes_to_big_int-Defined bs) (λ n. uint_cv-Defined (pos n))

pub int_cv_from_bytes-Defined : (bs : Bytes) → Defined Anything (int_cv_from_bytes bs)
unfolding int_cv_from_bytes bytes_to_twos
int_cv_from_bytes-Defined bs =
    Defined-bind _ _ (Defined-bind _ _ (bytes_to_big_int-Defined bs) (λ n. tt)) int_cv-Defined

pub buffer_cv-Defined : (bs : Bytes) → Defined Anything (buffer_cv bs)
unfolding buffer_cv
buffer_cv-Defined bs = elim (Bool-cases (ltb 1_048_576 (length bs))) [
  | inl e ↦ rw e tt
  | inr e ↦ rw e tt
]

pub tuple_cv-Defined : (data' : List (JsString × ClarityValue)) → Defined Anything (tuple_cv data')
unfolding tuple_cv
tuple_cv-Defined data' = elim (Bool-cases (all_clarity_names data')) [
  | inl e ↦ rw e tt
  | inr e ↦ rw e tt
]

create_lp_string-Defined :
    (env : Platform) (s : JsString) (prefix max_length : Option ℕ)
    → Defined Anything (create_lp_string env s prefix max_length)
unfolding create_lp_string
create_lp_string-Defined env s prefix max_length =
    elim (Bool-cases (exceeds_max_length_bytes env s (or_default max_length 128))) [
      | inl e ↦ rw e tt
      | inr e ↦ rw e tt
    ]

-- The value of a length prefix is a number of bytes, or NaN.
hex_to_int-IsCount : (bs : Bytes) → All IsByte bs → IsCount (hex_to_int (bytes_to_hex bs))
hex_to_int-IsCount [] h = unfold bytes_to_hex hex_to_int parse_int16 parse_signed trim_start in tt
hex_to_int-IsCount (b ∷ bs) h = rw (hex_to_int-bytes_to_hex (b ∷ bs) (omega arith) h) tt

pub deserialize_lp_string-AlwaysEnds :
    (env : Platform) (n : ℕ) → AlwaysEnds Anything n (deserialize_lp_string env none none)
unfolding deserialize_lp_string
deserialize_lp_string-AlwaysEnds env n =
    AlwaysEnds-bind (All IsByte) Anything n _ _ (read_bytes-AlwaysEnds n (int (pos 1)) tt) (λ bs h.
      AlwaysEnds-bind (All IsByte) Anything n _ _
        (read_bytes-AlwaysEnds n (hex_to_int (bytes_to_hex bs)) (hex_to_int-IsCount bs h))
        (λ cs k. AlwaysEnds-lift Anything n _ (create_lp_string-Defined env _ _ _)))

pub deserialize_address-AlwaysEnds : (n : ℕ) → AlwaysEnds Anything n deserialize_address
unfolding deserialize_address
deserialize_address-AlwaysEnds n =
    AlwaysEnds-bind (All IsByte) Anything n _ _ (read_bytes-AlwaysEnds n (int (pos 1)) tt) (λ bs h.
      AlwaysEnds-bind (All IsByte) Anything n _ _ (read_bytes-AlwaysEnds n (int (pos 20)) tt)
        (λ cs k. AlwaysEnds-pure Anything n _ tt))
