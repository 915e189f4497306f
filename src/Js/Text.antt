-- ===== src/Js/Text.antt =====
-- Strings as lists of UTF-16 code units.
use Prim.Native.Char.{code}
use Prim.Native.String.{String}
use funai_sdk.Prelude.{
  ℕ, ◌-◌, ◌≡◌, Bool, true, false, ◌&&◌, ◌||◌, List, [], ◌∷◌, ◌++◌, arith, ◌==◌, if◌then◌else◌,
  length, replicate, refl,
}

abbrev pub JsString : Type 0
JsString = List ℕ

-- A literal of the source; all of them are ASCII.
abbrev pub js : String → JsString
js String.[] = []
js (String.◌∷◌ c s) = code c ∷ js s

-- `a === b`
unfoldable pub str_eq : JsString → JsString → Bool
str_eq [] [] = true
str_eq [] (b ∷ bs) = false
str_eq (a ∷ as') [] = false
str_eq (a ∷ as') (b ∷ bs) = a == b && str_eq as' bs

pub str_eq_refl : (a : JsString) → str_eq a a ≡ true
unfolding str_eq
str_eq_refl [] = refl
str_eq_refl (a ∷ as') = ground (arith, str_eq_refl as')

pub str_eq→eq : (a b : JsString) → str_eq a b ≡ true → a ≡ b
unfolding str_eq
str_eq→eq [] [] h = refl
str_eq→eq [] (b ∷ bs) h = cc
str_eq→eq (a ∷ as') [] h = cc
str_eq→eq (a ∷ as') (b ∷ bs) h = ground (arith, str_eq→eq as' bs)

-- `s.padStart(n, c)` and `s.padEnd(n, c)`, where `c` is one code unit.
unfoldable pub pad_start : JsString → ℕ → ℕ → JsString
pad_start s n c = replicate (n - length s) c ++ s

unfoldable pub pad_end : JsString → ℕ → ℕ → JsString
pad_end s n c = s ++ replicate (n - length s) c

-- `s.split(c)[0]`, and the part that follows the first `c`.
unfoldable pub before : ℕ → JsString → JsString
before c [] = []
before c (x ∷ xs) = if x == c then [] else x ∷ before c xs

unfoldable pub after : ℕ → JsString → JsString
after c [] = []
after c (x ∷ xs) = if x == c then xs else after c xs

-- Does the text hold `c`?
unfoldable pub includes : ℕ → JsString → Bool
includes c [] = false
includes c (x ∷ xs) = x == c || includes c xs

pub before_front : (c : ℕ) (s t : JsString) → includes c s ≡ false → before c (s ++ (c ∷ t)) ≡ s
unfolding before includes
before_front c [] t h = ground arith
before_front c (x ∷ xs) t h = ground (arith, before_front c xs t)

pub after_front : (c : ℕ) (s t : JsString) → includes c s ≡ false → after c (s ++ (c ∷ t)) ≡ t
unfolding after includes
after_front c [] t h = ground arith
after_front c (x ∷ xs) t h = ground (arith, after_front c xs t)

pub before_all : (c : ℕ) (s : JsString) → includes c s ≡ false → before c s ≡ s
unfolding before includes
before_all c [] h = refl
before_all c (x ∷ xs) h = ground (arith, before_all c xs)
