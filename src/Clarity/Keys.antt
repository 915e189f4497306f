-- ===== src/Clarity/Keys.antt =====
-- Clarity names: short ASCII texts, none of which is `__proto__`.
use funai_sdk.Prelude.{
  ℕ, ◌≤◌, ◌<◌, ◌≡◌, refl, true, false, ◌&&◌, [], ◌∷◌, length, All, arith, ltb, Bool-cases, inl, inr,
}
use funai_sdk.Js.Text.{JsString, js, str_eq, str_eq→eq}
use funai_sdk.Platform.{IsAscii}
use funai_sdk.Clarity.Names.{
  is_clarity_name, matches_name, all_name_chars, is_name_char, is_symbol_name, is_operator,
  is_order, is_letter, is_name_symbol,
}

-- Above ASCII no test of a name's characters passes.
symbol-above : (c : ℕ) → 128 ≤ c → is_name_symbol c ≡ false
symbol-above c h = ground arith

letter-above : (c : ℕ) → 128 ≤ c → is_letter c ≡ false
letter-above c h = ground arith

is_name_char-above : (c : ℕ) → 128 ≤ c → is_name_char c ≡ false
unfolding is_name_char
is_name_char-above c h = ground (arith, symbol-above c h, letter-above c h)

is_name_char-IsAscii : (c : ℕ) → is_name_char c ≡ true → IsAscii c
is_name_char-IsAscii c h = elim (Bool-cases (ltb c 128)) [
  | inl below ↦ ground arith
  | inr above ↦ cc (h, is_name_char-above c (ground arith))
]

is_symbol_name-IsAscii : (c : ℕ) (cs : JsString) → is_symbol_name c cs ≡ true → All IsAscii (c ∷ cs)
unfolding is_symbol_name is_operator is_order
is_symbol_name-IsAscii c [] h = (ground arith, tt)
is_symbol_name-IsAscii c (d ∷ []) h = (ground arith, (ground arith, tt))
is_symbol_name-IsAscii c (d ∷ e ∷ es) h = cc

all_name_chars-IsAscii : (s : JsString) → all_name_chars s ≡ true → All IsAscii s
unfolding all_name_chars
all_name_chars-IsAscii [] h = tt
all_name_chars-IsAscii (c ∷ s) h =
    (is_name_char-IsAscii c (ground arith), all_name_chars-IsAscii s (ground arith))

matches_name-IsAscii : (s : JsString) → matches_name s ≡ true → All IsAscii s
unfolding matches_name
matches_name-IsAscii [] h = tt
matches_name-IsAscii (c ∷ cs) h = elim (Bool-cases (is_letter c && all_name_chars cs)) [
  | inl plain ↦ (ground arith, all_name_chars-IsAscii cs (ground arith))
  | inr other ↦ is_symbol_name-IsAscii c cs (ground arith)
]

pub is_clarity_name-IsAscii : (s : JsString) → is_clarity_name s ≡ true → All IsAscii s
unfolding is_clarity_name
is_clarity_name-IsAscii s h = matches_name-IsAscii s (ground arith)

pub length-is_clarity_name : (s : JsString) → is_clarity_name s ≡ true → length s < 128
unfolding is_clarity_name
length-is_clarity_name s h = ground arith

-- The key that sets an object's prototype is no Clarity name.
pub is_clarity_name-proto : is_clarity_name (js "__proto__") ≡ false
unfolding is_clarity_name matches_name all_name_chars is_name_char is_symbol_name is_operator
    is_order
is_clarity_name-proto = refl

pub str_eq-proto : (s : JsString) → is_clarity_name s ≡ true → str_eq s (js "__proto__") ≡ false
str_eq-proto s h = elim (Bool-cases (str_eq s (js "__proto__"))) [
  | inl same ↦ cc (h, is_clarity_name-proto, str_eq→eq s (js "__proto__") same)
  | inr other ↦ other
]
