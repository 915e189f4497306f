-- ===== src/Clarity/Names.antt =====
-- packages/transactions/src/utils.ts: `isClarityName` and `parseContractId`.
use funai_sdk.Prelude.{
  ℕ, ◌<◌, ◌≡◌, refl, Bool, true, false, ◌&&◌, ◌||◌, [], ◌∷◌, ◌++◌, ltb, leb, ◌==◌, if◌then◌else◌,
  length, arith,
}
use funai_sdk.Js.Text.{JsString, before, after, includes, before_front, after_front, before_all}
use funai_sdk.Js.Result.{Result, ok, err, invalid_contract_id}

abbrev pub is_letter : ℕ → Bool
is_letter c = (leb b'a' c && leb c b'z') || (leb b'A' c && leb c b'Z')

-- `[-_!?+<>=/*]`
abbrev pub is_name_symbol : ℕ → Bool
is_name_symbol c =
    c == b'-'
    || c == b'_'
    || c == b'!'
    || c == b'?'
    || c == b'+'
    || c == b'<'
    || c == b'>'
    || c == b'='
    || c == b'/'
    || c == b'*'

unfoldable pub is_name_char : ℕ → Bool
is_name_char c = is_letter c || (leb b'0' c && leb c b'9') || is_name_symbol c

unfoldable pub all_name_chars : JsString → Bool
all_name_chars [] = true
all_name_chars (c ∷ cs) = is_name_char c && all_name_chars cs

-- `[-+=/*]`
unfoldable pub is_operator : ℕ → Bool
is_operator c = c == b'-' || c == b'+' || c == b'=' || c == b'/' || c == b'*'

-- `[<>]`
unfoldable pub is_order : ℕ → Bool
is_order c = c == b'<' || c == b'>'

-- What is neither a letter and name characters, nor a single operator, nor `<`, `>`, `<=` or `>=`.
unfoldable pub is_symbol_name : ℕ → JsString → Bool
is_symbol_name c [] = is_operator c || is_order c
is_symbol_name c (d ∷ []) = is_order c && d == b'='
is_symbol_name c (d ∷ e ∷ es) = false

unfoldable pub matches_name : JsString → Bool
matches_name [] = false
matches_name (c ∷ cs) = (is_letter c && all_name_chars cs) || is_symbol_name c cs

unfoldable pub is_clarity_name : JsString → Bool
is_clarity_name name = matches_name name && ltb (length name) 128

unfoldable pub is_empty : JsString → Bool
is_empty [] = true
is_empty (c ∷ cs) = false

-- `contractId.split('.')`: what follows a second dot is dropped.
unfoldable pub parse_contract_id : JsString → Result (JsString × JsString)
unfolding is_empty
parse_contract_id contract_id =
    let address = before b'.' contract_id in
    let name = before b'.' (after b'.' contract_id) in
    if is_empty address || is_empty name then err invalid_contract_id else ok (address, name)

pub is_empty-false : (s : JsString) → 0 < length s → is_empty s ≡ false
unfolding is_empty
is_empty-false [] h = absurd (omega arith)
is_empty-false (c ∷ cs) h = refl

-- `parseContractId` of an address and a name joined by a dot gives the two back, where neither is
-- empty or holds a dot.
pub parse_contract_id-parts :
    (address name : JsString)
    → includes b'.' address ≡ false
    → includes b'.' name ≡ false
    → 0 < length address
    → 0 < length name
    → parse_contract_id (address ++ (b'.' ∷ name)) ≡ ok (address, name)
unfolding parse_contract_id
parse_contract_id-parts address name ha hn la ln =
    rw (before_front b'.' address name ha, after_front b'.' address name ha)
      (rw (before_all b'.' name hn) (unfold is_empty in ground (arith, is_empty-false address la)))
