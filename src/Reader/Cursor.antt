-- ===== src/Reader/Cursor.antt =====
-- packages/transactions/src/BytesReader.ts: the cursor moves forward, and what is left of the source
-- bounds the nesting of a deserializer's calls.
use funai_sdk.Prelude.{
  ℕ, ◌+◌, ◌-◌, ◌<◌, ◌≤◌, Option, none, some, [], ◌∷◌, length, drop, All, All-take, All-drop,
  length-take-le, min, arith,
}
use funai_sdk.Prelude.Int.{pos, negsuc}
use funai_sdk.Js.Number.{Number, nan, int, add_number, relative_index}
use funai_sdk.Js.Result
use funai_sdk.Js.Result.{Result, out_of_fuel, err, ok, Error}
use funai_sdk.Bytes.Hex.{Bytes, IsByte}
use funai_sdk.Bytes.Buffer.{read_uint8, read_uint32_be}
use funai_sdk.Reader.{
  BytesReader, Reader, pure, lift, ◌>>=◌, subarray, read_bytes, read_number8, read_uint32, to_enum,
  some_or_throw, read_uint8_enum,
}

-- A number of bytes: from 0 on, or NaN.
abbrev pub IsCount : Number → Type 0
IsCount nan = Unit {0}
IsCount (int (pos n)) = Unit {0}
IsCount (int (negsuc n)) = ⊥

pub record IsForward (r : BytesReader) : Type 0 where
  pub are_bytes : All IsByte r.source
  pub counts : IsCount r.consumed

abbrev pub left : ℕ → Number → ℕ
left size nan = 0
left size (int (pos k)) = size - k
left size (int (negsuc k)) = 0

abbrev pub remaining : BytesReader → ℕ
remaining r = left (length r.source) r.consumed

module _ {ℓ} {A : Type ℓ} where
  -- A call returns or throws; where it returns, no more than `n` bytes are left.
  abbrev pub Ends : (A → Type 0) → ℕ → Result (A × BytesReader) → Type 0
  Ends Q n out_of_fuel = ⊥
  Ends Q n (err e) = Unit {0}
  Ends Q n (ok (a, r)) = Q a × (IsForward r × (remaining r ≤ n))

  abbrev pub AlwaysEnds : (A → Type 0) → ℕ → Reader A → Type 0
  AlwaysEnds Q n p = (r : BytesReader) → IsForward r → remaining r ≤ n → Ends Q n (p r)

  abbrev pub Defined : (A → Type 0) → Result A → Type 0
  Defined Q out_of_fuel = ⊥
  Defined Q (err e) = Unit {0}
  Defined Q (ok a) = Q a

  pub AlwaysEnds-pure : (Q : A → Type 0) (n : ℕ) (a : A) → Q a → AlwaysEnds Q n (pure a)
  unfolding pure
  AlwaysEnds-pure Q n a q r forward few = (q, (forward, few))

  pub AlwaysEnds-lift :
      (Q : A → Type 0) (n : ℕ) (m : Result A) → Defined Q m → AlwaysEnds Q n (lift m)
  unfolding lift
  AlwaysEnds-lift Q n out_of_fuel d r forward few = elim d [ ]
  AlwaysEnds-lift Q n (err e) d r forward few = tt
  AlwaysEnds-lift Q n (ok a) d r forward few = (d, (forward, few))

module _ {ℓ κ} {A : Type ℓ} {B : Type κ} where
  Ends-next :
      (Q : A → Type 0) (S : B → Type 0) (n : ℕ) (m : Result (A × BytesReader)) (f : A → Reader B)
      → Ends Q n m
      → ((a : A) → Q a → AlwaysEnds S n (f a))
      → Ends S n (Result.◌>>=◌ m (λ (a, r). f a r))
  Ends-next Q S n out_of_fuel f d h = elim d [ ]
  Ends-next Q S n (err e) f d h = tt
  Ends-next Q S n (ok (a, r)) f (q, (forward, few)) h = h a q r forward few

  pub AlwaysEnds-bind :
      (Q : A → Type 0) (S : B → Type 0) (n : ℕ) (p : Reader A) (f : A → Reader B)
      → AlwaysEnds Q n p
      → ((a : A) → Q a → AlwaysEnds S n (f a))
      → AlwaysEnds S n (p >>= f)
  unfolding ◌>>=◌
  AlwaysEnds-bind Q S n p f hp hf r forward few = Ends-next Q S n (p r) f (hp r forward few) hf

IsCount-sum : (a b : Number) → IsCount a → IsCount b → IsCount (add_number a b)
unfolding add_number
IsCount-sum nan b ha hb = tt
IsCount-sum (int (pos a)) nan ha hb = tt
IsCount-sum (int (pos a)) (int (pos b)) ha hb = tt
IsCount-sum (int (pos a)) (int (negsuc b)) ha hb = elim hb [ ]
IsCount-sum (int (negsuc a)) b ha hb = elim ha [ ]

left_less :
    (size : ℕ) (a b : Number) → IsCount a → IsCount b → left size (add_number a b) ≤ left size a
unfolding add_number
left_less size nan b ha hb = omega arith
left_less size (int (pos a)) nan ha hb = omega arith
left_less size (int (pos a)) (int (pos b)) ha hb = omega arith
left_less size (int (pos a)) (int (negsuc b)) ha hb = elim hb [ ]
left_less size (int (negsuc a)) b ha hb = elim ha [ ]

subarray-IsByte :
    (bs : Bytes) (begin end : Number) → All IsByte bs → All IsByte (subarray bs begin end)
unfolding subarray
subarray-IsByte bs begin end h = All-take IsByte _ _ (All-drop IsByte _ bs h)

pub read_bytes-AlwaysEnds :
    (n : ℕ) (count : Number) → IsCount count → AlwaysEnds (All IsByte) n (read_bytes count)
unfolding read_bytes
read_bytes-AlwaysEnds n count c r forward few = (
  subarray-IsByte r.source r.consumed _ forward.are_bytes,
  (
    record {
      are_bytes = forward.are_bytes;
      counts = IsCount-sum r.consumed count forward.counts c;
    },
    omega (arith, left_less (length r.source) r.consumed count forward.counts c, few),
  ),
)

read_uint32_be-IsCount : (bs : Bytes) → IsCount (read_uint32_be bs)
unfolding read_uint32_be
read_uint32_be-IsCount [] = tt
read_uint32_be-IsCount (a ∷ []) = tt
read_uint32_be-IsCount (a ∷ b ∷ []) = tt
read_uint32_be-IsCount (a ∷ b ∷ c ∷ []) = tt
read_uint32_be-IsCount (a ∷ b ∷ c ∷ d ∷ bs) = tt

pub read_uint32-AlwaysEnds : (n : ℕ) → AlwaysEnds IsCount n read_uint32
unfolding read_uint32
read_uint32-AlwaysEnds n =
    AlwaysEnds-bind (All IsByte) IsCount n _ _ (read_bytes-AlwaysEnds n (int (pos 4)) tt)
      (λ bs h. AlwaysEnds-pure IsCount n _ (read_uint32_be-IsCount bs))

-- A call throws, or takes a byte at least.
abbrev pub Takes {ℓ} : {A : Type ℓ} → BytesReader → Result (A × BytesReader) → Type 0
Takes r out_of_fuel = ⊥
Takes r (err e) = Unit {0}
Takes r (ok (a, r')) = IsForward r' × (remaining r' < remaining r)

-- The bytes that `readUInt8` finds, where there is one.
one_byte-remaining :
    (bs : Bytes) (count : Number)
    → IsCount count
    → 0 < length (subarray bs count (add_number count (int (pos 1))))
    → left (length bs) (add_number count (int (pos 1))) < left (length bs) count
unfolding subarray relative_index add_number
one_byte-remaining bs nan c h = absurd (omega (arith, h))
one_byte-remaining bs (int (pos k)) c h =
    let size : ℕ = length bs in
    let fits = length-take-le (min (k + 1) size - min k size) (drop (min k size) bs) in
    omega (arith, fits, h)
one_byte-remaining bs (int (negsuc k)) c h = elim c [ ]

module _ {ℓ} {A : Type ℓ} (member : ℕ → Option A) (e : Error) where
  some_or_throw-Takes :
      (r after : BytesReader) (found : Option A)
      → IsForward after
      → remaining after < remaining r
      → Takes r (lift (some_or_throw e found) after)
  unfolding some_or_throw lift
  some_or_throw-Takes r after none forward less = tt
  some_or_throw-Takes r after (some a) forward less = (forward, less)

  enum-Takes :
      (r after : BytesReader) (found : Bytes)
      → IsForward after
      → (0 < length found → remaining after < remaining r)
      → Takes r (lift (some_or_throw e (to_enum member (read_uint8 found))) after)
  unfolding read_uint8 to_enum some_or_throw lift
  enum-Takes r after [] forward less = tt
  enum-Takes r after (b ∷ bs) forward less =
      some_or_throw-Takes r after (member b) forward (less (omega arith))

  pub read_uint8_enum-Takes : (r : BytesReader) → IsForward r → Takes r (read_uint8_enum member e r)
  unfolding read_uint8_enum read_number8 read_bytes ◌>>=◌ pure
  read_uint8_enum-Takes r forward =
      let read = read_bytes-AlwaysEnds (remaining r) (int (pos 1)) tt r forward (omega arith) in
      enum-Takes r (record r { consumed = add_number r.consumed (int (pos 1)) }) _ (read.1.0)
        (one_byte-remaining r.source r.consumed forward.counts)
