-- ===== src/Reader/Reads.antt =====
-- A deserializer that reads one value off given bytes, wherever they stand in the source, and the
-- rules by which such readings are composed.
use funai_sdk.Prelude.{
  ℕ, ◌+◌, ◌-◌, ◌<◌, ◌≤◌, min, ◌≡◌, ap, ◌∙◌, subst, [], ◌∷◌, ◌++◌, append_assoc, append-nil, length,
  length-append, take_front, drop_front, some, Option, arith, ◌^◌,
}
use funai_sdk.Prelude.Int.{pos}
use funai_sdk.Js.Number.{int, add_number}
use funai_sdk.Js.Result.{Result, ok, Error}
use funai_sdk.Bytes.Hex.{Bytes}
use funai_sdk.Bytes.Buffer.{write_uint32_be, write_uint16_be, read_uint8}
use funai_sdk.Bytes.IntLaws.{
  be_bytes, be_bytes-IsByte, length-be_bytes, be_value-be_bytes, bytes_to_big_int-be_value,
}
use funai_sdk.Bytes.Words.{
  length-write_uint32_be, read_uint32_be-write_uint32_be, length-write_uint16_be,
  read_uint16_be-write_uint16_be,
}
use funai_sdk.Reader.{
  BytesReader, Reader, pure, lift, ◌>>=◌, read_bytes, subarray, read_uint32, read_uint16,
  read_big_uint_be, read_uint8_enum, read_number8, to_enum, some_or_throw,
}

-- The cursor between `front`, which is consumed, and `rest`.
abbrev pub between : Bytes → Bytes → BytesReader
between front rest = record { source = front ++ rest; consumed = int (pos (length front)) }

pub record Reads {ℓ} {A : Type ℓ} (p : Reader A) (bs : Bytes) (a : A) : Type ℓ where
  pub apply :
      (front rest : Bytes) → p (between front (bs ++ rest)) ≡ ok (a, between (front ++ bs) rest)

between-append :
    (front bs rest : Bytes)
    → between (front ++ bs) rest
      ≡ record { source = front ++ (bs ++ rest); consumed = int (pos (length front + length bs)) }
between-append front bs rest = rw (append_assoc, length-append)

subarray-front :
    (front bs rest : Bytes)
    → subarray
        (front ++ (bs ++ rest))
        (int (pos (length front)))
        (int (pos (length front + length bs)))
      ≡ bs
unfolding subarray
subarray-front front bs rest =
    let total : length (front ++ (bs ++ rest)) ≡ length front + (length bs + length rest) =
      rw (length-append, length-append) in
    let from : min (length front) (length (front ++ (bs ++ rest))) ≡ length front =
      rw total (omega arith) in
    let size : min (length front + length bs) (length (front ++ (bs ++ rest))) - length front
        ≡ length bs =
      rw total (omega arith) in
    rw (from, size, drop_front) (take_front bs rest)

pub read_bytes-Reads : (bs : Bytes) → Reads (read_bytes (int (pos (length bs)))) bs bs
unfolding read_bytes add_number
read_bytes-Reads bs = record {
  apply = λ front rest. rw (subarray-front front bs rest, between-append front bs rest);
}

module _ {ℓ} {A : Type ℓ} where
  pub Reads-pure : (a : A) → Reads (pure a) [] a
  unfolding pure
  Reads-pure a = record { apply = λ front rest. rw append-nil }

  pub Reads-lift : {m : Result A} {a : A} → m ≡ ok a → Reads (lift m) [] a
  unfolding lift
  Reads-lift e = record { apply = λ front rest. rw (e, append-nil) }

  pub Reads-eq : {p : Reader A} {bs cs : Bytes} {a : A} → bs ≡ cs → Reads p bs a → Reads p cs a
  Reads-eq {p} {a = a} e h = subst (λ t. Reads p t a) e h

module _ {ℓ κ} {A : Type ℓ} {B : Type κ} {p : Reader A} (f : A → Reader B) where
  pub Reads-bind :
      {bs cs : Bytes} {a : A} {b : B}
      → Reads p bs a
      → Reads (f a) cs b
      → Reads (p >>= f) (bs ++ cs) b
  unfolding ◌>>=◌
  Reads-bind {bs} {cs} hp hf = record {
    apply = λ front rest.
        rw (append_assoc bs cs rest, hp.apply front (cs ++ rest), ← append_assoc front bs cs)
          (hf.apply (front ++ bs) rest);
  }

  -- A step that reads nothing.
  pub Reads-then :
      {cs : Bytes} {a : A} {b : B} → Reads p [] a → Reads (f a) cs b → Reads (p >>= f) cs b
  Reads-then hp hf = Reads-bind hp hf

  -- The last step reads nothing.
  pub Reads-last :
      {bs : Bytes} {a : A} {b : B} → Reads p bs a → Reads (f a) [] b → Reads (p >>= f) bs b
  Reads-last {bs} hp hf = Reads-eq (append-nil bs) (Reads-bind hp hf)

pub read_uint32-Reads : (v : ℕ) → v < 2 ^ 32 → Reads read_uint32 (write_uint32_be v) (int (pos v))
unfolding read_uint32
read_uint32-Reads v h = rw (← read_uint32_be-write_uint32_be v h) (
    Reads-last _ (rw length-write_uint32_be at (read_bytes-Reads (write_uint32_be v)))
      (Reads-pure _))

pub read_uint16-Reads : (v : ℕ) → v < 2 ^ 16 → Reads read_uint16 (write_uint16_be v) (int (pos v))
unfolding read_uint16
read_uint16-Reads v h = rw (← read_uint16_be-write_uint16_be v h) (
    Reads-last _ (rw length-write_uint16_be at (read_bytes-Reads (write_uint16_be v)))
      (Reads-pure _))

pub read_big_uint_be-Reads :
    (k n : ℕ) → 1 ≤ k → n < 256 ^ k → Reads (read_big_uint_be (int (pos k))) (be_bytes k n) n
unfolding read_big_uint_be
read_big_uint_be-Reads k n hk h =
    Reads-last _ (rw length-be_bytes at (read_bytes-Reads (be_bytes k n))) (
      Reads-lift (
        bytes_to_big_int-be_value (be_bytes k n) (rw length-be_bytes hk) (be_bytes-IsByte k n)
        ∙ ap ok (be_value-be_bytes k n h)))

pub read_number8-Reads : (n : ℕ) → Reads read_number8 (n ∷ []) (int (pos n))
unfolding read_number8
read_number8-Reads n = Reads-last _ (read_bytes-Reads (n ∷ [])) (unfold read_uint8 in Reads-pure _)

pub read_uint8_enum-Reads {ℓ} :
    {A : Type ℓ} (member : ℕ → Option A) (e : Error) (n : ℕ) (a : A)
    → member n ≡ some a
    → Reads (read_uint8_enum member e) (n ∷ []) a
unfolding read_uint8_enum
read_uint8_enum-Reads member e n a h =
    Reads-last _ (read_number8-Reads n) (Reads-lift (unfold to_enum some_or_throw in rw h))
