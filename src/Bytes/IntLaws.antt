-- ===== src/Bytes/IntLaws.antt =====
-- Integers as big-endian bytes: what `intToBytes` and ``BigInt(`0x…`)`` compute.
use native.Mathlib.Nat.{pow-suc}
use funai_sdk.Prelude.{
  ℕ, zero, suc, ◌+◌, ◌-◌, ◌*◌, ◌/◌, ◌%◌, ◌^◌, ◌≤◌, ◌<◌, ◌≡◌, refl, ap, sym, ◌∙◌, lt→ltb, le→ltb, [],
  ◌∷◌, ◌++◌, length, length-append, All, All-append, arith, some, append_assoc, replicate,
  replicate_snoc, inl, inr, ltb, Bool-cases,
}
use funai_sdk.Prelude.Int.{pos}
use funai_sdk.Js.Text.{JsString, pad_start}
use funai_sdk.Js.Number.{to_digit, digit_value, hex_digits, to_string16, big_digits, big_int16}
use funai_sdk.Js.Result.{ok, ◌>>=◌}
use funai_sdk.Bytes.Hex.{Bytes, IsByte, bytes_to_hex, hex_to_bytes}
use funai_sdk.Bytes.Ints.{int_to_hex, big_int_to_bytes, int_to_bytes, bytes_to_big_int}
use funai_sdk.Bytes.HexLaws.{hexes_lem, bytes_to_hex-append, hex_to_bytes-bytes_to_hex}

-- The value of bytes in big-endian order, behind `acc`.
unfoldable pub be_value : ℕ → Bytes → ℕ
be_value acc [] = acc
be_value acc (b ∷ bs) = be_value (acc * 256 + b) bs

-- The lowest `k` bytes of `n`, in big-endian order.
unfoldable pub be_bytes : ℕ → ℕ → Bytes
be_bytes zero n = []
be_bytes (suc k) n = be_bytes k (n / 256) ++ (n % 256 ∷ [])

pub be_bytes-IsByte : (k n : ℕ) → All IsByte (be_bytes k n)
unfolding be_bytes
be_bytes-IsByte zero n = tt
be_bytes-IsByte (suc k) n =
    All-append IsByte (be_bytes k (n / 256)) _ (be_bytes-IsByte k (n / 256)) (omega arith, tt)

pub length-be_bytes : (k n : ℕ) → length (be_bytes k n) ≡ k
unfolding be_bytes
length-be_bytes zero n = refl
length-be_bytes (suc k) n = rw length-append (omega (arith, length-be_bytes k (n / 256)))

be_value-append :
    (acc : ℕ) (as' bs : Bytes) → be_value acc (as' ++ bs) ≡ be_value (be_value acc as') bs
unfolding be_value
be_value-append acc [] bs = refl
be_value-append acc (a ∷ as') bs = be_value-append (acc * 256 + a) as' bs

pub pow_suc_256 : (k : ℕ) → 256 ^ suc k ≡ 256 ^ k * 256
pow_suc_256 k = pow-suc 256 k

pub pow_suc_16 : (k : ℕ) → 16 ^ suc k ≡ 16 ^ k * 16
pow_suc_16 k = pow-suc 16 k

pub be_value-be_bytes : (k n : ℕ) → n < 256 ^ k → be_value 0 (be_bytes k n) ≡ n
unfolding be_bytes be_value
be_value-be_bytes zero n h = omega arith
be_value-be_bytes (suc k) n h =
    be_value-append 0 (be_bytes k (n / 256)) (n % 256 ∷ [])
    ∙ rw (be_value-be_bytes k (n / 256) (omega (arith, pow_suc_256 k))) (omega arith)

-- The lowest `k` digits of `n` in base 16.
fixed_digits : ℕ → ℕ → JsString
fixed_digits zero n = []
fixed_digits (suc k) n = fixed_digits k (n / 16) ++ (to_digit (n % 16) ∷ [])

fixed_digits-zero : (k : ℕ) → fixed_digits k 0 ≡ replicate k b'0'
unfolding fixed_digits to_digit
fixed_digits-zero zero = refl
fixed_digits-zero (suc k) = rw (replicate_snoc, ← fixed_digits-zero k)

pad_start-snoc :
    (s : JsString) (k c d : ℕ) → pad_start (s ++ (d ∷ [])) (suc k) c ≡ pad_start s k c ++ (d ∷ [])
unfolding pad_start
pad_start-snoc s k c d =
    let e : suc k - length (s ++ (d ∷ [])) ≡ k - length s = rw length-append (omega arith) in
    rw e (sym (append_assoc (replicate (k - length s) c) s (d ∷ [])))

hex_digits-small : (f n : ℕ) → n < 16 → hex_digits f n ≡ to_digit n ∷ []
unfolding hex_digits
hex_digits-small zero n h = ap (λ t. to_digit t ∷ []) (omega arith)
hex_digits-small (suc f) n h = rw (lt→ltb n 16 h)

hex_digits-large :
    (f n : ℕ) → 16 ≤ n → hex_digits (suc f) n ≡ hex_digits f (n / 16) ++ (to_digit (n % 16) ∷ [])
unfolding hex_digits
hex_digits-large f n h = rw (le→ltb n 16 h)

pad_start-one : (k c : ℕ) → pad_start (c ∷ []) (suc k) b'0' ≡ replicate k b'0' ++ (c ∷ [])
unfolding pad_start
pad_start-one k c = ap (λ t. replicate t b'0' ++ (c ∷ [])) (omega arith)

fixed_digits-small :
    (k n : ℕ) → n < 16 → fixed_digits (suc k) n ≡ replicate k b'0' ++ (to_digit n ∷ [])
unfolding fixed_digits
fixed_digits-small k n h =
    let q : n / 16 ≡ 0 = omega arith in
    let r : n % 16 ≡ n = omega arith in rw (q, r) (rw fixed_digits-zero refl)

pad_start-small :
    (k f n : ℕ) → n < 16 → pad_start (hex_digits f n) (suc k) b'0' ≡ fixed_digits (suc k) n
pad_start-small k f n h =
    rw (hex_digits-small f n h, fixed_digits-small k n h) (pad_start-one k (to_digit n))

fixed_digits-suc :
    (k n : ℕ) → fixed_digits (suc k) n ≡ fixed_digits k (n / 16) ++ (to_digit (n % 16) ∷ [])
unfolding fixed_digits
fixed_digits-suc k n = refl

-- Padding brings a number that fits `k` digits to exactly its `k` lowest digits.
pad_start-hex_digits :
    (k f n : ℕ)
    → n ≤ f
    → n < 16 ^ suc k
    → pad_start (hex_digits f n) (suc k) b'0' ≡ fixed_digits (suc k) n
pad_start-hex_digits zero f n hf h = pad_start-small zero f n (omega arith)
pad_start-hex_digits (suc k) zero n hf h = pad_start-small (suc k) zero n (omega arith)
pad_start-hex_digits (suc k) (suc f) n hf h = elim (Bool-cases (ltb n 16)) [
  | inl small ↦ pad_start-small (suc k) (suc f) n (ground arith)
  | inr large ↦
      let fits : n / 16 < 16 ^ suc k = omega (arith, pow_suc_16 (suc k)) in
      rw (hex_digits-large f n (ground arith)) (
        pad_start-snoc (hex_digits f (n / 16)) (suc k) b'0' (to_digit (n % 16))
        ∙ rw (pad_start-hex_digits k f (n / 16) (ground arith) fits)
            (sym (fixed_digits-suc (suc k) n)))
]

fixed_digits-be_bytes : (k n : ℕ) → fixed_digits (k * 2) n ≡ bytes_to_hex (be_bytes k n)
unfolding fixed_digits be_bytes bytes_to_hex
fixed_digits-be_bytes zero n = refl
fixed_digits-be_bytes (suc k) n =
    let twice : suc k * 2 ≡ suc (suc (k * 2)) = omega arith in
    rw twice (
      rw
        (
          bytes_to_hex-append (be_bytes k (n / 256)) (n % 256 ∷ []),
          hexes_lem (n % 256) (omega arith),
          ← fixed_digits-be_bytes k (n / 256),
        )
        (let a : n / 16 / 16 ≡ n / 256 = omega arith in
          let b : n / 16 % 16 ≡ n % 256 / 16 = omega arith in
          let c : n % 256 % 16 ≡ n % 16 = omega arith in rw (a, b, c, append_assoc)))

pow_16_double : (k : ℕ) → 16 ^ (k * 2) ≡ 256 ^ k
pow_16_double zero = refl
pow_16_double (suc k) =
    let twice : suc k * 2 ≡ suc (suc (k * 2)) = omega arith in
    rw (twice, pow_suc_16, pow_suc_16, pow_16_double k, pow_suc_256) (omega arith)

-- A number that fits `k` bytes is written as exactly `k` bytes, highest first.
pub hex_to_bytes-int_to_hex :
    (k n : ℕ) → 1 ≤ k → n < 256 ^ k → hex_to_bytes (int_to_hex (pos n) k) ≡ ok (be_bytes k n)
unfolding int_to_hex to_string16
hex_to_bytes-int_to_hex zero n hk h = absurd (omega arith)
hex_to_bytes-int_to_hex (suc k) n hk h =
    let twice : suc k * 2 ≡ suc (suc (k * 2)) = omega arith in
    let fits : n < 16 ^ (suc k * 2) = rw (pow_16_double (suc k)) h in
    let padded : pad_start (hex_digits n n) (suc (suc (k * 2))) b'0'
        ≡ fixed_digits (suc (suc (k * 2))) n =
      pad_start-hex_digits (suc (k * 2)) n n (omega arith) (rw twice at fits) in
    let text : fixed_digits (suc (suc (k * 2))) n ≡ bytes_to_hex (be_bytes (suc k) n) =
      rw twice at (fixed_digits-be_bytes (suc k) n) in
    rw twice (
      rw (padded, text)
        (hex_to_bytes-bytes_to_hex (be_bytes (suc k) n) (be_bytes-IsByte (suc k) n)))

pub int_to_bytes-be_bytes :
    (k n : ℕ) → 1 ≤ k → n < 256 ^ k → int_to_bytes (pos n) k ≡ ok (be_bytes k n)
unfolding int_to_bytes big_int_to_bytes
int_to_bytes-be_bytes k n hk h = hex_to_bytes-int_to_hex k n hk h

pub digit_value-to_digit : (d : ℕ) → d < 16 → digit_value (to_digit d) ≡ some d
unfolding digit_value to_digit
digit_value-to_digit d h = ground arith

big_digits_step :
    (acc c d : ℕ) (cs : JsString)
    → digit_value c ≡ some d
    → big_digits acc (c ∷ cs) ≡ big_digits (acc * 16 + d) cs
unfolding big_digits
big_digits_step acc c d cs e = rw (e, big_digits)

big_digits-bytes_to_hex :
    (acc : ℕ) (bs : Bytes) → All IsByte bs → big_digits acc (bytes_to_hex bs) ≡ ok (be_value acc bs)
unfolding bytes_to_hex be_value
big_digits-bytes_to_hex acc [] h = unfold big_digits in refl
big_digits-bytes_to_hex acc (u ∷ us) (hu, h) =
    let high = digit_value-to_digit (u / 16) (omega arith) in
    let low = digit_value-to_digit (u % 16) (omega arith) in
    let join : (acc * 16 + u / 16) * 16 + u % 16 ≡ acc * 256 + u = omega arith in
    rw (hexes_lem u hu) (
      big_digits_step acc _ _ _ high
      ∙ big_digits_step _ _ _ _ low
      ∙ rw join (big_digits-bytes_to_hex (acc * 256 + u) us h))

big_int16-digits : (c : ℕ) (cs : JsString) → big_int16 (c ∷ cs) ≡ big_digits 0 (c ∷ cs)
unfolding big_int16
big_int16-digits c cs = refl

-- ``BigInt(`0x${bytesToHex(bs)}`)`` is the value of the bytes, where there is one at least.
pub bytes_to_big_int-be_value :
    (bs : Bytes) → 0 < length bs → All IsByte bs → bytes_to_big_int bs ≡ ok (be_value 0 bs)
unfolding bytes_to_big_int bytes_to_hex
bytes_to_big_int-be_value [] n h = absurd (omega arith)
bytes_to_big_int-be_value (b ∷ bs) n h =
    let read = big_digits-bytes_to_hex 0 (b ∷ bs) h in
    rw (hexes_lem b h.0) (big_int16-digits _ _ ∙ rw (hexes_lem b h.0) at read)

-- For a natural number below 256 ^ k, with k at least 1, `intToBytes` on k bytes succeeds, and
-- `intToBigInt` of the array is the number.
pub int_to_bytes-inverse :
    (k n : ℕ) → 1 ≤ k → n < 256 ^ k → (int_to_bytes (pos n) k >>= bytes_to_big_int) ≡ ok n
int_to_bytes-inverse k n hk h = rw (int_to_bytes-be_bytes k n hk h) (
    bytes_to_big_int-be_value (be_bytes k n) (rw length-be_bytes hk) (be_bytes-IsByte k n)
    ∙ ap ok (be_value-be_bytes k n h))
