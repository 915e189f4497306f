-- ===== src/Bytes/Twos.antt =====
-- `toTwos` and `fromTwos` at every width.
use funai_sdk.Prelude.{ℕ, zero, suc, ◌+◌, ◌-◌, ◌/◌, ◌^◌, ◌≤◌, ◌<◌, ◌≡◌, refl, false, arith}
use native.Mathlib.Nat.{pow-suc}
use funai_sdk.Prelude.Int.{ℤ, pos, negsuc, ◌+ℤ◌, ltb_ℤ, neg_of}
use funai_sdk.Js.Result.{ok}
use funai_sdk.Bytes.Ints.{to_twos, from_twos, nth_bit}

-- The integers that `width` bits hold: from -(2 ^ (width - 1)) to 2 ^ (width - 1) - 1.
abbrev pub Fits : ℕ → ℤ → Type 0
Fits width (pos n) = n < 2 ^ (width - 1)
Fits width (negsuc n) = n < 2 ^ (width - 1)

-- The value modulo 2 ^ width.
abbrev pub wrapped : ℕ → ℤ → ℕ
wrapped width (pos n) = n
wrapped width (negsuc n) = 2 ^ width - (n + 1)

pow_half : (k : ℕ) → 2 ^ suc k ≡ 2 ^ k + 2 ^ k
pow_half k = omega (arith, pow-suc 2 k)

pub ltb_neg_of : (n p : ℕ) → n < p → ltb_ℤ (negsuc n) (neg_of p) ≡ false
ltb_neg_of n zero h = elim h [ ]
ltb_neg_of n (suc p) h = ground arith

pub pos-not-below : (n p : ℕ) → ltb_ℤ (pos n) (neg_of p) ≡ false
pos-not-below n zero = ground arith
pos-not-below n (suc p) = refl

pub to_twos-ok : (k : ℕ) (v : ℤ) → Fits (suc k) v → to_twos v (suc k) ≡ ok (pos (wrapped (suc k) v))
unfolding to_twos
to_twos-ok k (pos n) h = rw (pos-not-below n (2 ^ (suc k - 1))) (ground arith)
to_twos-ok k (negsuc n) h =
    let e : suc k - 1 ≡ k = omega arith in
    let big : n < 2 ^ suc k = omega (arith, pow_half k, rw e at h) in
    rw (ltb_neg_of n (2 ^ (suc k - 1)) h) (ground arith)

pub wrapped_bound : (k : ℕ) (v : ℤ) → Fits (suc k) v → wrapped (suc k) v < 2 ^ suc k
wrapped_bound k (pos n) h =
    let e : suc k - 1 ≡ k = omega arith in omega (arith, pow_half k, rw e at h)
wrapped_bound k (negsuc n) h =
    let e : suc k - 1 ≡ k = omega arith in omega (arith, pow_half k, rw e at h)

div_zero : (v p : ℕ) → v < p → v / p ≡ 0
div_zero v p h = grind arith

div_one : (v p : ℕ) → p ≤ v → v < p + p → v / p ≡ 1
div_one v p h k = grind arith

wrap_back : (q n : ℕ) → n < q → pos (q - (n + 1)) +ℤ neg_of q ≡ negsuc n
wrap_back zero n h = elim h [ ]
wrap_back (suc q) n h = ground arith

pub from_twos-wrapped : (k : ℕ) (v : ℤ) → Fits (suc k) v → from_twos (wrapped (suc k) v) (suc k) ≡ v
unfolding from_twos nth_bit
from_twos-wrapped k (pos n) h =
    let e : suc k - 1 ≡ k = omega arith in rw (div_zero n (2 ^ (suc k - 1)) h)
from_twos-wrapped k (negsuc n) h =
    let e : suc k - 1 ≡ k = omega arith in
    let h' : n < 2 ^ k = rw e at h in
    rw e (
      rw
        (div_one (2 ^ suc k - (n + 1)) (2 ^ k) (omega (arith, pow_half k))
          (omega (arith, pow_half k)))
        (wrap_back (2 ^ suc k) n (omega (arith, pow_half k))))

-- Where an integer fits into `suc k` bits, `toTwos` gives a natural number below 2 ^ suc k, and
-- `fromTwos` of that number gives the integer back.
pub from_twos-to_twos :
    (k : ℕ) (v : ℤ)
    → Fits (suc k) v
    → (n : ℕ) × (to_twos v (suc k) ≡ ok (pos n)) × (n < 2 ^ suc k) × (from_twos n (suc k) ≡ v)
from_twos-to_twos k v h =
    (wrapped (suc k) v, to_twos-ok k v h, wrapped_bound k v h, from_twos-wrapped k v h)
