-- ===== src/Js/Inversion.antt =====
-- What is known where a call has returned: each of its parts has.
use funai_sdk.Prelude.{◌≡◌, refl, Bool, true, false}
use funai_sdk.Js.Result.{Result, out_of_fuel, err, ok, guard, Error, ◌>>=◌, ◌>>◌}

-- The first part gave `value`, with which the second gave the result.
pub record Returned {ℓ κ} {A : Type ℓ} {B : Type κ} (first : Result A) (next : A → Result B) (b : B)
    : Type (ℓ ⊔ κ) where
  pub value : A
  pub before : first ≡ ok value
  pub after : next value ≡ ok b

pub bind-Returned {ℓ κ} :
    {A : Type ℓ} {B : Type κ} (first : Result A) (next : A → Result B) (b : B)
    → (first >>= next) ≡ ok b
    → Returned first next b
bind-Returned out_of_fuel next b h = cc
bind-Returned (err e) next b h = cc
bind-Returned (ok a) next b h = record { value = a; before = refl; after = h }

pub guard-true : (test : Bool) (e : Error) → guard test e ≡ ok tt → test ≡ true
guard-true true e h = refl
guard-true false e h = cc

-- A guard in front of a call that has returned did not throw.
pub check-Returned {ℓ} :
    {B : Type ℓ} (test : Bool) (e : Error) (next : Result B) (b : B)
    → (guard test e >> next) ≡ ok b
    → (test ≡ true) × (next ≡ ok b)
check-Returned true e next b h = (refl, h)
check-Returned false e next b h = cc

pub ok_eq {ℓ} : {A : Type ℓ} {a b : A} → ok a ≡ ok b → a ≡ b
ok_eq h = cc

-- The other way round: two calls that return, one behind the other.
pub bind_ok {ℓ κ} :
    {A : Type ℓ} {B : Type κ} {first : Result A} {a : A} {b : B} (next : A → Result B)
    → first ≡ ok a
    → next a ≡ ok b
    → (first >>= next) ≡ ok b
bind_ok next h k = rw h k
