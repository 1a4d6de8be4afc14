-- ===== src/Prelude/Results.antt =====
-- A Go function's `(T, error)` results: a value, or the error that came back in its place.

use mathlib.Core.Path.{◌≡◌, refl}
use mathlib.Core.Logic.{◌⊎◌, inl, inr}

pub data Outcome {ℓ κ} (E : Type ℓ) (A : Type κ) : Type (ℓ ⊔ κ) where
  ok : A → Outcome E A
  err : E → Outcome E A

infixl 5 ◌>>=◌
abbrev pub ◌>>=◌ {ℓ κ λ'} :
    {E : Type ℓ} {A : Type κ} {B : Type λ'} → Outcome E A → (A → Outcome E B) → Outcome E B
ok a >>= f = f a
err e >>= f = err e

-- The value that a refused call leaves in place.
abbrev pub or_else {ℓ κ} : {E : Type ℓ} {A : Type κ} → A → Outcome E A → A
or_else a (ok b) = b
or_else a (err e) = a

-- `P` holds of the value, if the call returned one.
abbrev pub Ensures {ℓ κ ι} : {E : Type ℓ} {A : Type κ} → (A → Type ι) → Outcome E A → Type ι
Ensures P (ok a) = P a
Ensures P (err e) = Unit

pub or_else-Ensures {ℓ κ ι} :
    {E : Type ℓ} {A : Type κ} (P : A → Type ι) (a : A) (r : Outcome E A)
    → P a
    → Ensures P r
    → P (or_else a r)
or_else-Ensures P a (ok b) h k = k
or_else-Ensures P a (err e) h k = h

-- To split on a computed result and keep the equation.
pub Outcome-cases {ℓ κ} :
    {E : Type ℓ} {A : Type κ} (r : Outcome E A) → ((a : A) × (r ≡ ok a)) ⊎ ((e : E) × (r ≡ err e))
Outcome-cases (ok a) = inl (a, refl)
Outcome-cases (err e) = inr (e, refl)
