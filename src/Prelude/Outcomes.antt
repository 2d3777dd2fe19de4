-- ===== src/Prelude/Outcomes.antt =====
-- Code that raises: a value, or the error that was raised instead.
use mathlib.Core.Path.{◌≡◌, refl}

pub data Outcome {ℓ} (E : Type 0) (A : Type ℓ) : Type ℓ where
  err : E → Outcome E A
  ok : A → Outcome E A

infixl 5 ◌>>=◌
abbrev pub ◌>>=◌ {ℓ κ} :
    {E : Type 0} {A : Type ℓ} {B : Type κ} → Outcome E A → (A → Outcome E B) → Outcome E B
err raised >>= next = err raised
ok value >>= next = next value

-- A chain that returned has passed through its first step.
pub passed {ℓ κ} :
    {E : Type 0} {A : Type ℓ} {B : Type κ} (next : A → Outcome E B) (step : Outcome E A) {b : B}
    → (step >>= next) ≡ ok b
    → (value : A) × (next value ≡ ok b) × (step ≡ ok value)
passed next (err raised) run = cc
passed next (ok value) run = (value, run, refl)
