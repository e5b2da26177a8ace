-- ===== src/Structures/Outcome.antt =====
-- A call that may throw.
use module_gateway.Common.{◌≡◌, refl, ◌⊎◌, inl, inr}

pub data Exception : Type 0 where
  out_of_range buffer_not_allocated buffer_too_small invalid_argument runtime_error : Exception

pub data Outcome {ℓ} (A : Type ℓ) : Type ℓ where
  returned : A → Outcome A
  thrown : Exception → Outcome A

infixl 5 ◌>>=◌
abbrev pub ◌>>=◌ {ℓ κ} : {A : Type ℓ} {B : Type κ} → Outcome A → (A → Outcome B) → Outcome B
returned a >>= f = f a
thrown x >>= f = thrown x

pub Outcome-cases {ℓ} :
    {A : Type ℓ} (o : Outcome A) → ((x : Exception) × (o ≡ thrown x)) ⊎ ((a : A) × (o ≡ returned a))
Outcome-cases (returned a) = inr (a, refl)
Outcome-cases (thrown x) = inl (x, refl)
