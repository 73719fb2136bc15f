-- ===== src/Outcome.antt =====
-- How a Go call ends: it returns, it panics, or `log.Fatalf` exits the process.
use nsg_parser.Prelude.{◌≡◌, refl}

pub data Outcome {ℓ} (A : Type ℓ) : Type ℓ where
  returned : A → Outcome A
  panicked : Outcome A
  exited : Outcome A

infixl 5 ◌>>=◌
abbrev pub ◌>>=◌ {ℓ κ} : {A : Type ℓ} {B : Type κ} → Outcome A → (A → Outcome B) → Outcome B
returned a >>= f = f a
panicked >>= f = panicked
exited >>= f = exited

-- A deferred `recover()`, in a function whose results have no names: they are left at their zero
-- values, given here.
abbrev pub recover_with {ℓ} : {A : Type ℓ} → A → Outcome A → Outcome A
recover_with default (returned a) = returned a
recover_with default panicked = returned default
recover_with default exited = exited

-- Inversion of a bind that returned.
pub >>=-eq-returned {ℓ κ} :
    {A : Type ℓ} {B : Type κ} (m : Outcome A) (f : A → Outcome B) {b : B}
    → (m >>= f) ≡ returned b
    → (a : A) × (m ≡ returned a) × (f a ≡ returned b)
>>=-eq-returned (returned a) f h = (a, refl, h)
>>=-eq-returned panicked f h = cc
>>=-eq-returned exited f h = cc

pub returned-injective {ℓ} : {A : Type ℓ} (a b : A) → returned a ≡ returned b → a ≡ b
returned-injective a b q = cc
