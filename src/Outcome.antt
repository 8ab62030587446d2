-- ===== src/Outcome.antt =====
-- How a step of a goroutine ends: it returns, it cannot go on before another goroutine moves, or it
-- panics.
use razpravljalnica.Base.{Option, none, refl, some, ◌≡◌}

pub data Outcome {ℓ} (A : Type ℓ) : Type ℓ where
  returns : A → Outcome A
  blocks : Outcome A
  panics : Outcome A

infixl 5 ◌>>=◌
abbrev pub ◌>>=◌ {ℓ κ} : {A : Type ℓ} {B : Type κ} → Outcome A → (A → Outcome B) → Outcome B
returns a >>= f = f a
blocks >>= f = blocks
panics >>= f = panics

-- A nil pointer that is followed, or a call that panics.
abbrev pub or_panic {ℓ} : {A : Type ℓ} → Option A → Outcome A
or_panic none = panics
or_panic (some a) = returns a

-- Inversion of a successful bind.
pub >>=-eq-returns {ℓ κ} :
    {A : Type ℓ} {B : Type κ} (m : Outcome A) (f : A → Outcome B) {b : B}
    → (m >>= f) ≡ returns b
    → (a : A) × (m ≡ returns a) × (f a ≡ returns b)
>>=-eq-returns (returns a) f h = (a, refl, h)
>>=-eq-returns blocks f h = cc
>>=-eq-returns panics f h = cc

pub or_panic-eq-returns {ℓ} :
    {A : Type ℓ} (o : Option A) {a : A} → or_panic o ≡ returns a → o ≡ some a
or_panic-eq-returns none h = cc
or_panic-eq-returns (some a) h = cc
