-- ===== src/Base/Outcomes.antt =====
-- What a call that may throw comes back with.
use mathlib.Core.Path.{◌≡◌, refl}
use mathlib.Core.Logic.{◌⊎◌, inl, inr}

pub data Outcome (E A : Type 0) : Type 0 where
  ok : A → Outcome E A
  thrown : E → Outcome E A

infixl 5 ◌>>=◌
abbrev pub ◌>>=◌ : {E A B : Type 0} → Outcome E A → (A → Outcome E B) → Outcome E B
ok a >>= f = f a
thrown e >>= f = thrown e

pub Outcome-cases :
    {E A : Type 0} (m : Outcome E A) → ((a : A) × (m ≡ ok a)) ⊎ ((e : E) × (m ≡ thrown e))
Outcome-cases (ok a) = inl (a, refl)
Outcome-cases (thrown e) = inr (e, refl)
