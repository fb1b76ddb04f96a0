-- ===== src/Base/Outcomes.antt =====
-- Calls that may raise: a value, or one of the errors of the component.
use mathlib.Core.Path.{◌≡◌, refl}
use mathlib.Core.Logic.{◌⊎◌, inl, inr}
use mathlib.Core.Bool.{Bool, true, false}

pub data Outcome (E A : Type 0) : Type 0 where
  ok : A → Outcome E A
  err : E → Outcome E A

module _ {E : Type 0} where
  -- `if not test: raise e`
  abbrev pub require : Bool → E → Outcome E Unit
  require true e = ok tt
  require false e = err e

  infixl 5 ◌>>=◌ ◌>>◌
  abbrev pub ◌>>=◌ : {A B : Type 0} → Outcome E A → (A → Outcome E B) → Outcome E B
  ◌>>=◌ (ok a) next = next a
  ◌>>=◌ (err e) next = err e

  abbrev pub ◌>>◌ : {B : Type 0} → Outcome E Unit → Outcome E B → Outcome E B
  ◌>>◌ first next = first >>= λ _. next

  -- What a chain of steps that succeeded has passed.
  pub require_passed :
      {B : Type 0} (b : Bool) (e : E) (k : Outcome E B) {r : B}
      → (require b e >> k) ≡ ok r
      → (b ≡ true) × (k ≡ ok r)
  require_passed true e k h = (refl, h)
  require_passed false e k h = absurd (cc)

  pub bind_passed :
      {A B : Type 0} (m : Outcome E A) (next : A → Outcome E B) {b : B}
      → (m >>= next) ≡ ok b
      → (a : A) × (m ≡ ok a) × (next a ≡ ok b)
  bind_passed (ok a) next h = (a, refl, h)
  bind_passed (err e) next h = absurd (cc)

  pub Outcome-cases :
      {A : Type 0} (r : Outcome E A) → ((a : A) × (r ≡ ok a)) ⊎ ((e : E) × (r ≡ err e))
  Outcome-cases (ok a) = inl (a, refl)
  Outcome-cases (err e) = inr (e, refl)
