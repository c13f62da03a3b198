-- ===== src/Base/Options.antt =====
-- Chains of steps that may fail an assertion.
use mathlib.Core.Option.{Option, none, some}

module _ {ℓ} {A B : Type ℓ} where
  infixl 5 ◌>>=◌ ◌>>◌
  abbrev pub ◌>>=◌ : Option A → (A → Option B) → Option B
  none >>= f = none
  some a >>= f = f a

  abbrev pub ◌>>◌ : Option A → Option B → Option B
  m >> n = m >>= λ _. n
