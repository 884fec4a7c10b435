-- ===== src/Base/Options.antt =====
-- Go code that returns an error on the way, where only that it is one matters.
use mathlib.Core.Option.{Option, none, some}

module _ {ℓ} {A B : Type ℓ} where
  infixl 5 ◌>>=◌
  abbrev pub ◌>>=◌ : Option A → (A → Option B) → Option B
  none >>= f = none
  some a >>= f = f a
