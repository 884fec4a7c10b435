-- ===== src/Base/Prog.antt =====
-- Go code that reads and writes a state `S`, may panic, and may never return.
use mathlib.Core.Path.{◌≡◌, refl}
use native.Mathlib.Omega.{arith}

-- `hangs`: the goroutine waits for ever (it locks a mutex that it holds itself) or loops for ever.
pub data Outcome {ℓ} (S A : Type ℓ) : Type ℓ where
  returns : A → S → Outcome S A
  panics : Outcome S A
  hangs : Outcome S A

abbrev pub Prog {ℓ} : Type ℓ → Type ℓ → Type ℓ
Prog S A = S → Outcome S A

module _ {ℓ} {S A : Type ℓ} where
  abbrev pub pure : A → Prog S A
  pure a s = returns a s

  abbrev pub gets : (S → A) → Prog S A
  gets f s = returns (f s) s

module _ {ℓ} {S : Type ℓ} where
  abbrev pub modify : (S → S) → Prog S (Unit {ℓ})
  modify f s = returns tt (f s)

module _ {ℓ} {S A B : Type ℓ} where
  abbrev pub continue : Outcome S A → (A → Prog S B) → Outcome S B
  continue (returns a s) f = f a s
  continue panics f = panics
  continue hangs f = hangs

  infixl 5 ◌>>=◌ ◌>>◌
  abbrev pub ◌>>=◌ : Prog S A → (A → Prog S B) → Prog S B
  ◌>>=◌ m f s = continue (m s) f

  abbrev pub ◌>>◌ : Prog S A → Prog S B → Prog S B
  m >> n = m >>= λ _. n

-- The program returns, and its result and its last state satisfy `P`.
pub data Ensures {ℓ} {S A : Type ℓ} (P : A → S → Type ℓ) : Outcome S A → Type ℓ where
  returned : (a : A) (s : S) → P a s → Ensures P (returns a s)

module _ {ℓ} {S A B : Type ℓ} {P : A → S → Type ℓ} {Q : B → S → Type ℓ} where
  pub Ensures-bind :
      {o : Outcome S A} (f : A → Prog S B)
      → Ensures P o
      → ((a : A) (s : S) → P a s → Ensures Q (f a s))
      → Ensures Q (continue o f)
  Ensures-bind f (returned a s p) k = k a s p

module _ {ℓ} {S A : Type ℓ} {P Q : A → S → Type ℓ} where
  pub Ensures-weaken :
      {o : Outcome S A} → Ensures P o → ((a : A) (s : S) → P a s → Q a s) → Ensures Q o
  Ensures-weaken (returned a s p) k = returned a s (k a s p)

module _ {ℓ} {S A : Type ℓ} where
  -- The equation behind an `Ensures`.
  pub Ensures-elim :
      {P : A → S → Type ℓ} {o : Outcome S A}
      → Ensures P o
      → (a : A) × (s : S) × (o ≡ returns a s) × P a s
  Ensures-elim (returned a s p) = (a, s, refl, p)

  pub Ensures-at :
      {P : A → S → Type ℓ} {o : Outcome S A} (a : A) (s : S) → Ensures P o → o ≡ returns a s → P a s
  Ensures-at {P} a s (returned b t p) e = grind arith

  abbrev pub Returned : Outcome S A → Type 0
  Returned (returns a s) = Unit
  Returned _ = ⊥

module _ {ℓ} {S A B : Type ℓ} {Q : B → S → Type ℓ} where
  pub Ensures-step :
      {o : Outcome S A} (f : A → Prog S B) {a : A} {s : S}
      → o ≡ returns a s
      → Ensures Q (f a s)
      → Ensures Q (continue o f)
  Ensures-step f e h = rw e h

module _ {ℓ} {S A : Type ℓ} {P : A → S → Type ℓ} where
  pub Ensures-eq : {o o' : Outcome S A} → o ≡ o' → Ensures P o' → Ensures P o
  Ensures-eq e h = rw e h

module _ {ℓ} {S A B : Type ℓ} {Q : B → S → Type ℓ} where
  -- What a program ensures behind its first part.
  pub Ensures-unbind :
      {o : Outcome S A} (f : A → Prog S B)
      → Ensures Q (continue o f)
      → Ensures (λ a s. Ensures Q (f a s)) o
  Ensures-unbind {o} f h =
      elim o as (λ o. Ensures Q (continue o f) → Ensures (λ a s. Ensures Q (f a s)) o) [
        | returns a s ↦ λ h. returned a s h
        | panics ↦ λ h. absurd (stuck h)
        | hangs ↦ λ h. absurd (stuck h)
      ]
        h
    where
      stuck : {o : Outcome S B} → Ensures Q o → Returned o
      stuck (returned a s p) = tt

module _ {ℓ} {S A : Type ℓ} {P : A → S → Type ℓ} where
  pub Ensures-pure : {a : A} {s : S} → Ensures P (returns a s) → P a s
  Ensures-pure {a} {s} h = Ensures-at a s h refl
