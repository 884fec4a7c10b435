-- ===== src/Base/Text.antt =====
-- A Go string is the list of its bytes.
use Prim.Native.Nat.{ℕ}
use Prim.Native.Char.{code}
use Prim.Native.String.{String}
use mathlib.Core.Path.{◌≡◌, refl, ap₂}
use mathlib.Core.Logic.{dite}
use mathlib.Core.List.{List, [], ◌∷◌}
use native.Mathlib.Decide.{ℕ_discrete}
use native.Mathlib.Omega.{arith}
use port_forwarder.Base.Tests.{Eq}

abbrev pub Text : Type 0
Text = List ℕ

-- The code points of a literal: its bytes, as the literals are ASCII.
abbrev pub codes : String → Text
codes String.[] = []
codes (String.◌∷◌ c s) = code c ∷ codes s

pub cons-ne_of_head : (x y : ℕ) (xs ys : Text) → ¬ (x ≡ y) → ¬ (◌≡◌ {A = Text} (x ∷ xs) (y ∷ ys))
cons-ne_of_head x y xs ys n q = ground arith

pub cons-ne_of_tail : (x y : ℕ) (xs ys : Text) → ¬ (xs ≡ ys) → ¬ (◌≡◌ {A = Text} (x ∷ xs) (y ∷ ys))
cons-ne_of_tail x y xs ys n q = ground arith

pub nil-ne-cons : (x : ℕ) (xs : Text) → ¬ (◌≡◌ {A = Text} [] (x ∷ xs))
nil-ne-cons x xs q = cc

pub cons-ne-nil : (x : ℕ) (xs : Text) → ¬ (◌≡◌ {A = Text} (x ∷ xs) [])
cons-ne-nil x xs q = cc

unfoldable pub Text-discrete : Discrete Text
unfolding ℕ_discrete
Text-discrete [] [] = yes refl
Text-discrete [] (y ∷ ys) = no (nil-ne-cons y ys)
Text-discrete (x ∷ xs) [] = no (cons-ne-nil x xs)
Text-discrete (x ∷ xs) (y ∷ ys) =
    let tails = Text-discrete xs ys in
    dite (ℕ_discrete x y)
      (λ p. dite tails (λ q. yes (ap₂ (λ a b. a ∷ b) p q)) (λ n. no (cons-ne_of_tail x y xs ys n)))
      (λ n. no (cons-ne_of_head x y xs ys n))

instance unfoldable pub text_eq : Eq Text
unfolding Text-discrete
text_eq = record { dec = Text-discrete }
