-- ===== src/Base/Map.antt =====
-- Go maps with string keys. A `range` loop visits the entries in the order of the list; the code
-- that ranges over a map is stated for every list, so for every order that Go may choose.
use mathlib.Core.Path.{◌≡◌, refl}
use mathlib.Core.Option.{Option, none, some}
use mathlib.Core.List.{List, [], ◌∷◌}
use native.Mathlib.Omega.{arith}
use port_forwarder.Base.Tests.{◌==◌, if◌then◌else◌}
use port_forwarder.Base.Text.{Text, text_eq}

abbrev pub Map {ℓ} : Type ℓ → Type ℓ
Map V = List (Text × V)

module _ {ℓ} {V : Type ℓ} where
  unfoldable pub lookup : Text → Map V → Option V
  lookup k [] = none
  lookup k ((j, v) ∷ m) = if k == j then some v else lookup k m

  -- `m[k] = v`
  unfoldable pub insert : Text → V → Map V → Map V
  insert k v [] = (k, v) ∷ []
  insert k v ((j, w) ∷ m) = if k == j then (k, v) ∷ m else (j, w) ∷ insert k v m

  -- `delete(m, k)`
  unfoldable pub erase : Text → Map V → Map V
  erase k [] = []
  erase k ((j, w) ∷ m) = let rest = erase k m in if k == j then rest else (j, w) ∷ rest

  pub lookup-nil : (k : Text) → lookup k [] ≡ none
  unfolding lookup
  lookup-nil k = refl

  pub lookup-cons :
      (j k : Text) (v : V) (m : Map V)
      → lookup j ((k, v) ∷ m) ≡ (if j == k then some v else lookup j m)
  unfolding lookup
  lookup-cons j k v m = refl

  pub lookup-insert :
      (j k : Text) (v : V) (m : Map V)
      → lookup j (insert k v m) ≡ (if j == k then some v else lookup j m)
  unfolding lookup insert
  lookup-insert j k v [] = refl
  lookup-insert j k v (_ ∷ m) = ground (arith, lookup-insert j k v m)

  pub lookup-erase :
      (j k : Text) (m : Map V) → lookup j (erase k m) ≡ (if j == k then none else lookup j m)
  unfolding lookup erase
  lookup-erase j k [] = ground arith
  lookup-erase j k (_ ∷ m) = ground (arith, lookup-erase j k m)

pub ruleset map_laws = (lookup-nil, lookup-insert, lookup-erase)

-- A Go map holds a key once.
module _ {ℓ} {V : Type ℓ} where
  abbrev pub NodupKeys : Map V → Type ℓ
  NodupKeys [] = Unit
  NodupKeys ((k, _) ∷ m) = (lookup k m ≡ none) × NodupKeys m

  pub insert-NodupKeys : (k : Text) (v : V) (m : Map V) → NodupKeys m → NodupKeys (insert k v m)
  unfolding insert
  insert-NodupKeys k v [] u = (lookup-nil k, tt)
  insert-NodupKeys k v ((j, w) ∷ m) u =
      ground (arith, insert-NodupKeys k v m u.1, lookup-insert j k v m)

  pub erase-NodupKeys : (k : Text) (m : Map V) → NodupKeys m → NodupKeys (erase k m)
  unfolding erase
  erase-NodupKeys k [] u = tt
  erase-NodupKeys k ((j, w) ∷ m) u = ground (arith, erase-NodupKeys k m u.1, lookup-erase j k m)

  -- Each entry that a `range` loop visits is the one that a lookup finds.
  abbrev pub Entries : (Text → V → Type ℓ) → Map V → Type ℓ
  Entries P [] = Unit
  Entries P ((k, v) ∷ m) = P k v × Entries P m

module _ {V : Type 0} where
  pub Entries-weaken :
      (P Q : Text → V → Type 0) (m : Map V)
      → ((k : Text) (v : V) → lookup k m ≡ some v → P k v → Q k v)
      → NodupKeys m
      → Entries P m
      → Entries Q m
  Entries-weaken P Q [] h u ps = tt
  Entries-weaken P Q ((k, v) ∷ m) h u ps = (
    h k v (ground (arith, lookup-cons k k v m)) ps.0,
    Entries-weaken P Q m (λ j w at. h j w (ground (arith, lookup-cons j k v m, u.0))) u.1 ps.1,
  )

  pub Entries-lookup : (m : Map V) → NodupKeys m → Entries (λ k v. lookup k m ≡ some v) m
  Entries-lookup [] u = tt
  Entries-lookup ((k, v) ∷ m) u = (
    ground (arith, lookup-cons k k v m),
    Entries-weaken (λ j w. lookup j m ≡ some w) (λ j w. lookup j ((k, v) ∷ m) ≡ some w) m
        (λ j w at p. ground (arith, lookup-cons j k v m, u.0)) u.1 (Entries-lookup m u.1),
  )
