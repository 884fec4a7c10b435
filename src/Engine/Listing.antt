-- ===== src/Engine/Listing.antt =====
-- internal/engine/engine.go: what `List` returns.
use mathlib.Core.List.{Memᴰ}
use port_forwarder.Base.{
  ℕ, zero, suc, ◌+◌, ◌<◌, ◌≤◌, ◌≡◌, refl, sym, ◌∙◌, ap, false, none, some, List, [], ◌∷◌, arith,
  nat_eq, ℕ_discrete, Option-cases, inl, inr, All,
}
use port_forwarder.Base.Int.{max_int}
use port_forwarder.Base.Text.{Text}
use port_forwarder.Base.Map.{Map, lookup}
use port_forwarder.Base.Prog.{returns, hangs, Ensures, returned, Ensures-eq}
use port_forwarder.Decimal.{format}
use port_forwarder.Engine.{Rule, Engine, lock, unlock}
use port_forwarder.Engine.Queries.{collect, list}
use port_forwarder.Engine.Soundness.{IsSound, Inv-held}

-- The IDs are the decimals of growing numbers, from `i` on.
abbrev pub IsAscending : ℕ → List Rule → Type 0
IsAscending i [] = Unit
IsAscending i (r ∷ rs) = (j : ℕ) × (r.id ≡ format j) × (i ≤ j) × IsAscending (suc j) rs

IsAscending-weaken : (i j : ℕ) (rs : List Rule) → i ≤ j → IsAscending j rs → IsAscending i rs
IsAscending-weaken i j [] h a = tt
IsAscending-weaken i j (r ∷ rs) h (k, named, above, rest) = (k, named, omega arith, rest)

collect-none :
    (m : Map Rule) (i k : ℕ)
    → lookup (format i) m ≡ none
    → collect i (suc k) m ≡ collect (suc i) k m
unfolding collect
collect-none m i k absent = ground arith

collect-some :
    (m : Map Rule) (i k : ℕ) {r : Rule}
    → lookup (format i) m ≡ some r
    → collect i (suc k) m ≡ r ∷ collect (suc i) k m
unfolding collect
collect-some m i k found = ground arith

collect-zero : (m : Map Rule) (i : ℕ) → collect i zero m ≡ []
unfolding collect
collect-zero m i = refl

module _ (m : Map Rule) (keyed : (k : Text) (r : Rule) → lookup k m ≡ some r → r.id ≡ k) where
  collect-IsAscending : (i k : ℕ) → IsAscending i (collect i k m)
  collect-IsAscending i zero = rw (collect-zero m i) tt
  collect-IsAscending i (suc k) = elim (Option-cases (lookup (format i) m)) [
    | inl absent ↦ rw (collect-none m i k absent) (
        IsAscending-weaken i (suc i) (collect (suc i) k m) (omega arith)
          (collect-IsAscending (suc i) k))
    | inr (r, found) ↦
        rw (collect-some m i k found)
          (i, keyed (format i) r found, omega arith, collect-IsAscending (suc i) k)
  ]

  collect-All : (i k : ℕ) → All (λ r. lookup r.id m ≡ some r) (collect i k m)
  collect-All i zero = rw (collect-zero m i) tt
  collect-All i (suc k) = elim (Option-cases (lookup (format i) m)) [
    | inl absent ↦ rw (collect-none m i k absent) (collect-All (suc i) k)
    | inr (r, found) ↦
        rw (collect-some m i k found)
          (ap (λ j. lookup j m) (keyed (format i) r found) ∙ found, collect-All (suc i) k)
  ]

mem-collect :
    (m : Map Rule) (i k j : ℕ) (r : Rule)
    → lookup (format j) m ≡ some r
    → i ≤ j
    → j < i + k
    → Memᴰ r (collect i k m)
mem-collect m i zero j r found low high = absurd (omega arith)
mem-collect m i (suc k) j r found low high = elim (ℕ_discrete i j) [
  | yes same ↦ rw (collect-some m i k (ap (λ a. lookup (format a) m) same ∙ found)) (Memᴰ.head refl)
  | no other ↦
      let rest = mem-collect m (suc i) k j r found (omega arith) (omega arith) in
      elim (Option-cases (lookup (format i) m)) [
        | inl absent ↦ rw (collect-none m i k absent) rest
        | inr (r', at) ↦ rw (collect-some m i k at) (Memᴰ.tail rest)
      ]
]

-- What `List` promises.
pub record IsListing (rules : Map Rule) (out : List Rule) : Type 0 where
  pub ascending : IsAscending 1 out
  pub sound : All (λ r. lookup r.id rules ≡ some r) out
  pub complete : (k : Text) (r : Rule) → lookup k rules ≡ some r → Memᴰ r out

module _ {B : Type 0} {n : ℕ} {e : Engine B} (s : IsSound n e) where
  pub list_returns :
      n < max_int → list e ≡ returns (collect 1 n e.rules) (record e { held = false })
  unfolding list lock unlock
  list_returns room = rw (s.free, s.inv.numbering.counter) (ground arith)

  pub collect-IsListing : IsListing e.rules (collect 1 n e.rules)
  collect-IsListing = record {
    ascending = collect-IsAscending e.rules s.inv.numbering.keyed 1 n;
    sound = collect-All e.rules s.inv.numbering.keyed 1 n;
    complete = λ k r found.
        let (i, named, above, below) = s.inv.numbering.numbered k r found in
        mem-collect e.rules 1 n i r (ap (λ j. lookup j e.rules) (sym named) ∙ found) above
          (omega arith);
  }

  -- `List` of a sound engine with its counter below the largest int returns each rule of the map
  -- once, in the order of the numbers that are the IDs, and no other rule; the map does not
  -- change.
  pub list_lem :
      n < max_int
      → Ensures (λ out e'. IsListing e.rules out × IsSound n e' × (e'.rules ≡ e.rules)) (list e)
  list_lem room =
      Ensures-eq (list_returns room)
        (returned _ _ (collect-IsListing, record { free = refl; inv = Inv-held false s.inv }, refl))

  -- At the largest int the loop of `List` has no end.
  pub list_hangs : n ≡ max_int → list e ≡ hangs
  unfolding list lock
  list_hangs full = rw (s.free, s.inv.numbering.counter) (ground arith)
