-- ===== src/Engine/Mirroring.antt =====
-- internal/engine/engine.go and its backends: a backend that keeps the rules that it is handed has
-- the engine's remote rules.
use port_forwarder.Base.{
  ℕ, suc, ◌+◌, ◌≤◌, ◌≡◌, refl, ◌∙◌, ap, Option, none, some, List, [], ◌∷◌, arith, ◌==◌,
  if◌then◌else◌, length, Option-cases, Bool-cases, inl, inr,
}
use port_forwarder.Base.Int.{max_int}
use port_forwarder.Base.Text.{Text, text_eq}
use port_forwarder.Base.Prog.{Ensures, Ensures-weaken}
use port_forwarder.Decimal.{format}
use port_forwarder.Engine.{Rule, RemoteBackend, Engine}
use port_forwarder.Engine.Numbering.{Numbering-fresh}
use port_forwarder.Engine.Reports.{IsQuiet}
use port_forwarder.Engine.Table.{
  Entry, Table, Op, add_rule, update_rule, remove_rule, is_far, put, if_far, adds, removes, handed,
  perform_all, performed, apply, replay, new_entry, renewed,
}
use port_forwarder.Engine.Table.Fresh.{IsFresh, apply-IsFresh}
use port_forwarder.Engine.Refinement.{Implements, Shows-none, run}
use port_forwarder.Engine.Refinement.Sequences.{run-replay, perform_all-append}

-- What a backend promises that keeps a value of each rule that it was handed and not told to remove:
-- `has` reads it, and `Good` holds between two calls. A rule is added only when its ID is free.
pub record Keeper {B : Type 0} (be : RemoteBackend B) (V : Type 0) : Type 1 where
  pub of : Rule → V
  pub has : B → Text → Option V
  pub Good : B → Type 0
  pub add_has :
      (r : Rule) (b : B)
      → Good b
      → has b r.id ≡ none
      → Good (be.add_remote r b).0
        × ((k : Text) → has (be.add_remote r b).0 k ≡ (if k == r.id then some (of r) else has b k))
  pub remove_has :
      (id : Text) (b : B)
      → Good b
      → Good (be.remove_remote id b).0
        × ((k : Text) → has (be.remove_remote id b).0 k ≡ (if k == id then none else has b k))

module _ {B : Type 0} {be : RemoteBackend B} {V : Type 0} (keeper : Keeper be V) where
  -- What the backend should have for an entry of the table.
  abbrev pub far_value : Text → Option Entry → Option V
  far_value id none = none
  far_value id (some x) = if is_far x.typ then some (keeper.of (handed id x)) else none

  pub record Mirrors (t : Table) (b : B) : Type 0 where
    pub good : keeper.Good b
    pub values : (k : Text) → keeper.has b k ≡ far_value k (t.entries k)

  far_value-put :
      (k id : Text) (o : Option Entry) (f : Text → Option Entry)
      → far_value k (put id o f k) ≡ (if k == id then far_value id o else far_value k (f k))
  far_value-put k id o f = elim (text_eq.dec k id) [
    | yes same ↦ rw same (ground arith)
    | no other ↦ ground arith
  ]

  module _ (t : Table) (b : B) (mirrors : Mirrors t b) where
    -- A backend that was not called: the entry was not remote, and is not.
    unchanged :
        (id k : Text)
        → far_value id (t.entries id) ≡ none
        → keeper.has b k ≡ (if k == id then none else far_value k (t.entries k))
    unchanged id k near = elim (text_eq.dec k id) [
      | yes same ↦ mirrors.values k ∙ ap (λ j. far_value j (t.entries j)) same ∙ near ∙ ground arith
      | no other ↦ mirrors.values k ∙ ground arith
    ]

    add-Mirrors :
        (n : ℕ) (x : Entry)
        → t.entries (format t.next) ≡ none
        → Mirrors
            (record { entries = put (format t.next) (some x) t.entries; next = n })
            (perform_all be (if_far x (adds (handed (format t.next) x) ∷ [])) b)
    add-Mirrors n x fresh = elim (Bool-cases (is_far x.typ)) [
      | inl far ↦
          let (good, values) =
            keeper.add_has (handed (format t.next) x) b mirrors.good
              (mirrors.values (format t.next) ∙ ap (far_value (format t.next)) fresh) in
          record {
            good = rw far good;
            values = λ k.
                rw (far_value-put k (format t.next) (some x) t.entries, far)
                  (rw (values k, mirrors.values k));
          }
      | inr near ↦ record {
        good = rw near mirrors.good;
        values = λ k.
            rw (far_value-put k (format t.next) (some x) t.entries, near)
              (unchanged (format t.next) k (ap (far_value (format t.next)) fresh));
      }
    ]

    update-Mirrors :
        (id : Text) (x y : Entry)
        → t.entries id ≡ some x
        → y.typ ≡ x.typ
        → Mirrors
            (record t { entries = put id (some y) t.entries })
            (perform_all be (if_far x (removes id ∷ adds (handed id y) ∷ [])) b)
    update-Mirrors id x y found same = elim (Bool-cases (is_far x.typ)) [
      | inl far ↦
          let (good1, values1) = keeper.remove_has id b mirrors.good in
          let (good, values) =
            keeper.add_has (handed id y) (be.remove_remote id b).0 good1
              (values1 id ∙ ground arith) in
          record {
            good = rw far good;
            values = λ k.
                rw (far_value-put k id (some y) t.entries, far)
                  (rw (values k, values1 k, mirrors.values k) (rw (same, far) (ground arith)));
          }
      | inr near ↦ record {
        good = rw near mirrors.good;
        values = λ k.
            rw (far_value-put k id (some y) t.entries, same, near)
              (unchanged id k (rw found (rw near)));
      }
    ]

    remove-Mirrors :
        (id : Text) (x : Entry)
        → t.entries id ≡ some x
        → Mirrors
            (record t { entries = put id none t.entries })
            (perform_all be (if_far x (removes id ∷ [])) b)
    remove-Mirrors id x found = elim (Bool-cases (is_far x.typ)) [
      | inl far ↦
          let (good, values) = keeper.remove_has id b mirrors.good in
          record {
            good = rw far good;
            values =
                λ k. rw (far_value-put k id none t.entries, far) (rw (values k, mirrors.values k));
          }
      | inr near ↦ record {
        good = rw near mirrors.good;
        values =
            λ k. rw (far_value-put k id none t.entries, near) (unchanged id k (rw found (rw near)));
      }
    ]

    apply-Mirrors :
        (op : Op) → IsFresh t → Mirrors (apply op t).table (perform_all be (apply op t).calls b)
    unfolding apply
    apply-Mirrors (add_rule typ name listen target credential) fresh =
        add-Mirrors (suc t.next) (new_entry typ name listen target credential)
          (fresh t.next (omega arith))
    apply-Mirrors (update_rule id name listen target credential) fresh =
        elim (Option-cases (t.entries id)) [
          | inl absent ↦ rw absent mirrors
          | inr (x, found) ↦
              rw found (update-Mirrors id x (renewed name listen target credential x) found refl)
        ]
    apply-Mirrors (remove_rule id) fresh = elim (Option-cases (t.entries id)) [
      | inl absent ↦ rw absent mirrors
      | inr (x, found) ↦ rw found (remove-Mirrors id x found)
    ]

  replay-Mirrors :
      (ops : List Op) (t : Table) (b : B)
      → IsFresh t
      → Mirrors t b
      → Mirrors (replay ops t).table (perform_all be (replay ops t).calls b)
  unfolding replay
  replay-Mirrors [] t b fresh mirrors = mirrors
  replay-Mirrors (op ∷ ops) t b fresh mirrors =
      rw (perform_all-append be (apply op t).calls (replay ops (apply op t).table).calls b) (
        replay-Mirrors ops (apply op t).table _ (apply-IsFresh op t fresh)
          (apply-Mirrors t b mirrors op fresh))

Implements-IsFresh : {B : Type 0} {t : Table} {e : Engine B} → Implements t e → IsFresh t
Implements-IsFresh {t = t} imp m later =
    Shows-none (t.entries (format m))
      (rw (Numbering-fresh imp.sound.inv.numbering m later) at (imp.entries (format m)))

-- An engine and its backend behind a sequence of calls: both have the table's rules.
pub record Mirrored {B : Type 0} {be : RemoteBackend B} {V : Type 0} (keeper : Keeper be V)
    (ops : List Op) (t : Table) (answers : List (Option Text)) (e' : Engine B) : Type 0 where
  pub answered : answers ≡ (replay ops t).answers
  pub implements : Implements (replay ops t).table e'
  pub backend : (b' : B) × (e'.remote ≡ some b') × Mirrors keeper (replay ops t).table b'

-- Any sequence of calls, on an engine that holds the rules of a table, whose backend keeps the
-- table's remote rules.
pub run-Mirrors :
    {B : Type 0} {be : RemoteBackend B} {V : Type 0} (keeper : Keeper be V) (quiet : IsQuiet be)
    (ops : List Op) {t : Table} {e : Engine B} {b : B}
    → Implements t e
    → t.next + length ops ≤ max_int
    → e.remote ≡ some b
    → Mirrors keeper t b
    → Ensures (Mirrored keeper ops t) (run be ops e)
run-Mirrors {be = be} keeper quiet ops {t} {e} {b} imp room is_some mirrors =
    Ensures-weaken (run-replay be quiet ops imp room) (λ answers e' done. record {
      answered = done.answered;
      implements = done.implements;
      backend = (
        perform_all be (replay ops t).calls b,
        done.remote ∙ ap (performed be (replay ops t).calls) is_some,
        replay-Mirrors keeper ops t b (Implements-IsFresh imp) mirrors,
      );
    })
