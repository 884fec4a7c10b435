-- ===== src/Engine/Table/Fresh.antt =====
-- The table of rules of internal/engine/engine.go gives out each ID once.
use port_forwarder.Base.{
  ℕ, ◌≤◌, ◌≡◌, sym, ◌∙◌, ap, none, some, arith, Option, Option-cases, inl, inr,
}
use port_forwarder.Base.Text.{Text, text_eq}
use port_forwarder.Decimal.{format}
use port_forwarder.Decimal.RoundTrip.{format_inj}
use port_forwarder.Engine.Table.{
  Entry, Table, Op, add_rule, update_rule, remove_rule, put, apply, renewed,
}

-- No rule has the ID that comes next, or a later one.
abbrev pub IsFresh : Table → Type 0
IsFresh t = (m : ℕ) → t.next ≤ m → t.entries (format m) ≡ none

-- The change of a rule that is there.
put-IsFresh :
    (t : Table) (id : Text) (o : Option Entry) {x : Entry}
    → t.entries id ≡ some x
    → IsFresh t
    → IsFresh (record t { entries = put id o t.entries })
put-IsFresh t id o {x} found fresh m later = elim (text_eq.dec (format m) id) [
  | yes same ↦ absurd (grind (arith, sym (ap t.entries same) ∙ fresh m later, found))
  | no other ↦ ground (arith, fresh m later)
]

pub apply-IsFresh : (op : Op) (t : Table) → IsFresh t → IsFresh (apply op t).table
unfolding apply
apply-IsFresh (add_rule typ name listen target credential) t fresh = λ m later.
    elim (text_eq.dec (format m) (format t.next)) [
      | yes same ↦ absurd (omega (arith, format_inj m t.next same))
      | no other ↦ ground (arith, fresh m (omega arith))
    ]
apply-IsFresh (update_rule id name listen target credential) t fresh =
    elim (Option-cases (t.entries id)) [
      | inl absent ↦ rw absent fresh
      | inr (x, found) ↦
          rw found (put-IsFresh t id (some (renewed name listen target credential x)) found fresh)
    ]
apply-IsFresh (remove_rule id) t fresh = elim (Option-cases (t.entries id)) [
  | inl absent ↦ rw absent fresh
  | inr (x, found) ↦ rw found (put-IsFresh t id none found fresh)
]
