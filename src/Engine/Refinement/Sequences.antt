-- ===== src/Engine/Refinement/Sequences.antt =====
-- internal/engine/engine.go: any sequence of calls does to the rules what it does to the table.
use mathlib.Core.Path.{ap₂}
use port_forwarder.Base.{
  ◌+◌, ◌<◌, ◌≤◌, ◌≡◌, refl, sym, ◌∙◌, ap, Option, none, some, List, [], ◌∷◌, ◌++◌, arith, length,
  Option-cases, inl, inr,
}
use port_forwarder.Base.Int.{max_int}
use port_forwarder.Base.Text.{Text, text_eq}
use port_forwarder.Base.Prog.{Ensures, returned, Ensures-bind}
use port_forwarder.Engine.{RemoteBackend, Engine}
use port_forwarder.Engine.Reports.{IsQuiet}
use port_forwarder.Engine.Table.{
  Table, Op, add_rule, update_rule, remove_rule, Call, perform, perform_all, performed, apply,
  replay,
}
use port_forwarder.Engine.Refinement.{Implements, call, run, Refines, performed-nil}
use port_forwarder.Engine.Refinement.Adding.{add-Refines}
use port_forwarder.Engine.Refinement.Updating.{update-Refines}
use port_forwarder.Engine.Refinement.Removing.{remove-Refines}

pub next-apply : (op : Op) (t : Table) → (apply op t).table.next ≤ t.next + 1
unfolding apply
next-apply (add_rule typ name listen target credential) t = omega arith
next-apply (update_rule id name listen target credential) t = elim (Option-cases (t.entries id)) [
  | inl absent ↦ rw absent (omega arith)
  | inr (x, found) ↦ rw found (omega arith)
]
next-apply (remove_rule id) t = elim (Option-cases (t.entries id)) [
  | inl absent ↦ rw absent (omega arith)
  | inr (x, found) ↦ rw found (omega arith)
]

pub next-apply-grows : (op : Op) (t : Table) → t.next ≤ (apply op t).table.next
unfolding apply
next-apply-grows (add_rule typ name listen target credential) t = omega arith
next-apply-grows (update_rule id name listen target credential) t =
    elim (Option-cases (t.entries id)) [
      | inl absent ↦ rw absent (omega arith)
      | inr (x, found) ↦ rw found (omega arith)
    ]
next-apply-grows (remove_rule id) t = elim (Option-cases (t.entries id)) [
  | inl absent ↦ rw absent (omega arith)
  | inr (x, found) ↦ rw found (omega arith)
]

module _ {B : Type 0} (be : RemoteBackend B) where
  pub perform_all-append :
      (cs ds : List Call) (b : B)
      → perform_all be (cs ++ ds) b ≡ perform_all be ds (perform_all be cs b)
  perform_all-append [] ds b = refl
  perform_all-append (c ∷ cs) ds b = perform_all-append cs ds (perform be c b)

  performed-append :
      (cs ds : List Call) (o : Option B)
      → performed be (cs ++ ds) o ≡ performed be ds (performed be cs o)
  performed-append cs ds none = refl
  performed-append cs ds (some b) = ap some (perform_all-append cs ds b)

-- What a sequence of calls leaves of the engine is what the table says.
pub record Replayed {B : Type 0} (be : RemoteBackend B) (ops : List Op) (t : Table) (e : Engine B)
    (answers : List (Option Text)) (e' : Engine B) : Type 0 where
  pub answered : answers ≡ (replay ops t).answers
  pub implements : Implements (replay ops t).table e'
  pub remote : e'.remote ≡ performed be (replay ops t).calls e.remote

module _ {B : Type 0} (be : RemoteBackend B) (quiet : IsQuiet be) where
  call-Refines :
      {t : Table} {e : Engine B} (op : Op)
      → Implements t e
      → t.next < max_int
      → Ensures (Refines be (apply op t) e) (call be op e)
  call-Refines (add_rule typ name listen target credential) imp room =
      add-Refines be quiet imp typ name listen target credential room
  call-Refines (update_rule id name listen target credential) imp room =
      update-Refines be quiet imp id name listen target credential
  call-Refines (remove_rule id) imp room = remove-Refines be quiet imp id

  -- Any sequence of calls of `Add`, `Update` and `Remove`, on an engine that is sound and holds the
  -- rules of a table, with a quiet backend or with none, returns, as long as the counter does not
  -- reach the largest int. The answers - the ID of the new rule, and whether there was a rule to
  -- update or to remove - are those that the table gives to the same sequence, whatever addresses
  -- the operating system refuses. The engine is sound again and holds the table's rules, and the
  -- backend was called just as the table says.
  pub run-replay :
      (ops : List Op) {t : Table} {e : Engine B}
      → Implements t e
      → t.next + length ops ≤ max_int
      → Ensures (Replayed be ops t e) (run be ops e)
  unfolding run replay
  run-replay [] {t} {e} imp room =
      returned _ _
        (record { answered = refl; implements = imp; remote = sym (performed-nil be e.remote) })
  run-replay (op ∷ ops) {t} {e} imp room =
      Ensures-bind _ (call-Refines op imp (omega arith)) (λ answer e1 first.
        Ensures-bind _ (run-replay ops first.implements (omega (arith, next-apply op t)))
          (λ answers e2 rest. returned _ _ (record {
            answered = ap₂ (λ a more. a ∷ more) first.answered rest.answered;
            implements = rest.implements;
            remote =
                rest.remote
                ∙ ap (performed be (replay ops (apply op t).table).calls) first.remote
                ∙ sym (
                    performed-append be (apply op t).calls (replay ops (apply op t).table).calls
                      e.remote);
          })))
