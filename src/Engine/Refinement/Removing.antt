-- ===== src/Engine/Refinement/Removing.antt =====
-- internal/engine/engine.go: `Remove` does to the rules what it does to the table.
use port_forwarder.Base.{
  ◌≡◌, refl, sym, ◌∙◌, ap, Option, none, some, Option-cases, inl, inr, if◌then◌else◌, Bool, true,
  false, [], ◌∷◌,
}
use port_forwarder.Base.Text.{Text, text_eq}
use port_forwarder.Base.Map.{lookup}
use port_forwarder.Base.Prog.{Ensures, returned, Ensures-step, Ensures-bind}
use port_forwarder.Engine.{Rule, RemoteBackend, Engine}
use port_forwarder.Engine.Queries.{is_remote}
use port_forwarder.Engine.Reports.{IsQuiet, told}
use port_forwarder.Engine.Removing.{remove_lem, remove_absent}
use port_forwarder.Engine.Table.{
  Entry, Table, Op, remove_rule, remove_entry, removes, performed, apply,
}
use port_forwarder.Engine.Refinement.{
  IsOf, Shows-some, Shows-none, Implements, removed_id, call, entries-set, Refines, performed-nil,
  unlocked,
}

told-performed :
    {B : Type 0} (be : RemoteBackend B) (id : Text) (far : Bool) (o : Option B)
    → (if far then told be id o else o) ≡ performed be (if far then removes id ∷ [] else []) o
told-performed be id true none = refl
told-performed be id true (some b) = refl
told-performed be id false none = refl
told-performed be id false (some b) = refl

module _ {B : Type 0} (be : RemoteBackend B) (quiet : IsQuiet be) {t : Table} {e : Engine B}
    (imp : Implements t e) (id : Text) where
  abbrev removing : Op
  removing = remove_rule id

  remove_found-Refines :
      {r : Rule} {x : Entry}
      → lookup id e.rules ≡ some r
      → IsOf r x
      → Ensures (Refines be (remove_entry id (some x) t) e) (call be removing e)
  unfolding call
  remove_found-Refines {r} {x} found is =
      Ensures-bind _ (remove_lem be imp.sound id found quiet) (λ err e' done. returned _ _ (record {
        answered = ap (removed_id id) done.0;
        implements = record {
          sound = done.1.sound;
          entries = entries-set e' id imp none none tt done.1.rules;
        };
        remote = rw (← is.typ) (done.1.remote ∙ told-performed be id (is_remote r) e.remote);
      }))

  pub remove-Refines : Ensures (Refines be (apply removing t) e) (call be removing e)
  unfolding call apply
  remove-Refines = elim (Option-cases (lookup id e.rules)) [
    | inl absent ↦ rw (Shows-none (t.entries id) (rw absent at (imp.entries id))) (
        Ensures-step _ (remove_absent be e id imp.sound.free absent) (
          returned _ _ (record {
            answered = refl;
            implements = unlocked imp;
            remote = sym (performed-nil be e.remote);
          })))
    | inr (r, found) ↦
        let (x, is_x, is) = Shows-some r (t.entries id) (rw found at (imp.entries id)) in
        rw is_x (remove_found-Refines found is)
  ]
