-- ===== src/Api/Contract/Changing.antt =====
-- internal/api/api.go: PUT and DELETE of a rule, against the contract.
use port_forwarder.Base.{
  Bool, ◌<◌, ◌≡◌, refl, ◌∙◌, ap, false, Option, none, some, Option-cases, inl, inr, arith,
}
use port_forwarder.Base.Int.{max_int}
use port_forwarder.Base.Text.{Text, text_eq}
use port_forwarder.Base.Map.{lookup}
use port_forwarder.Base.Prog.{
  Ensures, returned, Ensures-bind, Ensures-step, Ensures-unbind, Ensures-pure, Ensures-weaken,
}
use port_forwarder.Engine.{Error, RemoteBackend}
use port_forwarder.Engine.Reports.{IsQuiet}
use port_forwarder.Engine.Methods.{update, remove}
use port_forwarder.Engine.Updating.{update_absent}
use port_forwarder.Engine.Removing.{remove_absent}
use port_forwarder.Engine.Table.{Op, update_rule, remove_rule, apply}
use port_forwarder.Engine.Refinement.{Shows-some, Shows-none, Implements, call, removed_id, Refines}
use port_forwarder.Engine.Refinement.Sequences.{next-apply-grows}
use port_forwarder.Engine.Refinement.Updating.{update-Refines}
use port_forwarder.Engine.Refinement.Removing.{remove-Refines}
use port_forwarder.Api.{RuleRequest, Response, Server, updated, deleted}
use port_forwarder.Api
use port_forwarder.Api.Rules.{lift-Ensures}
use port_forwarder.Api.Requests.{put_rule, delete_rules}
use port_forwarder.Api.Contract.{Desk, rejects, misses, succeeds, is_refused}
use port_forwarder.Api.Contract.Keeping.{Keeps, Implements-freed}
use port_forwarder.Api.Contract.Creating.{Served, lagging, saving}

abbrev changing : Text → RuleRequest → Op
changing id q = update_rule id q.name q.listen q.target q.credential

module _ {B : Type 0} (be : RemoteBackend B) (quiet : IsQuiet be) {good : Bool} {d : Desk}
    {srv : Server B} (keeps : Keeps good d srv) (room : d.table.next < max_int) (id : Text) where
  -- The table has the rule just when the engine has it.
  entry_absent : lookup id srv.engine.rules ≡ none → d.table.entries id ≡ none
  entry_absent absent = Shows-none (d.table.entries id) (rw absent at (keeps.implements.entries id))

  freed : Keeps good d (record srv { engine = record srv.engine { held = false } })
  freed = lagging keeps refl (Implements-freed keeps.implements) (omega arith)

  update_raw :
      (q : RuleRequest)
      → Ensures
          (λ out e1. Refines be (apply (changing id q) d.table) srv.engine out.0 e1)
          (update be id q.name q.listen q.target q.credential srv.engine)
  unfolding call
  update_raw q =
      Ensures-weaken
        (Ensures-unbind _
          (update-Refines be quiet keeps.implements id q.name q.listen q.target q.credential))
        (λ out e1 h. Ensures-pure h)

  remove_raw :
      Ensures
        (λ err e1. Refines be (apply (remove_rule id) d.table) srv.engine (removed_id id err) e1)
        (remove be id srv.engine)
  unfolding call
  remove_raw =
      Ensures-weaken (Ensures-unbind _ (remove-Refines be quiet keeps.implements id))
        (λ err e1 h. Ensures-pure h)

  updated-Served :
      (q : RuleRequest) (err : Option Error) (srv1 : Server B)
      → (apply (changing id q) d.table).answer ≡ some id
      → (apply (changing id q) d.table).table.next < max_int
      → Implements (apply (changing id q) d.table).table srv1.engine
      → srv1.rules ≡ srv.rules
      → Ensures (Served good (put_rule id (some q)) d) (updated be id err srv1)
  unfolding updated
  updated-Served q (some x) srv1 answers small imp rules = returned _ _ (
    _,
    is_refused _ _ d id _ refl answers refl,
    lagging keeps rules imp (next-apply-grows (changing id q) d.table),
  )
  updated-Served q none srv1 answers small imp rules =
      Ensures-bind _
        (saving (lagging keeps rules imp (next-apply-grows (changing id q) d.table)) small)
        (λ _ srv2 (file, saves, now). returned _ _ (
          _,
          succeeds _ _ d id _ refl answers
              (lookup id srv2.engine.rules, refl, now.implements.entries id) file saves,
          now,
        ))

  pub update_rule-Served :
      (q : Option RuleRequest)
      → Ensures (Served good (put_rule id q) d) (Api.update_rule be id q srv)
  unfolding Api.update_rule updated
  update_rule-Served none = returned _ _ (d, rejects _ d _ refl refl, keeps)
  update_rule-Served (some q) = elim (Option-cases (lookup id srv.engine.rules)) [
    | inl absent ↦
        Ensures-step {A = Option Text × Option Error} _
          (ap (λ o. Api.lift_outcome o srv)
            (update_absent be q.name q.listen q.target q.credential srv.engine id
              keeps.implements.sound.free absent))
          (returned _ _ (
            d,
            misses _ (changing id q) d _ refl (unfold apply in rw (entry_absent absent) refl),
            freed,
          ))
    | inr (r, found) ↦
        let (x, is_x, _) =
          Shows-some r (d.table.entries id) (rw found at (keeps.implements.entries id)) in
        Ensures-bind {A = Option Text × Option Error} _ (lift-Ensures srv (update_raw q))
          (λ out srv1 done.
            let r = done.0 in
            updated-Served q out.1 srv1 (unfold apply in rw is_x refl)
              (unfold apply in rw is_x room) r.implements done.1)
  ]

  deleted-Served :
      (err : Option Error) (srv1 : Server B)
      → err ≡ none
      → (apply (remove_rule id) d.table).answer ≡ some id
      → (apply (remove_rule id) d.table).table.next < max_int
      → Implements (apply (remove_rule id) d.table).table srv1.engine
      → srv1.rules ≡ srv.rules
      → Ensures (Served good (delete_rules id) d) (deleted be err srv1)
  unfolding deleted
  deleted-Served (some x) srv1 ok answers small imp rules = absurd (grind (arith, ok))
  deleted-Served none srv1 ok answers small imp rules =
      Ensures-bind _
        (saving (lagging keeps rules imp (next-apply-grows (remove_rule id) d.table)) small)
        (λ _ srv2 (file, saves, now).
          returned _ _ (_, succeeds _ _ d id _ refl answers refl file saves, now))

  no_error : (err : Option Error) → removed_id id err ≡ some id → err ≡ none
  no_error none h = refl
  no_error (some x) h = absurd (grind arith)

  pub delete_rule-Served : Ensures (Served good (delete_rules id) d) (Api.delete_rule be id srv)
  unfolding Api.delete_rule deleted
  delete_rule-Served = elim (Option-cases (lookup id srv.engine.rules)) [
    | inl absent ↦
        Ensures-step _
          (ap (λ o. Api.lift_outcome o srv)
            (remove_absent be srv.engine id keeps.implements.sound.free absent))
          (returned _ _ (
            d,
            misses _ (remove_rule id) d _ refl (unfold apply in rw (entry_absent absent) refl),
            freed,
          ))
    | inr (r, found) ↦
        let (x, is_x, _) =
          Shows-some r (d.table.entries id) (rw found at (keeps.implements.entries id)) in
        Ensures-bind _ (lift-Ensures srv remove_raw) (λ err srv1 done.
          let r = done.0 in
          let answers : (apply (remove_rule id) d.table).answer ≡ some id =
            unfold apply in rw is_x refl in
          deleted-Served err srv1 (no_error err (r.answered ∙ answers)) answers
            (unfold apply in rw is_x room) r.implements done.1)
  ]
