-- ===== src/Api/Contract/Creating.antt =====
-- internal/api/api.go: POST of a rule, against the contract.
use port_forwarder.Base.{
  Bool, ◌+◌, ◌<◌, ◌≤◌, ◌≡◌, refl, ◌∙◌, ◌&&◌, Option, none, some, ◌==◌, arith, Bool-cases, inl, inr,
}
use port_forwarder.Base.Int.{max_int}
use port_forwarder.Base.Text.{Text, codes, text_eq}
use port_forwarder.Base.Map.{lookup}
use port_forwarder.Base.Prog.{Ensures, returned, Ensures-bind, Ensures-unbind, Ensures-pure}
use port_forwarder.Decimal.{format}
use port_forwarder.Engine.{Error, RemoteBackend}
use port_forwarder.Engine.Queries.{is_empty}
use port_forwarder.Engine.Reports.{IsQuiet}
use port_forwarder.Engine.Table.{Entry, Table, Op, add_rule, apply}
use port_forwarder.Engine.Refinement.{Implements, call}
use port_forwarder.Engine.Refinement.Adding.{add-Refines}
use port_forwarder.Engine.Refinement.Sequences.{next-apply-grows}
use port_forwarder.Api.{save_all, RuleRequest, Response, Server, create_rule, create_valid, created}
use port_forwarder.Api.Rules.{lift-Ensures}
use port_forwarder.Api.Requests.{Request, post_rule}
use port_forwarder.Api.Contract.{Saves, Desk, Reacts, rejects, succeeds, is_refused, op_of}
use port_forwarder.Api.Contract.Saving.{FileHas-grow}
use port_forwarder.Api.Contract.Keeping.{Keeps, save_all-Keeps}

some_inj : {A : Type 0} {a b : A} → some a ≡ some b → a ≡ b
some_inj e = grind arith

-- What a handler comes to: a reaction of the contract, and a server that keeps it.
abbrev pub Served : {B : Type 0} → Bool → Request → Desk → Response → Server B → Type 0
Served good q d resp srv = (d' : Desk) × Reacts good q d resp d' × Keeps good d' srv

-- A server whose file lags behind its table.
pub lagging :
    {B : Type 0} {good : Bool} {d : Desk} {srv srv' : Server B} {t : Table}
    → Keeps good d srv
    → srv'.rules ≡ srv.rules
    → Implements t srv'.engine
    → d.table.next ≤ t.next
    → Keeps good (record d { table = t }) srv'
lagging keeps same imp grows = record {
  implements = imp;
  store = keeps.store;
  there = same ∙ keeps.there;
  steady = keeps.steady;
  in_file = FileHas-grow _ _ _ _ grows keeps.in_file;
}

-- The file of such a server is saved.
pub saving :
    {B : Type 0} {good : Bool} {d : Desk} {srv : Server B}
    → Keeps good d srv
    → d.table.next < max_int
    → Ensures
        (λ _ srv'.
          (file : Option (Text → Option Entry)) × Saves good d.table.entries d.file file
          × Keeps good (record d { file = file }) srv')
        (save_all srv)
saving {d = d} keeps room =
    save_all-Keeps keeps.implements room keeps.store d.file keeps.there keeps.steady keeps.in_file

module _ {B : Type 0} (be : RemoteBackend B) (quiet : IsQuiet be) {good : Bool} {d : Desk}
    {srv : Server B} (keeps : Keeps good d srv) where
  created-Served :
      (q : RuleRequest) (op : Op) (eff_id id : Text) (err : Option Error) (srv1 : Server B)
      → op_of (post_rule (some q)) ≡ some op
      → (apply op d.table).answer ≡ some eff_id
      → id ≡ eff_id
      → (apply op d.table).table.next < max_int
      → Implements (apply op d.table).table srv1.engine
      → srv1.rules ≡ srv.rules
      → Ensures (Served good (post_rule (some q)) d) (created be id err srv1)
  unfolding created
  created-Served q op eff_id id (some x) srv1 asks answers same room imp rules = returned _ _ (
    _,
    is_refused _ op d eff_id _ asks answers refl,
    lagging keeps rules imp (next-apply-grows op d.table),
  )
  created-Served q op eff_id id none srv1 asks answers same room imp rules =
      Ensures-bind _ (saving (lagging keeps rules imp (next-apply-grows op d.table)) room)
        (λ _ srv2 (file, saves, now). returned _ _ (
          _,
          succeeds _ op d eff_id _ asks answers
              (lookup id srv2.engine.rules, refl, rw same (now.implements.entries eff_id)) file
              saves,
          now,
        ))

  pub create_rule-Served :
      (q : Option RuleRequest)
      → d.table.next + 1 < max_int
      → Ensures (Served good (post_rule q) d) (create_rule be q srv)
  unfolding create_rule create_valid apply call
  create_rule-Served none room = returned _ _ (d, rejects _ d _ refl refl, keeps)
  create_rule-Served (some q) room =
      elim (Bool-cases (q.typ == codes "remote" && is_empty q.credential)) [
        | inl bad ↦ rw bad (returned _ _ (d, rejects _ d _ (rw bad refl) refl, keeps))
        | inr complete ↦
            let op = add_rule q.typ q.name q.listen q.target q.credential in
            rw complete (
              Ensures-bind {A = Text × Option Error} _
                (lift-Ensures srv (
                  Ensures-unbind _ (
                    add-Refines be quiet keeps.implements q.typ q.name q.listen q.target
                      q.credential (omega arith))))
                (λ out srv1 done.
                  let r = Ensures-pure done.0 in
                  created-Served q op (format d.table.next) out.0 out.1 srv1 (rw complete refl) refl
                    (some_inj r.answered) (omega arith) r.implements done.1))
      ]
