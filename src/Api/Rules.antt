-- ===== src/Api/Rules.antt =====
-- internal/api/api.go: what creating, changing and deleting a local rule answers, and what the file
-- then has.
use port_forwarder.Base.{
  ℕ, suc, ◌<◌, ◌≡◌, ◌≢◌, refl, ◌∙◌, ◌⊎◌, inl, inr, false, Option, none, some, arith,
}
use port_forwarder.Base.Int.{max_int}
use port_forwarder.Base.Text.{Text, text_eq}
use port_forwarder.Base.Map.{lookup}
use port_forwarder.Base.Prog.{Outcome, Ensures, returned, Ensures-bind}
use port_forwarder.Engine.{Rule, Error, RemoteBackend, Engine, rule_type_remote}
use port_forwarder.Engine.Queries.{is_remote}
use port_forwarder.Engine.Soundness.{Inv-held, IsSound}
use port_forwarder.Engine.Adding.{AddedLocal, made_rule, add_local}
use port_forwarder.Engine.Updating.{UpdatedLocal, update_local}
use port_forwarder.Engine.Removing.{Removed, remove_lem}
use port_forwarder.Engine.Reports.{IsQuiet}
use port_forwarder.Engine.Store.{Store}
use port_forwarder.Api.{
  RuleRequest, Response, Server, lift_outcome, created, create_valid, create_rule, deleted,
  delete_rule, updated, update_rule,
}
use port_forwarder.Api.Saving.{IsWorking, Persisted, save_all-Persisted}

module _ {B : Type 0} where
  -- A method of the engine, called by a handler.
  pub lift-Ensures :
      {A : Type 0} {P : A → Engine B → Type 0} {o : Outcome (Engine B) A} (srv : Server B)
      → Ensures P o
      → Ensures (λ a srv'. P a srv'.engine × (srv'.rules ≡ srv.rules)) (lift_outcome o srv)
  lift-Ensures srv (returned a e p) = returned a (record srv { engine = e }) (p, refl)

  pub IsSound-freed : {n : ℕ} {e : Engine B} → IsSound n e → IsSound n (record e { held = false })
  IsSound-freed s = record { free = refl; inv = Inv-held false s.inv }

  AddedLocal-freed :
      {n : ℕ} {r : Rule} {e e1 : Engine B} {err : Option Error}
      → AddedLocal n r e err e1
      → AddedLocal n r e err (record e1 { held = false })
  AddedLocal-freed a = record {
    sound = IsSound-freed a.sound;
    fresh = a.fresh;
    failed = a.failed;
    rules = a.rules;
    lns = a.lns;
    net = a.net;
    remote = a.remote;
  }

  Removed-freed :
      {be : RemoteBackend B} {n : ℕ} {id : Text} {r : Rule} {e e1 : Engine B}
      → Removed be n id r e e1
      → Removed be n id r e (record e1 { held = false })
  Removed-freed a = record {
    sound = IsSound-freed a.sound;
    rules = a.rules;
    lns = a.lns;
    net = a.net;
    remote = a.remote;
  }

-- The answer to the creation of a local rule: 201 and the file has all rules, the new one too, or
-- 409, and the file is as it was, though the engine has the new rule.
pub record Created {B : Type 0} (n : ℕ) (r : Rule) (srv : Server B) (resp : Response)
    (srv' : Server B) : Type 0 where
  pub err : Option Error
  pub added : AddedLocal n r srv.engine err srv'.engine
  pub answer :
      ((err ≡ none) × (resp.code ≡ 201) × Persisted srv'.engine srv'.rules)
      ⊎ ((err ≢ none) × (resp.code ≡ 409) × (srv'.rules ≡ srv.rules))

module _ {B : Type 0} (be : RemoteBackend B) (store : Store) (works : IsWorking store) where
  created_lem :
      {n : ℕ} {r : Rule} (srv srv1 : Server B) (id : Text) (err : Option Error)
      → suc n < max_int
      → srv.rules ≡ some store
      → srv1.rules ≡ srv.rules
      → AddedLocal n r srv.engine err srv1.engine
      → Ensures (λ resp srv'. Created n r srv resp srv') (created be id err srv1)
  unfolding created
  created_lem srv srv1 id (some x) room there same a =
      returned _ _ (record { err = some x; added = a; answer = inr (λ p. cc, refl, same) })
  created_lem srv srv1 id none room there same a =
      Ensures-bind _ (save_all-Persisted srv1 a.sound room store (same ∙ there) works)
        (λ _ srv2 done. returned _ _ (record {
          err = none;
          added = rw (done.0) (AddedLocal-freed a);
          answer = inl (refl, refl, done.1);
        }))

  -- POST of a local rule, with a sound engine whose counter `n` has room for two more IDs and a
  -- store whose disk takes what is written: the engine is as after `Add`. Without an error the
  -- answer is 201, and the file has exactly the engine's rules, the new one too, in the order of
  -- their IDs; with an error the answer is 409, and the store is as it was, though the engine
  -- keeps the new rule, shown as failed.
  pub create_rule_lem :
      {n : ℕ} (srv : Server B) (q : RuleRequest)
      → IsSound n srv.engine
      → suc n < max_int
      → srv.rules ≡ some store
      → is_remote (made_rule q.typ q.name q.listen q.target q.credential n) ≡ false
      → Ensures
          (λ resp srv'.
            Created n (made_rule q.typ q.name q.listen q.target q.credential n) srv resp srv')
          (create_rule be (some q) srv)
  unfolding create_rule create_valid rule_type_remote
  create_rule_lem {n} srv q sound room there is_local = rw is_local (
      Ensures-bind _
        (lift-Ensures srv
          (add_local be q.typ q.name q.listen q.target q.credential sound (omega arith) is_local))
        (λ out srv1 done. created_lem srv srv1 out.0 out.1 room there done.1 done.0.1))

  -- DELETE of a rule that a sound engine has, with the counter below the largest int, a quiet
  -- backend and a store whose disk takes what is written: the answer is 204, the engine is as
  -- after `Remove`, and the file has exactly the rules that the engine still has.
  delete_rule_lem :
      {n : ℕ} (srv : Server B) (id : Text) {r : Rule}
      → IsSound n srv.engine
      → n < max_int
      → srv.rules ≡ some store
      → IsQuiet be
      → lookup id srv.engine.rules ≡ some r
      → Ensures
          (λ resp srv'.
            (resp.code ≡ 204)
            × Removed be n id r srv.engine srv'.engine
            × Persisted srv'.engine srv'.rules)
          (delete_rule be id srv)
  unfolding delete_rule deleted
  delete_rule_lem srv id sound room there quiet found =
      Ensures-bind _ (lift-Ensures srv (remove_lem be sound id found quiet))
        (λ err srv1 ((ok, gone), same). rw ok (
          Ensures-bind _ (save_all-Persisted srv1 gone.sound room store (same ∙ there) works)
            (λ _ srv2 done. returned _ _ (refl, rw (done.0) (Removed-freed gone), done.1))))

-- The answer to a change of a local rule: 200 and the file has all rules as they are now, or 404,
-- and the file is as it was, though the engine has the changed rule.
pub record ChangedRule {B : Type 0} (n : ℕ) (id : Text) (q : RuleRequest) (r : Rule)
    (srv : Server B) (resp : Response) (srv' : Server B) : Type 0 where
  pub err : Option Error
  pub changed : UpdatedLocal n id q.name q.listen q.target r srv.engine err srv'.engine
  pub answer :
      ((err ≡ none) × (resp.code ≡ 200) × Persisted srv'.engine srv'.rules)
      ⊎ ((err ≢ none) × (resp.code ≡ 404) × (srv'.rules ≡ srv.rules))

UpdatedLocal-freed :
    {B : Type 0} {n : ℕ} {id name listen target : Text} {r : Rule} {e e1 : Engine B}
    {err : Option Error}
    → UpdatedLocal n id name listen target r e err e1
    → UpdatedLocal n id name listen target r e err (record e1 { held = false })
UpdatedLocal-freed a = record {
  sound = IsSound-freed a.sound;
  failed = a.failed;
  rules = a.rules;
  lns = a.lns;
  net = a.net;
  remote = a.remote;
}

module _ {B : Type 0} (be : RemoteBackend B) (store : Store) (works : IsWorking store) where
  updated_lem :
      {n : ℕ} {r : Rule} (srv srv1 : Server B) (id : Text) (q : RuleRequest) (err : Option Error)
      → n < max_int
      → srv.rules ≡ some store
      → srv1.rules ≡ srv.rules
      → UpdatedLocal n id q.name q.listen q.target r srv.engine err srv1.engine
      → Ensures (λ resp srv'. ChangedRule n id q r srv resp srv') (updated be id err srv1)
  unfolding updated
  updated_lem srv srv1 id q (some x) room there same a =
      returned _ _ (record { err = some x; changed = a; answer = inr (λ p. cc, refl, same) })
  updated_lem srv srv1 id q none room there same a =
      Ensures-bind _ (save_all-Persisted srv1 a.sound room store (same ∙ there) works)
        (λ _ srv2 done. returned _ _ (record {
          err = none;
          changed = rw (done.0) (UpdatedLocal-freed a);
          answer = inl (refl, refl, done.1);
        }))

  -- PUT of a local rule that a sound engine has, with the counter below the largest int and a
  -- store whose disk takes what is written: the engine is as after `Update`. Without an error the
  -- answer is 200, and the file has exactly the engine's rules; with an error the answer is 404,
  -- and the store is as it was, though the rule is changed in the engine.
  pub update_rule_lem :
      {n : ℕ} (srv : Server B) (id : Text) (q : RuleRequest) {r : Rule}
      → IsSound n srv.engine
      → n < max_int
      → srv.rules ≡ some store
      → lookup id srv.engine.rules ≡ some r
      → is_remote r ≡ false
      → Ensures (λ resp srv'. ChangedRule n id q r srv resp srv') (update_rule be id (some q) srv)
  unfolding update_rule
  update_rule_lem srv id q sound room there found is_local =
      Ensures-bind _
        (lift-Ensures srv
          (update_local be q.name q.listen q.target q.credential sound id found is_local))
        (λ out srv1 done. updated_lem srv srv1 id q out.1 room there done.1 done.0.1)
