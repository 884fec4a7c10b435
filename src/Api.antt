-- ===== src/Api.antt =====
-- internal/api/api.go: the handlers of the rules. A request comes with what the decoder made of its
-- body, `none` if that is no valid JSON; a response is the status code and what is written as JSON.
pub mod Saving
pub mod Rules
pub mod Credentials
pub mod Vault
pub mod Requests
pub mod Contract
use port_forwarder.Base.{
  ℕ, Bool, true, false, ◌&&◌, Option, none, some, List, [], ◌∷◌, ◌==◌, nat_eq, if◌then◌else◌,
}
use port_forwarder.Base.Text.{Text, codes, text_eq}
use port_forwarder.Base.Map.{lookup}
use port_forwarder.Base.Prog.{
  Outcome, returns, panics, hangs, Prog, pure, gets, modify, ◌>>=◌, ◌>>◌,
}
use port_forwarder.Engine.{Rule, Error, RemoteBackend, Engine}
use port_forwarder.Engine.Queries.{is_empty, is_remote, list, restart}
use port_forwarder.Engine.Methods.{add, remove, update}
use port_forwarder.Engine.Store.{Store, save_rules}

pub record RuleRequest : Type 0 where
  pub typ : Text
  pub name : Text
  pub listen : Text
  pub target : Text
  pub credential : Text

pub data Body : Type 0 where
  no_body : Body
  message : Text → Body
  failure : Error → Body
  one_rule : Option Rule → Body
  all_rules : List Rule → Body

pub record Response : Type 0 where
  pub code : ℕ
  pub body : Body

-- The server, with the engine and the store of rules that it points to.
pub record Server (B : Type 0) : Type 0 where
  pub engine : Engine B
  pub rules : Option Store

abbrev pub response : ℕ → Body → Response
response c b = record { code = c; body = b }

module _ {B : Type 0} where
  -- `New`. The manager, which is `s.creds`, is the engine's backend.
  abbrev pub api_server : Engine B → Server B
  api_server e = record { engine = e; rules = none }

  -- `SetRuleStore`; nil is none.
  abbrev pub set_rule_store : Option Store → Server B → Server B
  set_rule_store store s = record s { rules = store }

  abbrev pub lift_outcome : {A : Type 0} → Outcome (Engine B) A → Server B → Outcome (Server B) A
  lift_outcome (returns a e) s = returns a (record s { engine = e })
  lift_outcome panics s = panics
  lift_outcome hangs s = hangs

  -- A call of a method of `s.eng`.
  abbrev pub on_engine : {A : Type 0} → Prog (Engine B) A → Prog (Server B) A
  on_engine p s = lift_outcome (p s.engine) s

  unfoldable pub save_in_store : Option Store → Prog (Server B) (Unit {0})
  save_in_store none = pure tt
  save_in_store (some store) = do
    out ← on_engine list
    modify (λ s. record s { rules = some (save_rules out store).1 })

  -- `saveRules`: the error is ignored.
  unfoldable pub save_all : Prog (Server B) (Unit {0})
  unfolding save_in_store
  save_all = do store ← gets (λ s. s.rules); save_in_store store

  -- `writeJSON` of a pointer to a rule.
  abbrev pub write_rule : ℕ → Text → Prog (Server B) Response
  write_rule c id = gets (λ s. response c (one_rule (lookup id s.engine.rules)))

  unfoldable pub list_rules : Prog (Server B) Response
  list_rules = do out ← on_engine list; pure (response 200 (all_rules out))

  unfoldable pub restart_rule : Prog (Server B) Response
  restart_rule = do on_engine restart; out ← on_engine list; pure (response 200 (all_rules out))

-- `rule.Type == engine.RuleTypeRemote && rule.Credential == id`
abbrev pub uses : Text → Rule → Bool
uses id r = is_remote r && r.credential == id

module _ {B : Type 0} (be : RemoteBackend B) where
  unfoldable pub created : Text → Option Error → Prog (Server B) Response
  created id none = do save_all; write_rule 201 id
  created id (some x) = pure (response 409 (failure x))

  unfoldable pub create_valid : RuleRequest → Prog (Server B) Response
  unfolding created
  create_valid q = do
    out ← on_engine (add be q.typ q.name q.listen q.target q.credential)
    created out.0 out.1

  unfoldable pub create_rule : Option RuleRequest → Prog (Server B) Response
  unfolding create_valid
  create_rule none = pure (response 400 (message (codes "invalid JSON body")))
  create_rule (some q) =
      if q.typ == codes "remote" && is_empty q.credential
      then pure (response 400 (message (codes "remote rules need a credential")))
      else create_valid q

  unfoldable pub deleted : Option Error → Prog (Server B) Response
  deleted none = do save_all; pure (response 204 no_body)
  deleted (some x) = pure (response 404 (failure x))

  unfoldable pub delete_rule : Text → Prog (Server B) Response
  unfolding deleted
  delete_rule id = do err ← on_engine (remove be id); deleted err

  unfoldable pub updated : Text → Option Error → Prog (Server B) Response
  updated id none = do save_all; write_rule 200 id
  updated id (some x) = pure (response 404 (failure x))

  unfoldable pub update_rule : Text → Option RuleRequest → Prog (Server B) Response
  unfolding updated
  update_rule id none = pure (response 400 (message (codes "invalid JSON body")))
  update_rule id (some q) = do
    out ← on_engine (update be id q.name q.listen q.target q.credential)
    updated id out.1

  unfoldable pub remove_user : Text → Rule → Prog (Server B) (Unit {0})
  remove_user id r = if uses id r then (on_engine (remove be r.id) >>= λ _. pure tt) else pure tt

  unfoldable pub remove_users : Text → List Rule → Prog (Server B) (Unit {0})
  unfolding remove_user
  remove_users id [] = pure tt
  remove_users id (r ∷ rs) = do remove_user id r; remove_users id rs

  -- `deleteCredential` up to the call of `RemoveCredential`.
  unfoldable pub stop_users : Text → Prog (Server B) (Unit {0})
  unfolding remove_users
  stop_users id = do out ← on_engine list; remove_users id out
