-- ===== src/Engine/Methods.antt =====
-- internal/engine/engine.go: `Add`, `Remove`, `Update` and `Restore`, over any backend.
use port_forwarder.Base.{Option, none, some, List, [], ◌∷◌, nat_eq, if◌then◌else◌}
use port_forwarder.Base.Int.{ℤ, inc, geb}
use port_forwarder.Base.Text.{Text, text_eq}
use port_forwarder.Base.Map.{lookup, insert, erase}
use port_forwarder.Base.Prog.{returns, panics, Prog, pure, gets, modify, ◌>>=◌, ◌>>◌}
use port_forwarder.Decimal.{format_int, atoi}
use port_forwarder.Engine.{
  unset, pending, running, error, Rule, Error, rule_not_found, no_backend, RemoteBackend, Engine,
  lock, unlock, edit, put_status, set_status, start_locked, stop_locked,
}
use port_forwarder.Engine.Queries.{is_remote, update_all}

-- The fields that `Update` assigns.
unfoldable pub put_remote : Text → Text → Text → Text → Rule → Rule
put_remote name listen target credential r = record r {
  name = name;
  listen = listen;
  target = target;
  credential = credential;
  status = pending;
}

unfoldable pub put_local : Text → Text → Text → Rule → Rule
put_local name listen target r = record r {
  name = name;
  listen = listen;
  target = target;
  status = running;
}

-- `if n, err := strconv.Atoi(r.ID); err == nil && n >= e.nextID { e.nextID = n + 1 }`
unfoldable pub bump : Option ℤ → ℤ → ℤ
bump none next = next
bump (some n) next = if geb n next then inc n else next

module _ {B : Type 0} where
  -- The listener is started without the mutex, as in the source.
  unfoldable pub add_local_rule : Rule → Prog (Engine B) (Option Error)
  add_local_rule r = do
    err ← start_locked r
    elim err [ none ↦ pure none | some x ↦ modify (edit r.id (put_status error)) >> pure (some x) ]

  -- The first part of `Add`: the ID is read before the mutex is taken.
  unfoldable pub next_rule : Text → Text → Text → Text → Text → Prog (Engine B) Rule
  next_rule typ name listen target credential e =
      returns
        (record {
          id = format_int e.next_id;
          typ = typ;
          name = name;
          listen = listen;
          target = target;
          status = running;
          credential = credential;
        })
        e

  -- The second part: the counter moves, and the map takes the rule.
  unfoldable pub record_rule : Rule → Prog (Engine B) (Unit {0})
  record_rule r = do
    lock
    modify (λ e. record e { next_id = inc e.next_id; rules = insert r.id r e.rules })
    unlock

  unfoldable pub restore_local : Rule → Prog (Engine B) (Unit {0})
  restore_local r = do
    lock
    err ← start_locked r
    elim err [ none ↦ unlock | some x ↦ modify (edit r.id (put_status error)) >> unlock ]

module _ {B : Type 0} (be : RemoteBackend B) where
  -- A call of a backend's method, and the calls that it makes back.
  unfoldable pub add_to : Rule → Option B → Prog (Engine B) (Unit {0})
  add_to r none = pure tt
  add_to r (some b) =
      let (b', reports) = be.add_remote r b in
      modify (λ e. record e { remote = some b' }) >> update_all reports

  unfoldable pub remove_from : Text → Option B → Prog (Engine B) (Unit {0})
  remove_from id none = pure tt
  remove_from id (some b) =
      let (b', reports) = be.remove_remote id b in
      modify (λ e. record e { remote = some b' }) >> update_all reports

  unfoldable pub call_add : Rule → Prog (Engine B) (Unit {0})
  unfolding add_to
  call_add r = do b ← gets (λ e. e.remote); add_to r b

  unfoldable pub call_remove : Text → Prog (Engine B) (Unit {0})
  unfolding remove_from
  call_remove id = do b ← gets (λ e. e.remote); remove_from id b

  -- `Add` of a remote rule, once it is in the map; the backend gets the rule as it is then.
  unfoldable pub add_remote_rule : Rule → Prog (Engine B) (Option Error)
  add_remote_rule r = do
    lock
    b ← gets (λ e. e.remote)
    unlock
    elim b [
      | none ↦ set_status r.id error >> pure (some no_backend)
      | some _ ↦ do set_status r.id pending; call_add (put_status pending r); pure none
    ]

  unfoldable pub start_rule : Rule → Prog (Engine B) (Option Error)
  unfolding add_remote_rule add_local_rule
  start_rule r = if is_remote r then add_remote_rule r else add_local_rule r

  -- `Add` returns a pointer to the new rule, which is named by its ID, and an error or nil.
  unfoldable pub add : Text → Text → Text → Text → Text → Prog (Engine B) (Text × Option Error)
  add typ name listen target credential = do
    r ← next_rule typ name listen target credential
    record_rule r
    err ← start_rule r
    pure (r.id, err)

  unfoldable pub remove_found : Text → Option Rule → Prog (Engine B) (Option Error)
  remove_found id none = unlock >> pure (some rule_not_found)
  remove_found id (some r) = do
    (if is_remote r then call_remove id else stop_locked r.id)
    modify (λ e. record e { rules = erase id e.rules })
    unlock
    pure none

  unfoldable pub remove : Text → Prog (Engine B) (Option Error)
  unfolding remove_found
  remove id = do lock; r ← gets (λ e. lookup id e.rules); remove_found id r

  -- `remote.AddRemote(*r)` after `remote.RemoveRemote(id)`: the rule is read when it is passed.
  unfoldable pub re_add : Option Rule → Prog (Engine B) (Unit {0})
  re_add none = pure tt
  re_add (some r) = call_add r

  unfoldable pub update_remote_rule :
      Text → Text → Text → Text → Text → Prog (Engine B) (Option Error)
  unfolding re_add
  update_remote_rule id name listen target credential = do
    modify (edit id (put_remote name listen target credential))
    unlock
    call_remove id
    r ← gets (λ e. lookup id e.rules)
    re_add r
    pure none

  unfoldable pub update_local_rule :
      Text → Text → Text → Text → Rule → Prog (Engine B) (Option Error)
  update_local_rule id name listen target r = do
    stop_locked r.id
    modify (edit id (put_local name listen target))
    err ← start_locked (put_local name listen target r)
    elim err [
      | none ↦ unlock >> pure none
      | some x ↦ do modify (edit id (put_status error)); unlock; pure (some x)
    ]

  unfoldable pub update_found :
      Text → Text → Text → Text → Text → Option Rule → Prog (Engine B) (Option Text × Option Error)
  unfolding update_remote_rule update_local_rule
  update_found id name listen target credential none = unlock >> pure (none, some rule_not_found)
  update_found id name listen target credential (some r) = do
    err ←
        (if is_remote r
          then update_remote_rule id name listen target credential
          else update_local_rule id name listen target r)
    pure (some id, err)

  -- `Update` returns nil or a pointer to the rule, and an error or nil.
  unfoldable pub update :
      Text → Text → Text → Text → Text → Prog (Engine B) (Option Text × Option Error)
  unfolding update_found
  update id name listen target credential = do
    lock
    r ← gets (λ e. lookup id e.rules)
    update_found id name listen target credential r

  unfoldable pub restore_remote : Rule → Prog (Engine B) (Unit {0})
  restore_remote r = do
    lock
    b ← gets (λ e. e.remote)
    unlock
    elim b [
      | none ↦ set_status r.id error
      | some _ ↦ set_status r.id pending >> call_add (put_status pending r)
    ]

  -- The copy that `Restore` keeps has no status.
  unfoldable pub restore_rule : Rule → Prog (Engine B) (Unit {0})
  unfolding bump restore_remote restore_local
  restore_rule r = do
    let r2 = put_status unset r
    lock
    modify (λ e. record e { next_id = bump (atoi r.id) e.next_id; rules = insert r.id r2 e.rules })
    unlock
    if is_remote r then restore_remote r2 else restore_local r2

  -- A nil pointer in the list, as `null` in the file gives, panics.
  unfoldable pub restore : List (Option Rule) → Prog (Engine B) (Unit {0})
  restore [] e = returns tt e
  restore (none ∷ rs) e = panics
  restore (some r ∷ rs) e = (restore_rule r >>= λ _. restore rs) e
