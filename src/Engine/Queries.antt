-- ===== src/Engine/Queries.antt =====
-- internal/engine/engine.go: the methods that call no backend: `UpdateRemoteStatus`, `Get`, `List`
-- and `Restart`.
use port_forwarder.Base.{
  ℕ, zero, suc, Bool, true, false, Option, none, some, List, [], ◌∷◌, ◌==◌, nat_eq, if◌then◌else◌,
}
use port_forwarder.Base.Int.{ℤ, pos, negsuc, max_int}
use port_forwarder.Base.Text.{Text, text_eq}
use port_forwarder.Base.Map.{Map, lookup}
use port_forwarder.Base.Prog.{returns, hangs, Prog, pure, gets, modify, ◌>>=◌, ◌>>◌}
use port_forwarder.Decimal.{format}
use port_forwarder.Engine.{
  running, error, Rule, rule_type_remote, Error, Report, Engine, lock, unlock, edit, put_status,
  report_error, start_locked, stop_locked,
}

abbrev pub is_remote : Rule → Bool
is_remote r = r.typ == rule_type_remote

abbrev pub is_empty : Text → Bool
is_empty [] = true
is_empty (c ∷ s) = false

-- What `UpdateRemoteStatus` assigns when the backend reports no error.
unfoldable pub put_report : Text → Rule → Rule
put_report actual r = record r {
  listen = if is_empty actual then r.listen else actual;
  status = running;
}

module _ {B : Type 0} where
  unfoldable pub report_rule : Text → Text → Option Error → Prog (Engine B) (Unit {0})
  report_rule id actual none = modify (edit id (put_report actual)) >> unlock
  report_rule id actual (some err) = do
    modify (edit id (put_status error))
    report_error id err
    unlock

  unfoldable pub report_found : Report → Option Rule → Prog (Engine B) (Unit {0})
  unfolding report_rule
  report_found rep none = unlock
  report_found rep (some r) = report_rule rep.id rep.listen rep.err

  unfoldable pub update_remote_status : Report → Prog (Engine B) (Unit {0})
  unfolding report_found put_report
  update_remote_status rep = do lock; r ← gets (λ e. lookup rep.id e.rules); report_found rep r

  unfoldable pub get : Text → Prog (Engine B) (Option Rule)
  get id = do lock; r ← gets (λ e. lookup id e.rules); unlock; pure r

module _ {B : Type 0} where
  -- The reports that a backend makes before its method returns, in order.
  unfoldable pub update_all : List Report → Prog (Engine B) (Unit {0})
  update_all [] = pure tt
  update_all (rep ∷ reps) = do update_remote_status rep; update_all reps

abbrev cons_found : Option Rule → List Rule → List Rule
cons_found none rest = rest
cons_found (some r) rest = r ∷ rest

-- The rules whose IDs are the numbers from `i` on, `k` of them.
unfoldable pub collect : ℕ → ℕ → Map Rule → List Rule
collect i zero m = []
collect i (suc k) m = cons_found (lookup (format i) m) (collect (suc i) k m)

-- `for i := 1; i <= e.nextID; i++`, which does not end at the largest int.
unfoldable pub list_upto : ℤ → Map Rule → Option (List Rule)
unfolding collect
list_upto (negsuc n) m = some []
list_upto (pos n) m = if n == max_int then none else some (collect 1 n m)

unfoldable pub or_hangs {ℓ} : {S A : Type ℓ} → Option A → Prog S A
or_hangs none s = hangs
or_hangs (some a) s = returns a s

module _ {B : Type 0} where
  unfoldable pub list : Prog (Engine B) (List Rule)
  unfolding list_upto or_hangs
  list = do
    lock
    out ← gets (λ e. list_upto e.next_id e.rules)
    rules ← or_hangs out
    unlock
    pure rules

  unfoldable pub restart_result : Rule → Option Error → Prog (Engine B) (Unit {0})
  restart_result r none = modify (edit r.id (put_status running))
  restart_result r (some x) = modify (edit r.id (put_status error)) >> report_error r.id x

  unfoldable pub restart_started : Rule → Prog (Engine B) (Unit {0})
  unfolding restart_result
  restart_started r = do err ← start_locked r; restart_result r err

  -- One round of the loop of `Restart`, for a rule that is found in the map.
  unfoldable pub restart_rule : Rule → Prog (Engine B) (Unit {0})
  restart_rule r = if is_remote r then pure tt else (stop_locked r.id >>= λ _. restart_started r)

module _ {B : Type 0} where
  unfoldable pub restart_loop : Map Rule → Prog (Engine B) (Unit {0})
  restart_loop [] = pure tt
  restart_loop ((k, r) ∷ m) = do restart_rule r; restart_loop m

  unfoldable pub restart : Prog (Engine B) (Unit {0})
  restart = do lock; m ← gets (λ e. e.rules); restart_loop m; unlock
