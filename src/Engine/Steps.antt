-- ===== src/Engine/Steps.antt =====
-- internal/engine/engine.go: what the small operations return, in each case.
use port_forwarder.Base.{
  ℕ, suc, ◌≡◌, refl, true, false, Option, none, some, ◌∷◌, arith, ◌==◌, nat_eq, contains,
  if◌then◌else◌, Option-cases, inl, inr,
}
use port_forwarder.Base.Text.{Text, text_eq}
use port_forwarder.Base.Map.{Map, lookup, insert, erase, lookup-insert}
use port_forwarder.Base.Prog.{returns, hangs}
use port_forwarder.Net
use port_forwarder.Net.{Listener}
use port_forwarder.Engine.{
  stopped, Rule, Error, listen_failed, Engine, lock, unlock, edit_found, edit, put_status,
  report_error, start_locked, stop_locked,
}

abbrev pub map_option : (Rule → Rule) → Option Rule → Option Rule
map_option f none = none
map_option f (some r) = some (f r)

lookup-edit_found :
    (k id : Text) (f : Rule → Rule) (m : Map Rule)
    → lookup k (edit_found id f (lookup id m) m)
      ≡ (if k == id then map_option f (lookup id m) else lookup k m)
unfolding edit_found
lookup-edit_found k id f m = elim (Option-cases (lookup id m)) [
  | inl absent ↦ rw absent (ground (arith, absent))
  | inr (r, found) ↦ rw found (lookup-insert k id (f r) m)
]

module _ {B : Type 0} (e : Engine B) where
  pub lookup-edit :
      (k id : Text) (f : Rule → Rule)
      → lookup k (edit id f e).rules
        ≡ (if k == id then map_option f (lookup id e.rules) else lookup k e.rules)
  unfolding edit
  lookup-edit k id f = lookup-edit_found k id f e.rules

  -- An edit of a rule does not touch the mutex.
  pub held-edit : (id : Text) (f : Rule → Rule) → (edit id f e).held ≡ e.held
  unfolding edit
  held-edit id f = refl

  pub lock_free : e.held ≡ false → lock e ≡ returns tt (record e { held = true })
  unfolding lock
  lock_free h = ground arith

  pub unlock_held : e.held ≡ true → unlock e ≡ returns tt (record e { held = false })
  unfolding unlock
  unlock_held h = ground arith

  -- A goroutine that holds the mutex never gets past `reportError`.
  pub report_error_held : (id : Text) (x : Error) → e.held ≡ true → report_error id x e ≡ hangs
  unfolding report_error
  report_error_held id x h = ground arith

  pub start_refused :
      (r : Rule)
      → (Net.listen r.listen e.net).0 ≡ none
      → start_locked r e
        ≡ returns (some (listen_failed r.listen)) (record e { net = (Net.listen r.listen e.net).1 })
  unfolding start_locked
  start_refused r h = ground arith

  pub start_accepted :
      (r : Rule) (ln : Listener)
      → (Net.listen r.listen e.net).0 ≡ some ln
      → start_locked r e
        ≡ returns none (record e {
          net = (Net.listen r.listen e.net).1;
          lns = insert r.id ln e.lns;
          stop = insert r.id e.made e.stop;
          made = suc e.made;
          loops = record { rule = r.id; ln = ln; stop_ch = e.made } ∷ e.loops;
        })
  unfolding start_locked
  start_accepted r ln h = ground arith

  pub stop_absent : (id : Text) → lookup id e.lns ≡ none → stop_locked id e ≡ returns tt e
  unfolding stop_locked
  stop_absent id h = ground arith

  pub stop_present :
      (id : Text) (ln : Listener) (c : ℕ)
      → lookup id e.lns ≡ some ln
      → lookup id e.stop ≡ some c
      → contains e.closed c ≡ false
      → stop_locked id e
        ≡ returns tt (
            edit id (put_status stopped) (record e {
              net = Net.close ln e.net;
              closed = c ∷ e.closed;
              lns = erase id e.lns;
              stop = erase id e.stop;
            }))
  unfolding stop_locked
  stop_present id ln c at ch fresh = ground arith
