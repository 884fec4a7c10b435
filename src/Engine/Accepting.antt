-- ===== src/Engine/Accepting.antt =====
-- internal/engine/engine.go: `acceptLoop`, and `handleConn` of a connection that it has accepted.
-- The loop is a relation between states, as it runs beside the methods of the engine.
pub mod Stopping
use port_forwarder.Base.{
  ℕ, zero, suc, ◌<◌, ◌≡◌, Bool, true, false, Option, none, some, List, [], ◌∷◌, contains, nat_eq,
}
use port_forwarder.Base.Text.{Text}
use port_forwarder.Base.Prog.{Outcome, returns, Prog, pure, ◌>>=◌, ◌>>◌}
use port_forwarder.Net.{is_open}
use port_forwarder.Engine.{Loop, Error, accept_failed, dial_failed, Rule, Engine, report_error}

-- In `Accept`; before the lock of `reportError`; behind the return.
pub data Phase : Type 0 where
  accepting reporting over : Phase

-- `handed` are the connections given to `handleConn`, the last one first, and `reports` counts the
-- calls of `reportError` that have returned.
pub record Worker (B : Type 0) : Type 0 where
  pub engine : Engine B
  pub phase : Phase
  pub handed : List ℕ
  pub reports : ℕ

-- What `handleConn` did when it returned: the connections that it relayed, if it did, and those it
-- closed, in their order.
pub record Handled : Type 0 where
  pub relayed : Option (ℕ × ℕ)
  pub closed : List ℕ

module _ {B : Type 0} where
  -- `Accept` gives connections while the listener is open, and may fail at any time; a time-out is a
  -- failure too.
  pub data Step (l : Loop) : Worker B → Worker B → Type 0 where
    accepts :
        (conn : ℕ) (w : Worker B)
        → w.phase ≡ accepting
        → is_open l.ln.handle w.engine.net.open_lns ≡ true
        → Step l w (record w { handed = conn ∷ w.handed })
    times_out :
        (w : Worker B)
        → w.phase ≡ accepting
        → is_open l.ln.handle w.engine.net.open_lns ≡ true
        → contains w.engine.closed l.stop_ch ≡ false
        → Step l w w
    sees_stop :
        (w : Worker B)
        → w.phase ≡ accepting
        → contains w.engine.closed l.stop_ch ≡ true
        → Step l w (record w { phase = over })
    fails :
        (w : Worker B)
        → w.phase ≡ accepting
        → contains w.engine.closed l.stop_ch ≡ false
        → Step l w (record w { phase = reporting })
    reports :
        (w : Worker B) (e : Engine B)
        → w.phase ≡ reporting
        → report_error l.rule accept_failed w.engine ≡ returns tt e
        → Step l w (record w { engine = e; phase = over; reports = suc w.reports })

  -- What other goroutines may do meanwhile: a closed channel stays closed, and a listener that was
  -- made and closed stays closed.
  pub record Later (e e' : Engine B) : Type 0 where
    pub calls : {h : ℕ} → h < e.net.calls → h < e'.net.calls
    pub closed : (c : ℕ) → contains e.closed c ≡ true → contains e'.closed c ≡ true
    pub lns :
        (h : ℕ)
        → h < e.net.calls
        → is_open h e.net.open_lns ≡ false
        → is_open h e'.net.open_lns ≡ false

  -- A run in which the loop makes that many steps.
  pub data Run (l : Loop) : ℕ → Worker B → Worker B → Type 0 where
    here : (w : Worker B) → Run l zero w w
    own : {n : ℕ} {u v w : Worker B} → Step l u v → Run l n v w → Run l (suc n) u w
    elsewhere :
        {n : ℕ} {w : Worker B} (u : Worker B) (e : Engine B)
        → Later u.engine e
        → Run l n (record u { engine = e }) w
        → Run l n u w

  abbrev pub handle_dialled : Rule → ℕ → Option ℕ → Prog (Engine B) Handled
  handle_dialled r client none = do
    report_error r.id (dial_failed r.target)
    pure (record { relayed = none; closed = client ∷ [] })
  handle_dialled r client (some upstream) =
      pure (record { relayed = some (client, upstream); closed = upstream ∷ client ∷ [] })

  -- `handleConn`, when `dial` is what `net.DialTimeout` answers for an address.
  unfoldable pub handle_conn : (Text → Option ℕ) → Rule → ℕ → Prog (Engine B) Handled
  handle_conn dial r client = handle_dialled r client (dial r.target)
