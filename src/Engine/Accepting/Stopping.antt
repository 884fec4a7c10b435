-- ===== src/Engine/Accepting/Stopping.antt =====
-- internal/engine/engine.go: the accept loop of a rule that is stopped.
use port_forwarder.Base.{
  ℕ, suc, ◌<◌, ◌≡◌, refl, sym, ◌∙◌, ap, ◌⊎◌, inl, inr, true, false, some, ◌∷◌, contains, arith,
  nat_eq,
}
use port_forwarder.Base.Text.{text_eq}
use port_forwarder.Base.Map.{lookup, erase}
use port_forwarder.Base.Prog.{returns}
use port_forwarder.Net
use port_forwarder.Net.{is_open}
use port_forwarder.Net.Laws.{is_open-close, calls-close}
use port_forwarder.Engine.{stopped, put_status, Loop, Engine, edit, stop_locked}
use port_forwarder.Engine.Steps.{stop_present}
use port_forwarder.Engine.Soundness.{Inv}
use port_forwarder.Engine.Accepting.{
  accepting, over, Worker, Step, accepts, times_out, sees_stop, fails, reports, Later, Run, here,
  own, elsewhere,
}

-- The loop's listener and its channel are closed.
pub record Halted (l : Loop) {B : Type 0} (e : Engine B) : Type 0 where
  pub made : l.ln.handle < e.net.calls
  pub channel : contains e.closed l.stop_ch ≡ true
  pub listener : is_open l.ln.handle e.net.open_lns ≡ false

returns_inj : {S A : Type 0} {a b : A} {s t : S} → returns a s ≡ returns b t → s ≡ t
returns_inj e = grind arith

-- Where the loop is after that many steps of its own: still in `Accept`, from where it can return,
-- or behind its return. It
-- has handed over no connection and has reported nothing.
pub record Ending (l : Loop) (n : ℕ) {B : Type 0} (u w : Worker B) : Type 0 where
  pub phase :
      ((n ≡ 0) × (w.phase ≡ accepting) × Step l w (record w { phase = over }))
      ⊎ ((n ≡ 1) × (w.phase ≡ over))
  pub handed : w.handed ≡ u.handed
  pub reports : w.reports ≡ u.reports

module _ {B : Type 0} {l : Loop} where
  Halted-Later : {e e' : Engine B} → Halted l e → Later e e' → Halted l e'
  Halted-Later h t = record {
    made = t.calls h.made;
    channel = t.closed l.stop_ch h.channel;
    listener = t.lns l.ln.handle h.made h.listener;
  }

  Halted-Step :
      {u v : Worker B}
      → Halted l u.engine
      → u.phase ≡ accepting
      → Step l u v
      → (v.phase ≡ over) × (v.handed ≡ u.handed) × (v.reports ≡ u.reports)
  Halted-Step h at (accepts conn w is opened) = absurd (ground (arith, h.listener))
  Halted-Step h at (times_out w is opened fresh) = absurd (ground (arith, h.listener))
  Halted-Step h at (sees_stop w is closed) = (refl, refl, refl)
  Halted-Step h at (fails w is fresh) = absurd (ground (arith, h.channel))
  Halted-Step h at (reports w e is done) = absurd (grind arith)

  over-Step : {u v : Worker B} → u.phase ≡ over → Step l u v → ⊥
  over-Step at (accepts conn w is opened) = grind arith
  over-Step at (times_out w is opened fresh) = grind arith
  over-Step at (sees_stop w is closed) = grind arith
  over-Step at (fails w is fresh) = grind arith
  over-Step at (reports w e is done) = grind arith

  run-over :
      {n : ℕ} {u w : Worker B}
      → u.phase ≡ over
      → Run l n u w
      → (n ≡ 0) × (w.phase ≡ over) × (w.handed ≡ u.handed) × (w.reports ≡ u.reports)
  run-over at (here w) = (refl, at, refl, refl)
  run-over at (own step rest) = absurd (over-Step at step)
  run-over at (elsewhere u e t rest) = run-over at rest

  run-Halted :
      {n : ℕ} {u w : Worker B}
      → Halted l u.engine
      → u.phase ≡ accepting
      → Run l n u w
      → Ending l n u w
  run-Halted h at (here w) = record {
    phase = inl (refl, at, sees_stop w at h.channel);
    handed = refl;
    reports = refl;
  }
  run-Halted h at (own step rest) =
      let (gone, handed, reported) = Halted-Step h at step in
      let (count, last, same, still) = run-over gone rest in
      record {
        phase = inr (ap suc count, last);
        handed = same ∙ handed;
        reports = still ∙ reported;
      }
  run-Halted h at (elsewhere u e t rest) =
      let end = run-Halted (Halted-Later h t) at rest in
      record { phase = end.phase; handed = end.handed; reports = end.reports }

module _ {B : Type 0} {n : ℕ} {e : Engine B} (s : Inv n e) (l : Loop)
    (at : lookup l.rule e.lns ≡ some l.ln) where
  closed-Halted : Halted l (
      edit l.rule (put_status stopped) (record e {
        net = Net.close l.ln e.net;
        closed = l.stop_ch ∷ e.closed;
        lns = erase l.rule e.lns;
        stop = erase l.rule e.stop;
      }))
  unfolding edit
  closed-Halted = record {
    made = omega (arith, calls-close l.ln e.net, s.sockets.handle_small l.rule l.ln at);
    channel = ground arith;
    listener = is_open-close l.ln l.ln.handle e.net ∙ ground arith;
  }

  stop-Halted :
      {e' : Engine B}
      → lookup l.rule e.stop ≡ some l.stop_ch
      → stop_locked l.rule e ≡ returns tt e'
      → Halted l e'
  stop-Halted {e'} ch done =
      let (c, has, fresh) = s.sockets.stop_of l.rule l.ln at in
      let mine : l.stop_ch ≡ c = grind (arith, has, ch) in
      let same : returns tt e' ≡ _ =
        sym done
        ∙ stop_present e l.rule l.ln l.stop_ch at ch (ap (contains e.closed) mine ∙ fresh) in
      rw (returns_inj same) closed-Halted

-- The accept loop of a rule that `stopLocked` stops, with the rule's listener and channel: whatever
-- other goroutines do after `stopLocked` has returned, as long as no closed channel and no closed
-- listener opens again, a loop that is in `Accept` by then hands over no connection and reports
-- nothing any more; the first step that it makes is its return, and it can make it at any time.
pub stop-run :
    {B : Type 0} {n m : ℕ} {e : Engine B} {u w : Worker B} (l : Loop)
    → Inv n e
    → lookup l.rule e.lns ≡ some l.ln
    → lookup l.rule e.stop ≡ some l.stop_ch
    → stop_locked l.rule e ≡ returns tt u.engine
    → u.phase ≡ accepting
    → Run l m u w
    → Ending l m u w
stop-run l s at ch done is run = run-Halted (stop-Halted s l at ch done) is run
