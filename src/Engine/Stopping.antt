-- ===== src/Engine/Stopping.antt =====
-- internal/engine/engine.go: what `stopLocked` does to a sound engine.
use port_forwarder.Base.{
  ℕ, ◌≡◌, ◌≢◌, refl, ◌⊎◌, false, Bool, Option, none, some, ◌∷◌, arith, ◌==◌, nat_eq, if◌then◌else◌,
  Option-cases, inl, inr,
}
use port_forwarder.Base.Text.{Text, text_eq}
use port_forwarder.Base.Map.{lookup, erase, lookup-erase}
use port_forwarder.Base.Prog.{Ensures, returned}
use port_forwarder.Net
use port_forwarder.Net.{Net, Listener}
use port_forwarder.Engine.{stopped, Rule, Engine, edit, put_status, stop_locked}
use port_forwarder.Engine.Queries.{is_remote}
use port_forwarder.Engine.Steps.{lookup-edit, stop_absent, stop_present}
use port_forwarder.Engine.Soundness.{Inv, InvBut-of_Inv, InvBut-closed, Inv-edit}

-- The network without the listener that stood under an ID.
abbrev pub net_without : Option Listener → Net → Net
net_without none net = net
net_without (some ln) net = Net.close ln net

-- `e'` is `e` with the listener of `id` closed and forgotten; the rule, if it had a listener, is
-- shown as stopped.
pub record Stopped (id : Text) (r : Rule) {B : Type 0} (e e' : Engine B) : Type 0 where
  pub mine : (r' : Rule) × (lookup id e'.rules ≡ some r') × ((r' ≡ r) ⊎ (r' ≡ put_status stopped r))
  pub others : (k : Text) → k ≢ id → lookup k e'.rules ≡ lookup k e.rules
  pub lns : (k : Text) → lookup k e'.lns ≡ (if k == id then none else lookup k e.lns)
  pub net : e'.net ≡ net_without (lookup id e.lns) e.net
  pub next_id : e'.next_id ≡ e.next_id
  pub remote : e'.remote ≡ e.remote

-- The mutex does not matter.
pub Stopped-held :
    {id : Text} {r : Rule} {B : Type 0} {e e' : Engine B} (b : Bool)
    → Stopped id r (record e { held = b }) e'
    → Stopped id r e e'
Stopped-held b st = record {
  mine = st.mine;
  others = st.others;
  lns = st.lns;
  net = st.net;
  next_id = st.next_id;
  remote = st.remote;
}

module _ {B : Type 0} {n : ℕ} {e : Engine B} (s : Inv n e) (id : Text) {r : Rule}
    (found : lookup id e.rules ≡ some r) where
  Stopped-absent : lookup id e.lns ≡ none → Stopped id r e e
  Stopped-absent absent = record {
    mine = (r, found, inl refl);
    others = λ k h. refl;
    lns = λ k. ground arith;
    net = rw absent;
    next_id = refl;
    remote = refl;
  }

  module _ (ln : Listener) (c : ℕ) (at : lookup id e.lns ≡ some ln)
      (ch : lookup id e.stop ≡ some c) where
    abbrev closed_engine : Engine B
    closed_engine = record e {
      net = Net.close ln e.net;
      closed = c ∷ e.closed;
      lns = erase id e.lns;
      stop = erase id e.stop;
    }

    stopped_present : Stopped id r e (edit id (put_status stopped) closed_engine)
    unfolding edit
    stopped_present = record {
      mine = (
        put_status stopped r,
        ground (arith, lookup-edit closed_engine id id (put_status stopped)),
        inr refl,
      );
      others = λ k h. ground (arith, lookup-edit closed_engine k id (put_status stopped));
      lns = λ k. lookup-erase k id e.lns;
      net = rw at;
      next_id = refl;
      remote = refl;
    }

    Inv-closed : is_remote r ≡ false → Inv n (edit id (put_status stopped) closed_engine)
    unfolding put_status
    Inv-closed is_local =
        Inv-edit (InvBut-closed (InvBut-of_Inv id s) ln c at ch) (put_status stopped) found refl
          (rw (lookup-erase id id e.lns) (ground arith))

  -- `stopLocked` of a local rule returns: it closes a channel that is there and open.
  pub stop_locked-Stopped :
      is_remote r ≡ false
      → Ensures (λ _ e'. Stopped id r e e' × Inv n e' × (e'.held ≡ e.held)) (stop_locked id e)
  stop_locked-Stopped is_local = elim (Option-cases (lookup id e.lns)) [
    | inl absent ↦ rw (stop_absent e id absent) (returned tt e (Stopped-absent absent, s, refl))
    | inr (ln, at) ↦
        let (c, ch, fresh) = s.sockets.stop_of id ln at in
        rw (stop_present e id ln c at ch fresh) (
          returned tt _
            (stopped_present ln c at ch, Inv-closed ln c at ch is_local, unfold edit in refl))
  ]
