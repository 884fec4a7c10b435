-- ===== src/Ssh/Client/Running/Leaks.antt =====
-- internal/ssh/client.go: `Run` leaves no listener open that it does not know.
use port_forwarder.Base.{ℕ, ◌≡◌, refl, inl, true, some, arith, nat_eq}
use port_forwarder.Base.Text.{Text, text_eq}
use port_forwarder.Base.Map.{lookup, lookup-nil}
use port_forwarder.Net.{Net, Listener, is_open}
use port_forwarder.Ssh.Client.{new_client}
use port_forwarder.Ssh.Client.Running.{
  Runner, start, Step, dial_fails, connects, snapshots, subscribes, waits, drops, clears, cancels,
  cancels_dial, ends, adds_offline, adds_online, call_subscribes, call_fails, removes, shuts,
  closes, Steps, here, after,
}
use port_forwarder.Ssh.Client.Running.Owners.{Held, Excused}
use port_forwarder.Ssh.Client.Running.Closing.{Known}
use port_forwarder.Ssh.Client.Running.Idling.{Idle}
use port_forwarder.Ssh.Client.Running.Keeping.{
  Good, dial_fails-Good, connects-Good, snapshots-Good, subscribes-Good, waits-Good, drops-Good,
  clears-Good, cancels-Good, cancels_dial-Good, ends-Good, adds_offline-Good, adds_online-Good,
  call_subscribes-Good, call_fails-Good, removes-Good, shuts-Good, closes-Good,
}

Good-Step : {base : ℕ → Type 0} {x y : Runner} → Good base x → Step x y → Good base y
Good-Step g (dial_fails err x is) = dial_fails-Good g err _
Good-Step g (connects x is) = connects-Good g
Good-Step g (snapshots x is) = snapshots-Good g
Good-Step g (subscribes front r back x is) = subscribes-Good g front r back is
Good-Step g (waits x is) = waits-Good g is
Good-Step g (drops x is) = drops-Good g
Good-Step g (clears x is) = clears-Good g is
Good-Step g (cancels x is) = cancels-Good g
Good-Step g (cancels_dial err x is) = cancels_dial-Good g err _
Good-Step g (ends x is) = ends-Good g
Good-Step g (adds_offline r x down) = adds_offline-Good g r down
Good-Step g (adds_online r x conn) = adds_online-Good g r
Good-Step g (call_subscribes front c back x is session live) =
    call_subscribes-Good g front c back is live
Good-Step g (call_fails front c back x is) = call_fails-Good g front c back _ is
Good-Step g (removes id x) = removes-Good g id
Good-Step g (shuts x) = shuts-Good g
Good-Step g (closes front ln back x is) = closes-Good g front ln back is

Good-Steps : {base : ℕ → Type 0} {x y : Runner} → Good base x → Steps x y → Good base y
Good-Steps g (here x) = g
Good-Steps g (after step rest) = Good-Steps (Good-Step g step) rest

-- What holds of a client in `Run`: a listener has a rule, or its rule was taken away while it was
-- under way; what is open was open before, is the client's or is about to be closed; while it dials,
-- it has none.
pub record Tidy (net : Net) (x : Runner) : Type 0 where
  pub covered :
      (k : Text) (ln : Listener)
      → lookup k x.client.lns ≡ some ln
      → Excused x.client.pending x.raced k
  pub held :
      (h : ℕ)
      → is_open h x.client.net.open_lns ≡ true
      → Held (Known (λ j. is_open j net.open_lns ≡ true) x.closing) x.client.lns h
  pub idle : Idle x.phase x.client

-- `Run` of a new client, with any calls of `Add`, `Remove` and `Shutdown` between the sections of its
-- steps and of each other: at every moment, each listener of the client belongs to a rule that it
-- has, but for an ID whose last `Remove`, or a later `Shutdown`, came while a subscription of it was
-- under way: behind the snapshot of `subscribeAll` that has the rule, or between the two sections of
-- an `Add`. A listener that is open on the SSH server was open before, is one of the client's, or
-- is one that a `Shutdown` has taken and is about to close. While the client dials, it has no
-- listener and no connection; between the end of a connection and `clearConn`, it has no listener.
pub start-Tidy :
    (addr : Text) (net : Net) {x : Runner} → Steps (start (new_client addr net)) x → Tidy net x
start-Tidy addr net {x} steps =
    let first : Good (λ j. is_open j net.open_lns ≡ true) (start (new_client addr net)) = record {
      keyed = tt;
      inv = record {
        covered = λ k ln at. absurd (ground (arith, lookup-nil {V = Listener} k));
        held = λ h o. inl (inl o);
      };
      excused = λ k w. absurd (ground arith);
      idle = (refl, refl);
    } in
    let g = Good-Steps first steps in
    record { covered = g.inv.covered; held = g.inv.held; idle = g.idle }
