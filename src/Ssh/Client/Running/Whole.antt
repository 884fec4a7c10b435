-- ===== src/Ssh/Client/Running/Whole.antt =====
-- internal/ssh/client.go: what `Run` does behind a dial and behind a drop, and `Shutdown`, as runs of
-- steps that nothing comes between.
use port_forwarder.Base.{true, suc, ◌≡◌, refl, [], ◌∷◌, ◌++◌}
use port_forwarder.Base.Map.{Map}
use port_forwarder.Net.{Listener}
use port_forwarder.Ssh.Client.{
  ClientRule, subscribe, subscribe_each, connected, dropped, shutdown, drain_listeners, close_all,
  handles, cancelled,
}
use port_forwarder.Ssh.Client.Running.{
  dialling, connecting, subscribing, up, clearing, Runner, second, values, listeners, phase_ids,
  call_ids, take_all, close_one, connects, snapshots, subscribes, waits, drops, clears, shuts,
  closes, Steps, here, after,
}

Steps-append : {x y z : Runner} → Steps x y → Steps y z → Steps x z
Steps-append (here x) t = t
Steps-append (after step rest) t = after step (Steps-append rest t)

-- The loop of `subscribeAll`.
subscribe_each-Steps :
    (m : Map ClientRule) (x : Runner)
    → Steps
        (record x { phase = subscribing (values m) })
        (record x { client = subscribe_each m x.client; phase = subscribing [] })
unfolding subscribe_each
subscribe_each-Steps [] x = here (record x { phase = subscribing [] })
subscribe_each-Steps ((k, r) ∷ m) x =
    after (subscribes [] r (values m) (record x { phase = subscribing (values ((k, r) ∷ m)) }) refl)
      (subscribe_each-Steps m (record x { client = subscribe r x.client }))

connected-Steps :
    (x : Runner)
    → x.phase ≡ dialling
    → Steps x (record x {
      client = connected x.client;
      phase = up;
      backoff = second;
      session = suc x.session;
    })
unfolding connected
connected-Steps x is =
    let y : Runner = record x {
      client = drain_listeners (record x.client { conn = true });
      phase = connecting;
      backoff = second;
      session = suc x.session;
    } in
    after (connects x is) (
      after (snapshots y refl) (
        Steps-append (subscribe_each-Steps y.client.pending y) (
          after
            (waits
              (record y {
                client = subscribe_each y.client.pending y.client;
                phase = subscribing [];
              })
              refl)
            (here _))))

dropped-Steps :
    (x : Runner) → x.phase ≡ up → Steps x (record x { client = dropped x.client; phase = dialling })
unfolding dropped cancelled
dropped-Steps x is = after (drops x is) (
    after (clears (record x { client = drain_listeners x.client; phase = clearing }) refl) (here _))

close_all-Steps :
    (m : Map Listener) (x : Runner)
    → Steps
        (record x { closing = listeners m ++ x.closing })
        (record x {
          client = record x.client {
            net = close_all m x.client.net;
            stopped = handles m x.client.stopped;
          };
        })
close_all-Steps [] x = here x
close_all-Steps ((k, ln) ∷ m) x =
    after
      (closes [] ln (listeners m ++ x.closing)
        (record x { closing = listeners ((k, ln) ∷ m) ++ x.closing }) refl)
      (close_all-Steps m (record x { client = close_one ln x.client }))

shutdown-Steps :
    (x : Runner)
    → Steps x
        (record x { client = shutdown x.client; raced = phase_ids x.phase ++ call_ids x.calls })
unfolding shutdown
shutdown-Steps x = after (shuts x) (
    close_all-Steps x.client.lns
      (record x { client = take_all x.client; raced = phase_ids x.phase ++ call_ids x.calls }))
