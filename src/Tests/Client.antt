-- ===== src/Tests/Client.antt =====
-- internal/ssh/client.go at concrete inputs.
use port_forwarder.Base.{◌≡◌, refl, true, none, some, [], ◌∷◌}
use port_forwarder.Base.Text.{Text, codes, text_eq}
use port_forwarder.Base.Map.{lookup, insert, erase}
use port_forwarder.Net
use port_forwarder.Net.{Listener, addr_in_use}
use port_forwarder.Ssh.Client.{
  ClientRule, Client, new_client, set_on_rule, add, subscribe, remove, drain_listeners, connected,
}
use port_forwarder.Ssh.Client.Running.{
  connecting, subscribing, Runner, second, start, here, after, adds_offline, connects, snapshots,
  removes, subscribes,
}
use port_forwarder.Ssh.Client.Running.Leaks.{Tidy, start-Tidy}
use port_forwarder.Ssh.Client.Reconnecting.{AllOpen, Settled, connected_lem}
use port_forwarder.Tests.Engine.{willing}

abbrev fresh_client : Client
fresh_client = set_on_rule (new_client (codes "h:22") willing)

-- One rule that the server takes, and one that it refuses, added before there is a connection.
waiting : Client
unfolding add
waiting =
    add (record { id = codes "2"; name = codes "ssh"; listen = codes ":22"; target = codes "h:22" })
      (add
        (record { id = codes "1"; name = codes "web"; listen = codes ":80"; target = codes "h:80" })
        fresh_client)

connected_lem_example :
    AllOpen (connected waiting)
    × ((k : Text) (r : ClientRule)
        → lookup k waiting.pending ≡ some r
        → Settled r.id (connected waiting))
unfolding waiting
connected_lem_example = connected_lem waiting refl

abbrev web_rule : ClientRule
web_rule = record {
  id = codes "1";
  name = codes "web";
  listen = codes ":80";
  target = codes "h:80";
}

-- A rule is added, `Run` connects and takes its snapshot, the rule is removed, and then `subscribeAll`
-- comes to it: the listener is there and the rule is not.
abbrev raced_client : Client
unfolding add subscribe remove
raced_client = subscribe web_rule (
    remove (codes "1")
      (drain_listeners (record (add web_rule (new_client (codes "h:22") willing)) { conn = true })))

abbrev left_behind : Runner
left_behind = record {
  client = raced_client;
  phase = subscribing [];
  backoff = second;
  session = 1;
  calls = [];
  closing = [];
  raced = codes "1" ∷ [];
}

without_rule :
    (lookup (codes "1") left_behind.client.pending ≡ none)
    × ((ln : Listener) × (lookup (codes "1") left_behind.client.lns ≡ some ln))
unfolding add subscribe remove lookup insert erase Net.listen addr_in_use text_eq
without_rule = (refl, (_, refl))

start-Tidy_example : Tidy willing left_behind
unfolding add subscribe remove insert text_eq
start-Tidy_example =
    let x0 = start (new_client (codes "h:22") willing) in
    let x1 : Runner = record x0 { client = add web_rule x0.client } in
    let x2 : Runner = record x1 {
      client = drain_listeners (record x1.client { conn = true });
      phase = connecting;
      session = 1;
    } in
    let x3 : Runner = record x2 { phase = subscribing (web_rule ∷ []) } in
    let x4 : Runner = record x3 { client = remove (codes "1") x3.client; raced = codes "1" ∷ [] } in
    start-Tidy (codes "h:22") willing {x = left_behind} (
      after (adds_offline web_rule x0 refl) (
        after (connects x1 refl) (
          after (snapshots x2 refl) (
            after (removes (codes "1") x3)
              (after (subscribes [] web_rule [] x4 refl) (here left_behind))))))
