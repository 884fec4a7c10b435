-- ===== src/Ssh/Client.antt =====
-- internal/ssh/client.go: the reverse forwards of one SSH connection. The SSH library is a
-- parameter: `net` says what the server answers to `conn.Listen`, and which listeners it has open. A
-- method runs alone here, `Run` as what it does when a dial succeeds (`connected`) or fails
-- (`fail_all`), and when the connection drops (`dropped`) or the context ends (`cancelled`).
pub mod Reconnecting
pub mod Backoff
pub mod Accepting
pub mod Running
use port_forwarder.Base.{
  ℕ, suc, ◌*◌, Bool, true, false, Option, none, some, List, [], ◌∷◌, leb, ltb, ◌==◌, if◌then◌else◌,
}
use port_forwarder.Base.Text.{Text, text_eq}
use port_forwarder.Base.Map.{Map, lookup, insert, erase}
use port_forwarder.Net
use port_forwarder.Net.{Net, Listener}

pub record ClientRule : Type 0 where
  pub id : Text
  pub name : Text
  pub listen : Text
  pub target : Text

pub data Error : Type 0 where
  remote_listen : Text → Error
  dial_failed : Text → Error

-- A call of the callback.
pub record RuleReport : Type 0 where
  pub id : Text
  pub listen : Text
  pub err : Option Error

-- `conn`: the connection is not nil. `reports` are the calls of the callback, the last one first.
-- `stopped` are the handles of the listeners whose stop channel is closed.
pub record Client : Type 0 where
  pub addr : Text
  pub pending : Map ClientRule
  pub lns : Map Listener
  pub on_rule : Bool
  pub conn : Bool
  pub net : Net
  pub stopped : List ℕ
  pub reports : List RuleReport

-- `NewClient`
abbrev pub new_client : Text → Net → Client
new_client addr net = record {
  addr = addr;
  pending = [];
  lns = [];
  on_rule = false;
  conn = false;
  net = net;
  stopped = [];
  reports = [];
}

abbrev pub set_on_rule : Client → Client
set_on_rule c = record c { on_rule = true }

-- `report`
abbrev pub report : Text → Text → Option Error → Client → Client
report id listen err c =
    if c.on_rule
    then record c { reports = record { id = id; listen = listen; err = err } ∷ c.reports }
    else c

abbrev pub subscribe_on : ClientRule → Option Listener → Client → Client
subscribe_on r none c = report r.id [] (some (remote_listen r.listen)) c
subscribe_on r (some ln) c = report r.id ln.addr none (record c { lns = insert r.id ln c.lns })

abbrev pub subscribe_new : ClientRule → Option Listener → Client → Client
subscribe_new r none c =
    let (ln, net) = Net.listen r.listen c.net in subscribe_on r ln (record c { net = net })
subscribe_new r (some there) c = c

-- `subscribe`
unfoldable pub subscribe : ClientRule → Client → Client
subscribe r c = subscribe_new r (lookup r.id c.lns) c

-- `Add`
unfoldable pub add : ClientRule → Client → Client
unfolding subscribe
add r c =
    let c' : Client = record c { pending = insert r.id r c.pending } in
    if c.conn then subscribe r c' else report r.id r.listen none c'

abbrev pub close_entry : Text → Option Listener → Client → Client
close_entry id none c = c
close_entry id (some ln) c = record c {
  net = Net.close ln c.net;
  stopped = ln.handle ∷ c.stopped;
  lns = erase id c.lns;
}

abbrev pub forget : Text → Client → Client
forget id c = record c { pending = erase id c.pending }

-- `Remove`
unfoldable pub remove : Text → Client → Client
remove id c = forget id (close_entry id (lookup id c.lns) c)

abbrev pub close_all : Map Listener → Net → Net
close_all [] net = net
close_all ((_, ln) ∷ m) net = close_all m (Net.close ln net)

abbrev pub handles : Map Listener → List ℕ → List ℕ
handles [] out = out
handles ((_, ln) ∷ m) out = handles m (ln.handle ∷ out)

-- `Shutdown`
unfoldable pub shutdown : Client → Client
shutdown c = record c {
  conn = false;
  lns = [];
  pending = [];
  net = close_all c.lns c.net;
  stopped = handles c.lns c.stopped;
}

-- `drainListeners`; the stop channels stay open.
abbrev pub drain_listeners : Client → Client
drain_listeners c = record c { lns = []; net = close_all c.lns c.net }

unfoldable pub subscribe_each : Map ClientRule → Client → Client
unfolding subscribe
subscribe_each [] c = c
subscribe_each ((_, r) ∷ m) c = subscribe_each m (subscribe r c)

-- `Run` behind a dial that succeeds.
unfoldable pub connected : Client → Client
unfolding subscribe_each
connected c = let c' = drain_listeners (record c { conn = true }) in subscribe_each c'.pending c'

-- `Run` when the connection drops, and when the context ends.
unfoldable pub dropped : Client → Client
dropped c = record (drain_listeners c) { conn = false }

unfoldable pub cancelled : Client → Client
cancelled c = record c { conn = false }

abbrev pub fail_each : Map ClientRule → Error → Client → Client
fail_each [] err c = c
fail_each ((_, r) ∷ m) err c = fail_each m err (report r.id r.listen (some err) c)

-- `failAll`
unfoldable pub fail_all : Error → Client → Client
fail_all err c = fail_each c.pending err c

-- `nextBackoff`, in nanoseconds.
abbrev pub max_backoff : ℕ
max_backoff = 30 * 1000000000

unfoldable pub next_backoff : ℕ → ℕ
next_backoff d =
    if leb max_backoff d
    then max_backoff
    else if ltb max_backoff (d * 2)
    then max_backoff
    else d * 2
