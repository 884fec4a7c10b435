-- ===== src/Tunnel/Server.antt =====
-- internal/tunnel/server.go: the server with the sessions of its clients. A session has the number
-- of the connection that it was made for, and the network is the server's: a step of a session gets
-- it and gives it back. The goroutines' steps are in any order; `serve` of a session is its
-- `received` events and the deferred `close`.
pub mod Parts
pub mod Owners
pub mod Closing
use port_forwarder.Base.{
  ℕ, suc, ◌<◌, ◌≡◌, Bool, true, false, Option, none, some, List, [], ◌∷◌, map, without, ◌==◌,
  nat_eq, arith, if◌then◌else◌,
}
use port_forwarder.Base.Text.{Text}
use port_forwarder.Base.Map.{Map}
use port_forwarder.Net
use port_forwarder.Net.{Net, Listener, is_open}
use port_forwarder.Tunnel.Session
use port_forwarder.Tunnel.Session.{Session, RuleState}
use port_forwarder.Tunnel.Session.Listeners.{new_session}
use port_forwarder.Tunnel.Session.Ending.{Event, received, connected, ended, happen}

-- `clients` are the numbers of the sessions in the set of that name, and `made` is how many
-- sessions there were.
pub record Server : Type 0 where
  pub ctrl : Listener
  pub net : Net
  pub sessions : ℕ → Session
  pub made : ℕ
  pub clients : List ℕ

abbrev pub fresh_server : Listener → Net → Server
fresh_server ln net = record {
  ctrl = ln;
  net = net;
  sessions = λ i. new_session [] net;
  made = 0;
  clients = [];
}

abbrev pub server_on : Option Listener → Net → Option Server × Net
server_on none net = (none, net)
server_on (some ln) net = (some (fresh_server ln net), net)

-- `NewServer`
unfoldable pub new_server : Text → Net → Option Server × Net
new_server addr net = let (ln, net') = Net.listen addr net in server_on ln net'

abbrev pub put_session : ℕ → Session → Server → Server
put_session i s x = record x { sessions = λ j. if j == i then s else x.sessions j; net = s.net }

-- The session with a number, on the network as it is.
abbrev pub session : ℕ → Server → Session
session i x = record (x.sessions i) { net = x.net }

-- A turn of the loop of `Serve`, when a client connects and `addr` is the local address.
unfoldable pub accept_client : Text → Server → Server
accept_client addr x = record (put_session x.made (new_session addr x.net) x) {
  made = suc x.made;
  clients = x.made ∷ x.clients;
}

unfoldable pub on_event : ℕ → Event → Server → Server
unfolding happen
on_event i v x = put_session i (happen v (session i x)) x

abbrev pub end_if : Bool → ℕ → Server → Server
end_if true i x = x
end_if false i x = record (put_session i (Session.close (session i x)) x) {
  clients = without i x.clients;
}

-- `close` of a session, which takes it out of the set.
unfoldable pub end_session : ℕ → Server → Server
end_session i x = end_if (x.sessions i).closed i x

unfoldable pub end_each : List ℕ → Server → Server
unfolding end_session
end_each [] x = x
end_each (i ∷ is) x = end_each is (end_session i x)

-- `Close`
unfoldable pub close : Server → Server
unfolding end_each
close x = end_each x.clients (record x { net = Net.close x.ctrl x.net })

pub record RuleStatus : Type 0 where
  pub id : Text
  pub listen : Text
  pub target : Text
  pub active : Bool

abbrev pub rule_statuses : Map RuleState → List RuleStatus
rule_statuses [] = []
rule_statuses ((_, rs) ∷ m) =
    record { id = rs.rule.id; listen = rs.listen.addr; target = rs.rule.target; active = true }
    ∷ rule_statuses m

-- `Clients`; the remote addresses of the connections are left out.
unfoldable pub list_clients : Server → List (List RuleStatus)
list_clients x = map (λ i. rule_statuses (x.sessions i).rules) x.clients

-- A session reads no frame after it was closed.
abbrev pub IsTimely : Event → Session → Type 0
IsTimely (received f) s = s.closed ≡ false
IsTimely _ s = Unit

-- What happens to a server before it is closed.
pub data Step : Server → Server → Type 0 where
  connects :
      (addr : Text) (x : Server)
      → is_open x.ctrl.handle x.net.open_lns ≡ true
      → Step x (accept_client addr x)
  happens :
      (i : ℕ) (v : Event) (x : Server)
      → i < x.made
      → IsTimely v (x.sessions i)
      → Step x (on_event i v x)
  ends : (i : ℕ) (x : Server) → i < x.made → Step x (end_session i x)

pub data Steps : Server → Server → Type 0 where
  here : (x : Server) → Steps x x
  after : {x y z : Server} → Step x y → Steps y z → Steps x z
