-- ===== src/Tunnel/Session.antt =====
-- internal/tunnel/server.go: the session of one client. The state is the session's, with the network
-- and what the session has written and called. `register`, `unregister` and `close` run one after
-- the other but for the lines of `openData`, which are in three steps here: up to the write of the
-- open frame, the end of the dial, and the end of the relay.
pub mod Listeners
pub mod Ending
use port_forwarder.Base.{
  ℕ, zero, suc, ◌+◌, ◌%◌, ◌^◌, Bool, true, false, ◌&&◌, Option, none, some, List, [], ◌∷◌, ◌==◌,
  nat_eq, if◌then◌else◌,
}
use port_forwarder.Base.Text.{Text, codes, text_eq}
use port_forwarder.Base.Map.{Map, lookup, insert, erase}
use port_forwarder.Net
use port_forwarder.Net.{Net, Listener}
use port_forwarder.Net.HostPort.{data_addr}
use port_forwarder.Tunnel.Protocol.{
  Frame, empty_frame, frame_register, frame_registered, frame_unregister, frame_open, frame_ping,
  frame_pong, frame_error, parse_data_header,
}

pub record RuleState : Type 0 where
  pub rule : Frame
  pub listen : Listener

-- A goroutine in `openData`: its public connection, and its data listener.
pub record Dial : Type 0 where
  pub conn_id : ℕ
  pub pub_conn : ℕ
  pub data_ln : Listener

-- `pending` maps connection IDs to public connections. `local_addr` is the control connection's
-- address. `sent`, `changed`, `relayed` and `dropped` are what was written to the client, the calls
-- of `ruleChanged`, and the public connections that were relayed or closed without that.
pub record Session : Type 0 where
  pub rules : Map RuleState
  pub pending : List (ℕ × ℕ)
  pub next_id : ℕ
  pub closed : Bool
  pub local_addr : Text
  pub net : Net
  pub dials : List Dial
  pub sent : List Frame
  pub changed : List Text
  pub relayed : List ℕ
  pub dropped : List ℕ

-- The message ends with the operating system's error, which is left out.
abbrev pub listen_error : Text → Frame
listen_error id = record empty_frame {
  typ = frame_error;
  id = id;
  message = codes "public listen failed: ";
}

abbrev pub registered : Text → Listener → Frame
registered id ln = record empty_frame { typ = frame_registered; id = id; listen = ln.addr }

abbrev pub send : Frame → Session → Session
send f s = record s { sent = f ∷ s.sent }

abbrev pub close_old : Option RuleState → Net → Net
close_old none net = net
close_old (some old) net = Net.close old.listen net

unfoldable pub register_on : Frame → Option Listener → Session → Session
register_on f none s = send (listen_error f.id) s
register_on f (some ln) s = record s {
  net = close_old (lookup f.id s.rules) s.net;
  rules = insert f.id (record { rule = f; listen = ln }) s.rules;
  sent = registered f.id ln ∷ s.sent;
  changed = f.id ∷ s.changed;
}

unfoldable pub register : Frame → Session → Session
unfolding register_on
register f s =
    let (ln, net) = Net.listen f.listen s.net in register_on f ln (record s { net = net })

unfoldable pub unregister_found : Text → Option RuleState → Session → Session
unregister_found id none s = s
unregister_found id (some rs) s = record s {
  net = Net.close rs.listen s.net;
  changed = id ∷ s.changed;
}

unfoldable pub unregister : Text → Session → Session
unfolding unregister_found
unregister id s = unregister_found id (lookup id s.rules) (record s { rules = erase id s.rules })

-- The body of the loop of `serve`.
unfoldable pub handle : Frame → Session → Session
unfolding frame_register frame_unregister frame_ping frame_pong
handle f s =
    if f.typ == frame_register
    then register f s
    else if f.typ == frame_unregister
    then unregister f.id s
    else if f.typ == frame_ping
    then send (record empty_frame { typ = frame_pong }) s
    else s

-- `nextConnID`
unfoldable pub next_conn_id : ℕ → ℕ
next_conn_id n = (n + 1) % 2 ^ 64

abbrev pub put_pending : ℕ → ℕ → List (ℕ × ℕ) → List (ℕ × ℕ)
put_pending k v [] = (k, v) ∷ []
put_pending k v ((j, w) ∷ m) = if k == j then (k, v) ∷ m else (j, w) ∷ put_pending k v m

abbrev pub drop_pending : ℕ → List (ℕ × ℕ) → List (ℕ × ℕ)
drop_pending k [] = []
drop_pending k ((j, w) ∷ m) = let rest = drop_pending k m in if k == j then rest else (j, w) ∷ rest

abbrev pub has_pending : ℕ → List (ℕ × ℕ) → Bool
has_pending k [] = false
has_pending k ((j, w) ∷ m) = if k == j then true else has_pending k m

abbrev pub open_frame : Text → ℕ → Text → Frame
open_frame rule conn_id addr = record empty_frame {
  typ = frame_open;
  id = rule;
  conn_id = conn_id;
  listen = addr;
}

unfoldable pub dial_on : Text → ℕ → Bool → Option Listener → Session → Session
unfolding next_conn_id
dial_on rule pub_conn wrote none s = record s { dropped = pub_conn ∷ s.dropped }
dial_on rule pub_conn wrote (some ln) s =
    let conn_id = next_conn_id s.next_id in
    let s' : Session = record s {
      next_id = conn_id;
      pending = put_pending conn_id pub_conn s.pending;
    } in
    if wrote
    then record s' {
      sent = open_frame rule conn_id (data_addr s.local_addr ln.addr) ∷ s.sent;
      dials = record { conn_id = conn_id; pub_conn = pub_conn; data_ln = ln } ∷ s.dials;
    }
    else record s' { net = Net.close ln s.net; dropped = pub_conn ∷ s.dropped }

-- `openData` up to the write of the open frame, of which `wrote` says whether it succeeds.
unfoldable pub dial : Text → ℕ → Bool → Session → Session
unfolding dial_on
dial rule pub_conn wrote s =
    let (ln, net) = Net.listen (codes ":0") s.net in
    dial_on rule pub_conn wrote ln (record s { net = net })

abbrev pub matches : Option ℕ → ℕ → Bool
matches none conn_id = false
matches (some id) conn_id = id == conn_id

-- The line that a data connection starts with; `none` if there is no connection, or no line.
abbrev pub answers : Dial → Option Text → Bool
answers d none = false
answers d (some line) = matches (parse_data_header line) d.conn_id

abbrev pub without_dial : ℕ → List Dial → List Dial
without_dial h [] = []
without_dial h (d ∷ ds) =
    let rest = without_dial h ds in if h == d.data_ln.handle then rest else d ∷ rest

-- The rest of `openData`. The relay has ended, and the deferred calls are made.
unfoldable pub finish : Dial → Option Text → Session → Session
finish d line s =
    let s' : Session = record s {
      net = Net.close d.data_ln s.net;
      dials = without_dial d.data_ln.handle s.dials;
    } in
    if answers d line
    then record s' { pending = drop_pending d.conn_id s.pending; relayed = d.pub_conn ∷ s.relayed }
    else record s' { dropped = d.pub_conn ∷ s.dropped }

abbrev pub close_rules : Map RuleState → Net → Net
close_rules [] net = net
close_rules ((_, rs) ∷ m) net = close_rules m (Net.close rs.listen net)

-- `close`
unfoldable pub close : Session → Session
close s = if s.closed then s else record s { closed = true; net = close_rules s.rules s.net }
