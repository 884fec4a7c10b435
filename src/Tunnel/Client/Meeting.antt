-- ===== src/Tunnel/Client/Meeting.antt =====
-- internal/tunnel: a public connection on its way through the server (`openData` of server.go) and
-- the client (`handleOpen` of client.go).
use port_forwarder.Base.{ℕ, suc, ◌≤◌, ◌≡◌, ◌∙◌, true, some, ◌∷◌, arith, nat_eq}
use port_forwarder.Base.Text.{Text, codes, text_eq}
use port_forwarder.Base.Map.{Map, lookup}
use port_forwarder.Decimal.{max_u64}
use port_forwarder.Net
use port_forwarder.Net.{Listener}
use port_forwarder.Net.HostPort.{data_addr}
use port_forwarder.Tunnel.Protocol.{Frame, data_header}
use port_forwarder.Tunnel.Session
use port_forwarder.Tunnel.Session.{
  Session, Dial, dial_on, next_conn_id, open_frame, put_pending, drop_pending, finish,
}
use port_forwarder.Tunnel.Session.Ending.{finish-data_header}
use port_forwarder.Tunnel.Client.{ClientRule}
use port_forwarder.Tunnel.Client.Opening.{Dials, dial, handle_open, IsNumbered, handle_open-closes}

next_conn_id-small : (n : ℕ) → next_conn_id n ≤ max_u64
unfolding next_conn_id
next_conn_id-small n = omega arith

module _ (rule : Text) (pub_conn : ℕ) (s : Session) (ln : Listener) where
  abbrev pub conn_id : ℕ
  conn_id = next_conn_id s.next_id

  abbrev pub asked : Frame
  asked = open_frame rule conn_id (data_addr s.local_addr ln.addr)

  abbrev pub the_dial : Dial
  the_dial = record { conn_id = conn_id; pub_conn = pub_conn; data_ln = ln }

  abbrev pub after_dial : Session
  after_dial = Session.dial rule pub_conn true s

  dial-sent : (Net.listen (codes ":0") s.net).0 ≡ some ln → after_dial.sent ≡ asked ∷ s.sent
  unfolding Session.dial dial_on
  dial-sent granted = rw granted

  dial-relayed : (Net.listen (codes ":0") s.net).0 ≡ some ln → after_dial.relayed ≡ s.relayed
  unfolding Session.dial dial_on
  dial-relayed granted = rw granted

  -- What the two ends have done for a public connection.
  pub record Met (w w' : Dials) : Type 0 where
    pub asked_client : after_dial.sent ≡ asked ∷ s.sent
    pub line : w'.lines ≡ (w.calls, data_header conn_id) ∷ w.lines
    pub relay : w'.relays ≡ (w.calls, suc w.calls) ∷ w.relays
    pub closed : w'.open_conns ≡ w.open_conns
    pub relayed :
        (finish the_dial (some (data_header conn_id)) after_dial).relayed ≡ pub_conn ∷ s.relayed

  module _ (rules : Map ClientRule) (w : Dials) {r : ClientRule}
      (granted : (Net.listen (codes ":0") s.net).0 ≡ some ln) (found : lookup rule rules ≡ some r)
      (called : w.answers w.calls (data_addr s.local_addr ln.addr) ≡ true)
      (reached : w.answers (suc w.calls) r.target ≡ true) where
    handle_open-line :
        (handle_open true asked rules w).lines ≡ (w.calls, data_header conn_id) ∷ w.lines
    unfolding handle_open dial
    handle_open-line = rw (called, found, reached)

    handle_open-relay : (handle_open true asked rules w).relays ≡ (w.calls, suc w.calls) ∷ w.relays
    unfolding handle_open dial
    handle_open-relay = rw (called, found, reached)

    -- A public connection for a rule that the client has, when the server gets a data listener and
    -- writes the open frame, and the client reaches both that listener's address and the target of
    -- the rule: the client writes the handshake line of the connection's ID to the data connection
    -- and relays it to the target, the server takes that line and relays the public connection, and
    -- when both are done the client has closed the two connections that it opened.
    pub dial-handle_open : IsNumbered w → Met w (handle_open true asked rules w)
    dial-handle_open numbered = record {
      asked_client = dial-sent granted;
      line = handle_open-line;
      relay = handle_open-relay;
      closed = handle_open-closes true asked rules w numbered;
      relayed =
          (finish-data_header the_dial after_dial conn_id (next_conn_id-small s.next_id)).0
          ∙ ground (arith, dial-relayed granted);
    }
