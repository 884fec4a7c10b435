-- ===== src/Tunnel/Session/Ending.antt =====
-- internal/tunnel/server.go: what is left open when a session is over, and what a data connection
-- must say.
use port_forwarder.Base.{
  ℕ, ◌≤◌, ◌≡◌, ◌≢◌, refl, ap, ◌∙◌, ◌⊎◌, inl, inr, Bool, true, false, Option, none, some, [], ◌∷◌,
  arith, ◌==◌, nat_eq, if◌then◌else◌, Bool-cases,
}
use port_forwarder.Base.Text.{Text, text_eq}
use port_forwarder.Base.Map.{Map, lookup, lookup-cons, lookup-nil}
use port_forwarder.Decimal.{max_u64}
use port_forwarder.Net
use port_forwarder.Net.{Net, Listener, is_open}
use port_forwarder.Net.Laws.{listen-some}
use port_forwarder.Tunnel.Protocol.{data_header}
use port_forwarder.Tunnel.Protocol.Laws.{parse-data_header}
use port_forwarder.Tunnel.Protocol.{Frame, frame_register, frame_unregister, frame_ping}
use port_forwarder.Tunnel.Session.{
  RuleState, Dial, Session, register, register_on, unregister, handle, dial, dial_on, finish,
  unregister_found, close, close_rules, answers, matches, drop_pending,
}
use port_forwarder.Tunnel.Session.Listeners.{
  is_dialing, before, by_rule, by_dial, Owned, register-Owned, unregister-Owned, dial-Owned,
  finish-Owned, open_closed,
}

-- What happens to a session that is not closed: a frame comes, a public connection comes, and a
-- dial for one ends.
pub data Event : Type 0 where
  received : Frame → Event
  connected : Text → ℕ → Bool → Event
  ended : Dial → Option Text → Event

unfoldable pub happen : Event → Session → Session
unfolding handle dial finish
happen (received f) s = handle f s
happen (connected rule pub_conn wrote) s = dial rule pub_conn wrote s
happen (ended d line) s = finish d line s

module _ (base : ℕ → Type 0) where
  handle-Owned : (f : Frame) (s : Session) → Owned base s → Owned base (handle f s)
  unfolding handle
  handle-Owned f s own = elim (Bool-cases (f.typ == frame_register)) [
    | inl reg ↦ rw reg (register-Owned base f s own)
    | inr no_reg ↦ elim (Bool-cases (f.typ == frame_unregister)) [
      | inl unreg ↦ rw (no_reg, unreg) (unregister-Owned base f.id s own)
      | inr no_unreg ↦ elim (Bool-cases (f.typ == frame_ping)) [
        | inl ping ↦ rw (no_reg, no_unreg, ping) own
        | inr no_ping ↦ rw (no_reg, no_unreg, no_ping) own
      ]
    ]
  ]

  pub happen-Owned : (v : Event) (s : Session) → Owned base s → Owned base (happen v s)
  unfolding happen
  happen-Owned (received f) s own = handle-Owned f s own
  happen-Owned (connected rule c wrote) s own = dial-Owned base rule c wrote s own
  happen-Owned (ended d line) s own = finish-Owned base d line s own

pub happen-closed : (v : Event) (s : Session) → (happen v s).closed ≡ s.closed
unfolding happen handle register register_on unregister unregister_found dial dial_on finish
happen-closed (received f) s = ground arith
happen-closed (connected rule c wrote) s = ground arith
happen-closed (ended d line) s = ground arith

-- Closing the listeners of the rules leaves none of them open, and opens none.
pub open_after_rules :
    (m : Map RuleState) (net : Net) (h : ℕ)
    → is_open h (close_rules m net).open_lns ≡ true
    → (is_open h net.open_lns ≡ true)
      × ((k : Text) (rs : RuleState) → lookup k m ≡ some rs → rs.listen.handle ≢ h)
open_after_rules [] net h o =
    (o, λ k rs found same. absurd (ground (arith, lookup-nil {V = RuleState} k)))
open_after_rules ((j, r) ∷ m) net h o =
    let (was, rest) = open_after_rules m (Net.close r.listen net) h o in
    let (other, earlier) = open_closed r.listen net h was in
    (
      earlier,
      λ k rs found same. elim (text_eq.dec k j) [
        | yes mine ↦ grind (arith, lookup-cons k j r m)
        | no elsewhere ↦ rest k rs (ground (arith, lookup-cons k j r m)) same
      ],
    )

pub close-Owned :
    (base : ℕ → Type 0) (s : Session)
    → s.closed ≡ false
    → Owned base s
    → (h : ℕ) → is_open h (close s).net.open_lns ≡ true
    → (base h) ⊎ (is_dialing h s.dials ≡ true)
unfolding close
close-Owned base s going own h o =
    let (was, gone) = open_after_rules s.rules s.net h (rw going at o) in
    elim (own h was) [
      | before b ↦ inl b
      | by_rule r ↦ absurd (gone r.0 r.1 r.2 r.3)
      | by_dial d ↦ inr d
    ]

-- A frame that registers a new rule in a session that is already closed, when the operating system
-- gives the address: the listener stays open, as closing the session again does nothing.
pub close-register :
    (f : Frame) (s : Session) {ln : Listener}
    → s.closed ≡ true
    → lookup f.id s.rules ≡ none
    → (Net.listen f.listen s.net).0 ≡ some ln
    → is_open ln.handle (close (register f s)).net.open_lns ≡ true
unfolding close register register_on is_open
close-register f s over absent accepted =
    rw (accepted, register_on)
      (rw (over, absent) (ground (arith, listen-some f.listen s.net accepted)))

-- A data connection whose first line is the handshake line of an ID that a uint64 can hold: if it
-- is the ID of the dial, the public connection is relayed and its entry is taken from the pending
-- table; if not, the public connection is closed, and its entry stays in the table.
pub finish-data_header :
    (d : Dial) (s : Session) (i : ℕ)
    → i ≤ max_u64
    → ((finish d (some (data_header i)) s).relayed
        ≡ (if i == d.conn_id then d.pub_conn ∷ s.relayed else s.relayed))
      × ((finish d (some (data_header i)) s).dropped
          ≡ (if i == d.conn_id then s.dropped else d.pub_conn ∷ s.dropped))
      × ((finish d (some (data_header i)) s).pending
          ≡ (if i == d.conn_id then drop_pending d.conn_id s.pending else s.pending))
unfolding finish
finish-data_header d s i small =
    let answered : answers d (some (data_header i)) ≡ (i == d.conn_id) =
      ap (λ o. matches o d.conn_id) (parse-data_header i small) in
    elim (Bool-cases (i == d.conn_id)) [
      | inl same ↦ rw (answered ∙ same, same) (refl, refl, refl)
      | inr other ↦ rw (answered ∙ other, other) (refl, refl, refl)
    ]
