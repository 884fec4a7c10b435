-- ===== src/Tunnel/Server/Parts.antt =====
-- internal/tunnel/server.go: whose the open listeners are, in a session on a network that it shares.
use mathlib.Core.Path.{subst}
use port_forwarder.Base.{
  ℕ, ◌≡◌, ◌∙◌, inl, inr, Bool, true, false, Option, [], arith, nat_eq, Bool-cases,
}
use port_forwarder.Base.Text.{Text, text_eq}
use port_forwarder.Base.Map.{Map}
use port_forwarder.Net.{is_open}
use port_forwarder.Tunnel.Session
use port_forwarder.Tunnel.Session.{Session, RuleState, Dial, dial, dial_on, finish, answers}
use port_forwarder.Tunnel.Session.Listeners.{
  Owner, before, by_dial, Owned, dial-Owned, finish-Owned,
}
use port_forwarder.Tunnel.Session.Ending.{
  Event, received, connected, ended, happen, happen-closed, happen-Owned, close-Owned,
}
use port_forwarder.Tunnel.Server.{IsTimely}

-- The rules whose listeners may be open.
abbrev pub live_if : Bool → Map RuleState → Map RuleState
live_if true rules = []
live_if false rules = rules

abbrev pub live : Session → Map RuleState
live s = live_if s.closed s.rules

abbrev pub Part : (ℕ → Type 0) → Session → Type 0
Part base s = (h : ℕ) → is_open h s.net.open_lns ≡ true → Owner base h (live s) s.dials

abbrev no_rules : Session → Session
no_rules s = record s { rules = [] }

dial-no_rules :
    (rule : Text) (c : ℕ) (wrote : Bool) (s : Session)
    → dial rule c wrote (no_rules s) ≡ no_rules (dial rule c wrote s)
unfolding dial dial_on
dial-no_rules rule c wrote s = ground arith

finish-no_rules :
    (d : Dial) (line : Option Text) (s : Session)
    → finish d line (no_rules s) ≡ no_rules (finish d line s)
unfolding finish
finish-no_rules d line s = ground arith

module _ (base : ℕ → Type 0) where
  Part-closed :
      (s s' : Session)
      → s.closed ≡ true
      → s'.closed ≡ s.closed
      → (Owned base (no_rules s) → Owned base (no_rules s'))
      → Part base s
      → Part base s'
  Part-closed s s' over same step part = rw (same ∙ over) (step (rw over at part))

  Part-opened :
      (s s' : Session)
      → s.closed ≡ false
      → s'.closed ≡ s.closed
      → (Owned base s → Owned base s')
      → Part base s
      → Part base s'
  Part-opened s s' going same step part = rw (same ∙ going) (step (rw going at part))

  pub happen-Part : (v : Event) (s : Session) → IsTimely v s → Part base s → Part base (happen v s)
  unfolding happen
  happen-Part (received f) s timely part =
      Part-opened s (happen (received f) s) timely (happen-closed (received f) s)
        (happen-Owned base (received f) s) part
  happen-Part (connected rule c wrote) s timely part = elim (Bool-cases s.closed) [
    | inl over ↦
        Part-closed s (dial rule c wrote s) over (happen-closed (connected rule c wrote) s)
          (λ own.
            subst (Owned base) (dial-no_rules rule c wrote s)
              (dial-Owned base rule c wrote (no_rules s) own))
          part
    | inr going ↦
        Part-opened s (dial rule c wrote s) going (happen-closed (connected rule c wrote) s)
          (happen-Owned base (connected rule c wrote) s) part
  ]
  happen-Part (ended d line) s timely part = elim (Bool-cases s.closed) [
    | inl over ↦
        Part-closed s (finish d line s) over (happen-closed (ended d line) s)
          (λ own.
            subst (Owned base) (finish-no_rules d line s)
              (finish-Owned base d line (no_rules s) own))
          part
    | inr going ↦
        Part-opened s (finish d line s) going (happen-closed (ended d line) s)
          (happen-Owned base (ended d line) s) part
  ]

  pub close-Part : (s : Session) → s.closed ≡ false → Part base s → Part base (Session.close s)
  unfolding Session.close
  close-Part s going part h o = rw going (elim (close-Owned base s going (rw going at part) h o) [
    | inl b ↦ before b
    | inr d ↦ by_dial d
  ])
