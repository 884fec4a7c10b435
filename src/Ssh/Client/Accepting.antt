-- ===== src/Ssh/Client/Accepting.antt =====
-- internal/ssh/client.go: `acceptLoop` of a listener, and `relay` of a connection that it gives.
use port_forwarder.Base.{
  ℕ, ◌≡◌, refl, Bool, true, false, Option, none, some, List, [], ◌∷◌, arith, contains, nat_eq,
  if◌then◌else◌,
}
use port_forwarder.Base.Text.{Text, text_eq}
use port_forwarder.Base.Map.{Map, lookup}
use port_forwarder.Net.{Listener}
use port_forwarder.Ssh.Client.{
  Client, ClientRule, dial_failed, report, remove, dropped, cancelled, shutdown, handles,
}

-- What `Accept` answers: a connection, `io.EOF`, or another error.
pub data AcceptAnswer : Type 0 where
  conn_in : ℕ → AcceptAnswer
  at_eof accept_error : AcceptAnswer

-- What the loop does then: it starts `relay`, goes on, or returns.
pub data Turn : Type 0 where
  relays : ℕ → Turn
  goes_on returned : Turn

-- `dead`
abbrev pub is_dead : Client → Bool
is_dead c = if c.conn then false else true

abbrev pub failed_turn : ℕ → AcceptAnswer → Client → Turn
failed_turn h at_eof c = returned
failed_turn h _ c = if is_dead c then returned else goes_on

-- A turn of the loop on the listener of a handle, with the client as it is then.
unfoldable pub accept_turn : ℕ → AcceptAnswer → Client → Turn
accept_turn h (conn_in n) c = relays n
accept_turn h at_eof c = if contains c.stopped h then returned else failed_turn h at_eof c
accept_turn h accept_error c =
    if contains c.stopped h then returned else failed_turn h accept_error c

-- The loop over the answers of `Accept`, each with the client at that time: the connections that it
-- gave to `relay`, and whether it has returned.
unfoldable pub accept_loop : ℕ → List (AcceptAnswer × Client) → List ℕ × Bool
unfolding accept_turn
accept_loop h [] = ([], false)
accept_loop h ((a, c) ∷ rest) =
    let (more, over) = accept_loop h rest in
    elim (accept_turn h a c) [
      | relays n ↦ (n ∷ more, over)
      | goes_on ↦ (more, over)
      | returned ↦ ([], true)
    ]

-- The connections that were relayed, if they were, and those that are closed by the return.
pub record Relayed : Type 0 where
  pub relayed : Option (ℕ × ℕ)
  pub closed : List ℕ

abbrev pub relay_dialled : ClientRule → ℕ → Option ℕ → Client → Relayed × Client
relay_dialled r n none c =
    (record { relayed = none; closed = n ∷ [] }, report r.id [] (some (dial_failed r.target)) c)
relay_dialled r n (some out) c = (record { relayed = some (n, out); closed = out ∷ n ∷ [] }, c)

-- `relay`, when `dial` is what `net.DialTimeout` answers.
unfoldable pub relay : (Text → Option ℕ) → ClientRule → ℕ → Client → Relayed × Client
relay dial r n c = relay_dialled r n (dial r.target) c

contains-handles :
    (m : Map Listener) (out : List ℕ) (h : ℕ)
    → contains out h ≡ true
    → contains (handles m out) h ≡ true
contains-handles [] out h p = p
contains-handles ((k, ln) ∷ m) out h p = contains-handles m (ln.handle ∷ out) h (ground arith)

-- A loop whose connection is gone, or whose listener was removed, returns at the next error.
abbrev fails : AcceptAnswer → Bool
fails (conn_in n) = false
fails _ = true

turn_stopped :
    (h : ℕ) (a : AcceptAnswer) (c : Client)
    → fails a ≡ true
    → contains c.stopped h ≡ true
    → accept_turn h a c ≡ returned
unfolding accept_turn
turn_stopped h (conn_in n) c bad is = absurd (grind arith)
turn_stopped h at_eof c bad is = rw is refl
turn_stopped h accept_error c bad is = rw is refl

turn_dead :
    (h : ℕ) (a : AcceptAnswer) (c : Client)
    → fails a ≡ true
    → c.conn ≡ false
    → accept_turn h a c ≡ returned
unfolding accept_turn
turn_dead h (conn_in n) c bad is = absurd (grind arith)
turn_dead h at_eof c bad is = ground arith
turn_dead h accept_error c bad is = ground arith

-- An error of `Accept` ends the loop of a rule that `Remove` has removed, and any loop of a client
-- whose connection has dropped, whose context has ended, or that was shut down.
pub accept_turn_lem :
    (id : Text) (c : Client) (ln : Listener) (a : AcceptAnswer)
    → lookup id c.lns ≡ some ln
    → fails a ≡ true
    → (accept_turn ln.handle a (remove id c) ≡ returned)
      × (accept_turn ln.handle a (dropped c) ≡ returned)
      × (accept_turn ln.handle a (cancelled c) ≡ returned)
      × (accept_turn ln.handle a (shutdown c) ≡ returned)
unfolding remove dropped cancelled shutdown
accept_turn_lem id c ln a found bad = (
  turn_stopped ln.handle a (remove id c) bad (rw found (ground arith)),
  turn_dead ln.handle a (dropped c) bad refl,
  turn_dead ln.handle a (cancelled c) bad refl,
  turn_dead ln.handle a (shutdown c) bad refl,
)
