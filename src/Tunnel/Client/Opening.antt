-- ===== src/Tunnel/Client/Opening.antt =====
-- internal/tunnel/client.go: `handleOpen`, which connects the server's data listener with the
-- target of the rule. The relay has ended when it returns.
use port_forwarder.Base.{
  ℕ, suc, ◌<◌, ◌≤◌, ◌≡◌, ap, refl, ◌∙◌, Bool, Option, none, some, List, [], ◌∷◌, arith, nat_eq,
  if◌then◌else◌, without, Bool-cases, inl, inr, All,
}
use port_forwarder.Base.Text.{Text, text_eq}
use port_forwarder.Base.Map.{Map, lookup}
use port_forwarder.Tunnel.Protocol.{Frame, data_header}
use port_forwarder.Tunnel.Client.{ClientRule}

-- `answers i a`: whether the i-th call of `net.DialTimeout` gets a connection to `a`. A connection is
-- named by the number of the call. `lines` are the lines that were written to a connection.
pub record Dials : Type 0 where
  pub answers : ℕ → Text → Bool
  pub calls : ℕ
  pub open_conns : List ℕ
  pub lines : List (ℕ × Text)
  pub relays : List (ℕ × ℕ)

-- `net.DialTimeout("tcp", a, 10*time.Second)`
unfoldable pub dial : Text → Dials → Option ℕ × Dials
dial a w =
    if w.answers w.calls a
    then (some w.calls, record w { calls = suc w.calls; open_conns = w.calls ∷ w.open_conns })
    else (none, record w { calls = suc w.calls })

abbrev pub close_conn : ℕ → Dials → Dials
close_conn h w = record w { open_conns = without h w.open_conns }

abbrev pub relay_target : ℕ → Option ℕ → Dials → Dials
relay_target conn none w = w
relay_target conn (some target) w =
    close_conn target (record w { relays = (conn, target) ∷ w.relays })

abbrev pub open_rule : ℕ → Option ClientRule → Dials → Dials
open_rule conn none w = w
open_rule conn (some rule) w = let (target, w') = dial rule.target w in relay_target conn target w'

-- `wrote` says whether the header goes out.
abbrev pub open_data : Bool → Frame → Map ClientRule → Option ℕ → Dials → Dials
open_data wrote f rules none w = w
open_data wrote f rules (some conn) w = close_conn conn (
    if wrote
    then open_rule conn (lookup f.id rules)
        (record w { lines = (conn, data_header f.conn_id) ∷ w.lines })
    else w)

-- `handleOpen`
unfoldable pub handle_open : Bool → Frame → Map ClientRule → Dials → Dials
unfolding dial
handle_open wrote f rules w = let (conn, w') = dial f.listen w in open_data wrote f rules conn w'

-- No connection has a number that is still to come.
abbrev pub IsNumbered : Dials → Type 0
IsNumbered w = All (λ h. h < w.calls) w.open_conns

without-fresh : (h : ℕ) (hs : List ℕ) → All (λ i. i < h) hs → without h hs ≡ hs
without-fresh h [] small = refl
without-fresh h (i ∷ hs) (less, small) = ground (arith, without-fresh h hs small)

without-cons : (h : ℕ) (hs : List ℕ) → All (λ i. i < h) hs → without h (h ∷ hs) ≡ hs
without-cons h hs small = ground (arith, without-fresh h hs small)

All-weaken : (n m : ℕ) (hs : List ℕ) → n ≤ m → All (λ i. i < n) hs → All (λ i. i < m) hs
All-weaken n m [] h small = tt
All-weaken n m (i ∷ hs) h (less, small) = (omega arith, All-weaken n m hs h small)

open_rule-closes :
    (conn : ℕ) (o : Option ClientRule) (w : Dials)
    → IsNumbered w
    → (open_rule conn o w).open_conns ≡ w.open_conns
unfolding dial
open_rule-closes conn none w small = refl
open_rule-closes conn (some rule) w small = elim (Bool-cases (w.answers w.calls rule.target)) [
  | inl answered ↦ rw answered (without-cons w.calls w.open_conns small)
  | inr refused ↦ rw refused
]

-- `handleOpen` leaves open what was open.
pub handle_open-closes :
    (wrote : Bool) (f : Frame) (rules : Map ClientRule) (w : Dials)
    → IsNumbered w
    → (handle_open wrote f rules w).open_conns ≡ w.open_conns
unfolding handle_open dial
handle_open-closes wrote f rules w small = elim (Bool-cases (w.answers w.calls f.listen)) [
  | inr refused ↦ rw refused
  | inl answered ↦ elim (Bool-cases wrote) [
    | inr failed ↦ rw (answered, failed) (without-cons w.calls w.open_conns small)
    | inl written ↦
        rw (answered, written)
          (ap (without w.calls) (
              open_rule-closes w.calls (lookup f.id rules) _
                (omega arith, All-weaken w.calls (suc w.calls) w.open_conns (omega arith) small))
            ∙ without-cons w.calls w.open_conns small)
  ]
]
