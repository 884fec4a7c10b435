-- ===== src/Tunnel/Session/Listeners.antt =====
-- internal/tunnel/server.go: whose the open listeners are, at every moment of a session.
use port_forwarder.Base.{
  ℕ, ◌≡◌, ◌≢◌, sym, ◌⊎◌, inl, inr, Bool, true, false, ◌||◌, Option, none, some, List, [], ◌∷◌,
  arith, ◌==◌, nat_eq, Option-cases, Bool-cases,
}
use port_forwarder.Base.Text.{Text, text_eq, codes}
use port_forwarder.Base.Map.{Map, lookup, insert, erase, lookup-insert, lookup-erase}
use port_forwarder.Net
use port_forwarder.Net.{Net, Listener, is_open}
use port_forwarder.Net.Laws.{is_open-close, listen-none, listen-some}
use port_forwarder.Tunnel.Protocol.{Frame}
use port_forwarder.Tunnel.Session.{
  RuleState, Dial, Session, register, register_on, unregister, unregister_found, dial, dial_on,
  finish, close_old, without_dial, answers,
}

-- A new session.
abbrev pub new_session : Text → Net → Session
new_session addr net = record {
  rules = [];
  pending = [];
  next_id = 0;
  closed = false;
  local_addr = addr;
  net = net;
  dials = [];
  sent = [];
  changed = [];
  relayed = [];
  dropped = [];
}

abbrev pub is_dialing : ℕ → List Dial → Bool
is_dialing h [] = false
is_dialing h (d ∷ ds) = h == d.data_ln.handle || is_dialing h ds

-- A handle is one of a rule's listener.
abbrev pub HasRule : ℕ → Map RuleState → Type 0
HasRule h rules =
    (k : Text) × (rs : RuleState) × (lookup k rules ≡ some rs) × (rs.listen.handle ≡ h)

-- Whose an open listener is: it was there before the session, or is a rule's, or is one of a data
-- connection that is dialed.
pub data Owner (base : ℕ → Type 0) (h : ℕ) (rules : Map RuleState) (dials : List Dial)
    : Type 0 where
  before : base h → Owner base h rules dials
  by_rule : HasRule h rules → Owner base h rules dials
  by_dial : is_dialing h dials ≡ true → Owner base h rules dials

-- Every open listener has an owner.
abbrev pub Owned : (ℕ → Type 0) → Session → Type 0
Owned base s = (h : ℕ) → is_open h s.net.open_lns ≡ true → Owner base h s.rules s.dials

module _ (base : ℕ → Type 0) where
  -- The rules change, but the rule of the handle stays.
  Owner-rules :
      (h : ℕ) {rules rules' : Map RuleState} {dials : List Dial}
      → (HasRule h rules → HasRule h rules')
      → Owner base h rules dials
      → Owner base h rules' dials
  Owner-rules h f (before b) = before b
  Owner-rules h f (by_rule r) = by_rule (f r)
  Owner-rules h f (by_dial d) = by_dial d

  Owner-dials :
      (h : ℕ) {rules : Map RuleState} {dials dials' : List Dial}
      → (is_dialing h dials ≡ true → is_dialing h dials' ≡ true)
      → Owner base h rules dials
      → Owner base h rules dials'
  Owner-dials h f (before b) = before b
  Owner-dials h f (by_rule r) = by_rule r
  Owner-dials h f (by_dial d) = by_dial (f d)

-- Closing the old listener of an ID, if there is one.
open_after_old :
    (o : Option RuleState) (h : ℕ) (net : Net)
    → is_open h (close_old o net).open_lns ≡ true
    → (is_open h net.open_lns ≡ true) × ((rs : RuleState) → o ≡ some rs → rs.listen.handle ≢ h)
open_after_old none h net p = (p, λ rs e q. cc)
open_after_old (some old) h net p = (
  ground (arith, is_open-close old.listen h net),
  λ rs e q. grind (arith, is_open-close old.listen h net),
)

HasRule-insert :
    (id : Text) (new : RuleState) (h : ℕ) (rules : Map RuleState)
    → ((rs : RuleState) → lookup id rules ≡ some rs → rs.listen.handle ≢ h)
    → HasRule h rules
    → HasRule h (insert id new rules)
HasRule-insert id new h rules gone (k, rs, found, same) = elim (text_eq.dec k id) [
  | yes mine ↦ absurd (gone rs (rw (← mine) found) same)
  | no other ↦ (k, rs, ground (arith, lookup-insert k id new rules), same)
]

HasRule-erase :
    (id : Text) (h : ℕ) (rules : Map RuleState)
    → ((rs : RuleState) → lookup id rules ≡ some rs → rs.listen.handle ≢ h)
    → HasRule h rules
    → HasRule h (erase id rules)
HasRule-erase id h rules gone (k, rs, found, same) = elim (text_eq.dec k id) [
  | yes mine ↦ absurd (gone rs (rw (← mine) found) same)
  | no other ↦ (k, rs, ground (arith, lookup-erase k id rules), same)
]

dialing-without :
    (h k : ℕ) (ds : List Dial)
    → h ≢ k
    → is_dialing h ds ≡ true
    → is_dialing h (without_dial k ds) ≡ true
dialing-without h k [] n p = p
dialing-without h k (d ∷ ds) n p = ground (arith, dialing-without h k ds n)

pub open_listened :
    (a : Text) (net : Net) {ln : Listener} (h : ℕ)
    → (Net.listen a net).0 ≡ some ln
    → is_open h (Net.listen a net).1.open_lns ≡ true
    → (h ≡ ln.handle) ⊎ (is_open h net.open_lns ≡ true)
unfolding is_open
open_listened a net h accepted o = ground (arith, (listen-some a net accepted).1, o)

pub open_closed :
    (ln : Listener) (net : Net) (h : ℕ)
    → is_open h (Net.close ln net).open_lns ≡ true
    → (h ≢ ln.handle) × (is_open h net.open_lns ≡ true)
open_closed ln net h o =
    (ground (arith, is_open-close ln h net), ground (arith, is_open-close ln h net))

module _ (base : ℕ → Type 0) where
  pub register-Owned : (f : Frame) (s : Session) → Owned base s → Owned base (register f s)
  unfolding register register_on
  register-Owned f s own = elim (Option-cases (Net.listen f.listen s.net).0) [
    | inl refused ↦ rw refused (λ h o. own h (rw (← listen-none f.listen s.net refused) o))
    | inr (ln, accepted) ↦ rw accepted (λ h o.
        let (was, gone) = open_after_old (lookup f.id s.rules) h (Net.listen f.listen s.net).1 o in
        elim (open_listened f.listen s.net h accepted was) [
          | inl mine ↦ by_rule (
            f.id,
            record { rule = f; listen = ln },
            ground (arith, lookup-insert f.id f.id (record { rule = f; listen = ln }) s.rules),
            sym mine,
          )
          | inr earlier ↦
              Owner-rules base h
                (HasRule-insert f.id (record { rule = f; listen = ln }) h s.rules gone)
                (own h earlier)
        ])
  ]

  pub unregister-Owned : (id : Text) (s : Session) → Owned base s → Owned base (unregister id s)
  unfolding unregister unregister_found
  unregister-Owned id s own = elim (Option-cases (lookup id s.rules)) [
    | inl absent ↦ rw absent (λ h o.
        Owner-rules base h (HasRule-erase id h s.rules (λ rs e q. absurd (grind arith))) (own h o))
    | inr (rs, found) ↦ rw found (λ h o.
        let (was, gone) = open_after_old (some rs) h s.net o in
        Owner-rules base h (HasRule-erase id h s.rules (rw found gone)) (own h was))
  ]

  dialled-Owned :
      (rule : Text) (c : ℕ) (wrote : Bool) (ln : Listener) (s : Session)
      → (Net.listen (codes ":0") s.net).0 ≡ some ln
      → Owned base s
      → Owned base
          (dial_on rule c wrote (some ln) (record s { net = (Net.listen (codes ":0") s.net).1 }))
  unfolding dial_on
  dialled-Owned rule c true ln s accepted own h o =
      elim (open_listened (codes ":0") s.net h accepted o) [
        | inl mine ↦ by_dial (ground arith)
        | inr earlier ↦ Owner-dials base h (λ p. ground (arith, p)) (own h earlier)
      ]
  dialled-Owned rule c false ln s accepted own h o =
      let (other, was) = open_closed ln (Net.listen (codes ":0") s.net).1 h o in
      elim (open_listened (codes ":0") s.net h accepted was) [
        | inl mine ↦ absurd (other mine)
        | inr earlier ↦ own h earlier
      ]

  -- The data listener of a dial is closed, and the dial is over.
  closing-Owned :
      (d : Dial) (s : Session)
      → Owned base s
      → (h : ℕ) → is_open h (Net.close d.data_ln s.net).open_lns ≡ true
      → Owner base h s.rules (without_dial d.data_ln.handle s.dials)
  closing-Owned d s own h o =
      let (other, was) = open_closed d.data_ln s.net h o in
      Owner-dials base h (dialing-without h d.data_ln.handle s.dials other) (own h was)

  pub dial-Owned :
      (rule : Text) (c : ℕ) (wrote : Bool) (s : Session)
      → Owned base s
      → Owned base (dial rule c wrote s)
  unfolding dial dial_on
  dial-Owned rule c wrote s own = elim (Option-cases (Net.listen (codes ":0") s.net).0) [
    | inl refused ↦ rw refused (λ h o. own h (rw (← listen-none (codes ":0") s.net refused) o))
    | inr (ln, accepted) ↦ rw accepted (dialled-Owned rule c wrote ln s accepted own)
  ]

  pub finish-Owned :
      (d : Dial) (line : Option Text) (s : Session) → Owned base s → Owned base (finish d line s)
  unfolding finish
  finish-Owned d line s own = elim (Bool-cases (answers d line)) [
    | inl yes_it ↦ rw yes_it (closing-Owned d s own)
    | inr not_it ↦ rw not_it (closing-Owned d s own)
  ]
