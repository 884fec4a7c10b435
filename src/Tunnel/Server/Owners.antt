-- ===== src/Tunnel/Server/Owners.antt =====
-- internal/tunnel/server.go: whose the open listeners are, at every moment of a server.
use port_forwarder.Base.{
  ℕ, suc, ◌<◌, ◌≡◌, ◌≢◌, refl, sym, ap, ◌∙◌, ◌⊎◌, inl, inr, Bool, true, false, ◌∷◌, arith, nat_eq,
  contains, without, contains-without,
}
use port_forwarder.Base.Text.{Text, text_eq}
use port_forwarder.Net.{is_open}
use port_forwarder.Tunnel.Session
use port_forwarder.Tunnel.Session.{Session, RuleState, Dial, dial, dial_on, finish, answers}
use port_forwarder.Tunnel.Session.Listeners.{
  new_session, is_dialing, HasRule, Owner, before, by_rule, by_dial,
}
use port_forwarder.Tunnel.Session.Ending.{Event, received, connected, ended, happen, happen-closed}
use port_forwarder.Tunnel.Server.{
  Server, put_session, session, accept_client, on_event, end_if, end_session, IsTimely, Step, Steps,
  connects, happens, ends, here, after,
}
use port_forwarder.Tunnel.Server.Parts.{live, Part, happen-Part, close-Part}

-- A session that a handle belongs to.
abbrev pub Holds : ℕ → Session → Type 0
Holds h s = HasRule h (live s) ⊎ (is_dialing h s.dials ≡ true)

abbrev pub Elsewhere : (ℕ → Type 0) → ℕ → Server → ℕ → Type 0
Elsewhere base i x h = base h ⊎ ((j : ℕ) × (j ≢ i) × (j < x.made) × Holds h (x.sessions j))

abbrev pub Owns : (ℕ → Type 0) → Server → ℕ → Type 0
Owns base x h = base h ⊎ ((j : ℕ) × (j < x.made) × Holds h (x.sessions j))

pub record Inv (base : ℕ → Type 0) (x : Server) : Type 0 where
  pub owned : (h : ℕ) → is_open h x.net.open_lns ≡ true → Owns base x h
  pub listed : (i : ℕ) → i < x.made → (x.sessions i).closed ≡ false → contains x.clients i ≡ true
  pub small : (i : ℕ) → contains x.clients i ≡ true → i < x.made

module _ (base : ℕ → Type 0) (x : Server) (i : ℕ) where
  here_or_not :
      (h : ℕ)
      → Owns base x h
      → Owner (Elsewhere base i x) h (live (x.sessions i)) (x.sessions i).dials
  here_or_not h (inl b) = before (inl b)
  here_or_not h (inr (j, small, holds)) = elim (nat_eq.dec j i) [
    | yes same ↦ elim (rw same at holds) [ inl r ↦ by_rule r | inr d ↦ by_dial d ]
    | no other ↦ before (inr (j, other, small, holds))
  ]

  Inv-Part : Inv base x → Part (Elsewhere base i x) (session i x)
  Inv-Part inv h o = here_or_not h (inv.owned h o)

  module _ (s : Session) where
    at_other : (j : ℕ) → j ≢ i → (put_session i s x).sessions j ≡ x.sessions j
    at_other j other = ground arith

    at_same : (put_session i s x).sessions i ≡ s
    at_same = ground arith

    back :
        (h : ℕ)
        → i < x.made
        → Owner (Elsewhere base i x) h (live s) s.dials
        → Owns base (put_session i s x) h
    back h small (before (inl b)) = inl b
    back h small (before (inr (j, other, there, holds))) =
        inr (j, there, rw (at_other j other) holds)
    back h small (by_rule r) = inr (i, small, rw at_same (inl r))
    back h small (by_dial d) = inr (i, small, rw at_same (inr d))

module _ {base : ℕ → Type 0} {x : Server} (inv : Inv base x) where
  closed_before :
      (i : ℕ) (s : Session) (j : ℕ)
      → s.closed ≡ (x.sessions i).closed
      → ((put_session i s x).sessions j).closed ≡ false
      → (x.sessions j).closed ≡ false
  closed_before i s j same going = elim (nat_eq.dec j i) [
    | yes mine ↦
        rw mine (sym same ∙ ap (λ t. t.closed) (sym (at_same base x i s)) ∙ rw mine at going)
    | no other ↦ ap (λ t. t.closed) (sym (at_other base x i s j other)) ∙ going
  ]

  -- A step of one session.
  put-Inv :
      (i : ℕ) (s : Session)
      → i < x.made
      → s.closed ≡ (x.sessions i).closed
      → Part (Elsewhere base i x) s
      → Inv base (put_session i s x)
  put-Inv i s small same part = record {
    owned = λ h o. back base x i s h small (part h o);
    listed = λ j there going. inv.listed j there (closed_before i s j same going);
    small = inv.small;
  }

  IsTimely-session : (i : ℕ) (v : Event) → IsTimely v (x.sessions i) → IsTimely v (session i x)
  IsTimely-session i (received f) timely = timely
  IsTimely-session i (connected rule c wrote) timely = tt
  IsTimely-session i (ended d line) timely = tt

  on_event-Inv :
      (i : ℕ) (v : Event) → i < x.made → IsTimely v (x.sessions i) → Inv base (on_event i v x)
  unfolding on_event
  on_event-Inv i v small timely =
      put-Inv i (happen v (session i x)) small (happen-closed v (session i x)) (
        happen-Part (Elsewhere base i x) v (session i x) (IsTimely-session i v timely)
          (Inv-Part base x i inv))

  shut_now :
      (i : ℕ)
      → (x.sessions i).closed ≡ false
      → ((put_session i (Session.close (session i x)) x).sessions i).closed ≢ false
  unfolding Session.close
  shut_now i going left = grind (arith, at_same base x i (Session.close (session i x)), going, left)

  closing-Inv :
      (i : ℕ)
      → i < x.made
      → (x.sessions i).closed ≡ false
      → Inv base
          (record (put_session i (Session.close (session i x)) x) { clients = without i x.clients })
  closing-Inv i small going = record {
    owned = λ h o.
        back base x i (Session.close (session i x)) h small
          (close-Part (Elsewhere base i x) (session i x) going (Inv-Part base x i inv) h o);
    listed = λ j there left. elim (nat_eq.dec j i) [
      | yes mine ↦ absurd (shut_now i going (rw mine at left))
      | no other ↦ ground (
        arith,
        contains-without i j x.clients,
        inv.listed j there (
            ap (λ t. t.closed) (sym (at_other base x i (Session.close (session i x)) j other))
            ∙ left),
      )
    ];
    small = λ j is_in. inv.small j (ground (arith, contains-without i j x.clients));
  }

  end_if-Inv :
      (i : ℕ) → i < x.made → (b : Bool) → (x.sessions i).closed ≡ b → Inv base (end_if b i x)
  end_if-Inv i small true over = inv
  end_if-Inv i small false going = closing-Inv i small going

  pub end_session-Inv : (i : ℕ) → i < x.made → Inv base (end_session i x)
  unfolding end_session
  end_session-Inv i small = end_if-Inv i small (x.sessions i).closed refl

  accepted :
      (h : ℕ) (s : Session)
      → Owns base x h
      → Owns base
          (record (put_session x.made s x) { made = suc x.made; clients = x.made ∷ x.clients })
          h
  accepted h s (inl b) = inl b
  accepted h s (inr (j, small, holds)) =
      inr (j, omega arith, rw (at_other base x x.made s j (omega arith)) holds)

  accept_client-Inv : (addr : Text) → Inv base (accept_client addr x)
  unfolding accept_client
  accept_client-Inv addr = record {
    owned = λ h o. accepted h (new_session addr x.net) (inv.owned h o);
    listed = λ j there going. elim (nat_eq.dec j x.made) [
      | yes new ↦ ground arith
      | no other ↦ ground (
        arith,
        inv.listed j (omega (arith, there)) (
            ap (λ t. t.closed) (sym (at_other base x x.made (new_session addr x.net) j other))
            ∙ going),
      )
    ];
    small = λ j is_in. elim (nat_eq.dec j x.made) [
      | yes new ↦ omega (arith, new)
      | no other ↦ omega (arith, inv.small j (ground arith))
    ];
  }

Step-Inv :
    {base : ℕ → Type 0} {x y : Server} → Inv base x → Step x y → (Inv base y) × (y.ctrl ≡ x.ctrl)
unfolding accept_client on_event end_session
Step-Inv inv (connects addr x is_listening) = (accept_client-Inv inv addr, refl)
Step-Inv inv (happens i v x small timely) = (on_event-Inv inv i v small timely, refl)
Step-Inv inv (ends i x small) = (end_session-Inv inv i small, ground arith)

pub Steps-Inv :
    {base : ℕ → Type 0} {x y : Server} → Inv base x → Steps x y → (Inv base y) × (y.ctrl ≡ x.ctrl)
Steps-Inv inv (here x) = (inv, refl)
Steps-Inv inv (after step rest) =
    let (next, same) = Step-Inv inv step in
    let (last, still) = Steps-Inv next rest in (last, still ∙ same)
