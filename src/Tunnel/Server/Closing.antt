-- ===== src/Tunnel/Server/Closing.antt =====
-- internal/tunnel/server.go: what is left open when the server is closed.
use mathlib.Core.Path.{subst}
use port_forwarder.Base.{
  ℕ, ◌<◌, ◌≡◌, refl, sym, ap, ◌∙◌, ◌⊎◌, inl, inr, Bool, true, false, some, List, [], ◌∷◌, arith,
  nat_eq, contains, Bool-cases, Option-cases,
}
use port_forwarder.Base.Text.{Text, text_eq}
use port_forwarder.Base.Map.{lookup-nil}
use port_forwarder.Net
use port_forwarder.Net.{Net, Listener, is_open}
use port_forwarder.Tunnel.Session
use port_forwarder.Tunnel.Session.{Session, RuleState, Dial, dial, dial_on, finish, answers}
use port_forwarder.Tunnel.Session.Listeners.{is_dialing, HasRule, open_closed, open_listened}
use port_forwarder.Tunnel.Server.{
  Server, end_if, end_session, end_each, close, Steps, new_server, server_on, fresh_server,
}
use port_forwarder.Tunnel.Server.Parts.{live}
use port_forwarder.Tunnel.Server.Owners.{Inv, Steps-Inv, end_session-Inv}

-- What a run of `end_each` leaves.
record AllEnded (base : ℕ → Type 0) (is : List ℕ) (x y : Server) : Type 0 where
  inv : Inv base y
  made : y.made ≡ x.made
  shut :
      (j : ℕ)
      → (contains is j ≡ true) ⊎ ((x.sessions j).closed ≡ true)
      → (y.sessions j).closed ≡ true

end_if-made : (b : Bool) (i : ℕ) (x : Server) → (end_if b i x).made ≡ x.made
end_if-made true i x = refl
end_if-made false i x = refl

end_if-shut :
    (b : Bool) (i : ℕ) (x : Server) (j : ℕ)
    → (x.sessions i).closed ≡ b
    → (j ≡ i) ⊎ ((x.sessions j).closed ≡ true)
    → ((end_if b i x).sessions j).closed ≡ true
unfolding Session.close
end_if-shut true i x j is (inl mine) = rw mine is
end_if-shut true i x j is (inr over) = over
end_if-shut false i x j is (inl mine) = ground arith
end_if-shut false i x j is (inr over) = ground arith

end_each-AllEnded :
    {base : ℕ → Type 0} (is : List ℕ) {x : Server}
    → Inv base x
    → ((j : ℕ) → contains is j ≡ true → j < x.made)
    → AllEnded base is x (end_each is x)
unfolding end_each end_session
end_each-AllEnded [] inv small = record {
  inv = inv;
  made = refl;
  shut = λ j o. elim o [ inl p ↦ absurd (grind arith) | inr over ↦ over ];
}
end_each-AllEnded (i ∷ is) {x} inv small =
    let same = end_if-made (x.sessions i).closed i x in
    let rest =
      end_each-AllEnded is (end_session-Inv inv i (small i (ground arith)))
        (λ j p. rw same (small j (ground arith))) in
    record {
      inv = rest.inv;
      made = rest.made ∙ same;
      shut = λ j o. elim o [
        | inl p ↦ elim (nat_eq.dec j i) [
          | yes mine ↦ rest.shut j (inr (end_if-shut (x.sessions i).closed i x j refl (inl mine)))
          | no other ↦ rest.shut j (inl (ground arith))
        ]
        | inr over ↦ rest.shut j (inr (end_if-shut (x.sessions i).closed i x j refl (inr over)))
      ];
    }

some_inj : {A : Type 0} {a b : A} → some a ≡ some b → a ≡ b
some_inj e = grind arith

-- The listeners that were open before the server, and its own.
abbrev Before : Net → Server → ℕ → Type 0
Before net x h = (is_open h net.open_lns ≡ true) ⊎ (h ≡ x.ctrl.handle)

fresh-Inv :
    (addr : Text) (net : Net) (ln : Listener)
    → (Net.listen addr net).0 ≡ some ln
    → Inv
        (Before net (fresh_server ln (Net.listen addr net).1))
        (fresh_server ln (Net.listen addr net).1)
fresh-Inv addr net ln accepted = record {
  owned = λ h p. elim (open_listened addr net h accepted p) [
    | inl mine ↦ inl (inr mine)
    | inr earlier ↦ inl (inl earlier)
  ];
  listed = λ i there. absurd (omega (arith, there));
  small = λ i is_in. absurd (grind arith);
}

new-Inv :
    (addr : Text) (net : Net) (x : Server) → (new_server addr net).0 ≡ some x → Inv (Before net x) x
unfolding new_server
new-Inv addr net x made = elim (Option-cases (Net.listen addr net).0) [
  | inl refused ↦ absurd (ground (arith, refused, made))
  | inr (ln, accepted) ↦
      subst (λ o. Inv (Before net o) o)
        (some_inj (ap (λ o. (server_on o (Net.listen addr net).1).0) (sym accepted) ∙ made))
        (fresh-Inv addr net ln accepted)
]

-- Without its own listener, which `Close` closes first.
without_ctrl :
    (net : Net) (o x : Server)
    → x.ctrl ≡ o.ctrl
    → Inv (Before net o) x
    → Inv (λ h. is_open h net.open_lns ≡ true) (record x { net = Net.close x.ctrl x.net })
without_ctrl net o x same inv = record {
  owned = λ h p.
      let (other, was) = open_closed x.ctrl x.net h p in
      elim (inv.owned h was) [
        | inl b ↦ elim b [
          | inl earlier ↦ inl earlier
          | inr mine ↦ absurd (other (mine ∙ ap (λ l. l.handle) (sym same)))
        ]
        | inr held ↦ inr held
      ];
  listed = inv.listed;
  small = inv.small;
}

-- What `Close` leaves: every session is closed, and a listener that is open was open before the
-- server, or is one of a data connection that is still being dialed.
pub record Closed (net : Net) (y : Server) : Type 0 where
  pub closed : (i : ℕ) → i < y.made → (y.sessions i).closed ≡ true
  pub open_lns :
      (h : ℕ)
      → is_open h y.net.open_lns ≡ true
      → (is_open h net.open_lns ≡ true)
        ⊎ ((i : ℕ) × (i < y.made) × (is_dialing h (y.sessions i).dials ≡ true))

no_HasRule : (h : ℕ) (s : Session) → s.closed ≡ true → HasRule h (live s) → ⊥
no_HasRule h s over has =
    let (k, rs, found, same) = rw over at has in grind (arith, lookup-nil {V = RuleState} k)

close-Closed :
    (net : Net) (x : Server)
    → Inv (λ h. is_open h net.open_lns ≡ true) (record x { net = Net.close x.ctrl x.net })
    → Closed net (close x)
unfolding close
close-Closed net x inv =
    let end = end_each-AllEnded x.clients inv inv.small in
    let closed : (i : ℕ) → i < (close x).made → ((close x).sessions i).closed ≡ true = λ i there.
      elim (Bool-cases (x.sessions i).closed) [
        | inl over ↦ end.shut i (inr over)
        | inr going ↦ end.shut i (inl (inv.listed i (rw end.made at there) going))
      ] in
    record {
      closed = closed;
      open_lns = λ h p. elim (end.inv.owned h p) [
        | inl earlier ↦ inl earlier
        | inr (i, there, holds) ↦ elim holds [
          | inl has ↦ absurd (no_HasRule h ((close x).sessions i) (closed i there) has)
          | inr dialed ↦ inr (i, there, dialed)
        ]
      ];
    }

-- `Close` of a server in which clients have connected, their sessions have read frames, public
-- connections have come and gone, and sessions have ended, in any order, but that a session reads no
-- frame after it has ended: every session is closed then, and a listener that is open was open
-- before the server was made, or is the one of a data connection that is still being dialed.
pub close-Steps :
    (addr : Text) (net : Net) {o x : Server}
    → (new_server addr net).0 ≡ some o
    → Steps o x
    → Closed net (close x)
close-Steps addr net {o} {x} made steps =
    let (inv, same) = Steps-Inv (new-Inv addr net o made) steps in
    close-Closed net x (without_ctrl net o x same inv)
