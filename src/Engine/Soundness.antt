-- ===== src/Engine/Soundness.antt =====
-- internal/engine/engine.go: the invariant of the engine.
use port_forwarder.Base.{
  ℕ, suc, ◌≡◌, ◌≢◌, refl, Bool, true, false, Option, none, some, List, ◌∷◌, arith, nat_eq,
  Option-cases, inl, inr,
}
use port_forwarder.Base.Text.{Text, text_eq}
use port_forwarder.Base.Map.{lookup, insert, erase, lookup-insert, lookup-erase, lookup-nil}
use port_forwarder.Net
use port_forwarder.Net.{Net, Listener}
use port_forwarder.Engine.{Loop, running, Rule, Engine, edit_found, edit, new}
use port_forwarder.Engine.Queries.{is_remote}
use port_forwarder.Engine.Numbering.{Numbering, Numbering-put}
use port_forwarder.Engine.Sockets.{Sockets, Sockets-refused, Sockets-started, Sockets-stopped}
use port_forwarder.Engine.Steps.{lookup-edit}

-- What stands under one ID: only a local rule has a listener, and a local rule that is shown as
-- running has one.
abbrev pub Fits : Option Rule → Option Listener → Type 0
Fits none none = Unit
Fits none (some ln) = ⊥
Fits (some r) none = is_remote r ≡ false → r.status ≢ running
Fits (some r) (some ln) = is_remote r ≡ false

pub Fits-of :
    (o : Option Rule) (p : Option Listener) {o' : Option Rule} {p' : Option Listener}
    → o' ≡ o
    → p' ≡ p
    → Fits o p
    → Fits o' p'
Fits-of o p d q h = rw (d, q) h

-- A remote rule may be shown with any status.
pub Fits-remote :
    (r r' : Rule) (p : Option Listener)
    → is_remote r ≡ true
    → r'.typ ≡ r.typ
    → Fits (some r) p
    → Fits (some r') p
Fits-remote r r' none far same h = λ is_local. absurd (grind arith)
Fits-remote r r' (some ln) far same h = grind arith

pub record Inv (n : ℕ) {B : Type 0} (e : Engine B) : Type 0 where
  pub numbering : Numbering n e.next_id e.rules
  pub sockets : Sockets e.lns e.stop e.made e.closed e.net
  pub registry : (k : Text) → Fits (lookup k e.rules) (lookup k e.lns)

-- Between two calls the mutex is free.
pub record IsSound (n : ℕ) {B : Type 0} (e : Engine B) : Type 0 where
  pub free : e.held ≡ false
  pub inv : Inv n e

module _ {B : Type 0} {n : ℕ} {e : Engine B} (s : Inv n e) where
  -- No listener stands under an ID that has not been given out.
  pub listener_of_fresh : (k : Text) → lookup k e.rules ≡ none → lookup k e.lns ≡ none
  listener_of_fresh k h = elim (Option-cases (lookup k e.lns)) [
    | inl absent ↦ absent
    | inr (ln, found) ↦ absurd (rw (h, found) at (s.registry k))
  ]

-- The mutex does not matter.
pub Inv-held :
    {B : Type 0} {n : ℕ} {e : Engine B} (b : Bool) → Inv n e → Inv n (record e { held = b })
Inv-held b s = record { numbering = s.numbering; sockets = s.sockets; registry = s.registry }

-- Nor does the backend's state.
pub Inv-remote :
    {B : Type 0} {n : ℕ} {e : Engine B} (b : Option B) → Inv n e → Inv n (record e { remote = b })
Inv-remote b s = record { numbering = s.numbering; sockets = s.sockets; registry = s.registry }

-- The invariant, but for what stands under one ID.
pub record InvBut (id : Text) (n : ℕ) {B : Type 0} (e : Engine B) : Type 0 where
  pub numbering : Numbering n e.next_id e.rules
  pub sockets : Sockets e.lns e.stop e.made e.closed e.net
  pub registry : (k : Text) → k ≢ id → Fits (lookup k e.rules) (lookup k e.lns)

pub InvBut-of_Inv : {B : Type 0} {n : ℕ} {e : Engine B} (id : Text) → Inv n e → InvBut id n e
InvBut-of_Inv id s = record {
  numbering = s.numbering;
  sockets = s.sockets;
  registry = λ k h. s.registry k;
}

module _ {B : Type 0} {n : ℕ} {e : Engine B} {id : Text} (s : InvBut id n e) where
  pub Inv-of_InvBut : Fits (lookup id e.rules) (lookup id e.lns) → Inv n e
  Inv-of_InvBut h = record {
    numbering = s.numbering;
    sockets = s.sockets;
    registry =
        λ k. elim (text_eq.dec k id) [ yes same ↦ rw same h | no other ↦ s.registry k other ];
  }

  Numbering-edit :
      (f : Rule → Rule) {r : Rule}
      → lookup id e.rules ≡ some r
      → (f r).id ≡ r.id
      → Numbering n e.next_id (edit id f e).rules
  unfolding edit edit_found
  Numbering-edit f {r} found keeps = rw found (Numbering-put s.numbering id r (f r) found keeps)

  -- Assignments to fields of a rule, other than its ID.
  pub InvBut-edit :
      (f : Rule → Rule) {r : Rule}
      → lookup id e.rules ≡ some r
      → (f r).id ≡ r.id
      → InvBut id n (edit id f e)
  unfolding edit
  InvBut-edit f found keeps = record {
    numbering = Numbering-edit f found keeps;
    sockets = s.sockets;
    registry = λ k other.
        Fits-of (lookup k e.rules) (lookup k e.lns) (ground (arith, lookup-edit e k id f)) refl
          (s.registry k other);
  }

  pub Inv-edit :
      (f : Rule → Rule) {r : Rule}
      → lookup id e.rules ≡ some r
      → (f r).id ≡ r.id
      → Fits (some (f r)) (lookup id e.lns)
      → Inv n (edit id f e)
  unfolding edit
  Inv-edit f {r} found keeps h = record {
    numbering = Numbering-edit f found keeps;
    sockets = s.sockets;
    registry = λ k. elim (text_eq.dec k id) [
      | yes same ↦
          Fits-of (some (f r)) (lookup id e.lns) (ground (arith, lookup-edit e k id f)) (rw same) h
      | no other ↦
          Fits-of (lookup k e.rules) (lookup k e.lns) (ground (arith, lookup-edit e k id f)) refl
            (s.registry k other)
    ];
  }

  -- A call of `net.Listen` that the operating system refused.
  pub InvBut-refused :
      (a : Text)
      → (Net.listen a e.net).0 ≡ none
      → InvBut id n (record e { net = (Net.listen a e.net).1 })
  InvBut-refused a h = record {
    numbering = s.numbering;
    sockets = Sockets-refused s.sockets a h;
    registry = s.registry;
  }

  pub InvBut-started :
      (a : Text) (ln : Listener) (ls : List Loop)
      → (Net.listen a e.net).0 ≡ some ln
      → InvBut id n (record e {
        net = (Net.listen a e.net).1;
        lns = insert id ln e.lns;
        stop = insert id e.made e.stop;
        made = suc e.made;
        loops = ls;
      })
  InvBut-started a ln ls h = record {
    numbering = s.numbering;
    sockets = Sockets-started s.sockets a id ln h;
    registry = λ k other.
        Fits-of (lookup k e.rules) (lookup k e.lns) refl
          (ground (arith, lookup-insert k id ln e.lns)) (s.registry k other);
  }

  pub InvBut-closed :
      (ln : Listener) (c : ℕ)
      → lookup id e.lns ≡ some ln
      → lookup id e.stop ≡ some c
      → InvBut id n (record e {
        net = Net.close ln e.net;
        closed = c ∷ e.closed;
        lns = erase id e.lns;
        stop = erase id e.stop;
      })
  InvBut-closed ln c at ch = record {
    numbering = s.numbering;
    sockets = Sockets-stopped s.sockets id ln c at ch;
    registry = λ k other.
        Fits-of (lookup k e.rules) (lookup k e.lns) refl (ground (arith, lookup-erase k id e.lns))
          (s.registry k other);
  }

-- A new engine is sound, and its first ID is 1.
pub new-IsSound : {B : Type 0} (net : Net) → IsSound 1 (new {B = B} net)
unfolding new
new-IsSound net = record {
  free = refl;
  inv = record {
    numbering = record {
      counter = refl;
      positive = omega arith;
      nodup = tt;
      keyed = λ k r p. ground (arith, lookup-nil {V = Rule} k);
      numbered = λ k r p. absurd (ground (arith, lookup-nil {V = Rule} k));
    };
    sockets = record {
      stop_of = λ k ln p. absurd (ground (arith, lookup-nil {V = Listener} k));
      stop_small = λ k c p. ground (arith, lookup-nil {V = ℕ} k);
      closed_small = λ c p. ground arith;
      stop_apart = λ j k c p q. ground (arith, lookup-nil {V = ℕ} j);
      opened = λ k ln p. ground (arith, lookup-nil {V = Listener} k);
      handle_small = λ k ln p. ground (arith, lookup-nil {V = Listener} k);
      handle_apart = λ j k l m p q e. ground (arith, lookup-nil {V = Listener} j);
    };
    registry = λ k. Fits-of none none (lookup-nil k) (lookup-nil k) tt;
  };
}
