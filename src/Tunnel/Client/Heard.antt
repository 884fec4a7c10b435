-- ===== src/Tunnel/Client/Heard.antt =====
-- internal/tunnel/client.go: what a server has been told on one connection.
use port_forwarder.Base.{
  ℕ, ◌<◌, ◌≤◌, ◌≡◌, refl, Option, none, some, List, [], ◌∷◌, arith, ◌==◌, nat_eq, if◌then◌else◌,
}
use port_forwarder.Base.Text.{Text, text_eq}
use port_forwarder.Base.Map.{
  Map, lookup, insert, erase, lookup-nil, lookup-cons, lookup-insert, NodupKeys,
}
use port_forwarder.Tunnel.Protocol.{Frame, frame_register, frame_unregister}
use port_forwarder.Tunnel.Client.{ClientRule, register_frame, unregister_frame, values}

abbrev pub rule_of : Frame → ClientRule
rule_of f = record { id = f.id; name = f.name; listen = f.listen; target = f.target }

-- The rules that a frame of the client leaves registered.
unfoldable pub hear : Frame → Map ClientRule → Map ClientRule
unfolding frame_register frame_unregister
hear f m =
    if f.typ == frame_register
    then insert f.id (rule_of f) m
    else if f.typ == frame_unregister
    then erase f.id m
    else m

-- The rules that are registered by what was written to the connection `h`.
unfoldable pub heard : ℕ → List (ℕ × Frame) → Map ClientRule
unfolding hear
heard h [] = []
heard h ((j, f) ∷ fs) = let rest = heard h fs in if h == j then hear f rest else rest

module _ (h : ℕ) (fs : List (ℕ × Frame)) where
  pub heard-register :
      (r : ClientRule) → heard h ((h, register_frame r) ∷ fs) ≡ insert r.id r (heard h fs)
  unfolding heard text_eq nat_eq
  heard-register r = ground arith

  pub heard-unregister :
      (id : Text) → heard h ((h, unregister_frame id) ∷ fs) ≡ erase id (heard h fs)
  unfolding heard text_eq nat_eq
  heard-unregister id = ground arith

-- Nothing has been written yet to a connection that is still to come.
abbrev pub AllBelow : ℕ → List (ℕ × Frame) → Type 0
AllBelow n [] = Unit
AllBelow n ((j, f) ∷ fs) = (j < n) × AllBelow n fs

pub heard-fresh : (n : ℕ) (fs : List (ℕ × Frame)) → AllBelow n fs → heard n fs ≡ []
unfolding heard
heard-fresh n [] below = refl
heard-fresh n ((j, f) ∷ fs) (less, below) = ground (arith, heard-fresh n fs below)

pub AllBelow-weaken : (n m : ℕ) (fs : List (ℕ × Frame)) → n ≤ m → AllBelow n fs → AllBelow m fs
AllBelow-weaken n m [] h below = tt
AllBelow-weaken n m ((j, f) ∷ fs) h (less, below) = (omega arith, AllBelow-weaken n m fs h below)

-- The registrations of a list of rules, one after the other.
abbrev pub insert_all : List ClientRule → Map ClientRule → Map ClientRule
insert_all [] m = m
insert_all (r ∷ rs) m = insert_all rs (insert r.id r m)

abbrev pub IsKeyed : Map ClientRule → Type 0
IsKeyed [] = Unit
IsKeyed ((k, r) ∷ m) = (r.id ≡ k) × IsKeyed m

abbrev or_else : Option ClientRule → Option ClientRule → Option ClientRule
or_else none o = o
or_else (some r) o = some r

-- All the rules of a map, registered in any state, are as in the map.
pub lookup-insert_all :
    (m base : Map ClientRule) (k : Text)
    → NodupKeys m
    → IsKeyed m
    → lookup k (insert_all (values m) base) ≡ or_else (lookup k m) (lookup k base)
lookup-insert_all [] base k u keyed = rw (lookup-nil {V = ClientRule} k)
lookup-insert_all ((j, r) ∷ m) base k u keyed = ground (
  arith,
  lookup-insert_all m (insert r.id r base) k u.1 keyed.1,
  lookup-cons k j r m,
  lookup-insert k r.id r base,
)
