-- ===== src/Ssh/Manager/Serving.antt =====
-- internal/ssh/manager.go: which rules the clients have.
use mathlib.Core.Path.{subst}
use port_forwarder.Base.{◌≡◌, refl, sym, ap, ◌∙◌, ◌⊎◌, true, Option, none, some, arith, contains}
use port_forwarder.Base.Text.{Text, text_eq}
use port_forwarder.Base.Map.{NodupKeys, lookup, insert, erase, lookup-insert}
use port_forwarder.Engine.{Rule}
use port_forwarder.Ssh.Client
use port_forwarder.Ssh.Client.{Client, ClientRule, subscribe, new_client, set_on_rule}
use port_forwarder.Ssh.Manager.{Manager, client_rule, edit_at}

abbrev pub credential_of : Option Rule → Option Text
credential_of none = none
credential_of (some r) = some r.credential

-- A rule of a credential's client is one of the manager's, with that credential.
abbrev pub Owns : Text → Option Rule → ClientRule → Type 0
Owns cred none q = ⊥
Owns cred (some r) q = (r.credential ≡ cred) × (q ≡ client_rule r)

-- Which rules may be reported instead of served, by their ID, and which credentials may have a
-- client, for which address.
pub record Policy : Type 1 where
  pub unserved : Text → Rule → Type 0
  pub dialled : Text → Text → Type 0

-- Nothing is asked of either.
abbrev pub any_policy : Policy
any_policy = record { unserved = λ k r. Unit; dialled = λ cred addr. Unit }

-- A rule is with its credential's client, or was reported and may be.
abbrev pub Covered : Policy → Text → Rule → Manager → Type 0
Covered p k r m =
    ((contains m.refused k ≡ true) × p.unserved k r)
    ⊎ ((cl : Client) × (lookup r.credential m.clients ≡ some cl)
        × (lookup k cl.pending ≡ some (client_rule r)))

-- The manager's maps agree, but that the rule under one ID may not be covered.
pub record Agrees (p : Policy) (but : Text → Type 0) (m : Manager) : Type 0 where
  pub nodup : NodupKeys m.rules
  pub by : (k : Text) → lookup k m.by_rule ≡ credential_of (lookup k m.rules)
  pub owns :
      (cred : Text) (cl : Client) (k : Text) (q : ClientRule)
      → lookup cred m.clients ≡ some cl
      → lookup k cl.pending ≡ some q
      → Owns cred (lookup k m.rules) q
  pub covered : (k : Text) (r : Rule) → lookup k m.rules ≡ some r → ¬ (but k) → Covered p k r m
  pub made : (cred : Text) (cl : Client) → lookup cred m.clients ≡ some cl → p.dialled cred cl.addr

abbrev pub Good : Policy → Manager → Type 0
Good p m = Agrees p (λ k. ⊥) m

pending-subscribe : (r : ClientRule) (c : Client) → (subscribe r c).pending ≡ c.pending
unfolding subscribe
pending-subscribe r c = ground arith

pub pending-add : (r : ClientRule) (c : Client) → (Client.add r c).pending ≡ insert r.id r c.pending
unfolding Client.add
pending-add r c = ground (arith, pending-subscribe r)

pub pending-remove : (id : Text) (c : Client) → (Client.remove id c).pending ≡ erase id c.pending
unfolding Client.remove
pending-remove id c = ground arith

subscribe-addr : (r : ClientRule) (c : Client) → (subscribe r c).addr ≡ c.addr
unfolding subscribe
subscribe-addr r c = ground arith

pub add-addr : (r : ClientRule) (c : Client) → (Client.add r c).addr ≡ c.addr
unfolding Client.add
add-addr r c = ground (arith, subscribe-addr r)

pub remove-addr : (id : Text) (c : Client) → (Client.remove id c).addr ≡ c.addr
unfolding Client.remove
remove-addr id c = ground arith

abbrev addr_of : Text → Option Client → Text
addr_of a none = a
addr_of a (some cl) = cl.addr

-- A method of a client that leaves its address alone.
pub made-insert :
    (p : Policy) (m : Manager) (owner : Text) (new : Client)
    → ((cred : Text) (cl : Client) → lookup cred m.clients ≡ some cl → p.dialled cred cl.addr)
    → p.dialled owner new.addr
    → (cred : Text) (cl : Client) → lookup cred (insert owner new m.clients) ≡ some cl
    → p.dialled cred cl.addr
made-insert p m owner new made this cred cl at = elim (text_eq.dec cred owner) [
  | yes mine ↦
      let is : some cl ≡ some new =
        sym at ∙ ground (arith, lookup-insert cred owner new m.clients) in
      subst (λ c. p.dialled c cl.addr) (sym mine)
        (subst (p.dialled owner) (sym (ap (addr_of new.addr) is)) this)
  | no other ↦ made cred cl (ground (arith, lookup-insert cred owner new m.clients))
]

pub Owns-of :
    (cred : Text) (o : Option Rule) (q : ClientRule) {o' : Option Rule}
    → o' ≡ o
    → Owns cred o q
    → Owns cred o' q
Owns-of cred o q e h = rw e h

abbrev pub pending_at : Text → Option Client → Option ClientRule
pending_at k none = none
pending_at k (some cl) = lookup k cl.pending

pub rules-edit_at :
    (cred : Text) (f : Client → Client) (o : Option Client) (m : Manager)
    → (edit_at cred f o m).rules ≡ m.rules
rules-edit_at cred f none m = refl
rules-edit_at cred f (some cl) m = refl
