-- ===== src/Ssh/Client/Running/Keys.antt =====
-- internal/ssh/client.go: the rules that wait for a connection, and what each method makes of them.
use port_forwarder.Base.{◌≡◌, refl, ◌∙◌, true, Option, none, some, [], ◌∷◌, arith}
use port_forwarder.Base.Text.{Text, text_eq}
use port_forwarder.Base.Map.{Map, lookup, insert, erase, lookup-cons}
use port_forwarder.Net.{Listener}
use port_forwarder.Ssh.Client.{
  Client, ClientRule, Error, report, subscribe, add, remove, fail_all, fail_each,
}
use port_forwarder.Ssh.Client.Running.{values, rule_ids, holds, fail_new}

-- A map of rules holds each under its ID.
abbrev pub Keyed : Map ClientRule → Type 0
Keyed [] = Unit
Keyed ((k, r) ∷ m) = (r.id ≡ k) × Keyed m

pub insert-Keyed : (r : ClientRule) (m : Map ClientRule) → Keyed m → Keyed (insert r.id r m)
unfolding insert
insert-Keyed r [] keyed = (refl, tt)
insert-Keyed r ((j, x) ∷ m) keyed = ground (arith, insert-Keyed r m keyed.1)

pub erase-Keyed : (id : Text) (m : Map ClientRule) → Keyed m → Keyed (erase id m)
unfolding erase
erase-Keyed id [] keyed = tt
erase-Keyed id ((j, x) ∷ m) keyed = ground (arith, erase-Keyed id m keyed.1)

-- A snapshot has only rules that are in the map.
pub values-lookup :
    (k : Text) (m : Map ClientRule)
    → Keyed m
    → holds k (rule_ids (values m)) ≡ true
    → (r : ClientRule) × (lookup k m ≡ some r)
values-lookup k [] keyed there = absurd (ground arith)
values-lookup k ((j, x) ∷ m) keyed there = elim (text_eq.dec k j) [
  | yes mine ↦ (x, ground (arith, lookup-cons k j x m))
  | no other ↦
      let (r, found) = values-lookup k m keyed.1 (ground (arith, keyed.0)) in
      (r, ground (arith, lookup-cons k j x m))
]

pub report-pending :
    (id listen : Text) (err : Option Error) (c : Client)
    → (report id listen err c).pending ≡ c.pending
report-pending id listen err c = ground arith

pub subscribe-pending : (r : ClientRule) (c : Client) → (subscribe r c).pending ≡ c.pending
unfolding subscribe
subscribe-pending r c = ground arith

pub fail_new-pending :
    (r : ClientRule) (o : Option Listener) (c : Client) → (fail_new r o c).pending ≡ c.pending
fail_new-pending r none c = ground arith
fail_new-pending r (some ln) c = refl

pub add-pending : (r : ClientRule) (c : Client) → (add r c).pending ≡ insert r.id r c.pending
unfolding add
add-pending r c = ground (arith, subscribe-pending r)

pub remove-pending : (id : Text) (c : Client) → (remove id c).pending ≡ erase id c.pending
unfolding remove
remove-pending id c = ground arith

fail_each-pending :
    (m : Map ClientRule) (err : Error) (c : Client) → (fail_each m err c).pending ≡ c.pending
fail_each-pending [] err c = refl
fail_each-pending ((_, r) ∷ m) err c =
    fail_each-pending m err (report r.id r.listen (some err) c) ∙ ground arith

pub fail_all-pending : (err : Error) (c : Client) → (fail_all err c).pending ≡ c.pending
unfolding fail_all
fail_all-pending err c = fail_each-pending c.pending err c
