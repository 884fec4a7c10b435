-- ===== src/Ssh/Client/Running/Closing.antt =====
-- internal/ssh/client.go: what closes the listeners of a client, and which are left.
use mathlib.Core.Path.{subst}
use port_forwarder.Base.{
  ℕ, ◌≡◌, ◌≢◌, refl, ◌⊎◌, inl, inr, true, ◌||◌, some, List, [], ◌∷◌, ◌++◌, ◌==◌, arith, nat_eq,
}
use port_forwarder.Base.Text.{Text, text_eq}
use port_forwarder.Base.Map.{Map, lookup, lookup-nil, lookup-cons}
use port_forwarder.Net
use port_forwarder.Net.{Net, Listener, is_open}
use port_forwarder.Net.Laws.{is_open-close}
use port_forwarder.Ssh.Client.{Client, ClientRule, Error, cancelled, fail_all, fail_each, close_all}
use port_forwarder.Ssh.Client.Running.{
  Call, listeners, rule_ids, call_ids, holds, without, take_all, close_one,
}
use port_forwarder.Ssh.Client.Running.Owners.{Inv, report-Inv}

open_after_all :
    (m : Map Listener) (net : Net) (h : ℕ)
    → is_open h (close_all m net).open_lns ≡ true
    → (is_open h net.open_lns ≡ true)
      × ((k : Text) (ln : Listener) → lookup k m ≡ some ln → ln.handle ≢ h)
open_after_all [] net h o =
    (o, λ k ln found same. absurd (ground (arith, lookup-nil {V = Listener} k)))
open_after_all ((j, x) ∷ m) net h o =
    let (was, rest) = open_after_all m (Net.close x net) h o in
    (
      ground (arith, is_open-close x h net),
      λ k ln found same. elim (text_eq.dec k j) [
        | yes mine ↦ grind (arith, lookup-cons k j x m, is_open-close x h net)
        | no elsewhere ↦ rest k ln (ground (arith, lookup-cons k j x m)) same
      ],
    )

pub holds-append : (k : Text) (a b : List Text) → holds k (a ++ b) ≡ (holds k a || holds k b)
holds-append k [] b = refl
holds-append k (j ∷ a) b = ground (arith, holds-append k a b)

pub holds-without : (k id : Text) (a : List Text) → k ≢ id → holds k (without id a) ≡ holds k a
holds-without k id [] other = refl
holds-without k id (j ∷ a) other = ground (arith, holds-without k id a other)

-- One of the IDs in the middle, or one of the others.
pub rule_ids-middle :
    (k : Text) (front : List ClientRule) (r : ClientRule) (back : List ClientRule)
    → holds k (rule_ids (front ++ r ∷ back)) ≡ ((k == r.id) || holds k (rule_ids (front ++ back)))
rule_ids-middle k [] r back = refl
rule_ids-middle k (q ∷ front) r back = ground (arith, rule_ids-middle k front r back)

pub call_ids-middle :
    (k : Text) (front : List Call) (c : Call) (back : List Call)
    → holds k (call_ids (front ++ c ∷ back))
      ≡ ((k == c.rule.id) || holds k (call_ids (front ++ back)))
call_ids-middle k [] c back = refl
call_ids-middle k (d ∷ front) c back = ground (arith, call_ids-middle k front c back)

-- The handle is that of a listener in the list.
abbrev pub Awaits : ℕ → List Listener → Type 0
Awaits h [] = ⊥
Awaits h (ln ∷ lns) = (ln.handle ≡ h) ⊎ Awaits h lns

Awaits-middle :
    (h : ℕ) (front : List Listener) (ln : Listener) (back : List Listener)
    → Awaits h (front ++ ln ∷ back)
    → (ln.handle ≡ h) ⊎ Awaits h (front ++ back)
Awaits-middle h [] ln back at = at
Awaits-middle h (m ∷ front) ln back (inl first) = inr (inl first)
Awaits-middle h (m ∷ front) ln back (inr rest) = elim (Awaits-middle h front ln back rest) [
  | inl it ↦ inl it
  | inr other ↦ inr (inr other)
]

Awaits-right : (h : ℕ) (a b : List Listener) → Awaits h b → Awaits h (a ++ b)
Awaits-right h [] b at = at
Awaits-right h (ln ∷ a) b at = inr (Awaits-right h a b at)

-- A listener of the client is one of those that `Shutdown` takes.
Awaits-listeners :
    (k : Text) (ln : Listener) (m : Map Listener) (b : List Listener)
    → lookup k m ≡ some ln
    → Awaits ln.handle (listeners m ++ b)
Awaits-listeners k ln [] b at = absurd (ground (arith, lookup-nil {V = Listener} k))
Awaits-listeners k ln ((j, x) ∷ m) b at = elim (text_eq.dec k j) [
  | yes mine ↦ inl (grind (arith, lookup-cons k j x m))
  | no other ↦ inr (Awaits-listeners k ln m b (ground (arith, lookup-cons k j x m)))
]

-- Open before, or about to be closed.
abbrev pub Known : (ℕ → Type 0) → List Listener → ℕ → Type 0
Known base lns h = base h ⊎ Awaits h lns

module _ {base : ℕ → Type 0} {raced : List Text} where
  -- Without listeners, nothing is open that was not before.
  pub drained :
      (c c' : Client)
      → Inv base raced c
      → c'.lns ≡ []
      → c'.net ≡ close_all c.lns c.net
      → Inv base raced c'
  drained c c' inv empty net = record {
    covered = λ k ln at. absurd (ground (arith, empty, lookup-nil {V = Listener} k));
    held = λ h o.
        let (was, gone) = open_after_all c.lns c.net h (rw net at o) in
        elim (inv.held h was) [
          | inl b ↦ inl b
          | inr (k, ln, at, same) ↦ absurd (gone k ln at same)
        ];
  }

  fail_each-Inv :
      (m : Map ClientRule) (err : Error) (c : Client)
      → Inv base raced c
      → Inv base raced (fail_each m err c)
  fail_each-Inv [] err c inv = inv
  fail_each-Inv ((_, r) ∷ m) err c inv =
      fail_each-Inv m err _ (report-Inv r.id r.listen (some err) c inv)

  pub fail_all-Inv : (err : Error) (c : Client) → Inv base raced c → Inv base raced (fail_all err c)
  unfolding fail_all
  fail_all-Inv err c inv = fail_each-Inv c.pending err c inv

  pub cancelled-Inv : (c : Client) → Inv base raced c → Inv base raced (cancelled c)
  unfolding cancelled
  cancelled-Inv c inv = record { covered = inv.covered; held = inv.held }

-- `Shutdown` takes every listener of the client.
pub take_all-Inv :
    {base : ℕ → Type 0} {raced : List Text} (raced' : List Text) (c : Client) (lns : List Listener)
    → Inv (Known base lns) raced c
    → Inv (Known base (listeners c.lns ++ lns)) raced' (take_all c)
take_all-Inv raced' c lns inv = record {
  covered = λ k ln at. absurd (ground (arith, lookup-nil {V = Listener} k));
  held = λ h o. elim (inv.held h o) [
    | inl (inl b) ↦ inl (inl b)
    | inl (inr w) ↦ inl (inr (Awaits-right h (listeners c.lns) lns w))
    | inr (k, ln, at, same) ↦ inl (
        inr (
          subst (λ j. Awaits j (listeners c.lns ++ lns)) same (Awaits-listeners k ln c.lns lns at)))
  ];
}

pub close_one-Inv :
    {base : ℕ → Type 0} {raced : List Text} (front : List Listener) (ln : Listener)
    (back : List Listener) (c : Client)
    → Inv (Known base (front ++ ln ∷ back)) raced c
    → Inv (Known base (front ++ back)) raced (close_one ln c)
close_one-Inv front ln back c inv = record {
  covered = inv.covered;
  held = λ h o. elim (inv.held h (ground (arith, is_open-close ln h c.net))) [
    | inl (inl b) ↦ inl (inl b)
    | inl (inr w) ↦ elim (Awaits-middle h front ln back w) [
      | inl mine ↦ absurd (grind (arith, is_open-close ln h c.net))
      | inr other ↦ inl (inr other)
    ]
    | inr own ↦ inr own
  ];
}
