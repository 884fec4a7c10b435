-- ===== src/Ssh/Client/Running/Owners.antt =====
-- internal/ssh/client.go: whose the listeners on the SSH server are, at every moment of `Run`.
use mathlib.Core.Path.{subst}
use port_forwarder.Base.{
  ℕ, ◌≡◌, ◌≢◌, sym, ap, ◌∙◌, ◌⊎◌, inl, inr, true, false, List, Option, none, some, [], arith,
  nat_eq, if◌then◌else◌, Option-cases, Bool-cases,
}
use port_forwarder.Base.Text.{Text, text_eq}
use port_forwarder.Base.Map.{Map, lookup, insert, erase, lookup-insert, lookup-erase}
use port_forwarder.Net
use port_forwarder.Net.{Net, Listener, is_open}
use port_forwarder.Net.Laws.{is_open-close, listen-none, listen-some}
use port_forwarder.Ssh.Client.{
  Client, ClientRule, Error, report, subscribe, add, remove, remote_listen,
}
use port_forwarder.Ssh.Client.Running.{holds, note, fail_new}

-- A handle that is open was open before the client, or is that of one of its listeners.
abbrev pub Held : (ℕ → Type 0) → Map Listener → ℕ → Type 0
Held base lns h =
    base h ⊎ ((k : Text) × (ln : Listener) × (lookup k lns ≡ some ln) × (ln.handle ≡ h))

-- There is a rule under the ID, or the ID is one of a list.
abbrev pub Excused : Map ClientRule → List Text → Text → Type 0
Excused pending raced k = ((r : ClientRule) × (lookup k pending ≡ some r)) ⊎ (holds k raced ≡ true)

-- There is a rule for each listener, but for those of a list, and every listener that is open is
-- accounted for.
pub record Inv (base : ℕ → Type 0) (raced : List Text) (c : Client) : Type 0 where
  pub covered : (k : Text) (ln : Listener) → lookup k c.lns ≡ some ln → Excused c.pending raced k
  pub held : (h : ℕ) → is_open h c.net.open_lns ≡ true → Held base c.lns h

pub insert-Excused :
    (r : ClientRule) (p : Map ClientRule) (raced : List Text) (k : Text)
    → Excused p raced k
    → Excused (insert r.id r p) raced k
insert-Excused r p raced k (inl (q, found)) = elim (text_eq.dec k r.id) [
  | yes mine ↦ inl (r, ground (arith, lookup-insert k r.id r p))
  | no other ↦ inl (q, ground (arith, lookup-insert k r.id r p))
]
insert-Excused r p raced k (inr out) = inr out

pub erase-Excused :
    (id : Text) (p : Map ClientRule) (raced raced' : List Text) (k : Text)
    → k ≢ id
    → holds k raced' ≡ holds k raced
    → Excused p raced k
    → Excused (erase id p) raced' k
erase-Excused id p raced raced' k other same (inl (q, found)) =
    inl (q, ground (arith, lookup-erase k id p))
erase-Excused id p raced raced' k other same (inr out) = inr (same ∙ out)

module _ {base : ℕ → Type 0} {raced : List Text} where
  pub report-Inv :
      (id listen : Text) (err : Option Error) (c : Client)
      → Inv base raced c
      → Inv base raced (report id listen err c)
  report-Inv id listen err c inv = elim (Bool-cases c.on_rule) [
    | inl on ↦ rw on (record { covered = inv.covered; held = inv.held })
    | inr off ↦ rw off (record { covered = inv.covered; held = inv.held })
  ]

  refused-Inv :
      (a : Text) (c : Client)
      → (Net.listen a c.net).0 ≡ none
      → Inv base raced c
      → Inv base raced (record c { net = (Net.listen a c.net).1 })
  refused-Inv a c refused inv = record {
    covered = inv.covered;
    held = λ h o. inv.held h (rw (listen-none a c.net refused) at o);
  }

  accepted-Inv :
      (r : ClientRule) (c : Client) (ln : Listener)
      → lookup r.id c.lns ≡ none
      → (Net.listen r.listen c.net).0 ≡ some ln
      → Excused c.pending raced r.id
      → Inv base raced c
      → Inv base raced
          (record c { net = (Net.listen r.listen c.net).1; lns = insert r.id ln c.lns })
  unfolding is_open
  accepted-Inv r c ln absent accepted excused inv = record {
    covered = λ k m at. elim (text_eq.dec k r.id) [
      | yes mine ↦ rw mine excused
      | no other ↦ inv.covered k m (ground (arith, lookup-insert k r.id ln c.lns))
    ];
    held = λ h o. elim (nat_eq.dec h ln.handle) [
      | yes mine ↦ inr (r.id, ln, ground (arith, lookup-insert r.id r.id ln c.lns), sym mine)
      | no other ↦ elim (inv.held h (ground (arith, (listen-some r.listen c.net accepted).1, o))) [
        | inl b ↦ inl b
        | inr (k, m, at, same) ↦
            inr (k, m, ground (arith, lookup-insert k r.id ln c.lns, at, absent), same)
      ]
    ];
  }

  pub subscribe-Inv :
      (r : ClientRule) (c : Client)
      → Excused c.pending raced r.id
      → Inv base raced c
      → Inv base raced (subscribe r c)
  unfolding subscribe
  subscribe-Inv r c excused inv = elim (Option-cases (lookup r.id c.lns)) [
    | inr (ln, found) ↦ rw found inv
    | inl absent ↦ rw absent (elim (Option-cases (Net.listen r.listen c.net).0) [
      | inl refused ↦ rw refused (
          report-Inv r.id [] (some (remote_listen r.listen)) _ (refused-Inv r.listen c refused inv))
      | inr (ln, accepted) ↦
          rw accepted
            (report-Inv r.id ln.addr none _ (accepted-Inv r c ln absent accepted excused inv))
    ])
  ]

  pub fail_new-Inv :
      (r : ClientRule) (o : Option Listener) (c : Client)
      → Inv base raced c
      → Inv base raced (fail_new r o c)
  fail_new-Inv r none c inv = report-Inv r.id [] (some (remote_listen r.listen)) c inv
  fail_new-Inv r (some ln) c inv = inv

  pub note-Inv : (r : ClientRule) (c : Client) → Inv base raced c → Inv base raced (note r c)
  note-Inv r c inv = record {
    covered = λ k ln at. insert-Excused r c.pending raced k (inv.covered k ln at);
    held = inv.held;
  }

  pub add-Inv :
      (r : ClientRule) (c : Client) → c.conn ≡ false → Inv base raced c → Inv base raced (add r c)
  unfolding add
  add-Inv r c down inv =
      subst (Inv base raced)
        (ap (λ b. if b then subscribe r (note r c) else report r.id r.listen none (note r c))
          (sym down))
        (report-Inv r.id r.listen none (note r c) (note-Inv r c inv))

-- `Remove` leaves no listener under the ID.
pub remove-Inv :
    {base : ℕ → Type 0} {raced : List Text} (raced' : List Text) (id : Text) (c : Client)
    → ((k : Text) → k ≢ id → holds k raced' ≡ holds k raced)
    → Inv base raced c
    → Inv base raced' (remove id c)
unfolding remove
remove-Inv {base} {raced} raced' id c kept inv = elim (Option-cases (lookup id c.lns)) [
  | inl absent ↦ rw absent (record {
    covered = λ k ln at. elim (text_eq.dec k id) [
      | yes mine ↦ absurd (grind (arith, sym at ∙ ap (λ j. lookup j c.lns) mine ∙ absent))
      | no other ↦
          erase-Excused id c.pending raced raced' k other (kept k other) (inv.covered k ln at)
    ];
    held = inv.held;
  })
  | inr (old, there) ↦ rw there (record {
    covered = λ k ln at. elim (text_eq.dec k id) [
      | yes mine ↦ absurd (ground (arith, lookup-erase k id c.lns))
      | no other ↦
          erase-Excused id c.pending raced raced' k other (kept k other)
            (inv.covered k ln (ground (arith, lookup-erase k id c.lns)))
    ];
    held = λ h o. elim (inv.held h (ground (arith, is_open-close old h c.net))) [
      | inl b ↦ inl b
      | inr (k, ln, at, same) ↦
          inr (k, ln, ground (arith, lookup-erase k id c.lns, is_open-close old h c.net, at), same)
    ];
  })
]
