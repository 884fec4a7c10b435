-- ===== src/Ssh/Client/Reconnecting.antt =====
-- internal/ssh/client.go: what a client has when a connection is up, and after a removal.
use port_forwarder.Base.{
  ℕ, ◌≡◌, refl, sym, ap, ◌∙◌, ◌⊎◌, inl, inr, Bool, true, false, ◌&&◌, ◌||◌, Option, none, some,
  List, [], ◌∷◌, arith, ◌==◌, if◌then◌else◌, Option-cases,
}
use port_forwarder.Base.Text.{Text, text_eq}
use port_forwarder.Base.Map.{
  Map, lookup, insert, lookup-nil, lookup-cons, lookup-insert, lookup-erase,
}
use port_forwarder.Net
use port_forwarder.Net.{Net, Listener, is_open}
use port_forwarder.Net.Laws.{is_open-close, listen-none, listen-some}
use port_forwarder.Ssh.Client.{
  ClientRule, Error, RuleReport, Client, report, subscribe, subscribe_each, connected,
  drain_listeners, remove, close_entry, forget, remote_listen,
}

abbrev is_failure : Option Error → Bool
is_failure none = false
is_failure (some x) = true

-- A failure was reported for the ID.
abbrev pub reported_failure : Text → List RuleReport → Bool
reported_failure k [] = false
reported_failure k (r ∷ rs) = k == r.id && is_failure r.err || reported_failure k rs

-- The rule has a listener, or a failure was reported for it.
abbrev pub Settled : Text → Client → Type 0
Settled k c = ((ln : Listener) × (lookup k c.lns ≡ some ln)) ⊎ (reported_failure k c.reports ≡ true)

-- The server has every listener of the client open.
abbrev pub AllOpen : Client → Type 0
AllOpen c =
    (k : Text) (ln : Listener) → lookup k c.lns ≡ some ln → is_open ln.handle c.net.open_lns ≡ true

is_open-listen :
    (a : Text) (h : ℕ) (net : Net)
    → is_open h net.open_lns ≡ true
    → is_open h (Net.listen a net).1.open_lns ≡ true
unfolding is_open
is_open-listen a h net o = elim (Option-cases (Net.listen a net).0) [
  | inl refused ↦ rw (listen-none a net refused) o
  | inr (ln, accepted) ↦ rw ((listen-some a net accepted).1) (ground (arith, o))
]

module _ (r : ClientRule) (c : Client) where
  subscribe-on_rule : (subscribe r c).on_rule ≡ c.on_rule
  unfolding subscribe
  subscribe-on_rule = ground arith

  subscribe-pending : (subscribe r c).pending ≡ c.pending
  unfolding subscribe
  subscribe-pending = ground arith

  subscribe-settles : c.on_rule ≡ true → Settled r.id (subscribe r c)
  unfolding subscribe
  subscribe-settles on = elim (Option-cases (lookup r.id c.lns)) [
    | inr (ln, found) ↦ rw found (inl (ln, found))
    | inl absent ↦ rw absent (elim (Option-cases (Net.listen r.listen c.net).0) [
      | inl refused ↦ rw (refused) (rw on (inr (ground arith)))
      | inr (ln, accepted) ↦
          rw (accepted) (rw on (inl (ln, ground (arith, lookup-insert r.id r.id ln c.lns))))
    ])
  ]

  kept_listener :
      (k : Text) (ln : Listener)
      → lookup k c.lns ≡ some ln
      → (m : Listener) × (lookup k (subscribe r c).lns ≡ some m)
  unfolding subscribe
  kept_listener k ln at = elim (Option-cases (lookup r.id c.lns)) [
    | inr (there, found) ↦ rw found (ln, at)
    | inl absent ↦ rw absent (elim (Option-cases (Net.listen r.listen c.net).0) [
      | inl refused ↦ rw refused (ln, ground (arith, at))
      | inr (new, accepted) ↦
          rw accepted (ln, ground (arith, at, absent, lookup-insert k r.id new c.lns))
    ])
  ]

  kept_failure :
      (k : Text)
      → reported_failure k c.reports ≡ true
      → reported_failure k (subscribe r c).reports ≡ true
  unfolding subscribe
  kept_failure k h = ground arith

  subscribe-keeps : (k : Text) → Settled k c → Settled k (subscribe r c)
  subscribe-keeps k (inl (ln, at)) = inl (kept_listener k ln at)
  subscribe-keeps k (inr h) = inr (kept_failure k h)

-- The listeners and the network that a new listener leaves.
report-lns :
    (id listen : Text) (err : Option Error) (c : Client) → (report id listen err c).lns ≡ c.lns
report-lns id listen err c = ground arith

report-net :
    (id listen : Text) (err : Option Error) (c : Client) → (report id listen err c).net ≡ c.net
report-net id listen err c = ground arith

module _ (r : ClientRule) (c : Client) (all : AllOpen c) where
  AllOpen-report :
      (id listen : Text) (err : Option Error) (c' : Client)
      → AllOpen c'
      → AllOpen (report id listen err c')
  AllOpen-report id listen err c' ok k ln at =
      rw (report-net id listen err c') (ok k ln (rw (report-lns id listen err c') at at))

  AllOpen-listen :
      (ln : Listener)
      → (Net.listen r.listen c.net).0 ≡ some ln
      → AllOpen (record c { net = (Net.listen r.listen c.net).1; lns = insert r.id ln c.lns })
  unfolding is_open
  AllOpen-listen ln accepted k m at =
      rw ((listen-some r.listen c.net accepted).1)
        (ground (arith, lookup-insert k r.id ln c.lns, all k m))

  subscribe-AllOpen : AllOpen (subscribe r c)
  unfolding subscribe
  subscribe-AllOpen = elim (Option-cases (lookup r.id c.lns)) [
    | inr (there, found) ↦ rw found all
    | inl absent ↦ rw absent (elim (Option-cases (Net.listen r.listen c.net).0) [
      | inl refused ↦ rw refused (
          AllOpen-report r.id [] (some (remote_listen r.listen))
            (record c { net = (Net.listen r.listen c.net).1 })
            (λ k ln at. is_open-listen r.listen ln.handle c.net (all k ln at)))
      | inr (ln, accepted) ↦
          rw accepted (AllOpen-report r.id ln.addr none _ (AllOpen-listen ln accepted))
    ])
  ]

-- The loop of `subscribeAll`.
each_keeps :
    (m : Map ClientRule) (k : Text) (c : Client) → Settled k c → Settled k (subscribe_each m c)
unfolding subscribe_each
each_keeps [] k c s = s
each_keeps ((_, r) ∷ m) k c s = each_keeps m k (subscribe r c) (subscribe-keeps r c k s)

each_AllOpen : (m : Map ClientRule) (c : Client) → AllOpen c → AllOpen (subscribe_each m c)
unfolding subscribe_each
each_AllOpen [] c all = all
each_AllOpen ((_, r) ∷ m) c all = each_AllOpen m (subscribe r c) (subscribe-AllOpen r c all)

abbrev id_of : Option ClientRule → Text
id_of none = []
id_of (some r) = r.id

each_settles :
    (m : Map ClientRule) (c : Client)
    → c.on_rule ≡ true
    → (k : Text) (r : ClientRule) → lookup k m ≡ some r
    → Settled r.id (subscribe_each m c)
unfolding subscribe_each
each_settles [] c on k r at = absurd (ground (arith, lookup-nil {V = ClientRule} k))
each_settles ((j, x) ∷ m) c on k r at = elim (text_eq.dec k j) [
  | yes mine ↦
      let same : some x ≡ some r = sym (ground (arith, lookup-cons k j x m, mine)) ∙ at in
      each_keeps m r.id (subscribe x c) (rw (← ap id_of same) (subscribe-settles x c on))
  | no other ↦
      each_settles m (subscribe x c) (subscribe-on_rule x c ∙ on) k r
        (ground (arith, lookup-cons k j x m))
]

-- A dial of `Run` succeeds, in a client with a callback, and whatever listeners are left from the
-- last connection: each rule of the client gets a listener, or a failure has been reported for it,
-- and the server has every listener of the client open.
pub connected_lem :
    (c : Client)
    → c.on_rule ≡ true
    → AllOpen (connected c)
      × ((k : Text) (r : ClientRule) → lookup k c.pending ≡ some r → Settled r.id (connected c))
unfolding connected
connected_lem c on =
    let c' : Client = drain_listeners (record c { conn = true }) in
    (
      each_AllOpen c.pending c' (λ k ln at. absurd (ground (arith, lookup-nil {V = Listener} k))),
      each_settles c.pending c' on,
    )

-- A rule is removed: the client has neither the rule nor a listener for it, the server has the
-- listener closed, and everything else is as it was.
record RemovedRule (id : Text) (c c' : Client) : Type 0 where
  pending : (k : Text) → lookup k c'.pending ≡ (if k == id then none else lookup k c.pending)
  lns : (k : Text) → lookup k c'.lns ≡ (if k == id then none else lookup k c.lns)
  closed : (ln : Listener) → lookup id c.lns ≡ some ln → is_open ln.handle c'.net.open_lns ≡ false
  reports : c'.reports ≡ c.reports

abbrev handle_of : Option Listener → ℕ
handle_of none = 0
handle_of (some ln) = ln.handle

remove_found :
    (id : Text) (c : Client) (ln : Listener)
    → lookup id c.lns ≡ some ln
    → RemovedRule id c (forget id (close_entry id (some ln) c))
remove_found id c ln at = record {
  pending = λ k. lookup-erase k id c.pending;
  lns = λ k. lookup-erase k id c.lns;
  closed =
      λ m found. ground (arith, is_open-close ln m.handle c.net, ap handle_of (sym at ∙ found));
  reports = refl;
}

-- `Remove` of any ID: the client has no rule and no listener under it afterwards, and if it had a
-- listener, the server has it closed; every other rule and listener is as before, and nothing is
-- reported.
remove-RemovedRule : (id : Text) (c : Client) → RemovedRule id c (remove id c)
unfolding remove
remove-RemovedRule id c = elim (Option-cases (lookup id c.lns)) [
  | inl absent ↦ rw absent (record {
    pending = λ k. lookup-erase k id c.pending;
    lns = λ k. ground (arith, absent);
    closed = λ m found. absurd (ground (arith, found));
    reports = refl;
  })
  | inr (ln, found) ↦ rw found (remove_found id c ln found)
]
