-- ===== src/Engine/Rebinding.antt =====
-- internal/engine/engine.go: `Restart` when every local rule gets its address.
pub mod Returning
use port_forwarder.Base.{
  ℕ, suc, ◌≡◌, ◌≢◌, refl, sym, ◌∙◌, ap, ◌⊎◌, inl, inr, true, false, Option, none, some, List, [],
  ◌∷◌, arith, ◌==◌, nat_eq, if◌then◌else◌, Option-cases, Bool-cases,
}
use port_forwarder.Base.Text.{Text, text_eq}
use port_forwarder.Base.Map.{Map, lookup, insert, lookup-insert, lookup-cons, NodupKeys}
use port_forwarder.Base.Prog.{
  returns, hangs, Ensures, returned, Ensures-bind, Ensures-step, Ensures-elim, Ensures-at,
}
use port_forwarder.Net
use port_forwarder.Net.{Net, Listener, addr_in_use, close_handle}
use port_forwarder.Engine.{running, Rule, Engine, edit, put_status}
use port_forwarder.Engine.Queries.{
  is_remote, restart, restart_started, restart_rule, restart_loop, restart_result,
}
use port_forwarder.Engine.Steps.{start_accepted}
use port_forwarder.Engine.Soundness.{Inv, IsSound}
use port_forwarder.Engine.Stopping.{net_without, stop_locked-Stopped}

-- Closing listeners frees addresses and takes none.
in_use-close :
    (a : Text) (h : ℕ) (ls : List Listener)
    → addr_in_use a ls ≡ false
    → addr_in_use a (close_handle h ls) ≡ false
unfolding addr_in_use close_handle
in_use-close a h [] free = free
in_use-close a h (l ∷ ls) free = ground (arith, in_use-close a h ls, free)

close_handle_comm :
    (h j : ℕ) (ls : List Listener)
    → close_handle h (close_handle j ls) ≡ close_handle j (close_handle h ls)
unfolding close_handle
close_handle_comm h j [] = refl
close_handle_comm h j (l ∷ ls) = ground (arith, close_handle_comm h j ls)

module _ (a : Text) (ln : Listener) (other : ln.addr ≢ a) where
  in_use-cons : (ls : List Listener) → addr_in_use a ls ≡ false → addr_in_use a (ln ∷ ls) ≡ false
  unfolding addr_in_use
  in_use-cons ls free = ground (arith, other, free)

  in_use-close-cons :
      (h : ℕ) (ls : List Listener)
      → addr_in_use a (close_handle h ls) ≡ false
      → addr_in_use a (close_handle h (ln ∷ ls)) ≡ false
  unfolding addr_in_use close_handle
  in_use-close-cons h ls free = ground (arith, other, free)

  -- Another listener was closed, or not, and `ln` was opened.
  still_free :
      (o p : Option Listener) (net net' : Net)
      → net'.open_lns ≡ ln ∷ (net_without p net).open_lns
      → addr_in_use a (net_without o net).open_lns ≡ false
      → addr_in_use a (net_without o net').open_lns ≡ false
  unfolding Net.close
  still_free none none net net' is free = rw is (in_use-cons _ free)
  still_free none (some q) net net' is free = rw is (in_use-cons _ (in_use-close a q.handle _ free))
  still_free (some l) none net net' is free = rw is (in_use-close-cons l.handle _ free)
  still_free (some l) (some q) net net' is free = rw is (
      in_use-close-cons l.handle _
        (rw (close_handle_comm l.handle q.handle net.open_lns) (in_use-close a q.handle _ free)))

listen-free :
    (a : Text) (net : Net)
    → net.resolve net.calls a ≡ some a
    → addr_in_use a net.open_lns ≡ false
    → ((Net.listen a net).0 ≡ some (record { handle = net.calls; addr = a }))
      × ((Net.listen a net).1.open_lns ≡ record { handle = net.calls; addr = a } ∷ net.open_lns)
      × ((Net.listen a net).1.resolve ≡ net.resolve)
unfolding Net.listen
listen-free a net binds free =
    (ground (arith, binds, free), ground (arith, binds, free), ground (arith, binds, free))

resolve-without : (o : Option Listener) (net : Net) → (net_without o net).resolve ≡ net.resolve
unfolding Net.close
resolve-without none net = refl
resolve-without (some l) net = refl

-- Nobody but the rule itself listens on its address, and the operating system binds that.
pub record CanBind (r : Rule) {B : Type 0} (e : Engine B) : Type 0 where
  pub free : addr_in_use r.listen (net_without (lookup r.id e.lns) e.net).open_lns ≡ false
  pub binds : (i : ℕ) → e.net.resolve i r.listen ≡ some r.listen

-- What a round for a local rule does to the listeners.
pub record Rebound (r : Rule) {B : Type 0} (e e1 : Engine B) : Type 0 where
  ln : Listener
  addr : ln.addr ≡ r.listen
  open_lns : e1.net.open_lns ≡ ln ∷ (net_without (lookup r.id e.lns) e.net).open_lns
  resolve : e1.net.resolve ≡ e.net.resolve
  lns : (k : Text) → k ≢ r.id → lookup k e1.lns ≡ lookup k e.lns

module _ {B : Type 0} {n : ℕ} {e : Engine B} (inv : Inv n e) (r own : Rule)
    (found : lookup r.id e.rules ≡ some own) (is_local : is_remote r ≡ false)
    (own_local : is_remote own ≡ false) (can : CanBind r e) where
  pub restart_rule-Rebound : Ensures (λ _ e1. Rebound r e e1) (restart_rule r e)
  unfolding restart_rule restart_started restart_result edit
  restart_rule-Rebound =
      let freed = net_without (lookup r.id e.lns) e.net in
      let same : freed.resolve ≡ e.net.resolve = resolve-without (lookup r.id e.lns) e.net in
      let bound =
        listen-free r.listen freed (ap (λ f. f freed.calls r.listen) same ∙ can.binds freed.calls)
          can.free in
      rw is_local (
        Ensures-bind _ (stop_locked-Stopped inv r.id found own_local) (λ _ e1 stopped.
          let net = stopped.0.net in
          let got = ap (λ w. (Net.listen r.listen w).0) net ∙ bound.0 in
          Ensures-step _ (start_accepted e1 r _ got) (
            returned _ _ (record {
              ln = record { handle = freed.calls; addr = r.listen };
              addr = refl;
              open_lns = ap (λ w. (Net.listen r.listen w).1.open_lns) net ∙ bound.1;
              resolve = ap (λ w. (Net.listen r.listen w).1.resolve) net ∙ bound.2 ∙ same;
              lns = λ k other. ground (
                arith,
                lookup-insert k r.id (record { handle = freed.calls; addr = r.listen }) e1.lns,
                stopped.0.lns k,
              );
            }))))

-- Another rule, with another address, can still be bound.
pub CanBind-Rebound :
    {B : Type 0} {e e1 : Engine B} (r q : Rule)
    → Rebound r e e1
    → q.id ≢ r.id
    → r.listen ≢ q.listen
    → CanBind q e
    → CanBind q e1
CanBind-Rebound {e = e} {e1 = e1} r q reb others apart can = record {
  free = rw (reb.lns q.id others) (
      still_free q.listen reb.ln (λ is. apart (sym reb.addr ∙ is)) (lookup q.id e.lns)
        (lookup r.id e.lns) e.net e1.net reb.open_lns can.free);
  binds = λ i. ap (λ f. f i q.listen) reb.resolve ∙ can.binds i;
}
