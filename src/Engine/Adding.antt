-- ===== src/Engine/Adding.antt =====
-- internal/engine/engine.go: what `Add` does to a sound engine with a local rule.
use port_forwarder.Base.{
  ℕ, suc, ◌<◌, ◌≡◌, refl, false, Option, none, some, ◌∷◌, arith, ◌==◌, nat_eq, if◌then◌else◌,
  Option-cases, inl, inr,
}
use port_forwarder.Base.Int.{max_int, inc, inc_below}
use port_forwarder.Base.Text.{Text, text_eq}
use port_forwarder.Base.Map.{lookup, insert, lookup-insert}
use port_forwarder.Base.Prog.{returns, Ensures, returned, Ensures-step, Ensures-bind, Ensures-eq}
use port_forwarder.Decimal.{format, format_int}
use port_forwarder.Net
use port_forwarder.Net.{Net, Listener}
use port_forwarder.Engine.{
  Status, running, error, Rule, Error, listen_failed, RemoteBackend, Engine, edit, put_status,
}
use port_forwarder.Engine.Queries.{is_remote}
use port_forwarder.Engine.Methods.{add, next_rule, record_rule, start_rule, add_local_rule}
use port_forwarder.Engine.Numbering.{Numbering-insert, Numbering-fresh}
use port_forwarder.Engine.Steps.{lookup-edit, start_refused, start_accepted, lock_free, unlock_held}
use port_forwarder.Engine.Soundness.{
  Fits-of, IsSound, InvBut, Inv-of_InvBut, Inv-edit, InvBut-refused, InvBut-started,
  listener_of_fresh,
}

-- The error that `startLocked` makes of the answer to `net.Listen`.
abbrev pub listen_error : Text → Option Listener → Option Error
listen_error a none = some (listen_failed a)
listen_error a (some ln) = none

abbrev pub shown : Option Error → Status
shown none = running
shown (some x) = error

module _ {B : Type 0} (e : Engine B) (r : Rule) where
  abbrev pub recorded : Engine B
  recorded = record e { held = false; next_id = inc e.next_id; rules = insert r.id r e.rules }

  pub record_rule_free : e.held ≡ false → record_rule r e ≡ returns tt recorded
  unfolding record_rule
  record_rule_free h = rw (lock_free e h) (unlock_held _ refl)

-- What `Add` of a local rule does: the rule is there, with the status that goes with the error that
-- is returned, and has a listener unless the address was refused; nothing else changes.
pub record AddedLocal (n : ℕ) (r : Rule) {B : Type 0} (e : Engine B) (err : Option Error)
    (e' : Engine B) : Type 0 where
  pub sound : IsSound (suc n) e'
  pub fresh : lookup r.id e.rules ≡ none
  pub failed : err ≡ listen_error r.listen (Net.listen r.listen e.net).0
  pub rules :
      (k : Text)
      → lookup k e'.rules
        ≡ (if k == r.id then some (put_status (shown err) r) else lookup k e.rules)
  pub lns :
      (k : Text)
      → lookup k e'.lns ≡ (if k == r.id then (Net.listen r.listen e.net).0 else lookup k e.lns)
  pub net : e'.net ≡ (Net.listen r.listen e.net).1
  pub remote : e'.remote ≡ e.remote

module _ {B : Type 0} {n : ℕ} {e : Engine B} (s : IsSound n e) (room : n < max_int) where
  -- With the new rule in the map, all is well but under the new ID.
  pub recorded-InvBut : (r : Rule) → r.id ≡ format n → InvBut r.id (suc n) (recorded e r)
  recorded-InvBut r named = record {
    numbering =
        rw (s.inv.numbering.counter, inc_below n room)
          (Numbering-insert s.inv.numbering r n (suc n) named s.inv.numbering.positive (omega arith)
            (omega arith));
    sockets = s.inv.sockets;
    registry = λ k other.
        Fits-of (lookup k e.rules) (lookup k e.lns) (ground (arith, lookup-insert k r.id r e.rules))
          refl (s.inv.registry k);
  }

  module _ (r : Rule) (named : r.id ≡ format n) where
    new_rule : lookup r.id (recorded e r).rules ≡ some r
    new_rule = ground (arith, lookup-insert r.id r.id r e.rules)

    fresh_id : lookup r.id e.rules ≡ none
    fresh_id = rw named (Numbering-fresh s.inv.numbering n (omega arith))

    no_listener : lookup r.id e.lns ≡ none
    no_listener = listener_of_fresh s.inv r.id fresh_id

    module _ (on : r.status ≡ running) (is_local : is_remote r ≡ false) where
      add_refused :
          (Net.listen r.listen e.net).0 ≡ none
          → AddedLocal n r e (some (listen_failed r.listen)) (
              edit r.id
                (put_status error)
                (record (recorded e r) { net = (Net.listen r.listen e.net).1 }))
      unfolding edit put_status
      add_refused refused = record {
        sound = record {
          free = refl;
          inv =
              Inv-edit (InvBut-refused (recorded-InvBut r named) r.listen refused)
                (put_status error) new_rule refl (rw no_listener (λ h p. cc));
        };
        fresh = fresh_id;
        failed = rw refused;
        rules = λ k. ground (
          arith,
          lookup-insert k r.id r e.rules,
          lookup-insert r.id r.id r e.rules,
          lookup-edit (recorded e r) k r.id (put_status error),
        );
        lns = λ k. ground (arith, no_listener);
        net = refl;
        remote = refl;
      }

      add_accepted :
          (ln : Listener)
          → (Net.listen r.listen e.net).0 ≡ some ln
          → AddedLocal n r e none (record (recorded e r) {
            net = (Net.listen r.listen e.net).1;
            lns = insert r.id ln e.lns;
            stop = insert r.id e.made e.stop;
            made = suc e.made;
            loops = record { rule = r.id; ln = ln; stop_ch = e.made } ∷ e.loops;
          })
      unfolding put_status
      add_accepted ln accepted = record {
        sound = record {
          free = refl;
          inv = Inv-of_InvBut (InvBut-started (recorded-InvBut r named) r.listen ln _ accepted) (
              rw (lookup-insert r.id r.id r e.rules, lookup-insert r.id r.id ln e.lns)
                (ground arith));
        };
        fresh = fresh_id;
        failed = rw accepted;
        rules = λ k. ground (arith, lookup-insert k r.id r e.rules);
        lns = λ k. ground (arith, lookup-insert k r.id ln e.lns);
        net = refl;
        remote = refl;
      }

      add_local_rule-Added :
          Ensures (λ err e'. AddedLocal n r e err e') (add_local_rule r (recorded e r))
      unfolding add_local_rule
      add_local_rule-Added = elim (Option-cases (Net.listen r.listen e.net).0) [
        | inl refused ↦
            Ensures-step _ (start_refused (recorded e r) r refused)
              (returned _ _ (add_refused refused))
        | inr (ln, accepted) ↦
            Ensures-step _ (start_accepted (recorded e r) r ln accepted)
              (returned _ _ (add_accepted ln accepted))
      ]

module _ (typ name listen target credential : Text) where
  -- The rule that `Add` makes when the counter stands at `n`.
  abbrev pub made_rule : ℕ → Rule
  made_rule n = record {
    id = format n;
    typ = typ;
    name = name;
    listen = listen;
    target = target;
    status = running;
    credential = credential;
  }

  pub next_rule_lem :
      {B : Type 0} {n : ℕ} {e : Engine B}
      → IsSound n e
      → next_rule typ name listen target credential e ≡ returns (made_rule n) e
  unfolding next_rule format_int
  next_rule_lem s = rw s.inv.numbering.counter

module _ {B : Type 0} (be : RemoteBackend B) where
  start_rule_local :
      (r : Rule) (e : Engine B) → is_remote r ≡ false → start_rule be r e ≡ add_local_rule r e
  unfolding start_rule
  start_rule_local r e h = rw h

  module _ (typ name listen target credential : Text) where
    abbrev the_rule : ℕ → Rule
    the_rule = made_rule typ name listen target credential

    -- `Add` of a local rule to a sound engine whose counter `n` is below the largest int returns,
    -- with the ID of `n`, which no rule had, and an error just if the operating system refused the
    -- address. The engine is sound again, the counter is one higher, the map has the new rule
    -- under its ID, shown as running with the listener that was bound, or as failed without one,
    -- and every other rule and listener is as before.
    pub add_local :
        {n : ℕ} {e : Engine B}
        → IsSound n e
        → n < max_int
        → is_remote (the_rule n) ≡ false
        → Ensures
            (λ res e'. (res.0 ≡ format n) × AddedLocal n (the_rule n) e res.1 e')
            (add be typ name listen target credential e)
    unfolding add
    add_local {n} {e} s room is_local =
        Ensures-step _ (next_rule_lem typ name listen target credential s) (
          Ensures-step _ (record_rule_free e (the_rule n) s.free) (
            Ensures-bind _
              (Ensures-eq (start_rule_local (the_rule n) (recorded e (the_rule n)) is_local)
                (add_local_rule-Added s room (the_rule n) refl refl is_local))
              (λ err e' p. returned _ _ (refl, p))))
