-- ===== src/Engine/AddingRemote.antt =====
-- internal/engine/engine.go: what `Add` does to a sound engine with a remote rule.
use port_forwarder.Base.{
  ℕ, suc, ◌<◌, ◌≡◌, ◌≢◌, refl, ◌∙◌, true, false, none, some, arith, ◌==◌, if◌then◌else◌,
}
use port_forwarder.Base.Int.{max_int}
use port_forwarder.Base.Text.{Text, text_eq}
use port_forwarder.Base.Map.{lookup, lookup-insert}
use port_forwarder.Base.Prog.{
  returns, continue, pure, Ensures, returned, Ensures-step, Ensures-bind, Ensures-eq,
}
use port_forwarder.Decimal.{format}
use port_forwarder.Engine.{
  Status, error, pending, Rule, no_backend, RemoteBackend, Engine, lock, unlock, set_status, edit,
  put_status,
}
use port_forwarder.Engine.Queries.{is_remote}
use port_forwarder.Engine.Methods.{add, start_rule, add_remote_rule, call_add}
use port_forwarder.Engine.Steps.{lookup-edit}
use port_forwarder.Engine.Soundness.{IsSound, Inv-edit, listener_of_fresh}
use port_forwarder.Engine.Numbering.{Numbering-fresh}
use port_forwarder.Engine.Reports.{SameRule, IsQuiet, call_add-Reported}
use port_forwarder.Engine.Adding.{
  made_rule, next_rule_lem, recorded, record_rule_free, recorded-InvBut,
}

-- The state in which `Add` and `Restore` set the status of a new rule.
module _ {B : Type 0} (be : RemoteBackend B) (r : Rule) (e : Engine B) (free : e.held ≡ false) where
  pub add_remote_rule-nil :
      e.remote ≡ none
      → add_remote_rule be r e
        ≡ returns (some no_backend) (edit r.id (put_status error) (record e { held = false }))
  unfolding add_remote_rule lock unlock set_status edit
  add_remote_rule-nil is_nil = ground arith

  pub add_remote_rule-some :
      {b : B}
      → e.remote ≡ some b
      → add_remote_rule be r e
        ≡ continue
            (call_add be
              (put_status pending r)
              (edit r.id (put_status pending) (record e { held = false })))
            (λ _. pure none)
  unfolding add_remote_rule lock unlock set_status edit
  add_remote_rule-some is_some = rw (free, is_some)

-- A new remote rule that was handed to the backend: it is there, the backend was called once with
-- the rule as pending, and nothing else has changed.
pub record AddedRemote {B : Type 0} (be : RemoteBackend B) (n : ℕ) (r : Rule) (b : B)
    (e e' : Engine B) : Type 0 where
  pub sound : IsSound (suc n) e'
  pub fresh : lookup r.id e.rules ≡ none
  pub mine : (r' : Rule) × (lookup r.id e'.rules ≡ some r') × SameRule r r'
  pub others : (k : Text) → k ≢ r.id → lookup k e'.rules ≡ lookup k e.rules
  pub lns : e'.lns ≡ e.lns
  pub net : e'.net ≡ e.net
  pub remote : e'.remote ≡ some (be.add_remote (put_status pending r) b).0

-- A new remote rule in an engine with no backend: it is kept, and shown as failed.
pub record AddedOrphan (n : ℕ) (r : Rule) {B : Type 0} (e e' : Engine B) : Type 0 where
  pub sound : IsSound (suc n) e'
  pub fresh : lookup r.id e.rules ≡ none
  pub rules :
      (k : Text)
      → lookup k e'.rules ≡ (if k == r.id then some (put_status error r) else lookup k e.rules)
  pub lns : e'.lns ≡ e.lns
  pub net : e'.net ≡ e.net
  pub remote : e'.remote ≡ e.remote

module _ {B : Type 0} (be : RemoteBackend B) {n : ℕ} {e : Engine B} (s : IsSound n e)
    (room : n < max_int) (r : Rule) (named : r.id ≡ format n) (far : is_remote r ≡ true) where
  fresh_id : lookup r.id e.rules ≡ none
  fresh_id = rw named (Numbering-fresh s.inv.numbering n (omega arith))

  new_rule : lookup r.id (recorded e r).rules ≡ some r
  new_rule = ground (arith, lookup-insert r.id r.id r e.rules)

  -- The new rule with a status, and no listener.
  recorded-IsSound : (st : Status) → IsSound (suc n) (edit r.id (put_status st) (recorded e r))
  unfolding edit put_status
  recorded-IsSound st = record {
    free = refl;
    inv =
        Inv-edit (recorded-InvBut s room r named) (put_status st) new_rule refl
          (rw (listener_of_fresh s.inv r.id fresh_id) (λ is_local. absurd (grind arith)));
  }

  lookup-recorded :
      (st : Status) (k : Text)
      → lookup k (edit r.id (put_status st) (recorded e r)).rules
        ≡ (if k == r.id then some (put_status st r) else lookup k e.rules)
  lookup-recorded st k = ground (
    arith,
    lookup-insert k r.id r e.rules,
    lookup-insert r.id r.id r e.rules,
    lookup-edit (recorded e r) k r.id (put_status st),
  )

  pub add_remote_rule-Orphan :
      e.remote ≡ none
      → Ensures
          (λ err e'. (err ≡ some no_backend) × AddedOrphan n r e e')
          (add_remote_rule be r (recorded e r))
  unfolding edit
  add_remote_rule-Orphan is_nil = Ensures-eq (add_remote_rule-nil be r (recorded e r) refl is_nil) (
      returned _ _ (
        refl,
        record {
          sound = recorded-IsSound error;
          fresh = fresh_id;
          rules = lookup-recorded error;
          lns = refl;
          net = refl;
          remote = refl;
        },
      ))

  pub add_remote_rule-Added :
      {b : B}
      → IsQuiet be
      → e.remote ≡ some b
      → Ensures
          (λ err e'. (err ≡ none) × AddedRemote be n r b e e')
          (add_remote_rule be r (recorded e r))
  unfolding edit put_status
  add_remote_rule-Added {b} quiet is_some =
      Ensures-eq (add_remote_rule-some be r (recorded e r) refl is_some) (
        Ensures-bind _
          (call_add-Reported be quiet _ b (put_status pending r) (put_status pending r)
            (recorded-IsSound pending) (ground (arith, lookup-recorded pending r.id)) far is_some)
          (λ _ e' done. returned _ _ (
            refl,
            record {
              sound = done.sound;
              fresh = fresh_id;
              mine =
                  let (r', found, same) = done.mine in
                  (
                    r',
                    found,
                    record {
                      id = same.id;
                      typ = same.typ;
                      name = same.name;
                      target = same.target;
                      credential = same.credential;
                      listen = same.listen;
                    },
                  );
              others = λ k h. done.others k h ∙ ground (arith, lookup-recorded pending k);
              lns = done.lns;
              net = done.net;
              remote = done.remote;
            },
          )))

module _ {B : Type 0} (be : RemoteBackend B) where
  start_rule_remote :
      (r : Rule) (e : Engine B) → is_remote r ≡ true → start_rule be r e ≡ add_remote_rule be r e
  unfolding start_rule
  start_rule_remote r e h = rw h

  module _ (typ name listen target credential : Text) {n : ℕ} {e : Engine B} (s : IsSound n e)
      (room : n < max_int)
      (far : is_remote (made_rule typ name listen target credential n) ≡ true) where
    abbrev new_remote : Rule
    new_remote = made_rule typ name listen target credential n

    -- `Add` of a remote rule to a sound engine without a backend, with its counter `n` below the
    -- largest int, returns the ID of `n` and the error that there is no backend. The rule is kept
    -- all the same, shown as failed; no other rule, no listener and nothing on the network
    -- changes.
    pub add_orphan :
        e.remote ≡ none
        → Ensures
            (λ res e'.
              (res.0 ≡ format n) × (res.1 ≡ some no_backend) × AddedOrphan n new_remote e e')
            (add be typ name listen target credential e)
    unfolding add
    add_orphan is_nil = Ensures-step _ (next_rule_lem typ name listen target credential s) (
        Ensures-step _ (record_rule_free e new_remote s.free) (
          Ensures-bind _
            (Ensures-eq (start_rule_remote new_remote (recorded e new_remote) far)
              (add_remote_rule-Orphan be s room new_remote refl far is_nil))
            (λ err e' p. returned _ _ (refl, p.0, p.1))))

    -- `Add` of a remote rule to a sound engine with a quiet backend, with the counter `n` below
    -- the largest int, returns the ID of `n`, which no rule had, and no error. The backend has
    -- been called once, with the rule as pending; the rule is in the map with all its fields but
    -- the status and the address, which the backend may have reported, and no other rule, no
    -- listener and nothing on the network changes.
    pub add_remote_lem :
        {b : B}
        → IsQuiet be
        → e.remote ≡ some b
        → Ensures
            (λ res e'. (res.0 ≡ format n) × (res.1 ≡ none) × AddedRemote be n new_remote b e e')
            (add be typ name listen target credential e)
    unfolding add
    add_remote_lem quiet is_some =
        Ensures-step _ (next_rule_lem typ name listen target credential s) (
          Ensures-step _ (record_rule_free e new_remote s.free) (
            Ensures-bind _
              (Ensures-eq (start_rule_remote new_remote (recorded e new_remote) far)
                (add_remote_rule-Added be s room new_remote refl far quiet is_some))
              (λ err e' p. returned _ _ (refl, p.0, p.1))))
