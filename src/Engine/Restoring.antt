-- ===== src/Engine/Restoring.antt =====
-- internal/engine/engine.go: what `Restore` does to a sound engine with saved rules.
use port_forwarder.Base.{
  ℕ, suc, ◌<◌, ◌≡◌, ◌≢◌, refl, sym, ◌∙◌, true, false, Option, none, some, arith, leb, ◌==◌,
  if◌then◌else◌, Option-cases, inl, inr,
}
use port_forwarder.Base.Int.{pos, max_int, inc_below}
use port_forwarder.Base.Text.{Text, text_eq}
use port_forwarder.Base.Map.{lookup, insert, lookup-insert}
use port_forwarder.Base.Prog.{returns, Ensures, returned, Ensures-step, Ensures-eq, Ensures-weaken}
use port_forwarder.Decimal.{format, atoi}
use port_forwarder.Decimal.RoundTrip.{atoi-format}
use port_forwarder.Net
use port_forwarder.Net.{Net, Listener}
use port_forwarder.Engine.{
  Status, unset, running, error, pending, Rule, RemoteBackend, Engine, lock, unlock, edit,
  put_status, set_status,
}
use port_forwarder.Engine.Queries.{is_remote}
use port_forwarder.Engine.Methods.{bump, restore_local, restore_remote, call_add}
use port_forwarder.Engine.Numbering.{Numbering-insert}
use port_forwarder.Engine.Steps.{lookup-edit, lock_free, unlock_held, start_refused, start_accepted}
use port_forwarder.Engine.Soundness.{
  Fits, Fits-of, IsSound, InvBut, Inv-of_InvBut, Inv-edit, InvBut-refused, InvBut-started,
  listener_of_fresh,
}
use port_forwarder.Engine.Reports.{SameRule, IsQuiet, Reported, call_add-Reported}

-- Where the counter stands after the rule of number `i` is restored.
abbrev pub raised : ℕ → ℕ → ℕ
raised n i = if leb n i then suc i else n

bump_lem :
    (n i : ℕ) (id : Text) → id ≡ format i → i < max_int → bump (atoi id) (pos n) ≡ pos (raised n i)
unfolding bump
bump_lem n i id named small =
    rw (named, atoi-format i (omega arith)) (ground (arith, inc_below i small))

-- A local rule: after a successful start it has no status, for `Restore` sets none.
abbrev pub restored_status : Option Listener → Status
restored_status none = error
restored_status (some ln) = unset

module _ {B : Type 0} (e : Engine B) (r : Rule) where
  abbrev pub remembered : Engine B
  remembered = record e {
    held = false;
    next_id = bump (atoi r.id) e.next_id;
    rules = insert r.id (put_status unset r) e.rules;
  }

-- A saved rule that is back: under its ID, with the fields that were saved; nothing else has changed
-- but the counter, which is past the ID.
pub record Restored (n i : ℕ) (r : Rule) {B : Type 0} (e e' : Engine B) : Type 0 where
  pub sound : IsSound (raised n i) e'
  pub mine : (r' : Rule) × (lookup r.id e'.rules ≡ some r') × SameRule r r'
  pub others : (k : Text) → k ≢ r.id → lookup k e'.rules ≡ lookup k e.rules

module _ {B : Type 0} {n : ℕ} {e : Engine B} (s : IsSound n e) (r : Rule) (i : ℕ)
    (named : r.id ≡ format i) (positive : 0 < i) (small : i < max_int)
    (fresh : lookup r.id e.rules ≡ none) where
  no_listener : lookup r.id e.lns ≡ none
  no_listener = listener_of_fresh s.inv r.id fresh

  own : lookup r.id (remembered e r).rules ≡ some (put_status unset r)
  own = ground (arith, lookup-insert r.id r.id (put_status unset r) e.rules)

  remembered-InvBut : InvBut r.id (raised n i) (remembered e r)
  unfolding put_status
  remembered-InvBut = record {
    numbering =
        rw (s.inv.numbering.counter, bump_lem n i r.id named small)
          (Numbering-insert s.inv.numbering (put_status unset r) i (raised n i) named positive
            (ground arith) (ground arith));
    sockets = s.inv.sockets;
    registry = λ k other.
        Fits-of (lookup k e.rules) (lookup k e.lns)
          (ground (arith, lookup-insert k r.id (put_status unset r) e.rules)) refl
          (s.inv.registry k);
  }

  -- The rule as it stands in the map before it is started, with any status but running.
  remembered-IsSound :
      (st : Status)
      → st ≢ running
      → IsSound (raised n i) (edit r.id (put_status st) (remembered e r))
  unfolding edit put_status
  remembered-IsSound st h = record {
    free = refl;
    inv = Inv-edit remembered-InvBut (put_status st) own refl (rw no_listener (λ is_local. h));
  }

  lookup-remembered :
      (st : Status) (k : Text)
      → lookup k (edit r.id (put_status st) (remembered e r)).rules
        ≡ (if k == r.id then some (put_status st r) else lookup k e.rules)
  unfolding put_status
  lookup-remembered st k = ground (
    arith,
    lookup-insert k r.id (put_status unset r) e.rules,
    own,
    lookup-edit (remembered e r) k r.id (put_status st),
  )

  pub record RestoredLocal (e' : Engine B) : Type 0 where
    pub restored : Restored n i r e e'
    pub mine :
        lookup r.id e'.rules ≡ some (put_status (restored_status (Net.listen r.listen e.net).0) r)
    pub ln : lookup r.id e'.lns ≡ (Net.listen r.listen e.net).0

  restore_refused :
      (Net.listen r.listen e.net).0 ≡ none
      → Ensures (λ _ e'. RestoredLocal e') (restore_local (put_status unset r) (remembered e r))
  unfolding restore_local put_status edit
  restore_refused refused = Ensures-step _ (lock_free (remembered e r) refl) (
      Ensures-step _
        (start_refused (record (remembered e r) { held = true }) (put_status unset r) refused)
        (Ensures-eq (unlock_held _ refl) (
          returned tt _ (record {
            restored = record {
              sound = record {
                free = refl;
                inv =
                    Inv-edit (InvBut-refused remembered-InvBut r.listen refused) (put_status error)
                      own refl (rw no_listener (λ h p. cc));
              };
              mine = (
                put_status error r,
                ground (arith, lookup-remembered error r.id),
                record {
                  id = refl;
                  typ = refl;
                  name = refl;
                  target = refl;
                  credential = refl;
                  listen = λ h. refl;
                },
              );
              others = λ k h. ground (arith, lookup-remembered error k);
            };
            mine = rw refused (ground (arith, lookup-remembered error r.id));
            ln = no_listener ∙ sym refused;
          }))))

  restore_accepted :
      (ln : Listener)
      → (Net.listen r.listen e.net).0 ≡ some ln
      → is_remote r ≡ false
      → Ensures (λ _ e'. RestoredLocal e') (restore_local (put_status unset r) (remembered e r))
  unfolding restore_local put_status
  restore_accepted ln accepted is_local = Ensures-step _ (lock_free (remembered e r) refl) (
      Ensures-step _
        (start_accepted (record (remembered e r) { held = true }) (put_status unset r) ln accepted)
        (Ensures-eq (unlock_held _ refl) (
          returned tt _ (record {
            restored = record {
              sound = record {
                free = refl;
                inv =
                    Inv-of_InvBut (InvBut-started remembered-InvBut r.listen ln _ accepted)
                      started_Fits;
              };
              mine = (
                put_status unset r,
                own,
                record {
                  id = refl;
                  typ = refl;
                  name = refl;
                  target = refl;
                  credential = refl;
                  listen = λ h. refl;
                },
              );
              others = λ k h. ground (arith, lookup-insert k r.id (put_status unset r) e.rules);
            };
            mine = rw accepted own;
            ln = ground (arith, accepted, lookup-insert r.id r.id ln e.lns);
          }))))
    where
      started_Fits : Fits (lookup r.id (remembered e r).rules) (lookup r.id (insert r.id ln e.lns))
      started_Fits =
          Fits-of (some (put_status unset r)) (some ln) own
            (ground (arith, lookup-insert r.id r.id ln e.lns)) is_local

  pub restore_local_lem :
      is_remote r ≡ false
      → Ensures (λ _ e'. RestoredLocal e') (restore_local (put_status unset r) (remembered e r))
  restore_local_lem is_local = elim (Option-cases (Net.listen r.listen e.net).0) [
    | inl refused ↦ restore_refused refused
    | inr (ln, accepted) ↦ restore_accepted ln accepted is_local
  ]

  module _ (be : RemoteBackend B) (quiet : IsQuiet be) where
    remote_nil :
        e.remote ≡ none
        → restore_remote be (put_status unset r) (remembered e r)
          ≡ returns tt (edit r.id (put_status error) (remembered e r))
    unfolding restore_remote lock unlock set_status edit put_status
    remote_nil is_nil = rw is_nil

    remote_some :
        {b : B}
        → e.remote ≡ some b
        → restore_remote be (put_status unset r) (remembered e r)
          ≡ call_add be (put_status pending r) (edit r.id (put_status pending) (remembered e r))
    unfolding restore_remote lock unlock set_status edit put_status
    remote_some is_some = rw is_some

    pub restore_remote_lem :
        is_remote r ≡ true
        → Ensures
            (λ _ e'. Restored n i r e e')
            (restore_remote be (put_status unset r) (remembered e r))
    unfolding put_status
    restore_remote_lem far = elim (Option-cases e.remote) [
      | inl is_nil ↦ Ensures-eq (remote_nil is_nil) (
          returned tt _ (record {
            sound = remembered-IsSound error (λ p. cc);
            mine = (
              put_status error r,
              ground (arith, lookup-remembered error r.id),
              record {
                id = refl;
                typ = refl;
                name = refl;
                target = refl;
                credential = refl;
                listen = λ h. refl;
              },
            );
            others = λ k h. ground (arith, lookup-remembered error k);
          }))
      | inr (b, is_some) ↦ Ensures-eq (remote_some is_some) (
          Ensures-weaken
            (call_add-Reported be quiet (edit r.id (put_status pending) (remembered e r)) b
              (put_status pending r) (put_status pending r) (remembered-IsSound pending (λ p. cc))
              (ground (arith, lookup-remembered pending r.id)) far (unfold edit in is_some))
            (λ _ e' done. pending_Restored b e' done))
    ]
      where
        pending_Restored :
            (b : B) (e' : Engine B)
            → Reported
                (raised n i)
                r.id
                (put_status pending r)
                (record (edit r.id (put_status pending) (remembered e r)) {
                  remote = some (be.add_remote (put_status pending r) b).0;
                })
                e'
            → Restored n i r e e'
        pending_Restored b e' done =
            let (r', found, same) = done.mine in
            record {
              sound = done.sound;
              mine = (
                r',
                found,
                record {
                  id = same.id;
                  typ = same.typ;
                  name = same.name;
                  target = same.target;
                  credential = same.credential;
                  listen = same.listen;
                },
              );
              others = λ k h. done.others k h ∙ ground (arith, lookup-remembered pending k);
            }
