-- ===== src/Engine/Updating.antt =====
-- internal/engine/engine.go: what `Update` does to a sound engine.
use port_forwarder.Base.{
  ℕ, ◌≡◌, refl, ◌∙◌, ap, true, false, Option, none, some, arith, ◌==◌, if◌then◌else◌, Option-cases,
  inl, inr,
}
use mathlib.Core.Path.{subst}
use port_forwarder.Base.Text.{Text, text_eq}
use port_forwarder.Base.Map.{lookup, insert, lookup-insert}
use port_forwarder.Base.Prog.{
  Prog, returns, continue, pure, modify, ◌>>=◌, ◌>>◌, Ensures, returned, Ensures-step, Ensures-bind,
  Ensures-eq,
}
use port_forwarder.Net
use port_forwarder.Net.{Net, Listener}
use port_forwarder.Engine.{
  error, Rule, Error, rule_not_found, RemoteBackend, Engine, lock, unlock, edit, put_status,
  start_locked,
}
use port_forwarder.Engine.Queries.{is_remote}
use port_forwarder.Engine.Methods.{update, update_local_rule, put_local}
use port_forwarder.Engine.Steps.{lookup-edit, lock_free, unlock_held, start_refused, start_accepted}
use port_forwarder.Engine.Soundness.{
  Fits, Fits-of, Inv, IsSound, Inv-held, InvBut, InvBut-of_Inv, InvBut-edit, Inv-edit,
  Inv-of_InvBut, InvBut-refused, InvBut-started,
}
use port_forwarder.Engine.Stopping.{net_without, Stopped, Stopped-held, stop_locked-Stopped}
use port_forwarder.Engine.Adding.{listen_error, shown}

-- A local rule after an update: it keeps its ID, type and credential, its old listener is closed,
-- and it has a new one unless the address was refused, in which case it is shown as failed. No
-- other rule or listener has changed.
pub record UpdatedLocal (n : ℕ) (id name listen target : Text) (r : Rule) {B : Type 0}
    (e : Engine B) (err : Option Error) (e' : Engine B) : Type 0 where
  pub sound : IsSound n e'
  pub failed : err ≡ listen_error listen (Net.listen listen (net_without (lookup id e.lns) e.net)).0
  pub rules :
      (k : Text)
      → lookup k e'.rules ≡ (
          if k == id
          then some (put_status (shown err) (put_local name listen target r))
          else lookup k e.rules)
  pub lns :
      (k : Text)
      → lookup k e'.lns ≡ (
          if k == id
          then (Net.listen listen (net_without (lookup id e.lns) e.net)).0
          else lookup k e.lns)
  pub net : e'.net ≡ (Net.listen listen (net_without (lookup id e.lns) e.net)).1
  pub remote : e'.remote ≡ e.remote

-- The part of `Update` behind `stopLocked`.
start_part : {B : Type 0} → Text → Text → Text → Rule → Prog (Engine B) (Option Error)
start_part name listen target r = do
  modify (edit r.id (put_local name listen target))
  err ← start_locked (put_local name listen target r)
  elim err [
    | none ↦ unlock >> pure none
    | some x ↦ do modify (edit r.id (put_status error)); unlock; pure (some x)
  ]

module _ (name listen target : Text) {B : Type 0} {n : ℕ} {e : Engine B} {r : Rule}
    (is_local : is_remote r ≡ false) (e1 : Engine B) (st : Stopped r.id r e e1) (inv : Inv n e1)
    (held : e1.held ≡ true) where
  abbrev renewed : Rule
  renewed = put_local name listen target r

  abbrev edited : Engine B
  edited = edit r.id (put_local name listen target) e1

  -- Whether or not the rule had a listener, its fields are now the new ones.
  lookup-edited :
      (k : Text) → lookup k edited.rules ≡ (if k == r.id then some renewed else lookup k e1.rules)
  unfolding put_local put_status
  lookup-edited k =
      let (r', found, which) = st.mine in
      ground (arith, lookup-edit e1 k r.id (put_local name listen target))

  edited-InvBut : InvBut r.id n edited
  unfolding put_local put_status
  edited-InvBut =
      let (r', found, which) = st.mine in
      InvBut-edit (InvBut-of_Inv r.id inv) (put_local name listen target) found refl

  no_listener : lookup r.id e1.lns ≡ none
  no_listener = ground (arith, st.lns r.id)

  start_refused_part :
      (Net.listen listen e1.net).0 ≡ none
      → Ensures
          (λ err e'. UpdatedLocal n r.id name listen target r e err e')
          (start_part name listen target r e1)
  unfolding start_part edit put_local
  start_refused_part refused = Ensures-step _ (start_refused edited renewed refused) (
      Ensures-step _ (unlock_held _ held) (
        returned _ _ (record {
          sound = record {
            free = refl;
            inv = Inv-held false (
                Inv-edit (InvBut-refused edited-InvBut listen refused) (put_status error)
                  {r = renewed} (ground (arith, lookup-edited r.id)) put_status_id failed_Fits);
          };
          failed = rw (← st.net) (rw refused);
          rules = λ k. ground (
            arith,
            lookup-edit edited k r.id (put_status error),
            lookup-edited k,
            lookup-edited r.id,
            st.others k,
          );
          lns = λ k. rw (← st.net) (ground (arith, st.lns k));
          net = rw (← st.net);
          remote = st.remote;
        })))
    where
      put_status_id : (put_status error renewed).id ≡ r.id
      put_status_id = unfold put_status put_local in refl

      failed_Fits : Fits (some (put_status error renewed)) (lookup r.id e1.lns)
      failed_Fits = rw no_listener (unfold put_status put_local in λ h p. cc)

  start_accepted_part :
      (ln : Listener)
      → (Net.listen listen e1.net).0 ≡ some ln
      → Ensures
          (λ err e'. UpdatedLocal n r.id name listen target r e err e')
          (start_part name listen target r e1)
  unfolding start_part edit put_local put_status
  start_accepted_part ln accepted = Ensures-step _ (start_accepted edited renewed ln accepted) (
      Ensures-step _ (unlock_held _ held) (
        returned _ _ (record {
          sound = record {
            free = refl;
            inv =
                Inv-held false
                  (Inv-of_InvBut (InvBut-started edited-InvBut listen ln _ accepted) started_Fits);
          };
          failed = rw (← st.net) (rw accepted);
          rules = λ k. ground (arith, lookup-edited k, st.others k);
          lns = λ k. rw (← st.net) (ground (arith, st.lns k, lookup-insert k r.id ln e1.lns));
          net = rw (← st.net);
          remote = st.remote;
        })))
    where
      started_Fits : Fits (lookup r.id edited.rules) (lookup r.id (insert r.id ln e1.lns))
      started_Fits =
          Fits-of (some renewed) (some ln) (ground (arith, lookup-edited r.id))
            (ground (arith, lookup-insert r.id r.id ln e1.lns)) is_local

  start_part-Updated :
      Ensures
        (λ err e'. UpdatedLocal n r.id name listen target r e err e')
        (start_part name listen target r e1)
  start_part-Updated = elim (Option-cases (Net.listen listen e1.net).0) [
    | inl refused ↦ start_refused_part refused
    | inr (ln, accepted) ↦ start_accepted_part ln accepted
  ]

module _ {B : Type 0} (be : RemoteBackend B) (name listen target credential : Text) where
  -- Updating what is not there is an error, and changes nothing.
  pub update_absent :
      (e : Engine B) (id : Text)
      → e.held ≡ false
      → lookup id e.rules ≡ none
      → update be id name listen target credential e
        ≡ returns (none, some rule_not_found) (record e { held = false })
  unfolding update lock unlock
  update_absent e id free absent = ground arith

  module _ {n : ℕ} {e : Engine B} (s : IsSound n e) where
    update_local_rule-Updated :
        (r : Rule)
        → lookup r.id e.rules ≡ some r
        → is_remote r ≡ false
        → Ensures
            (λ err e'. UpdatedLocal n r.id name listen target r e err e')
            (update_local_rule be r.id name listen target r (record e { held = true }))
    unfolding update_local_rule start_part
    update_local_rule-Updated r found is_local =
        Ensures-bind _ (stop_locked-Stopped (Inv-held true s.inv) r.id found is_local) (λ _ e1 p.
          start_part-Updated name listen target is_local e1 (Stopped-held true p.0) p.1 p.2)

    update_local_eq :
        (r : Rule)
        → lookup r.id e.rules ≡ some r
        → is_remote r ≡ false
        → update be r.id name listen target credential e
          ≡ continue
              (update_local_rule be r.id name listen target r (record e { held = true }))
              (λ err. pure (some r.id, err))
    unfolding update
    update_local_eq r found is_local = rw (lock_free e s.free, found, is_local)

    update_local_own :
        (r : Rule)
        → lookup r.id e.rules ≡ some r
        → is_remote r ≡ false
        → Ensures
            (λ res e'. (res.0 ≡ some r.id) × UpdatedLocal n r.id name listen target r e res.1 e')
            (update be r.id name listen target credential e)
    update_local_own r found is_local = Ensures-eq (update_local_eq r found is_local) (
        Ensures-bind _ (update_local_rule-Updated r found is_local)
          (λ err e' done. returned _ _ (refl, done)))

    -- `Update` of a local rule of a sound engine returns the rule, and an error just if the
    -- operating system, after the old socket is closed, refused the new address. The engine is
    -- sound again; the rule has its new name, address and target and keeps its ID, type and
    -- credential; it is shown as running with the new listener, or as failed without one. Every
    -- other rule and listener is as before.
    pub update_local :
        (id : Text) {r : Rule}
        → lookup id e.rules ≡ some r
        → is_remote r ≡ false
        → Ensures
            (λ res e'. (res.0 ≡ some id) × UpdatedLocal n id name listen target r e res.1 e')
            (update be id name listen target credential e)
    update_local id {r} found is_local =
        subst
          (λ k.
            Ensures (λ res e'. (res.0 ≡ some k) × UpdatedLocal n k name listen target r e res.1 e')
              (update be k name listen target credential e))
          (s.inv.numbering.keyed id r found)
          (update_local_own r
            (ap (λ k. lookup k e.rules) (s.inv.numbering.keyed id r found) ∙ found) is_local)
