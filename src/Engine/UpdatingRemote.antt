-- ===== src/Engine/UpdatingRemote.antt =====
-- internal/engine/engine.go: what `Update` does to a sound engine with a remote rule.
pub mod Orphan
use port_forwarder.Base.{
  ℕ, ◌≡◌, ◌≢◌, refl, ap, ◌∙◌, true, false, Option, none, some, arith, ◌==◌, if◌then◌else◌,
}
use mathlib.Core.Path.{subst}
use port_forwarder.Base.Text.{Text, text_eq}
use port_forwarder.Base.Map.{lookup}
use port_forwarder.Base.Prog.{
  returns, continue, pure, Outcome, Ensures, returned, Ensures-step, Ensures-bind, Ensures-eq,
}
use port_forwarder.Engine.{Rule, Error, RemoteBackend, Engine, unlock, edit}
use port_forwarder.Engine.Queries.{is_remote}
use port_forwarder.Engine.Methods.{
  update, update_found, update_remote_rule, re_add, put_remote, call_add, call_remove,
}
use port_forwarder.Engine.Steps.{lookup-edit, lock_free}
use port_forwarder.Engine.Soundness.{
  Fits-remote, IsSound, Inv-held, Inv-remote, InvBut-of_Inv, Inv-edit,
}
use port_forwarder.Engine.Reports.{SameRule, IsQuiet, Reported, call_add-Reported, call_remove-told}

-- A remote rule after an update: it keeps its ID and type, the backend was told to remove the rule
-- and then to add it with its new fields, and nothing else has changed.
pub record UpdatedRemote {B : Type 0} (be : RemoteBackend B) (n : ℕ) (id : Text) (new : Rule)
    (b : B) (e e' : Engine B) : Type 0 where
  pub sound : IsSound n e'
  pub mine : (r' : Rule) × (lookup id e'.rules ≡ some r') × SameRule new r'
  pub others : (k : Text) → k ≢ id → lookup k e'.rules ≡ lookup k e.rules
  pub lns : e'.lns ≡ e.lns
  pub net : e'.net ≡ e.net
  pub remote : e'.remote ≡ some (be.add_remote new (be.remove_remote id b).0).0

module _ {B : Type 0} (be : RemoteBackend B) (name listen target credential : Text) {n : ℕ}
    {e : Engine B} (s : IsSound n e) (id : Text) {r : Rule} (found : lookup id e.rules ≡ some r)
    (far : is_remote r ≡ true) where
  abbrev pub new_rule : Rule
  new_rule = put_remote name listen target credential r

  abbrev pub edited : Engine B
  edited = edit id (put_remote name listen target credential) (record e { held = false })

  pub lookup-edited :
      (k : Text) → lookup k edited.rules ≡ (if k == id then some new_rule else lookup k e.rules)
  lookup-edited k = ground (
    arith,
    lookup-edit (record e { held = false }) k id (put_remote name listen target credential),
  )

  pub edited-IsSound : (b : Option B) → IsSound n (record edited { remote = b })
  unfolding edit put_remote
  edited-IsSound b = record {
    free = refl;
    inv = Inv-remote b (
        Inv-edit (InvBut-of_Inv id (Inv-held false s.inv))
          (put_remote name listen target credential) found refl
          (Fits-remote r new_rule (lookup id e.lns) far refl (rw found at (s.inv.registry id))));
  }

  -- `Update`, up to the calls of the backend.
  pub after_edit : Outcome (Engine B) (Option Text × Option Error)
  after_edit =
      continue
        (continue (call_remove be id edited)
          (λ _ e1. continue (re_add be (lookup id e1.rules) e1) (λ _. pure none)))
        (λ err. pure (some id, err))

  update_to_found :
      update be id name listen target credential e
      ≡ update_found be id name listen target credential
          (lookup id e.rules)
          (record e { held = true })
  unfolding update
  update_to_found = rw (lock_free e s.free)

  update_from_found :
      update_found be id name listen target credential (some r) (record e { held = true })
      ≡ after_edit
  unfolding update_found update_remote_rule unlock edit after_edit
  update_from_found = rw far

  pub update_remote_eq : update be id name listen target credential e ≡ after_edit
  update_remote_eq =
      update_to_found
      ∙ ap (λ o. update_found be id name listen target credential o (record e { held = true }))
          found
      ∙ update_from_found

  module _ (quiet : IsQuiet be) {b : B} (is_some : e.remote ≡ some b) where
    abbrev told_engine : Engine B
    told_engine = record edited { remote = some (be.remove_remote id b).0 }

    call_remove-edited : call_remove be id edited ≡ returns tt told_engine
    unfolding edit
    call_remove-edited = call_remove-told be quiet edited id ∙ rw is_some

    own_id : new_rule.id ≡ id
    unfolding put_remote
    own_id = s.inv.numbering.keyed id r found

    still_far : is_remote new_rule ≡ true
    unfolding put_remote
    still_far = far

    re_add_edited :
        re_add be (lookup id told_engine.rules) told_engine ≡ call_add be new_rule told_engine
    unfolding re_add
    re_add_edited = rw (lookup-edited id) (ground arith)

    call_add_edited :
        Ensures
          (λ _ e'.
            Reported n new_rule.id new_rule
              (record told_engine {
                remote = some (be.add_remote new_rule (be.remove_remote id b).0).0;
              })
              e')
          (call_add be new_rule told_engine)
    call_add_edited =
        call_add-Reported be quiet told_engine (be.remove_remote id b).0 new_rule new_rule
          (edited-IsSound _)
          (ap (λ k. lookup k told_engine.rules) own_id ∙ ground (arith, lookup-edited id)) still_far
          refl

    updated :
        (e' : Engine B)
        → Reported n id new_rule
            (record told_engine {
              remote = some (be.add_remote new_rule (be.remove_remote id b).0).0;
            })
            e'
        → UpdatedRemote be n id new_rule b e e'
    unfolding edit
    updated e' done = record {
      sound = done.sound;
      mine = done.mine;
      others = λ k h. done.others k h ∙ ground (arith, lookup-edited k);
      lns = done.lns;
      net = done.net;
      remote = done.remote;
    }

    call_part :
        Ensures {A = Option Error}
          (λ err e'. (err ≡ none) × UpdatedRemote be n id new_rule b e e')
          (continue
            (call_remove be id edited)
            (λ _ e1. continue (re_add be (lookup id e1.rules) e1) (λ _. pure none)))
    call_part = Ensures-step _ call_remove-edited (
        Ensures-bind _ (Ensures-eq re_add_edited call_add_edited) (λ _ e' done. returned none e' (
          refl,
          updated e' (
              subst
                (λ k.
                  Reported n k new_rule
                    (record told_engine {
                      remote = some (be.add_remote new_rule (be.remove_remote id b).0).0;
                    })
                    e')
                own_id done),
        )))

    -- `Update` of a remote rule of a sound engine with a quiet backend returns the rule and no
    -- error. The backend has been told to remove the rule, and then to add it with its new fields,
    -- as pending. The rule keeps its ID and type, has its new name, target and credential, and a
    -- status and an address that the backend may have reported; nothing else changes.
    pub update_remote :
        Ensures
          (λ res e'. (res.0 ≡ some id) × (res.1 ≡ none) × UpdatedRemote be n id new_rule b e e')
          (update be id name listen target credential e)
    unfolding after_edit
    update_remote =
        Ensures-eq update_remote_eq
          (Ensures-bind _ call_part (λ err e' done. returned _ _ (refl, done.0, done.1)))
