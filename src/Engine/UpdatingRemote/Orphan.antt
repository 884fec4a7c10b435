-- ===== src/Engine/UpdatingRemote/Orphan.antt =====
-- internal/engine/engine.go: what `Update` does to a remote rule when there is no backend.
use port_forwarder.Base.{ℕ, ◌≡◌, refl, ◌∙◌, true, Option, none, some, ◌==◌, if◌then◌else◌}
use port_forwarder.Base.Text.{Text, text_eq}
use port_forwarder.Base.Map.{lookup}
use port_forwarder.Base.Prog.{returns, Ensures, returned, Ensures-eq}
use port_forwarder.Engine.{Rule, RemoteBackend, Engine, edit}
use port_forwarder.Engine.Queries.{is_remote}
use port_forwarder.Engine.Methods.{update, re_add, call_add, call_remove, add_to, remove_from}
use port_forwarder.Engine.Soundness.{IsSound}
use port_forwarder.Engine.UpdatingRemote.{
  new_rule, edited, lookup-edited, edited-IsSound, after_edit, update_remote_eq,
}

module _ {B : Type 0} (be : RemoteBackend B) (e : Engine B) (is_nil : e.remote ≡ none) where
  re_add-nil : (o : Option Rule) → re_add be o e ≡ returns tt e
  unfolding re_add call_add add_to
  re_add-nil none = refl
  re_add-nil (some r) = rw is_nil

  call_remove-nil : (id : Text) → call_remove be id e ≡ returns tt e
  unfolding call_remove remove_from
  call_remove-nil id = rw is_nil

module _ {B : Type 0} (be : RemoteBackend B) (name listen target credential : Text) {n : ℕ}
    {e : Engine B} (s : IsSound n e) (id : Text) {r : Rule} (found : lookup id e.rules ≡ some r)
    (far : is_remote r ≡ true) (is_nil : e.remote ≡ none) where
  abbrev last : Engine B
  last = edited be name listen target credential s id found far

  no_backend : last.remote ≡ none
  unfolding edit
  no_backend = is_nil

  after_edit-nil :
      after_edit be name listen target credential s id found far ≡ returns (some id, none) last
  unfolding after_edit
  after_edit-nil = rw (call_remove-nil be last no_backend id, re_add-nil be last no_backend _)

  -- The rule takes its new fields, and stays pending.
  pub update_orphan :
      Ensures
        (λ res e'.
          (res.0 ≡ some id)
          × IsSound n e'
          × (e'.remote ≡ none)
          × ((k : Text)
              → lookup k e'.rules ≡ (
                  if k == id
                  then some (new_rule be name listen target credential s id found far)
                  else lookup k e.rules)))
        (update be id name listen target credential e)
  update_orphan =
      Ensures-eq (update_remote_eq be name listen target credential s id found far ∙ after_edit-nil)
        (returned _ _ (
          refl,
          edited-IsSound be name listen target credential s id found far last.remote,
          no_backend,
          lookup-edited be name listen target credential s id found far,
        ))
