-- ===== src/Api/Vault/Deleting.antt =====
-- internal/api/api.go: what `deleteCredential` leaves in the engine, the manager and the store.
use port_forwarder.Base.{
  ℕ, ◌<◌, ◌≡◌, refl, ◌∙◌, ap, false, Option, none, some, arith, Option-cases, inl, inr,
}
use port_forwarder.Base.Int.{max_int}
use port_forwarder.Base.Text.{Text, text_eq}
use port_forwarder.Base.Map.{lookup, erase, lookup-erase}
use port_forwarder.Base.Prog.{Ensures, returned, Ensures-bind}
use port_forwarder.Net.{Net}
use port_forwarder.Engine.{Rule}
use port_forwarder.Engine.Soundness.{IsSound, Inv-remote}
use port_forwarder.Engine.Reports.{told}
use port_forwarder.Ssh.Credentials.{CredStore, get, delete_credential}
use port_forwarder.Ssh.Credentials.Saving.{save_locked-cs}
use port_forwarder.Ssh.Auth.{System}
use port_forwarder.Ssh.Manager.{Manager, remove_remote, remove_credential}
use port_forwarder.Ssh.Manager.Serving.{Good, any_policy}
use port_forwarder.Ssh.Manager.Removing.{remove_remote-Good, store-remove_remote}
use port_forwarder.Ssh.Manager.Forgetting.{
  names, kept, remove_credential-Forgotten, remove_credential-delete,
}
use port_forwarder.Ssh.Manager.Backend.{manager_backend, manager_backend-IsQuiet}
use port_forwarder.Api.{Server}
use port_forwarder.Api.Credentials.{without_user, stop_users_lem}
use port_forwarder.Api.Vault.{Response, forget_answer, delete_handler}

delete_credential-absent : (id : Text) (s : CredStore) → get id (delete_credential id s).1 ≡ none
unfolding delete_credential get
delete_credential-absent id s = elim (Option-cases (lookup id s.cs)) [
  | inl absent ↦ rw absent absent
  | inr (c, found) ↦
      rw (found, save_locked-cs (record s { cs = erase id s.cs }))
        (ground (arith, lookup-erase id id s.cs))
]

-- The backend is a manager whose maps agree, over a given store.
abbrev pub HasManager : CredStore → Option Manager → Type 0
HasManager st o = (m : Manager) × (o ≡ some m) × Good any_policy m × (m.store ≡ st)

kept-names : (id : Text) (o : Option Rule) → names id (kept id o) ≡ false
kept-names id none = refl
kept-names id (some r) = ground arith

-- What is left of a credential: nothing.
pub record Deleted (n : ℕ) (id : Text) (st : CredStore) (srv : Server Manager) (resp : Response)
    (srv' : Server Manager) : Type 0 where
  pub sound : IsSound n srv'.engine
  pub rules : (k : Text) → lookup k srv'.engine.rules ≡ without_user id (lookup k srv.engine.rules)
  pub file : srv'.rules ≡ srv.rules
  pub manager : Manager
  pub backend : srv'.engine.remote ≡ some manager
  pub good : Good any_policy manager
  pub no_rule : (k : Text) → names id (lookup k manager.rules) ≡ false
  pub no_client : lookup id manager.clients ≡ none
  pub no_credential : get id manager.store ≡ none
  pub answered : resp ≡ forget_answer (delete_credential id st).0

module _ {Signer : Type 0} (sys : System Signer) (nets : Text → Net) where
  remove-HasManager :
      (st : CredStore) (id : Text) (o : Option Manager)
      → HasManager st o
      → HasManager st (told (manager_backend sys nets) id o)
  remove-HasManager st id o (m, is, good, same) =
      rw is (remove_remote id m, refl, remove_remote-Good good id, store-remove_remote id m ∙ same)

  -- `deleteCredential`, in a daemon with the SSH manager: when the engine is sound and has a number
  -- left, and the manager's maps agree, the handler returns. Afterwards the engine is sound and has
  -- lost the remote rules that name the credential and no others; the rules are not saved to their
  -- file; the manager's maps agree and have no rule and no client of the credential; the store has no
  -- credential of that ID; and the answer is 204 when the store's `Delete` returns no error, and 404
  -- with that error otherwise.
  pub delete_handler_lem :
      {n : ℕ} (id : Text) (srv : Server Manager) {m : Manager}
      → IsSound n srv.engine
      → n < max_int
      → srv.engine.remote ≡ some m
      → Good any_policy m
      → Ensures (Deleted n id m.store srv) (delete_handler sys nets id srv)
  unfolding delete_handler
  delete_handler_lem {n} id srv {m} sound room is good =
      Ensures-bind _
        (stop_users_lem (manager_backend sys nets) (manager_backend-IsQuiet sys nets)
          (HasManager m.store) (remove-HasManager m.store) id srv sound room (m, is, good, refl))
        (λ _ srv1 stopped.
          let (m1, is1, good1, same) = stopped.1 in
          let forgotten = remove_credential-Forgotten id good1 in
          let (answer, store) = remove_credential-delete id good1 in
          rw is1 (
            returned _ _ (record {
              sound = record { free = stopped.0.free; inv = Inv-remote _ stopped.0.inv };
              rules = stopped.3;
              file = stopped.2;
              manager = (remove_credential id m1).1;
              backend = refl;
              good = forgotten.good;
              no_rule = λ k. ap (names id) (forgotten.rules k) ∙ kept-names id (lookup k m1.rules);
              no_client = ground (arith, forgotten.clients id);
              no_credential = ap (get id) store ∙ delete_credential-absent id m1.store;
              answered = ap forget_answer (answer ∙ ap (λ st. (delete_credential id st).0) same);
            })))
