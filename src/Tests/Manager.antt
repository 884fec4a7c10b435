-- ===== src/Tests/Manager.antt =====
-- internal/ssh/manager.go and internal/ssh/auth.go at concrete inputs.
use port_forwarder.Base.{ℕ, refl, true, none, some, [], ◌∷◌, arith, nat_eq}
use port_forwarder.Base.Int.{pos, max_int}
use port_forwarder.Base.Text.{Text, codes, text_eq}
use port_forwarder.Base.Map.{lookup}
use port_forwarder.Base.Prog.{Ensures}
use port_forwarder.Net.{Net}
use port_forwarder.Engine.{Engine, new}
use port_forwarder.Engine.Soundness.{IsSound, new-IsSound, Inv-remote}
use port_forwarder.Engine.Refinement.{Implements, run}
use port_forwarder.Engine.Mirroring.{Mirrored}
use port_forwarder.Ssh.Credentials.{Credential, CredStore, no_credential, empty_store}
use port_forwarder.Ssh.Auth.{
  System, agent_keys, credential_auth, auth_password, auth_key, agent_auth,
}
use port_forwarder.Ssh.Auth.Methods.{Authorised, credential_auth_lem}
use port_forwarder.Ssh.Manager.{Manager, new_manager}
use port_forwarder.Ssh.Manager.Serving.{Good, any_policy}
use port_forwarder.Ssh.Manager.Backend.{manager_backend, manager_keeper, manager-Mirrors}
use port_forwarder.Api.{Server}
use port_forwarder.Api.Vault.{delete_handler}
use port_forwarder.Api.Vault.Deleting.{Deleted, delete_handler_lem}
use port_forwarder.Tests.Engine.{willing, everything}
use port_forwarder.Tests.Store.{good_disk}
use port_forwarder.Tests.Refinement.{calls, empty_table}

-- An agent, and no key files.
abbrev pub agent_only : System ℕ
agent_only = record {
  read_file = λ path. none;
  parse_key = λ content. none;
  parse_key_with = λ content passphrase. none;
  auth_sock = codes "sock";
  dial_agent = λ sock. true;
}

abbrev bob : Credential
bob = record no_credential { name = codes "bob"; host = codes "h"; auth_type = codes "key" }

credential_auth_lem_example : Authorised {Signer = ℕ} bob (agent_keys (codes "sock") ∷ [])
unfolding credential_auth auth_password auth_key agent_auth text_eq
credential_auth_lem_example =
    credential_auth_lem agent_only bob (agent_keys (codes "sock") ∷ []) refl

abbrev pub nets : Text → Net
nets addr = willing

-- The credential that the calls name is in the store, and the agent has a key for it.
abbrev no_clients : Manager
no_clients =
    new_manager
      (record (empty_store true good_disk) { cs = (codes "c", record bob { id = codes "c" }) ∷ [] })

no_clients-Good : Good any_policy no_clients
unfolding new_manager lookup
no_clients-Good = record {
  nodup = tt;
  by = λ k. refl;
  owns = λ cred cl k q at has. absurd (grind arith);
  covered = λ k r found is. absurd (grind arith);
  made = λ cred cl at. tt;
}

abbrev ssh_daemon : Engine Manager
ssh_daemon = record (new willing) { remote = some no_clients }

ssh_daemon-Implements : Implements empty_table ssh_daemon
unfolding new everything
ssh_daemon-Implements = record {
  sound = record { free = refl; inv = Inv-remote (some no_clients) (new-IsSound willing).inv };
  entries = λ k. tt;
}

manager-Mirrors_example :
    Ensures
      (Mirrored (manager_keeper agent_only nets no_clients) calls empty_table)
      (run (manager_backend agent_only nets) calls ssh_daemon)
unfolding new new_manager max_int lookup manager_keeper
manager-Mirrors_example =
    manager-Mirrors agent_only nets calls ssh_daemon-Implements (omega arith) refl no_clients-Good
      (λ k. refl)

abbrev one_credential : CredStore
one_credential = record (empty_store true good_disk) {
  next = pos 1;
  cs = (codes "credp-1", record bob { id = codes "credp-1" }) ∷ [];
}

abbrev bobs_manager : Manager
bobs_manager = new_manager one_credential

bobs_manager-Good : Good any_policy bobs_manager
unfolding new_manager lookup
bobs_manager-Good = record {
  nodup = tt;
  by = λ k. refl;
  owns = λ cred cl k q at has. absurd (grind arith);
  covered = λ k r found is. absurd (grind arith);
  made = λ cred cl at. tt;
}

abbrev vault_engine : Engine Manager
vault_engine = record (new willing) { remote = some bobs_manager }

vault_engine-IsSound : IsSound 1 vault_engine
unfolding new
vault_engine-IsSound = record {
  free = refl;
  inv = Inv-remote (some bobs_manager) (new-IsSound willing).inv;
}

abbrev vault_server : Server Manager
vault_server = record { engine = vault_engine; rules = none }

delete_handler_lem_example :
    Ensures
      (Deleted 1 (codes "credp-1") one_credential vault_server)
      (delete_handler agent_only nets (codes "credp-1") vault_server)
unfolding new new_manager max_int
delete_handler_lem_example =
    delete_handler_lem agent_only nets (codes "credp-1") vault_server vault_engine-IsSound
      (omega arith) refl bobs_manager-Good
