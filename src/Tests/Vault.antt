-- ===== src/Tests/Vault.antt =====
-- The handlers of credentials, internal/api/api.go, at concrete inputs.
use port_forwarder.Base.{refl, some, true, [], ◌⊎◌, nat_eq, arith}
use port_forwarder.Base.Int.{max_int}
use port_forwarder.Base.Text.{codes, text_eq}
use port_forwarder.Ssh.Credentials.{Credential, get}
use port_forwarder.Api.Vault.{
  KeyFiles, key_written, Vault, CredRequest, update_handler, create_handler,
}
use port_forwarder.Api.Vault.Creating.{Creates, create_handler_lem}
use port_forwarder.Api.Vault.Keeping.{Unsaved, Edited, update_handler_lem}
use port_forwarder.Tests.Ssh.{alice, one_credential, one_credential-IsSound, one_credential_run}

abbrev no_keys : KeyFiles
no_keys = record {
  path_of = λ id. codes "keys/";
  can_mkdir = λ i. true;
  answer = λ i. key_written;
  calls = 0;
  files = [];
}

abbrev vault : Vault
vault = record { store = one_credential; keys = no_keys }

-- The user changes, and the password is left blank.
abbrev rename : CredRequest
rename = record { cred = record alice { user = codes "bob"; password = [] }; key_content = [] }

abbrev stored_alice : Credential
stored_alice = record alice { id = codes "credp-1" }

update_handler_lem_example :
    Unsaved rename vault (update_handler (codes "credp-1") (some rename) vault)
    ⊎ Edited 1
        (codes "credp-1")
        rename
        stored_alice
        vault
        (update_handler (codes "credp-1") (some rename) vault)
unfolding get text_eq
update_handler_lem_example =
    update_handler_lem one_credential-IsSound one_credential_run.1 (codes "credp-1") rename
      one_credential_run.0 refl

-- A key is uploaded with the new credential.
abbrev upload : CredRequest
upload = record {
  cred = record alice { user = codes "bob"; auth_type = codes "key" };
  key_content = codes "k";
}

create_handler_lem_example : Creates 1 upload vault (create_handler (some upload) vault)
unfolding max_int
create_handler_lem_example =
    create_handler_lem 1 upload vault one_credential-IsSound one_credential_run.1 (omega arith)
