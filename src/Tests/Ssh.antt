-- ===== src/Tests/Ssh.antt =====
-- internal/ssh/credentials.go at concrete inputs.
use port_forwarder.Base.{
  ℕ, ◌≡◌, refl, true, none, some, [], ◌∷◌, arith, ◌==◌, nat_eq, if◌then◌else◌,
}
use port_forwarder.Base.Int.{max_int, inc}
use port_forwarder.Base.Text.{codes, text_eq}
use port_forwarder.Base.Map.{lookup, insert}
use port_forwarder.Decimal.{format, format_int, scan_int}
use port_forwarder.Files.Json.{
  null_item, object, text, array, Content, unmarshal, read_fields, set_field, lower,
}
use port_forwarder.Files.Disk.{Disk, mkdir_all, write_file}
use port_forwarder.Ssh.Credentials.{
  Credential, no_credential, credential_fields, CredStore, cred_name, atoi_name, empty_store,
  add_credential, delete_credential, save_locked, new_cred_store, opened, id_prefix, strip,
}
use port_forwarder.Ssh.Credentials.Saving.{IsSound}
use port_forwarder.Ssh.Credentials.Changes.{Changed, add_lem, delete_lem}
use port_forwarder.Ssh.Credentials.Opening.{empty-IsSound, open_lem}
use port_forwarder.Tests.Store.{good_disk}

abbrev pub alice : Credential
alice = record no_credential {
  name = codes "vps";
  host = codes "h";
  user = codes "alice";
  auth_type = codes "password";
  password = codes "secret";
}

abbrev none_yet : CredStore
none_yet = empty_store true good_disk

-- The store after that.
pub one_credential : CredStore
one_credential = (add_credential alice none_yet).1

pub one_credential-IsSound : IsSound 1 one_credential
unfolding one_credential max_int
one_credential-IsSound = (add_lem (empty-IsSound true good_disk) refl alice (omega arith)).sound

pub one_credential_run :
    (lookup (codes "credp-1") one_credential.cs ≡ some (record alice { id = codes "credp-1" }))
    × (one_credential.persistent ≡ true)
unfolding one_credential add_credential save_locked mkdir_all write_file insert lookup cred_name
    id_prefix format_int format inc text_eq nat_eq max_int
one_credential_run = (refl, refl)

delete_lem_example :
    Changed 1
      (λ k. if k == codes "credp-1" then none else lookup k one_credential.cs)
      one_credential.disk
      (delete_credential (codes "credp-1") one_credential)
delete_lem_example =
    delete_lem one_credential-IsSound one_credential_run.1 (codes "credp-1") one_credential_run.0

-- A file with a credential and a null.
abbrev credentials_file : Content
credentials_file = array (
    object ((codes "ID", text (codes "credp-7")) ∷ (codes "user", text (codes "bob")) ∷ [])
    ∷ null_item
    ∷ [])

abbrev disk_with_file : Disk
disk_with_file = record good_disk { file = some credentials_file }

abbrev bob : Credential
bob = record no_credential { id = codes "credp-7"; user = codes "bob" }

open_lem_example :
    (m : ℕ) × (s : CredStore) × (new_cred_store true disk_with_file ≡ opened s) × IsSound m s
unfolding unmarshal read_fields set_field lower credential_fields text_eq nat_eq max_int atoi_name
    id_prefix strip scan_int
open_lem_example =
    open_lem true disk_with_file credentials_file (some bob ∷ none ∷ []) refl refl refl
      (refl, (tt, tt))
