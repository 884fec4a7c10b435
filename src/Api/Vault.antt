-- ===== src/Api/Vault.antt =====
-- internal/api/api.go: the handlers of the credentials, and `SaveKey` of internal/ssh/credentials.go.
-- The manager is the backend of the engine, as in `runLocal`, and the credential store is the
-- manager's: `create_credential`, `update_credential` and `list_credentials` are on the store and on
-- the directory of the key files alone.
pub mod Deleting
pub mod Keeping
pub mod Creating
use port_forwarder.Base.{
  ℕ, suc, Bool, true, false, ◌&&◌, ◌||◌, not, Option, none, some, List, [], ◌∷◌, map, ◌==◌,
  if◌then◌else◌,
}
use port_forwarder.Base.Text.{Text, codes, text_eq}
use port_forwarder.Base.Map.{Map, insert}
use port_forwarder.Base.Prog.{Outcome, returns, panics, hangs, Prog, pure, ◌>>=◌, ◌>>◌}
use port_forwarder.Net.{Net}
use port_forwarder.Engine.Queries.{is_empty}
use port_forwarder.Ssh.Credentials
use port_forwarder.Ssh.Credentials.{
  Credential, CredStore, creds_slice, get, add_credential, update_credential,
}
use port_forwarder.Ssh.Auth
use port_forwarder.Ssh.Auth.{System, Method}
use port_forwarder.Ssh.Manager.{
  Manager, ProbeResult, reached, unknown, bad_auth, ssh_failed, remove_credential, probe,
}
use port_forwarder.Ssh.Manager.Backend.{manager_backend}
use port_forwarder.Api.{Server, stop_users}

pub data KeyAnswer : Type 0 where
  key_written key_untouched : KeyAnswer
  key_spoilt : Text → KeyAnswer

-- The key files. `path_of` is `filepath.Join` of the directory and an ID; the answers are those of
-- the operating system to the i-th call.
pub record KeyFiles : Type 0 where
  pub path_of : Text → Text
  pub can_mkdir : ℕ → Bool
  pub answer : ℕ → KeyAnswer
  pub calls : ℕ
  pub files : Map Text

pub record Vault : Type 0 where
  pub store : CredStore
  pub keys : KeyFiles

pub data Failure : Type 0 where
  store_failed : Credentials.Error → Failure
  no_file_path mkdir_keys_failed write_key_failed : Failure
  probe_failed : ProbeResult → Failure

pub data Body : Type 0 where
  no_body status_ok : Body
  message : Text → Body
  failure : Failure → Body
  one_credential : Option Credential → Body
  all_credentials : List Credential → Body

pub record Response : Type 0 where
  pub code : ℕ
  pub body : Body

abbrev pub response : ℕ → Body → Response
response code body = record { code = code; body = body }

pub record CredRequest : Type 0 where
  pub cred : Credential
  pub key_content : Text

abbrev pub call_made : KeyFiles → KeyFiles
call_made k = record k { calls = suc k.calls }

abbrev pub write_as : KeyAnswer → Text → Text → KeyFiles → Option Failure × KeyFiles
write_as key_written path content k =
    (none, call_made (record k { files = insert path content k.files }))
write_as key_untouched path content k = (some write_key_failed, call_made k)
write_as (key_spoilt left) path content k =
    (some write_key_failed, call_made (record k { files = insert path left k.files }))

-- `SaveKey`, whose path, when there is no error, is `path_of id`.
unfoldable pub save_key : Bool → Text → Text → KeyFiles → Option Failure × KeyFiles
save_key persistent id content k =
    let k' = call_made k in
    if persistent
    then (if k.can_mkdir k.calls
        then write_as (k'.answer k'.calls) (k.path_of id) content k'
        else (some mkdir_keys_failed, k'))
    else (some no_file_path, k)

-- The credentials as they are listed.
abbrev pub mask : Credential → Credential
mask c = if c.auth_type == codes "password" then record c { password = [] } else c

-- `listCredentials`
unfoldable pub list_credentials : Vault → Response
list_credentials v = response 200 (all_credentials (map mask (creds_slice v.store.cs)))

abbrev pub answer_update : Text → Option Credentials.Error × CredStore → Vault → Response × Vault
answer_update id (none, store) v =
    (response 200 (one_credential (get id store)), record v { store = store })
answer_update id (some x, store) v =
    (response 404 (failure (store_failed x)), record v { store = store })

abbrev pub is_known : Text → Bool
is_known t = t == codes "key" || t == codes "password"

abbrev pub old_password : Option Credential → Text
old_password none = []
old_password (some old) = old.password

abbrev pub old_key_path : Option Credential → Text
old_key_path none = []
old_key_path (some old) = old.key_path

-- What an edit that leaves a field blank keeps.
abbrev pub keep_password : Option Credential → Credential → Credential
keep_password old c =
    if c.auth_type == codes "password" && is_empty c.password
    then record c { password = old_password old }
    else c

abbrev pub keep_key : Option Credential → Text → Credential → Credential
keep_key old key_content c =
    if is_empty key_content && (c.auth_type == codes "key" && is_empty c.key_path)
    then record c { key_path = old_key_path old }
    else c

-- `saveKey` of the server: the credential with the path of the new file.
abbrev pub key_saved :
    Text → Credential → Option Failure × KeyFiles → (Option Failure × Credential) × KeyFiles
key_saved path c (none, k) = ((none, record c { key_path = path }), k)
key_saved path c (some x, k) = ((some x, c), k)

unfoldable pub save_request_key :
    Bool → Text → Text → Credential → KeyFiles → (Option Failure × Credential) × KeyFiles
unfolding save_key
save_request_key persistent id content c k =
    if is_empty content
    then ((none, c), k)
    else key_saved (k.path_of id) c (save_key persistent id content k)

abbrev pub update_saved : Text → (Option Failure × Credential) × KeyFiles → Vault → Response × Vault
update_saved id ((some x, c), k) v = (response 400 (failure x), record v { keys = k })
update_saved id ((none, c), k) v =
    answer_update id (update_credential id c v.store) (record v { keys = k })

abbrev pub update_known : Text → CredRequest → Vault → Response × Vault
update_known id q v =
    let old = get id v.store in
    let c = keep_key old q.key_content (keep_password old q.cred) in
    if is_known q.cred.auth_type
    then update_saved id (save_request_key v.store.persistent id q.key_content c v.keys) v
    else (response 400 (message (codes "authType must be key or password")), v)

abbrev pub update_decoded : Text → Option CredRequest → Vault → Response × Vault
update_decoded id none v = (response 400 (message (codes "invalid JSON body")), v)
update_decoded id (some q) v = update_known id q v

abbrev pub update_found : Text → Option CredRequest → Option Credential → Vault → Response × Vault
update_found id q none v = (response 404 (message (codes "credential not found")), v)
update_found id q (some old) v = update_decoded id q v

-- `updateCredential`
unfoldable pub update_handler : Text → Option CredRequest → Vault → Response × Vault
unfolding save_request_key
update_handler id q v = update_found id q (get id v.store) v

abbrev pub created_answer :
    Credential → Option Credentials.Error × CredStore → Vault → Response × Vault
created_answer got (none, store) v =
    (response 201 (one_credential (some got)), record v { store = store })
created_answer got (some x, store) v =
    (response 400 (failure (store_failed x)), record v { store = store })

-- With a key file, the new credential is saved once more.
abbrev pub created_key : (Option Failure × Credential) × KeyFiles → Vault → Response × Vault
created_key ((some x, got), k) v = (response 400 (failure x), record v { keys = k })
created_key ((none, got), k) v =
    created_answer got (update_credential got.id got v.store) (record v { keys = k })

abbrev pub created :
    Text → (Option Credential × Option Credentials.Error) × CredStore → Vault → Response × Vault
created content ((none, none), store) v =
    (response 201 (one_credential none), record v { store = store })
created content ((some got, none), store) v =
    let v' : Vault = record v { store = store } in
    if is_empty content
    then (response 201 (one_credential (some got)), v')
    else created_key (save_request_key store.persistent got.id content got v.keys) v'
created content ((got, some x), store) v =
    (response 409 (failure (store_failed x)), record v { store = store })

-- `createCredential`
unfoldable pub create_handler : Option CredRequest → Vault → Response × Vault
unfolding save_request_key
create_handler none v = (response 400 (message (codes "invalid JSON body")), v)
create_handler (some q) v =
    if is_empty q.cred.name || (is_empty q.cred.host || is_empty q.cred.user)
    then (response 400 (message (codes "name, host and user are required")), v)
    else if is_known q.cred.auth_type
    then created q.key_content (add_credential q.cred v.store) v
    else (response 400 (message (codes "authType must be key or password")), v)

abbrev pub probe_answer : ProbeResult → Response
probe_answer reached = response 200 status_ok
probe_answer (unknown id) = response 400 (failure (probe_failed (unknown id)))
probe_answer (bad_auth x) = response 400 (failure (probe_failed (bad_auth x)))
probe_answer (ssh_failed host) = response 400 (failure (probe_failed (ssh_failed host)))

abbrev pub forget_answer : Option Credentials.Error → Response
forget_answer none = response 204 no_body
forget_answer (some x) = response 404 (failure (store_failed x))

abbrev pub on_backend :
    {A : Type 0} → (Manager → A × Manager) → Option Manager → Prog (Server Manager) A
on_backend f none s = panics
on_backend f (some m) s =
    let (a, m') = f m in returns a (record s { engine = record s.engine { remote = some m' } })

-- A call of the manager, `s.creds`.
abbrev pub on_manager : {A : Type 0} → (Manager → A × Manager) → Prog (Server Manager) A
on_manager f s = on_backend f s.engine.remote s

module _ {Signer : Type 0} (sys : System Signer) (nets : Text → Net) where
  -- `probeCredential`
  unfoldable pub probe_credential :
      (Text → Text → List (Method Signer) → Bool) → Text → Prog (Server Manager) Response
  probe_credential dials id = do
    res ← on_manager (λ m. (probe sys nets dials id m, m))
    pure (probe_answer res)

  -- `deleteCredential`
  unfoldable pub delete_handler : Text → Prog (Server Manager) Response
  delete_handler id = do
    stop_users (manager_backend sys nets) id
    err ← on_manager (remove_credential id)
    pure (forget_answer err)
