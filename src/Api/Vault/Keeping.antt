-- ===== src/Api/Vault/Keeping.antt =====
-- internal/api/api.go: what `updateCredential` does to the store and the key files.
use port_forwarder.Base.{
  ℕ, suc, ◌≡◌, refl, sym, ◌∙◌, ap, ◌⊎◌, inl, inr, Bool, true, false, ◌&&◌, Option, none, some,
  arith, ◌==◌, if◌then◌else◌, Option-cases, Bool-cases,
}
use port_forwarder.Base.Text.{Text, codes, text_eq}
use port_forwarder.Base.Map.{lookup, lookup-insert}
use port_forwarder.Engine.Queries.{is_empty}
use port_forwarder.Ssh.Credentials
use port_forwarder.Ssh.Credentials.{Credential, CredStore, get, update_credential}
use port_forwarder.Ssh.Credentials.Saving.{IsSound}
use port_forwarder.Ssh.Credentials.Changes.{Changed, update_lem}
use port_forwarder.Api.Vault.{
  KeyFiles, KeyAnswer, key_written, key_untouched, key_spoilt, Vault, CredRequest, Failure,
  mkdir_keys_failed, write_key_failed, Response, response, one_credential, failure, store_failed,
  save_key, write_as, save_request_key, key_saved, keep_password, keep_key, is_known, answer_update,
  update_saved, update_handler,
}

-- The credential that an edit makes: blank fields keep what is stored, and an uploaded key replaces
-- the path of the key.
pub record Kept (id : Text) (q : CredRequest) (old : Credential) (path : Text) (c : Credential)
    : Type 0 where
  pub id_kept : c.id ≡ id
  pub name : c.name ≡ q.cred.name
  pub host : c.host ≡ q.cred.host
  pub user : c.user ≡ q.cred.user
  pub auth_type : c.auth_type ≡ q.cred.auth_type
  pub passphrase : c.passphrase ≡ q.cred.passphrase
  pub password : c.password ≡ (
      if q.cred.auth_type == codes "password" && is_empty q.cred.password
      then old.password
      else q.cred.password)
  pub key_path : c.key_path ≡ (
      if is_empty q.key_content
      then (if q.cred.auth_type == codes "key" && is_empty q.cred.key_path
          then old.key_path
          else q.cred.key_path)
      else path)

abbrev pub edited_answer : Credential → Option Credentials.Error → Response
edited_answer c none = response 200 (one_credential (some c))
edited_answer c (some x) = response 404 (failure (store_failed x))

abbrev written_answer : KeyAnswer → Option Failure
written_answer key_written = none
written_answer _ = some write_key_failed

-- The error of an upload, of a store with a path, by what the operating system answers to its calls.
abbrev pub upload_answer : KeyFiles → Option Failure
upload_answer k =
    if k.can_mkdir k.calls then written_answer (k.answer (suc k.calls)) else some mkdir_keys_failed

-- The key file after a request that has, or has not, a key.
abbrev pub Uploaded : Bool → Text → Text → KeyFiles → KeyFiles → Type 0
Uploaded true path key k k' = k' ≡ k
Uploaded false path key k k' = (upload_answer k ≡ none) × (lookup path k'.files ≡ some key)

pub record Edited (n : ℕ) (id : Text) (q : CredRequest) (old : Credential) (v : Vault)
    (out : Response × Vault) : Type 0 where
  pub new : Credential
  pub kept : Kept id q old (v.keys.path_of id) new
  pub uploaded :
      Uploaded (is_empty q.key_content) (v.keys.path_of id) q.key_content v.keys out.1.keys
  pub answer : Option Credentials.Error
  pub answered : out.0 ≡ edited_answer new answer
  pub changed :
      Changed n
        (λ k. if k == id then some new else lookup k v.store.cs)
        v.store.disk
        (answer, out.1.store)

-- An upload that the operating system refused, which leaves the store as it was.
pub record Unsaved (q : CredRequest) (v : Vault) (out : Response × Vault) : Type 0 where
  pub has_key : is_empty q.key_content ≡ false
  pub error : Failure
  pub refused : upload_answer v.keys ≡ some error
  pub answered : out.0 ≡ response 400 (failure error)
  pub store : out.1.store ≡ v.store

abbrev merged : CredRequest → Credential → Credential
merged q old = keep_key (some old) q.key_content (keep_password (some old) q.cred)

module _ (id path : Text) (q : CredRequest) (old : Credential) where
  merged-Kept :
      is_empty q.key_content ≡ true → Kept id q old path (record (merged q old) { id = id })
  merged-Kept blank = record {
    id_kept = refl;
    name = ground arith;
    host = ground arith;
    user = ground arith;
    auth_type = ground arith;
    passphrase = ground arith;
    password = ground arith;
    key_path = ground arith;
  }

  merged_path-Kept :
      is_empty q.key_content ≡ false
      → Kept id q old path (record (merged q old) { key_path = path; id = id })
  merged_path-Kept full = record {
    id_kept = refl;
    name = ground arith;
    host = ground arith;
    user = ground arith;
    auth_type = ground arith;
    passphrase = ground arith;
    password = ground arith;
    key_path = ground arith;
  }

write_as-written :
    (a : KeyAnswer) (path key : Text) (k : KeyFiles)
    → (write_as a path key k).0 ≡ none
    → lookup path (write_as a path key k).1.files ≡ some key
write_as-written key_written path key k ok = lookup-insert path path key k.files ∙ ground arith
write_as-written key_untouched path key k ok = absurd (grind arith)
write_as-written (key_spoilt left) path key k ok = absurd (grind arith)

write_as-answer :
    (a : KeyAnswer) (path key : Text) (k : KeyFiles) → (write_as a path key k).0 ≡ written_answer a
write_as-answer key_written path key k = refl
write_as-answer key_untouched path key k = refl
write_as-answer (key_spoilt left) path key k = refl

-- The error of `SaveKey` is that of the operating system.
pub save_key-answer :
    (persistent : Bool) (id key : Text) (k : KeyFiles)
    → persistent ≡ true
    → (save_key persistent id key k).0 ≡ upload_answer k
unfolding save_key
save_key-answer persistent id key k stored = ground (
  arith,
  write_as-answer (k.answer (suc k.calls)) (k.path_of id) key (record k { calls = suc k.calls }),
)

-- What `SaveKey` did if it returned no error.
pub save_key-written :
    (persistent : Bool) (id key : Text) (k : KeyFiles)
    → (save_key persistent id key k).0 ≡ none
    → lookup (k.path_of id) (save_key persistent id key k).1.files ≡ some key
unfolding save_key
save_key-written persistent id key k ok = ground (
  arith,
  write_as-written (k.answer (suc k.calls)) (k.path_of id) key (record k { calls = suc k.calls }),
)

pub key_saved-none :
    (path : Text) (c : Credential) (out : Option Failure × KeyFiles)
    → out.0 ≡ none
    → key_saved path c out ≡ ((none, record c { key_path = path }), out.1)
key_saved-none path c (none, k) ok = refl
key_saved-none path c (some x, k) ok = absurd (grind arith)

pub key_saved-some :
    (path : Text) (c : Credential) (out : Option Failure × KeyFiles) {x : Failure}
    → out.0 ≡ some x
    → key_saved path c out ≡ ((some x, c), out.1)
key_saved-some path c (none, k) bad = absurd (grind arith)
key_saved-some path c (some y, k) bad = ground arith

module _ {n : ℕ} {v : Vault} (sound : IsSound n v.store) (stored : v.store.persistent ≡ true)
    (id : Text) (q : CredRequest) {old : Credential} (found : get id v.store ≡ some old) where
  answer_update-Edited :
      (new : Credential) (out : Option Credentials.Error × CredStore) (k : KeyFiles)
      → Kept id q old (v.keys.path_of id) new
      → Uploaded (is_empty q.key_content) (v.keys.path_of id) q.key_content v.keys k
      → Changed n (λ j. if j == id then some new else lookup j v.store.cs) v.store.disk out
      → Edited n id q old v (answer_update id out (record v { keys = k }))
  unfolding get
  answer_update-Edited new (none, store) k kept up ch = record {
    new = new;
    kept = kept;
    uploaded = up;
    answer = none;
    answered = ap (λ c. response 200 (one_credential c)) (ch.changed id ∙ ground arith);
    changed = ch;
  }
  answer_update-Edited new (some x, store) k kept up ch = record {
    new = new;
    kept = kept;
    uploaded = up;
    answer = some x;
    answered = refl;
    changed = ch;
  }

  -- The store's `Update` with the credential that the request became.
  saved-Edited :
      (c : Credential) (k : KeyFiles)
      → Kept id q old (v.keys.path_of id) (record c { id = id })
      → Uploaded (is_empty q.key_content) (v.keys.path_of id) q.key_content v.keys k
      → Edited n id q old v (update_saved id ((none, c), k) v)
  unfolding get
  saved-Edited c k kept up =
      answer_update-Edited (record c { id = id }) _ k kept up (update_lem sound stored id c found)

  upload_cases :
      (c : Credential)
      → (is_empty q.key_content ≡ true → Kept id q old (v.keys.path_of id) (record c { id = id }))
      → (is_empty q.key_content ≡ false
          → Kept id q old (v.keys.path_of id) (record c { key_path = v.keys.path_of id; id = id }))
      → Unsaved q v
          (update_saved id (save_request_key v.store.persistent id q.key_content c v.keys) v)
        ⊎ Edited n id q old v
            (update_saved id (save_request_key v.store.persistent id q.key_content c v.keys) v)
  unfolding save_request_key
  upload_cases c same uploaded = elim (Bool-cases (is_empty q.key_content)) [
    | inl blank ↦ inr (rw blank (saved-Edited c v.keys (same blank) (rw blank refl)))
    | inr full ↦
        let saved = save_key v.store.persistent id q.key_content v.keys in
        elim (Option-cases saved.0) [
          | inl ok ↦ inr (
              rw (full, key_saved-none (v.keys.path_of id) c saved ok)
                (saved-Edited (record c { key_path = v.keys.path_of id }) saved.1 (uploaded full)
                  (rw full (
                    sym (save_key-answer v.store.persistent id q.key_content v.keys stored) ∙ ok,
                    save_key-written v.store.persistent id q.key_content v.keys ok,
                  ))))
          | inr (x, bad) ↦ inl (
              rw (full, key_saved-some (v.keys.path_of id) c saved bad)
                (record {
                  has_key = full;
                  error = x;
                  refused =
                      sym (save_key-answer v.store.persistent id q.key_content v.keys stored) ∙ bad;
                  answered = refl;
                  store = refl;
                }))
        ]
  ]

  -- `updateCredential` of a credential that a sound store with a path has, with a body that decodes
  -- and has a known auth type. Either a key was uploaded and the operating system refused its
  -- directory or its file: the answer is 400 with that error, and the store is as before. Or the
  -- credential under the ID is replaced by the request's, as `Update` of the store does it, but for
  -- the fields left blank: a blank password of a password login and a blank key path of a key login
  -- without an upload are the stored ones; an uploaded key, which was then not refused, stands in the
  -- key file, and its path is the credential's. The answer is then 200 with the new credential, or 404
  -- with the error of the store, which keeps the change in memory.
  pub update_handler_lem :
      is_known q.cred.auth_type ≡ true
      → Unsaved q v (update_handler id (some q) v)
        ⊎ Edited n id q old v (update_handler id (some q) v)
  unfolding update_handler
  update_handler_lem known =
      rw (found, found, known)
        (upload_cases (merged q old) (merged-Kept id (v.keys.path_of id) q old)
          (merged_path-Kept id (v.keys.path_of id) q old))
