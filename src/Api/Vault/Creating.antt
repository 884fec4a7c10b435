-- ===== src/Api/Vault/Creating.antt =====
-- internal/api/api.go: what `createCredential` does to the store and the key files, errors included.
use port_forwarder.Base.{
  sym, ℕ, suc, ◌<◌, ◌≡◌, refl, ◌∙◌, inl, inr, Bool, true, false, not, ◌&&◌, ◌||◌, Option, none,
  some, arith, ◌==◌, if◌then◌else◌, Option-cases, Bool-cases,
}
use port_forwarder.Base.Int.{pos, max_int}
use port_forwarder.Base.Text.{codes, Text, text_eq}
use port_forwarder.Base.Map.{lookup}
use port_forwarder.Engine.Queries.{is_empty}
use port_forwarder.Ssh.Credentials
use port_forwarder.Ssh.Credentials.{
  Credential, CredStore, cred_name, add_credential, update_credential,
}
use port_forwarder.Ssh.Credentials.Saving.{IsSound, Reopens, save_answer, used_disk}
use port_forwarder.Ssh.Credentials.Changes.{
  Added, Changed, add_lem, update_lem, add_credential-persistent, add_credential-again,
}
use port_forwarder.Api.Vault.{
  KeyFiles, Vault, CredRequest, Failure, Body, Response, response, one_credential, failure,
  store_failed, save_key, save_request_key, is_known, create_handler, created, created_answer,
}
use port_forwarder.Api.Vault.Keeping.{
  upload_answer, save_key-answer, save_key-written, key_saved-none, key_saved-some,
}

-- What a request must have.
abbrev pub is_complete : Credential → Bool
is_complete c =
    not (is_empty c.name || (is_empty c.host || is_empty c.user))
    && (c.auth_type == codes "key" || c.auth_type == codes "password")

-- The credentials are those from before, and a new one under an ID that none of them has.
pub record Holds (n : ℕ) (c : Credential) (before after : CredStore) : Type 0 where
  pub sound : IsSound (suc n) after
  pub fresh : lookup c.id before.cs ≡ none
  pub changed : (k : Text) → lookup k after.cs ≡ (if k == c.id then some c else lookup k before.cs)

-- How a request to create a credential ends. Which way it goes is settled by the request and by what
-- the operating system answers: to the save of the store, to the upload of the key, and to a second
-- save.
pub data Creates (n : ℕ) (q : CredRequest) (v : Vault) : Response × Vault → Type 0 where
  refuses : (b : Body) → is_complete q.cred ≡ false → Creates n q v (response 400 b, v)
  -- The store has taken the credential back.
  fails :
      (x : Credentials.Error) (s : CredStore)
      → is_complete q.cred ≡ true
      → save_answer v.store.disk ≡ some x
      → IsSound (suc n) s
      → ((k : Text) → lookup k s.cs ≡ lookup k v.store.cs)
      → Creates n q v (response 409 (failure (store_failed x)), record v { store = s })
  -- The key could not be written, and the credential stays.
  spoils :
      (x : Failure) (c : Credential) (v' : Vault)
      → is_complete q.cred ≡ true
      → save_answer v.store.disk ≡ none
      → is_empty q.key_content ≡ false
      → upload_answer v.keys ≡ some x
      → Holds n c v.store v'.store
      → c ≡ record q.cred { id = c.id }
      → Reopens v'.store
      → Creates n q v (response 400 (failure x), v')
  -- The path of the key could not be saved, and stays in memory with the credential.
  forgets :
      (x : Credentials.Error) (c : Credential) (v' : Vault)
      → is_complete q.cred ≡ true
      → save_answer v.store.disk ≡ none
      → is_empty q.key_content ≡ false
      → upload_answer v.keys ≡ none
      → save_answer (used_disk v.store.disk) ≡ some x
      → Holds n c v.store v'.store
      → c ≡ record q.cred { id = c.id; key_path = v.keys.path_of c.id }
      → Creates n q v (response 400 (failure (store_failed x)), v')
  makes :
      (c : Credential) (v' : Vault)
      → is_complete q.cred ≡ true
      → save_answer v.store.disk ≡ none
      → is_empty q.key_content ≡ true
      → v'.keys ≡ v.keys
      → Holds n c v.store v'.store
      → c ≡ record q.cred { id = c.id }
      → Reopens v'.store
      → Creates n q v (response 201 (one_credential (some c)), v')
  makes_with_key :
      (c : Credential) (v' : Vault)
      → is_complete q.cred ≡ true
      → save_answer v.store.disk ≡ none
      → is_empty q.key_content ≡ false
      → upload_answer v.keys ≡ none
      → save_answer (used_disk v.store.disk) ≡ none
      → lookup (v.keys.path_of c.id) v'.keys.files ≡ some q.key_content
      → Holds n c v.store v'.store
      → c ≡ record q.cred { id = c.id; key_path = v.keys.path_of c.id }
      → Reopens v'.store
      → Creates n q v (response 201 (one_credential (some c)), v')

abbrev named : ℕ → Credential → Credential
named n c = record c { id = cred_name (pos (suc n)) }

module _ (n : ℕ) (q : CredRequest) (v : Vault) (complete : is_complete q.cred ≡ true) where
  failed_lem :
      (x : Credentials.Error) (got : Option Credential) (s : CredStore)
      → Added n (named n q.cred) v.store.cs v.store.disk ((got, some x), s)
      → Creates n q v (response 409 (failure (store_failed x)), record v { store = s })
  failed_lem x got s added = elim (added.result) [
    | inl (is, bad) ↦ absurd (grind (arith, bad))
    | inr (is, bad) ↦
        fails x s complete (sym added.answered) added.sound
          (λ k. ground (arith, added.changed k, added.fresh, is))
  ]

  abbrev new_cred : Credential
  new_cred = named n q.cred

  abbrev path : Text
  path = v.keys.path_of new_cred.id

  abbrev with_key : Credential
  with_key = record new_cred { key_path = path }

  -- The store with the new credential in it.
  module _ {s : CredStore}
      (added : Added n new_cred v.store.cs v.store.disk ((some new_cred, none), s))
      (stored : s.persistent ≡ true)
      (again : save_answer s.disk ≡ save_answer (used_disk v.store.disk)) where
    added-Holds : Holds n new_cred v.store s
    added-Holds = record { sound = added.sound; fresh = added.fresh; changed = added.changed }

    is_durable : Reopens s
    is_durable = elim (added.durable) [ inl bad ↦ absurd (bad refl) | inr opens ↦ opens ]

    there : lookup new_cred.id s.cs ≡ some new_cred
    there = added.changed new_cred.id ∙ ground arith

    -- The store's second `Update`, with the path of the key.
    answer-Creates :
        (out : Option Credentials.Error × CredStore) (k : KeyFiles)
        → is_empty q.key_content ≡ false
        → upload_answer v.keys ≡ none
        → lookup path k.files ≡ some q.key_content
        → Changed
            (suc n)
            (λ j. if j == new_cred.id then some with_key else lookup j s.cs)
            s.disk
            out
        → Creates n q v (created_answer with_key out (record v { store = s; keys = k }))
    answer-Creates (none, s2) k full taken written ch =
        makes_with_key with_key _ complete (sym added.answered) full taken
          (sym again ∙ sym ch.answered) written holds refl
          (elim (ch.durable) [ inl bad ↦ absurd (bad refl) | inr opens ↦ opens ])
      where
        holds : Holds n with_key v.store s2
        holds = record {
          sound = ch.sound;
          fresh = added.fresh;
          changed = λ j. ground (arith, ch.changed j, added.changed j);
        }
    answer-Creates (some x, s2) k full taken written ch =
        forgets x with_key _ complete (sym added.answered) full taken (sym again ∙ sym ch.answered)
          holds refl
      where
        holds : Holds n with_key v.store s2
        holds = record {
          sound = ch.sound;
          fresh = added.fresh;
          changed = λ j. ground (arith, ch.changed j, added.changed j);
        }

    added-Creates : Creates n q v (created q.key_content ((some new_cred, none), s) v)
    unfolding save_request_key
    added-Creates = elim (Bool-cases (is_empty q.key_content)) [
      | inl blank ↦
          rw blank
            (makes new_cred _ complete (sym added.answered) blank refl added-Holds refl is_durable)
      | inr full ↦
          let saved = save_key s.persistent new_cred.id q.key_content v.keys in
          let answer = save_key-answer s.persistent new_cred.id q.key_content v.keys stored in
          elim (Option-cases saved.0) [
            | inl ok ↦
                rw (full, key_saved-none path new_cred saved ok)
                  (answer-Creates _ saved.1 full (sym answer ∙ ok)
                    (save_key-written s.persistent new_cred.id q.key_content v.keys ok)
                    (update_lem added.sound stored new_cred.id with_key there))
            | inr (x, bad) ↦
                rw (full, key_saved-some path new_cred saved bad)
                  (spoils x new_cred _ complete (sym added.answered) full (sym answer ∙ bad)
                    added-Holds refl is_durable)
          ]
    ]

  added_cases :
      (out : (Option Credential × Option Credentials.Error) × CredStore)
      → Added n new_cred v.store.cs v.store.disk out
      → out.1.persistent ≡ true
      → (save_answer v.store.disk ≡ none
          → save_answer out.1.disk ≡ save_answer (used_disk v.store.disk))
      → Creates n q v (created q.key_content out v)
  added_cases ((none, none), s) added stored again = absurd (grind (arith, added.result))
  added_cases ((some got, none), s) added stored again = elim (added.result) [
    | inl (is, ok) ↦ same_cred got (grind (arith, is)) added
    | inr (is, bad) ↦ absurd (bad refl)
  ]
    where
      same_cred :
          (got : Credential)
          → got ≡ new_cred
          → Added n new_cred v.store.cs v.store.disk ((some got, none), s)
          → Creates n q v (created q.key_content ((some got, none), s) v)
      same_cred got same added =
          rw same (added-Creates (rw same at added) stored (again (sym added.answered)))
  added_cases ((none, some x), s) added stored again = failed_lem x none s added
  added_cases ((some got, some x), s) added stored again = failed_lem x (some got) s added

-- `createCredential` with a body that decodes, on a sound store with a path, whose counter `n` is
-- below the largest int. A request without a name, a host or a user, or with an auth type other than
-- "key" and "password", gets 400, and nothing changes; no other request is refused. Otherwise, if the
-- operating system does not take the save of the store, the answer is 409 with that error, and the
-- credentials in memory are as before. If it does, and no key is uploaded, the answer is 201 with the
-- new credential, which is the request's under an ID that no other one has, and no key file is
-- touched. If a key is uploaded and the operating system refuses it, the answer is 400 with that
-- error, and yet the new credential stays, in memory and in the file. If the key is taken, the new
-- credential gets its path; the answer is then 201 with the credential, and the key stands in its
-- file, if the second save is taken too, and 400 with the error of that save if it is not, though the
-- credential with its path stays in memory. The store is sound again, and every other credential is
-- as before; after a 201 a store that is opened on the file has the same credentials.
pub create_handler_lem :
    (n : ℕ) (q : CredRequest) (v : Vault)
    → IsSound n v.store
    → v.store.persistent ≡ true
    → n < max_int
    → Creates n q v (create_handler (some q) v)
unfolding create_handler
create_handler_lem n q v sound stored room =
    elim (Bool-cases (is_empty q.cred.name || (is_empty q.cred.host || is_empty q.cred.user))) [
      | inl blank ↦ rw blank (refuses _ (rw blank refl))
      | inr full ↦ elim (Bool-cases (is_known q.cred.auth_type)) [
        | inl known ↦
            rw (full, known)
              (added_cases n q v (rw (full, known) refl) (add_credential q.cred v.store)
                (add_lem sound stored q.cred room)
                (add_credential-persistent q.cred v.store ∙ stored)
                (add_credential-again q.cred v.store stored))
        | inr unknown ↦ rw (full, unknown) (refuses _ (rw (full, unknown) refl))
      ]
    ]
