-- ===== src/Ssh/Credentials/Saving.antt =====
-- internal/ssh/credentials.go: a store that is opened on the file that `saveLocked` wrote.
use port_forwarder.Base.{
  ℕ, suc, ◌≡◌, refl, ap, ◌∙◌, sym, true, Option, none, some, List, [], ◌∷◌, map, arith, nat_eq,
  if◌then◌else◌,
}
use port_forwarder.Base.Int.{pos, geb}
use port_forwarder.Base.Text.{Text, text_eq, codes}
use port_forwarder.Base.Map.{Map, lookup, insert, lookup-insert, lookup-cons, lookup-nil, NodupKeys}
use port_forwarder.Files.Json.{
  object, lower, set_field, read_fields, read_item, read_items, unmarshal, marshal, omit_empty,
}
use port_forwarder.Files.Disk.{Disk, WriteAnswer, written, read_file, mkdir_all, write_file}
use port_forwarder.Ssh.Credentials.{
  Credential, no_credential, credential_fields, write_credential, CredStore, Error, mkdir_failed,
  write_failed, atoi_name, raise, load, empty_store, opened, new_cred_store, creds_slice,
  save_locked,
}

-- The fields that are left out when they are empty come back too.
omitted_back :
    (c : Credential) (key_path passphrase password : Text)
    → read_fields credential_fields
        (omit_empty
          (codes "keyPath")
          key_path
          (omit_empty (codes "passphrase") passphrase (omit_empty (codes "password") password [])))
        (record c { key_path = []; passphrase = []; password = [] })
      ≡ some (record c { key_path = key_path; passphrase = passphrase; password = password })
unfolding read_fields set_field lower credential_fields text_eq nat_eq
omitted_back c [] [] [] = refl
omitted_back c [] [] (_ ∷ _) = refl
omitted_back c [] (_ ∷ _) [] = refl
omitted_back c [] (_ ∷ _) (_ ∷ _) = refl
omitted_back c (_ ∷ _) [] [] = refl
omitted_back c (_ ∷ _) [] (_ ∷ _) = refl
omitted_back c (_ ∷ _) (_ ∷ _) [] = refl
omitted_back c (_ ∷ _) (_ ∷ _) (_ ∷ _) = refl

fields_back :
    (c : Credential) → read_fields credential_fields (write_credential c) no_credential ≡ some c
unfolding read_fields set_field lower credential_fields write_credential text_eq nat_eq
fields_back c = omitted_back c c.key_path c.passphrase c.password

list_back :
    (list : List Credential)
    → read_items credential_fields no_credential (map (λ c. object (write_credential c)) list)
      ≡ some (map some list)
unfolding read_items read_item
list_back [] = refl
list_back (c ∷ list) = rw (fields_back c) (rw (list_back list))

pub unmarshal-marshal :
    (list : List Credential)
    → unmarshal credential_fields no_credential (marshal write_credential list)
      ≡ some (map some list)
unfolding unmarshal marshal
unmarshal-marshal list = list_back list

-- What the second map has, else what the first has.
abbrev pub over : Option Credential → Option Credential → Option Credential
over (some c) o = some c
over none o = o

-- Loading the values of a map enters each of them under its ID.
pub lookup-load :
    (m : Map Credential) (s : CredStore)
    → NodupKeys m
    → ((k : Text) (c : Credential) → lookup k m ≡ some c → c.id ≡ k)
    → (k : Text)
    → lookup k (load (map some (creds_slice m)) s).cs ≡ over (lookup k m) (lookup k s.cs)
unfolding load creds_slice
lookup-load [] s u keyed k = ground (arith, lookup-nil {V = Credential} k)
lookup-load ((j, c) ∷ m) s u keyed k =
    let s' : CredStore = record s {
      cs = insert c.id c s.cs;
      next = raise (atoi_name c.id) s.next;
    } in
    let rest =
      lookup-load m s' u.1 (λ i d at. keyed i d (ground (arith, lookup-cons i j c m, u.0))) k in
    rest
    ∙ ground (
      arith,
      lookup-insert k c.id c s.cs,
      lookup-cons k j c m,
      u.0,
      keyed j c (ground (arith, lookup-cons j j c m)),
    )

-- `next` is `n`, the map holds each credential once, under its ID, and no ID has a number above `n`.
pub record IsSound (n : ℕ) (s : CredStore) : Type 0 where
  pub counter : s.next ≡ pos n
  pub nodup : NodupKeys s.cs
  pub keyed : (k : Text) (c : Credential) → lookup k s.cs ≡ some c → c.id ≡ k
  pub below :
      (k : Text) (c : Credential) → lookup k s.cs ≡ some c → geb (pos n) (atoi_name k) ≡ true

-- The disk, with a file that can be read.
abbrev pub readable : Disk → Disk
readable d = record d { can_read = λ i. true }

-- A store that is opened on the disk of `s` has the same credentials, under the same IDs.
pub record Reopens (s : CredStore) : Type 0 where
  pub store : CredStore
  pub opens : new_cred_store true (readable s.disk) ≡ opened store
  pub same : (k : Text) → lookup k store.cs ≡ lookup k s.cs

over_nil : (o : Option Credential) → over o none ≡ o
over_nil none = refl
over_nil (some c) = refl

-- What `saveLocked` answers when there is a path: the error of the call that the operating system
-- refuses.
abbrev write_answer : WriteAnswer → Option Error
write_answer written = none
write_answer _ = some write_failed

abbrev pub save_answer : Disk → Option Error
save_answer d =
    if d.can_mkdir d.calls then write_answer (d.answer (suc d.calls)) else some mkdir_failed

module _ (s : CredStore) (stored : s.persistent ≡ true) where
  pub save_locked-answer : (save_locked s).0 ≡ save_answer s.disk
  unfolding save_locked mkdir_all write_file
  save_locked-answer = ground arith

  saved_file :
      (save_locked s).0 ≡ none
      → (save_locked s).1.disk.file ≡ some (marshal write_credential (creds_slice s.cs))
  unfolding save_locked mkdir_all write_file
  saved_file ok = ground arith

-- The disk behind a save that has made its two calls.
abbrev pub used_disk : Disk → Disk
used_disk d = record d { calls = suc (suc d.calls) }

pub save_locked-again :
    (s : CredStore)
    → s.persistent ≡ true
    → (save_locked s).0 ≡ none
    → save_answer (save_locked s).1.disk ≡ save_answer (used_disk s.disk)
unfolding save_locked mkdir_all write_file
save_locked-again s stored ok = ground arith

-- Saving changes nothing in memory.
pub save_locked-cs : (s : CredStore) → (save_locked s).1.cs ≡ s.cs
unfolding save_locked mkdir_all write_file
save_locked-cs s = ground arith

pub save_locked-next : (s : CredStore) → (save_locked s).1.next ≡ s.next
unfolding save_locked mkdir_all write_file
save_locked-next s = ground arith

pub save_locked-persistent : (s : CredStore) → (save_locked s).1.persistent ≡ s.persistent
unfolding save_locked mkdir_all write_file
save_locked-persistent s = ground arith

reopen_written :
    (d : Disk) (m : Map Credential)
    → d.file ≡ some (marshal write_credential (creds_slice m))
    → new_cred_store true (readable d)
      ≡ opened (
          load
            (map some (creds_slice m))
            (empty_store true (record (readable d) { calls = suc d.calls })))
unfolding new_cred_store read_file
reopen_written d m h = rw h (rw (unmarshal-marshal (creds_slice m)))

pub save_locked-Reopens :
    {n : ℕ} (s : CredStore)
    → IsSound n s
    → s.persistent ≡ true
    → (save_locked s).0 ≡ none
    → Reopens (save_locked s).1
save_locked-Reopens s sound stored ok =
    let d = (save_locked s).1.disk in
    let s0 = empty_store true (record (readable d) { calls = suc d.calls }) in
    record {
      store = load (map some (creds_slice s.cs)) s0;
      opens = reopen_written d s.cs (saved_file s stored ok);
      same = λ k.
          lookup-load s.cs s0 sound.nodup sound.keyed k
          ∙ rw (lookup-nil {V = Credential} k, over_nil (lookup k s.cs))
              (sym (ap (λ m. lookup k m) (save_locked-cs s)));
    }
