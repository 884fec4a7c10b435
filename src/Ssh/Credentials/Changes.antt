-- ===== src/Ssh/Credentials/Changes.antt =====
-- internal/ssh/credentials.go: what `Add`, `Update` and `Delete` do to a sound store.
use port_forwarder.Base.{
  ℕ, suc, ◌<◌, ◌≡◌, ◌≢◌, refl, ap, ◌∙◌, sym, ◌⊎◌, inl, inr, true, Option, none, some, arith, ◌==◌,
  nat_eq, if◌then◌else◌, Option-cases,
}
use port_forwarder.Base.Int.{ℤ, pos, geb, inc, max_int, inc_below}
use port_forwarder.Base.Text.{Text, text_eq}
use port_forwarder.Base.Map.{
  Map, lookup, insert, erase, lookup-insert, lookup-erase, insert-NodupKeys, erase-NodupKeys,
}
use port_forwarder.Files.Disk.{Disk}
use port_forwarder.Ssh.Credentials.{
  Credential, CredStore, Error, atoi_name, cred_name, roll_back, save_locked, add_credential,
  update_credential, delete_credential,
}
use port_forwarder.Ssh.Credentials.Names.{atoi_name-cred_name}
use port_forwarder.Ssh.Credentials.Saving.{
  IsSound, Reopens, save_answer, used_disk, save_locked-again, save_locked-answer, save_locked-cs,
  save_locked-next, save_locked-persistent, save_locked-Reopens,
}

geb_trans : (n : ℕ) (i : ℤ) → geb (pos n) i ≡ true → geb (pos (suc n)) i ≡ true
geb_trans n i h = ground arith

module _ {n : ℕ} {s : CredStore} (sound : IsSound n s) where
  -- A change of the disk alone.
  IsSound-saved : IsSound n (save_locked s).1
  IsSound-saved = record {
    counter = save_locked-next s ∙ sound.counter;
    nodup = rw (save_locked-cs s) sound.nodup;
    keyed = rw (save_locked-cs s) sound.keyed;
    below = rw (save_locked-cs s) sound.below;
  }

  -- A credential under an ID that was given out.
  IsSound-insert :
      (c : Credential)
      → geb (pos n) (atoi_name c.id) ≡ true
      → IsSound n (record s { cs = insert c.id c s.cs })
  IsSound-insert c h = record {
    counter = sound.counter;
    nodup = insert-NodupKeys c.id c s.cs sound.nodup;
    keyed = λ k d at. ground (arith, lookup-insert k c.id c s.cs, sound.keyed k d);
    below = λ k d at. ground (arith, lookup-insert k c.id c s.cs, sound.below k d);
  }

  IsSound-erase : (id : Text) → IsSound n (record s { cs = erase id s.cs })
  IsSound-erase id = record {
    counter = sound.counter;
    nodup = erase-NodupKeys id s.cs sound.nodup;
    keyed = λ k d at. ground (arith, lookup-erase k id s.cs, sound.keyed k d);
    below = λ k d at. ground (arith, lookup-erase k id s.cs, sound.below k d);
  }

  IsSound-next : IsSound (suc n) (record s { next = pos (suc n) })
  IsSound-next = record {
    counter = refl;
    nodup = sound.nodup;
    keyed = sound.keyed;
    below = λ k d at. geb_trans n (atoi_name k) (sound.below k d at);
  }

  new_name_fresh : n < max_int → lookup (cred_name (pos (suc n))) s.cs ≡ none
  new_name_fresh room = elim (Option-cases (lookup (cred_name (pos (suc n))) s.cs)) [
    | inl absent ↦ absent
    | inr (c, found) ↦ absurd (
        ground (
          arith,
          sound.below (cred_name (pos (suc n))) c found,
          atoi_name-cred_name (suc n) (omega arith),
        ))
  ]

-- What a method does that changes the map to `cs` and saves it: it answers as saving does, the map
-- is changed whether saving succeeds or not, and if it does, the file holds the same map.
pub record Changed (n : ℕ) (cs : Text → Option Credential) (d : Disk)
    (out : Option Error × CredStore) : Type 0 where
  pub sound : IsSound n out.1
  pub answered : out.0 ≡ save_answer d
  pub changed : (k : Text) → lookup k out.1.cs ≡ cs k
  pub durable : (out.0 ≢ none) ⊎ Reopens out.1

-- What `Add` does: the credential gets an ID that no other one has; if it cannot be saved, it is
-- not kept in memory either.
pub record Added (n : ℕ) (c : Credential) (cs : Map Credential) (d : Disk)
    (out : (Option Credential × Option Error) × CredStore) : Type 0 where
  pub sound : IsSound (suc n) out.1
  pub fresh : lookup c.id cs ≡ none
  pub answered : out.0.1 ≡ save_answer d
  pub result : ((out.0.0 ≡ some c) × (out.0.1 ≡ none)) ⊎ ((out.0.0 ≡ none) × (out.0.1 ≢ none))
  pub changed : (k : Text) → lookup k out.1.cs ≡ (if k == c.id then out.0.0 else lookup k cs)
  pub durable : (out.0.1 ≢ none) ⊎ Reopens out.1

some-ne-none : {A : Type 0} (o : Option A) (a : A) → o ≡ some a → o ≢ none
some-ne-none o a h p = cc

module _ {n : ℕ} {s : CredStore} (sound : IsSound n s) (stored : s.persistent ≡ true) where
  saved-durable : ((save_locked s).0 ≢ none) ⊎ Reopens (save_locked s).1
  saved-durable = elim (Option-cases (save_locked s).0) [
    | inl ok ↦ inr (save_locked-Reopens s sound stored ok)
    | inr (x, failed) ↦ inl (some-ne-none (save_locked s).0 x failed)
  ]

  saved-Changed :
      (cs : Text → Option Credential)
      → ((k : Text) → lookup k s.cs ≡ cs k)
      → Changed n cs s.disk (save_locked s)
  saved-Changed cs h = record {
    sound = IsSound-saved sound;
    answered = save_locked-answer s stored;
    changed = λ k. ap (λ m. lookup k m) (save_locked-cs s) ∙ h k;
    durable = saved-durable;
  }

roll_back-persistent :
    (c : Credential) (out : Option Error × CredStore)
    → (roll_back c out).1.persistent ≡ out.1.persistent
roll_back-persistent c (none, s) = refl
roll_back-persistent c (some x, s) = refl

pub add_credential-persistent :
    (c : Credential) (s : CredStore) → (add_credential c s).1.persistent ≡ s.persistent
unfolding add_credential
add_credential-persistent c s = roll_back-persistent _ _ ∙ save_locked-persistent _

roll_back-none :
    (c : Credential) (out : Option Error × CredStore)
    → out.0 ≡ none
    → roll_back c out ≡ ((some c, none), out.1)
roll_back-none c (none, s) h = refl
roll_back-none c (some x, s) h = absurd (ground arith)

-- What the operating system answers to a save that comes behind an `Add` that could be saved.
pub add_credential-again :
    (c : Credential) (s : CredStore)
    → s.persistent ≡ true
    → save_answer s.disk ≡ none
    → save_answer (add_credential c s).1.disk ≡ save_answer (used_disk s.disk)
unfolding add_credential
add_credential-again c s stored ok =
    let entered : CredStore = record s {
      next = inc s.next;
      cs = insert (cred_name (inc s.next)) (record c { id = cred_name (inc s.next) }) s.cs;
    } in
    let saved : (save_locked entered).0 ≡ none = save_locked-answer entered stored ∙ ok in
    rw (roll_back-none (record c { id = cred_name (inc s.next) }) (save_locked entered) saved)
      (save_locked-again entered stored saved)

roll_back-some :
    (c : Credential) (out : Option Error × CredStore) (x : Error)
    → out.0 ≡ some x
    → roll_back c out ≡ ((none, some x), record out.1 { cs = erase c.id out.1.cs })
roll_back-some c (none, s) x h = absurd (ground arith)
roll_back-some c (some y, s) x h = ground arith

module _ {n : ℕ} {s : CredStore} (sound : IsSound n s) (stored : s.persistent ≡ true) where
  -- `Delete` of a credential that a sound store with a path has: the error is that of the call
  -- that the operating system refused. In memory the credential is gone, whether there was an
  -- error or not; every other one is as before. Without an error, a store that is opened on the
  -- file has the same credentials. The store is sound again.
  pub delete_lem :
      (id : Text) {c : Credential}
      → lookup id s.cs ≡ some c
      → Changed n (λ k. if k == id then none else lookup k s.cs) s.disk (delete_credential id s)
  unfolding delete_credential
  delete_lem id found = rw found (
      saved-Changed (IsSound-erase sound id) stored (λ k. if k == id then none else lookup k s.cs)
        (λ k. lookup-erase k id s.cs))

  -- `Update` of a credential that a sound store with a path has: the error is that of the call
  -- that the operating system refused. In memory the credential is replaced, and keeps its ID,
  -- whether there was an error or not; every other one is as before. Without an error, a store
  -- that is opened on the file has the same credentials. The store is sound again.
  pub update_lem :
      (id : Text) (c : Credential) {old : Credential}
      → lookup id s.cs ≡ some old
      → Changed n
          (λ k. if k == id then some (record c { id = id }) else lookup k s.cs)
          s.disk
          (update_credential id c s)
  unfolding update_credential
  update_lem id c found = rw found (
      saved-Changed (IsSound-insert sound (record c { id = id }) (sound.below id _ found)) stored
        (λ k. if k == id then some (record c { id = id }) else lookup k s.cs)
        (λ k. lookup-insert k id (record c { id = id }) s.cs))

  -- The store of `Add` as it is saved.
  abbrev entered : Credential → CredStore
  entered c = record s { next = pos (suc n); cs = insert c.id c s.cs }

  entered-IsSound :
      (c : Credential)
      → n < max_int
      → IsSound (suc n) (entered (record c { id = cred_name (pos (suc n)) }))
  entered-IsSound c room =
      IsSound-insert (IsSound-next sound) (record c { id = cred_name (pos (suc n)) })
        (rw (atoi_name-cred_name (suc n) (omega arith)) (ground arith))

  entered-Added :
      (c : Credential)
      → lookup c.id s.cs ≡ none
      → IsSound (suc n) (entered c)
      → Added n c s.cs s.disk (roll_back c (save_locked (entered c)))
  entered-Added c fresh next_sound = elim (Option-cases (save_locked (entered c)).0) [
    | inl ok ↦ rw (roll_back-none c (save_locked (entered c)) ok) (record {
      sound = IsSound-saved next_sound;
      fresh = fresh;
      answered = sym ok ∙ save_locked-answer (entered c) stored;
      result = inl (refl, refl);
      changed =
          λ k. ap (λ m. lookup k m) (save_locked-cs (entered c)) ∙ lookup-insert k c.id c s.cs;
      durable = inr (save_locked-Reopens (entered c) next_sound stored ok);
    })
    | inr (x, bad) ↦ rw (roll_back-some c (save_locked (entered c)) x bad) (record {
      sound = IsSound-erase (IsSound-saved next_sound) c.id;
      fresh = fresh;
      answered = sym bad ∙ save_locked-answer (entered c) stored;
      result = inr (refl, λ p. cc);
      changed = λ k. ground (
        arith,
        lookup-erase k c.id (save_locked (entered c)).1.cs,
        save_locked-cs (entered c),
        lookup-insert k c.id c s.cs,
      );
      durable = inl (λ p. cc);
    })
  ]

  -- `Add` of a credential to a sound store with a path, whose counter `n` is below the largest
  -- int: the credential gets the ID of `n + 1`, which no other one has; the error is that of the
  -- call that the operating system refused, and without an error the new credential is returned.
  -- In memory the new credential is there if there was no error, and is not if there was one;
  -- every other credential is as before. Without an error, a store that is opened on the file has
  -- the same credentials. The store is sound again.
  pub add_lem :
      (c : Credential)
      → n < max_int
      → Added n (record c { id = cred_name (pos (suc n)) }) s.cs s.disk (add_credential c s)
  unfolding add_credential
  add_lem c room =
      rw (sound.counter, inc_below n room)
        (entered-Added (record c { id = cred_name (pos (suc n)) }) (new_name_fresh sound room)
          (entered-IsSound c room))
