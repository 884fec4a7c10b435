-- ===== src/Ssh/Credentials/Opening.antt =====
-- internal/ssh/credentials.go: `NewCredStore` on any file.
use port_forwarder.Base.{
  ℕ, suc, ◌≤◌, ◌≡◌, refl, Bool, true, false, Option, none, some, List, [], ◌∷◌, arith, leb, All,
  if◌then◌else◌,
}
use port_forwarder.Base.Int.{ℤ, pos, negsuc, inc, geb, max_int}
use port_forwarder.Base.Text.{text_eq}
use port_forwarder.Base.Map.{insert, lookup-nil, lookup-insert, insert-NodupKeys}
use port_forwarder.Files.Json.{Content, unmarshal}
use port_forwarder.Files.Disk.{Disk, read_file}
use port_forwarder.Ssh.Credentials.{
  Credential, no_credential, credential_fields, CredStore, atoi_name, raise, load, empty_store,
  opened, new_cred_store,
}
use port_forwarder.Ssh.Credentials.Saving.{IsSound}

-- A credential whose ID has no number, or one below the largest int.
abbrev pub HasRoom : Option Credential → Type 0
HasRoom none = Unit
HasRoom (some c) = geb (atoi_name c.id) (pos max_int) ≡ false

raised : ℤ → ℕ → ℕ
raised (pos i) n = if leb n i then suc i else n
raised (negsuc i) n = n

raise_lem :
    (i : ℤ) (n : ℕ)
    → geb i (pos max_int) ≡ false
    → (raise i (pos n) ≡ pos (raised i n)) × (geb (pos (raised i n)) i ≡ true) × (n ≤ raised i n)
unfolding raise raised inc
raise_lem (pos i) n h = (ground arith, ground arith, ground arith)
raise_lem (negsuc i) n h = (ground arith, ground arith, ground arith)

geb_up : (n m : ℕ) (i : ℤ) → n ≤ m → geb (pos n) i ≡ true → geb (pos m) i ≡ true
geb_up n m i h g = ground arith

load_one :
    {n : ℕ} {s : CredStore} (c : Credential)
    → IsSound n s
    → HasRoom (some c)
    → IsSound
        (raised (atoi_name c.id) n)
        (record s { cs = insert c.id c s.cs; next = raise (atoi_name c.id) s.next })
load_one {n} {s} c sound room =
    let (goes, above, grows) = raise_lem (atoi_name c.id) n room in
    record {
      counter = rw sound.counter goes;
      nodup = insert-NodupKeys c.id c s.cs sound.nodup;
      keyed = λ k d at. ground (arith, lookup-insert k c.id c s.cs, sound.keyed k d);
      below = λ k d at. elim (text_eq.dec k c.id) [
        | yes same ↦ rw same above
        | no other ↦
            geb_up n (raised (atoi_name c.id) n) (atoi_name k) grows
              (sound.below k d (ground (arith, lookup-insert k c.id c s.cs)))
      ];
    }

pub load-IsSound :
    (list : List (Option Credential)) {n : ℕ} {s : CredStore}
    → IsSound n s
    → All HasRoom list
    → (m : ℕ) × IsSound m (load list s)
unfolding load
load-IsSound [] {n} sound room = (n, sound)
load-IsSound (none ∷ list) sound (_, room) = load-IsSound list sound room
load-IsSound (some c ∷ list) sound (one, room) = load-IsSound list (load_one c sound one) room

pub empty-IsSound : (persistent : Bool) (d : Disk) → IsSound 0 (empty_store persistent d)
empty-IsSound persistent d = record {
  counter = refl;
  nodup = tt;
  keyed = λ k c at. absurd (ground (arith, lookup-nil {V = Credential} k));
  below = λ k c at. absurd (ground (arith, lookup-nil {V = Credential} k));
}

-- `NewCredStore` on a file that can be read and parsed, where no ID has a number as large as the
-- largest int, gives a sound store, with some counter, whatever the order, the repetitions and the
-- nulls in the file.
pub open_lem :
    (persistent : Bool) (d : Disk) (c : Content) (list : List (Option Credential))
    → d.file ≡ some c
    → d.can_read d.calls ≡ true
    → unmarshal credential_fields no_credential c ≡ some list
    → All HasRoom list
    → (m : ℕ) × (s : CredStore) × (new_cred_store persistent d ≡ opened s) × IsSound m s
unfolding new_cred_store read_file
open_lem persistent d c list there can parsed room =
    let s0 = empty_store persistent (record d { calls = suc d.calls }) in
    let (m, sound) =
      load-IsSound list (empty-IsSound persistent (record d { calls = suc d.calls })) room in
    (m, load list s0, rw (there, can) (rw parsed), sound)
