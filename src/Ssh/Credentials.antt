-- ===== src/Ssh/Credentials.antt =====
-- internal/ssh/credentials.go: the credentials, in memory and in a JSON file. Each method runs under
-- the store's mutex from its first line to its last, and none calls another: a method is one step.
-- A `range` loop visits the map in the order of the list.
pub mod Names
pub mod Saving
pub mod Changes
pub mod Opening
use port_forwarder.Base.{
  ℕ, zero, suc, Bool, true, false, Option, none, some, List, [], ◌∷◌, ◌++◌, map, ◌==◌, nat_eq,
  if◌then◌else◌,
}
use port_forwarder.Base.Int.{ℤ, pos, negsuc, inc, geb}
use port_forwarder.Base.Text.{Text, codes, text_eq}
use port_forwarder.Base.Map.{Map, lookup, insert, erase}
use port_forwarder.Decimal.{format_int, scan_int}
use port_forwarder.Files.Json.{Value, text, Content, Fields, unmarshal, marshal, omit_empty}
use port_forwarder.Files.Disk.{
  Disk, ReadResult, not_exist, unreadable, content, read_file, mkdir_all, write_file,
}

pub record Credential : Type 0 where
  pub id : Text
  pub name : Text
  pub host : Text
  pub user : Text
  pub auth_type : Text
  pub key_path : Text
  pub passphrase : Text
  pub password : Text

abbrev pub no_credential : Credential
no_credential = record {
  id = [];
  name = [];
  host = [];
  user = [];
  auth_type = [];
  key_path = [];
  passphrase = [];
  password = [];
}

-- The struct tags, read.
unfoldable pub credential_fields : Fields Credential
credential_fields =
    (codes "id", λ v c. record c { id = v })
    ∷ (codes "name", λ v c. record c { name = v })
    ∷ (codes "host", λ v c. record c { host = v })
    ∷ (codes "user", λ v c. record c { user = v })
    ∷ (codes "authType", λ v c. record c { auth_type = v })
    ∷ (codes "keyPath", λ v c. record c { key_path = v })
    ∷ (codes "passphrase", λ v c. record c { passphrase = v })
    ∷ (codes "password", λ v c. record c { password = v })
    ∷ []

-- The struct tags, written.
unfoldable pub write_credential : Credential → List (Text × Value)
write_credential c =
    (codes "id", text c.id)
    ∷ (codes "name", text c.name)
    ∷ (codes "host", text c.host)
    ∷ (codes "user", text c.user)
    ∷ (codes "authType", text c.auth_type)
    ∷ omit_empty (codes "keyPath") c.key_path
        (omit_empty (codes "passphrase") c.passphrase (omit_empty (codes "password") c.password []))

-- `persistent`: the path is not the empty string. `disk` is the file at the path.
pub record CredStore : Type 0 where
  pub persistent : Bool
  pub next : ℤ
  pub cs : Map Credential
  pub disk : Disk

pub data Error : Type 0 where
  read_failed : Error
  parse_failed : Error
  mkdir_failed : Error
  write_failed : Error
  not_found : Text → Error

unfoldable pub id_prefix : Text
id_prefix = codes "credp-"

-- The part of a `Sscanf` format before its verb: what is left of the input behind it.
unfoldable pub strip : Text → Text → Option Text
strip [] s = some s
strip (c ∷ p) [] = none
strip (c ∷ p) (d ∷ s) = if c == d then strip p s else none

abbrev or_zero : Option ℤ → ℤ
or_zero none = pos 0
or_zero (some n) = n

abbrev scan_rest : Option Text → Option ℤ
scan_rest none = none
scan_rest (some s) = scan_int s

-- `fmt.Sscanf(id, "credp-%d", &n)`, or 0.
unfoldable pub atoi_name : Text → ℤ
unfolding strip id_prefix
atoi_name id = or_zero (scan_rest (strip id_prefix id))

-- `fmt.Sprintf("credp-%d", n)`
unfoldable pub cred_name : ℤ → Text
unfolding id_prefix
cred_name n = id_prefix ++ format_int n

-- `if n := atoiName(c.ID); n >= s.next { s.next = n + 1 }`
unfoldable pub raise : ℤ → ℤ → ℤ
raise n next = if geb n next then inc n else next

unfoldable pub load : List (Option Credential) → CredStore → CredStore
unfolding raise
load [] s = s
load (none ∷ list) s = load list s
load (some c ∷ list) s =
    load list (record s { cs = insert c.id c s.cs; next = raise (atoi_name c.id) s.next })

-- A store with no credential.
abbrev pub empty_store : Bool → Disk → CredStore
empty_store persistent disk = record { persistent = persistent; next = pos 0; cs = []; disk = disk }

pub data Opened : Type 0 where
  failed : Error → Opened
  opened : CredStore → Opened

abbrev pub load_parsed : Option (List (Option Credential)) → CredStore → Opened
load_parsed none s = failed parse_failed
load_parsed (some list) s = opened (load list s)

abbrev pub open_read : ReadResult → CredStore → Opened
open_read not_exist s = opened s
open_read unreadable s = failed read_failed
open_read (content c) s = load_parsed (unmarshal credential_fields no_credential c) s

-- `NewCredStore(path)`
unfoldable pub new_cred_store : Bool → Disk → Opened
unfolding read_file
new_cred_store persistent disk =
    let (answer, disk') = read_file disk in open_read answer (empty_store persistent disk')

-- `List`, and `credsSlice`.
unfoldable pub creds_slice : Map Credential → List Credential
creds_slice [] = []
creds_slice ((_, c) ∷ cs) = c ∷ creds_slice cs

unfoldable pub get : Text → CredStore → Option Credential
get id s = lookup id s.cs

abbrev write_error : Bool → Option Error
write_error true = none
write_error false = some write_failed

abbrev save_in : Bool → CredStore → Option Error × CredStore
save_in false s = (some mkdir_failed, s)
save_in true s =
    let (ok, disk) = write_file (marshal write_credential (creds_slice s.cs)) s.disk in
    (write_error ok, record s { disk = disk })

-- `saveLocked`
unfoldable pub save_locked : CredStore → Option Error × CredStore
save_locked s =
    let (ok, disk) = mkdir_all s.disk in
    if s.persistent then save_in ok (record s { disk = disk }) else (none, s)

abbrev roll_back :
    Credential → Option Error × CredStore → (Option Credential × Option Error) × CredStore
roll_back c (none, s) = ((some c, none), s)
roll_back c (some x, s) = ((none, some x), record s { cs = erase c.id s.cs })

-- `Add`
unfoldable pub add_credential :
    Credential → CredStore → (Option Credential × Option Error) × CredStore
add_credential c s =
    let next = inc s.next in
    let c' : Credential = record c { id = cred_name next } in
    roll_back c' (save_locked (record s { next = next; cs = insert c'.id c' s.cs }))

abbrev update_at : Text → Credential → Option Credential → CredStore → Option Error × CredStore
update_at id c none s = (some (not_found id), s)
update_at id c (some old) s = save_locked (record s { cs = insert id (record c { id = id }) s.cs })

-- `Update`
unfoldable pub update_credential : Text → Credential → CredStore → Option Error × CredStore
update_credential id c s = update_at id c (lookup id s.cs) s

abbrev delete_at : Text → Option Credential → CredStore → Option Error × CredStore
delete_at id none s = (some (not_found id), s)
delete_at id (some old) s = save_locked (record s { cs = erase id s.cs })

-- `Delete`
unfoldable pub delete_credential : Text → CredStore → Option Error × CredStore
delete_credential id s = delete_at id (lookup id s.cs) s
