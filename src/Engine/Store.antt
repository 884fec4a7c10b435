-- ===== src/Engine/Store.antt =====
-- internal/engine/store.go: the rules in a JSON file. A method runs under the store's mutex from its
-- first line to its last, and none calls another method: it is one step.
pub mod Saved
pub mod Revival
use port_forwarder.Base.{
  ℕ, suc, Bool, true, false, Option, none, some, List, [], ◌∷◌, map, ◌==◌, if◌then◌else◌,
}
use port_forwarder.Base.Text.{Text, codes, text_eq}
use port_forwarder.Files.Json.{
  Value, text, Content, blank, junk, null_document, array, other_document, Fields, unmarshal,
  marshal, omit_empty,
}
use port_forwarder.Files.Disk.{
  Disk, ReadResult, not_exist, unreadable, content, read_file, mkdir_all, write_file,
}
use port_forwarder.Engine.{Status, unset, pending, running, stopped, error, custom, Rule}

-- `persistent`: the path is not the empty string. `disk` is the file at the path.
pub record Store : Type 0 where
  pub persistent : Bool
  pub disk : Disk

pub data StoreError : Type 0 where
  read_failed : StoreError
  parse_failed : StoreError
  mkdir_failed : StoreError
  write_failed : StoreError

abbrev status_of : Text → Status
status_of s =
    if s == []
    then unset
    else if s == codes "pending"
    then pending
    else if s == codes "running"
    then running
    else if s == codes "stopped"
    then stopped
    else if s == codes "error"
    then error
    else custom s

abbrev pub no_rule : Rule
no_rule = record {
  id = [];
  typ = [];
  name = [];
  listen = [];
  target = [];
  status = unset;
  credential = [];
}

-- The struct tags of `Rule`, read.
unfoldable pub rule_fields : Fields Rule
rule_fields =
    (codes "id", λ v r. record r { id = v })
    ∷ (codes "type", λ v r. record r { typ = v })
    ∷ (codes "name", λ v r. record r { name = v })
    ∷ (codes "listen", λ v r. record r { listen = v })
    ∷ (codes "target", λ v r. record r { target = v })
    ∷ (codes "status", λ v r. record r { status = status_of v })
    ∷ (codes "credential", λ v r. record r { credential = v })
    ∷ []

-- The struct tags of `persisted`, written: a rule without its status.
unfoldable pub write_rule : Rule → List (Text × Value)
write_rule r =
    (codes "id", text r.id)
    ∷ (codes "type", text r.typ)
    ∷ (codes "name", text r.name)
    ∷ (codes "listen", text r.listen)
    ∷ (codes "target", text r.target)
    ∷ omit_empty (codes "credential") r.credential []

-- The rules, in pointers that may be nil, or an error.
pub data Loaded : Type 0 where
  failed : StoreError → Loaded
  loaded : List (Option Rule) → Loaded

abbrev parsed : Option (List (Option Rule)) → Loaded
parsed none = failed parse_failed
parsed (some rules) = loaded rules

abbrev load_content : Content → Loaded
load_content blank = loaded []
load_content junk = failed parse_failed
load_content null_document = parsed (unmarshal rule_fields no_rule null_document)
load_content (array is) = parsed (unmarshal rule_fields no_rule (array is))
load_content other_document = failed parse_failed

abbrev load_read : ReadResult → Loaded
load_read not_exist = loaded []
load_read unreadable = failed read_failed
load_read (content c) = load_content c

-- `List`
unfoldable pub load_rules : Store → Loaded × Store
unfolding read_file
load_rules s = let (answer, disk) = read_file s.disk in (load_read answer, record s { disk = disk })

abbrev write_error : Bool → Option StoreError
write_error true = none
write_error false = some write_failed

abbrev save_in : Bool → List Rule → Store → Option StoreError × Store
save_in false rules s = (some mkdir_failed, s)
save_in true rules s =
    let (ok, disk) = write_file (marshal write_rule rules) s.disk in
    (write_error ok, record s { disk = disk })

-- `Save`, with `saveLocked`.
unfoldable pub save_rules : List Rule → Store → Option StoreError × Store
save_rules rules s =
    let (ok, disk) = mkdir_all s.disk in
    if s.persistent then save_in ok rules (record s { disk = disk }) else (none, s)
