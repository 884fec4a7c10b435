-- ===== src/Engine/Store/Saved.antt =====
-- internal/engine/store.go: reading a file that `Save` wrote.
use port_forwarder.Base.{◌≡◌, refl, true, Option, none, some, List, [], ◌∷◌, map, arith, nat_eq}
use port_forwarder.Base.Text.{Text, codes, text_eq}
use port_forwarder.Files.Json.{
  object, lower, set_field, read_fields, read_item, read_items, unmarshal, marshal, omit_empty,
}
use port_forwarder.Files.Disk.{read_file, mkdir_all, write_file}
use port_forwarder.Engine.{unset, Rule, put_status}
use port_forwarder.Engine.Store.{
  Store, rule_fields, no_rule, write_rule, loaded, load_rules, save_rules,
}

omitted_back :
    (r : Rule) (credential : Text)
    → read_fields rule_fields
        (omit_empty (codes "credential") credential [])
        (record r { credential = [] })
      ≡ some (record r { credential = credential })
unfolding read_fields set_field lower rule_fields text_eq nat_eq
omitted_back r [] = refl
omitted_back r (_ ∷ _) = refl

fields_back :
    (r : Rule) → read_fields rule_fields (write_rule r) no_rule ≡ some (put_status unset r)
unfolding read_fields set_field lower rule_fields write_rule text_eq nat_eq put_status
fields_back r = omitted_back (record r { status = unset }) r.credential

-- A rule as it comes back from the file.
abbrev pub stored : Rule → Option Rule
stored r = some (put_status unset r)

list_back :
    (rules : List Rule)
    → read_items rule_fields no_rule (map (λ r. object (write_rule r)) rules)
      ≡ some (map stored rules)
unfolding read_items read_item
list_back [] = refl
list_back (r ∷ rules) = rw (fields_back r) (rw (list_back rules))

-- The disk, with a file that can be read.
abbrev pub readable : Store → Store
readable s = record s { disk = record s.disk { can_read = λ i. true } }

saved_file :
    (rules : List Rule) (s : Store)
    → s.persistent ≡ true
    → (save_rules rules s).0 ≡ none
    → (save_rules rules s).1.disk.file ≡ some (marshal write_rule rules)
unfolding save_rules mkdir_all write_file
saved_file rules s stored ok = ground arith

load_written :
    (rules : List Rule) (s : Store)
    → s.disk.file ≡ some (marshal write_rule rules)
    → (load_rules (readable s)).0 ≡ loaded (map stored rules)
unfolding load_rules read_file marshal unmarshal
load_written rules s h = rw h (rw (list_back rules))

-- `List` of a store with a path gives the rules that `Save` wrote without an error, in the same
-- order and with no status, if the file can be read.
pub load-save :
    (rules : List Rule) (s : Store)
    → s.persistent ≡ true
    → (save_rules rules s).0 ≡ none
    → (load_rules (readable (save_rules rules s).1)).0 ≡ loaded (map stored rules)
load-save rules s persistent ok =
    load_written rules (save_rules rules s).1 (saved_file rules s persistent ok)
