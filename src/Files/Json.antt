-- ===== src/Files/Json.antt =====
-- encoding/json, as far as a list of pointers to structs with fields of type string needs it. Go
-- strings are taken to be valid UTF-8, which the encoder keeps. A key matches a field whatever the
-- case of its ASCII letters.
use port_forwarder.Base.{
  ◌+◌, Bool, false, ◌&&◌, ◌||◌, Option, none, some, List, [], ◌∷◌, map, leb, ◌==◌, nat_eq,
  if◌then◌else◌,
}
use port_forwarder.Base.Options.{◌>>=◌}
use port_forwarder.Base.Text.{Text, text_eq}

-- A value in an object; `other_value` is a number, a Boolean, an array or an object.
pub data Value : Type 0 where
  null : Value
  text : Text → Value
  other_value : Value

pub data Item : Type 0 where
  null_item : Item
  object : List (Text × Value) → Item
  other_item : Item

-- What a file holds for the decoder: no byte at all, no JSON document, or one.
pub data Content : Type 0 where
  blank : Content
  junk : Content
  null_document : Content
  array : List Item → Content
  other_document : Content

unfoldable pub lower : Text → Text
lower [] = []
lower (c ∷ s) = let rest = lower s in if leb 65 c && leb c 90 then (c + 32) ∷ rest else c ∷ rest

-- The fields of a struct, with the assignments to them.
abbrev pub Fields {ℓ} : Type ℓ → Type ℓ
Fields A = List (Text × (Text → A → A))

module _ {A : Type 0} where
  unfoldable pub has_field : Fields A → Text → Bool
  unfolding lower
  has_field [] k = false
  has_field ((name, _) ∷ fs) k = lower k == lower name || has_field fs k

  unfoldable pub set_field : Fields A → Text → Text → A → A
  unfolding lower
  set_field [] k v a = a
  set_field ((name, put) ∷ fs) k v a = if lower k == lower name then put v a else set_field fs k v a

  -- An object into a struct: a null leaves a field as it is, and a value of another type is an
  -- error, if there is such a field.
  unfoldable pub read_fields : Fields A → List (Text × Value) → A → Option A
  unfolding has_field set_field
  read_fields fs [] a = some a
  read_fields fs ((k, null) ∷ kvs) a = read_fields fs kvs a
  read_fields fs ((k, text v) ∷ kvs) a = read_fields fs kvs (set_field fs k v a)
  read_fields fs ((k, other_value) ∷ kvs) a =
      let rest = read_fields fs kvs a in if has_field fs k then none else rest

  -- An item into a pointer to a struct.
  unfoldable pub read_item : Fields A → A → Item → Option (Option A)
  unfolding read_fields
  read_item fs zero_value null_item = some none
  read_item fs zero_value (object kvs) = do a ← read_fields fs kvs zero_value; some (some a)
  read_item fs zero_value other_item = none

  unfoldable pub read_items : Fields A → A → List Item → Option (List (Option A))
  unfolding read_item
  read_items fs zero_value [] = some []
  read_items fs zero_value (i ∷ is) = do
    a ← read_item fs zero_value i
    rest ← read_items fs zero_value is
    some (a ∷ rest)

  -- `json.Unmarshal(data, &list)`; `none` is an error.
  unfoldable pub unmarshal : Fields A → A → Content → Option (List (Option A))
  unfolding read_items
  unmarshal fs zero_value blank = none
  unmarshal fs zero_value junk = none
  unmarshal fs zero_value null_document = some []
  unmarshal fs zero_value (array is) = read_items fs zero_value is
  unmarshal fs zero_value other_document = none

-- A field with the option omitempty.
abbrev pub omit_empty : Text → Text → List (Text × Value) → List (Text × Value)
omit_empty k [] kvs = kvs
omit_empty k (c ∷ s) kvs = (k, text (c ∷ s)) ∷ kvs

module _ {A : Type 0} where
  -- `json.MarshalIndent(list, "", "  ")`
  unfoldable pub marshal : (A → List (Text × Value)) → List A → Content
  marshal write list = array (map (λ a. object (write a)) list)
