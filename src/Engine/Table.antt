-- ===== src/Engine/Table.antt =====
-- What the rule engine of internal/engine/engine.go promises to those who call `Add`, `Update` and
-- `Remove`, and to its backend: a table of rules, and the calls of the backend. It has no mutex, no
-- listeners and no status.
pub mod Fresh
use port_forwarder.Base.{
  ℕ, suc, Bool, true, false, Option, none, some, List, [], ◌∷◌, ◌++◌, ◌==◌, if◌then◌else◌,
}
use port_forwarder.Base.Text.{Text, text_eq}
use port_forwarder.Decimal.{format}
use port_forwarder.Engine.{rule_type_remote, pending, Rule, RemoteBackend}

-- The fields that a caller gives to a rule.
pub record Entry : Type 0 where
  pub typ : Text
  pub name : Text
  pub target : Text
  pub credential : Text
  pub listen : Text

-- The rules, and the number of the next one.
pub record Table : Type 0 where
  pub entries : Text → Option Entry
  pub next : ℕ

pub data Op : Type 0 where
  add_rule : (typ name listen target credential : Text) → Op
  update_rule : (id name listen target credential : Text) → Op
  remove_rule : (id : Text) → Op

abbrev pub is_far : Text → Bool
is_far typ = typ == rule_type_remote

-- The credential of a local rule stays.
abbrev pub renewed : Text → Text → Text → Text → Entry → Entry
renewed name listen target credential x = record x {
  name = name;
  listen = listen;
  target = target;
  credential = if is_far x.typ then credential else x.credential;
}

abbrev pub put : Text → Option Entry → (Text → Option Entry) → Text → Option Entry
put id o f k = if k == id then o else f k

-- A call of the backend.
pub data Call : Type 0 where
  adds : Rule → Call
  removes : Text → Call

-- A remote rule is handed over as pending.
abbrev pub handed : Text → Entry → Rule
handed id x = record {
  id = id;
  typ = x.typ;
  name = x.name;
  listen = x.listen;
  target = x.target;
  status = pending;
  credential = x.credential;
}

-- What comes of one call of the engine: its answer, which is the ID of the rule that was made,
-- changed or removed, the table, and the calls of the backend, in order.
pub record Effect : Type 0 where
  pub answer : Option Text
  pub table : Table
  pub calls : List Call

abbrev pub if_far : Entry → List Call → List Call
if_far x calls = if is_far x.typ then calls else []

abbrev pub update_entry : Text → Text → Text → Text → Text → Option Entry → Table → Effect
update_entry id name listen target credential none t = record {
  answer = none;
  table = t;
  calls = [];
}
update_entry id name listen target credential (some x) t =
    let y = renewed name listen target credential x in
    record {
      answer = some id;
      table = record t { entries = put id (some y) t.entries };
      calls = if_far x (removes id ∷ adds (handed id y) ∷ []);
    }

abbrev pub remove_entry : Text → Option Entry → Table → Effect
remove_entry id none t = record { answer = none; table = t; calls = [] }
remove_entry id (some x) t = record {
  answer = some id;
  table = record t { entries = put id none t.entries };
  calls = if_far x (removes id ∷ []);
}

abbrev pub new_entry : Text → Text → Text → Text → Text → Entry
new_entry typ name listen target credential = record {
  typ = typ;
  name = name;
  target = target;
  credential = credential;
  listen = listen;
}

unfoldable pub apply : Op → Table → Effect
apply (add_rule typ name listen target credential) t =
    let x = new_entry typ name listen target credential in
    record {
      answer = some (format t.next);
      table = record { entries = put (format t.next) (some x) t.entries; next = suc t.next };
      calls = if_far x (adds (handed (format t.next) x) ∷ []);
    }
apply (update_rule id name listen target credential) t =
    update_entry id name listen target credential (t.entries id) t
apply (remove_rule id) t = remove_entry id (t.entries id) t

-- The same for a sequence of calls, with all the answers.
pub record Effects : Type 0 where
  pub answers : List (Option Text)
  pub table : Table
  pub calls : List Call

unfoldable pub replay : List Op → Table → Effects
replay [] t = record { answers = []; table = t; calls = [] }
replay (op ∷ ops) t =
    let first = apply op t in
    let rest = replay ops first.table in
    record {
      answers = first.answer ∷ rest.answers;
      table = rest.table;
      calls = first.calls ++ rest.calls;
    }

module _ {B : Type 0} (be : RemoteBackend B) where
  -- The backend's state behind one call, and behind some, if there is a backend.
  abbrev pub perform : Call → B → B
  perform (adds r) b = (be.add_remote r b).0
  perform (removes id) b = (be.remove_remote id b).0

  abbrev pub perform_all : List Call → B → B
  perform_all [] b = b
  perform_all (c ∷ cs) b = perform_all cs (perform c b)

  abbrev pub performed : List Call → Option B → Option B
  performed cs none = none
  performed cs (some b) = some (perform_all cs b)
