-- ===== src/Engine/Refinement.antt =====
-- internal/engine/engine.go: `Add`, `Update` and `Remove` implement a table of rules.
pub mod Adding
pub mod Updating
pub mod Removing
pub mod Sequences
use port_forwarder.Base.{
  ◌≡◌, ◌≢◌, refl, ◌∙◌, ap, true, false, Option, none, some, List, [], ◌∷◌, arith, ◌==◌,
  if◌then◌else◌,
}
use port_forwarder.Base.Text.{Text, text_eq}
use port_forwarder.Base.Map.{lookup}
use port_forwarder.Base.Prog.{Prog, pure, ◌>>=◌}
use port_forwarder.Engine.{Rule, Error, RemoteBackend, Engine}
use port_forwarder.Engine.Queries.{is_remote}
use port_forwarder.Engine.Methods.{add, update, remove}
use port_forwarder.Engine.Soundness.{IsSound, Inv-held}
use port_forwarder.Engine.Reports.{SameRule}
use port_forwarder.Engine.Table.{
  Entry, Table, Op, add_rule, update_rule, remove_rule, is_far, put, Effect, performed,
}

-- A rule has the fields of the entry. A backend may have reported another address of a remote rule.
pub record IsOf (r : Rule) (x : Entry) : Type 0 where
  pub typ : r.typ ≡ x.typ
  pub name : r.name ≡ x.name
  pub target : r.target ≡ x.target
  pub credential : r.credential ≡ x.credential
  pub listen : is_far x.typ ≡ false → r.listen ≡ x.listen

abbrev pub Shows : Option Rule → Option Entry → Type 0
Shows none none = Unit
Shows (some r) (some x) = IsOf r x
Shows _ _ = ⊥

Shows-of : {o o' : Option Rule} {x x' : Option Entry} → o' ≡ o → x' ≡ x → Shows o x → Shows o' x'
Shows-of {o} {o'} {x} {x'} p q h = rw (p, q) h

pub Shows-some :
    (r : Rule) (o : Option Entry) → Shows (some r) o → (x : Entry) × (o ≡ some x) × IsOf r x
Shows-some r none h = absurd h
Shows-some r (some x) h = (x, refl, h)

pub Shows-none : (o : Option Entry) → Shows none o → o ≡ none
Shows-none none h = refl
Shows-none (some x) h = absurd h

-- The engine is sound, and its rules are those of the table.
pub record Implements (t : Table) {B : Type 0} (e : Engine B) : Type 0 where
  pub sound : IsSound t.next e
  pub entries : (k : Text) → Shows (lookup k e.rules) (t.entries k)

-- `Remove` says only whether there was a rule.
abbrev pub removed_id : Text → Option Error → Option Text
removed_id id none = some id
removed_id id (some x) = none

module _ {B : Type 0} (be : RemoteBackend B) where
  -- A call of the engine, and its answer but for what the operating system refused.
  unfoldable pub call : Op → Prog (Engine B) (Option Text)
  call (add_rule typ name listen target credential) = do
    res ← add be typ name listen target credential
    pure (some res.0)
  call (update_rule id name listen target credential) = do
    res ← update be id name listen target credential
    pure res.0
  call (remove_rule id) = do err ← remove be id; pure (removed_id id err)

  unfoldable pub run : List Op → Prog (Engine B) (List (Option Text))
  run [] = pure []
  run (op ∷ ops) = do answer ← call op; answers ← run ops; pure (answer ∷ answers)

module _ {B : Type 0} {t : Table} {e : Engine B} (e' : Engine B) (id : Text)
    (imp : Implements t e) where
  pub entries-put :
      (o : Option Entry)
      → Shows (lookup id e'.rules) o
      → ((k : Text) → k ≢ id → lookup k e'.rules ≡ lookup k e.rules)
      → (k : Text) → Shows (lookup k e'.rules) (put id o t.entries k)
  entries-put o mine others k = elim (text_eq.dec k id) [
    | yes same ↦ Shows-of (ap (λ j. lookup j e'.rules) same) (ground arith) mine
    | no other ↦ Shows-of (others k other) (ground arith) (imp.entries k)
  ]

  pub entries-set :
      (o : Option Rule) (x : Option Entry)
      → Shows o x
      → ((k : Text) → lookup k e'.rules ≡ (if k == id then o else lookup k e.rules))
      → (k : Text) → Shows (lookup k e'.rules) (put id x t.entries k)
  entries-set o x shows rules =
      entries-put x (Shows-of own refl shows) (λ k other. ground (arith, rules k))
    where
      own : lookup id e'.rules ≡ o
      own = ground (arith, rules id)

-- A report does not change the entry of a remote rule.
pub IsOf-SameRule :
    (r r' : Rule) (x : Entry) → is_remote r ≡ true → IsOf r x → SameRule r r' → IsOf r' x
IsOf-SameRule r r' x far is same = record {
  typ = same.typ ∙ is.typ;
  name = same.name ∙ is.name;
  target = same.target ∙ is.target;
  credential = same.credential ∙ is.credential;
  listen = λ near. absurd (ground (arith, is.typ));
}

-- What a call of the engine does is what the table says: the answer, the rules, and the calls of the
-- backend.
pub record Refines {B : Type 0} (be : RemoteBackend B) (eff : Effect) (e : Engine B)
    (answer : Option Text) (e' : Engine B) : Type 0 where
  pub answered : answer ≡ eff.answer
  pub implements : Implements eff.table e'
  pub remote : e'.remote ≡ performed be eff.calls e.remote

pub performed-nil : {B : Type 0} (be : RemoteBackend B) (o : Option B) → performed be [] o ≡ o
performed-nil be none = refl
performed-nil be (some b) = refl

pub unlocked :
    {B : Type 0} {t : Table} {e : Engine B}
    → Implements t e
    → Implements t (record e { held = false })
unlocked imp = record {
  sound = record { free = refl; inv = Inv-held false imp.sound.inv };
  entries = imp.entries;
}
