-- ===== src/Engine/Reports.antt =====
-- internal/engine/engine.go: `UpdateRemoteStatus`, and the calls of it that a backend makes.
use port_forwarder.Base.{
  ℕ, ◌≡◌, ◌≢◌, refl, ◌∙◌, true, false, Option, none, some, List, [], ◌∷◌, arith, nat_eq,
  Option-cases, inl, inr, All,
}
use port_forwarder.Base.Text.{Text, text_eq}
use port_forwarder.Base.Map.{lookup}
use port_forwarder.Base.Prog.{
  returns, hangs, Ensures, returned, Ensures-bind, Ensures-eq, Ensures-weaken,
}
use port_forwarder.Engine.{
  Rule, Error, Report, RemoteBackend, Engine, lock, unlock, edit, report_error,
}
use port_forwarder.Engine.Queries.{is_remote, put_report, update_remote_status, update_all}
use port_forwarder.Engine.Methods.{call_add, add_to, call_remove, remove_from}
use port_forwarder.Engine.Steps.{lookup-edit}
use port_forwarder.Engine.Soundness.{
  Fits-remote, Inv-held, Inv-remote, IsSound, InvBut-of_Inv, Inv-edit,
}

module _ {B : Type 0} (e : Engine B) (free : e.held ≡ false) (rep : Report) where
  report_ok :
      {r : Rule}
      → lookup rep.id e.rules ≡ some r
      → rep.err ≡ none
      → update_remote_status rep e
        ≡ returns tt (edit rep.id (put_report rep.listen) (record e { held = false }))
  unfolding update_remote_status lock unlock edit
  report_ok found ok = ground arith

  -- `UpdateRemoteStatus` with an error, for a rule that the engine has, never returns, when the
  -- mutex was free: it locks the mutex, and calls `reportError`, which locks it once more.
  pub report_error_hangs :
      {r : Rule} {x : Error}
      → lookup rep.id e.rules ≡ some r
      → rep.err ≡ some x
      → update_remote_status rep e ≡ hangs
  unfolding update_remote_status lock unlock edit report_error
  report_error_hangs {r} {x} found bad = ground arith

-- The fields of a rule that no report changes: the address is one if the rule is local.
pub record SameRule (r r' : Rule) : Type 0 where
  pub id : r'.id ≡ r.id
  pub typ : r'.typ ≡ r.typ
  pub name : r'.name ≡ r.name
  pub target : r'.target ≡ r.target
  pub credential : r'.credential ≡ r.credential
  pub listen : is_remote r ≡ false → r'.listen ≡ r.listen

-- What may have happened to a remote rule while the backend was called: its status and the
-- address that is shown. Nothing else has changed.
pub record Reported (n : ℕ) (id : Text) (r : Rule) {B : Type 0} (e e' : Engine B) : Type 0 where
  pub sound : IsSound n e'
  pub mine : (r' : Rule) × (lookup id e'.rules ≡ some r') × SameRule r r'
  pub others : (k : Text) → k ≢ id → lookup k e'.rules ≡ lookup k e.rules
  pub lns : e'.lns ≡ e.lns
  pub net : e'.net ≡ e.net
  pub remote : e'.remote ≡ e.remote

abbrev pub IsGood : Text → Report → Type 0
IsGood id rep = (rep.id ≡ id) × (rep.err ≡ none)

module _ {B : Type 0} {n : ℕ} where
  Reported-refl :
      (e : Engine B) (id : Text) (r : Rule)
      → IsSound n e
      → lookup id e.rules ≡ some r
      → Reported n id r e e
  Reported-refl e id r s found = record {
    sound = s;
    mine = (
      r,
      found,
      record {
        id = refl;
        typ = refl;
        name = refl;
        target = refl;
        credential = refl;
        listen = λ h. refl;
      },
    );
    others = λ k h. refl;
    lns = refl;
    net = refl;
    remote = refl;
  }

  Reported-trans :
      {e e1 e2 : Engine B} {id : Text} {r r1 : Rule}
      → Reported n id r e e1
      → SameRule r r1
      → Reported n id r1 e1 e2
      → Reported n id r e e2
  Reported-trans first same rest =
      let (r2, found, alike) = rest.mine in
      record {
        sound = rest.sound;
        mine = (
          r2,
          found,
          record {
            id = alike.id ∙ same.id;
            typ = alike.typ ∙ same.typ;
            name = alike.name ∙ same.name;
            target = alike.target ∙ same.target;
            credential = alike.credential ∙ same.credential;
            listen = λ h. alike.listen (rw same.typ h) ∙ same.listen h;
          },
        );
        others = λ k h. rest.others k h ∙ first.others k h;
        lns = rest.lns ∙ first.lns;
        net = rest.net ∙ first.net;
        remote = rest.remote ∙ first.remote;
      }

  report-Reported :
      (e : Engine B) (rep : Report) (r : Rule)
      → IsSound n e
      → lookup rep.id e.rules ≡ some r
      → is_remote r ≡ true
      → rep.err ≡ none
      → Ensures (λ _ e'. Reported n rep.id r e e') (update_remote_status rep e)
  unfolding edit put_report
  report-Reported e rep r s found far ok = Ensures-eq (report_ok e s.free rep found ok) (
      returned tt _ (record {
        sound = record {
          free = refl;
          inv =
              Inv-edit (InvBut-of_Inv rep.id (Inv-held false s.inv)) (put_report rep.listen) found
                refl
                (Fits-remote r (put_report rep.listen r) (lookup rep.id e.lns) far refl
                  (rw found at (s.inv.registry rep.id)));
        };
        mine = (
          put_report rep.listen r,
          ground (arith, lookup-edit e rep.id rep.id (put_report rep.listen)),
          record {
            id = refl;
            typ = refl;
            name = refl;
            target = refl;
            credential = refl;
            listen = λ h. absurd (grind (arith, far, h));
          },
        );
        others = λ k h. ground (arith, lookup-edit e k rep.id (put_report rep.listen));
        lns = refl;
        net = refl;
        remote = refl;
      }))

  -- Reports without error about one remote rule.
  pub update_all-Reported :
      (reps : List Report) (e : Engine B) (id : Text) (r : Rule)
      → IsSound n e
      → lookup id e.rules ≡ some r
      → is_remote r ≡ true
      → All (IsGood id) reps
      → Ensures (λ _ e'. Reported n id r e e') (update_all reps e)
  unfolding update_all
  update_all-Reported [] e id r s found far good = returned tt e (Reported-refl e id r s found)
  update_all-Reported (rep ∷ reps) e id r s found far ((about, ok), good) =
      Ensures-bind _ (report-Reported e rep r s (rw about found) far ok) (λ _ e1 first.
        let (r1, found1, same1) = first.mine in
        Ensures-weaken
          (update_all-Reported reps e1 id r1 first.sound (rw (← about) found1) (rw same1.typ far)
            good)
          (λ _ e2 rest. Reported-trans (rw about at first) same1 rest))

-- The backend's state after it is told of the removal of a rule.
abbrev pub told : {B : Type 0} → RemoteBackend B → Text → Option B → Option B
told be id none = none
told be id (some b) = some (be.remove_remote id b).0

-- What the engine relies on: a backend reports nothing but success, and only about the rule that is
-- added, before `AddRemote` returns, and it reports nothing before `RemoveRemote` returns.
pub record IsQuiet {B : Type 0} (be : RemoteBackend B) : Type 0 where
  pub add_good : (r : Rule) (b : B) → All (IsGood r.id) (be.add_remote r b).1
  pub remove_silent : (id : Text) (b : B) → (be.remove_remote id b).1 ≡ []

module _ {B : Type 0} (be : RemoteBackend B) (quiet : IsQuiet be) where
  pub call_add-Reported :
      {n : ℕ} (e : Engine B) (b : B) (passed r : Rule)
      → IsSound n e
      → lookup passed.id e.rules ≡ some r
      → is_remote r ≡ true
      → e.remote ≡ some b
      → Ensures
          (λ _ e'.
            Reported n passed.id r (record e { remote = some (be.add_remote passed b).0 }) e')
          (call_add be passed e)
  unfolding call_add
  call_add-Reported e b passed r s found far is_some =
      rw (is_some, add_to)
        (update_all-Reported (be.add_remote passed b).1 _ passed.id r
          (record { free = s.free; inv = Inv-remote _ s.inv }) found far (quiet.add_good passed b))

  -- A silent backend is told of a removal, and that is all.
  pub call_remove-told :
      (e : Engine B) (id : Text)
      → call_remove be id e ≡ returns tt (record e { remote = told be id e.remote })
  unfolding call_remove update_all
  call_remove-told e id = elim (Option-cases e.remote) [
    | inl is_nil ↦ ground arith
    | inr (b, is_some) ↦ rw (is_some, remove_from) (rw (quiet.remove_silent id b, update_all))
  ]
