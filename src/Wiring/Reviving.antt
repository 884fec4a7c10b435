-- ===== src/Wiring/Reviving.antt =====
-- main.go: the rules that `runLocal` restores are those that the file is said to have.
use mathlib.Core.List.{Memᴰ}
use port_forwarder.Base.{
  ℕ, ◌<◌, ◌≤◌, ◌≡◌, ◌≢◌, sym, ◌∙◌, ap, Option, none, some, List, [], ◌∷◌, map, arith, All,
  Option-cases, inl, inr,
}
use port_forwarder.Base.Int.{max_int}
use port_forwarder.Base.Text.{Text}
use port_forwarder.Base.Map.{lookup}
use port_forwarder.Base.Prog.{Ensures, Ensures-eq, Ensures-weaken}
use port_forwarder.Engine.{put_status, Rule, RemoteBackend, Engine}
use port_forwarder.Engine.Reports.{SameRule, IsQuiet}
use port_forwarder.Engine.Soundness.{IsSound}
use port_forwarder.Engine.RestoringAll.{IsNumbered, AllBack, restore_all}
use port_forwarder.Engine.Table.{Entry}
use port_forwarder.Engine.Refinement.{IsOf, Shows, Shows-some, Implements}
use port_forwarder.Engine.Store.{loaded}
use port_forwarder.Engine.Store.Saved.{stored}
use port_forwarder.Engine.Store.Revival.{bare, revive, revive-stored, listing-Restorable, back_of}
use port_forwarder.Api.Contract.{Displays}

-- A rule that is back has what the saved one had.
IsOf-back : (r r' : Rule) (x : Entry) → IsOf r x → SameRule r r' → IsOf r' x
IsOf-back r r' x is same = record {
  typ = same.typ ∙ is.typ;
  name = same.name ∙ is.name;
  target = same.target ∙ is.target;
  credential = same.credential ∙ is.credential;
  listen = λ near. same.listen (rw is.typ near) ∙ is.listen near;
}

module _ (f : Text → Option Entry) where
  shown_at :
      (r : Rule) (out : List Rule)
      → All (λ r. Shows (some r) (f r.id)) out
      → Memᴰ r out
      → Shows (some r) (f r.id)
  shown_at r [] all m = elim m [ ]
  shown_at r (x ∷ out) (one, all) (Memᴰ.head same) = rw same one
  shown_at r (x ∷ out) (one, all) (Memᴰ.tail m) = shown_at r out all m

  -- What the table does not have is not in the file.
  apart_from :
      (k : Text) (out : List Rule)
      → f k ≡ none
      → All (λ r. Shows (some r) (f r.id)) out
      → All (λ x. k ≢ x.id) (bare out)
  unfolding put_status
  apart_from k [] absent all = tt
  apart_from k (r ∷ out) absent (one, all) =
      let (x, is_some, _) = Shows-some r (f r.id) one in
      (λ p. grind (arith, absent, is_some), apart_from k out absent all)

IsNumbered-back :
    {B : Type 0} {m : ℕ} {e : Engine B} (out : List Rule)
    → IsSound m e
    → AllBack (bare out) e
    → All (IsNumbered m) out
unfolding put_status
IsNumbered-back [] sound back = tt
IsNumbered-back (r ∷ out) sound ((r', found, _), back) =
    (sound.inv.numbering.numbered r.id r' found, IsNumbered-back out sound back)

module _ {B : Type 0} (be : RemoteBackend B) (quiet : IsQuiet be) {e : Engine B}
    (sound : IsSound 1 e) (empty : (k : Text) → lookup k e.rules ≡ none) where
  module _ {f : Text → Option Entry} (out : List Rule) (displays : Displays f out) where
    Shows-back :
        (e' : Engine B)
        → AllBack (bare out) e'
        → ((k : Text) → All (λ x. k ≢ x.id) (bare out) → lookup k e'.rules ≡ lookup k e.rules)
        → (k : Text) → Shows (lookup k e'.rules) (f k)
    Shows-back e' back stays k = elim (Option-cases (f k)) [
      | inl absent ↦ rw (absent, stays k (apart_from f k out absent displays.sound) ∙ empty k) tt
      | inr (x, found) ↦
          let (r, there, same) = displays.complete k x found in
          let (r', at, alike) = back_of e' r out back there in
          let shown : Shows (some r) (some x) =
            (rw (ap f same ∙ found) at (shown_at f r out displays.sound there)) in
          rw (found, ap (λ j. lookup j e'.rules) (sym same) ∙ at) (IsOf-back r r' x shown alike)
    ]

    pub revive-Implements :
        (top : ℕ)
        → 0 < top
        → top ≤ max_int
        → All (IsNumbered top) out
        → Ensures
            (λ _ e'.
              (m : ℕ) × (m ≤ top)
              × Implements (record { entries = f; next = m }) e'
              × All (IsNumbered m) out)
            (revive be (loaded (map stored out)) e)
    revive-Implements top positive small numbered = Ensures-eq (revive-stored be out e) (
        Ensures-weaken
          (restore_all be (bare out) quiet sound small
            (listing-Restorable top e.rules 1 out empty displays.ascending numbered))
          (λ _ e' (m, good, bound, back, stays). (
            m,
            ground (arith, positive, bound),
            record { sound = good; entries = Shows-back e' back stays },
            IsNumbered-back out good back,
          )))
