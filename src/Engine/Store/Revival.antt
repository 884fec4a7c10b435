-- ===== src/Engine/Store/Revival.antt =====
-- main.go and internal/api/api.go: the rules of a daemon that stops and is started again.
use mathlib.Core.List.{Memᴰ}
use port_forwarder.Base.{
  ℕ, suc, ◌<◌, ◌≡◌, ◌≢◌, refl, sym, ap, ◌∙◌, true, Option, none, some, List, [], ◌∷◌, map, arith,
  All,
}
use port_forwarder.Base.Int.{max_int}
use port_forwarder.Base.Text.{Text}
use port_forwarder.Base.Map.{Map, lookup}
use port_forwarder.Base.Prog.{
  Prog, pure, ◌>>=◌, Ensures, returned, Ensures-bind, Ensures-weaken, Ensures-eq,
}
use port_forwarder.Decimal.{format}
use port_forwarder.Decimal.RoundTrip.{format_inj}
use port_forwarder.Files.Disk.{written, mkdir_all, write_file}
use port_forwarder.Engine.{unset, Rule, RemoteBackend, Engine, put_status}
use port_forwarder.Engine.Queries.{list}
use port_forwarder.Engine.Methods.{restore}
use port_forwarder.Engine.Soundness.{IsSound}
use port_forwarder.Engine.Reports.{SameRule, IsQuiet}
use port_forwarder.Engine.Listing.{IsAscending, IsListing, list_lem}
use port_forwarder.Engine.RestoringAll.{IsNumbered, Restorable, AllBack, restore_all}
use port_forwarder.Engine.Store.{Store, StoreError, Loaded, failed, loaded, load_rules, save_rules}
use port_forwarder.Engine.Store.Saved.{stored, readable, load-save}

module _ {B : Type 0} where
  -- `s.rules.Save(s.eng.List())`
  unfoldable pub persist : Store → Prog (Engine B) (Option StoreError × Store)
  persist s = do out ← list; pure (save_rules out s)

  -- The start of a daemon: what the file gave is restored, and an error is logged.
  unfoldable pub revive : RemoteBackend B → Loaded → Prog (Engine B) (Unit {0})
  revive be (failed x) = pure tt
  revive be (loaded []) = pure tt
  revive be (loaded (r ∷ rs)) = restore be (r ∷ rs)

-- The rule without its status.
abbrev pub bare : List Rule → List Rule
bare rs = map (put_status unset) rs

map-stored : (rs : List Rule) → map stored rs ≡ map some (bare rs)
map-stored [] = refl
map-stored (r ∷ rs) = ap (λ t. stored r ∷ t) (map-stored rs)

-- Behind a rule of a listing the IDs are greater numbers.
ascending-apart :
    (i j : ℕ) (rs : List Rule) → j < i → IsAscending i rs → All (λ x. x.id ≢ format j) (bare rs)
unfolding put_status
ascending-apart i j [] h a = tt
ascending-apart i j (r ∷ rs) h (k, named, low, rest) = (
  λ p. omega (arith, format_inj k j (sym named ∙ p), low, h),
  ascending-apart (suc k) j rs (omega arith) rest,
)

-- What a listing has can be restored into an engine without rules.
pub listing-Restorable :
    (top : ℕ) (rules : Map Rule) (i : ℕ) (rs : List Rule)
    → ((k : Text) → lookup k rules ≡ none)
    → IsAscending i rs
    → All (IsNumbered top) rs
    → Restorable top rules (bare rs)
unfolding put_status
listing-Restorable top rules i [] empty a h = tt
listing-Restorable top rules i (r ∷ rs) empty (k, named, low, rest) (one, h) = (
  one,
  empty r.id,
  rw named (ascending-apart (suc k) k rs (omega arith) rest),
  listing-Restorable top rules (suc k) rs empty rest h,
)

-- A rule of the list is back.
pub back_of :
    {B : Type 0} (e : Engine B) (r : Rule) (rs : List Rule)
    → AllBack (bare rs) e
    → Memᴰ r rs
    → (r' : Rule) × (lookup r.id e.rules ≡ some r') × SameRule r r'
unfolding put_status
back_of e r [] h m = elim m [ ]
back_of e r (x ∷ rs) (one, h) (Memᴰ.head same) =
    let (r', found, alike) = one in
    (
      r',
      rw same found,
      record {
        id = alike.id ∙ ap (λ t. t.id) (sym same);
        typ = alike.typ ∙ ap (λ t. t.typ) (sym same);
        name = alike.name ∙ ap (λ t. t.name) (sym same);
        target = alike.target ∙ ap (λ t. t.target) (sym same);
        credential = alike.credential ∙ ap (λ t. t.credential) (sym same);
        listen = λ h. alike.listen (rw (← same) h) ∙ ap (λ t. t.listen) (sym same);
      },
    )
back_of e r (x ∷ rs) (one, h) (Memᴰ.tail m) = back_of e r rs h m

-- What is not in the map is not in the list either.
apart_of :
    (rules : Map Rule) (k : Text) (rs : List Rule)
    → lookup k rules ≡ none
    → All (λ r. lookup r.id rules ≡ some r) rs
    → All (λ x. k ≢ x.id) (bare rs)
unfolding put_status
apart_of rules k [] h all = tt
apart_of rules k (r ∷ rs) h (one, rest) = (λ p. grind arith, apart_of rules k rs h rest)

pub save_works :
    (rs : List Rule) (s : Store)
    → s.persistent ≡ true
    → s.disk.can_mkdir s.disk.calls ≡ true
    → s.disk.answer (suc s.disk.calls) ≡ written
    → (save_rules rs s).0 ≡ none
unfolding save_rules mkdir_all write_file
save_works rs s stored can_mkdir writes = ground arith

-- The rules that the second engine has are those of the first one.
pub record SameRules {B C : Type 0} (e : Engine B) (f : Engine C) : Type 0 where
  pub back :
      (k : Text) (r : Rule)
      → lookup k e.rules ≡ some r
      → (r' : Rule) × (lookup k f.rules ≡ some r') × SameRule r r'
  pub no_more : (k : Text) → lookup k e.rules ≡ none → lookup k f.rules ≡ none

revive_list :
    {B : Type 0} (be : RemoteBackend B) (rs : List Rule) (f : Engine B)
    → revive be (loaded (map some rs)) f ≡ restore be (map some rs) f
unfolding revive restore
revive_list be [] f = refl
revive_list be (r ∷ rs) f = refl

-- The rules of a sound engine have IDs below its counter.
pub All-IsNumbered :
    {B : Type 0} {n : ℕ} {e : Engine B}
    → IsSound n e
    → (rs : List Rule) → All (λ r. lookup r.id e.rules ≡ some r) rs
    → All (IsNumbered n) rs
All-IsNumbered sound [] h = tt
All-IsNumbered sound (r ∷ rs) (one, h) =
    (sound.inv.numbering.numbered r.id r one, All-IsNumbered sound rs h)

pub revive-stored :
    {B : Type 0} (be : RemoteBackend B) (rs : List Rule) (f : Engine B)
    → revive be (loaded (map stored rs)) f ≡ restore be (map some (bare rs)) f
revive-stored be rs f =
    ap (λ l. revive be (loaded l) f) (map-stored rs) ∙ revive_list be (bare rs) f

module _ {B C : Type 0} (be : RemoteBackend C) {n i : ℕ} {e : Engine B} {f : Engine C}
    (sound : IsSound n e) (new_sound : IsSound i f) (empty : (k : Text) → lookup k f.rules ≡ none)
    (quiet : IsQuiet be) where
  revive_listing :
      (rs : List Rule)
      → n < max_int
      → IsListing e.rules rs
      → Ensures
          (λ _ f'. (m : ℕ) × IsSound m f' × SameRules e f')
          (revive be (loaded (map stored rs)) f)
  revive_listing rs room listing = Ensures-eq (revive-stored be rs f) (
      Ensures-weaken
        (restore_all be (bare rs) quiet new_sound (omega arith) (
          listing-Restorable n f.rules 1 rs empty listing.ascending
            (All-IsNumbered sound rs listing.sound)))
        (λ _ f' (m, good, _, back, stays). (
          m,
          good,
          record {
            back = λ k r found.
                let (r', at, alike) = back_of f' r rs back (listing.complete k r found) in
                (
                  r',
                  ap (λ j. lookup j f'.rules) (sym (sound.inv.numbering.keyed k r found)) ∙ at,
                  alike,
                );
            no_more = λ k absent. stays k (apart_of e.rules k rs absent listing.sound) ∙ empty k;
          },
        )))

  -- A daemon is stopped and started: the rules of a sound engine, with its counter below the
  -- largest int, are written by `saveRules` to a store with a path, on a disk that takes them, and
  -- the next start reads them, from a file that can be read, and restores them into a sound engine
  -- without rules and with a quiet backend. The saving reports no error, the new engine is sound,
  -- and its rules are those of the first one: each is back under its ID with its type, name,
  -- target and credential, and with its address if it is local, and there are no others.
  pub revive-persist :
      (s : Store)
      → n < max_int
      → s.persistent ≡ true
      → s.disk.can_mkdir s.disk.calls ≡ true
      → s.disk.answer (suc s.disk.calls) ≡ written
      → Ensures
          (λ out _.
            (out.0 ≡ none)
            × Ensures
                (λ _ f'. (m : ℕ) × IsSound m f' × SameRules e f')
                (revive be (load_rules (readable out.1)).0 f))
          (persist s e)
  unfolding persist
  revive-persist s room stored can_mkdir writes =
      Ensures-bind _ (list_lem sound room) (λ rs _ (listing, _, _). returned _ _ (
        save_works rs s stored can_mkdir writes,
        Ensures-eq
            (ap (λ l. revive be l f)
              (load-save rs s stored (save_works rs s stored can_mkdir writes)))
            (revive_listing rs room listing),
      ))
