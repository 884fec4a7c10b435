-- ===== src/Api/Contract/Keeping.antt =====
-- internal/api/api.go: a server that keeps what its contract says, and what `List` and `saveRules`
-- have to do with it.
use port_forwarder.Base.{
  Bool, ◌<◌, ◌≡◌, refl, false, Option, some, List, [], ◌∷◌, All, Option-cases, inl, inr,
}
use port_forwarder.Base.Int.{max_int}
use port_forwarder.Base.Text.{Text}
use port_forwarder.Base.Map.{Map, lookup}
use port_forwarder.Base.Prog.{Ensures, returned}
use port_forwarder.Engine.{Rule, Engine}
use port_forwarder.Engine.Queries.{collect}
use port_forwarder.Engine.Soundness.{Inv-held}
use port_forwarder.Engine.Listing.{list_returns, collect-IsListing}
use port_forwarder.Engine.Table.{Entry, Table}
use port_forwarder.Engine.Refinement.{Shows, Implements}
use port_forwarder.Api.{Server, list_rules, save_in_store, save_all}
use port_forwarder.Api.Requests.{get_rules}
use port_forwarder.Engine.Store.{Store, save_rules}
use port_forwarder.Engine.Store.Revival.{All-IsNumbered}
use port_forwarder.Api.Contract.Saving.{IsSteady, FileHas, save_rules-Stored}
use port_forwarder.Api.Contract.{Saves, Displays, Desk, Reacts, lists}

pub record Keeps (good : Bool) (d : Desk) {B : Type 0} (srv : Server B) : Type 0 where
  pub implements : Implements d.table srv.engine
  pub store : Store
  pub there : srv.rules ≡ some store
  pub steady : IsSteady good store
  pub in_file : FileHas d.table.next d.file store

pub Implements-freed :
    {B : Type 0} {t : Table} {e : Engine B}
    → Implements t e
    → Implements t (record e { held = false })
Implements-freed imp = record {
  sound = record { free = refl; inv = Inv-held false imp.sound.inv };
  entries = imp.entries;
}

shown-All :
    (rules : Map Rule) (f : Text → Option Entry) (out : List Rule)
    → ((k : Text) → Shows (lookup k rules) (f k))
    → All (λ r. lookup r.id rules ≡ some r) out
    → All (λ r. Shows (some r) (f r.id)) out
shown-All rules f [] shows all = tt
shown-All rules f (r ∷ out) shows (at, all) =
    (rw at at (shows r.id), shown-All rules f out shows all)

-- A listing of an engine that holds the rules of a table displays the table.
pub listing-Displays :
    {B : Type 0} {t : Table} {e : Engine B}
    → Implements t e
    → Displays t.entries (collect 1 t.next e.rules)
listing-Displays {t = t} {e = e} imp =
    let listing = collect-IsListing imp.sound in
    record {
      ascending = listing.ascending;
      sound = shown-All e.rules t.entries _ imp.entries listing.sound;
      complete = λ k x is. elim (Option-cases (lookup k e.rules)) [
        | inl absent ↦ absurd (rw (absent, is) at (imp.entries k))
        | inr (r, found) ↦ (r, listing.complete k r found, imp.sound.inv.numbering.keyed k r found)
      ];
    }

module _ {B : Type 0} {srv : Server B} {t : Table} {good : Bool} (imp : Implements t srv.engine)
    (room : t.next < max_int) where
  -- `saveRules` brings the file up to date, if it can.
  pub save_all-Keeps :
      (store : Store) (old : Option (Text → Option Entry))
      → srv.rules ≡ some store
      → IsSteady good store
      → FileHas t.next old store
      → Ensures
          (λ _ srv'.
            (file : Option (Text → Option Entry)) × Saves good t.entries old file
            × Keeps good (record { table = t; file = file }) srv')
          (save_all srv)
  unfolding save_all save_in_store
  save_all-Keeps store old there steady has =
      let out = collect 1 t.next srv.engine.rules in
      let saved =
        save_rules-Stored out store (listing-Displays imp)
          (All-IsNumbered imp.sound out (collect-IsListing imp.sound).sound) steady has in
      rw there (
        rw (list_returns imp.sound room) (
          returned _ _ (
            saved.file,
            saved.saves,
            record {
              implements = Implements-freed imp;
              store = (save_rules out store).1;
              there = refl;
              steady = saved.steady;
              in_file = saved.has;
            },
          )))

  pub list_rules-Reacts :
      {f : Option (Text → Option Entry)}
      → Keeps good (record { table = t; file = f }) srv
      → Ensures
          (λ resp srv'.
            (d' : Desk) × Reacts good get_rules (record { table = t; file = f }) resp d'
            × Keeps good d' srv')
          (list_rules srv)
  unfolding list_rules
  list_rules-Reacts {f} keeps = rw (list_returns imp.sound room) (
      returned _ _ (
        record { table = t; file = f },
        lists _ _ (listing-Displays imp),
        record {
          implements = Implements-freed imp;
          store = keeps.store;
          there = keeps.there;
          steady = keeps.steady;
          in_file = keeps.in_file;
        },
      ))
