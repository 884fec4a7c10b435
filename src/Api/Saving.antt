-- ===== src/Api/Saving.antt =====
-- internal/api/api.go: what `saveRules` leaves in the file.
use port_forwarder.Base.{ℕ, suc, ◌<◌, ◌≡◌, refl, true, false, Option, some, List, map}
use port_forwarder.Base.Int.{max_int}
use port_forwarder.Base.Prog.{Ensures, returned}
use port_forwarder.Files.Disk.{written}
use port_forwarder.Engine.{Rule, Engine}
use port_forwarder.Engine.Queries.{collect}
use port_forwarder.Engine.Soundness.{IsSound}
use port_forwarder.Engine.Listing.{IsListing, list_returns, collect-IsListing}
use port_forwarder.Engine.Store.{Store, load_rules, loaded, save_rules}
use port_forwarder.Engine.Store.Saved.{stored, readable, load-save}
use port_forwarder.Engine.Store.Revival.{save_works}
use port_forwarder.Api.{Server, save_in_store, save_all}

-- The file is there, and the disk takes what is written.
pub record IsWorking (s : Store) : Type 0 where
  pub persistent : s.persistent ≡ true
  pub can_mkdir : s.disk.can_mkdir s.disk.calls ≡ true
  pub writes : s.disk.answer (suc s.disk.calls) ≡ written

-- The file has the rules of the engine, as a listing, without their status.
pub record Persisted {B : Type 0} (e : Engine B) (o : Option Store) : Type 0 where
  pub store : Store
  pub same : o ≡ some store
  pub out : List Rule
  pub listing : IsListing e.rules out
  pub file : (load_rules (readable store)).0 ≡ loaded (map stored out)

module _ {B : Type 0} (srv : Server B) {n : ℕ} (sound : IsSound n srv.engine)
    (room : n < max_int) where
  -- `List` frees the mutex, which is free.
  abbrev pub freed : Engine B
  freed = record srv.engine { held = false }

  pub save_all-Persisted :
      (store : Store)
      → srv.rules ≡ some store
      → IsWorking store
      → Ensures (λ _ srv'. (srv'.engine ≡ freed) × Persisted srv'.engine srv'.rules) (save_all srv)
  unfolding save_all save_in_store
  save_all-Persisted store there works = rw (there) (
      rw (list_returns sound room) (
        returned _ _ (
          refl,
          record {
            store = (save_rules (collect 1 n srv.engine.rules) store).1;
            same = refl;
            out = collect 1 n srv.engine.rules;
            listing = collect-IsListing sound;
            file = load-save (collect 1 n srv.engine.rules) store works.persistent (
                save_works (collect 1 n srv.engine.rules) store works.persistent works.can_mkdir
                  works.writes);
          },
        )))
