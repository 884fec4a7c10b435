-- ===== src/Api/Contract/Saving.antt =====
-- internal/engine/store.go: what `Save` makes of a file that has the rules of a table.
use port_forwarder.Base.{
  ℕ, suc, ◌≤◌, ◌≡◌, ◌≢◌, refl, Bool, true, false, Option, none, some, List, [], ◌∷◌, All, map,
  arith, ◌⊎◌, inl, inr, Bool-cases,
}
use port_forwarder.Base.Text.{Text}
use port_forwarder.Files.Disk.{
  Disk, WriteAnswer, written, untouched, spoilt, read_file, mkdir_all, write_file,
}
use port_forwarder.Engine.{Rule}
use port_forwarder.Engine.Table.{Entry}
use port_forwarder.Engine.RestoringAll.{IsNumbered}
use port_forwarder.Engine.Store.{Store, load_rules, loaded, save_rules}
use port_forwarder.Engine.Store.Saved.{stored, readable, load-save}
use port_forwarder.Engine.Store.Revival.{save_works}
use port_forwarder.Api.Contract.{Displays, Saves, is_written, is_kept, is_spoilt}

-- A disk that is `good` takes everything; of another one nothing is known.
abbrev pub IsTrusty : Bool → Disk → Type 0
IsTrusty true d = ((i : ℕ) → d.can_mkdir i ≡ true) × ((i : ℕ) → d.answer i ≡ written)
IsTrusty false d = Unit

-- A store with a path.
pub record IsSteady (good : Bool) (s : Store) : Type 0 where
  pub persistent : s.persistent ≡ true
  pub trusty : IsTrusty good s.disk

-- The file, when it can be read, has those rules, and their IDs are numbers below `top`.
pub record InFile (top : ℕ) (f : Text → Option Entry) (s : Store) : Type 0 where
  pub out : List Rule
  pub numbered : All (IsNumbered top) out
  pub displays : Displays f out
  pub file : (load_rules (readable s)).0 ≡ loaded (map stored out)

abbrev pub FileHas : ℕ → Option (Text → Option Entry) → Store → Type 0
FileHas top none s = Unit
FileHas top (some f) s = InFile top f s

All-grow : (n m : ℕ) (rs : List Rule) → n ≤ m → All (IsNumbered n) rs → All (IsNumbered m) rs
All-grow n m [] grows h = tt
All-grow n m (r ∷ rs) grows ((i, named, positive, low), h) =
    ((i, named, positive, omega arith), All-grow n m rs grows h)

pub FileHas-grow :
    (n m : ℕ) (f : Option (Text → Option Entry)) (s : Store) → n ≤ m → FileHas n f s → FileHas m f s
FileHas-grow n m none s grows there = tt
FileHas-grow n m (some f) s grows there = record {
  out = there.out;
  numbered = All-grow n m there.out grows there.numbered;
  displays = there.displays;
  file = there.file;
}

-- What is in the file does not depend on the rest of the disk.
pub FileHas-same :
    (n : ℕ) (f : Option (Text → Option Entry)) (s s' : Store)
    → s'.disk.file ≡ s.disk.file
    → FileHas n f s
    → FileHas n f s'
unfolding load_rules read_file
FileHas-same n none s s' same there = tt
FileHas-same n (some f) s s' same there = record {
  out = there.out;
  numbered = there.numbered;
  displays = there.displays;
  file = rw same there.file;
}

pub IsTrusty-same :
    (good : Bool) (d d' : Disk)
    → d'.can_mkdir ≡ d.can_mkdir
    → d'.answer ≡ d.answer
    → IsTrusty good d
    → IsTrusty good d'
IsTrusty-same true d d' mk wr (can, takes) = (rw mk can, rw wr takes)
IsTrusty-same false d d' mk wr h = tt

no_dir : (good : Bool) (d : Disk) (i : ℕ) → IsTrusty good d → d.can_mkdir i ≡ false → good ≡ false
no_dir true d i (can, _) bad = absurd (grind (arith, can i))
no_dir false d i h bad = refl

not_written :
    (good : Bool) (d : Disk) (i : ℕ) (a : WriteAnswer)
    → IsTrusty good d
    → d.answer i ≡ a
    → (a ≡ written) ⊎ (good ≡ false)
not_written true d i a (_, takes) is = inl (rw is at (takes i))
not_written false d i a h is = inr refl

-- A store behind `Save`.
pub record Stored (good : Bool) (top : ℕ) (rules : Text → Option Entry)
    (old : Option (Text → Option Entry)) (s : Store) : Type 0 where
  pub file : Option (Text → Option Entry)
  pub saves : Saves good rules old file
  pub steady : IsSteady good s
  pub has : FileHas top file s

no_good :
    (good : Bool) (a : WriteAnswer) → a ≢ written → (a ≡ written) ⊎ (good ≡ false) → good ≡ false
no_good good a other (inl is) = absurd (other is)
no_good good a other (inr bad) = bad

module _ {good : Bool} {top : ℕ} {f : Text → Option Entry} {old : Option (Text → Option Entry)}
    (out : List Rule) (s : Store) (displays : Displays f out) (numbered : All (IsNumbered top) out)
    (steady : IsSteady good s) (has : FileHas top old s) where
  write-Stored :
      (a : WriteAnswer)
      → s.disk.can_mkdir s.disk.calls ≡ true
      → s.disk.answer (suc s.disk.calls) ≡ a
      → Stored good top f old (save_rules out s).1
  unfolding save_rules mkdir_all write_file
  write-Stored written can is = record {
    file = some f;
    saves = is_written;
    steady = record {
      persistent = rw (steady.persistent, can) refl;
      trusty =
          rw (steady.persistent, can, is) (IsTrusty-same good s.disk _ refl refl steady.trusty);
    };
    has = record {
      out = out;
      numbered = numbered;
      displays = displays;
      file = load-save out s steady.persistent (save_works out s steady.persistent can is);
    };
  }
  write-Stored untouched can is =
      rw (steady.persistent, can, is)
        (record {
          file = old;
          saves = is_kept (
              no_good good untouched (λ p. cc)
                (not_written good s.disk (suc s.disk.calls) untouched steady.trusty is));
          steady = record {
            persistent = refl;
            trusty = IsTrusty-same good s.disk _ refl refl steady.trusty;
          };
          has = FileHas-same top old s _ refl has;
        })
  write-Stored (spoilt b) can is =
      rw (steady.persistent, can, is)
        (record {
          file = none;
          saves = is_spoilt (
              no_good good (spoilt b) (λ p. cc)
                (not_written good s.disk (suc s.disk.calls) (spoilt b) steady.trusty is));
          steady = record {
            persistent = refl;
            trusty = IsTrusty-same good s.disk _ refl refl steady.trusty;
          };
          has = tt;
        })

  pub save_rules-Stored : Stored good top f old (save_rules out s).1
  unfolding save_rules mkdir_all write_file
  save_rules-Stored = elim (Bool-cases (s.disk.can_mkdir s.disk.calls)) [
    | inl can ↦ write-Stored (s.disk.answer (suc s.disk.calls)) can refl
    | inr bad ↦
        rw (steady.persistent, bad)
          (record {
            file = old;
            saves = is_kept (no_dir good s.disk s.disk.calls steady.trusty bad);
            steady = record {
              persistent = refl;
              trusty = IsTrusty-same good s.disk _ refl refl steady.trusty;
            };
            has = FileHas-same top old s _ refl has;
          })
  ]
