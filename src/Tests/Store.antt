-- ===== src/Tests/Store.antt =====
-- internal/engine/store.go at a concrete input.
use port_forwarder.Base.{ℕ, ◌≡◌, refl, true, none, arith}
use port_forwarder.Base.Int.{max_int}
use port_forwarder.Base.Map.{lookup-nil}
use port_forwarder.Base.Prog.{Ensures}
use port_forwarder.Files.Disk.{Disk, written}
use port_forwarder.Engine.{Rule, new}
use port_forwarder.Engine.Soundness.{IsSound, new-IsSound}
use port_forwarder.Engine.Store.{Store, load_rules}
use port_forwarder.Engine.Store.Saved.{readable}
use port_forwarder.Engine.Store.Revival.{persist, revive, SameRules, revive-persist}
use port_forwarder.Tests.Engine.{willing, counting, counting-IsQuiet, one_rule, one_rule-IsSound}

-- A disk on which everything works.
abbrev pub good_disk : Disk
good_disk = record {
  file = none;
  calls = 0;
  can_read = λ i. true;
  can_mkdir = λ i. true;
  answer = λ i. written;
}

abbrev pub rules_file : Store
rules_file = record { persistent = true; disk = good_disk }

revive-persist_example :
    Ensures
      (λ out _.
        (out.0 ≡ none)
        × Ensures
            (λ _ f'. (m : ℕ) × IsSound m f' × SameRules one_rule f')
            (revive counting (load_rules (readable out.1)).0 (new willing)))
      (persist rules_file one_rule)
unfolding max_int new
revive-persist_example =
    revive-persist counting one_rule-IsSound (new-IsSound willing) (λ k. lookup-nil {V = Rule} k)
      counting-IsQuiet rules_file (omega arith) refl refl refl
