-- ===== src/Tests/Refinement.antt =====
-- A sequence of calls of the rule engine (internal/engine/engine.go) at concrete inputs.
use port_forwarder.Base.{ℕ, ◌≡◌, refl, none, some, List, [], ◌∷◌, arith}
use port_forwarder.Base.Int.{max_int}
use port_forwarder.Base.Text.{codes}
use port_forwarder.Base.Prog.{Ensures}
use port_forwarder.Engine.{Engine, new}
use port_forwarder.Engine.Soundness.{new-IsSound, Inv-remote}
use port_forwarder.Engine.Table.{Table, Op, add_rule, update_rule, remove_rule, apply, replay}
use port_forwarder.Engine.Refinement.{Implements, run}
use port_forwarder.Engine.Refinement.Sequences.{Replayed, run-replay}
use port_forwarder.Tests.Engine.{willing, counting, counting-IsQuiet, everything}

abbrev pub empty_table : Table
empty_table = record { entries = λ k. none; next = 1 }

abbrev pub empty : Engine ℕ
empty = record (new willing) { remote = some 0 }

pub empty-Implements : Implements empty_table empty
unfolding new everything
empty-Implements = record {
  sound = record { free = refl; inv = Inv-remote (some 0) (new-IsSound willing).inv };
  entries = λ k. tt;
}

abbrev pub calls : List Op
calls =
    add_rule (codes "local") (codes "web") (codes ":22") (codes "h:8080") []
    ∷ add_rule (codes "remote") (codes "far") (codes ":90") (codes "h:1") (codes "c")
    ∷ update_rule (codes "1") (codes "www") (codes ":80") (codes "h:8081") []
    ∷ remove_rule (codes "2")
    ∷ remove_rule (codes "2")
    ∷ []

-- The first address is refused, and the rule is there all the same.
answers_of_calls :
    (replay calls empty_table).answers
    ≡ some (codes "1") ∷ some (codes "2") ∷ some (codes "1") ∷ some (codes "2") ∷ none ∷ []
unfolding replay apply everything
answers_of_calls = refl

run-replay_example : Ensures (Replayed counting calls empty_table empty) (run counting calls empty)
unfolding max_int
run-replay_example = run-replay counting counting-IsQuiet calls empty-Implements (omega arith)
