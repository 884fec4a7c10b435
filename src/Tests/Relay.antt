-- ===== src/Tests/Relay.antt =====
-- internal/forward/forward.go at concrete schedules.
use port_forwarder.Base.{◌≤◌, ◌≡◌, refl, List, [], ◌∷◌}
use port_forwarder.Relay.{tcp, other, Side, into_a, into_b, start, run, tick, copying, finished}
use port_forwarder.Relay.Laws.{turns, Closed, relay-Closed, first_closes_both, relay_returns}

-- The pipe into `b` ends first; the pipe into `a` comes to the once while it is taken.
mixed : List Side
mixed = into_b ∷ into_b ∷ into_b ∷ into_a ∷ into_a ∷ into_a ∷ into_b ∷ into_b ∷ into_a ∷ []

mixed_returned : (run mixed (start tcp other)).waiting ≡ 0
unfolding mixed run tick
mixed_returned = refl

relay-Closed_example :
    Closed tcp (run mixed (start tcp other)).a × Closed other (run mixed (start tcp other)).b
relay-Closed_example = relay-Closed mixed mixed_returned

-- Only the pipe into `a` moves: the other one copies all the while.
alone : List Side
alone = into_a ∷ into_a ∷ into_a ∷ into_a ∷ into_a ∷ []

alone-run :
    ((run alone (start tcp tcp)).to_a ≡ finished) × ((run alone (start tcp tcp)).to_b ≡ copying)
unfolding alone run tick
alone-run = (refl, refl)

first_closes_both_example :
    (1 ≤ (run alone (start tcp tcp)).a.closes) × (1 ≤ (run alone (start tcp tcp)).b.closes)
first_closes_both_example = first_closes_both tcp tcp alone alone-run.0

relay_returns_example : (run (turns 10) (run alone (start tcp other))).waiting ≡ 0
relay_returns_example = relay_returns tcp other alone
