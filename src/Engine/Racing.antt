-- ===== src/Engine/Racing.antt =====
-- internal/engine/engine.go: two goroutines in `Add` at once. `Add` reads `nextID` before it takes
-- the mutex, so both may read the same number.
use port_forwarder.Base.{ℕ, suc, ◌+◌, ◌<◌, ◌≡◌, refl, some, arith}
use port_forwarder.Base.Int.{pos, max_int, inc_below}
use port_forwarder.Base.Text.{Text, text_eq}
use port_forwarder.Base.Map.{lookup, insert, lookup-insert}
use port_forwarder.Base.Prog.{Prog, pure, ◌>>=◌, ◌>>◌, Ensures, returned, Ensures-step}
use port_forwarder.Decimal.{format}
use port_forwarder.Engine.{Rule, Engine}
use port_forwarder.Engine.Methods.{next_rule, record_rule}
use port_forwarder.Engine.Soundness.{IsSound}
use port_forwarder.Engine.Adding.{made_rule, next_rule_lem, recorded, record_rule_free}

-- What a caller passes to `Add`.
pub record Request : Type 0 where
  pub typ : Text
  pub name : Text
  pub listen : Text
  pub target : Text
  pub credential : Text

abbrev read_id : {B : Type 0} → Request → Prog (Engine B) Rule
read_id q = next_rule q.typ q.name q.listen q.target q.credential

abbrev pub rule_of : Request → ℕ → Rule
rule_of q = made_rule q.typ q.name q.listen q.target q.credential

-- Both calls make their rule, and then both enter it in the map.
unfoldable pub add_at_once : {B : Type 0} → Request → Request → Prog (Engine B) (Rule × Rule)
add_at_once first second = do
  r1 ← read_id first
  r2 ← read_id second
  record_rule r1
  record_rule r2
  pure (r1, r2)

-- Two calls of `Add` that both read the counter `n` before either takes the mutex, on a sound
-- engine with room for two more numbers: both make a rule with the ID of `n`, the map has the
-- second rule alone, and the counter is two higher.
pub add_at_once_lem :
    {B : Type 0} {n : ℕ} {e : Engine B} (first second : Request)
    → IsSound n e
    → suc n < max_int
    → Ensures
        (λ rs e'.
          (rs.0.id ≡ rs.1.id)
          × (lookup rs.0.id e'.rules ≡ some (rule_of second n))
          × (e'.next_id ≡ pos (n + 2)))
        (add_at_once first second e)
unfolding add_at_once
add_at_once_lem {n = n} {e = e} first second s room =
    Ensures-step _ (next_rule_lem first.typ first.name first.listen first.target first.credential s)
      (Ensures-step _
        (next_rule_lem second.typ second.name second.listen second.target second.credential s)
        (Ensures-step _ (record_rule_free e (rule_of first n) s.free) (
          Ensures-step _ (record_rule_free (recorded e (rule_of first n)) (rule_of second n) refl) (
            returned _ _ (
              refl,
              ground (
                arith,
                lookup-insert (format n) (format n) (rule_of second n)
                    (insert (format n) (rule_of first n) e.rules),
              ),
              rw (s.inv.numbering.counter, inc_below n (omega arith), inc_below (suc n) room)
                  (ground arith),
            )))))
