-- ===== src/Relay/Laws.antt =====
-- internal/forward/forward.go: what `Relay` has done when it returns, and that it returns.
use port_forwarder.Base.{ℕ, zero, suc, ◌+◌, ◌≤◌, ◌≡◌, true, List, [], ◌∷◌, arith}
use port_forwarder.Relay.{
  Kind, tcp, other, Conn, Phase, copying, copied, half_closed, closing_a, closing_b, finished, used,
  Side, into_a, into_b, Relay, start, tick, run,
}
use port_forwarder.Relay.Invariant.{Inv, agree, start-Inv, tick-Inv, run-Inv}

-- How often `Close` has been called on a connection when `Relay` is through with it:
-- `closeWriteHalf` closes what is not a TCP connection.
abbrev pub all_closes : Kind → ℕ
all_closes tcp = 1
all_closes other = 2

abbrev pub all_write_closes : Kind → ℕ
all_write_closes tcp = 1
all_write_closes other = 0

-- Each connection is half closed and closed.
pub record Closed (j : Kind) (c : Conn) : Type 0 where
  pub half : c.write_closes ≡ all_write_closes j
  pub full : c.closes ≡ all_closes j

module _ {j k : Kind} where
  end_phases : (r : Relay) → Inv j k r → r.waiting ≡ 0 → (r.to_a ≡ finished) × (r.to_b ≡ finished)
  end_phases r v w = (ground (arith, v.count, w), ground (arith, v.count, w))

  end_once : (r : Relay) → Inv j k r → r.to_a ≡ finished → r.once ≡ used
  end_once r v h = ground (arith, v.control)

  end-Closed : (r : Relay) → Inv j k r → r.waiting ≡ 0 → Closed j r.a × Closed k r.b
  end-Closed r v w =
      let ends = end_phases r v w in
      let o = end_once r v ends.0 in
      (
        record {
          half = ground (arith, v.half_a, ends.0);
          full = ground (arith, v.full_a, ends.0, ends.1, o);
        },
        record {
          half = ground (arith, v.half_b, ends.1);
          full = ground (arith, v.full_b, ends.1, o);
        },
      )

  end_closes : (r : Relay) → Inv j k r → r.once ≡ used → (1 ≤ r.a.closes) × (1 ≤ r.b.closes)
  end_closes r v o =
      (ground (arith, v.full_a, v.control, o), ground (arith, v.full_b, v.control, o))

  reached : (ss : List Side) → Inv j k (run ss (start j k))
  reached ss = run-Inv ss (start j k) (start-Inv j k)

  -- Whatever the order in which the two pipes move: when the wait group of `Relay` is at 0, so
  -- that it returns, `CloseWrite` has been called once on each TCP connection and never on
  -- another, and `Close` once on each TCP connection, and twice on another.
  pub relay-Closed :
      (ss : List Side)
      → (run ss (start j k)).waiting ≡ 0
      → Closed j (run ss (start j k)).a × Closed k (run ss (start j k)).b
  relay-Closed ss w = end-Closed (run ss (start j k)) (reached ss) w

-- Whatever the order in which the two pipes move: once the pipe into the first connection is
-- through, `Close` has been called on both connections, wherever the other pipe is.
pub first_closes_both :
    (j k : Kind) (ss : List Side)
    → (run ss (start j k)).to_a ≡ finished
    → (1 ≤ (run ss (start j k)).a.closes) × (1 ≤ (run ss (start j k)).b.closes)
first_closes_both j k ss h =
    let v = run-Inv ss (start j k) (start-Inv j k) in
    end_closes (run ss (start j k)) v (end_once (run ss (start j k)) v h)

-- The steps that a pipe has still to make.
abbrev pub left : Phase → ℕ
left copying = 5
left copied = 4
left half_closed = 3
left closing_a = 2
left closing_b = 1
left finished = 0

abbrev pub measure : Relay → ℕ
measure r = left r.to_a + left r.to_b

-- The pipes move in turn, `n` times.
abbrev pub turns : ℕ → List Side
turns zero = []
turns (suc n) = into_a ∷ into_b ∷ turns n

measure-zero : {j k : Kind} (r : Relay) → Inv j k r → measure r ≡ 0 → r.waiting ≡ 0
measure-zero r v m = ground (arith, v.count, m)

round-measure :
    (n : ℕ) (r : Relay)
    → agree r.to_a r.to_b r.once ≡ true
    → measure r ≤ suc n
    → measure (tick into_b (tick into_a r)) ≤ n
unfolding tick
round-measure n r c h = ground arith

turns-enough :
    {j k : Kind} (n : ℕ) (r : Relay) → Inv j k r → measure r ≤ n → (run (turns n) r).waiting ≡ 0
unfolding run
turns-enough zero r v h = measure-zero r v (omega arith)
turns-enough (suc n) r v h =
    turns-enough n (tick into_b (tick into_a r)) (tick-Inv into_b _ (tick-Inv into_a r v))
      (round-measure n r v.control h)

measure-bound : (r : Relay) → measure r ≤ 10
measure-bound r = ground arith

-- `Relay` comes to return, if each `io.Copy` does: whatever the order in which the pipes have
-- moved so far, after each has been scheduled ten more times in turn its wait group is at 0.
pub relay_returns :
    (j k : Kind) (ss : List Side) → (run (turns 10) (run ss (start j k))).waiting ≡ 0
relay_returns j k ss =
    turns-enough 10 (run ss (start j k)) (run-Inv ss (start j k) (start-Inv j k))
      (measure-bound (run ss (start j k)))
