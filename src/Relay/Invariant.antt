-- ===== src/Relay/Invariant.antt =====
-- internal/forward/forward.go: what holds of a relay at every moment.
use port_forwarder.Base.{ℕ, ◌+◌, ◌≡◌, refl, ◌∙◌, Bool, true, false, List, [], ◌∷◌, arith}
use port_forwarder.Relay.{
  Kind, tcp, other, Phase, copying, copied, closing_a, closing_b, finished, Once, fresh, busy, used,
  Side, Relay, start, move, phase_of, tick, run,
}

-- How the two pipes and the once can stand to each other.
abbrev pub agree : Phase → Phase → Once → Bool
agree closing_a closing_a _ = false
agree closing_a closing_b _ = false
agree closing_a finished _ = false
agree closing_a _ busy = true
agree closing_a _ _ = false
agree closing_b closing_a _ = false
agree closing_b closing_b _ = false
agree closing_b finished _ = false
agree closing_b _ busy = true
agree closing_b _ _ = false
agree finished closing_a _ = false
agree finished closing_b _ = false
agree finished _ used = true
agree finished _ _ = false
agree _ closing_a busy = true
agree _ closing_b busy = true
agree _ finished used = true
agree _ finished _ = false
agree _ closing_a _ = false
agree _ closing_b _ = false
agree _ _ fresh = true
agree _ _ busy = false
agree _ _ used = false

-- How often a pipe has run `closeWriteHalf`.
abbrev pub halves : Phase → ℕ
halves copying = 0
halves copied = 0
halves _ = 1

-- How often `terminate` has closed `a`, and `b`.
abbrev pub shut_a : Phase → Phase → Once → ℕ
shut_a closing_b _ _ = 1
shut_a _ closing_b _ = 1
shut_a _ _ used = 1
shut_a _ _ _ = 0

abbrev pub shut_b : Once → ℕ
shut_b used = 1
shut_b _ = 0

abbrev pub live : Phase → ℕ
live finished = 0
live _ = 1

abbrev pub write_closes_as : Kind → ℕ → ℕ
write_closes_as tcp n = n
write_closes_as other n = 0

abbrev pub closes_as : Kind → ℕ → ℕ
closes_as tcp n = 0
closes_as other n = n

pub record Inv (j k : Kind) (r : Relay) : Type 0 where
  pub kind_a : r.a.kind ≡ j
  pub kind_b : r.b.kind ≡ k
  pub control : agree r.to_a r.to_b r.once ≡ true
  pub count : r.waiting ≡ live r.to_a + live r.to_b
  pub half_a : r.a.write_closes ≡ write_closes_as j (halves r.to_a)
  pub half_b : r.b.write_closes ≡ write_closes_as k (halves r.to_b)
  pub full_a : r.a.closes ≡ shut_a r.to_a r.to_b r.once + closes_as j (halves r.to_a)
  pub full_b : r.b.closes ≡ shut_b r.once + closes_as k (halves r.to_b)

pub start-Inv : (j k : Kind) → Inv j k (start j k)
start-Inv j k = record {
  kind_a = refl;
  kind_b = refl;
  control = refl;
  count = refl;
  half_a = ground arith;
  half_b = ground arith;
  full_a = ground arith;
  full_b = ground arith;
}

move-kind_a : (s : Side) (p : Phase) (r : Relay) → (move s p r).a.kind ≡ r.a.kind
move-kind_a s p r = ground arith

move-kind_b : (s : Side) (p : Phase) (r : Relay) → (move s p r).b.kind ≡ r.b.kind
move-kind_b s p r = ground arith

tick-control :
    (s : Side) (r : Relay)
    → agree r.to_a r.to_b r.once ≡ true
    → agree (tick s r).to_a (tick s r).to_b (tick s r).once ≡ true
unfolding tick
tick-control s r h = ground arith

tick-count :
    (s : Side) (r : Relay)
    → agree r.to_a r.to_b r.once ≡ true
    → r.waiting ≡ live r.to_a + live r.to_b
    → (tick s r).waiting ≡ live (tick s r).to_a + live (tick s r).to_b
unfolding tick
tick-count s r h c = ground arith

module _ (s : Side) (r : Relay) where
  tick-half_a :
      (j : Kind)
      → r.a.kind ≡ j
      → r.a.write_closes ≡ write_closes_as j (halves r.to_a)
      → (tick s r).a.write_closes ≡ write_closes_as j (halves (tick s r).to_a)
  unfolding tick
  tick-half_a j e h = ground arith

  tick-half_b :
      (k : Kind)
      → r.b.kind ≡ k
      → r.b.write_closes ≡ write_closes_as k (halves r.to_b)
      → (tick s r).b.write_closes ≡ write_closes_as k (halves (tick s r).to_b)
  unfolding tick
  tick-half_b k e h = ground arith

  tick-full_a :
      (j : Kind)
      → r.a.kind ≡ j
      → agree r.to_a r.to_b r.once ≡ true
      → r.a.closes ≡ shut_a r.to_a r.to_b r.once + closes_as j (halves r.to_a)
      → (tick s r).a.closes
        ≡ shut_a (tick s r).to_a (tick s r).to_b (tick s r).once
          + closes_as j (halves (tick s r).to_a)
  unfolding tick
  tick-full_a j e c h = ground arith

  tick-full_b :
      (k : Kind)
      → r.b.kind ≡ k
      → agree r.to_a r.to_b r.once ≡ true
      → r.b.closes ≡ shut_b r.once + closes_as k (halves r.to_b)
      → (tick s r).b.closes ≡ shut_b (tick s r).once + closes_as k (halves (tick s r).to_b)
  unfolding tick
  tick-full_b k e c h = ground arith

  pub tick-Inv : {j k : Kind} → Inv j k r → Inv j k (tick s r)
  unfolding tick
  tick-Inv {j} {k} v = record {
    kind_a = move-kind_a s (phase_of s r) r ∙ v.kind_a;
    kind_b = move-kind_b s (phase_of s r) r ∙ v.kind_b;
    control = tick-control s r v.control;
    count = tick-count s r v.control v.count;
    half_a = tick-half_a j v.kind_a v.half_a;
    half_b = tick-half_b k v.kind_b v.half_b;
    full_a = tick-full_a j v.kind_a v.control v.full_a;
    full_b = tick-full_b k v.kind_b v.control v.full_b;
  }

pub run-Inv : {j k : Kind} (ss : List Side) (r : Relay) → Inv j k r → Inv j k (run ss r)
unfolding run
run-Inv [] r v = v
run-Inv (s ∷ ss) r v = run-Inv ss (tick s r) (tick-Inv s r v)
