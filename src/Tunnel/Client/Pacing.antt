-- ===== src/Tunnel/Client/Pacing.antt =====
-- internal/tunnel/client.go: how long `Run` waits between two dials.
use port_forwarder.Base.{ℕ, zero, suc, ◌*◌, ◌^◌, ◌≤◌, ◌≡◌, refl, Bool, arith, All}
use port_forwarder.Tunnel.Client.{
  Client, Runner, start, second, grow, Step, Steps, dial_fails, delay_ends, connects,
  takes_snapshot, registers, serves, reads, drops, cancels_dial, cancels_delay, adds, removes, done,
  next,
}

-- A second, doubled some times, but not beyond 32 seconds.
abbrev pub IsPaced : ℕ → Type 0
IsPaced d = (k : ℕ) × (k ≤ 5) × (d ≡ 2 ^ k * second)

grow-IsPaced : (d : ℕ) → IsPaced d → IsPaced (grow d)
unfolding grow
grow-IsPaced d (zero, small, is) = (1, omega arith, rw is refl)
grow-IsPaced d ((suc zero), small, is) = (2, omega arith, rw is refl)
grow-IsPaced d ((suc (suc zero)), small, is) = (3, omega arith, rw is refl)
grow-IsPaced d ((suc (suc (suc zero))), small, is) = (4, omega arith, rw is refl)
grow-IsPaced d ((suc (suc (suc (suc zero)))), small, is) = (5, omega arith, rw is refl)
grow-IsPaced d ((suc (suc (suc (suc (suc zero))))), small, is) = (5, omega arith, rw is refl)
grow-IsPaced d ((suc (suc (suc (suc (suc (suc k)))))), small, is) = absurd (omega arith)

abbrev Paced : Runner → Type 0
Paced x = IsPaced x.backoff × All IsPaced x.delays

after-Paced : {calm : Bool} {x y : Runner} → Step calm x y → Paced x → Paced y
after-Paced (dial_fails c d ds) p = (p.0, (p.0, p.1))
after-Paced (delay_ends c d ds) p = (grow-IsPaced d p.0, p.1)
after-Paced (connects c d ds) p = ((0, omega arith, omega arith), p.1)
after-Paced (takes_snapshot c d ds) p = p
after-Paced (registers c r rs d ds) p = p
after-Paced (serves c d ds) p = p
after-Paced (reads f c d ds) p = p
after-Paced (drops c d ds) p = p
after-Paced (cancels_dial c d ds) p = p
after-Paced (cancels_delay c d ds) p = p
after-Paced (adds r x calm) p = p
after-Paced (removes id x calm) p = p

steps-Paced : {calm : Bool} {x y : Runner} → Steps calm x y → Paced x → Paced y
steps-Paced (done x) p = p
steps-Paced (next x step steps) p = steps-Paced steps (after-Paced step p)

-- However the goroutine of `Run` moves, each delay that it has waited for between two dials is a
-- second doubled at most five times, so from one to 32 seconds.
pub delays-IsPaced :
    {calm : Bool} (c : Client) {x : Runner} → Steps calm (start c) x → All IsPaced x.delays
unfolding start
delays-IsPaced c steps = (steps-Paced steps ((0, omega arith, omega arith), tt)).1
