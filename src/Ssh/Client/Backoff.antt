-- ===== src/Ssh/Client/Backoff.antt =====
-- internal/ssh/client.go: the delays between attempts to connect.
use port_forwarder.Base.{ℕ, zero, suc, ◌+◌, ◌≤◌, ◌≡◌, refl, ap, ◌∙◌, arith}
use port_forwarder.Ssh.Client.{max_backoff, next_backoff}

-- The delay before attempt `i`, when all attempts before it fail.
unfoldable pub backoff : ℕ → ℕ
unfolding next_backoff
backoff zero = 1000000000
backoff (suc i) = next_backoff (backoff i)

next_backoff_bounds :
    (d : ℕ)
    → 1000000000 ≤ d
    → d ≤ max_backoff
    → (d ≤ next_backoff d) × (next_backoff d ≤ max_backoff)
unfolding next_backoff
next_backoff_bounds d low high = (ground arith, ground arith)

backoff_bounds : (i : ℕ) → (1000000000 ≤ backoff i) × (backoff i ≤ max_backoff)
unfolding backoff
backoff_bounds zero = (omega arith, omega arith)
backoff_bounds (suc i) =
    let (low, high) = backoff_bounds i in
    let (grows, stays) = next_backoff_bounds (backoff i) low high in
    (omega (arith, low, grows), stays)

backoff_full : (i : ℕ) → backoff (5 + i) ≡ max_backoff
unfolding backoff next_backoff
backoff_full zero = refl
backoff_full (suc i) =
    let one_more : 5 + suc i ≡ suc (5 + i) = omega arith in
    ap backoff one_more ∙ ap next_backoff (backoff_full i)

-- The delay before each attempt to connect, when all attempts before it failed, is from one second
-- to thirty seconds, is no longer than the next one, and is thirty seconds from the sixth attempt
-- on.
pub backoff_lem :
    (i : ℕ)
    → (1000000000 ≤ backoff i)
      × (backoff i ≤ max_backoff)
      × (backoff i ≤ backoff (suc i))
      × (backoff (5 + i) ≡ max_backoff)
unfolding backoff
backoff_lem i =
    let (low, high) = backoff_bounds i in
    (low, high, (next_backoff_bounds (backoff i) low high).0, backoff_full i)
