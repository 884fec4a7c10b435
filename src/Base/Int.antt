-- ===== src/Base/Int.antt =====
-- Go's `int` on a 64-bit machine: integers with the wrap-around of `i++` written out.
use Prim.Native.Nat.{ℕ, zero, suc, ◌-◌, ◌^◌, ◌<◌}
use mathlib.Core.Path.{◌≡◌}
use mathlib.Core.Bool.{Bool, true, false}
use native.Mathlib.Omega.{arith}
use port_forwarder.Base.Tests.{leb, ◌==◌, nat_eq, if◌then◌else◌}

-- `negsuc n` is -(n + 1).
pub data ℤ : Type 0 where
  pos : ℕ → ℤ
  negsuc : ℕ → ℤ

-- `math.MaxInt64`.
unfoldable pub max_int : ℕ
max_int = 2 ^ 63 - 1

-- `i++`: the largest int is followed by the least.
unfoldable pub inc : ℤ → ℤ
inc (pos n) = if n == max_int then negsuc max_int else pos (suc n)
inc (negsuc zero) = pos zero
inc (negsuc (suc n)) = negsuc n

pub inc_below : (n : ℕ) → n < max_int → inc (pos n) ≡ pos (suc n)
unfolding inc
inc_below n h = ground arith

-- `a >= b`.
abbrev pub geb : ℤ → ℤ → Bool
geb (pos a) (pos b) = leb b a
geb (pos a) (negsuc b) = true
geb (negsuc a) (pos b) = false
geb (negsuc a) (negsuc b) = leb a b
