-- ===== src/Worker/Backoff.antt =====
-- The delay before a retry.
use clawndom.Common.{ℕ, zero, suc, ◌*◌, ◌^◌, ◌≤◌, min, ◌≡◌, arith}
use clawndom.Worker.Failure.{compute_requeue_delay_ms}

one-le-two_pow : (n : ℕ) → 1 ≤ 2 ^ n
one-le-two_pow zero = omega arith
one-le-two_pow (suc n) = omega (arith, one-le-two_pow n)

sixteen-le-two_pow : (n : ℕ) → 4 ≤ n → 16 ≤ 2 ^ n
sixteen-le-two_pow zero h = absurd (omega arith)
sixteen-le-two_pow (suc zero) h = absurd (omega arith)
sixteen-le-two_pow (suc (suc zero)) h = absurd (omega arith)
sixteen-le-two_pow (suc (suc (suc zero))) h = absurd (omega arith)
sixteen-le-two_pow (suc (suc (suc (suc n)))) h = omega (arith, one-le-two_pow n)

-- The delay after the first attempt is 5 seconds, and the delay after any failed attempt, counted from
-- 1, is at least 5 seconds and at most a minute; the next delay is the double of it up to a minute,
-- and from the fifth attempt on it is a minute.
pub compute_requeue_delay_ms-bounds :
    (attempt : ℕ)
    → 1 ≤ attempt
    → (compute_requeue_delay_ms 1 ≡ 5000)
      × (5000 ≤ compute_requeue_delay_ms attempt)
      × (compute_requeue_delay_ms attempt ≤ 60000)
      × (compute_requeue_delay_ms (suc attempt) ≡ min (2 * compute_requeue_delay_ms attempt) 60000)
      × (5 ≤ attempt → compute_requeue_delay_ms attempt ≡ 60000)
unfolding compute_requeue_delay_ms
compute_requeue_delay_ms-bounds zero h = absurd (omega arith)
compute_requeue_delay_ms-bounds (suc n) h = (
  omega arith,
  omega (arith, one-le-two_pow n),
  omega arith,
  omega arith,
  λ late. omega (arith, sixteen-le-two_pow n (omega arith)),
)
