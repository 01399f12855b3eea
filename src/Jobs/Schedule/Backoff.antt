-- ===== src/Jobs/Schedule/Backoff.antt =====
-- crates/infrastructure/src/job/schedule.rs: the retry delay, and its conversion to a signed number.
use Prim.Native.Nat.{min}
use native.Mathlib.Nat.{pow-le-pow_right, mul-le-mul_left}
use bikenest.Base.{ℕ, ◌+◌, ◌-◌, ◌*◌, ◌^◌, ◌≤◌, ◌<◌, ◌≡◌, arith}
use bikenest.Base.Int.{shift}
use bikenest.Jobs.Schedule.{u64_max, backoff_ms, as_signed}

-- The delay before the saturation and the jitter.
abbrev pub ideal : ℕ → ℕ → ℕ
ideal attempt base_ms = base_ms * 2 ^ min (attempt - 1) 63

-- No delay exceeds a 64-bit word; each is at least the exponential one or the largest word; and the
-- jitter adds less than one base delay to it.
pub backoff_ms_bounds :
    (attempt base_ms jitter : ℕ)
    → jitter < base_ms
    → (backoff_ms attempt base_ms jitter ≤ u64_max)
      × (min (ideal attempt base_ms) u64_max ≤ backoff_ms attempt base_ms jitter)
      × (backoff_ms attempt base_ms jitter < ideal attempt base_ms + base_ms)
unfolding backoff_ms
backoff_ms_bounds attempt base_ms jitter h = omega arith

ideal_mono : (a b base_ms : ℕ) → a ≤ b → ideal a base_ms ≤ ideal b base_ms
ideal_mono a b base_ms h = mul-le-mul_left base_ms (pow-le-pow_right (omega arith) (omega arith))

-- A later attempt never waits less than an earlier one, up to the jitter of the two draws.
pub backoff_ms_mono :
    (a b base_ms jitter : ℕ) → a ≤ b → backoff_ms a base_ms jitter ≤ backoff_ms b base_ms jitter
unfolding backoff_ms
backoff_ms_mono a b base_ms jitter h = omega (arith, ideal_mono a b base_ms h)

-- A delay below 2^63 milliseconds leads to the instant that lies it ahead.
pub shift-as_signed : (now delay : ℕ) → delay < 2 ^ 63 → shift now (as_signed delay) ≡ now + delay
unfolding as_signed
shift-as_signed now delay h = ground arith
