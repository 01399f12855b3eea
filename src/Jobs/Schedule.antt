-- ===== src/Jobs/Schedule.antt =====
-- crates/infrastructure/src/job/schedule.rs: the next run of a recurring job, and retry delays. The
-- cron library is a parameter.
pub mod Backoff
use Prim.Native.Nat.{min, max}
use bikenest.Base.{
  ℕ, ◌+◌, ◌-◌, ◌*◌, ◌^◌, Bool, true, false, ◌++◌, Option, none, some, ltb, ◌==◌, if◌then◌else◌,
}
use bikenest.Base.Text.{Text, codes, count_words}
use bikenest.Base.Int.{ℤ, pos, negsuc, pos_part, leb_ℤ}
use bikenest.Base.Json.{
  Json, null, boolean, integer, decimal, text, array, object, get, as_i64, as_str,
}
use bikenest.Jobs.{
  Message, not_an_object, not_positive, invalid_cron, no_future_run, unsupported_schedule, JobError,
  permanent,
}

-- `Result<Option<DateTime<Utc>>, JobError>`.
pub data NextRun : Type 0 where
  run : Option ℕ → NextRun
  invalid : JobError → NextRun

-- The cron library: parses an expression, and gives the first tick after an instant.
pub record Cron : Type 1 where
  pub Schedule : Type 0
  pub from_str : Text → Option Schedule
  pub after : Schedule → ℕ → Option ℕ

unfoldable pub normalize_cron : Text → Text
unfolding count_words
normalize_cron expr = if count_words false expr == 5 then codes "0 " ++ expr else expr

module _ (cron : Cron) where
  open cron use {Schedule, from_str, after}

  -- The tick of a parsed expression.
  unfoldable pub cron_tick : Text → Option Schedule → ℕ → NextRun
  cron_tick expr none now = invalid (permanent (invalid_cron expr))
  cron_tick expr (some s) now = elim (after s now) [
    | none ↦ invalid (permanent (no_future_run expr))
    | some t ↦ run (some t)
  ]

  -- The branch on `cron`.
  unfoldable pub cron_run : Json → Option Text → ℕ → NextRun
  unfolding cron_tick normalize_cron
  cron_run s none now = invalid (permanent (unsupported_schedule s))
  cron_run s (some expr) now = cron_tick expr (from_str (normalize_cron expr)) now

  -- The branch on `every_seconds`, which comes first.
  unfoldable pub every_run : Json → Option ℤ → ℕ → NextRun
  unfolding cron_run get
  every_run s none now = cron_run s (as_str (get (codes "cron") s)) now
  every_run s (some secs) now =
      if leb_ℤ secs (pos 0)
      then invalid (permanent (not_positive secs))
      else run (some (now + pos_part secs * 1000))

  unfoldable pub next_run_at : Option Json → ℕ → NextRun
  unfolding every_run
  next_run_at none now = run none
  next_run_at (some null) now = run none
  next_run_at (some (object fs)) now =
      every_run (object fs) (as_i64 (get (codes "every_seconds") (object fs))) now
  next_run_at (some s) now = invalid (permanent (not_an_object s))

-- 2^64 - 1.
abbrev pub u64_max : ℕ
u64_max = 0xffffffffffffffff

-- The retry delay; `jitter` is what the generator draws, below `base_ms` (or 0).
unfoldable pub backoff_ms : ℕ → ℕ → ℕ → ℕ
backoff_ms attempt base_ms jitter =
    let exponential = min (base_ms * 2 ^ min (attempt - 1) 63) u64_max in
    min (exponential + jitter) u64_max

-- `delay_ms as i64`.
unfoldable pub as_signed : ℕ → ℤ
as_signed n = if ltb n (2 ^ 63) then pos n else negsuc (u64_max - n)
