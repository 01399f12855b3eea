-- ===== src/Jobs/Tests.antt =====
-- The queue at concrete inputs: one job, its worker, and a failing handler.
use bikenest.Base.{
  ℕ, ◌+◌, ◌≤◌, ◌<◌, ◌≡◌, refl, true, false, ◌&&◌, List, [], ◌∷◌, none, some, arith, length, any,
  All, filter,
}
use bikenest.Base.Members.{In, here, there}
use bikenest.Base.Text.{Text, codes, text_eq}
use bikenest.Base.Json.{null}
use bikenest.Jobs.{handler_message, done, Job, pending, running, failed}
use bikenest.Jobs.Schedule.{Cron, backoff_ms, u64_max}
use bikenest.Jobs.Schedule.Backoff.{ideal, backoff_ms_bounds, backoff_ms_mono}
use Prim.Native.Nat.{min}
use bikenest.Jobs.Repo.{
  Table, Claim, has_key, claimable, candidates, start, claim, comes_first, sort_jobs, insert_job,
  finish_success,
}
use bikenest.Jobs.Repo.Ops.{Op, claims, retries, Queue, steps}
use bikenest.Jobs.Repo.Valid.{IsValid, steps-IsValid}
use bikenest.Jobs.Repo.Claims.{length-claim}
use bikenest.Jobs.Repo.Order.{due_by, claim_due}
use bikenest.Jobs.Repo.Grants.{Free, Granted, claim_sound}
use bikenest.Jobs.Repo.Lease.{Held, AllForeign, steps-held}
use bikenest.Jobs.Worker.{Config, Run, RecurringKind, bootstrap, poll, run_job}
use bikenest.Jobs.Worker.Settles.{NotHeldBy, poll_lets_go}
use bikenest.Jobs.Worker.Budget.{
  status, failing_rounds, failing_rounds-status, crash_rounds, crash_rounds-status,
}
use bikenest.Jobs.Worker.Recurring.{run_job_once, bootstrap_again}

abbrev no_cron : Cron
no_cron = record { Schedule = Text; from_str = λ t. none; after = λ s t. none }

abbrev settings : Config
settings = record { backoff_base_ms = 1000; batch_size = 1; lease_secs = 60 }

abbrev queued : ℕ → ℕ → Job
queued id run_at = record {
  id = id;
  kind = codes "send";
  payload = null;
  state = pending;
  attempts = 0;
  max_attempts = 2;
  run_at = run_at;
  schedule = none;
  claimed_by = none;
  lease_expires_at = none;
  heartbeat_at = none;
  last_error = none;
  started_at = none;
  finished_at = none;
  idempotency_key = none;
}

abbrev two_rows : Table
two_rows = queued 1 100 ∷ queued 2 50 ∷ []

abbrev two_queued : Queue
two_queued = record { rows = two_rows; next_id = 3 }

two_queued-IsValid : IsValid two_queued
two_queued-IsValid = record {
  rows_ok = (
    record { claimed = refl; leased = refl; beating = refl; attempted = λ h. ground arith },
    (record { claimed = refl; leased = refl; beating = refl; attempted = λ h. ground arith }, tt),
  );
  ids = ground arith;
}

abbrev at : ℕ → Text → Claim
at now worker = record {
  now = now;
  locked = λ _. false;
  batch = 1;
  worker = worker;
  lease_secs = 60;
  kinds = none;
}

steps-IsValid_example : IsValid (steps (claims (at 100 (codes "w1")) ∷ []) two_queued)
steps-IsValid_example =
    steps-IsValid (claims (at 100 (codes "w1")) ∷ []) two_queued two_queued-IsValid

backoff_ms_bounds_example :
    (backoff_ms 3 1000 500 ≤ u64_max)
    × (min (ideal 3 1000) u64_max ≤ backoff_ms 3 1000 500)
    × (backoff_ms 3 1000 500 < ideal 3 1000 + 1000)
backoff_ms_bounds_example = backoff_ms_bounds 3 1000 500 (omega arith)

backoff_ms_mono_example : backoff_ms 2 1000 7 ≤ backoff_ms 3 1000 7
backoff_ms_mono_example = backoff_ms_mono 2 3 1000 7 (omega arith)

first_free : claimable (at 100 (codes "w1")) (queued 2 50) ≡ true
unfolding claimable
first_free = refl

first_few :
    length (filter (λ x. claimable (at 100 (codes "w1")) x && due_by (queued 2 50) x) two_rows) ≤ 1
unfolding claimable
first_few = omega arith

claim_due_example :
    In (start (at 100 (codes "w1")) (queued 2 50)) (claim (at 100 (codes "w1")) two_rows).0
claim_due_example =
    claim_due (at 100 (codes "w1")) two_rows (there (here refl)) first_free first_few

length-claim_example : length (claim (at 100 (codes "w1")) two_rows).0 ≤ 1
length-claim_example = length-claim (at 100 (codes "w1")) 0 3 two_rows (ground arith)

abbrev early : Job
early = start (at 100 (codes "w1")) (queued 2 50)

early-In : In early (claim (at 100 (codes "w1")) two_rows).0
unfolding claim candidates sort_jobs insert_job comes_first claimable
early-In = here refl

claim_sound_example :
    (j : Job) × In j two_rows
    × Free (at 100 (codes "w1")) j
    × Granted (at 100 (codes "w1")) j early
    × In early (claim (at 100 (codes "w1")) two_rows).1
claim_sound_example = claim_sound (at 100 (codes "w1")) 0 3 two_rows (ground arith) early-In

abbrev one_running : Queue
one_running = record { rows = early ∷ []; next_id = 3 }

one_running-IsValid : IsValid one_running
unfolding start
one_running-IsValid = record {
  rows_ok =
      (record { claimed = refl; leased = refl; beating = refl; attempted = λ h. ground arith }, tt);
  ids = ground arith;
}

early-Held : Held (codes "w1") 60100 early
unfolding start
early-Held = record { runs = refl; owner = refl; until = refl }

-- Another worker claims, and a third that has lost the lease retries, while the lease lasts.
abbrev meddling : List Op
meddling =
    claims (at 60100 (codes "w2"))
    ∷ retries 2 (codes "w3") (handler_message (codes "late")) 500
    ∷ []

meddling-AllForeign : AllForeign (codes "w1") 60100 meddling
unfolding text_eq
meddling-AllForeign = ground arith

steps-held_example : In early (steps meddling one_running).rows
steps-held_example =
    steps-held (codes "w1") 60100 early early-Held meddling one_running one_running-IsValid
      (here refl) meddling-AllForeign

abbrev successes : Job → Run
successes j = record { result = some done; now = 200; jitter = 0 }

poll_lets_go_example :
    All
      (NotHeldBy (codes "w1"))
      (poll no_cron settings (codes "w1") 100 (λ _. false) successes two_rows)
poll_lets_go_example =
    poll_lets_go no_cron settings (codes "w1") 100 (λ _. false) successes two_rows (ground arith)

failing_rounds-status_example :
    status (
      failing_rounds no_cron settings
        (codes "w1")
        (omega arith)
        (handler_message [])
        0
        2
        (queued 1 100 ∷ []))
    ≡ (failed, 2) ∷ []
failing_rounds-status_example =
    failing_rounds-status no_cron settings (codes "w1") (omega arith) (handler_message []) 0 2
      (queued 1 100) refl (omega arith) (omega arith)

crash_free : claimable (at 100 (codes "w1")) (queued 1 100) ≡ true
unfolding claimable
crash_free = refl

-- Six attempts at a job that is allowed two.
crash_rounds-status_example :
    status (
      crash_rounds no_cron settings
        (codes "w1")
        (omega arith)
        (handler_message [])
        0
        6
        100
        (queued 1 100 ∷ []))
    ≡ (running, 6) ∷ []
crash_rounds-status_example =
    crash_rounds-status no_cron settings (codes "w1") (omega arith) (handler_message []) 0 5 100
      (queued 1 100) (omega arith) crash_free

run_job_once_example :
    run_job no_cron settings
      (codes "w1")
      early
      (record { result = some done; now = 200; jitter = 0 })
      two_rows
    ≡ finish_success 2 (codes "w1") none 200 two_rows
unfolding start steps
run_job_once_example =
    run_job_once no_cron settings (codes "w1") [] two_queued (at 100 (codes "w1")) early 200 0
      two_rows (ground arith) early-In

abbrev retention : RecurringKind
retention = record {
  job_kind = codes "retention";
  payload = null;
  schedule = null;
  idempotency_key = codes "recurring:retention";
  max_attempts = 3;
}

bootstrap_again_example :
    All
      (λ k.
        any (has_key (some k.idempotency_key)) (bootstrap 10 3 (retention ∷ []) two_rows) ≡ true)
      (retention ∷ [])
    × (bootstrap 20 4 (retention ∷ []) (bootstrap 10 3 (retention ∷ []) two_rows)
        ≡ bootstrap 10 3 (retention ∷ []) two_rows)
bootstrap_again_example = bootstrap_again 10 3 20 4 (retention ∷ []) two_rows
