-- ===== src/Jobs/Worker.antt =====
-- crates/infrastructure/src/job/worker.rs: a worker's claim, and the outcome of each job in turn.
-- The handlers are outside: of a run they give the result, and when it ended.
pub mod Settles
pub mod Budget
pub mod Recurring
use bikenest.Base.{ℕ, ◌+◌, Bool, true, false, List, [], ◌∷◌, Option, none, some, ltb, if◌then◌else◌}
use bikenest.Base.Text.{Text}
use bikenest.Base.Int.{shift}
use bikenest.Base.Json.{Json}
use bikenest.Jobs.{
  Message, no_handler, JobError, failed_job, permanent, Outcome, done, stopped, Job,
}
use bikenest.Jobs.Schedule.{Cron, NextRun, run, invalid, next_run_at, backoff_ms, as_signed}
use bikenest.Jobs.Repo.{Table, Claim, enqueue, claim, finish_success, retry, fail}

-- One run of a job: its result, `none` if no handler has its kind; the instant at which it ended;
-- and the jitter drawn.
pub record Run : Type 0 where
  pub result : Option Outcome
  pub now : ℕ
  pub jitter : ℕ

pub record Config : Type 0 where
  pub backoff_base_ms : ℕ
  pub batch_size : ℕ
  pub lease_secs : ℕ

abbrev pub message : JobError → Message
message (failed_job m) = m
message (permanent m) = m

module _ (cron : Cron) (config : Config) (worker : Text) where
  -- The branch on a successful run.
  unfoldable pub after_success : Job → ℕ → NextRun → Table → Table
  after_success job now (run next) t = finish_success job.id worker next now t
  after_success job now (invalid e) t = fail now job.id worker (message e) t

  -- `run_job`. The job is as it was claimed; `handler.on_dead_letter` only reports.
  unfoldable pub run_job : Job → Run → Table → Table
  unfolding after_success
  run_job job r t = elim r.result [
    | none ↦ fail r.now job.id worker (no_handler job.kind) t
    | some done ↦ after_success job r.now (next_run_at cron job.schedule r.now) t
    | some (stopped (failed_job e)) ↦
        (if ltb job.attempts job.max_attempts
          then retry job.id worker e
              (shift r.now (as_signed (backoff_ms job.attempts config.backoff_base_ms r.jitter))) t
          else fail r.now job.id worker e t)
    | some (stopped (permanent e)) ↦ fail r.now job.id worker e t
  ]

  -- The `for` over a claimed batch, which is finished even at a shutdown.
  unfoldable pub run_batch : List Job → (Job → Run) → Table → Table
  unfolding run_job
  run_batch [] runs t = t
  run_batch (j ∷ jobs) runs t = run_batch jobs runs (run_job j (runs j) t)

  -- One round of the loop in `run`; `locked` are the rows that others have locked.
  unfoldable pub poll : ℕ → (ℕ → Bool) → (Job → Run) → Table → Table
  unfolding run_batch
  poll now locked runs t =
      let (jobs, t') =
        claim
          (record {
            now = now;
            locked = locked;
            batch = config.batch_size;
            worker = worker;
            lease_secs = config.lease_secs;
            kinds = none;
          })
          t in
      run_batch jobs runs t'

-- `RecurringKind`.
pub record RecurringKind : Type 0 where
  pub job_kind : Text
  pub payload : Json
  pub schedule : Json
  pub idempotency_key : Text
  pub max_attempts : ℕ

-- `bootstrap`: one `enqueue` for each recurring kind; `id` is the identity column's next value.
unfoldable pub bootstrap : ℕ → ℕ → List RecurringKind → Table → Table
bootstrap now id [] t = t
bootstrap now id (k ∷ ks) t =
    bootstrap now (id + 1) ks
      (enqueue id k.job_kind k.payload now (some k.max_attempts) (some k.idempotency_key) t).1
