-- ===== src/Jobs.antt =====
-- The background job queue: the rows of `background_job` and what runs them
-- (crates/infrastructure/src/job). Instants are milliseconds of the one clock that the database and
-- the workers are taken to share.
pub mod Schedule
pub mod Repo
pub mod Worker
mod Tests
use bikenest.Base.{ℕ, Option}
use bikenest.Base.Text.{Text}
use bikenest.Base.Int.{ℤ}
use bikenest.Base.Json.{Json}

-- What is written to `last_error`, by its cause: the text is for people.
pub data Message : Type 0 where
  handler_message : Text → Message
  no_handler : Text → Message
  not_an_object : Json → Message
  not_positive : ℤ → Message
  invalid_cron : Text → Message
  no_future_run : Text → Message
  unsupported_schedule : Json → Message

-- `JobError`.
pub data JobError : Type 0 where
  failed_job : Message → JobError
  permanent : Message → JobError

-- A handler's `Result<(), JobError>`.
pub data Outcome : Type 0 where
  done : Outcome
  stopped : JobError → Outcome

-- The `state` column, under its CHECK constraint.
pub data JobState : Type 0 where
  pending running succeeded failed : JobState

-- A row of `background_job`.
pub record Job : Type 0 where
  pub id : ℕ
  pub kind : Text
  pub payload : Json
  pub state : JobState
  pub attempts : ℕ
  pub max_attempts : ℕ
  pub run_at : ℕ
  pub schedule : Option Json
  pub claimed_by : Option Text
  pub lease_expires_at : Option ℕ
  pub heartbeat_at : Option ℕ
  pub last_error : Option Message
  pub started_at : Option ℕ
  pub finished_at : Option ℕ
  pub idempotency_key : Option Text
