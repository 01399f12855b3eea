-- ===== src/Jobs/Repo.antt =====
-- crates/infrastructure/src/job/repo.rs: one SQL statement each, so one step each. A table is the
-- list of its rows in the order of their ids; a comparison with NULL does not hold.
pub mod Ops
pub mod Valid
pub mod Claims
pub mod Order
pub mod Grants
pub mod Lease
use bikenest.Base.{
  ℕ, ◌+◌, ◌*◌, Bool, true, false, not, ◌&&◌, ◌||◌, List, [], ◌∷◌, ◌++◌, map, Option, none, some,
  ltb, leb, ◌==◌, if◌then◌else◌, length, take, filter, any,
}
use bikenest.Base.Text.{Text, text_eq}
use bikenest.Base.Json.{Json, null}
use bikenest.Jobs.{Job, JobState, pending, running, succeeded, failed, Message}

abbrev pub Table : Type 0
Table = List Job

abbrev pub is_pending : JobState → Bool
is_pending pending = true
is_pending _ = false

abbrev pub is_running : JobState → Bool
is_running running = true
is_running _ = false

abbrev pub is_terminal : JobState → Bool
is_terminal succeeded = true
is_terminal failed = true
is_terminal _ = false

-- `column = $n` at a nullable text.
abbrev pub same_text : Option Text → Text → Bool
same_text none t = false
same_text (some s) t = text_eq s t

-- `column < $n` at a nullable instant.
abbrev pub before : Option ℕ → ℕ → Bool
before none t = false
before (some s) t = ltb s t

abbrev pub has_key : Option Text → Job → Bool
has_key none j = false
has_key (some k) j = same_text j.idempotency_key k

-- `COALESCE`.
abbrev pub coalesce : Option ℕ → ℕ → ℕ
coalesce none d = d
coalesce (some n) d = n

abbrev pub coalesce_time : Option ℕ → ℕ → Option ℕ
coalesce_time o d = some (coalesce o d)

-- `enqueue`: `id` is the identity column's next value. The row's schedule is the column's default.
unfoldable pub enqueue : ℕ → Text → Json → ℕ → Option ℕ → Option Text → Table → Option ℕ × Table
enqueue id kind payload run_at max_attempts key t = if any (has_key key) t then (none, t) else (
  some id,
  t
      ++ record {
        id = id;
        kind = kind;
        payload = payload;
        state = pending;
        attempts = 0;
        max_attempts = coalesce max_attempts 5;
        run_at = run_at;
        schedule = none;
        claimed_by = none;
        lease_expires_at = none;
        heartbeat_at = none;
        last_error = none;
        started_at = none;
        finished_at = none;
        idempotency_key = key;
      }
        ∷ [],
)

-- `kind = ANY($4)`, where a filter was asked for.
abbrev pub kind_wanted : Option (List Text) → Text → Bool
kind_wanted none kind = true
kind_wanted (some kinds) kind = any (text_eq kind) kinds

-- A claim: when it runs, its arguments, and the rows that other transactions have locked, which
-- `SKIP LOCKED` passes over.
pub record Claim : Type 0 where
  pub now : ℕ
  pub locked : ℕ → Bool
  pub batch : ℕ
  pub worker : Text
  pub lease_secs : ℕ
  pub kinds : Option (List Text)

-- The `WHERE` of the candidates.
unfoldable pub claimable : Claim → Job → Bool
claimable c j =
    (is_pending j.state || (is_running j.state && before j.lease_expires_at c.now))
    && leb j.run_at c.now
    && kind_wanted c.kinds j.kind
    && not (c.locked j.id)

-- `ORDER BY run_at, id`.
unfoldable pub comes_first : Job → Job → Bool
comes_first a b = ltb a.run_at b.run_at || (a.run_at == b.run_at && leb a.id b.id)

unfoldable pub insert_job : Job → Table → Table
unfolding comes_first
insert_job a [] = a ∷ []
insert_job a (b ∷ l) = if comes_first a b then a ∷ b ∷ l else b ∷ insert_job a l

unfoldable pub sort_jobs : Table → Table
unfolding insert_job
sort_jobs [] = []
sort_jobs (a ∷ l) = insert_job a (sort_jobs l)

-- The `candidate` subquery.
unfoldable pub candidates : Claim → Table → Table
unfolding claimable sort_jobs
candidates c t = take c.batch (sort_jobs (filter (claimable c) t))

-- `j.id = c.id`, for some candidate.
abbrev pub picked : Table → Job → Bool
picked chosen j = any (λ x. x.id == j.id) chosen

-- The `SET` of the claim.
unfoldable pub start : Claim → Job → Job
start c j = record j {
  state = running;
  claimed_by = some c.worker;
  lease_expires_at = some (c.now + c.lease_secs * 1000);
  heartbeat_at = some c.now;
  started_at = coalesce_time j.started_at c.now;
  attempts = j.attempts + 1;
}

-- `UPDATE … WHERE`.
abbrev pub update_where : (Job → Bool) → (Job → Job) → Table → Table
update_where p f = map λ j. if p j then f j else j

-- `claim_inner`: the rows that it returns, as it leaves them, and the table.
unfoldable pub claim : Claim → Table → Table × Table
unfolding candidates start
claim c t =
    let chosen = candidates c t in
    (map (start c) (filter (picked chosen) t), update_where (picked chosen) (start c) t)

-- `WHERE id = $1 AND claimed_by = $n`.
abbrev pub owned : ℕ → Text → Job → Bool
owned id worker j = j.id == id && same_text j.claimed_by worker

-- The `SET` of `heartbeat`.
abbrev pub beat : ℕ → ℕ → Job → Job
beat now lease_secs j = record j {
  heartbeat_at = some now;
  lease_expires_at = some (now + lease_secs * 1000);
}

abbrev pub beats : ℕ → Text → Job → Bool
beats id worker j = owned id worker j && is_running j.state

unfoldable pub heartbeat : ℕ → ℕ → Text → ℕ → Table → Table
heartbeat now id worker lease_secs = update_where (beats id worker) (beat now lease_secs)

abbrev pub released : JobState → Job → Job
released s j = record j {
  state = s;
  claimed_by = none;
  lease_expires_at = none;
  heartbeat_at = none;
}

-- The `SET`s of `finish_success`: of a recurring job, and of a one-shot job.
abbrev pub rescheduled : ℕ → ℕ → Job → Job
rescheduled next finished j = record (released pending j) {
  attempts = 0;
  run_at = next;
  started_at = none;
  last_error = none;
  finished_at = some finished;
}

abbrev pub completed : ℕ → Job → Job
completed finished j = record (released succeeded j) {
  started_at = none;
  finished_at = some finished;
}

unfoldable pub finish_success : ℕ → Text → Option ℕ → ℕ → Table → Table
finish_success id worker (some next) finished =
    update_where (owned id worker) (rescheduled next finished)
finish_success id worker none finished = update_where (owned id worker) (completed finished)

-- The `SET` of `retry`.
abbrev pub retried : Message → ℕ → Job → Job
retried error run_at j = record (released pending j) {
  run_at = run_at;
  last_error = some error;
  started_at = none;
}

unfoldable pub retry : ℕ → Text → Message → ℕ → Table → Table
retry id worker error run_at = update_where (owned id worker) (retried error run_at)

-- The `SET` of `fail`.
abbrev pub dead : ℕ → Message → Job → Job
dead now error j = record (released failed j) { finished_at = some now; last_error = some error }

unfoldable pub fail : ℕ → ℕ → Text → Message → Table → Table
fail now id worker error = update_where (owned id worker) (dead now error)

-- What `gc` leaves: the count that it returns is of the other rows.
abbrev pub stays : ℕ → Job → Bool
stays cutoff j = not (is_terminal j.state && before j.finished_at cutoff)

unfoldable pub gc : ℕ → Table → Table
gc cutoff = filter (stays cutoff)
