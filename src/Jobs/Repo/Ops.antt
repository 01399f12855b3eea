-- ===== src/Jobs/Repo/Ops.antt =====
-- The operations of crates/infrastructure/src/job/repo.rs as one type, so that an interleaving of the
-- workers is a list.
use bikenest.Base.{ℕ, suc, List, [], ◌∷◌, Option}
use bikenest.Base.Text.{Text}
use bikenest.Base.Json.{Json}
use bikenest.Jobs.{Message}
use bikenest.Jobs.Repo.{Table, Claim, enqueue, claim, heartbeat, finish_success, retry, fail, gc}

pub data Op : Type 0 where
  enqueues : Text → Json → ℕ → Option ℕ → Option Text → Op
  claims : Claim → Op
  heartbeats : ℕ → ℕ → Text → ℕ → Op
  succeeds : ℕ → Text → Option ℕ → ℕ → Op
  retries : ℕ → Text → Message → ℕ → Op
  fails : ℕ → ℕ → Text → Message → Op
  collects : ℕ → Op

-- The table with the next value of its identity column, which an `INSERT` takes in any case.
pub record Queue : Type 0 where
  pub rows : Table
  pub next_id : ℕ

unfoldable pub step : Op → Queue → Queue
step (enqueues kind payload run_at max_attempts key) q = record {
  rows = (enqueue q.next_id kind payload run_at max_attempts key q.rows).1;
  next_id = suc q.next_id;
}
step (claims c) q = record q { rows = (claim c q.rows).1 }
step (heartbeats now id w secs) q = record q { rows = heartbeat now id w secs q.rows }
step (succeeds id w next finished) q = record q { rows = finish_success id w next finished q.rows }
step (retries id w e run_at) q = record q { rows = retry id w e run_at q.rows }
step (fails now id w e) q = record q { rows = fail now id w e q.rows }
step (collects cutoff) q = record q { rows = gc cutoff q.rows }

unfoldable pub steps : List Op → Queue → Queue
steps [] q = q
steps (o ∷ os) q = steps os (step o q)
