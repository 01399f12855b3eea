-- ===== src/Jobs/Worker/Settles.antt =====
-- crates/infrastructure/src/job/worker.rs: which rows are in a worker's name over a round of its loop.
use bikenest.Base.{
  ℕ, ◌≡◌, refl, Bool, true, false, List, [], ◌∷◌, map, Option, none, some, inl, inr, arith, ◌==◌,
  ==_refl, ltb, if◌then◌else◌, Bool-cases, filter, All,
}
use bikenest.Base.Members.{All-In, All-of_In, All-map-In, In-any, In-map, In-filter_of}
use bikenest.Base.Text.{Text}
use bikenest.Jobs.{Message, failed_job, permanent, Outcome, done, stopped, Job}
use bikenest.Jobs.Schedule.{Cron, NextRun, run, invalid, next_run_at}
use bikenest.Jobs.Repo.{
  Table, same_text, owned, update_where, picked, candidates, start, claim, Claim, completed,
  rescheduled, retried, dead, finish_success, retry, fail,
}
use bikenest.Jobs.Worker.{Run, Config, message, after_success, run_job, run_batch, poll}

-- A row that a job in the list still answers for, or that is not the worker's.
abbrev Answered : Text → List Job → Job → Type 0
Answered worker jobs r = same_text r.claimed_by worker ≡ true → picked jobs r ≡ true

abbrev pub NotHeldBy : Text → Job → Type 0
NotHeldBy worker r = same_text r.claimed_by worker ≡ false

module _ (cron : Cron) (config : Config) (worker : Text) where
  -- Whatever the outcome, the job's row is written once and let go.
  pub record Update (job : Job) (t u : Table) : Type 0 where
    pub set : Job → Job
    pub lets_go : (j : Job) → (set j).claimed_by ≡ none
    pub keeps_id : (j : Job) → (set j).id ≡ j.id
    pub written : u ≡ update_where (owned job.id worker) set t

  fail-Update :
      (job : Job) (now : ℕ) (m : Message) (t : Table) → Update job t (fail now job.id worker m t)
  unfolding fail
  fail-Update job now m t = record {
    set = dead now m;
    lets_go = λ j. refl;
    keeps_id = λ j. refl;
    written = refl;
  }

  retry-Update :
      (job : Job) (m : Message) (run_at : ℕ) (t : Table)
      → Update job t (retry job.id worker m run_at t)
  unfolding retry
  retry-Update job m run_at t = record {
    set = retried m run_at;
    lets_go = λ j. refl;
    keeps_id = λ j. refl;
    written = refl;
  }

  finish-Update :
      (job : Job) (next : Option ℕ) (now : ℕ) (t : Table)
      → Update job t (finish_success job.id worker next now t)
  unfolding finish_success
  finish-Update job none now t = record {
    set = completed now;
    lets_go = λ j. refl;
    keeps_id = λ j. refl;
    written = refl;
  }
  finish-Update job (some n) now t = record {
    set = rescheduled n now;
    lets_go = λ j. refl;
    keeps_id = λ j. refl;
    written = refl;
  }

  success-Update :
      (job : Job) (now : ℕ) (n : NextRun) (t : Table)
      → Update job t (after_success cron config worker job now n t)
  unfolding after_success
  success-Update job now (run next) t = finish-Update job next now t
  success-Update job now (invalid e) t = fail-Update job now (message e) t

  result-Update :
      (job : Job) (o : Option Outcome) (now jitter : ℕ) (t : Table)
      → Update job t
          (run_job cron config worker job (record { result = o; now = now; jitter = jitter }) t)
  unfolding run_job
  result-Update job none now jitter t = fail-Update job now _ t
  result-Update job (some done) now jitter t =
      success-Update job now (next_run_at cron job.schedule now) t
  result-Update job (some (stopped (failed_job e))) now jitter t =
      elim (Bool-cases (ltb job.attempts job.max_attempts)) [
        | inl h ↦ rw h (retry-Update job e _ t)
        | inr h ↦ rw h (fail-Update job now e t)
      ]
  result-Update job (some (stopped (permanent e))) now jitter t = fail-Update job now e t

  run_job-Update :
      (job : Job) (r : Run) (t : Table) → Update job t (run_job cron config worker job r t)
  run_job-Update job r t = result-Update job r.result r.now r.jitter t

  update-Answered :
      (job : Job) (jobs : List Job) (f : Job → Job)
      → ((j : Job) → (f j).claimed_by ≡ none)
      → (x : Job) → Answered worker (job ∷ jobs) x
      → Answered worker jobs (if owned job.id worker x then f x else x)
  update-Answered job jobs f gone x h = elim (Bool-cases (owned job.id worker x)) [
    | inl e ↦ rw e (λ q. absurd (ground (arith, gone x)))
    | inr e ↦ rw e (λ q. ground (arith, h q))
  ]

  run_batch-Answered :
      (jobs : List Job) (runs : Job → Run) (t : Table)
      → All (Answered worker jobs) t
      → All (NotHeldBy worker) (run_batch cron config worker jobs runs t)
  unfolding run_batch
  run_batch-Answered [] runs t h = All-of_In (NotHeldBy worker) t λ x i.
      let a : Answered worker [] x = All-In (Answered worker []) t h i in
      elim (Bool-cases (same_text x.claimed_by worker)) [
        | inl e ↦ absurd (ground (arith, a e))
        | inr e ↦ e
      ]
  run_batch-Answered (job ∷ jobs) runs t h =
      let u = run_job-Update job (runs job) t in
      run_batch-Answered jobs runs (run_job cron config worker job (runs job) t) (
        rw u.written (
          All-map-In (Answered worker jobs) (λ x. if owned job.id worker x then u.set x else x) t
            λ x i.
              update-Answered job jobs u.set u.lets_go x
                (All-In (Answered worker (job ∷ jobs)) t h i)))

  claim-Answered :
      (c : Claim) (t : Table)
      → c.worker ≡ worker
      → All (NotHeldBy worker) t
      → All (Answered worker (claim c t).0) (claim c t).1
  unfolding claim
  claim-Answered c t mine h =
      All-map-In (Answered worker (claim c t).0)
        (λ x. if picked (candidates c t) x then start c x else x) t
        λ x i. elim (Bool-cases (picked (candidates c t) x)) [
          | inl e ↦ rw e λ q.
              In-any (λ y. y.id == (start c x).id)
                (map (start c) (filter (picked (candidates c t)) t))
                (In-map (start c) _ (In-filter_of (picked (candidates c t)) t e i))
                (==_refl (start c x).id)
          | inr e ↦ rw e λ q. absurd (ground (arith, q, All-In (NotHeldBy worker) t h i))
        ]

  -- One round of the worker's loop, whatever the table, the rows that others have locked, and the
  -- results of the handlers: if no row was in the worker's name before, none is after it.
  pub poll_lets_go :
      (now : ℕ) (locked : ℕ → Bool) (runs : Job → Run) (t : Table)
      → All (NotHeldBy worker) t
      → All (NotHeldBy worker) (poll cron config worker now locked runs t)
  unfolding poll
  poll_lets_go now locked runs t h = run_batch-Answered _ runs _ (claim-Answered _ t refl h)
