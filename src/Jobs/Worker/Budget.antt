-- ===== src/Jobs/Worker/Budget.antt =====
-- crates/infrastructure/src/job/worker.rs: the attempts of one job over rounds that fail or crash.
use bikenest.Base.{
  ℕ, zero, suc, ◌+◌, ◌*◌, ◌≤◌, ◌<◌, ◌≡◌, refl, ap, ap₂, ◌∙◌, Bool, true, false, List, [], ◌∷◌, none,
  some, arith, ltb, ==_refl, if◌then◌else◌, Bool-cases, inl, inr, filter, take, map,
}
use bikenest.Base.Text.{Text, text_eq_refl}
use bikenest.Base.Int.{shift}
use bikenest.Jobs.{Message, failed_job, stopped, Job, JobState, pending, running, failed}
use bikenest.Jobs.Schedule.{Cron, backoff_ms, as_signed}
use bikenest.Jobs.Repo.{
  Table, claimable, Claim, start, claim, candidates, sort_jobs, picked, update_where, retried, dead,
  retry, fail,
}
use bikenest.Jobs.Worker.{Run, Config, run_batch, poll}

filter_one {ℓ} : {A : Type ℓ} (p : A → Bool) (a : A) → p a ≡ true → filter p (a ∷ []) ≡ a ∷ []
filter_one p a h = rw h

take_one {ℓ} : {A : Type ℓ} (n : ℕ) (a : A) → 0 < n → take n (a ∷ []) ≡ a ∷ []
take_one zero a h = elim h [ ]
take_one (suc zero) a h = refl
take_one (suc (suc n)) a h = refl

candidates_one :
    (c : Claim) (j : Job) → claimable c j ≡ true → 0 < c.batch → candidates c (j ∷ []) ≡ j ∷ []
unfolding candidates
candidates_one c j h b =
    ap (λ l. take c.batch (sort_jobs l)) (filter_one (claimable c) j h) ∙ take_one c.batch j b

picked_one : (j : Job) → picked (j ∷ []) j ≡ true
picked_one j = rw (==_refl j.id)

claim_by : Claim → Table → Table → Table × Table
claim_by c chosen t =
    (map (start c) (filter (picked chosen) t), update_where (picked chosen) (start c) t)

claim_by_one :
    (c : Claim) (j : Job) → claim_by c (j ∷ []) (j ∷ []) ≡ (start c j ∷ [], start c j ∷ [])
unfolding claim_by
claim_by_one c j = rw (picked_one j)

-- On a table of one row that may be claimed, a claim with room in its batch takes it.
claim_one :
    (c : Claim) (j : Job)
    → claimable c j ≡ true
    → 0 < c.batch
    → claim c (j ∷ []) ≡ (start c j ∷ [], start c j ∷ [])
unfolding claim claim_by
claim_one c j h b = ap (λ l. claim_by c l (j ∷ [])) (candidates_one c j h b) ∙ claim_by_one c j

-- What a row shows of its progress.
abbrev pub status : Table → List (JobState × ℕ)
status = map λ j. (j.state, j.attempts)

-- What is shown after as many attempts, out of as many.
abbrev progress : ℕ → ℕ → List (JobState × ℕ)
progress attempts budget = (if ltb attempts budget then pending else failed, attempts) ∷ []

module _ (cron : Cron) (config : Config) (worker : Text) (room : 0 < config.batch_size)
    (error : Message) (jitter : ℕ) where
  -- A run that fails, as every run of the job does.
  abbrev failing : ℕ → Job → Run
  failing now j = record { result = some (stopped (failed_job error)); now = now; jitter = jitter }

  -- A round of the worker at the instant at which the row is due.
  pub failing_round : Table → Table
  failing_round [] = []
  failing_round (j ∷ t) = poll cron config worker j.run_at (λ _. false) (failing j.run_at) (j ∷ t)

  pub failing_rounds : ℕ → Table → Table
  failing_rounds zero t = t
  failing_rounds (suc n) t = failing_rounds n (failing_round t)

  -- A job that its last run may still be: claimed, it fails into a retry or into a dead letter.
  abbrev claim_at : ℕ → Claim
  claim_at now = record {
    now = now;
    locked = λ _. false;
    batch = config.batch_size;
    worker = worker;
    lease_secs = config.lease_secs;
    kinds = none;
  }

  due_claimable : (j : Job) → j.state ≡ pending → claimable (claim_at j.run_at) j ≡ true
  unfolding claimable
  due_claimable j h = rw h (ground arith)

  -- The row after one failing round.
  abbrev next_row : Job → Job
  next_row j =
      if ltb (j.attempts + 1) j.max_attempts
      then retried error
          (shift j.run_at (as_signed (backoff_ms (j.attempts + 1) config.backoff_base_ms jitter)))
          (start (claim_at j.run_at) j)
      else dead j.run_at error (start (claim_at j.run_at) j)

  run_failing :
      (j : Job)
      → run_batch cron config worker
          (start (claim_at j.run_at) j ∷ [])
          (failing j.run_at)
          (start (claim_at j.run_at) j ∷ [])
        ≡ next_row j ∷ []
  unfolding run_batch start retry fail
  run_failing j = rw (==_refl j.id, text_eq_refl worker) (ground arith)

  failing_round_one : (j : Job) → j.state ≡ pending → failing_round (j ∷ []) ≡ next_row j ∷ []
  unfolding failing_round poll
  failing_round_one j h =
      ap (λ p. run_batch cron config worker p.0 (failing j.run_at) p.1)
        (claim_one (claim_at j.run_at) j (due_claimable j h) room)
      ∙ run_failing j

  -- One round, by whether an attempt is left after it.
  failing_round_left :
      (j : Job)
      → j.state ≡ pending
      → j.attempts + 1 < j.max_attempts
      → (r : Job) × (failing_round (j ∷ []) ≡ r ∷ [])
        × (r.state ≡ pending)
        × (r.attempts ≡ j.attempts + 1)
        × (r.max_attempts ≡ j.max_attempts)
  unfolding start
  failing_round_left j h left = (
    retried error
        (shift j.run_at (as_signed (backoff_ms (j.attempts + 1) config.backoff_base_ms jitter)))
        (start (claim_at j.run_at) j),
    failing_round_one j h ∙ ground arith,
    refl,
    refl,
    refl,
  )

  failing_round_last :
      (j : Job)
      → j.state ≡ pending
      → j.attempts + 1 ≡ j.max_attempts
      → status (failing_round (j ∷ [])) ≡ (failed, j.attempts + 1) ∷ []
  unfolding start
  failing_round_last j h last = rw (failing_round_one j h) (ground arith)

  -- A job that fails at each run, alone in the table: while its retry budget lasts the row is pending
  -- again after a round, and the round in which the attempts reach `max_attempts` leaves it `failed`.
  pub failing_rounds-status :
      (n : ℕ) (j : Job)
      → j.state ≡ pending
      → j.attempts < j.max_attempts
      → j.attempts + n ≤ j.max_attempts
      → status (failing_rounds n (j ∷ []))
        ≡ (if ltb (j.attempts + n) j.max_attempts then pending else failed, j.attempts + n) ∷ []
  unfolding failing_rounds
  failing_rounds-status zero j h lt le = (ground arith)
  failing_rounds-status (suc zero) j h lt le =
      elim (Bool-cases (ltb (j.attempts + 1) j.max_attempts)) [
        | inl e ↦
            let (r, q, p, a, m) = failing_round_left j h (ground arith) in
            rw (q, p, a) (ground arith)
        | inr e ↦ failing_round_last j h (ground arith) ∙ ground arith
      ]
  failing_rounds-status (suc (suc n)) j h lt le =
      let (r, e, p, a, m) = failing_round_left j h (omega arith) in
      ap (λ t. status (failing_rounds (suc n) t)) e
      ∙ failing_rounds-status (suc n) r p (omega arith) (omega arith)
      ∙ ap₂ progress (rw a (omega arith)) m

  -- A run that ends with its worker: the next claim is once the lease has run out.
  pub crash_rounds : ℕ → ℕ → Table → Table
  crash_rounds zero now t = t
  crash_rounds (suc n) now t =
      crash_rounds n (now + config.lease_secs * 1000 + 1) (claim (claim_at now) t).1

  start_run_at :
      (now : ℕ) (j : Job)
      → j.run_at ≤ now
      → (start (claim_at now) j).run_at ≤ now + config.lease_secs * 1000 + 1
  unfolding start
  start_run_at now j le = omega arith

  crash_round_again :
      (now : ℕ) (j : Job)
      → j.run_at ≤ now
      → claimable (claim_at (now + config.lease_secs * 1000 + 1)) (start (claim_at now) j) ≡ true
  unfolding claimable start
  crash_round_again now j le = ground arith

  -- A job whose every run takes its worker down is claimed again after each lease, and its attempts
  -- rise at each round: `max_attempts` is no bound on them.
  pub crash_rounds-status :
      (n now : ℕ) (j : Job)
      → j.run_at ≤ now
      → claimable (claim_at now) j ≡ true
      → status (crash_rounds (suc n) now (j ∷ [])) ≡ (running, j.attempts + suc n) ∷ []
  unfolding crash_rounds start
  crash_rounds-status zero now j le h = ap (λ p. status p.1) (claim_one (claim_at now) j h room)
  crash_rounds-status (suc n) now j le h =
      ap (λ p. status (crash_rounds (suc n) (now + config.lease_secs * 1000 + 1) p.1))
        (claim_one (claim_at now) j h room)
      ∙ crash_rounds-status n (now + config.lease_secs * 1000 + 1) (start (claim_at now) j)
          (start_run_at now j le) (crash_round_again now j le)
      ∙ ap (λ k. (running, k) ∷ []) (omega arith)
