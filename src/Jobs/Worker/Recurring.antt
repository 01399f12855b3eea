-- ===== src/Jobs/Worker/Recurring.antt =====
-- crates/infrastructure/src/job/worker.rs: the recurring kinds, what bootstrap enqueues and how its
-- rows end.
use bikenest.Base.{
  ℕ, ◌+◌, ◌≡◌, refl, ap, Bool, true, List, [], ◌∷◌, Option, none, some, inl, inr, if◌then◌else◌,
  Bool-cases, filter, any, All,
}
use bikenest.Base.Members.{
  In, In-any, any-In, In-append_left, In-append_right, here, All-append, All-filter, All-map,
  All-In,
}
use bikenest.Base.Text.{Text, text_eq_refl}
use bikenest.Base.Json.{Json}
use bikenest.Jobs.{Job, done}
use bikenest.Jobs.Schedule.{Cron, next_run_at}
use bikenest.Jobs.Repo.{
  Table, has_key, enqueue, Claim, candidates, picked, start, update_where, claim, owned, beats,
  beat, heartbeat, completed, rescheduled, finish_success, retried, retry, dead, fail, stays, gc,
}
use bikenest.Jobs.Repo.Ops.{
  Op, enqueues, claims, heartbeats, succeeds, retries, fails, collects, Queue, step, steps,
}
use bikenest.Jobs.Worker.{Config, after_success, run_job, RecurringKind, bootstrap}

abbrev pub Unscheduled : Job → Type 0
Unscheduled j = j.schedule ≡ none

update-Unscheduled :
    (p : Job → Bool) (f : Job → Job)
    → ((j : Job) → Unscheduled j → Unscheduled (f j))
    → (t : Table) → All Unscheduled t
    → All Unscheduled (update_where p f t)
update-Unscheduled p f keeps t h =
    All-map Unscheduled (λ j. if p j then f j else j) t
      (λ j u. elim (Bool-cases (p j)) [ inl e ↦ rw e (keeps j u) | inr e ↦ rw e u ]) h

step-Unscheduled : (o : Op) (q : Queue) → All Unscheduled q.rows → All Unscheduled (step o q).rows
unfolding step enqueue claim start heartbeat finish_success retry fail gc
step-Unscheduled (enqueues kind payload run_at m key) q h =
    elim (Bool-cases (any (has_key key) q.rows)) [
      | inl e ↦ rw e h
      | inr e ↦ rw e (All-append Unscheduled q.rows _ h (refl, tt))
    ]
step-Unscheduled (claims c) q h =
    update-Unscheduled (picked (candidates c q.rows)) (start c) (λ j u. u) q.rows h
step-Unscheduled (heartbeats now id w secs) q h =
    update-Unscheduled (beats id w) (beat now secs) (λ j u. u) q.rows h
step-Unscheduled (succeeds id w none now) q h =
    update-Unscheduled (owned id w) (completed now) (λ j u. u) q.rows h
step-Unscheduled (succeeds id w (some n) now) q h =
    update-Unscheduled (owned id w) (rescheduled n now) (λ j u. u) q.rows h
step-Unscheduled (retries id w e run_at) q h =
    update-Unscheduled (owned id w) (retried e run_at) (λ j u. u) q.rows h
step-Unscheduled (fails now id w e) q h =
    update-Unscheduled (owned id w) (dead now e) (λ j u. u) q.rows h
step-Unscheduled (collects cutoff) q h = All-filter Unscheduled (stays cutoff) q.rows h

steps-Unscheduled :
    (os : List Op) (q : Queue) → All Unscheduled q.rows → All Unscheduled (steps os q).rows
unfolding steps
steps-Unscheduled [] q h = h
steps-Unscheduled (o ∷ os) q h = steps-Unscheduled os (step o q) (step-Unscheduled o q h)

claimed-Unscheduled : (c : Claim) (t : Table) → All Unscheduled t → All Unscheduled (claim c t).0
unfolding claim start
claimed-Unscheduled c t h =
    All-map Unscheduled (start c) (filter (picked (candidates c t)) t) (λ j u. u)
      (All-filter Unscheduled (picked (candidates c t)) t h)

run_job-Unscheduled :
    (cron : Cron) (config : Config) (worker : Text) (job : Job) (now jitter : ℕ) (t : Table)
    → Unscheduled job
    → run_job cron config worker job (record { result = some done; now = now; jitter = jitter }) t
      ≡ finish_success job.id worker none now t
unfolding run_job after_success next_run_at
run_job-Unscheduled cron config worker job now jitter t u =
    ap (λ s. after_success cron config worker job now (next_run_at cron s now) t) u

-- Of a queue that no row of which has a schedule (an empty one is such), whatever operations it goes
-- through: a job that is then claimed and succeeds is finished as a one-shot job, and so is every
-- recurring one, since no operation writes a schedule.
pub run_job_once :
    (cron : Cron) (config : Config) (worker : Text) (os : List Op) (q : Queue) (c : Claim)
    (job : Job) (now jitter : ℕ) (t : Table)
    → All Unscheduled q.rows
    → In job (claim c (steps os q).rows).0
    → run_job cron config worker job (record { result = some done; now = now; jitter = jitter }) t
      ≡ finish_success job.id worker none now t
run_job_once cron config worker os q c job now jitter t h i =
    run_job-Unscheduled cron config worker job now jitter t (
      All-In Unscheduled (claim c (steps os q).rows).0
        (claimed-Unscheduled c (steps os q).rows (steps-Unscheduled os q h)) i)

abbrev keyed : Text → Table → Bool
keyed key = any (has_key (some key))

-- Every kind has a row under its key.
abbrev AllKeyed : List RecurringKind → Table → Type 0
AllKeyed ks t = All (λ k. keyed k.idempotency_key t ≡ true) ks

enqueue_keeps :
    (id : ℕ) (kind : Text) (payload : Json) (run_at : ℕ) (m : Option ℕ) (key : Text) (t : Table)
    (k : Text)
    → keyed k t ≡ true
    → keyed k (enqueue id kind payload run_at m (some key) t).1 ≡ true
unfolding enqueue
enqueue_keeps id kind payload run_at m key t k h = elim (Bool-cases (keyed key t)) [
  | inl e ↦ rw e h
  | inr e ↦
      let (j, i, q) = any-In (has_key (some k)) t h in
      rw e (In-any (has_key (some k)) _ (In-append_left _ i) q)
]

enqueue_keys :
    (id : ℕ) (kind : Text) (payload : Json) (run_at : ℕ) (m : Option ℕ) (key : Text) (t : Table)
    → keyed key (enqueue id kind payload run_at m (some key) t).1 ≡ true
unfolding enqueue
enqueue_keys id kind payload run_at m key t = elim (Bool-cases (keyed key t)) [
  | inl e ↦ rw e e
  | inr e ↦ rw e (In-any (has_key (some key)) _ (In-append_right t (here refl)) (text_eq_refl key))
]

bootstrap_keeps :
    (now id : ℕ) (ks : List RecurringKind) (t : Table) (k : Text)
    → keyed k t ≡ true
    → keyed k (bootstrap now id ks t) ≡ true
unfolding bootstrap
bootstrap_keeps now id [] t k h = h
bootstrap_keeps now id (r ∷ ks) t k h =
    bootstrap_keeps now (id + 1) ks _ k
      (enqueue_keeps id r.job_kind r.payload now _ r.idempotency_key t k h)

bootstrap_keys :
    (now id : ℕ) (ks : List RecurringKind) (t : Table) → AllKeyed ks (bootstrap now id ks t)
unfolding bootstrap
bootstrap_keys now id [] t = tt
bootstrap_keys now id (r ∷ ks) t = (
  bootstrap_keeps now (id + 1) ks _ r.idempotency_key
      (enqueue_keys id r.job_kind r.payload now _ r.idempotency_key t),
  bootstrap_keys now (id + 1) ks _,
)

bootstrap_keyed :
    (now id : ℕ) (ks : List RecurringKind) (t : Table) → AllKeyed ks t → bootstrap now id ks t ≡ t
unfolding bootstrap enqueue
bootstrap_keyed now id [] t h = refl
bootstrap_keyed now id (r ∷ ks) t h = rw (h.0) (bootstrap_keyed now (id + 1) ks t h.1)

-- Bootstrap is idempotent: after one worker's, another's changes nothing, whenever it runs; each
-- kind then has a row under its key.
pub bootstrap_again :
    (now id now' id' : ℕ) (ks : List RecurringKind) (t : Table)
    → AllKeyed ks (bootstrap now id ks t)
      × (bootstrap now' id' ks (bootstrap now id ks t) ≡ bootstrap now id ks t)
bootstrap_again now id now' id' ks t = (
  bootstrap_keys now id ks t,
  bootstrap_keyed now' id' ks (bootstrap now id ks t) (bootstrap_keys now id ks t),
)
