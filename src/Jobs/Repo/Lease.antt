-- ===== src/Jobs/Repo/Lease.antt =====
-- crates/infrastructure/src/job/repo.rs: a leased row, among the operations of other workers.
use bikenest.Base.{
  ℕ, ◌≤◌, ◌≡◌, ap, subst, Bool, false, List, [], ◌∷◌, none, some, inl, inr, arith, if◌then◌else◌,
  Bool-cases, any,
}
use bikenest.Base.Members.{In, In-append_left, In-filter_of, In-map}
use bikenest.Base.Text.{Text, text_eq}
use bikenest.Jobs.{Job, running}
use bikenest.Jobs.Repo.{
  Table, has_key, enqueue, Claim, claimable, candidates, picked, start, update_where, claim, owned,
  beats, beat, heartbeat, completed, rescheduled, finish_success, retried, retry, dead, fail, stays,
  gc,
}
use bikenest.Jobs.Repo.Ops.{
  Op, enqueues, claims, heartbeats, succeeds, retries, fails, collects, Queue, step, steps,
}
use bikenest.Jobs.Repo.Valid.{IsValid, step-IsValid}
use bikenest.Jobs.Repo.Claims.{picked-claimable}

-- The row runs for a worker, under a lease up to an instant.
pub record Held (worker : Text) (lease : ℕ) (j : Job) : Type 0 where
  pub runs : j.state ≡ running
  pub owner : j.claimed_by ≡ some worker
  pub until : j.lease_expires_at ≡ some lease

-- What others do while the lease lasts: they claim no later than its end, and write in their name.
abbrev pub Foreign : Text → ℕ → Op → Type 0
Foreign w lease (enqueues _ _ _ _ _) = Unit {0}
Foreign w lease (claims c) = c.now ≤ lease
Foreign w lease (heartbeats _ _ v _) = text_eq w v ≡ false
Foreign w lease (succeeds _ v _ _) = text_eq w v ≡ false
Foreign w lease (retries _ v _ _) = text_eq w v ≡ false
Foreign w lease (fails _ _ v _) = text_eq w v ≡ false
Foreign w lease (collects _) = Unit {0}

abbrev pub AllForeign : Text → ℕ → List Op → Type 0
AllForeign w lease [] = Unit {0}
AllForeign w lease (o ∷ os) = Foreign w lease o × AllForeign w lease os

In-update :
    {j : Job} (p : Job → Bool) (f : Job → Job) (t : Table)
    → p j ≡ false
    → In j t
    → In j (update_where p f t)
In-update {j} p f t e i =
    subst (λ x. In x (update_where p f t)) (ap (λ b. if b then f j else j) e)
      (In-map (λ x. if p x then f x else x) t i)

module _ (w : Text) (lease : ℕ) (j : Job) (h : Held w lease j) where
  not_owned : (id : ℕ) (v : Text) → text_eq w v ≡ false → owned id v j ≡ false
  not_owned id v e = ground (arith, h.owner)

  not_claimable : (c : Claim) → c.now ≤ lease → claimable c j ≡ false
  unfolding claimable
  not_claimable c le = ground (arith, h.runs, h.until)

  not_picked :
      (c : Claim) (q : Queue)
      → IsValid q
      → In j q.rows
      → c.now ≤ lease
      → picked (candidates c q.rows) j ≡ false
  not_picked c q v i le = elim (Bool-cases (picked (candidates c q.rows) j)) [
    | inl e ↦
        absurd (ground (arith, picked-claimable c 0 q.next_id q.rows v.ids i e, not_claimable c le))
    | inr e ↦ e
  ]

  step-held :
      (o : Op) (q : Queue) → IsValid q → In j q.rows → Foreign w lease o → In j (step o q).rows
  unfolding step enqueue claim heartbeat finish_success retry fail gc
  step-held (enqueues kind payload run_at m key) q v i f =
      elim (Bool-cases (any (has_key key) q.rows)) [
        | inl e ↦ rw e i
        | inr e ↦ rw e (In-append_left _ i)
      ]
  step-held (claims c) q v i f =
      In-update (picked (candidates c q.rows)) (start c) q.rows (not_picked c q v i f) i
  step-held (heartbeats now id u secs) q v i f =
      In-update (beats id u) (beat now secs) q.rows (ground (arith, not_owned id u f)) i
  step-held (succeeds id u none finished) q v i f =
      In-update (owned id u) (completed finished) q.rows (not_owned id u f) i
  step-held (succeeds id u (some n) finished) q v i f =
      In-update (owned id u) (rescheduled n finished) q.rows (not_owned id u f) i
  step-held (retries id u e run_at) q v i f =
      In-update (owned id u) (retried e run_at) q.rows (not_owned id u f) i
  step-held (fails now id u e) q v i f =
      In-update (owned id u) (dead now e) q.rows (not_owned id u f) i
  step-held (collects cutoff) q v i f =
      In-filter_of (stays cutoff) q.rows (ground (arith, h.runs)) i

  -- In a valid table, whatever sequence of operations other workers run while the lease lasts
  -- (claims no later than its end, and any late write of a worker that has lost its lease), the row
  -- of the owner stands in the table unchanged.
  pub steps-held :
      (os : List Op) (q : Queue)
      → IsValid q
      → In j q.rows
      → AllForeign w lease os
      → In j (steps os q).rows
  unfolding steps
  steps-held [] q v i f = i
  steps-held (o ∷ os) q v i f =
      steps-held os (step o q) (step-IsValid o q v) (step-held o q v i f.0) f.1
