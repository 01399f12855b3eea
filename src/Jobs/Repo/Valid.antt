-- ===== src/Jobs/Repo/Valid.antt =====
-- crates/infrastructure/src/job/repo.rs: the invariant of the table.
use bikenest.Base.{
  ℕ, suc, ◌≤◌, ◌≡◌, refl, Bool, true, List, [], ◌∷◌, ◌++◌, Option, none, some, inl, inr, arith,
  if◌then◌else◌, Bool-cases, is_some, filter, any, All,
}
use bikenest.Base.Members.{All-append, All-filter, All-map}
use bikenest.Base.Text.{Text}
use bikenest.Base.Json.{Json}
use bikenest.Jobs.{Job}
use bikenest.Jobs.Repo.{
  Table, is_running, has_key, enqueue, Claim, candidates, picked, start, update_where, claim,
  heartbeat, finish_success, retry, fail, gc,
}
use bikenest.Jobs.Repo.Ops.{
  Op, enqueues, claims, heartbeats, succeeds, retries, fails, collects, Queue, step, steps,
}

-- A row has an owner, a lease and a heartbeat exactly while it runs, and has then been attempted.
pub record RowOk (j : Job) : Type 0 where
  pub claimed : is_some j.claimed_by ≡ is_running j.state
  pub leased : is_some j.lease_expires_at ≡ is_running j.state
  pub beating : is_some j.heartbeat_at ≡ is_running j.state
  pub attempted : is_running j.state ≡ true → 1 ≤ j.attempts

-- The ids rise from a bound, below the next one.
abbrev pub Ids : ℕ → ℕ → Table → Type 0
Ids lo next [] = lo ≤ next
Ids lo next (j ∷ t) = (lo ≤ j.id) × Ids (suc j.id) next t

pub record IsValid (q : Queue) : Type 0 where
  pub rows_ok : All RowOk q.rows
  pub ids : Ids 0 q.next_id q.rows

-- A change of some rows that keeps their ids.
Ids-update :
    (p : Job → Bool) (f : Job → Job)
    → ((j : Job) → (f j).id ≡ j.id)
    → (lo next : ℕ) (t : Table) → Ids lo next t
    → Ids lo next (update_where p f t)
Ids-update p f same lo next [] h = h
Ids-update p f same lo next (j ∷ t) h =
    ground (arith, same j, Ids-update p f same (suc j.id) next t h.1)

Ids-weaken : (lo hi next : ℕ) (t : Table) → lo ≤ hi → Ids hi next t → Ids lo next t
Ids-weaken lo hi next [] h i = omega arith
Ids-weaken lo hi next (j ∷ t) h i = (omega arith, i.1)

Ids-filter : (p : Job → Bool) (lo next : ℕ) (t : Table) → Ids lo next t → Ids lo next (filter p t)
Ids-filter p lo next [] h = h
Ids-filter p lo next (j ∷ t) h = elim (Bool-cases (p j)) [
  | inl e ↦ rw e (h.0, Ids-filter p (suc j.id) next t h.1)
  | inr e ↦ rw e (Ids-filter p lo next t (Ids-weaken lo (suc j.id) next t (omega arith) h.1))
]

Ids-append :
    (lo next : ℕ) (t : Table) (j : Job)
    → j.id ≡ next
    → Ids lo next t
    → Ids lo (suc next) (t ++ j ∷ [])
Ids-append lo next [] j e h = omega arith
Ids-append lo next (x ∷ t) j e h = (h.0, Ids-append (suc x.id) next t j e h.1)

Ids-later : (lo next : ℕ) (t : Table) → Ids lo next t → Ids lo (suc next) t
Ids-later lo next [] h = omega arith
Ids-later lo next (j ∷ t) h = (h.0, Ids-later (suc j.id) next t h.1)

RowOk-update :
    (p : Job → Bool) (f : Job → Job) (j : Job)
    → (p j ≡ true → RowOk j → RowOk (f j))
    → RowOk j
    → RowOk (if p j then f j else j)
RowOk-update p f j k r = elim (Bool-cases (p j)) [ inl e ↦ rw e (k e r) | inr e ↦ rw e r ]

All-update :
    (p : Job → Bool) (f : Job → Job) (t : Table)
    → ((j : Job) → p j ≡ true → RowOk j → RowOk (f j))
    → All RowOk t
    → All RowOk (update_where p f t)
All-update p f t k h =
    All-map RowOk (λ j. if p j then f j else j) t (λ j r. RowOk-update p f j (k j) r) h

enqueue-IsValid :
    (kind : Text) (payload : Json) (run_at : ℕ) (m : Option ℕ) (key : Option Text) (q : Queue)
    → IsValid q
    → IsValid (step (enqueues kind payload run_at m key) q)
unfolding step enqueue
enqueue-IsValid kind payload run_at m key q v = elim (Bool-cases (any (has_key key) q.rows)) [
  | inl e ↦ rw e (record { rows_ok = v.rows_ok; ids = Ids-later 0 q.next_id q.rows v.ids })
  | inr e ↦ rw e (record {
    rows_ok = All-append RowOk q.rows _ v.rows_ok (
      record { claimed = refl; leased = refl; beating = refl; attempted = λ h. ground arith },
      tt,
    );
    ids = Ids-append 0 q.next_id q.rows _ refl v.ids;
  })
]

module _ (p : Job → Bool) (f : Job → Job) (keeps : (j : Job) → p j ≡ true → RowOk j → RowOk (f j))
    (same : (j : Job) → (f j).id ≡ j.id) where
  update-IsValid : (q : Queue) → IsValid q → IsValid (record q { rows = update_where p f q.rows })
  update-IsValid q v = record {
    rows_ok = All-update p f q.rows keeps v.rows_ok;
    ids = Ids-update p f same 0 q.next_id q.rows v.ids;
  }

start-RowOk : (c : Claim) (j : Job) → RowOk (start c j)
unfolding start
start-RowOk c j = record {
  claimed = refl;
  leased = refl;
  beating = refl;
  attempted = λ h. omega arith;
}

start-id : (c : Claim) (j : Job) → (start c j).id ≡ j.id
unfolding start
start-id c j = refl

-- Every operation, by whichever worker and at whatever instant, keeps the table valid.
pub step-IsValid : (o : Op) (q : Queue) → IsValid q → IsValid (step o q)
unfolding step claim heartbeat finish_success retry fail gc
step-IsValid (enqueues kind payload run_at m key) q v =
    enqueue-IsValid kind payload run_at m key q v
step-IsValid (claims c) q v =
    update-IsValid (picked (candidates c q.rows)) (start c) (λ j e r. start-RowOk c j) (start-id c)
      q v
step-IsValid (heartbeats now id w secs) q v =
    update-IsValid _ _ (λ j e r. ground arith) (λ j. refl) q v
step-IsValid (succeeds id w none finished) q v =
    update-IsValid _ _
      (λ j e r. record {
        claimed = refl;
        leased = refl;
        beating = refl;
        attempted = λ h. ground arith;
      })
      (λ j. refl) q v
step-IsValid (succeeds id w (some n) finished) q v =
    update-IsValid _ _
      (λ j e r. record {
        claimed = refl;
        leased = refl;
        beating = refl;
        attempted = λ h. ground arith;
      })
      (λ j. refl) q v
step-IsValid (retries id w e run_at) q v =
    update-IsValid _ _
      (λ j e r. record {
        claimed = refl;
        leased = refl;
        beating = refl;
        attempted = λ h. ground arith;
      })
      (λ j. refl) q v
step-IsValid (fails now id w e) q v =
    update-IsValid _ _
      (λ j e r. record {
        claimed = refl;
        leased = refl;
        beating = refl;
        attempted = λ h. ground arith;
      })
      (λ j. refl) q v
step-IsValid (collects cutoff) q v = record {
  rows_ok = All-filter RowOk _ q.rows v.rows_ok;
  ids = Ids-filter _ 0 q.next_id q.rows v.ids;
}

pub steps-IsValid : (os : List Op) (q : Queue) → IsValid q → IsValid (steps os q)
unfolding steps
steps-IsValid [] q v = v
steps-IsValid (o ∷ os) q v = steps-IsValid os (step o q) (step-IsValid o q v)
