-- ===== src/Jobs/Repo/Order.antt =====
-- crates/infrastructure/src/job/repo.rs: which rows a claim takes first, and which it cannot miss.
use bikenest.Base.{
  ℕ, zero, suc, ◌≤◌, ◌<◌, ◌≡◌, refl, ap, Bool, true, false, ◌&&◌, ◌||◌, [], ◌∷◌, ◌⊎◌, inl, inr,
  arith, ltb, leb, ◌==◌, ==_refl, Bool-cases, length, take, filter, All,
}
use bikenest.Base.Members.{In, here, there, not-In-nil, In-filter_of, In-any, All-In, In-map}
use bikenest.Jobs.{Job}
use bikenest.Jobs.Repo.{
  Table, Claim, claimable, comes_first, insert_job, sort_jobs, candidates, picked, start, claim,
}
use bikenest.Jobs.Repo.Claims.{In-sort_jobs_of}

-- The rows before one another.
abbrev Sorted : Table → Type 0
Sorted [] = Unit {0}
Sorted (a ∷ l) = All (λ b. comes_first a b ≡ true) l × Sorted l

comes_first_trans :
    (a b c : Job) → comes_first a b ≡ true → comes_first b c ≡ true → comes_first a c ≡ true
unfolding comes_first
comes_first_trans a b c h k = ground arith

comes_first_total : (a b : Job) → comes_first a b ≡ false → comes_first b a ≡ true
unfolding comes_first
comes_first_total a b h = ground arith

All-comes_first :
    (a b : Job) (l : Table)
    → comes_first a b ≡ true
    → All (λ x. comes_first b x ≡ true) l
    → All (λ x. comes_first a x ≡ true) l
All-comes_first a b [] h k = tt
All-comes_first a b (x ∷ l) h k = (comes_first_trans a b x h k.0, All-comes_first a b l h k.1)

All-insert_job : (P : Job → Type 0) (a : Job) (l : Table) → P a → All P l → All P (insert_job a l)
unfolding insert_job
All-insert_job P a [] p h = (p, tt)
All-insert_job P a (b ∷ l) p h = elim (Bool-cases (comes_first a b)) [
  | inl e ↦ rw e (p, h)
  | inr e ↦ rw e (h.0, All-insert_job P a l p h.1)
]

insert_job-Sorted : (a : Job) (l : Table) → Sorted l → Sorted (insert_job a l)
unfolding insert_job
insert_job-Sorted a [] s = (tt, tt)
insert_job-Sorted a (b ∷ l) s = elim (Bool-cases (comes_first a b)) [
  | inl e ↦ rw e ((e, All-comes_first a b l e s.0), s)
  | inr e ↦ rw e (
    All-insert_job (λ x. comes_first b x ≡ true) a l (comes_first_total a b e) s.0,
    insert_job-Sorted a l s.1,
  )
]

sort_jobs-Sorted : (l : Table) → Sorted (sort_jobs l)
unfolding sort_jobs
sort_jobs-Sorted [] = tt
sort_jobs-Sorted (a ∷ l) = insert_job-Sorted a (sort_jobs l) (sort_jobs-Sorted l)

-- A row is due no later than another: by its instant, and by its id at the same instant.
abbrev pub due_by : Job → Job → Bool
due_by j x = ltb x.run_at j.run_at || x.run_at == j.run_at && leb x.id j.id

comes_first-due_by : (a j : Job) → comes_first a j ≡ true → due_by j a ≡ true
unfolding comes_first
comes_first-due_by a j h = h

length-filter-insert_job :
    (p : Job → Bool) (a : Job) (l : Table)
    → length (filter p (insert_job a l)) ≡ length (filter p (a ∷ l))
unfolding insert_job
length-filter-insert_job p a [] = refl
length-filter-insert_job p a (b ∷ l) = ground (arith, length-filter-insert_job p a l)

length-filter-sort_jobs :
    (p : Job → Bool) (l : Table) → length (filter p (sort_jobs l)) ≡ length (filter p l)
unfolding sort_jobs
length-filter-sort_jobs p [] = refl
length-filter-sort_jobs p (a ∷ l) =
    ground (arith, length-filter-insert_job p a (sort_jobs l), length-filter-sort_jobs p l)

length-filter-filter :
    (p q : Job → Bool) (l : Table)
    → length (filter q (filter p l)) ≡ length (filter (λ x. p x && q x) l)
length-filter-filter p q [] = refl
length-filter-filter p q (a ∷ l) = ground (arith, length-filter-filter p q l)

-- In an ordered list a row is among the first `n`, or more than `n` are due no later.
take_or_behind :
    (j : Job) (n : ℕ) (l : Table)
    → Sorted l
    → In j l
    → In j (take n l) ⊎ (n < length (filter (due_by j) l))
take_or_behind j zero l s i = inr (some_due l i)
  where
    some_due : (l : Table) → In j l → 0 < length (filter (due_by j) l)
    some_due [] i = absurd (not-In-nil i)
    some_due (a ∷ l) (here e) = ground (arith, ap (λ (x : Job). due_by j x) e)
    some_due (a ∷ l) (there i) = ground (arith, some_due l i)
take_or_behind j (suc n) [] s i = absurd (not-In-nil i)
take_or_behind j (suc n) (a ∷ l) s (here e) = inl (here e)
take_or_behind j (suc n) (a ∷ l) s (there i) = elim (take_or_behind j n l s.1 i) [
  | inl k ↦ inl (there k)
  | inr h ↦
      inr (ground (arith, h, comes_first-due_by a j (All-In (λ x. comes_first a x ≡ true) l s.0 i)))
]

-- No starvation: a claimable row is claimed, unless more than a batch of claimable rows, itself among
-- them, are due no later.
pub claim_due :
    {j : Job} (c : Claim) (t : Table)
    → In j t
    → claimable c j ≡ true
    → length (filter (λ x. claimable c x && due_by j x) t) ≤ c.batch
    → In (start c j) (claim c t).0
unfolding claim candidates
claim_due {j} c t i free few =
    In-map (start c) (filter (picked (candidates c t)) t)
      (In-filter_of (picked (candidates c t)) t chosen i)
  where
    due : Table
    due = filter (claimable c) t

    among : In j (candidates c t)
    among =
        elim (take_or_behind j c.batch (sort_jobs due) (sort_jobs-Sorted due)
          (In-sort_jobs_of due (In-filter_of (claimable c) t free i))) [
            | inl k ↦ k
            | inr h ↦ absurd (
                omega (
                  arith,
                  few,
                  h,
                  length-filter-sort_jobs (due_by j) due,
                  length-filter-filter (claimable c) (due_by j) t,
                ))
          ]

    chosen : picked (candidates c t) j ≡ true
    chosen = In-any (λ x. x.id == j.id) (candidates c t) among (==_refl j.id)
