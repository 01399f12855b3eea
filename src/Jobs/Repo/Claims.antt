-- ===== src/Jobs/Repo/Claims.antt =====
-- crates/infrastructure/src/job/repo.rs: the rows that a claim takes, and their order.
use bikenest.Base.{
  ℕ, suc, ◌+◌, ◌≤◌, ◌<◌, ◌≡◌, refl, sym, ap, subst, ◌∙◌, Bool, true, false, List, [], ◌∷◌, map, ◌⊎◌,
  arith, ◌==◌, ==_iff, if◌then◌else◌, length, length-take-le, filter,
}
use bikenest.Base.Members.{
  In, here, there, not-In-nil, In-filter, In-take, any-In, In-map, In-map_inv,
}
use bikenest.Jobs.{Job}
use bikenest.Jobs.Repo.{
  Table, Claim, claimable, comes_first, insert_job, sort_jobs, candidates, picked, start, claim,
}
use bikenest.Jobs.Repo.Valid.{Ids}

Ids-le : {j : Job} (lo next : ℕ) (t : Table) → Ids lo next t → In j t → lo ≤ j.id
Ids-le lo next [] h i = absurd (not-In-nil i)
Ids-le lo next (x ∷ t) h (here e) = omega (arith, ap (λ (y : Job). y.id) e)
Ids-le lo next (x ∷ t) h (there i) = omega (arith, Ids-le (suc x.id) next t h.1 i)

-- An id names one row.
pub same_row :
    {a b : Job} (lo next : ℕ) (t : Table) → Ids lo next t → In a t → In b t → a.id ≡ b.id → a ≡ b
same_row lo next [] h i k e = absurd (not-In-nil i)
same_row lo next (x ∷ t) h (here p) (here q) e = p ∙ sym q
same_row lo next (x ∷ t) h (here p) (there k) e =
    absurd (omega (arith, ap (λ (y : Job). y.id) p, Ids-le (suc x.id) next t h.1 k))
same_row lo next (x ∷ t) h (there i) (here q) e =
    absurd (omega (arith, ap (λ (y : Job). y.id) q, Ids-le (suc x.id) next t h.1 i))
same_row lo next (x ∷ t) h (there i) (there k) e = same_row (suc x.id) next t h.1 i k e

In-insert_job : {j : Job} (a : Job) (l : Table) → In j (insert_job a l) → In j (a ∷ l)
unfolding insert_job
In-insert_job a [] i = i
In-insert_job {j} a (b ∷ l) i = go (comes_first a b) (In-insert_job a l) i
  where
    go :
        (first : Bool)
        → (In j (insert_job a l) → In j (a ∷ l))
        → In j (if first then a ∷ b ∷ l else b ∷ insert_job a l)
        → In j (a ∷ b ∷ l)
    go true ih k = k
    go false ih (here e) = there (here e)
    go false ih (there k) = swap (ih k)
      where
        swap : In j (a ∷ l) → In j (a ∷ b ∷ l)
        swap (here e) = here e
        swap (there m) = there (there m)

In-insert_job_of : {j : Job} (a : Job) (l : Table) → In j (a ∷ l) → In j (insert_job a l)
unfolding insert_job
In-insert_job_of a [] i = i
In-insert_job_of {j} a (b ∷ l) i = go (comes_first a b) (In-insert_job_of a l) i
  where
    go :
        (first : Bool)
        → (In j (a ∷ l) → In j (insert_job a l))
        → In j (a ∷ b ∷ l)
        → In j (if first then a ∷ b ∷ l else b ∷ insert_job a l)
    go true ih k = k
    go false ih (here e) = there (ih (here e))
    go false ih (there (here e)) = here e
    go false ih (there (there m)) = there (ih (there m))

In-sort_jobs : {j : Job} (l : Table) → In j (sort_jobs l) → In j l
unfolding sort_jobs
In-sort_jobs [] i = i
In-sort_jobs {j} (a ∷ l) i = go (In-insert_job a (sort_jobs l) i) (In-sort_jobs l)
  where
    go : In j (a ∷ sort_jobs l) → (In j (sort_jobs l) → In j l) → In j (a ∷ l)
    go (here e) ih = here e
    go (there k) ih = there (ih k)

pub In-sort_jobs_of : {j : Job} (l : Table) → In j l → In j (sort_jobs l)
unfolding sort_jobs
In-sort_jobs_of [] i = i
In-sort_jobs_of (a ∷ l) (here e) = In-insert_job_of a (sort_jobs l) (here e)
In-sort_jobs_of (a ∷ l) (there i) = In-insert_job_of a (sort_jobs l) (there (In-sort_jobs_of l i))

pub In-candidates :
    {j : Job} (c : Claim) (t : Table) → In j (candidates c t) → In j t × (claimable c j ≡ true)
unfolding candidates
In-candidates c t i =
    In-filter (claimable c) t (
      In-sort_jobs (filter (claimable c) t)
        (In-take c.batch (sort_jobs (filter (claimable c) t)) i))

-- Only rows of the table that are due, free and wanted are picked.
pub picked-claimable :
    {j : Job} (c : Claim) (lo next : ℕ) (t : Table)
    → Ids lo next t
    → In j t
    → picked (candidates c t) j ≡ true
    → claimable c j ≡ true
picked-claimable {j} c lo next t h i p =
    let (x, k, e) = any-In (λ y. y.id == j.id) (candidates c t) p in
    let (m, q) = In-candidates c t k in
    ap (claimable c) (sym (same_row lo next t h m i ((==_iff x.id j.id).0 e))) ∙ q

length-picked_none :
    (x : Job) (lo next : ℕ) (t : Table)
    → Ids lo next t
    → x.id < lo
    → length (filter (λ j. x.id == j.id) t) ≡ 0
length-picked_none x lo next [] h k = refl
length-picked_none x lo next (j ∷ t) h k =
    ground (arith, length-picked_none x (suc j.id) next t h.1)

length-picked_one :
    (x : Job) (lo next : ℕ) (t : Table) → Ids lo next t → length (filter (λ j. x.id == j.id) t) ≤ 1
length-picked_one x lo next [] h = omega arith
length-picked_one x lo next (j ∷ t) h =
    ground
      (arith, length-picked_one x (suc j.id) next t h.1, length-picked_none x (suc j.id) next t h.1)

length-filter_or :
    (p q r : Job → Bool) (t : Table)
    → ((j : Job) → r j ≡ true → (p j ≡ true) ⊎ (q j ≡ true))
    → length (filter r t) ≤ length (filter p t) + length (filter q t)
length-filter_or p q r [] h = omega arith
length-filter_or p q r (j ∷ t) h = ground (arith, length-filter_or p q r t h, h j)

length-picked :
    (chosen : Table) (lo next : ℕ) (t : Table)
    → Ids lo next t
    → length (filter (picked chosen) t) ≤ length chosen
length-picked [] lo next t h = omega (arith, none_picked t)
  where
    none_picked : (t : Table) → length (filter (picked []) t) ≤ 0
    none_picked [] = omega arith
    none_picked (j ∷ t) = none_picked t
length-picked (x ∷ chosen) lo next t h = omega (
  arith,
  length-filter_or (λ j. x.id == j.id) (picked chosen) (picked (x ∷ chosen)) t
      (λ j e. ground arith),
  length-picked_one x lo next t h,
  length-picked chosen lo next t h,
)

length-map {ℓ κ} : {A : Type ℓ} {B : Type κ} (f : A → B) (l : List A) → length (map f l) ≡ length l
length-map f [] = refl
length-map f (x ∷ l) = ap suc (length-map f l)

-- A claim returns at most a batch of rows.
pub length-claim :
    (c : Claim) (lo next : ℕ) (t : Table) → Ids lo next t → length (claim c t).0 ≤ c.batch
unfolding claim candidates
length-claim c lo next t h = omega (
  arith,
  length-map (start c) (filter (picked (candidates c t)) t),
  length-picked (candidates c t) lo next t h,
  length-take-le c.batch (sort_jobs (filter (claimable c) t)),
)

pub claim-start :
    {r : Job} (c : Claim) (lo next : ℕ) (t : Table)
    → Ids lo next t
    → In r (claim c t).0
    → (j : Job) × In j t × (claimable c j ≡ true) × (r ≡ start c j) × In r (claim c t).1
unfolding claim
claim-start {r} c lo next t h i =
    let (j, k, e) = In-map_inv (start c) (filter (picked (candidates c t)) t) i in
    let (m, p) = In-filter (picked (candidates c t)) t k in
    (
      j,
      m,
      picked-claimable c lo next t h m p,
      e,
      subst (λ x. In x (claim c t).1) (ap (λ b. if b then start c j else j) p ∙ sym e)
          (In-map (λ x. if picked (candidates c t) x then start c x else x) t m),
    )
