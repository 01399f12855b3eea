-- ===== src/Jobs/Repo/Grants.antt =====
-- crates/infrastructure/src/job/repo.rs: what a claim returns, in the columns' own terms.
use bikenest.Base.{
  ℕ, ◌+◌, ◌*◌, ◌≤◌, ◌≡◌, refl, sym, subst, Bool, true, false, ◌&&◌, ◌||◌, some, ◌⊎◌, inl, inr,
  arith,
}
use bikenest.Base.Members.{In}
use bikenest.Jobs.{Job, JobState, pending, running, succeeded, failed}
use bikenest.Jobs.Repo.{
  Table, is_pending, is_running, before, kind_wanted, Claim, claimable, start, claim,
}
use bikenest.Jobs.Repo.Valid.{Ids}
use bikenest.Jobs.Repo.Claims.{claim-start}

-- A row that may be claimed: due, not locked, and pending or past its lease.
pub record Free (c : Claim) (j : Job) : Type 0 where
  pub due : j.run_at ≤ c.now
  pub unlocked : c.locked j.id ≡ false
  pub wanted : kind_wanted c.kinds j.kind ≡ true
  pub unheld :
      (j.state ≡ pending) ⊎ ((j.state ≡ running) × (before j.lease_expires_at c.now ≡ true))

-- What the claim makes of a row: it runs for the worker under a new lease, attempted once more.
pub record Granted (c : Claim) (j r : Job) : Type 0 where
  pub same : r.id ≡ j.id
  pub runs : r.state ≡ running
  pub owner : r.claimed_by ≡ some c.worker
  pub until : r.lease_expires_at ≡ some (c.now + c.lease_secs * 1000)
  pub counted : r.attempts ≡ j.attempts + 1
  pub kept : (r.payload ≡ j.payload) × (r.max_attempts ≡ j.max_attempts) × (r.schedule ≡ j.schedule)

pending-or-running :
    (s : JobState) (late : Bool)
    → (is_pending s || (is_running s && late)) ≡ true
    → (s ≡ pending) ⊎ ((s ≡ running) × (late ≡ true))
pending-or-running pending late h = inl refl
pending-or-running running late h = inr (refl, h)
pending-or-running succeeded late h = absurd (ground arith)
pending-or-running failed late h = absurd (ground arith)

claimable-Free : (c : Claim) (j : Job) → claimable c j ≡ true → Free c j
unfolding claimable
claimable-Free c j h = record {
  due = ground arith;
  unlocked = ground arith;
  wanted = ground arith;
  unheld = pending-or-running j.state (before j.lease_expires_at c.now) (ground arith);
}

start-Granted : (c : Claim) (j r : Job) → r ≡ start c j → Granted c j r
unfolding start
start-Granted c j r e = subst (Granted c j) (sym e) (record {
  same = refl;
  runs = refl;
  owner = refl;
  until = refl;
  counted = refl;
  kept = (refl, refl, refl);
})

-- Each row that a claim returns comes from a row of the table that was due, wanted, not locked, and
-- pending or past its lease; it runs now for the claiming worker under a lease of the length asked
-- for, attempted once more and with its payload as it was; and it stands so in the table.
pub claim_sound :
    {r : Job} (c : Claim) (lo next : ℕ) (t : Table)
    → Ids lo next t
    → In r (claim c t).0
    → (j : Job) × In j t × Free c j × Granted c j r × In r (claim c t).1
claim_sound {r} c lo next t h i =
    let (j, k, e, q, m) = claim-start c lo next t h i in
    (j, k, claimable-Free c j e, start-Granted c j r q, m)
