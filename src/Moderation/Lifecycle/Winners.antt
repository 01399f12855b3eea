-- ===== src/Moderation/Lifecycle/Winners.antt =====
-- Competing moderators, in crates/infrastructure/src/moderation/report.rs.
use bikenest.Base.{
  ◌≡◌, refl, ℕ, ◌+◌, ◌≤◌, ◌<◌, Bool, true, false, ◌&&◌, List, [], ◌∷◌, ◌++◌, ◌==◌, if◌then◌else◌,
  arith, length, filter, any, Bool-cases, inl, inr, ==_iff, ==_refl,
}
use bikenest.Base.Action.{is_ok}
use bikenest.Base.Table.{update}
use bikenest.Parking.{ReportState, unclaimed, under_review, resolved, dismissed, Report, Store}
use bikenest.Base.Text.{Text}
use bikenest.Moderation.{ReportOutcome, as_resolved, as_dismissed, NewReport}
use bikenest.Moderation.Reports.{
  same_state, live, unclaimed-live, new_report, create, report_in, claimed, claim, closed, resolve,
  live_on,
}
use bikenest.Moderation.Lifecycle.{ReportOp, creates, claims, resolves, run, wins, ends, times}

-- How many rows pass a test.
abbrev tally : (Report → Bool) → List Report → ℕ
tally p rs = length (filter p rs)

tally-append :
    (p : Report → Bool) (rs : List Report) (r : Report)
    → p r ≡ false
    → tally p (rs ++ r ∷ []) ≡ tally p rs
tally-append p [] r h = rw h refl
tally-append p (x ∷ rs) r h = ground (arith, tally-append p rs r h)

-- An update that makes no row pass.
tally-update :
    (q p : Report → Bool) (f : Report → Report) (rs : List Report)
    → ((r : Report) → p r ≡ true → q (f r) ≡ true → q r ≡ true)
    → tally q (update p f rs) ≤ tally q rs
tally-update q p f [] k = omega arith
tally-update q p f (r ∷ rs) k = ground (arith, k r, tally-update q p f rs k)

-- An update of rows that pass, after which they do not, when there is one.
tally-update_less :
    (q p : Report → Bool) (f : Report → Report) (rs : List Report)
    → ((r : Report) → p r ≡ true → q r ≡ true)
    → ((r : Report) → p r ≡ true → q (f r) ≡ false)
    → any p rs ≡ true
    → tally q (update p f rs) + 1 ≤ tally q rs
tally-update_less q p f [] k j h = absurd (ground arith)
tally-update_less q p f (r ∷ rs) k j h = elim (Bool-cases (p r)) [
  | inl e ↦ ground (arith, k r e, j r e, tally-update q p f rs (λ x e' e''. k x e'))
  | inr e ↦ ground (arith, e, h, tally-update_less q p f rs k j)
]

-- A row that is open to a claim, or to an end.
abbrev open_row : ℕ → Report → Bool
open_row = report_in unclaimed

abbrev live_row : ℕ → Report → Bool
live_row id r = r.id == id && live r.state

-- A row test of one report that a new row of another does not pass.
abbrev Own : ℕ → (Report → Bool) → Type 0
Own id q = (r : Report) → q r ≡ true → r.id ≡ id

create-tally :
    (q : Report → Bool) (id now : ℕ) (n : NewReport) (s : Store)
    → Own id q
    → id < s.next_report
    → tally q (create now n s).1.reports ≤ tally q s.reports
unfolding create new_report
create-tally q id now n s own h =
    elim (Bool-cases (any (live_on n.reporter_id n.target_type n.target_id) s.reports)) [
      | inl e ↦ rw e (omega arith)
      | inr e ↦ rw e (
          ground (
            arith,
            h,
            tally-append q s.reports (new_report now s.next_report n),
            own (new_report now s.next_report n),
            Bool-cases (q (new_report now s.next_report n)),
          ))
    ]

claim-wins :
    (id now m : ℕ) (s : Store)
    → (if is_ok (claim now id m s).0 then 1 else 0)
        + tally (open_row id) (claim now id m s).1.reports
      ≤ tally (open_row id) s.reports
unfolding claim
claim-wins id now m s = elim (Bool-cases (any (open_row id) s.reports)) [
  | inl e ↦ rw e (
      ground (
        arith,
        e,
        tally-update_less (open_row id) (open_row id) (claimed now m) s.reports (λ r h. h)
            (λ r h. ground (arith, h)),
      ))
  | inr e ↦ rw e (omega arith)
]

claim-tally :
    (q : Report → Bool) (now i m : ℕ) (s : Store)
    → ((r : Report) → open_row i r ≡ true → q (claimed now m r) ≡ true → q r ≡ true)
    → tally q (claim now i m s).1.reports ≤ tally q s.reports
unfolding claim
claim-tally q now i m s k = elim (Bool-cases (any (open_row i) s.reports)) [
  | inl e ↦ rw e (tally-update q (open_row i) (claimed now m) s.reports k)
  | inr e ↦ rw e (omega arith)
]

under_review-live : (st : ReportState) → same_state st under_review ≡ true → live st ≡ true
under_review-live unclaimed h = absurd (ground arith)
under_review-live under_review h = refl
under_review-live resolved h = absurd (ground arith)
under_review-live dismissed h = absurd (ground arith)

closed-live :
    (id now m : ℕ) (note : Text) (outcome : ReportOutcome) (r : Report)
    → live_row id (closed now m note outcome r) ≡ false
closed-live id now m note as_resolved r = ground arith
closed-live id now m note as_dismissed r = ground arith

resolve-ends :
    (id now m : ℕ) (note : Text) (outcome : ReportOutcome) (s : Store)
    → (if is_ok (resolve now id m note outcome s).0 then 1 else 0)
        + tally (live_row id) (resolve now id m note outcome s).1.reports
      ≤ tally (live_row id) s.reports
unfolding resolve
resolve-ends id now m note outcome s =
    elim (Bool-cases (any (report_in under_review id) s.reports)) [
      | inl e ↦ rw e (
          ground (
            arith,
            e,
            tally-update_less (live_row id) (report_in under_review id) (closed now m note outcome)
                s.reports (λ r h. ground (arith, h, under_review-live r.state))
                (λ r h. closed-live id now m note outcome r),
          ))
      | inr e ↦ rw e (omega arith)
    ]

resolve-tally :
    (q : Report → Bool) (now i m : ℕ) (note : Text) (outcome : ReportOutcome) (s : Store)
    → ((r : Report)
        → report_in under_review i r ≡ true
        → q (closed now m note outcome r) ≡ true
        → q r ≡ true)
    → tally q (resolve now i m note outcome s).1.reports ≤ tally q s.reports
unfolding resolve
resolve-tally q now i m note outcome s k =
    elim (Bool-cases (any (report_in under_review i) s.reports)) [
      | inl e ↦
          rw e (tally-update q (report_in under_review i) (closed now m note outcome) s.reports k)
      | inr e ↦ rw e (omega arith)
    ]

closed-open :
    (id now m : ℕ) (note : Text) (outcome : ReportOutcome) (r : Report)
    → open_row id (closed now m note outcome r) ≡ false
closed-open id now m note as_resolved r = ground arith
closed-open id now m note as_dismissed r = ground arith

-- One operation: a claim of a report that succeeds takes a row that was open.
run-wins :
    (id : ℕ) (op : ReportOp) (s : Store)
    → id < s.next_report
    → (if wins id op s then 1 else 0) + tally (open_row id) (run op s).reports
      ≤ tally (open_row id) s.reports
unfolding run
run-wins id (creates now n) s h =
    omega (arith, create-tally (open_row id) id now n s (λ r e. ground (arith, e)) h)
run-wins id (claims now i m) s h = elim (Bool-cases (i == id)) [
  | inl e ↦ rw ((==_iff i id).0 e) (rw (==_refl id) (claim-wins id now m s))
  | inr e ↦ ground (arith, e, claim-tally (open_row id) now i m s (λ r a b. ground (arith, a, b)))
]
run-wins id (resolves now i m note outcome) s h = omega (
  arith,
  resolve-tally (open_row id) now i m note outcome s
      (λ r a b. absurd (ground (arith, b, closed-open id now m note outcome r))),
)

-- One operation: an end of a report that succeeds takes a row that was live.
run-ends :
    (id : ℕ) (op : ReportOp) (s : Store)
    → id < s.next_report
    → (if ends id op s then 1 else 0) + tally (live_row id) (run op s).reports
      ≤ tally (live_row id) s.reports
unfolding run
run-ends id (creates now n) s h =
    omega (arith, create-tally (live_row id) id now n s (λ r e. ground (arith, e)) h)
run-ends id (claims now i m) s h = omega (
  arith,
  claim-tally (live_row id) now i m s (λ r a b. ground (arith, a, b, unclaimed-live r.state)),
)
run-ends id (resolves now i m note outcome) s h = elim (Bool-cases (i == id)) [
  | inl e ↦ rw ((==_iff i id).0 e) (rw (==_refl id) (resolve-ends id now m note outcome s))
  | inr e ↦ ground (
    arith,
    e,
    resolve-tally (live_row id) now i m note outcome s
        (λ r a b. absurd (ground (arith, b, closed-live id now m note outcome r))),
  )
]

run-next : (op : ReportOp) (s : Store) → s.next_report ≤ (run op s).next_report
unfolding run create claim resolve
run-next (creates now n) s = ground arith
run-next (claims now i m) s = ground arith
run-next (resolves now i m note outcome) s = ground arith

-- A test of operations that each take a row of the report, is passed as often as there are rows.
times-tally :
    (id : ℕ) (p : ReportOp → Store → Bool) (q : Report → Bool)
    → ((op : ReportOp) (s : Store)
        → id < s.next_report
        → (if p op s then 1 else 0) + tally q (run op s).reports ≤ tally q s.reports)
    → (ops : List ReportOp) (s : Store) → id < s.next_report
    → times p ops s ≤ tally q s.reports
unfolding times
times-tally id p q k [] s h = omega arith
times-tally id p q k (op ∷ ops) s h = omega (
  arith,
  h,
  run-next op s,
  k op s h,
  times-tally id p q k ops (run op s) (omega (arith, h, run-next op s)),
)

-- The rows of one id, of which a primary key leaves one.
abbrev pub of_id : ℕ → Report → Bool
of_id id r = r.id == id

tally-imp :
    (p q : Report → Bool) (rs : List Report)
    → ((r : Report) → p r ≡ true → q r ≡ true)
    → tally p rs ≤ tally q rs
tally-imp p q [] k = omega arith
tally-imp p q (r ∷ rs) k = ground (arith, k r, tally-imp p q rs k)

-- If ids below the next one are given and at most one report has this id, then in any sequence of
-- creations, claims and ends by anyone the report is claimed successfully once at most, and once at
-- most it is ended.
pub times-wins :
    (id : ℕ) (ops : List ReportOp) (s : Store)
    → id < s.next_report
    → length (filter (of_id id) s.reports) ≤ 1
    → (times (wins id) ops s ≤ 1) × (times (ends id) ops s ≤ 1)
times-wins id ops s h k = (
  omega (
    arith,
    k,
    times-tally id (wins id) (open_row id) (run-wins id) ops s h,
    tally-imp (open_row id) (of_id id) s.reports (λ r e. ground (arith, e)),
  ),
  omega (
    arith,
    k,
    times-tally id (ends id) (live_row id) (run-ends id) ops s h,
    tally-imp (live_row id) (of_id id) s.reports (λ r e. ground (arith, e)),
  ),
)
