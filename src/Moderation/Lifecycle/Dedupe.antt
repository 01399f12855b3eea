-- ===== src/Moderation/Lifecycle/Dedupe.antt =====
-- Live reports of one user on one target: the index of migrations/0016_report_dedupe.sql under the
-- operations of crates/infrastructure/src/moderation/report.rs.
use bikenest.Base.{
  ◌≡◌, refl, ℕ, Bool, true, false, ◌&&◌, List, [], ◌∷◌, ◌++◌, Option, none, some, ◌==◌, arith, any,
  if_cases, Bool-cases, Option-cases, inl, inr,
}
use bikenest.Base.Table.{update, any-update-false, any-imp_false, any-append_false}
use bikenest.Parking.{
  unclaimed, under_review, ReportTargetType, parking, parking_photo, review, review_photo, Report,
  Store,
}
use bikenest.Moderation.{Outcome, ReportOutcome, as_resolved, as_dismissed, NewReport}
use bikenest.Moderation.Reports.{
  same_target, by_user, live, unclaimed-live, live_on, new_report, create, report_in, claimed,
  claim, closed, resolve, outcome_state,
}
use bikenest.Moderation.Lifecycle.{ReportOp, creates, claims, resolves, run, runs}

-- A column of the index: a missing value is equal to none.
abbrev same_user : Option ℕ → Option ℕ → Bool
same_user none o = false
same_user (some u) o = by_user u o

-- Whether two reports are live ones of one user on one target.
abbrev pub repeats : Report → Report → Bool
repeats r x =
    live r.state
    && live x.state
    && same_user r.reporter_id x.reporter_id
    && same_target x.target_type r.target_type
    && x.target_id == r.target_id

-- No live report is repeated by a later one.
abbrev pub Deduped : List Report → Type 0
Deduped [] = Unit
Deduped (r ∷ rs) = (any (repeats r) rs ≡ false) × Deduped rs

same_target_sym : (t v : ReportTargetType) → same_target t v ≡ true → same_target v t ≡ true
same_target_sym parking parking h = h
same_target_sym parking parking_photo h = h
same_target_sym parking review h = h
same_target_sym parking review_photo h = h
same_target_sym parking_photo parking h = h
same_target_sym parking_photo parking_photo h = h
same_target_sym parking_photo review h = h
same_target_sym parking_photo review_photo h = h
same_target_sym review parking h = h
same_target_sym review parking_photo h = h
same_target_sym review review h = h
same_target_sym review review_photo h = h
same_target_sym review_photo parking h = h
same_target_sym review_photo parking_photo h = h
same_target_sym review_photo review h = h
same_target_sym review_photo review_photo h = h

-- An update under which no two rows repeat each other that did not.
update-Deduped :
    (p : Report → Bool) (f : Report → Report) (rs : List Report)
    → ((r x : Report) → p r ≡ true → repeats (f r) x ≡ true → repeats r x ≡ true)
    → ((r x : Report) → p x ≡ true → repeats r (f x) ≡ true → repeats r x ≡ true)
    → Deduped rs
    → Deduped (update p f rs)
update-Deduped p f [] k j h = tt
update-Deduped p f (r ∷ rs) k j h = elim (Bool-cases (p r)) [
  | inl e ↦ rw e (
    any-imp_false (repeats (f r)) (repeats r) (update p f rs) (λ x. k r x e)
        (any-update-false (repeats r) p f rs (λ x. j r x) h.0),
    update-Deduped p f rs k j h.1,
  )
  | inr e ↦
      rw e (any-update-false (repeats r) p f rs (λ x. j r x) h.0, update-Deduped p f rs k j h.1)
]

append-Deduped :
    (n : Report) (rs : List Report)
    → any (λ r. repeats r n) rs ≡ false
    → Deduped rs
    → Deduped (rs ++ n ∷ [])
append-Deduped n [] h d = (refl, tt)
append-Deduped n (r ∷ rs) h d = (
  any-append_false (repeats r) rs (n ∷ []) d.0 (ground (arith, h)),
  append-Deduped n rs (ground (arith, h)) d.1,
)

-- Who repeats a new report, is live on its target.
new_report-live_on :
    (now id : ℕ) (n : NewReport) (r : Report)
    → repeats r (new_report now id n) ≡ true
    → live_on n.reporter_id n.target_type n.target_id r ≡ true
unfolding new_report
new_report-live_on now id n r h = elim (Option-cases r.reporter_id) [
  | inl e ↦ absurd (ground (arith, e, h))
  | inr (u, e) ↦ ground (arith, e, h, same_target_sym n.target_type r.target_type)
]

outcome_state-live : (o : ReportOutcome) → live (outcome_state o) ≡ false
outcome_state-live as_resolved = refl
outcome_state-live as_dismissed = refl

run-Deduped : (op : ReportOp) (s : Store) → Deduped s.reports → Deduped (run op s).reports
unfolding run create claim resolve
run-Deduped (creates now n) s d =
    if_cases (λ (x : Outcome ℕ × Store). Deduped x.1.reports)
      (any (live_on n.reporter_id n.target_type n.target_id) s.reports) _ _ (λ e. d)
      (λ e.
        append-Deduped (new_report now s.next_report n) s.reports
          (any-imp_false (λ r. repeats r (new_report now s.next_report n))
            (live_on n.reporter_id n.target_type n.target_id) s.reports
            (new_report-live_on now s.next_report n) e)
          d)
run-Deduped (claims now i m) s d =
    if_cases (λ (x : Outcome Unit × Store). Deduped x.1.reports)
      (any (report_in unclaimed i) s.reports) _ _
      (λ e.
        update-Deduped (report_in unclaimed i) (claimed now m) s.reports
          (λ r x h k. ground (arith, h, k, unclaimed-live r.state))
          (λ r x h k. ground (arith, h, k, unclaimed-live x.state)) d)
      (λ e. d)
run-Deduped (resolves now i m note outcome) s d =
    if_cases (λ (x : Outcome Unit × Store). Deduped x.1.reports)
      (any (report_in under_review i) s.reports) _ _
      (λ e.
        update-Deduped (report_in under_review i) (closed now m note outcome) s.reports
          (λ r x h k. absurd (ground (arith, k, outcome_state-live outcome)))
          (λ r x h k. absurd (ground (arith, k, outcome_state-live outcome))) d)
      (λ e. d)

-- From a store in which no user has two live reports on one target, no sequence of creations, claims
-- and ends leads to one in which a user has.
pub runs-Deduped :
    (ops : List ReportOp) (s : Store) → Deduped s.reports → Deduped (runs ops s).reports
unfolding runs
runs-Deduped [] s d = d
runs-Deduped (op ∷ ops) s d = runs-Deduped ops (run op s) (run-Deduped op s d)
