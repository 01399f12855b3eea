-- ===== src/Moderation/Reports.antt =====
-- crates/infrastructure/src/moderation/report.rs. The database's unique index
-- (migrations/0016_report_dedupe.sql) allows a reporter one live report on a target.
use bikenest.Base.{
  ◌≡◌, refl, arith, ℕ, suc, Bool, true, false, ◌&&◌, List, [], ◌∷◌, ◌++◌, Option, none, some, ltb,
  ◌==◌, if◌then◌else◌, take, filter, any, first,
}
use bikenest.Base.Action.{ok, err, gets}
use bikenest.Base.Text.{Text}
use bikenest.Base.Int.{ℤ, clamp}
use bikenest.Base.Table.{update, sort_by}
use bikenest.Parking.{
  ReportState, unclaimed, under_review, resolved, dismissed, ReportTargetType, parking,
  parking_photo, review, review_photo, Report,
}
use bikenest.Moderation.{
  ReportOutcome, as_resolved, as_dismissed, invalid_state, conflict, Call, NewReport,
}

abbrev pub same_state : ReportState → ReportState → Bool
same_state unclaimed unclaimed = true
same_state under_review under_review = true
same_state resolved resolved = true
same_state dismissed dismissed = true
same_state _ _ = false

abbrev pub same_target : ReportTargetType → ReportTargetType → Bool
same_target parking parking = true
same_target parking_photo parking_photo = true
same_target review review = true
same_target review_photo review_photo = true
same_target _ _ = false

abbrev pub by_user : ℕ → Option ℕ → Bool
by_user u none = false
by_user u (some v) = v == u

-- The condition of the index.
abbrev pub live : ReportState → Bool
live unclaimed = true
live under_review = true
live resolved = false
live dismissed = false

pub unclaimed-live : (st : ReportState) → same_state st unclaimed ≡ true → live st ≡ true
unclaimed-live unclaimed h = refl
unclaimed-live under_review h = absurd (ground arith)
unclaimed-live resolved h = absurd (ground arith)
unclaimed-live dismissed h = absurd (ground arith)

-- A live report of a user on a target.
abbrev pub live_on : ℕ → ReportTargetType → ℕ → Report → Bool
live_on user kind target r =
    live r.state
    && by_user user r.reporter_id
    && same_target r.target_type kind
    && r.target_id == target

unfoldable pub new_report : ℕ → ℕ → NewReport → Report
new_report now id n = record {
  id = id;
  reporter_id = some n.reporter_id;
  target_type = n.target_type;
  target_id = n.target_id;
  reason = n.reason;
  description = n.description;
  state = unclaimed;
  claimed_by = none;
  resolved_by = none;
  resolution_note = none;
  updated_at = now;
}

-- `create`; an `INSERT` takes its id in any case.
unfoldable pub create : ℕ → NewReport → Call ℕ
unfolding new_report
create now n s =
    if any (live_on n.reporter_id n.target_type n.target_id) s.reports
    then (err conflict, record s { next_report = suc s.next_report })
    else (
      ok s.next_report,
      record s {
        reports = s.reports ++ new_report now s.next_report n ∷ [];
        next_report = suc s.next_report;
      },
    )

-- `WHERE state = $1`, where there is a state, and `id > $2`, where there is an id.
abbrev pub in_state : Option ReportState → Report → Bool
in_state none r = true
in_state (some st) r = same_state r.state st

abbrev pub after : Option ℕ → ℕ → Bool
after none id = true
after (some last) id = ltb last id

abbrev pub by_id : Report → Report → Bool
by_id a b = ltb a.id b.id

unfoldable pub list : Option ReportState → Option ℕ → ℤ → Call (List Report)
list st last limit = gets λ s.
    take (clamp 200 limit)
      (sort_by by_id (filter (λ r. in_state st r && after last r.id) s.reports))

unfoldable pub get_report_row : ℕ → Call (Option Report)
get_report_row id = gets λ s. first (λ r. r.id == id) s.reports

-- The `WHERE` of `claim` and of `resolve`.
abbrev pub report_in : ReportState → ℕ → Report → Bool
report_in st id r = r.id == id && same_state r.state st

abbrev pub claimed : ℕ → ℕ → Report → Report
claimed now moderator r = record r {
  state = under_review;
  claimed_by = some moderator;
  updated_at = now;
}

unfoldable pub claim : ℕ → ℕ → ℕ → Call (Unit {0})
claim now id moderator s =
    if any (report_in unclaimed id) s.reports
    then (
      ok tt,
      record s { reports = update (report_in unclaimed id) (claimed now moderator) s.reports },
    )
    else (err invalid_state, s)

-- `ReportOutcome::as_code`, as the state that the code stands for.
abbrev pub outcome_state : ReportOutcome → ReportState
outcome_state as_resolved = resolved
outcome_state as_dismissed = dismissed

abbrev pub closed : ℕ → ℕ → Text → ReportOutcome → Report → Report
closed now moderator note outcome r = record r {
  state = outcome_state outcome;
  resolved_by = some moderator;
  resolution_note = some note;
  updated_at = now;
}

unfoldable pub resolve : ℕ → ℕ → ℕ → Text → ReportOutcome → Call (Unit {0})
resolve now id moderator note outcome s =
    if any (report_in under_review id) s.reports
    then (
      ok tt,
      record s {
        reports = update (report_in under_review id) (closed now moderator note outcome) s.reports;
      },
    )
    else (err invalid_state, s)
