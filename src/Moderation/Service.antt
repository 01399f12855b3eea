-- ===== src/Moderation/Service.antt =====
-- `ModerationService` of crates/application/src/moderation.rs.
use bikenest.Base.{ℕ, Bool, not, ◌||◌, List, [], ◌∷◌, ◌++◌, Option, none, some, if◌then◌else◌}
use bikenest.Base.Action.{ok, err, pure, answer, or_raise, raise_if, modify, ◌>>=◌, ◌>>◌}
use bikenest.Base.Text.{Text, codes, trim}
use bikenest.Base.Int.{ℤ, pos}
use bikenest.Base.Json.{Json, integer, text, object, end, field}
use bikenest.RateLimit.InMemory
use bikenest.Auth.{User, moderator, admin}
use bikenest.Auth.Accounts.{has_role, is_empty}
use bikenest.Parking.{
  active, invalid, of_parking, of_review, ReportState, ReportTargetType, parking, parking_photo,
  review, review_photo, Report, Outside,
}
use bikenest.Parking.Codes.{target_type_code}
use bikenest.Moderation.{
  ReportOutcome, as_resolved, as_dismissed, not_authorized, self_resolve, not_found,
  target_not_found, invalid_state, already_reported, invalid_reason, rate_limited, conflict,
  Outcome, Call, NewReport, ModerationLimits,
}
use bikenest.Moderation.Reasons.{is_known_report_reason, reason_allowed_for, new_description}
use bikenest.Moderation.Reports.{by_user, create, list, get_report_row, claim, resolve}
use bikenest.Moderation.Actions
use bikenest.Moderation.Approval
use bikenest.Moderation.Approval.{Proposal, QueueCounts}

abbrev pub is_moderator : User → Bool
is_moderator u = has_role moderator u.roles || has_role admin u.roles

unfoldable pub require_moderator : User → Call (Unit {0})
require_moderator u = raise_if (not (is_moderator u)) not_authorized

-- `DAY`.
abbrev pub day : ℕ
day = 86400000

-- `allowed`, over the limiter of one process.
unfoldable pub allowed : ℕ → Text → ℕ → ℕ → Call (Unit {0})
allowed now key limit window s =
    let (answer, l) = InMemory.check now key limit window s.limiter in
    (if answer then ok tt else err rate_limited, record s { limiter = l })

unfoldable pub audit : User → Text → Text → ℕ → Json → Call (Unit {0})
audit u action target_type target_id metadata = modify λ s. record s {
  audits =
      s.audits
      ++ (record {
        actor = some u.account.id;
        action = action;
        target_type = target_type;
        target_id = target_id;
        metadata = metadata;
      })
        ∷ [];
}

abbrev pub empty_object : Json
empty_object = object end

-- The metadata of the events on a report.
abbrev pub about : ReportTargetType → ℕ → Json
about kind id = object (
    field (codes "target_type") (text (target_type_code kind))
      (field (codes "target_id") (integer (pos id)) end))

abbrev pub about_new : NewReport → Json
about_new n = object (
    field (codes "target_type") (text (target_type_code n.target_type)) (
      field (codes "target_id") (integer (pos n.target_id))
        (field (codes "reason") (text n.reason) end)))

-- The description as `submit_report` takes it from the form.
unfoldable pub description_of : Option Text → ℕ → Outcome Text
unfolding new_description trim
description_of none max_len = new_description [] max_len
description_of (some raw) max_len =
    if is_empty (trim raw) then new_description [] max_len else new_description raw max_len

-- The `map_err` of `submit_report`.
abbrev pub reported : {A : Type 0} → Outcome A → Outcome A
reported (ok a) = ok a
reported (err conflict) = err already_reported
reported (err e) = err e

abbrev pub create_once : ℕ → NewReport → Call ℕ
create_once now n s = let (r, s') = create now n s in (reported r, s')

-- The end of `submit_report`.
unfoldable pub store_report : ℕ → User → NewReport → Call ℕ
unfolding create audit target_type_code
store_report now u n = do
  id ← create_once now n
  audit u (codes "report.created") (codes "report") id (about_new n)
  pure id

module _ (o : Outside) (limits : ModerationLimits) where
  unfoldable pub submit_report :
      ℕ → User → Text → ReportTargetType → ℕ → Text → Option Text → Call ℕ
  unfolding allowed is_known_report_reason reason_allowed_for description_of Actions.target_exists
      store_report
  submit_report now u ip kind target reason description = do
    allowed now (codes "report:create:user:" ++ o.decimal u.account.id)
        limits.report_create_user_limit day
    allowed now (codes "report:create:ip:" ++ ip) limits.report_create_ip_limit day
    raise_if (not (is_known_report_reason reason)) invalid_reason
    raise_if (not (reason_allowed_for kind reason)) invalid_reason
    body ← answer (description_of description limits.report_description_max_len)
    exists ← Actions.target_exists kind target
    raise_if (not exists) target_not_found
    store_report now u (record {
      reporter_id = u.account.id;
      target_type = kind;
      target_id = target;
      reason = reason;
      description = body;
    })

unfoldable pub list_reports : User → Option ReportState → Option ℕ → ℤ → Call (List Report)
unfolding require_moderator list
list_reports u st last limit = require_moderator u >> list st last limit

unfoldable pub count_queues : User → Call QueueCounts
unfolding require_moderator Approval.queue_counts
count_queues u = require_moderator u >> Approval.queue_counts

unfoldable pub get_report : User → ℕ → Call (Option Report)
unfolding require_moderator get_report_row
get_report u id = require_moderator u >> get_report_row id

unfoldable pub claim_report : ℕ → User → ℕ → Call (Unit {0})
unfolding require_moderator claim audit
claim_report now u id = do
  require_moderator u
  claim now id u.account.id
  audit u (codes "report.claimed") (codes "report") id empty_object

-- `hide_resolved_target` goes on when there is nothing left to hide.
abbrev pub tolerated : Outcome (Unit {0}) → Outcome (Unit {0})
tolerated (ok u) = ok u
tolerated (err invalid_state) = ok tt
tolerated (err not_found) = ok tt
tolerated (err e) = err e

abbrev pub tolerating : Call (Unit {0}) → Call (Unit {0})
tolerating m s = let (r, s') = m s in (tolerated r, s')

module _ (o : Outside) where
  -- The `match` on the target of a resolved report.
  unfoldable pub hide_target : ℕ → ReportTargetType → ℕ → ℕ → Call (Unit {0})
  unfolding Actions.hide_review Actions.hide_photo Actions.set_parking_state
  hide_target now review id actor = Actions.hide_review now id
  hide_target now parking_photo id actor = Actions.hide_photo now of_parking id actor
  hide_target now review_photo id actor = Actions.hide_photo now of_review id actor
  hide_target now parking id actor = Actions.set_parking_state o now id (active ∷ []) invalid actor

  unfoldable pub hide_resolved_target : ℕ → Report → ℕ → Call (Unit {0})
  unfolding hide_target
  hide_resolved_target now r actor = tolerating (hide_target now r.target_type r.target_id actor)

  abbrev pub hide_if : ReportOutcome → ℕ → Report → ℕ → Call (Unit {0})
  hide_if as_resolved now r actor = hide_resolved_target now r actor
  hide_if as_dismissed now r actor = pure tt

  abbrev pub action_of : ReportOutcome → Text
  action_of as_resolved = codes "report.resolved"
  action_of as_dismissed = codes "report.dismissed"

  -- `resolve_report`, once the report was read.
  unfoldable pub resolve_found : ℕ → User → ℕ → ReportOutcome → Text → Report → Call (Unit {0})
  unfolding resolve hide_resolved_target audit target_type_code
  resolve_found now u id outcome note report = do
    raise_if (by_user u.account.id report.reporter_id) self_resolve
    resolve now id u.account.id note outcome
    hide_if outcome now report u.account.id
    audit u (action_of outcome) (codes "report") id (about report.target_type report.target_id)

  unfoldable pub resolve_report : ℕ → User → ℕ → ReportOutcome → Text → Call (Unit {0})
  unfolding require_moderator get_report_row resolve_found
  resolve_report now u id outcome note = do
    require_moderator u
    found ← get_report_row id
    report ← or_raise found not_found
    resolve_found now u id outcome note report
