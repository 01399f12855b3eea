-- ===== src/Moderation/Tests.antt =====
-- The claims on moderation at concrete stores.
use bikenest.Base.{◌≡◌, refl, ◌≤◌, true, false, ◌⊎◌, [], ◌∷◌, none, some, arith}
use bikenest.Base.Action.{ok, err}
use bikenest.Base.Text.{codes}
use bikenest.Parking.{Store, change_existence}
use bikenest.Parking.Samples.{outside, a_user, a_store}
use bikenest.Parking.Proposals.{changes_existence}
use bikenest.Moderation.{as_resolved, as_dismissed, not_authorized, NewReport}
use bikenest.Moderation.Lifecycle.{creates, claims, resolves, runs, wins, ends, times}
use bikenest.Moderation.Lifecycle.Winners.{times-wins}
use bikenest.Moderation.Lifecycle.Dedupe.{Deduped, runs-Deduped}
use bikenest.Moderation.Reports.{resolve, get_report_row}
use bikenest.Moderation.Merge.{ProposalOverride, merge, merged_flag, applies_existence}
use bikenest.Moderation.Merge.Checked.{Checked, merge-Checked}
use bikenest.Moderation.Actions.{hide_review, turn_review, update_location, insert_revision}
use bikenest.Moderation.Approval.{get_proposal, joined, map_proposal, approve_in_tx, lock_location}
use bikenest.Moderation.Approval
use bikenest.Parking.Proposals.{payload_from_json, new_payload, change_from_json, read_existence}
use bikenest.Moderation.Content
use bikenest.Moderation.Content.Asked.{Asked, approve_proposal-Asked}
use bikenest.Moderation.Service.{
  is_moderator, require_moderator, audit, resolve_report, resolve_found, hide_target,
  hide_resolved_target,
}
use bikenest.Moderation.Trail.{claim_it, perform, Recorded, perform-Recorded}
use bikenest.Moderation.Resolution.{Ended, resolve_report-Ended}

-- Two moderators end the report at once.
times-wins_example :
    (times
        (wins 4)
        (claims 1 4 2 ∷ resolves 2 4 2 [] as_resolved ∷ resolves 2 4 3 [] as_dismissed ∷ [])
        a_store
      ≤ 1)
    × (times
          (ends 4)
          (claims 1 4 2 ∷ resolves 2 4 2 [] as_resolved ∷ resolves 2 4 3 [] as_dismissed ∷ [])
          a_store
        ≤ 1)
times-wins_example =
    times-wins 4
      (claims 1 4 2 ∷ resolves 2 4 2 [] as_resolved ∷ resolves 2 4 3 [] as_dismissed ∷ []) a_store
      (omega arith) (omega arith)

-- User 8 reports the review again.
abbrev again : NewReport
again = record {
  reporter_id = 8;
  target_type = bikenest.Parking.review;
  target_id = 9;
  reason = codes "abuse";
  description = [];
}

runs-Deduped_example : Deduped (runs (creates 1 again ∷ claims 1 4 2 ∷ []) a_store).reports
runs-Deduped_example = runs-Deduped (creates 1 again ∷ claims 1 4 2 ∷ []) a_store (refl, tt)

abbrev nothing_typed : ProposalOverride
nothing_typed = record { new_lat = none; new_lon = none; new_timezone = none; new_exists = none }

approves : (Content.approve_proposal outside 1 (a_user 2) 5 nothing_typed a_store).0 ≡ ok tt
unfolding Content.approve_proposal Content.approve_found require_moderator get_proposal joined
    map_proposal payload_from_json new_payload change_from_json read_existence merge merged_flag
    Approval.approve_proposal approve_in_tx lock_location update_location insert_revision audit
    bikenest.Parking.Revisions.append_revision bikenest.Base.Json.get bikenest.Base.Json.get_field
    bikenest.Base.Text.text_eq
approves = refl

approve_proposal-Asked_example :
    Asked outside 5
      (a_user 2)
      nothing_typed
      a_store
      (Content.approve_proposal outside 1 (a_user 2) 5 nothing_typed a_store).1
approve_proposal-Asked_example =
    approve_proposal-Asked outside 1 (a_user 2) 5 nothing_typed a_store approves

merges :
    merge outside change_existence
      (changes_existence false)
      (record { new_lat = none; new_lon = none; new_timezone = none; new_exists = some true })
    ≡ ok (applies_existence true)
unfolding merge merged_flag
merges = refl

merge-Checked_example : Checked outside change_existence (applies_existence true)
merge-Checked_example =
    merge-Checked outside change_existence (changes_existence false)
      (record { new_lat = none; new_lon = none; new_timezone = none; new_exists = some true })
      (applies_existence true) merges

perform-Recorded_example :
    Recorded (a_user 2) a_store.audits (perform outside 1 (a_user 2) (claim_it 4) a_store)
    × ((is_moderator (a_user 2) ≡ true)
        ⊎ (perform outside 1 (a_user 2) (claim_it 4) a_store ≡ (err not_authorized, a_store)))
perform-Recorded_example = perform-Recorded outside 1 (a_user 2) (claim_it 4) a_store

resolves_report : (resolve_report outside 1 (a_user 2) 4 as_resolved [] a_store).0 ≡ ok tt
unfolding resolve_report require_moderator get_report_row resolve_found resolve hide_resolved_target
    hide_target hide_review turn_review audit
resolves_report = refl

resolve_report-Ended_example :
    Ended outside
      (a_user 2)
      4
      as_resolved
      a_store
      (resolve_report outside 1 (a_user 2) 4 as_resolved [] a_store).1
resolve_report-Ended_example =
    resolve_report-Ended outside 1 (a_user 2) 4 as_resolved [] a_store resolves_report
