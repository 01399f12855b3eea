-- ===== src/Moderation/Content.antt =====
-- `ModerationService` of crates/application/src/moderation.rs: what a moderator does to content and
-- to proposals.
pub mod Changed
pub mod Asked
use bikenest.Base.{ℕ, List, [], ◌∷◌, Option}
use bikenest.Base.Action.{answer, or_raise, ◌>>=◌, ◌>>◌}
use bikenest.Base.Text.{Text, codes}
use bikenest.Base.Int.{ℤ}
use bikenest.Base.Json.{Json, text, object, end, field}
use bikenest.Auth.{User}
use bikenest.Parking.{
  ProposalKind, active, invalid, removed, PhotoKind, of_parking, of_review, Outside,
}
use bikenest.Parking.Codes.{proposal_kind_code}
use bikenest.Moderation.{not_found, Call}
use bikenest.Moderation.Merge.{ProposalOverride, merge, application_kind}
use bikenest.Moderation.Actions
use bikenest.Moderation.Approval
use bikenest.Moderation.Approval.{Proposal}
use bikenest.Moderation.Service.{require_moderator, audit, empty_object}

unfoldable pub hide_review : ℕ → User → ℕ → Call (Unit {0})
unfolding require_moderator Actions.hide_review audit
hide_review now u id = do
  require_moderator u
  Actions.hide_review now id
  audit u (codes "review.hidden") (codes "review") id empty_object

unfoldable pub restore_review : ℕ → User → ℕ → Call (Unit {0})
unfolding require_moderator Actions.restore_review audit
restore_review now u id = do
  require_moderator u
  Actions.restore_review now id
  audit u (codes "review.restored") (codes "review") id empty_object

-- `PhotoKind::as_code`.
unfoldable pub photo_kind_code : PhotoKind → Text
photo_kind_code of_parking = codes "parking"
photo_kind_code of_review = codes "review"

unfoldable pub hide_photo : ℕ → User → PhotoKind → ℕ → Call (Unit {0})
unfolding require_moderator Actions.hide_photo audit photo_kind_code
hide_photo now u kind id = do
  require_moderator u
  Actions.hide_photo now kind id u.account.id
  audit u (codes "photo.hidden") (photo_kind_code kind) id empty_object

unfoldable pub restore_photo : ℕ → User → PhotoKind → ℕ → Call (Unit {0})
unfolding require_moderator Actions.restore_photo audit photo_kind_code
restore_photo now u kind id = do
  require_moderator u
  Actions.restore_photo now kind id u.account.id
  audit u (codes "photo.restored") (photo_kind_code kind) id empty_object

unfoldable pub list_pending_proposals : User → Option ℕ → ℤ → Call (List Proposal)
unfolding require_moderator Approval.list_pending_proposals
list_pending_proposals u last limit =
    require_moderator u >> Approval.list_pending_proposals last limit

unfoldable pub get_proposal : User → ℕ → Call (Option Proposal)
unfolding require_moderator Approval.get_proposal
get_proposal u id = require_moderator u >> Approval.get_proposal id

abbrev pub kind_of : ProposalKind → Json
kind_of k = object (field (codes "kind") (text (proposal_kind_code k)) end)

module _ (o : Outside) where
  unfoldable pub invalidate_parking : ℕ → User → ℕ → Call (Unit {0})
  unfolding require_moderator Actions.set_parking_state audit
  invalidate_parking now u id = do
    require_moderator u
    Actions.set_parking_state o now id (active ∷ []) invalid u.account.id
    audit u (codes "parking.invalidated") (codes "parking_location") id empty_object

  unfoldable pub restore_parking : ℕ → User → ℕ → Call (Unit {0})
  unfolding require_moderator Actions.set_parking_state audit
  restore_parking now u id = do
    require_moderator u
    Actions.set_parking_state o now id (invalid ∷ removed ∷ []) active u.account.id
    audit u (codes "parking.restored") (codes "parking_location") id empty_object

  -- `approve_proposal`, once the proposal was read.
  unfoldable pub approve_found : ℕ → User → ℕ → ProposalOverride → Proposal → Call (Unit {0})
  unfolding merge application_kind Approval.approve_proposal audit proposal_kind_code
  approve_found now u id over proposal = do
    applied ← answer (merge o proposal.kind proposal.change over)
    Approval.approve_proposal o now id u.account.id applied
    audit u (codes "proposal.approved") (codes "parking_proposal") id
        (kind_of (application_kind applied))

  unfoldable pub approve_proposal : ℕ → User → ℕ → ProposalOverride → Call (Unit {0})
  unfolding require_moderator Approval.get_proposal approve_found
  approve_proposal now u id over = do
    require_moderator u
    found ← Approval.get_proposal id
    proposal ← or_raise found not_found
    approve_found now u id over proposal

unfoldable pub reject_proposal : ℕ → User → ℕ → Text → Call (Unit {0})
unfolding require_moderator Approval.reject_proposal audit
reject_proposal now u id reason = do
  require_moderator u
  Approval.reject_proposal now id u.account.id
  audit u (codes "proposal.rejected") (codes "parking_proposal") id
      (object (field (codes "reason") (text reason) end))
