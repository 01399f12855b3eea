-- ===== src/Parking/Codes.antt =====
-- The codes of crates/domain/src/parking.rs, community.rs, moderation.rs and photo.rs, in which the
-- columns and the forms hold their value objects.
use bikenest.Base.{Option, none, some, List, [], ◌∷◌, if◌then◌else◌}
use bikenest.Base.Text.{Text, codes, text_eq}
use bikenest.Parking.{
  ParkingType, rack, parking_facility, indoor, secured, locker, other, PricingUnit, hour, day,
  month, entry, ModerationState, active, pending_review, flagged, invalid, removed,
  PhotoModerationState, photo_pending, photo_approved, photo_rejected, photo_hidden, ProposalKind,
  move_location, change_existence, ProposalStatus, pending, approved, rejected, superseded,
  ChangeKind, created, edited, moderated, verified, ReportState, unclaimed, under_review, resolved,
  dismissed, ReportTargetType, parking, parking_photo, review, review_photo,
}

-- The row of a table of codes that has this code, as each `from_code` finds it.
unfoldable pub decode {ℓ} : {A : Type ℓ} → List (Text × A) → Text → Option A
decode [] c = none
decode ((d, a) ∷ t) c = if text_eq d c then some a else decode t c

unfoldable pub parking_type_code : ParkingType → Text
parking_type_code rack = codes "rack"
parking_type_code parking_facility = codes "parking_facility"
parking_type_code indoor = codes "indoor"
parking_type_code secured = codes "secured"
parking_type_code locker = codes "locker"
parking_type_code other = codes "other"

unfoldable pub parking_type_from_code : Text → Option ParkingType
unfolding decode
parking_type_from_code = decode (
    (codes "rack", rack)
    ∷ (codes "parking_facility", parking_facility)
    ∷ (codes "indoor", indoor)
    ∷ (codes "secured", secured)
    ∷ (codes "locker", locker)
    ∷ (codes "other", other)
    ∷ [])

unfoldable pub pricing_unit_code : PricingUnit → Text
pricing_unit_code hour = codes "hour"
pricing_unit_code day = codes "day"
pricing_unit_code month = codes "month"
pricing_unit_code entry = codes "entry"

unfoldable pub pricing_unit_from_code : Text → Option PricingUnit
unfolding decode
pricing_unit_from_code = decode (
    (codes "hour", hour)
    ∷ (codes "day", day)
    ∷ (codes "month", month)
    ∷ (codes "entry", entry)
    ∷ [])

unfoldable pub moderation_state_code : ModerationState → Text
moderation_state_code active = codes "ACTIVE"
moderation_state_code pending_review = codes "PENDING_REVIEW"
moderation_state_code flagged = codes "FLAGGED"
moderation_state_code invalid = codes "INVALID"
moderation_state_code removed = codes "REMOVED"

unfoldable pub moderation_state_from_code : Text → Option ModerationState
unfolding decode
moderation_state_from_code = decode (
    (codes "ACTIVE", active)
    ∷ (codes "PENDING_REVIEW", pending_review)
    ∷ (codes "FLAGGED", flagged)
    ∷ (codes "INVALID", invalid)
    ∷ (codes "REMOVED", removed)
    ∷ [])

unfoldable pub photo_state_code : PhotoModerationState → Text
photo_state_code photo_pending = codes "PENDING_REVIEW"
photo_state_code photo_approved = codes "APPROVED"
photo_state_code photo_rejected = codes "REJECTED"
photo_state_code photo_hidden = codes "HIDDEN"

unfoldable pub photo_state_from_code : Text → Option PhotoModerationState
unfolding decode
photo_state_from_code = decode (
    (codes "PENDING_REVIEW", photo_pending)
    ∷ (codes "APPROVED", photo_approved)
    ∷ (codes "REJECTED", photo_rejected)
    ∷ (codes "HIDDEN", photo_hidden)
    ∷ [])

unfoldable pub proposal_kind_code : ProposalKind → Text
proposal_kind_code move_location = codes "move_location"
proposal_kind_code change_existence = codes "change_existence"

unfoldable pub proposal_kind_from_code : Text → Option ProposalKind
unfolding decode
proposal_kind_from_code =
    decode
      ((codes "move_location", move_location) ∷ (codes "change_existence", change_existence) ∷ [])

unfoldable pub proposal_status_code : ProposalStatus → Text
proposal_status_code pending = codes "PENDING"
proposal_status_code approved = codes "APPROVED"
proposal_status_code rejected = codes "REJECTED"
proposal_status_code superseded = codes "SUPERSEDED"

unfoldable pub proposal_status_from_code : Text → Option ProposalStatus
unfolding decode
proposal_status_from_code = decode (
    (codes "PENDING", pending)
    ∷ (codes "APPROVED", approved)
    ∷ (codes "REJECTED", rejected)
    ∷ (codes "SUPERSEDED", superseded)
    ∷ [])

unfoldable pub change_kind_code : ChangeKind → Text
change_kind_code created = codes "create"
change_kind_code edited = codes "edit"
change_kind_code moderated = codes "moderation"
change_kind_code verified = codes "verification"

unfoldable pub change_kind_from_code : Text → Option ChangeKind
unfolding decode
change_kind_from_code = decode (
    (codes "create", created)
    ∷ (codes "edit", edited)
    ∷ (codes "moderation", moderated)
    ∷ (codes "verification", verified)
    ∷ [])

unfoldable pub report_state_code : ReportState → Text
report_state_code unclaimed = codes "OPEN"
report_state_code under_review = codes "UNDER_REVIEW"
report_state_code resolved = codes "RESOLVED"
report_state_code dismissed = codes "DISMISSED"

unfoldable pub report_state_from_code : Text → Option ReportState
unfolding decode
report_state_from_code = decode (
    (codes "OPEN", unclaimed)
    ∷ (codes "UNDER_REVIEW", under_review)
    ∷ (codes "RESOLVED", resolved)
    ∷ (codes "DISMISSED", dismissed)
    ∷ [])

unfoldable pub target_type_code : ReportTargetType → Text
target_type_code parking = codes "parking"
target_type_code parking_photo = codes "parking_photo"
target_type_code review = codes "review"
target_type_code review_photo = codes "review_photo"

unfoldable pub target_type_from_code : Text → Option ReportTargetType
unfolding decode
target_type_from_code = decode (
    (codes "parking", parking)
    ∷ (codes "parking_photo", parking_photo)
    ∷ (codes "review", review)
    ∷ (codes "review_photo", review_photo)
    ∷ [])
