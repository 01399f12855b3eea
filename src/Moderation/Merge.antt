-- ===== src/Moderation/Merge.antt =====
-- `ProposalApplication` of crates/application/src/moderation.rs: what the proposer asked for, with
-- the values that the moderator typed over it.
pub mod Checked
use bikenest.Base.{◌≡◌, refl, Bool, true, false, not, ◌&&◌, ◌||◌, Option, none, some, if◌then◌else◌}
use bikenest.Base.Action.{ok, err}
use bikenest.Base.Text.{Text}
use bikenest.Base.F64.{F64, is_finite, within}
use bikenest.Parking.{ProposalKind, move_location, change_existence, Outside}
use bikenest.Parking.Proposals.{ProposedChange, moves, changes_existence, unreadable, trimmed}
use bikenest.Moderation.{lat, lon, timezone, existence, Outcome, invalid_proposal_field}

pub record ProposalOverride : Type 0 where
  pub new_lat : Option F64
  pub new_lon : Option F64
  pub new_timezone : Option Text
  pub new_exists : Option Bool

pub data ProposalApplication : Type 0 where
  applies_move : F64 → F64 → Text → ProposalApplication
  applies_existence : Bool → ProposalApplication

-- `Option::or`.
abbrev pub or_else {ℓ} : {A : Type ℓ} → Option A → Option A → Option A
or_else (some a) _ = some a
or_else none o = o

module _ (o : Outside) where
  -- The parse of the time zone's name, once the coordinates are in range.
  unfoldable pub zoned : F64 → F64 → Option Text → Outcome ProposalApplication
  zoned x y none = err (invalid_proposal_field timezone)
  zoned x y (some name) = elim (o.known_timezone name) [
    | none ↦ err (invalid_proposal_field timezone)
    | some tz ↦ ok (applies_move x y tz)
  ]

  -- `ProposalApplication::move_location`.
  unfoldable pub merged_move : Option F64 → Option F64 → Option Text → Outcome ProposalApplication
  unfolding zoned trimmed
  merged_move none _ _ = err (invalid_proposal_field lat)
  merged_move (some x) none _ = err (invalid_proposal_field lon)
  merged_move (some x) (some y) tz =
      if not (is_finite x) || not (within 90 x)
      then err (invalid_proposal_field lat)
      else (if not (is_finite y) || not (within 180 y)
          then err (invalid_proposal_field lon)
          else zoned x y (trimmed tz))

  -- The flag that an unreadable payload leaves to the moderator.
  unfoldable pub merged_flag : Option Bool → Outcome ProposalApplication
  merged_flag none = err (invalid_proposal_field existence)
  merged_flag (some b) = ok (applies_existence b)

  unfoldable pub merge :
      ProposalKind → ProposedChange → ProposalOverride → Outcome ProposalApplication
  unfolding merged_move merged_flag
  merge move_location (moves x y tz) over =
      merged_move (or_else over.new_lat (some x)) (or_else over.new_lon (some y))
        (or_else over.new_timezone tz)
  merge move_location (changes_existence _) over =
      merged_move over.new_lat over.new_lon over.new_timezone
  merge move_location unreadable over = merged_move over.new_lat over.new_lon over.new_timezone
  merge change_existence (changes_existence b) over = merged_flag (or_else over.new_exists (some b))
  merge change_existence (moves _ _ _) over = merged_flag over.new_exists
  merge change_existence unreadable over = merged_flag over.new_exists

-- `ProposalApplication::kind`.
unfoldable pub application_kind : ProposalApplication → ProposalKind
application_kind (applies_move _ _ _) = move_location
application_kind (applies_existence _) = change_existence
