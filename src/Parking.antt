-- ===== src/Parking.antt =====
-- Parking locations and what users contribute to them: the value objects of
-- crates/domain/src/parking.rs, community.rs, moderation.rs and photo.rs, and the tables of
-- migrations/ in which crates/infrastructure/src/community and moderation keep them. A column that a
-- `CHECK` restricts to codes holds what the codes stand for. Instants are milliseconds of one clock,
-- the database's `now()` included.
pub mod Codes
pub mod Proposals
pub mod RoundTrip
pub mod Snapshot
pub mod Revisions
pub mod Versions
pub mod Samples
mod Tests
use bikenest.Base.{ℕ, Bool, true, false, List, Option, none}
use bikenest.Base.Text.{Text}
use bikenest.Base.Int.{ℤ}
use bikenest.Base.F64.{F64}
use bikenest.Base.Json.{Json}
use bikenest.RateLimit.InMemory.{Buckets}

pub data ParkingType : Type 0 where
  rack parking_facility indoor secured locker other : ParkingType

pub data PricingUnit : Type 0 where
  hour day month entry : PricingUnit

pub record Money : Type 0 where
  pub cents : ℤ
  pub currency : Text
  pub unit : PricingUnit

pub data Cost : Type 0 where
  free : Cost
  paid : Option Money → Cost
  unknown_cost : Cost

pub data SecurityState : Type 0 where
  unknown_state yes no : SecurityState

pub record SecurityFeature : Type 0 where
  pub code : Text
  pub state : SecurityState

pub data ModerationState : Type 0 where
  active pending_review flagged invalid removed : ModerationState

pub data PhotoModerationState : Type 0 where
  photo_pending photo_approved photo_rejected photo_hidden : PhotoModerationState

pub data PhotoKind : Type 0 where
  of_parking of_review : PhotoKind

-- The codes that the column of a review admits.
pub data ReviewState : Type 0 where
  review_active review_hidden : ReviewState

pub data ProposalKind : Type 0 where
  move_location change_existence : ProposalKind

pub data ProposalStatus : Type 0 where
  pending approved rejected superseded : ProposalStatus

pub data ChangeKind : Type 0 where
  created edited moderated verified : ChangeKind

pub data ReportState : Type 0 where
  unclaimed under_review resolved dismissed : ReportState

pub data ReportTargetType : Type 0 where
  parking parking_photo review review_photo : ReportTargetType

-- A row of `parking_location`. The mean of the ratings is in hundredths.
pub record Location : Type 0 where
  pub id : ℕ
  pub name : Text
  pub address : Text
  pub description : Option Text
  pub parking_type : ParkingType
  pub cost_kind : Text
  pub price_cents : Option ℤ
  pub price_currency : Option Text
  pub price_unit : Option Text
  pub lat : F64
  pub lon : F64
  pub timezone : Text
  pub hours_unknown : Bool
  pub moderation_state : ModerationState
  pub creator_id : Option ℕ
  pub version : ℕ
  pub rating_avg : Option ℕ
  pub rating_count : ℕ
  pub last_meaningful_update_at : Option ℕ
  pub last_verified_at : Option ℕ
  pub updated_at : ℕ

-- A row of `opening_hours`, with its times in nanoseconds since midnight.
pub record HourRow : Type 0 where
  pub location_id : ℕ
  pub day_of_week : ℕ
  pub opens_at : ℕ
  pub closes_at : ℕ
  pub all_day : Bool

-- A row of `parking_security`.
pub record SecurityRow : Type 0 where
  pub location_id : ℕ
  pub feature_code : Text
  pub state : ℕ

-- A row of `parking_revision`.
pub record Revision : Type 0 where
  pub location_id : ℕ
  pub version : ℕ
  pub editor_id : Option ℕ
  pub change_kind : ChangeKind
  pub summary : Text
  pub snapshot : Json

-- A row of `parking_proposal`.
pub record ProposalRow : Type 0 where
  pub id : ℕ
  pub location_id : ℕ
  pub proposer_id : Option ℕ
  pub base_version : ℕ
  pub kind : ProposalKind
  pub proposed : Json
  pub status : ProposalStatus
  pub resolved_by : Option ℕ
  pub resolved_at : Option ℕ

-- A row of `review`.
pub record ReviewRow : Type 0 where
  pub id : ℕ
  pub location_id : ℕ
  pub author_id : Option ℕ
  pub rating : ℕ
  pub body : Text
  pub moderation_state : ReviewState
  pub updated_at : ℕ

-- A row of `review_revision`.
pub record ReviewRevision : Type 0 where
  pub review_id : ℕ
  pub rating : ℕ
  pub body : Text

-- A row of `parking_photo` or of `review_photo`, as far as moderation reads it.
pub record PhotoRow : Type 0 where
  pub id : ℕ
  pub moderation_state : PhotoModerationState
  pub reviewed_by : Option ℕ
  pub reviewed_at : Option ℕ

-- A row of `report`.
pub record Report : Type 0 where
  pub id : ℕ
  pub reporter_id : Option ℕ
  pub target_type : ReportTargetType
  pub target_id : ℕ
  pub reason : Text
  pub description : Text
  pub state : ReportState
  pub claimed_by : Option ℕ
  pub resolved_by : Option ℕ
  pub resolution_note : Option Text
  pub updated_at : ℕ

-- A row of `verification`.
pub record VerificationRow : Type 0 where
  pub location_id : ℕ
  pub user_id : Option ℕ
  pub kind : Text
  pub result : Text
  pub attribute_code : Option Text
  pub created_at : ℕ
  pub expires_at : Option ℕ

-- A row of `favorite`.
pub record Favorite : Type 0 where
  pub user_id : ℕ
  pub location_id : ℕ
  pub created_at : ℕ

-- A row of `audit_events`, of a success.
pub record Audit : Type 0 where
  pub actor : Option ℕ
  pub action : Text
  pub target_type : Text
  pub target_id : ℕ
  pub metadata : Json

-- What the calls read and write. Each `next` is the identity column of its table.
pub record Store : Type 0 where
  pub locations : List Location
  pub next_location : ℕ
  pub hours : List HourRow
  pub security : List SecurityRow
  pub revisions : List Revision
  pub proposals : List ProposalRow
  pub next_proposal : ℕ
  pub reviews : List ReviewRow
  pub next_review : ℕ
  pub review_revisions : List ReviewRevision
  pub parking_photos : List PhotoRow
  pub review_photos : List PhotoRow
  pub reports : List Report
  pub next_report : ℕ
  pub verifications : List VerificationRow
  pub favorites : List Favorite
  pub audits : List Audit
  pub limiter : Buckets

-- The libraries that the calls go through: time zones by name, and the text of a time of day.
pub record Outside : Type 0 where
  pub known_timezone : Text → Option Text
  pub time_text : ℕ → Text
  pub decimal : ℕ → Text
