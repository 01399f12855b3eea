-- ===== src/Community.antt =====
-- What users contribute: crates/application/src/community.rs and
-- crates/infrastructure/src/community over the tables of Parking. A method of the service is an
-- action on the store; a repository's transaction is taken back by an error.
pub mod Values
pub mod Locations
pub mod Reviews
pub mod Signals
pub mod Service
pub mod Edits
pub mod Ratings
mod Tests
use bikenest.Base.{ℕ, Bool, List, Option}
use bikenest.Base.Action
use bikenest.Base.Text.{Text}
use bikenest.Base.F64.{F64}
use bikenest.Base.Json.{Json}
use bikenest.Domain.Hours.{OpeningHours}
use bikenest.Domain.Confidence.{ExistenceResult}
use bikenest.Parking.{ParkingType, Cost, SecurityFeature, ProposalKind, Store}

pub data ContributionError : Type 0 where
  not_verified rate_limited version_conflict not_found location_not_active : ContributionError
  invalid_field unauthorized no_timezone conflict unavailable internal : ContributionError

abbrev pub Outcome : Type 0 → Type 0
Outcome A = Action.Outcome ContributionError A

abbrev pub Call : Type 0 → Type 0
Call A = Action.Action Store ContributionError A

-- A point that `GeoPoint::new` accepted.
pub record GeoPoint : Type 0 where
  pub lat : F64
  pub lon : F64

pub record NewParkingLocation : Type 0 where
  pub name : Text
  pub address : Text
  pub description : Option Text
  pub parking_type : ParkingType
  pub cost : Cost
  pub point : GeoPoint
  pub timezone : Option Text
  pub hours : OpeningHours
  pub security : List SecurityFeature

pub record ParkingEdit : Type 0 where
  pub name : Text
  pub address : Text
  pub description : Option Text
  pub parking_type : ParkingType
  pub cost : Cost
  pub hours : OpeningHours
  pub security : List SecurityFeature

pub record NewProposal : Type 0 where
  pub location_id : ℕ
  pub proposer_id : ℕ
  pub base_version : ℕ
  pub kind : ProposalKind
  pub proposed : Json

pub data AttributeResult : Type 0 where
  correct incorrect : AttributeResult

-- Each with the location and the user.
pub data NewVerification : Type 0 where
  existence : ℕ → ℕ → ExistenceResult → NewVerification
  attribute : ℕ → ℕ → Text → AttributeResult → NewVerification
  parked_here : ℕ → ℕ → NewVerification
