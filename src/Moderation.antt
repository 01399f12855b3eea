-- ===== src/Moderation.antt =====
-- Reports and moderation: crates/application/src/moderation.rs and
-- crates/infrastructure/src/moderation over the tables of Parking. A method of the service is an
-- action on the store; each statement of a repository is one step of it.
pub mod Reasons
pub mod Merge
pub mod Reports
pub mod Actions
pub mod Approval
pub mod Service
pub mod Content
pub mod Lifecycle
pub mod Silent
pub mod Trail
pub mod Resolution
mod Tests
use bikenest.Base.{ℕ, Bool, Option}
use bikenest.Base.Action
use bikenest.Base.Text.{Text}
use bikenest.Parking.{ReportTargetType, Store}

pub data ReportOutcome : Type 0 where
  as_resolved as_dismissed : ReportOutcome

pub data ProposalField : Type 0 where
  lat lon timezone existence : ProposalField

pub data ModerationError : Type 0 where
  not_authorized self_resolve not_found target_not_found invalid_state : ModerationError
  already_reported stale_proposal invalid_reason invalid_field : ModerationError
  invalid_proposal_field : ProposalField → ModerationError
  rate_limited conflict unavailable internal : ModerationError

abbrev pub Outcome : Type 0 → Type 0
Outcome A = Action.Outcome ModerationError A

abbrev pub Call : Type 0 → Type 0
Call A = Action.Action Store ModerationError A

pub record NewReport : Type 0 where
  pub reporter_id : ℕ
  pub target_type : ReportTargetType
  pub target_id : ℕ
  pub reason : Text
  pub description : Text

pub record ModerationLimits : Type 0 where
  pub report_description_max_len : ℕ
  pub report_create_user_limit : ℕ
  pub report_create_ip_limit : ℕ
