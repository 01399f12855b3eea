-- ===== src/Moderation/Approval.antt =====
-- The proposals of crates/infrastructure/src/moderation/actions.rs: reading them with their
-- location, approving one in a transaction and rejecting one.
pub mod Applied
use bikenest.Base.{
  ℕ, suc, Bool, true, false, not, ◌&&◌, List, [], ◌∷◌, Option, none, some, ltb, ◌==◌, ◌+◌,
  if◌then◌else◌, length, take, filter, any, first,
}
use bikenest.Base.Action.{ok, err, pure, gets, or_raise, raise_if, modify, transaction, ◌>>=◌, ◌>>◌}
use bikenest.Base.Text.{Text, codes}
use bikenest.Base.Int.{ℤ, clamp}
use bikenest.Base.F64.{F64}
use bikenest.Base.Table.{update, sort_by}
use bikenest.Parking.{
  ModerationState, active, removed, photo_pending, ProposalStatus, pending, approved, rejected,
  superseded, ProposalKind, Location, ProposalRow, PhotoRow, Report, unclaimed, under_review, Store,
  Outside,
}
use bikenest.Parking.Proposals.{ProposedChange, payload_from_json}
use bikenest.Moderation.{not_found, invalid_state, stale_proposal, Call}
use bikenest.Moderation.Merge.{ProposalApplication, applies_move, applies_existence}
use bikenest.Moderation.Reports.{same_state, after}
use bikenest.Moderation.Actions.{same_photo_state, update_location, insert_revision}

-- A row of the queue: a proposal with what its location holds now.
pub record Proposal : Type 0 where
  pub id : ℕ
  pub location_id : ℕ
  pub location_name : Text
  pub location_address : Text
  pub proposer_id : Option ℕ
  pub base_version : ℕ
  pub location_version : ℕ
  pub kind : ProposalKind
  pub change : ProposedChange
  pub reason : Option Text
  pub current_lat : F64
  pub current_lon : F64
  pub current_timezone : Text
  pub current_state : ModerationState
  pub status : ProposalStatus

-- `Proposal::is_stale`.
unfoldable pub is_stale : Proposal → Bool
is_stale p = not (p.base_version == p.location_version)

unfoldable pub map_proposal : ProposalRow → Location → Proposal
unfolding payload_from_json
map_proposal p l =
    let payload = payload_from_json p.kind p.proposed in
    record {
      id = p.id;
      location_id = p.location_id;
      location_name = l.name;
      location_address = l.address;
      proposer_id = p.proposer_id;
      base_version = p.base_version;
      location_version = l.version;
      kind = p.kind;
      change = payload.change;
      reason = payload.reason;
      current_lat = l.lat;
      current_lon = l.lon;
      current_timezone = l.timezone;
      current_state = l.moderation_state;
      status = p.status;
    }

abbrev pub is_location : ℕ → Location → Bool
is_location id l = l.id == id

abbrev pub is_proposal : ℕ → ProposalRow → Bool
is_proposal id p = p.id == id

-- The join of a proposal with its location.
unfoldable pub joined : List Location → Option ProposalRow → Option Proposal
unfolding map_proposal
joined ls none = none
joined ls (some p) = elim (first (is_location p.location_id) ls) [
  | none ↦ none
  | some l ↦ some (map_proposal p l)
]

unfoldable pub get_proposal : ℕ → Call (Option Proposal)
unfolding joined
get_proposal id = gets λ s. joined s.locations (first (is_proposal id) s.proposals)

unfoldable pub joined_all : List Location → List ProposalRow → List Proposal
unfolding joined
joined_all ls [] = []
joined_all ls (p ∷ ps) =
    let rest = joined_all ls ps in elim (joined ls (some p)) [ none ↦ rest | some q ↦ q ∷ rest ]

abbrev pub same_status : ProposalStatus → ProposalStatus → Bool
same_status pending pending = true
same_status approved approved = true
same_status rejected rejected = true
same_status superseded superseded = true
same_status _ _ = false

abbrev pub by_proposal_id : Proposal → Proposal → Bool
by_proposal_id a b = ltb a.id b.id

unfoldable pub list_pending_proposals : Option ℕ → ℤ → Call (List Proposal)
unfolding joined_all
list_pending_proposals last limit = gets λ s. take (clamp 200 limit) (
    sort_by by_proposal_id (
      joined_all s.locations
        (filter (λ p. same_status p.status pending && after last p.id) s.proposals)))

pub record QueueCounts : Type 0 where
  pub pending_photos : ℕ
  pub open_reports : ℕ
  pub under_review_reports : ℕ
  pub pending_proposals : ℕ

abbrev pub count {ℓ} : {A : Type ℓ} → (A → Bool) → List A → ℕ
count p xs = length (filter p xs)

abbrev pub waiting : PhotoRow → Bool
waiting p = same_photo_state p.moderation_state photo_pending

unfoldable pub queue_counts : Call QueueCounts
queue_counts = gets λ s. record {
  pending_photos = count waiting s.parking_photos + count waiting s.review_photos;
  open_reports = count (λ r. same_state r.state unclaimed) s.reports;
  under_review_reports = count (λ r. same_state r.state under_review) s.reports;
  pending_proposals = count (λ p. same_status p.status pending) s.proposals;
}

-- The `SET` of `approve_proposal`, by what is applied.
abbrev pub applied_to : ℕ → ProposalApplication → Location → Location
applied_to now (applies_move lat lon timezone) l = record l {
  lat = lat;
  lon = lon;
  timezone = timezone;
  version = suc l.version;
  updated_at = now;
}
applied_to now (applies_existence exists) l = record l {
  moderation_state = if exists then active else removed;
  version = suc l.version;
  updated_at = now;
}

abbrev pub summary_of : ProposalApplication → Text
summary_of (applies_move _ _ _) = codes "proposal applied (move)"
summary_of (applies_existence _) = codes "proposal applied (existence)"

-- `WHERE id = $4 AND version = $5`.
abbrev pub location_at : ℕ → ℕ → Location → Bool
location_at id version l = l.id == id && l.version == version

abbrev pub settled : ℕ → ℕ → ProposalStatus → ProposalRow → ProposalRow
settled now moderator st p = record p {
  status = st;
  resolved_by = some moderator;
  resolved_at = some now;
}

-- The other pending proposals on the location.
abbrev pub sibling : ℕ → ℕ → ProposalRow → Bool
sibling location id p =
    p.location_id == location && same_status p.status pending && not (p.id == id)

abbrev pub supersede : ProposalRow → ProposalRow
supersede p = record p { status = superseded }

-- The two updates of the proposals at the end of `approve_proposal`.
unfoldable pub close_proposals : ℕ → ℕ → ℕ → ℕ → List ProposalRow → List ProposalRow
close_proposals now id location moderator ps =
    update (sibling location id) supersede
      (update (is_proposal id) (settled now moderator approved) ps)

-- The subquery and the lock on the location.
unfoldable pub lock_location : ℕ → Call (Option Location)
lock_location id = gets λ s. elim (first (is_proposal id) s.proposals) [
  | none ↦ none
  | some p ↦ first (is_location p.location_id) s.locations
]

module _ (o : Outside) where
  unfoldable pub approve_in_tx : ℕ → ℕ → ℕ → ProposalApplication → Call (Unit {0})
  unfolding lock_location update_location insert_revision close_proposals
  approve_in_tx now id moderator applied = do
    locked ← lock_location id
    location ← or_raise locked not_found
    found ← gets (λ s. first (is_proposal id) s.proposals)
    prop ← or_raise found not_found
    raise_if (not (same_status prop.status pending)) invalid_state
    raise_if (not (prop.base_version == location.version)) stale_proposal
    row ←
        update_location (location_at location.id prop.base_version) (applied_to now applied)
          stale_proposal
    insert_revision o row moderator (summary_of applied)
    modify (λ s. record s { proposals = close_proposals now id location.id moderator s.proposals })

  unfoldable pub approve_proposal : ℕ → ℕ → ℕ → ProposalApplication → Call (Unit {0})
  unfolding approve_in_tx
  approve_proposal now id moderator applied = transaction (approve_in_tx now id moderator applied)

abbrev pub pending_proposal : ℕ → ProposalRow → Bool
pending_proposal id p = p.id == id && same_status p.status pending

unfoldable pub reject_proposal : ℕ → ℕ → ℕ → Call (Unit {0})
reject_proposal now id moderator s =
    if any (pending_proposal id) s.proposals
    then (
      ok tt,
      record s {
        proposals = update (pending_proposal id) (settled now moderator rejected) s.proposals;
      },
    )
    else (err invalid_state, s)
