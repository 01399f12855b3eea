-- ===== src/Community/Locations.antt =====
-- crates/infrastructure/src/community/contribution.rs: creating and editing locations, with their
-- opening hours, security attributes and revisions, and proposing changes.
pub mod Parts
unfoldable pub use Parts.*
use bikenest.Base.{
  ℕ, suc, Bool, true, false, not, ◌&&◌, ◌||◌, List, [], ◌∷◌, ◌++◌, map, Option, none, some, ltb,
  ◌==◌, if◌then◌else◌, take, filter, any, first,
}
use bikenest.Base.Action.{ok, err, pure, gets, or_raise, raise_if, modify, transaction, ◌>>=◌, ◌>>◌}
use bikenest.Base.Text.{Text, codes, text_eq, trim}
use bikenest.Base.Int.{ℤ, clamp}
use bikenest.Base.F64.{F64, within}
use bikenest.Base.Json.{Json, array, items}
use bikenest.Base.Table.{update, sort_by}
use bikenest.Domain.Hours.{TimeRange, OpeningHours, unknown_hours, weekly}
use bikenest.Parking.{
  Cost, SecurityState, unknown_state, SecurityFeature, ModerationState, active, pending, ChangeKind,
  created, edited, ParkingType, Location, HourRow, SecurityRow, Revision, Outside,
}
use bikenest.Parking.Codes.{parking_type_code, moderation_state_code}
use bikenest.Parking.Snapshot.{cost_parts, cost_of, state_smallint, security_of, hours_of, snapshot}
use bikenest.Parking.Revisions.{append_revision}
use bikenest.Community.{
  version_conflict, not_found, location_not_active, invalid_field, conflict, Call,
  NewParkingLocation, ParkingEdit, NewProposal,
}

abbrev pub same_location : ℕ → Location → Bool
same_location id l = l.id == id

unfoldable pub get_for_edit : ℕ → Call (Option Location)
get_for_edit id = gets λ s. first (same_location id) s.locations

abbrev pub is_active : ModerationState → Bool
is_active active = true
is_active _ = false

-- The row that `create` inserts.
unfoldable pub new_location : ℕ → ℕ → ℕ → NewParkingLocation → Text → Location
unfolding cost_parts trim
new_location now id creator new tz =
    let cost = cost_parts new.cost in
    record {
      id = id;
      name = trim new.name;
      address = trim new.address;
      description = new.description;
      parking_type = new.parking_type;
      cost_kind = cost.kind;
      price_cents = cost.cents;
      price_currency = cost.currency;
      price_unit = cost.unit;
      lat = new.point.lat;
      lon = new.point.lon;
      timezone = tz;
      hours_unknown = is_unknown new.hours;
      moderation_state = active;
      creator_id = some creator;
      version = 1;
      rating_avg = none;
      rating_count = 0;
      last_meaningful_update_at = some now;
      last_verified_at = none;
      updated_at = now;
    }

unfoldable pub insert_location : ℕ → ℕ → NewParkingLocation → Text → Call ℕ
unfolding new_location
insert_location now creator new tz s = (
  ok s.next_location,
  record s {
    locations = s.locations ++ new_location now s.next_location creator new tz ∷ [];
    next_location = suc s.next_location;
  },
)

-- The `SET` of `apply_edit`.
abbrev pub edited_by : ℕ → ParkingEdit → Location → Location
edited_by now edit l =
    let cost = cost_parts edit.cost in
    record l {
      name = trim edit.name;
      address = trim edit.address;
      description = edit.description;
      parking_type = edit.parking_type;
      cost_kind = cost.kind;
      price_cents = cost.cents;
      price_currency = cost.currency;
      price_unit = cost.unit;
      hours_unknown = is_unknown edit.hours;
      version = suc l.version;
      updated_at = now;
      last_meaningful_update_at = some now;
    }

-- `WHERE id = $11 AND version = $12 AND moderation_state = 'ACTIVE'`.
abbrev pub editable : ℕ → ℕ → Location → Bool
editable id version l = l.id == id && l.version == version && is_active l.moderation_state

unfoldable pub update_editable : ℕ → ℕ → ℕ → ParkingEdit → Call Location
update_editable now id version edit s = elim (first (editable id version) s.locations) [
  | none ↦ (err version_conflict, s)
  | some l ↦ (
    ok (edited_by now edit l),
    record s { locations = update (editable id version) (edited_by now edit) s.locations },
  )
]

module _ (o : Outside) where
  -- `snapshot_of`.
  unfoldable pub snapshot_of :
      Text
      → Text
      → Option Text
      → ParkingType
      → Cost
      → F64
      → F64
      → Text
      → OpeningHours
      → List SecurityFeature
      → ModerationState
      → Json
  unfolding snapshot parking_type_code cost_of hours_of security_of moderation_state_code
  snapshot_of name address description kind cost lat lon tz hours fs state =
      snapshot name address description (parking_type_code kind) (cost_of cost) lat lon tz
        (hours_of o hours) (array (items security_of fs)) (moderation_state_code state)

  unfoldable pub create_in_tx : ℕ → NewParkingLocation → ℕ → Text → Call ℕ
  unfolding insert_location write_hours write_security insert_revision snapshot_of
  create_in_tx now new creator tz = do
    id ← insert_location now creator new tz
    write_hours id new.hours
    write_security id new.security
    insert_revision id 1 creator created (codes "added") (
        snapshot_of new.name new.address new.description new.parking_type new.cost new.point.lat
          new.point.lon tz new.hours new.security active)
    pure id

  unfoldable pub create : ℕ → NewParkingLocation → ℕ → Call ℕ
  unfolding create_in_tx
  create now new creator = do
    tz ← or_raise new.timezone invalid_field
    transaction (create_in_tx now new creator tz)

  -- The part of `apply_edit` after the update.
  unfoldable pub record_edit : ℕ → ParkingEdit → ℕ → Location → Call ℕ
  unfolding write_hours write_security insert_revision snapshot_of
  record_edit id edit editor row = do
    raise_if (not (within 90 row.lat) || not (within 180 row.lon)) invalid_field
    tz ← or_raise (o.known_timezone row.timezone) invalid_field
    write_hours id edit.hours
    write_security id edit.security
    insert_revision id row.version editor edited (codes "edited") (
        snapshot_of row.name row.address row.description row.parking_type edit.cost row.lat row.lon
          tz edit.hours edit.security row.moderation_state)
    pure row.version

  unfoldable pub edit_in_tx : ℕ → ℕ → ℕ → ParkingEdit → ℕ → Call ℕ
  unfolding update_editable record_edit
  edit_in_tx now id version edit editor = do
    guard ← gets (λ s. first (same_location id) s.locations)
    current ← or_raise guard not_found
    raise_if (not (is_active current.moderation_state)) location_not_active
    raise_if (not (current.version == version)) version_conflict
    row ← update_editable now id version edit
    record_edit id edit editor row

  unfoldable pub apply_edit : ℕ → ℕ → ℕ → ParkingEdit → ℕ → Call ℕ
  unfolding edit_in_tx
  apply_edit now id version edit editor = transaction (edit_in_tx now id version edit editor)

unfoldable pub create_proposal : NewProposal → Call ℕ
create_proposal p s = (
  ok s.next_proposal,
  record s {
    proposals =
        s.proposals
        ++ (record {
          id = s.next_proposal;
          location_id = p.location_id;
          proposer_id = some p.proposer_id;
          base_version = p.base_version;
          kind = p.kind;
          proposed = p.proposed;
          status = pending;
          resolved_by = none;
          resolved_at = none;
        })
          ∷ [];
    next_proposal = suc s.next_proposal;
  },
)

abbrev pub newest : Revision → Revision → Bool
newest a b = ltb b.version a.version

-- The rows of `revision_history`.
unfoldable pub revision_history : ℕ → ℤ → Call (List Revision)
revision_history id limit =
    gets
      λ s. take (clamp 200 limit) (sort_by newest (filter (λ r. r.location_id == id) s.revisions))
