-- ===== src/Community/Edits.antt =====
-- Competing edits of a location, in crates/infrastructure/src/community/contribution.rs, among what
-- moderators do to it.
pub mod Reached
pub mod Once
use bikenest.Base.{
  ◌≡◌, refl, sym, subst, ℕ, suc, ◌+◌, ◌≤◌, Bool, true, false, ◌&&◌, List, [], ◌∷◌, some, ◌==◌,
  if◌then◌else◌, arith, first, Bool-cases, Option-cases, inl, inr, ==_iff,
}
use bikenest.Base.Action.{Outcome, ok, err, is_ok, settle}
use bikenest.Base.Table.{update, first-some, first-update, first-finer}
use bikenest.Parking.{ModerationState, Location, Store, Outside}
use bikenest.Parking.Versions.{
  reaches, reaches-update, reaches-append, reaches-first, first-reaches,
}
use bikenest.Moderation.Merge.{ProposalApplication, applies_move, applies_existence}
use bikenest.Moderation.Actions
use bikenest.Moderation.Approval
use bikenest.Moderation.Approval.{applied_to}
use bikenest.Parking.Revisions.{append_revision}
use bikenest.Community.{ContributionError, ParkingEdit, NewParkingLocation}
use bikenest.Community.Locations.{
  same_location, is_active, editable, edited_by, update_editable, record_edit, edit_in_tx,
  apply_edit, write_hours, write_security, insert_revision, create, create_in_tx, insert_location,
  new_location,
}

-- What changes locations: an edit against a version, a change of state and an approval by a
-- moderator, and a new location.
pub data LocationOp : Type 0 where
  edits : ℕ → ℕ → ℕ → ParkingEdit → ℕ → LocationOp
  turns : ℕ → ℕ → List ModerationState → ModerationState → ℕ → LocationOp
  approves : ℕ → ℕ → ℕ → ProposalApplication → LocationOp
  adds : ℕ → NewParkingLocation → ℕ → LocationOp

module _ (o : Outside) where
  unfoldable pub change : LocationOp → Store → Store
  unfolding apply_edit Actions.set_parking_state Approval.approve_proposal create
  change (edits now id version edit editor) s = (apply_edit o now id version edit editor s).1
  change (turns now id from to moderator) s =
      (Actions.set_parking_state o now id from to moderator s).1
  change (approves now id moderator applied) s =
      (Approval.approve_proposal o now id moderator applied s).1
  change (adds now new creator) s = (create o now new creator s).1

  -- Whether an operation is an edit of this location against this version that succeeds.
  abbrev pub lands : ℕ → ℕ → LocationOp → Store → Bool
  lands id version (edits now i v edit editor) s =
      i == id && v == version && is_ok (apply_edit o now i v edit editor s).0
  lands id version (turns _ _ _ _ _) s = false
  lands id version (approves _ _ _ _) s = false
  lands id version (adds _ _ _) s = false

  unfoldable pub landings : ℕ → ℕ → List LocationOp → Store → ℕ
  unfolding change
  landings id version [] s = 0
  landings id version (op ∷ ops) s =
      (if lands id version op s then 1 else 0) + landings id version ops (change op s)
