-- ===== src/Moderation/Silent.antt =====
-- The statements of crates/infrastructure/src/moderation write no audit event.
use bikenest.Base.{
  ◌≡◌, ℕ, Bool, true, false, List, [], ◌∷◌, Option, if◌then◌else◌, arith, first, Option-cases, inl,
  inr,
}
use bikenest.Base.Action.{Keeps, >>=-Keeps, transaction-Keeps, or_raise-Keeps, raise_if, or_raise}
use bikenest.Base.Text.{Text, codes}
use bikenest.Auth.{User}
use bikenest.Parking.{
  ModerationState, active, invalid, removed, ReportTargetType, PhotoKind, of_parking, of_review,
  Audit, Location, Report, Store, Outside, parking, parking_photo, review, review_photo,
}
use bikenest.Moderation.{
  Outcome, Call, ModerationError, ReportOutcome, as_resolved, as_dismissed, invalid_state,
}
use bikenest.Moderation.Reports.{claim, resolve}
use bikenest.Moderation.Merge.{ProposalApplication}
use bikenest.Moderation.Actions
use bikenest.Moderation.Approval
use bikenest.Moderation.Service.{require_moderator, hide_target, hide_resolved_target, hide_if}

abbrev pub Kept : List Audit → Store → Type 0
Kept before t = t.audits ≡ before

-- An action that writes no event.
abbrev pub Silent : {A : Type 0} → Call A → Type 0
Silent m = (before : List Audit) → Keeps (Kept before) m

branch :
    (c : Bool) (x y : Outcome (Unit {0}) × Store) (before : List Audit)
    → x.1.audits ≡ before
    → y.1.audits ≡ before
    → (if c then x else y).1.audits ≡ before
branch true x y before h k = h
branch false x y before h k = k

pub claim-Silent : (now id m : ℕ) → Silent (claim now id m)
unfolding claim
claim-Silent now id m before s h = branch _ _ _ before h h

pub resolve-Silent :
    (now id m : ℕ) (note : Text) (outcome : ReportOutcome) → Silent (resolve now id m note outcome)
unfolding resolve
resolve-Silent now id m note outcome before s h = branch _ _ _ before h h

pub hide_review-Silent : (now id : ℕ) → Silent (Actions.hide_review now id)
unfolding Actions.hide_review Actions.turn_review
hide_review-Silent now id before s h = branch _ _ _ before h h

pub restore_review-Silent : (now id : ℕ) → Silent (Actions.restore_review now id)
unfolding Actions.restore_review Actions.turn_review
restore_review-Silent now id before s h = branch _ _ _ before h h

pub hide_photo-Silent :
    (now : ℕ) (kind : PhotoKind) (id m : ℕ) → Silent (Actions.hide_photo now kind id m)
unfolding Actions.hide_photo Actions.turn_photo
hide_photo-Silent now of_parking id m before s h = branch _ _ _ before h h
hide_photo-Silent now of_review id m before s h = branch _ _ _ before h h

pub restore_photo-Silent :
    (now : ℕ) (kind : PhotoKind) (id m : ℕ) → Silent (Actions.restore_photo now kind id m)
unfolding Actions.restore_photo Actions.turn_photo
restore_photo-Silent now of_parking id m before s h = branch _ _ _ before h h
restore_photo-Silent now of_review id m before s h = branch _ _ _ before h h

pub update_location-Silent :
    (p : Location → Bool) (f : Location → Location) (e : ModerationError)
    → Silent (Actions.update_location p f e)
unfolding Actions.update_location
update_location-Silent p f e before s h = elim (Option-cases (first p s.locations)) [
  | inl i ↦ rw (i, Actions.update_location) h
  | inr (l, i) ↦ rw (i, Actions.update_location) h
]

pub reject_proposal-Silent : (now id m : ℕ) → Silent (Approval.reject_proposal now id m)
unfolding Approval.reject_proposal
reject_proposal-Silent now id m before s h = branch _ _ _ before h h

module _ (o : Outside) where
  pub insert_revision-Silent :
      (l : Location) (m : ℕ) (t : Text) → Silent (Actions.insert_revision o l m t)
  unfolding Actions.insert_revision bikenest.Parking.Revisions.append_revision
  insert_revision-Silent l m t before s h = branch _ _ _ before h h

  pub set_parking_state-Silent :
      (now id : ℕ) (from : List ModerationState) (to : ModerationState) (m : ℕ)
      → Silent (Actions.set_parking_state o now id from to m)
  unfolding Actions.set_parking_state
  set_parking_state-Silent now id from to m before = transaction-Keeps (Kept before) _ (
      >>=-Keeps (Kept before)
        (Actions.update_location (Actions.location_in from id) (Actions.with_state now to)
          invalid_state)
        (λ l. Actions.insert_revision o l m (codes "moderated"))
        (update_location-Silent _ _ _ before) (λ l. insert_revision-Silent l m _ before))

  pub approve_in_tx-Silent :
      (now id m : ℕ) (a : ProposalApplication) → Silent (Approval.approve_in_tx o now id m a)
  unfolding Approval.approve_in_tx Approval.lock_location Actions.update_location
      Actions.insert_revision bikenest.Parking.Revisions.append_revision
  approve_in_tx-Silent now id m a before s h = ground (arith, h)

  pub hide_target-Silent :
      (now : ℕ) (k : ReportTargetType) (id m : ℕ) → Silent (hide_target o now k id m)
  unfolding hide_target
  hide_target-Silent now parking id m = set_parking_state-Silent now id (active ∷ []) invalid m
  hide_target-Silent now parking_photo id m = hide_photo-Silent now of_parking id m
  hide_target-Silent now review id m = hide_review-Silent now id
  hide_target-Silent now review_photo id m = hide_photo-Silent now of_review id m

  pub hide_if-Silent :
      (out : ReportOutcome) (now : ℕ) (r : Report) (m : ℕ) → Silent (hide_if o out now r m)
  unfolding hide_resolved_target
  hide_if-Silent as_resolved now r m before s h =
      hide_target-Silent now r.target_type r.target_id m before s h
  hide_if-Silent as_dismissed now r m before s h = h

  pub approve_proposal-Silent :
      (now id m : ℕ) (a : ProposalApplication) → Silent (Approval.approve_proposal o now id m a)
  unfolding Approval.approve_proposal
  approve_proposal-Silent now id m a before =
      transaction-Keeps (Kept before) (Approval.approve_in_tx o now id m a)
        (approve_in_tx-Silent now id m a before)

pub or_raise-Silent : {A : Type 0} (v : Option A) (e : ModerationError) → Silent (or_raise v e)
or_raise-Silent v e before = or_raise-Keeps (Kept before) v e

pub raise_if-Silent : (c : Bool) (e : ModerationError) → Silent (raise_if c e)
raise_if-Silent c e before s h = h

pub require_moderator-Silent : (u : User) → Silent (require_moderator u)
unfolding require_moderator
require_moderator-Silent u before s h = h
