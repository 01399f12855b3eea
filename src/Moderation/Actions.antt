-- ===== src/Moderation/Actions.antt =====
-- crates/infrastructure/src/moderation/actions.rs: what a moderator does to reviews, photos,
-- locations and proposals. A row is changed under a condition on its state; no row is an error.
use bikenest.Base.{
  ℕ, suc, Bool, true, false, ◌&&◌, List, none, some, ◌==◌, if◌then◌else◌, any, first,
}
use bikenest.Base.Action.{ok, err, gets, transaction, ◌>>=◌}
use bikenest.Base.Text.{Text, codes}
use bikenest.Base.Table.{update}
use bikenest.Parking.{
  ModerationState, active, pending_review, flagged, invalid, removed, PhotoModerationState,
  photo_pending, photo_approved, photo_rejected, photo_hidden, PhotoKind, of_parking, of_review,
  ReviewState, review_active, review_hidden, moderated, ReportTargetType, parking, parking_photo,
  review, review_photo, Location, ReviewRow, PhotoRow, Store, Outside,
}
use bikenest.Parking.Snapshot.{snapshot_with}
use bikenest.Parking.Revisions.{append_revision}
use bikenest.Moderation.{ModerationError, invalid_state, conflict, Call}

unfoldable pub target_exists : ReportTargetType → ℕ → Call Bool
target_exists parking id = gets λ s. any (λ l. l.id == id) s.locations
target_exists parking_photo id = gets λ s. any (λ p. p.id == id) s.parking_photos
target_exists review id = gets λ s. any (λ r. r.id == id) s.reviews
target_exists review_photo id = gets λ s. any (λ p. p.id == id) s.review_photos

abbrev pub same_review_state : ReviewState → ReviewState → Bool
same_review_state review_active review_active = true
same_review_state review_hidden review_hidden = true
same_review_state _ _ = false

abbrev pub review_in : ReviewState → ℕ → ReviewRow → Bool
review_in st id r = r.id == id && same_review_state r.moderation_state st

abbrev pub turned : ℕ → ReviewState → ReviewRow → ReviewRow
turned now st r = record r { moderation_state = st; updated_at = now }

-- `hide_review` and `restore_review`, from one state to the other.
unfoldable pub turn_review : ℕ → ReviewState → ReviewState → ℕ → Call (Unit {0})
turn_review now from to id s =
    if any (review_in from id) s.reviews
    then (ok tt, record s { reviews = update (review_in from id) (turned now to) s.reviews })
    else (err invalid_state, s)

unfoldable pub hide_review : ℕ → ℕ → Call (Unit {0})
unfolding turn_review
hide_review now id = turn_review now review_active review_hidden id

unfoldable pub restore_review : ℕ → ℕ → Call (Unit {0})
unfolding turn_review
restore_review now id = turn_review now review_hidden review_active id

abbrev pub same_photo_state : PhotoModerationState → PhotoModerationState → Bool
same_photo_state photo_pending photo_pending = true
same_photo_state photo_approved photo_approved = true
same_photo_state photo_rejected photo_rejected = true
same_photo_state photo_hidden photo_hidden = true
same_photo_state _ _ = false

abbrev pub photo_in : PhotoModerationState → ℕ → PhotoRow → Bool
photo_in st id p = p.id == id && same_photo_state p.moderation_state st

abbrev pub reviewed : ℕ → ℕ → PhotoModerationState → PhotoRow → PhotoRow
reviewed now moderator st p = record p {
  moderation_state = st;
  reviewed_by = some moderator;
  reviewed_at = some now;
}

-- `PhotoKind::table`.
abbrev pub photos_of : PhotoKind → Store → List PhotoRow
photos_of of_parking s = s.parking_photos
photos_of of_review s = s.review_photos

abbrev pub with_photos : PhotoKind → List PhotoRow → Store → Store
with_photos of_parking ps s = record s { parking_photos = ps }
with_photos of_review ps s = record s { review_photos = ps }

-- `hide_photo` and `restore_photo`, from one state to the other.
unfoldable pub turn_photo :
    ℕ → PhotoModerationState → PhotoModerationState → PhotoKind → ℕ → ℕ → Call (Unit {0})
turn_photo now from to kind id moderator s =
    if any (photo_in from id) (photos_of kind s)
    then (
      ok tt,
      with_photos kind (update (photo_in from id) (reviewed now moderator to) (photos_of kind s)) s,
    )
    else (err invalid_state, s)

unfoldable pub hide_photo : ℕ → PhotoKind → ℕ → ℕ → Call (Unit {0})
unfolding turn_photo
hide_photo now = turn_photo now photo_approved photo_hidden

unfoldable pub restore_photo : ℕ → PhotoKind → ℕ → ℕ → Call (Unit {0})
unfolding turn_photo
restore_photo now = turn_photo now photo_hidden photo_approved

abbrev pub same_moderation : ModerationState → ModerationState → Bool
same_moderation active active = true
same_moderation pending_review pending_review = true
same_moderation flagged flagged = true
same_moderation invalid invalid = true
same_moderation removed removed = true
same_moderation _ _ = false

-- `UPDATE parking_location … RETURNING`, of the row by its id.
unfoldable pub update_location :
    (Location → Bool) → (Location → Location) → ModerationError → Call Location
update_location p f e s = elim (first p s.locations) [
  | none ↦ (err e, s)
  | some l ↦ (ok (f l), record s { locations = update p f s.locations })
]

abbrev pub location_in : List ModerationState → ℕ → Location → Bool
location_in from id l = l.id == id && any (same_moderation l.moderation_state) from

abbrev pub with_state : ℕ → ModerationState → Location → Location
with_state now to l = record l { moderation_state = to; version = suc l.version; updated_at = now }

module _ (o : Outside) where
  -- The revision that a moderator's change of a location leaves.
  unfoldable pub insert_revision : Location → ℕ → Text → Call (Unit {0})
  unfolding append_revision snapshot_with
  insert_revision l editor summary s =
      append_revision conflict
        (record {
          location_id = l.id;
          version = l.version;
          editor_id = some editor;
          change_kind = moderated;
          summary = summary;
          snapshot = snapshot_with o s l;
        })
        s

  unfoldable pub set_parking_state :
      ℕ → ℕ → List ModerationState → ModerationState → ℕ → Call (Unit {0})
  unfolding update_location insert_revision
  set_parking_state now id from to moderator = transaction (
      update_location (location_in from id) (with_state now to) invalid_state >>= λ l.
      insert_revision l moderator (codes "moderated"))
