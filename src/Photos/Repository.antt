-- ===== src/Photos/Repository.antt =====
-- `SqlxPhotoRepository` of crates/infrastructure/src/photo/repository.rs, and the two calls of the
-- object storage.
use bikenest.Base.{
  ℕ, suc, Bool, true, false, not, ◌&&◌, List, [], ◌∷◌, Option, none, some, ◌==◌, if◌then◌else◌, any,
  first, filter, ltb,
}
use bikenest.Base.Action.{ok, err, gets, pure}
use bikenest.Base.Text.{Text, text_eq}
use bikenest.Base.Table.{update}
use bikenest.Parking.{
  PhotoKind, of_parking, of_review, photo_pending, photo_approved, photo_rejected,
}
use bikenest.Moderation.Actions.{same_photo_state}
use bikenest.Photos.{
  Photo, Store, Call, PhotoTarget, NewPendingPhoto, Put, written, refused, written_unsaid,
  unavailable, not_pending, storage_error,
}

abbrev pub same_kind : PhotoKind → PhotoKind → Bool
same_kind of_parking of_parking = true
same_kind of_review of_review = true
same_kind _ _ = false

abbrev pub in_table : PhotoKind → ℕ → Photo → Bool
in_table kind id p = same_kind p.kind kind && p.id == id

abbrev pub next_id : PhotoKind → Store → ℕ
next_id of_parking s = s.next_parking
next_id of_review s = s.next_review

-- A caption and a type are columns of `parking_photo` only.
abbrev pub for_parking : {A : Type 0} → PhotoKind → Option A → Option A
for_parking of_parking a = a
for_parking of_review a = none

unfoldable pub new_photo : NewPendingPhoto → ℕ → Photo
new_photo p id = record {
  kind = p.target.kind;
  id = id;
  parent_id = p.target.parent_id;
  uploader_id = some p.uploader_id;
  content_type = for_parking p.target.kind (some p.content_type);
  alt = for_parking p.target.kind p.alt;
  storage_key = p.storage_key;
  thumbnail_key = some p.thumbnail_key;
  processed_at = p.processed_at;
  position = 0;
  moderation_state = photo_pending;
  rejection_reason = none;
  reviewed_by = none;
  reviewed_at = none;
}

abbrev pub count_up : PhotoKind → Store → Store
count_up of_parking s = record s { next_parking = suc s.next_parking }
count_up of_review s = record s { next_review = suc s.next_review }

-- A statement that the database performs, refuses, or performs without its reply coming through.
abbrev pub reported : {A : Type 0} → Put → Call A → Call A
reported written m s = m s
reported refused m s = (err unavailable, s)
reported written_unsaid m s = (err unavailable, (m s).1)

abbrev pub insert_row : NewPendingPhoto → Call ℕ
insert_row p s =
    let id = next_id p.target.kind s in
    let t = count_up p.target.kind s in (ok id, record t { photos = new_photo p id ∷ s.photos })

unfoldable pub insert_pending : Put → NewPendingPhoto → Call ℕ
unfolding new_photo
insert_pending answer p = reported answer (insert_row p)

abbrev pub on_target : PhotoTarget → Photo → Bool
on_target target p = same_kind p.kind target.kind && p.parent_id == target.parent_id

unfoldable pub highest : List Photo → ℕ
highest [] = 0
highest (p ∷ ps) = let rest = highest ps in if ltb rest p.position then p.position else rest

unfoldable pub max_position : PhotoTarget → Call ℕ
unfolding highest
max_position target = gets λ s. highest (filter (on_target target) s.photos)

-- `WHERE id = $1 AND moderation_state = 'PENDING_REVIEW'`.
abbrev pub pending_photo : PhotoKind → ℕ → Photo → Bool
pending_photo kind id p = in_table kind id p && same_photo_state p.moderation_state photo_pending

abbrev pub approved : ℕ → ℕ → ℕ → Photo → Photo
approved now moderator position p = record p {
  moderation_state = photo_approved;
  position = position;
  reviewed_by = some moderator;
  reviewed_at = some now;
}

abbrev pub approve_row : ℕ → PhotoKind → ℕ → ℕ → ℕ → Call (Unit {0})
approve_row now kind id moderator position s =
    if any (pending_photo kind id) s.photos
    then (
      ok tt,
      record s {
        photos = update (pending_photo kind id) (approved now moderator position) s.photos;
      },
    )
    else (err not_pending, s)

unfoldable pub approve : Put → ℕ → PhotoKind → ℕ → ℕ → ℕ → Call (Unit {0})
approve answer now kind id moderator position =
    reported answer (approve_row now kind id moderator position)

abbrev pub rejected : ℕ → ℕ → Text → Photo → Photo
rejected now moderator reason p = record p {
  moderation_state = photo_rejected;
  rejection_reason = some reason;
  reviewed_by = some moderator;
  reviewed_at = some now;
}

unfoldable pub reject_row : ℕ → PhotoKind → ℕ → ℕ → Text → Call (Text × Option Text)
reject_row now kind id moderator reason s = elim (first (pending_photo kind id) s.photos) [
  | none ↦ (err not_pending, s)
  | some p ↦ (
    ok (p.storage_key, p.thumbnail_key),
    record s { photos = update (pending_photo kind id) (rejected now moderator reason) s.photos },
  )
]

-- `reject`, which returns the keys of the row.
unfoldable pub reject : Put → ℕ → PhotoKind → ℕ → ℕ → Text → Call (Text × Option Text)
unfolding reject_row
reject answer now kind id moderator reason =
    reported answer (reject_row now kind id moderator reason)

unfoldable pub get_for_moderation : PhotoKind → ℕ → Call (Option Photo)
get_for_moderation kind id = gets λ s. first (in_table kind id) s.photos

-- `ObjectStorage::put`.
unfoldable pub put : Put → Text → Call (Unit {0})
put written key s = (ok tt, record s { objects = key ∷ s.objects })
put refused key s = (err storage_error, s)
put written_unsaid key s = (err storage_error, record s { objects = key ∷ s.objects })

abbrev pub without : Text → List Text → List Text
without key os = filter (λ o. not (text_eq key o)) os

-- `ObjectStorage::delete`, whose error the callers drop.
unfoldable pub drop : Bool → Text → Call (Unit {0})
drop false key s = (ok tt, s)
drop true key s = (ok tt, record s { objects = without key s.objects })

unfoldable pub drop_thumbnail : Bool → Option Text → Call (Unit {0})
unfolding drop
drop_thumbnail dropped none = pure tt
drop_thumbnail dropped (some key) = drop dropped key
