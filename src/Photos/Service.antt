-- ===== src/Photos/Service.antt =====
-- `PhotoService` of crates/application/src/photo.rs. The random bytes of an upload, the instant and what
-- the storage does are arguments; the listing of the queue, for display, is left out.
use bikenest.Base.{
  ℕ, ◌+◌, ◌/◌, ◌%◌, Bool, true, not, List, [], ◌∷◌, ◌++◌, Option, none, some, if◌then◌else◌, ltb,
  leb, length, take,
}
use bikenest.Base.Action.{ok, err, pure, answer, or_raise, raise_if, modify, ◌>>=◌, ◌>>◌}
use bikenest.Base.Text.{Text, codes, trim}
use bikenest.Base.Int.{pos}
use bikenest.Base.Json.{Json, integer, text, object, end, field}
use bikenest.RateLimit.InMemory
use bikenest.Auth.{User}
use bikenest.Auth.Accounts.{is_empty}
use bikenest.Parking.{
  PhotoKind, of_parking, of_review, PhotoModerationState, photo_pending, photo_approved,
  photo_rejected, photo_hidden,
}
use bikenest.Moderation.Service.{is_moderator}
use bikenest.Community.Service.{is_verified}
use bikenest.Photos.{
  Store, Call, Outcome, PhotoTarget, NewPendingPhoto, Faults, Put, Tools, not_verified,
  rate_limited, too_large, not_found, not_pending, unauthorized, invalid_field,
}
use bikenest.Photos.Repository.{
  insert_pending, max_position, approve, reject, get_for_moderation, put, drop, drop_thumbnail,
}

unfoldable pub require_verified : User → Call (Unit {0})
require_verified u = raise_if (not (is_verified u)) not_verified

unfoldable pub require_moderator : User → Call (Unit {0})
require_moderator u = raise_if (not (is_moderator u)) unauthorized

abbrev pub photo_upload_user_limit : ℕ
photo_upload_user_limit = 10

abbrev pub photo_upload_ip_limit : ℕ
photo_upload_ip_limit = 20

abbrev pub day : ℕ
day = 86400000

abbrev pub max_alt_len : ℕ
max_alt_len = 500

-- `allowed`, over the limiter of one process.
unfoldable pub allowed : ℕ → Text → ℕ → ℕ → Call (Unit {0})
allowed now key limit window s =
    let (granted, l) = InMemory.check now key limit window s.limiter in
    (if granted then ok tt else err rate_limited, record s { limiter = l })

unfoldable pub audit : User → Text → Text → ℕ → Json → Call (Unit {0})
audit u action target_type target_id metadata = modify λ s. record s {
  audits =
      s.audits
      ++ (record {
        actor = some u.account.id;
        action = action;
        target_type = target_type;
        target_id = target_id;
        metadata = metadata;
      })
        ∷ [];
}

abbrev pub alt_of : Text → Outcome (Option Text)
alt_of raw =
    if is_empty raw
    then ok none
    else if ltb max_alt_len (length raw)
    then err invalid_field
    else ok (some raw)

unfoldable pub normalize_alt : Option Text → Outcome (Option Text)
unfolding trim
normalize_alt none = ok none
normalize_alt (some raw) = alt_of (trim raw)

-- `{b:02x}`.
abbrev pub hex_digit : ℕ → ℕ
hex_digit n = if ltb n 10 then 48 + n else 87 + n

unfoldable pub hex : List ℕ → Text
hex [] = []
hex (b ∷ bs) = hex_digit (b / 16) ∷ hex_digit (b % 16) ∷ hex bs

unfoldable pub mint_upload_id : List ℕ → Text
unfolding hex
mint_upload_id bytes = hex (take 16 bytes)

unfoldable pub full_key : List ℕ → Text
unfolding mint_upload_id
full_key draw = codes "uploads/" ++ mint_upload_id draw ++ codes "/full.jpg"

unfoldable pub thumb_key : List ℕ → Text
unfolding mint_upload_id
thumb_key draw = codes "uploads/" ++ mint_upload_id draw ++ codes "/thumb.jpg"

abbrev pub table_code : PhotoKind → Text
table_code of_parking = codes "parking_photo"
table_code of_review = codes "review_photo"

-- What is done on the error of a call, which is the error of the whole.
abbrev pub cleaned : {A : Type 0} → Call (Unit {0}) → Outcome A × Store → Outcome A × Store
cleaned clean (ok a, t) = (ok a, t)
cleaned clean (err e, t) = (err e, (clean t).1)

abbrev pub on_error : {A : Type 0} → Call A → Call (Unit {0}) → Call A
on_error m clean s = cleaned clean (m s)

-- `upload_photo`, from the first write to the row.
unfoldable pub store_upload : NewPendingPhoto → Put → Put → Put → Bool → Bool → Call ℕ
unfolding put insert_pending drop
store_upload new full_put thumb_put row_put full_dropped thumb_dropped = do
  put full_put new.storage_key
  on_error (put thumb_put new.thumbnail_key) (drop full_dropped new.storage_key)
  on_error (insert_pending row_put new)
      (drop thumb_dropped new.thumbnail_key >> drop full_dropped new.storage_key)

abbrev pub pending_of : ℕ → User → PhotoTarget → List ℕ → Option Text → Text → NewPendingPhoto
pending_of now u target draw alt content_type = record {
  target = target;
  uploader_id = u.account.id;
  content_type = content_type;
  alt = alt;
  storage_key = full_key draw;
  thumbnail_key = thumb_key draw;
  processed_at = now;
}

-- `upload_photo`, after its checks.
unfoldable pub upload_checked :
    ℕ → User → PhotoTarget → List ℕ → Faults → Option Text × Text → Call ℕ
unfolding store_upload audit full_key thumb_key
upload_checked now u target draw f checked = do
  id ←
      store_upload (pending_of now u target draw checked.0 checked.1) f.full_put f.thumb_put
        f.row_put f.full_dropped f.thumb_dropped
  audit u (codes "photo.uploaded") (table_code target.kind) id
      (object (field (codes "parent_id") (integer (pos target.parent_id)) end))
  pure id

module _ (o : Tools) (max_bytes : ℕ) where
  -- The caption and the type of the processed image.
  unfoldable pub typed_image : List ℕ → Option Text → Call (Option Text × Text)
  typed_image bytes caption =
      answer (o.process bytes) >>= λ content_type. pure (caption, content_type)

  unfoldable pub check_image : List ℕ → Option Text → Call (Option Text × Text)
  unfolding normalize_alt typed_image
  check_image bytes alt = do
    raise_if (not (leb (length bytes) max_bytes)) too_large
    caption ← answer (normalize_alt alt)
    typed_image bytes caption

  abbrev pub user_key : User → Text
  user_key u = codes "photo:upload:user:" ++ o.decimal u.account.id

  abbrev pub ip_key : Text → Text
  ip_key ip = codes "photo:upload:ip:" ++ ip

  -- The checks of `upload_photo`.
  unfoldable pub check_upload : ℕ → User → Text → List ℕ → Option Text → Call (Option Text × Text)
  unfolding require_verified allowed check_image
  check_upload now u ip bytes alt = do
    require_verified u
    allowed now (user_key u) photo_upload_user_limit day
    allowed now (ip_key ip) photo_upload_ip_limit day
    check_image bytes alt

  unfoldable pub upload_photo :
      ℕ → User → Text → PhotoTarget → List ℕ → Option Text → List ℕ → Faults → Call ℕ
  unfolding check_upload upload_checked
  upload_photo now u ip target bytes alt draw f = do
    checked ← check_upload now u ip bytes alt
    upload_checked now u target draw f checked

-- `approve_photo` of a pending photo.
unfoldable pub approve_pending : Put → ℕ → User → PhotoKind → ℕ → ℕ → Call (Unit {0})
unfolding max_position approve audit
approve_pending answer now u kind id parent = do
  last ← max_position (record { kind = kind; parent_id = parent })
  approve answer now kind id u.account.id (last + 1)
  audit u (codes "photo.approved") (table_code kind) id
      (object (field (codes "position") (integer (pos (last + 1))) end))

abbrev pub approve_by_state :
    Put → ℕ → User → PhotoKind → ℕ → ℕ → PhotoModerationState → Call (Unit {0})
approve_by_state answer now u kind id parent photo_pending =
    approve_pending answer now u kind id parent
approve_by_state answer now u kind id parent photo_approved = pure tt
approve_by_state answer now u kind id parent photo_rejected = raise_if true not_pending
approve_by_state answer now u kind id parent photo_hidden = raise_if true not_pending

unfoldable pub approve_photo : Put → ℕ → User → PhotoKind → ℕ → Call (Unit {0})
unfolding require_moderator get_for_moderation approve_pending
approve_photo answer now u kind id = do
  require_moderator u
  found ← get_for_moderation kind id
  photo ← or_raise found not_found
  approve_by_state answer now u kind id photo.parent_id photo.moderation_state

-- The two deletes of `reject_photo`; the flags tell which of them the storage performs.
unfoldable pub remove_objects : Bool → Bool → Text × Option Text → Call (Unit {0})
unfolding drop drop_thumbnail
remove_objects full_dropped thumb_dropped keys =
    drop full_dropped keys.0 >> drop_thumbnail thumb_dropped keys.1

-- `reject_photo` of a pending photo.
unfoldable pub reject_pending :
    Put → ℕ → User → PhotoKind → ℕ → Text → Bool → Bool → Call (Unit {0})
unfolding reject remove_objects audit
reject_pending answer now u kind id reason full_dropped thumb_dropped = do
  keys ← reject answer now kind id u.account.id reason
  remove_objects full_dropped thumb_dropped keys
  audit u (codes "photo.rejected") (table_code kind) id
      (object (field (codes "reason") (text reason) end))

abbrev pub reject_by_state :
    Put → ℕ → User → PhotoKind → ℕ → Text → Bool → Bool → PhotoModerationState → Call (Unit {0})
reject_by_state answer now u kind id reason d e photo_pending =
    reject_pending answer now u kind id reason d e
reject_by_state answer now u kind id reason d e photo_rejected = pure tt
reject_by_state answer now u kind id reason d e photo_approved = raise_if true not_pending
reject_by_state answer now u kind id reason d e photo_hidden = raise_if true not_pending

unfoldable pub reject_photo : Put → ℕ → User → PhotoKind → ℕ → Text → Bool → Bool → Call (Unit {0})
unfolding require_moderator get_for_moderation reject_pending trim
reject_photo answer now u kind id typed full_dropped thumb_dropped = do
  require_moderator u
  raise_if (is_empty (trim typed)) invalid_field
  found ← get_for_moderation kind id
  photo ← or_raise found not_found
  reject_by_state answer now u kind id (trim typed) full_dropped thumb_dropped
      photo.moderation_state
