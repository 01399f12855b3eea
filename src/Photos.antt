-- ===== src/Photos.antt =====
-- Photos: crates/application/src/photo.rs over crates/infrastructure/src/photo/repository.rs and an
-- object storage. The two tables of photos are one list whose rows carry their kind; the storage is the
-- list of the keys that it holds. A photo's dimensions are left out.
pub mod Repository
pub mod Service
pub mod Backed
mod Tests
use bikenest.Base.{ℕ, Bool, List, Option}
use bikenest.Base.Action
use bikenest.Base.Text.{Text}
use bikenest.RateLimit.InMemory.{Buckets}
use bikenest.Parking.{PhotoModerationState, PhotoKind, Audit}

pub data PhotoError : Type 0 where
  not_verified rate_limited too_large unsupported_format undecodable too_many_pixels : PhotoError
  not_found not_pending unauthorized invalid_field storage_error conflict : PhotoError
  unavailable internal : PhotoError

-- A row of `parking_photo` or `review_photo`.
pub record Photo : Type 0 where
  pub kind : PhotoKind
  pub id : ℕ
  pub parent_id : ℕ
  pub uploader_id : Option ℕ
  pub content_type : Option Text
  pub alt : Option Text
  pub storage_key : Text
  pub thumbnail_key : Option Text
  pub processed_at : ℕ
  pub position : ℕ
  pub moderation_state : PhotoModerationState
  pub rejection_reason : Option Text
  pub reviewed_by : Option ℕ
  pub reviewed_at : Option ℕ

pub record Store : Type 0 where
  pub photos : List Photo
  pub next_parking : ℕ
  pub next_review : ℕ
  pub objects : List Text
  pub audits : List Audit
  pub limiter : Buckets

abbrev pub Outcome : Type 0 → Type 0
Outcome A = Action.Outcome PhotoError A

abbrev pub Call : Type 0 → Type 0
Call A = Action.Action Store PhotoError A

-- `PhotoTarget`, as its kind and the id of its parent.
pub record PhotoTarget : Type 0 where
  pub kind : PhotoKind
  pub parent_id : ℕ

pub record NewPendingPhoto : Type 0 where
  pub target : PhotoTarget
  pub uploader_id : ℕ
  pub content_type : Text
  pub alt : Option Text
  pub storage_key : Text
  pub thumbnail_key : Text
  pub processed_at : ℕ

-- What becomes of a write to the storage or the database: an error may come after it was done.
pub data Put : Type 0 where
  written refused written_unsaid : Put

-- What the storage and the database do in one upload; a delete may fail, which nobody sees.
pub record Faults : Type 0 where
  pub full_put : Put
  pub thumb_put : Put
  pub row_put : Put
  pub full_dropped : Bool
  pub thumb_dropped : Bool

-- The printing of an id, and the image processor on the bytes of an upload.
pub record Tools : Type 0 where
  pub decimal : ℕ → Text
  pub process : List ℕ → Outcome Text
