-- ===== src/Photos/Backed.antt =====
-- Whether the rows of crates/infrastructure/src/photo/repository.rs point at objects that the storage
-- holds: an upload writes the objects first, a rejection removes them last.
pub mod Rows
pub mod Calls
pub mod Runs
use bikenest.Base.{
  ◌≡◌, ℕ, Bool, true, false, not, ◌&&◌, ◌||◌, List, [], ◌∷◌, Option, none, some, if◌then◌else◌, any,
  All,
}
use bikenest.Base.Text.{Text, text_eq}
use bikenest.Moderation.Actions.{same_photo_state}
use bikenest.Parking.{photo_rejected}
use bikenest.Photos.{Photo, Store, Put, written, refused, written_unsaid}

-- A row that shows or may show its picture again.
abbrev pub live : Photo → Bool
live p = not (same_photo_state p.moderation_state photo_rejected)

abbrev pub has : Text → List Text → Bool
has key os = any (text_eq key) os

abbrev pub has_thumbnail : Option Text → List Text → Bool
has_thumbnail none os = true
has_thumbnail (some key) os = has key os

abbrev pub is_thumbnail : Text → Option Text → Bool
is_thumbnail key none = false
is_thumbnail key (some k) = text_eq key k

-- Whether a row names a key.
abbrev pub uses : Text → Photo → Bool
uses key p = text_eq key p.storage_key || is_thumbnail key p.thumbnail_key

abbrev pub holds : Text → Photo → Bool
holds key p = live p && uses key p

-- A row that is not rejected has its objects in the storage.
abbrev pub backed : List Text → Photo → Bool
backed os p = not (live p) || has p.storage_key os && has_thumbnail p.thumbnail_key os

-- No key is named by two rows.
abbrev pub Apart : List Photo → Type 0
Apart [] = Unit
Apart (p ∷ ps) = ((key : Text) → uses key p ≡ true → any (uses key) ps ≡ false) × Apart ps

abbrev pub Rows : List Text → List Photo → Type 0
Rows os ps = All (λ p. backed os p ≡ true) ps × Apart ps

-- Every row that is not rejected has its objects, and no object is of two rows.
unfoldable pub Backed : Store → Type 0
Backed s = Rows s.objects s.photos

-- A write that was done and whose reply was lost.
abbrev pub unsaid : Put → Bool
unsaid written = false
unsaid refused = false
unsaid written_unsaid = true
