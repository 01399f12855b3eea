-- ===== src/Photos/Tests.antt =====
-- Runs of the photo service on concrete inputs, over an image processor that takes every image.
use bikenest.Base.{◌≡◌, refl, true, false, List, [], ◌∷◌, none, map}
use bikenest.Base.Action.{ok}
use bikenest.Base.Text.{codes}
use bikenest.Parking.{of_parking, photo_approved, photo_rejected}
use bikenest.Parking.Samples.{a_user}
use bikenest.Photos.{Store, Tools, Faults, written, refused, written_unsaid, PhotoTarget}
use bikenest.Photos.Service.{full_key}
use bikenest.Photos.Backed.{Backed, backed}
use bikenest.Photos.Backed.Runs.{
  PhotoOp, uploads, approves, rejects, runs, all_expected, runs-Backed,
}

abbrev tools : Tools
tools = record { decimal = λ n. n ∷ []; process = λ bytes. ok (codes "image/jpeg") }

abbrev nothing : Store
nothing = record {
  photos = [];
  next_parking = 1;
  next_review = 1;
  objects = [];
  audits = [];
  limiter = record { buckets = []; since_sweep = 0 };
}

abbrev a_rack : PhotoTarget
a_rack = record { kind = of_parking; parent_id = 7 }

abbrev all_well : Faults
all_well = record {
  full_put = written;
  thumb_put = written;
  row_put = written;
  full_dropped = true;
  thumb_dropped = true;
}

-- An upload whose thumbnail is refused, two that go well, an approval and a rejection.
abbrev an_evening : List PhotoOp
an_evening =
    uploads 1 (a_user 5) (codes "ip") a_rack (1 ∷ []) none (9 ∷ [])
      (record all_well { thumb_put = refused })
    ∷ uploads 2 (a_user 5) (codes "ip") a_rack (1 ∷ []) none (10 ∷ 200 ∷ []) all_well
    ∷ uploads 3 (a_user 5) (codes "ip") a_rack (1 ∷ []) none (11 ∷ []) all_well
    ∷ approves written 4 (a_user 2) of_parking 1
    ∷ rejects written 5 (a_user 2) of_parking 2 (codes "blurred") true false
    ∷ []

nothing-Backed : Backed nothing
unfolding Backed
nothing-Backed = (tt, tt)

an_evening-all_expected : all_expected tools 100 an_evening nothing ≡ true
unfolding all_expected bikenest.RateLimit.InMemory.check bikenest.RateLimit.InMemory.hit
    bikenest.RateLimit.InMemory.trim bikenest.RateLimit.InMemory.find
    bikenest.RateLimit.InMemory.make_room bikenest.RateLimit.InMemory.insert
    bikenest.Base.Text.text_eq
an_evening-all_expected = refl

a_key : full_key (10 ∷ 200 ∷ []) ≡ codes "uploads/0ac8/full.jpg"
unfolding full_key
a_key = refl

-- The first photo is shown; the second is rejected, and its full object is gone.
an_evening-states :
    map (λ p. p.moderation_state) (runs tools 100 an_evening nothing).photos
    ≡ photo_rejected ∷ photo_approved ∷ []
unfolding runs bikenest.RateLimit.InMemory.check bikenest.RateLimit.InMemory.hit
    bikenest.RateLimit.InMemory.trim bikenest.RateLimit.InMemory.find
    bikenest.RateLimit.InMemory.make_room bikenest.RateLimit.InMemory.insert
    bikenest.Base.Text.text_eq
an_evening-states = refl

-- An insert that is committed with its reply lost: the row stays, and its objects are deleted.
abbrev lost_reply : PhotoOp
lost_reply =
    uploads 2 (a_user 5) (codes "ip") a_rack (1 ∷ []) none (10 ∷ [])
      (record all_well { row_put = written_unsaid })

a_broken_row :
    map
      (backed (runs tools 100 (lost_reply ∷ []) nothing).objects)
      (runs tools 100 (lost_reply ∷ []) nothing).photos
    ≡ false ∷ []
unfolding runs bikenest.RateLimit.InMemory.check bikenest.RateLimit.InMemory.hit
    bikenest.RateLimit.InMemory.trim bikenest.RateLimit.InMemory.find
    bikenest.RateLimit.InMemory.make_room bikenest.RateLimit.InMemory.insert
    bikenest.Base.Text.text_eq
a_broken_row = refl

runs-Backed_example : Backed (runs tools 100 an_evening nothing)
runs-Backed_example =
    runs-Backed tools 100 an_evening nothing an_evening-all_expected nothing-Backed
