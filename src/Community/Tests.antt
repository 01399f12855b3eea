-- ===== src/Community/Tests.antt =====
-- The claims on contributions at concrete stores.
use bikenest.Base.{◌≡◌, ◌==◌, ◌≤◌, [], ◌∷◌, none, any, All, if◌then◌else◌}
use bikenest.Base.Text.{codes}
use bikenest.Domain.Hours.{unknown_hours}
use bikenest.Parking.{rack, free}
use bikenest.Parking.Samples.{outside, a_store}
use bikenest.Community.{ParkingEdit}
use bikenest.Community.Edits.{edits, landings}
use bikenest.Community.Edits.Once.{landings-once}
use bikenest.Community.Reviews.{own, upsert_review}
use bikenest.Community.Ratings.{CarriesMean, own_shown, upsert_review-CarriesMean}

abbrev renamed : ParkingEdit
renamed = record {
  name = codes "New rack";
  address = codes "Street 1";
  description = none;
  parking_type = rack;
  cost = free;
  hours = unknown_hours;
  security = [];
}

-- Two users edit version 3.
landings-once_example :
    landings outside 1 3 (edits 1 1 3 renamed 7 ∷ edits 2 1 3 renamed 8 ∷ []) a_store ≤ 1
landings-once_example =
    landings-once outside 1 3 (edits 1 1 3 renamed 7 ∷ edits 2 1 3 renamed 8 ∷ []) a_store

upsert_review-CarriesMean_example :
    All
      (CarriesMean 1 (upsert_review 1 1 7 2 (codes "bad") a_store).1.reviews)
      (upsert_review 1 1 7 2 (codes "bad") a_store).1.locations
    × (any (own_shown 1 7) (upsert_review 1 1 7 2 (codes "bad") a_store).1.reviews ≡ (
        if any (own 1 7) a_store.reviews
        then any (own_shown 1 7) a_store.reviews
        else any (λ l. l.id == 1) a_store.locations))
upsert_review-CarriesMean_example = upsert_review-CarriesMean 1 1 7 2 (codes "bad") a_store
