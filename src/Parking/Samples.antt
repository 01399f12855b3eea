-- ===== src/Parking/Samples.antt =====
-- A small store for the tests: one location with a proposal, a review and reports.
use bikenest.Base.{ℕ, true, [], ◌∷◌, none, some}
use bikenest.Base.Text.{codes}
use bikenest.Base.Int.{pos}
use bikenest.Base.F64.{finite}
use bikenest.Base.Json.{object, field, end, text}
use bikenest.Auth.{User, active, en, user, moderator}
use bikenest.Parking.{
  rack, Location, ProposalRow, change_existence, pending, ReviewRow, review_active, review_hidden,
  Report, unclaimed, under_review, review, Store, Outside,
}

abbrev pub outside : Outside
outside = record { known_timezone = λ t. some t; time_text = λ n. n ∷ []; decimal = λ n. n ∷ [] }

abbrev pub a_user : ℕ → User
a_user id = record {
  account = record {
    id = id;
    email = codes "a@b.c";
    display_name = none;
    account_state = active;
    email_verified_at = some 1;
    locale = en;
  };
  roles = user ∷ moderator ∷ [];
}

abbrev pub a_location : Location
a_location = record {
  id = 1;
  name = codes "Rack";
  address = codes "Street 1";
  description = none;
  parking_type = rack;
  cost_kind = codes "free";
  price_cents = none;
  price_currency = none;
  price_unit = none;
  lat = finite true 25 (pos 0);
  lon = finite true 49 (pos 0);
  timezone = codes "UTC";
  hours_unknown = true;
  moderation_state = bikenest.Parking.active;
  creator_id = some 7;
  version = 3;
  rating_avg = some 400;
  rating_count = 1;
  last_meaningful_update_at = none;
  last_verified_at = none;
  updated_at = 0;
}

-- A proposal to remove the location.
abbrev pub a_proposal : ProposalRow
a_proposal = record {
  id = 5;
  location_id = 1;
  proposer_id = some 7;
  base_version = 3;
  kind = change_existence;
  proposed = object (field (codes "existence") (text (codes "removed")) end);
  status = pending;
  resolved_by = none;
  resolved_at = none;
}

abbrev pub a_review : ReviewRow
a_review = record {
  id = 9;
  location_id = 1;
  author_id = some 7;
  rating = 4;
  body = codes "good";
  moderation_state = review_active;
  updated_at = 0;
}

-- A report by user 8 on the review, which user 2 has claimed.
abbrev pub a_report : Report
a_report = record {
  id = 4;
  reporter_id = some 8;
  target_type = review;
  target_id = 9;
  reason = codes "spam";
  description = [];
  state = under_review;
  claimed_by = some 2;
  resolved_by = none;
  resolution_note = none;
  updated_at = 0;
}

abbrev pub a_store : Store
a_store = record {
  locations = a_location ∷ [];
  next_location = 2;
  hours = [];
  security = [];
  revisions = [];
  proposals = a_proposal ∷ [];
  next_proposal = 6;
  reviews = a_review ∷ [];
  next_review = 10;
  review_revisions = [];
  parking_photos = [];
  review_photos = [];
  reports = a_report ∷ [];
  next_report = 5;
  verifications = [];
  favorites = [];
  audits = [];
  limiter = record { buckets = []; since_sweep = 0 };
}
