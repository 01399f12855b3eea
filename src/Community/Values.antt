-- ===== src/Community/Values.antt =====
-- The value objects of crates/domain/src/community.rs and the accessors of `NewVerification`.
use bikenest.Base.{
  ℕ, Bool, true, false, ◌&&◌, List, [], ◌∷◌, Option, none, some, leb, if◌then◌else◌, length, any,
}
use bikenest.Base.Text.{Text, codes, text_eq, trim}
use bikenest.Base.Int.{ℤ, pos, negsuc}
use bikenest.Domain.Confidence.{ExistenceResult, still_exists, no_longer_exists, info_changed}
use bikenest.Parking.Codes.{decode}
use bikenest.Community.{
  AttributeResult, correct, incorrect, NewVerification, existence, attribute, parked_here,
}

-- `StarRating::new`.
unfoldable pub star_rating : ℕ → Option ℕ
star_rating n = if leb 1 n && leb n 5 then some n else none

-- `StarRating::from_smallint`.
unfoldable pub star_rating_from : ℤ → Option ℕ
star_rating_from (pos n) = if leb 1 n && leb n 5 then some n else none
star_rating_from (negsuc _) = none

-- `ReviewBody::new`.
unfoldable pub review_body : Text → Option Text
unfolding trim
review_body raw =
    let trimmed = trim raw in
    if leb 1 (length trimmed) && leb (length trimmed) 2000 then some trimmed else none

unfoldable pub existence_code : ExistenceResult → Text
existence_code still_exists = codes "still_exists"
existence_code no_longer_exists = codes "no_longer_exists"
existence_code info_changed = codes "info_changed"

unfoldable pub existence_from_code : Text → Option ExistenceResult
unfolding decode
existence_from_code = decode (
    (codes "still_exists", still_exists)
    ∷ (codes "no_longer_exists", no_longer_exists)
    ∷ (codes "info_changed", info_changed)
    ∷ [])

unfoldable pub attribute_result_code : AttributeResult → Text
attribute_result_code correct = codes "correct"
attribute_result_code incorrect = codes "incorrect"

unfoldable pub attribute_result_from_code : Text → Option AttributeResult
unfolding decode
attribute_result_from_code =
    decode ((codes "correct", correct) ∷ (codes "incorrect", incorrect) ∷ [])

abbrev pub attribute_codes : List Text
attribute_codes =
    codes "name"
    ∷ codes "address"
    ∷ codes "type"
    ∷ codes "cost"
    ∷ codes "hours"
    ∷ codes "security"
    ∷ codes "location"
    ∷ []

unfoldable pub is_known_attribute_code : Text → Bool
is_known_attribute_code c = any (text_eq c) attribute_codes

unfoldable pub location_of : NewVerification → ℕ
location_of (existence l _ _) = l
location_of (attribute l _ _ _) = l
location_of (parked_here l _) = l

unfoldable pub user_of : NewVerification → ℕ
user_of (existence _ u _) = u
user_of (attribute _ u _ _) = u
user_of (parked_here _ u) = u

unfoldable pub is_parked_here : NewVerification → Bool
is_parked_here (existence _ _ _) = false
is_parked_here (attribute _ _ _ _) = false
is_parked_here (parked_here _ _) = true

unfoldable pub is_still_exists : NewVerification → Bool
is_still_exists (existence _ _ still_exists) = true
is_still_exists (existence _ _ no_longer_exists) = false
is_still_exists (existence _ _ info_changed) = false
is_still_exists (attribute _ _ _ _) = false
is_still_exists (parked_here _ _) = false

-- `signal_kind_code`.
unfoldable pub signal_kind_code : NewVerification → Text
signal_kind_code (existence _ _ _) = codes "existence"
signal_kind_code (attribute _ _ _ _) = codes "attribute"
signal_kind_code (parked_here _ _) = codes "parked_here"
