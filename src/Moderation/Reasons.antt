-- ===== src/Moderation/Reasons.antt =====
-- crates/domain/src/moderation.rs: the reasons for a report, what each may be about, and the
-- description.
use bikenest.Base.{ℕ, Bool, true, false, List, [], ◌∷◌, ltb, if◌then◌else◌, length, any}
use bikenest.Base.Action.{ok, err}
use bikenest.Base.Text.{Text, codes, text_eq, trim}
use bikenest.Parking.{ReportTargetType, parking, parking_photo, review, review_photo}
use bikenest.Moderation.{Outcome, invalid_field}

abbrev pub report_reasons : List Text
report_reasons =
    codes "nonexistent_parking"
    ∷ codes "incorrect_location"
    ∷ codes "incorrect_price"
    ∷ codes "incorrect_hours"
    ∷ codes "incorrect_security"
    ∷ codes "duplicate"
    ∷ codes "inappropriate_photo"
    ∷ codes "inappropriate_review"
    ∷ codes "spam"
    ∷ codes "abuse"
    ∷ codes "other"
    ∷ []

unfoldable pub is_known_report_reason : Text → Bool
is_known_report_reason c = any (text_eq c) report_reasons

abbrev pub is_photo : ReportTargetType → Bool
is_photo parking = false
is_photo parking_photo = true
is_photo review = false
is_photo review_photo = true

abbrev pub is_review : ReportTargetType → Bool
is_review parking = false
is_review parking_photo = false
is_review review = true
is_review review_photo = true

abbrev pub is_parking : ReportTargetType → Bool
is_parking parking = true
is_parking parking_photo = false
is_parking review = false
is_parking review_photo = false

unfoldable pub reason_allowed_for : ReportTargetType → Text → Bool
reason_allowed_for target reason =
    if text_eq reason (codes "inappropriate_photo")
    then is_photo target
    else (if text_eq reason (codes "inappropriate_review")
        then is_review target
        else (if text_eq reason (codes "duplicate") then is_parking target else true))

-- `ReportDescription::new_with_len`.
unfoldable pub new_description : Text → ℕ → Outcome Text
unfolding trim
new_description raw max_len =
    let trimmed = trim raw in if ltb max_len (length trimmed) then err invalid_field else ok trimmed
