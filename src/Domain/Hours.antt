-- ===== src/Domain/Hours.antt =====
-- crates/domain/src/hours.rs: weekly opening hours. A wall-clock time is the nanoseconds since
-- midnight; the conversion of an instant into the location's time zone is outside, so that the local
-- day (1 is Monday) and time are arguments.
pub mod Week
use bikenest.Base.{
  ℕ, ◌+◌, ◌-◌, Bool, true, false, not, ◌&&◌, ◌||◌, List, [], ◌∷◌, ◌++◌, arith, ltb, leb, ◌==◌,
  if◌then◌else◌,
}

pub record TimeRange : Type 0 where
  pub opens_at : ℕ
  pub closes_at : ℕ
  pub all_day : Bool

pub data OpeningHours : Type 0 where
  unknown_hours : OpeningHours
  weekly : List (ℕ × TimeRange) → OpeningHours

pub data OpenStatus : Type 0 where
  open_now closed_now unknown_status : OpenStatus

abbrev pub yesterday : ℕ → ℕ
yesterday today = if today == 1 then 7 else today - 1

abbrev pub overnight : TimeRange → Bool
overnight r = not r.all_day && leb r.closes_at r.opens_at

-- The body of the loop in `status_at`: whether the row returns `Open`.
unfoldable pub row_open : ℕ → ℕ → ℕ × TimeRange → Bool
row_open today t (day, r) =
    if day == today && r.all_day
    then true
    else (if day == today && overnight r && leb r.opens_at t
        then true
        else (if day == today && not (overnight r) && leb r.opens_at t && ltb t r.closes_at
            then true
            else day == yesterday today && overnight r && ltb t r.closes_at))

unfoldable pub rows_status : ℕ → ℕ → List (ℕ × TimeRange) → OpenStatus
unfolding row_open
rows_status today t [] = closed_now
rows_status today t (row ∷ rows) =
    if row_open today t row then open_now else rows_status today t rows

-- `OpeningHours::status_at`, at a local day and time.
unfoldable pub status_at : ℕ → ℕ → OpeningHours → OpenStatus
unfolding rows_status
status_at today t unknown_hours = unknown_status
status_at today t (weekly rows) = rows_status today t rows
