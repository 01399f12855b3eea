-- ===== src/Domain/Hours/Week.antt =====
-- The hours as arcs of a circular week.
use bikenest.Base.{
  ℕ, ◌+◌, ◌-◌, ◌*◌, ◌≤◌, ◌<◌, ◌≡◌, refl, sym, ◌∙◌, Bool, true, false, List, [], ◌∷◌, inl, inr,
  arith, ltb, leb, if◌then◌else◌, Bool-cases, any, All,
}
use bikenest.Domain.Hours.{
  TimeRange, weekly, open_now, closed_now, row_open, rows_status, status_at,
}

-- A day in nanoseconds.
abbrev pub day_length : ℕ
day_length = 86400000000000

abbrev pub week_length : ℕ
week_length = 604800000000000

-- The instant of the week at a time of a day.
abbrev pub of_week : ℕ → ℕ → ℕ
of_week day t = (day - 1) * day_length + t

-- Where a row's arc starts, and how long it is: to the closing time that comes next.
unfoldable pub arc_start : ℕ × TimeRange → ℕ
arc_start (day, r) = of_week day (if r.all_day then 0 else r.opens_at)

unfoldable pub arc_length : TimeRange → ℕ
arc_length r =
    if r.all_day
    then day_length
    else (if ltb r.opens_at r.closes_at
        then r.closes_at - r.opens_at
        else r.closes_at + day_length - r.opens_at)

-- The way on the circle from one instant to another.
unfoldable pub way : ℕ → ℕ → ℕ
way start now = if leb start now then now - start else now + week_length - start

unfoldable pub in_arc : ℕ → ℕ × TimeRange → Bool
unfolding way arc_start arc_length
in_arc now row = ltb (way (arc_start row) now) (arc_length row.1)

-- A row's day is a weekday, and its times are within a day.
pub record IsRow (row : ℕ × TimeRange) : Type 0 where
  pub first_day : 1 ≤ row.0
  pub last_day : row.0 ≤ 7
  pub opens : row.1.opens_at < day_length
  pub closes : row.1.closes_at < day_length

row_open-all_day :
    (today t day : ℕ) (r : TimeRange)
    → 1 ≤ today
    → today ≤ 7
    → t < day_length
    → IsRow (day, r)
    → r.all_day ≡ true
    → row_open today t (day, r) ≡ in_arc (of_week today t) (day, r)
unfolding row_open in_arc way arc_start arc_length
row_open-all_day today t day r lo hi ht v a = ground (arith, a, v.first_day, v.last_day)

row_open-daytime :
    (today t day : ℕ) (r : TimeRange)
    → 1 ≤ today
    → today ≤ 7
    → t < day_length
    → IsRow (day, r)
    → r.all_day ≡ false
    → r.opens_at < r.closes_at
    → row_open today t (day, r) ≡ in_arc (of_week today t) (day, r)
unfolding row_open in_arc way arc_start arc_length
row_open-daytime today t day r lo hi ht v a d =
    ground (arith, a, v.first_day, v.last_day, v.opens, v.closes)

row_open-overnight :
    (today t day : ℕ) (r : TimeRange)
    → 1 ≤ today
    → today ≤ 7
    → t < day_length
    → IsRow (day, r)
    → r.all_day ≡ false
    → r.closes_at ≤ r.opens_at
    → row_open today t (day, r) ≡ in_arc (of_week today t) (day, r)
unfolding row_open in_arc way arc_start arc_length
row_open-overnight today t day r lo hi ht v a d =
    ground (arith, a, v.first_day, v.last_day, v.opens, v.closes)

row_open-in_arc :
    (today t : ℕ) (row : ℕ × TimeRange)
    → 1 ≤ today
    → today ≤ 7
    → t < day_length
    → IsRow row
    → row_open today t row ≡ in_arc (of_week today t) row
row_open-in_arc today t (day, r) lo hi ht v = elim (Bool-cases r.all_day) [
  | inl a ↦ row_open-all_day today t day r lo hi ht v a
  | inr a ↦ elim (Bool-cases (ltb r.opens_at r.closes_at)) [
    | inl d ↦ row_open-daytime today t day r lo hi ht v a (ground (arith, d))
    | inr d ↦ row_open-overnight today t day r lo hi ht v a (ground (arith, d))
  ]
]

-- At a local day and time, a location with weekly hours is open exactly if the instant lies on the
-- arc of one of its rows, on a circular week: a row runs from its opening time to the closing time
-- that comes next, past midnight and from Sunday to Monday too, or over its whole day.
pub status_at-in_arc :
    (today t : ℕ) (rows : List (ℕ × TimeRange))
    → 1 ≤ today
    → today ≤ 7
    → t < day_length
    → All IsRow rows
    → status_at today t (weekly rows)
      ≡ (if any (in_arc (of_week today t)) rows then open_now else closed_now)
unfolding status_at rows_status
status_at-in_arc today t [] lo hi ht v = refl
status_at-in_arc today t (row ∷ rows) lo hi ht v = elim (Bool-cases (row_open today t row)) [
  | inl e ↦ rw (e, sym (row_open-in_arc today t row lo hi ht v.0) ∙ e) refl
  | inr e ↦
      rw (e, sym (row_open-in_arc today t row lo hi ht v.0) ∙ e)
        (status_at-in_arc today t rows lo hi ht v.1)
]
