-- ===== src/Domain/Tests.antt =====
-- Hours over midnight from Sunday to Monday, and an ageing verification.
use bikenest.Base.{ℕ, ◌≤◌, ◌≡◌, false, List, [], ◌∷◌, some, arith, any, filter, if◌then◌else◌}
use bikenest.Domain.Hours.{TimeRange, weekly, open_now, closed_now, status_at}
use bikenest.Domain.Hours.Week.{of_week, in_arc, status_at-in_arc}
use bikenest.Domain.Confidence.{
  ExistenceSignal, still_exists, info_changed, denies, confirms, conflicting, young_enough,
  confidence, confidence-young_enough,
}
use bikenest.Domain.Freshness.{default_thresholds, categorize, rank, categorize_mono}

-- Sunday from 22:00 to 2:00.
abbrev night : List (ℕ × TimeRange)
night = (7, record { opens_at = 79200000000000; closes_at = 7200000000000; all_day = false }) ∷ []

status_at-in_arc_example :
    status_at 1 3600000000000 (weekly night)
    ≡ (if any (in_arc (of_week 1 3600000000000)) night then open_now else closed_now)
status_at-in_arc_example =
    status_at-in_arc 1 3600000000000 night (omega arith) (omega arith) (omega arith) (
      record {
        first_day = omega arith;
        last_day = omega arith;
        opens = omega arith;
        closes = omega arith;
      },
      tt,
    )

categorize_mono_example :
    rank (categorize (some 200) 9000000 default_thresholds)
    ≤ rank (categorize (some 100) 90000000 default_thresholds)
categorize_mono_example =
    categorize_mono 100 200 9000000 90000000 default_thresholds (omega arith) (omega arith)

abbrev signals : List ExistenceSignal
signals =
    record { user = 1; result = still_exists; at_time = 1000 }
    ∷ record { user = 2; result = info_changed; at_time = 5000 }
    ∷ record { user = 3; result = still_exists; at_time = 3000 }
    ∷ []

confidence-young_enough_example : confidence signals 9000000 default_thresholds ≡ (
    if any denies signals
    then conflicting
    else young_enough (filter confirms signals) 9000000 default_thresholds)
confidence-young_enough_example = confidence-young_enough signals 9000000 default_thresholds
