-- ===== src/Domain/Confidence.antt =====
-- crates/domain/src/community.rs: how far the community's signals confirm that a location exists.
use bikenest.Base.{
  ℕ, ◌-◌, ◌/◌, ◌≡◌, refl, sym, ap, ◌∙◌, Bool, true, false, ◌||◌, List, [], ◌∷◌, some, inl, inr,
  arith, ltb, if◌then◌else◌, Bool-cases, filter, any,
}
use bikenest.Domain.Freshness.{
  FreshnessThresholds, FreshnessCategory, fresh_info, recently_verified, aging, stale, very_stale,
  never, by_days, categorize,
}

pub data ExistenceResult : Type 0 where
  still_exists no_longer_exists info_changed : ExistenceResult

-- The latest existence verification of a user.
pub record ExistenceSignal : Type 0 where
  pub user : ℕ
  pub result : ExistenceResult
  pub at_time : ℕ

pub data Confidence : Type 0 where
  reported verified verified_recently aged_out conflicting : Confidence

abbrev pub denies : ExistenceSignal → Bool
denies s = elim s.result [ no_longer_exists ↦ true | _ ↦ false ]

abbrev pub confirms : ExistenceSignal → Bool
confirms s = elim s.result [ still_exists ↦ true | _ ↦ false ]

-- The comparison of `max_by`, in which the last of equals wins.
abbrev pub later_of : ExistenceSignal → ExistenceSignal → ExistenceSignal
later_of a b = if ltb b.at_time a.at_time then a else b

unfoldable pub latest_from : ExistenceSignal → List ExistenceSignal → ExistenceSignal
latest_from a [] = a
latest_from a (b ∷ l) = latest_from (later_of a b) l

abbrev pub by_category : FreshnessCategory → Confidence
by_category fresh_info = verified_recently
by_category recently_verified = verified
by_category aging = verified
by_category stale = aged_out
by_category very_stale = aged_out
by_category never = reported

unfoldable pub of_positives : List ExistenceSignal → ℕ → FreshnessThresholds → Confidence
unfolding latest_from categorize
of_positives [] now t = reported
of_positives (a ∷ l) now t = by_category (categorize (some (latest_from a l).at_time) now t)

-- `confidence`: no signals and no positive ones end alike.
unfoldable pub confidence : List ExistenceSignal → ℕ → FreshnessThresholds → Confidence
unfolding of_positives
confidence signals now t =
    if any denies signals then conflicting else of_positives (filter confirms signals) now t

-- A signal is younger than some days.
abbrev pub younger : ℕ → ℕ → ExistenceSignal → Bool
younger now days s = ltb ((now - s.at_time) / 86400) days

younger-later_of :
    (now days : ℕ) (a b : ExistenceSignal)
    → younger now days (later_of a b) ≡ (younger now days a || younger now days b)
younger-later_of now days a b = elim (Bool-cases (ltb b.at_time a.at_time)) [
  | inl e ↦ ap (younger now days) (ap (λ c. if c then a else b) e) ∙ ground (arith, e)
  | inr e ↦ ap (younger now days) (ap (λ c. if c then a else b) e) ∙ ground (arith, e)
]

any-later_of :
    (now days : ℕ) (a b : ExistenceSignal) (l : List ExistenceSignal)
    → any (younger now days) (later_of a b ∷ l) ≡ any (younger now days) (a ∷ b ∷ l)
any-later_of now days a b l = ground (arith, younger-later_of now days a b)

younger-latest_from :
    (now days : ℕ) (a : ExistenceSignal) (l : List ExistenceSignal)
    → younger now days (latest_from a l) ≡ any (younger now days) (a ∷ l)
unfolding latest_from
younger-latest_from now days a [] = ground arith
younger-latest_from now days a (b ∷ l) =
    younger-latest_from now days (later_of a b) l ∙ any-later_of now days a b l

by_category-by_days :
    (days : ℕ) (t : FreshnessThresholds)
    → by_category (by_days days t) ≡ (
        if ltb days t.fresh_days
        then verified_recently
        else (if ltb days t.recent_days || ltb days t.aging_days then verified else aged_out))
unfolding by_days
by_category-by_days days t = ground arith

-- What each member of a list of positive signals has a say in.
abbrev pub young_enough : List ExistenceSignal → ℕ → FreshnessThresholds → Confidence
young_enough [] now t = reported
young_enough (a ∷ l) now t =
    if any (younger now t.fresh_days) (a ∷ l)
    then verified_recently
    else (if any (younger now t.recent_days) (a ∷ l) || any (younger now t.aging_days) (a ∷ l)
        then verified
        else aged_out)

of_positives-young_enough :
    (l : List ExistenceSignal) (now : ℕ) (t : FreshnessThresholds)
    → of_positives l now t ≡ young_enough l now t
unfolding of_positives categorize
of_positives-young_enough [] now t = refl
of_positives-young_enough (a ∷ l) now t =
    by_category-by_days ((now - (latest_from a l).at_time) / 86400) t
    ∙ rw
        (
          sym (younger-latest_from now t.fresh_days a l),
          sym (younger-latest_from now t.recent_days a l),
          sym (younger-latest_from now t.aging_days a l),
        )
        refl

-- One denial makes a location conflicting, whatever else is said and in whichever order. Without
-- one, a confirmation in the fresh window makes it recently verified, one in the later windows
-- verified, older ones stale, and none leaves it reported: the latest confirmation decides as all
-- of them together do, whatever the thresholds.
pub confidence-young_enough :
    (signals : List ExistenceSignal) (now : ℕ) (t : FreshnessThresholds)
    → confidence signals now t
      ≡ (if any denies signals then conflicting else young_enough (filter confirms signals) now t)
unfolding confidence
confidence-young_enough signals now t =
    ap (λ c. if any denies signals then conflicting else c)
      (of_positives-young_enough (filter confirms signals) now t)
