-- ===== src/Domain/Freshness.antt =====
-- crates/domain/src/freshness.rs: how old a verification is. Instants are seconds on an axis without a
-- first one; a difference counts in whole days.
use bikenest.Base.{ℕ, ◌≤◌, arith, Option, none, some, ltb, if◌then◌else◌}
use bikenest.Base.{◌-◌, ◌/◌}

pub record FreshnessThresholds : Type 0 where
  pub fresh_days : ℕ
  pub recent_days : ℕ
  pub aging_days : ℕ
  pub stale_days : ℕ

abbrev pub default_thresholds : FreshnessThresholds
default_thresholds = record {
  fresh_days = 30;
  recent_days = 90;
  aging_days = 180;
  stale_days = 365;
}

pub data FreshnessCategory : Type 0 where
  fresh_info recently_verified aging stale very_stale never : FreshnessCategory

-- The chain of tests on the days.
unfoldable pub by_days : ℕ → FreshnessThresholds → FreshnessCategory
by_days days t =
    if ltb days t.fresh_days
    then fresh_info
    else (if ltb days t.recent_days
        then recently_verified
        else (if ltb days t.aging_days
            then aging
            else (if ltb days t.stale_days then stale else very_stale)))

-- `categorize`: a verification that lies ahead counts as none days old, as the subtraction here does.
unfoldable pub categorize : Option ℕ → ℕ → FreshnessThresholds → FreshnessCategory
unfolding by_days
categorize none now t = never
categorize (some verified) now t = by_days ((now - verified) / 86400) t

-- The rank of a category, from the freshest.
unfoldable pub rank : FreshnessCategory → ℕ
rank fresh_info = 0
rank recently_verified = 1
rank aging = 2
rank stale = 3
rank very_stale = 4
rank never = 5

by_days_mono : (d e : ℕ) (t : FreshnessThresholds) → d ≤ e → rank (by_days d t) ≤ rank (by_days e t)
unfolding by_days rank
by_days_mono d e t h = ground arith

-- Whatever the thresholds, an earlier verification is in no fresher category than a later one at the
-- same instant, and the same verification in no fresher category later on.
pub categorize_mono :
    (a b now later : ℕ) (t : FreshnessThresholds)
    → a ≤ b
    → now ≤ later
    → rank (categorize (some b) now t) ≤ rank (categorize (some a) later t)
unfolding categorize
categorize_mono a b now later t h k =
    by_days_mono ((now - b) / 86400) ((later - a) / 86400) t (omega arith)
