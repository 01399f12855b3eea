-- ===== src/Community/Locations/Parts.antt =====
-- The opening hours, the security features and the revisions of a location, as
-- crates/infrastructure/src/community/contribution.rs writes them.
use bikenest.Base.{
  ℕ, Bool, true, false, not, ◌&&◌, List, [], ◌∷◌, ◌++◌, map, none, some, ◌==◌, if◌then◌else◌,
  filter, any, first, Option, leb,
}
use bikenest.Base.Action.{ok, err, modify}
use bikenest.Base.Text.{Text, codes, text_eq}
use bikenest.Base.Json.{Json}
use bikenest.Base.Table.{update}
use bikenest.Domain.Hours.{TimeRange, OpeningHours, unknown_hours, weekly}
use bikenest.Parking.{
  SecurityState, unknown_state, SecurityFeature, ChangeKind, HourRow, SecurityRow,
}
use bikenest.Parking.Snapshot.{state_smallint}
use bikenest.Parking.Revisions.{append_revision}
use bikenest.Community.{ContributionError, invalid_field, conflict, Call}

abbrev pub is_unknown : OpeningHours → Bool
is_unknown unknown_hours = true
is_unknown (weekly _) = false

-- 23:59:59, in nanoseconds.
abbrev pub last_second : ℕ
last_second = 86399000000000

-- A row of `write_hours`.
unfoldable pub hour_row : ℕ → ℕ × TimeRange → HourRow
hour_row id (day, r) = record {
  location_id = id;
  day_of_week = day;
  opens_at = if r.all_day then 0 else r.opens_at;
  closes_at = if r.all_day then last_second else r.closes_at;
  all_day = r.all_day;
}

unfoldable pub hour_rows : ℕ → OpeningHours → List HourRow
unfolding hour_row
hour_rows id unknown_hours = []
hour_rows id (weekly rows) = map (hour_row id) rows

-- The primary key of `opening_hours`.
abbrev pub same_hours : HourRow → HourRow → Bool
same_hours a b =
    a.location_id == b.location_id
    && a.day_of_week == b.day_of_week
    && a.opens_at == b.opens_at
    && a.closes_at == b.closes_at

-- What the table has against rows that are inserted one after the other: a day that is none, or a key that
-- is taken.
unfoldable pub hours_error : List HourRow → List HourRow → Option ContributionError
hours_error done [] = none
hours_error done (r ∷ rs) =
    let rest = hours_error (r ∷ done) rs in
    if not (leb 1 r.day_of_week && leb r.day_of_week 7)
    then some invalid_field
    else (if any (same_hours r) done then some conflict else rest)

abbrev pub put_hours : ℕ → List HourRow → Option ContributionError → Call (Unit {0})
put_hours id rows (some e) s = (err e, s)
put_hours id rows none s =
    (ok tt, record s { hours = filter (λ r. not (r.location_id == id)) s.hours ++ rows })

unfoldable pub write_hours : ℕ → OpeningHours → Call (Unit {0})
unfolding hour_rows hours_error
write_hours id hours = put_hours id (hour_rows id hours) (hours_error [] (hour_rows id hours))

-- `SECURITY_FEATURE_CODES`.
abbrev pub security_feature_codes : List Text
security_feature_codes =
    codes "dedicated_locking_point"
    ∷ codes "indoor"
    ∷ codes "cctv"
    ∷ codes "staffed"
    ∷ codes "security_guard"
    ∷ codes "controlled_access"
    ∷ codes "well_lit"
    ∷ codes "restricted_access"
    ∷ []

-- The state that the first feature of a code has.
unfoldable pub state_of : List SecurityFeature → Text → SecurityState
state_of fs c = elim (first (λ f. text_eq f.code c) fs) [ none ↦ unknown_state | some f ↦ f.state ]

abbrev pub same_feature : ℕ → Text → SecurityRow → Bool
same_feature id c r = r.location_id == id && text_eq r.feature_code c

-- `ON CONFLICT … DO UPDATE`, of one row.
unfoldable pub upsert_feature : ℕ → Text → ℕ → List SecurityRow → List SecurityRow
upsert_feature id c v rows =
    if any (same_feature id c) rows
    then update (same_feature id c) (λ r. record r { state = v }) rows
    else rows ++ (record { location_id = id; feature_code = c; state = v }) ∷ []

unfoldable pub upsert_features :
    ℕ → List SecurityFeature → List Text → List SecurityRow → List SecurityRow
unfolding upsert_feature state_of state_smallint
upsert_features id fs [] rows = rows
upsert_features id fs (c ∷ cs) rows =
    upsert_features id fs cs (upsert_feature id c (state_smallint (state_of fs c)) rows)

unfoldable pub write_security : ℕ → List SecurityFeature → Call (Unit {0})
unfolding upsert_features
write_security id fs =
    modify λ s. record s { security = upsert_features id fs security_feature_codes s.security }

-- `insert_revision`.
unfoldable pub insert_revision : ℕ → ℕ → ℕ → ChangeKind → Text → Json → Call (Unit {0})
unfolding append_revision
insert_revision id version editor kind summary json = append_revision conflict (record {
  location_id = id;
  version = version;
  editor_id = some editor;
  change_kind = kind;
  summary = summary;
  snapshot = json;
})
