-- ===== src/Parking/Snapshot.antt =====
-- The JSON of a location that a revision keeps: `snapshot_of` of
-- crates/infrastructure/src/community/contribution.rs from the values that were written, and
-- `snapshot_with` of crates/infrastructure/src/moderation/actions.rs from the rows.
use bikenest.Base.{
  ◌≡◌, refl, ℕ, Bool, true, false, Option, none, some, List, if◌then◌else◌, filter, ◌==◌, ◌&&◌,
  ◌||◌, ltb, leb,
}
use bikenest.Base.Text.{Text, codes, text_eq}
use bikenest.Base.Int.{ℤ, pos}
use bikenest.Base.Table.{sort_by}
use bikenest.Base.F64.{F64}
use bikenest.Base.Json.{
  Json, boolean, integer, text, array, object, Items, nil, cons, end, field, of_f64, of_option,
  items,
}
use bikenest.Domain.Hours.{TimeRange, OpeningHours, unknown_hours, weekly}
use bikenest.Parking.{
  Cost, free, paid, unknown_cost, SecurityState, unknown_state, yes, no, SecurityFeature, Location,
  HourRow, SecurityRow, Store, Outside,
}
use bikenest.Parking.Codes.{pricing_unit_code, parking_type_code, moderation_state_code}

-- The columns of the cost: kind, cents, currency and unit.
pub record CostParts : Type 0 where
  pub kind : Text
  pub cents : Option ℤ
  pub currency : Option Text
  pub unit : Option Text

unfoldable pub cost_parts : Cost → CostParts
unfolding pricing_unit_code
cost_parts free = record { kind = codes "free"; cents = none; currency = none; unit = none }
cost_parts unknown_cost = record {
  kind = codes "unknown";
  cents = none;
  currency = none;
  unit = none;
}
cost_parts (paid none) = record { kind = codes "paid"; cents = none; currency = none; unit = none }
cost_parts (paid (some p)) = record {
  kind = codes "paid";
  cents = some p.cents;
  currency = some p.currency;
  unit = some (pricing_unit_code p.unit);
}

unfoldable pub kind_only : Text → Json
kind_only k = object (field (codes "kind") (text k) end)

unfoldable pub paid_json : ℤ → Text → Text → Json
paid_json cents currency unit = object (
    field (codes "kind") (text (codes "paid")) (
      field (codes "cents") (integer cents)
        (field (codes "currency") (text currency) (field (codes "unit") (text unit) end))))

-- The `match` of `cost_json` on a paid cost's columns.
unfoldable pub paid_columns : Option ℤ → Option Text → Option Text → Json
unfolding paid_json kind_only
paid_columns (some c) (some currency) (some unit) = paid_json c currency unit
paid_columns (some _) (some _) none = kind_only (codes "paid")
paid_columns (some _) none _ = kind_only (codes "paid")
paid_columns none _ _ = kind_only (codes "paid")

-- `cost_json` of the moderation repository.
unfoldable pub cost_json : CostParts → Json
unfolding kind_only paid_columns
cost_json c =
    if text_eq c.kind (codes "free")
    then kind_only (codes "free")
    else (if text_eq c.kind (codes "unknown")
        then kind_only (codes "unknown")
        else (if text_eq c.kind (codes "paid")
            then paid_columns c.cents c.currency c.unit
            else kind_only (codes "unknown")))

-- `cost_json` in `snapshot_of`.
unfoldable pub cost_of : Cost → Json
unfolding kind_only paid_json pricing_unit_code
cost_of free = kind_only (codes "free")
cost_of unknown_cost = kind_only (codes "unknown")
cost_of (paid none) = kind_only (codes "paid")
cost_of (paid (some p)) = paid_json p.cents p.currency (pricing_unit_code p.unit)

unfoldable pub state_smallint : SecurityState → ℕ
state_smallint unknown_state = 0
state_smallint yes = 1
state_smallint no = 2

unfoldable pub security_of : SecurityFeature → Json
unfolding state_smallint
security_of f = array (cons (text f.code) (cons (integer (pos (state_smallint f.state))) nil))

unfoldable pub security_row_json : SecurityRow → Json
security_row_json r = array (cons (text r.feature_code) (cons (integer (pos r.state)) nil))

-- The object that both functions make.
unfoldable pub snapshot :
    Text → Text → Option Text → Text → Json → F64 → F64 → Text → Json → Json → Text → Json
snapshot name address description kind cost lat lon timezone hours security state = object (
    field (codes "name") (text name) (
      field (codes "address") (text address) (
        field (codes "description") (of_option text description) (
          field (codes "type") (text kind) (
            field (codes "cost") cost (
              field (codes "point")
                (object (field (codes "lat") (of_f64 lat) (field (codes "lon") (of_f64 lon) end)))
                (field (codes "timezone") (text timezone) (
                  field (codes "hours") hours (
                    field (codes "security") security
                      (field (codes "moderation_state") (text state) end))))))))))

module _ (o : Outside) where
  -- A row of the hours: the day, the times and whether it is open all day.
  unfoldable pub hour_json : ℕ → ℕ → ℕ → Bool → Json
  hour_json day opens closes all_day = array (
      cons (integer (pos day)) (
        cons (text (o.time_text opens))
          (cons (text (o.time_text closes)) (cons (boolean all_day) nil))))

  abbrev pub range_json : ℕ × TimeRange → Json
  range_json (day, r) = hour_json day r.opens_at r.closes_at r.all_day

  unfoldable pub hours_object : Bool → Items → Json
  hours_object unknown rows =
      object (field (codes "unknown") (boolean unknown) (field (codes "rows") (array rows) end))

  -- `hours_json` in `snapshot_of`.
  unfoldable pub hours_of : OpeningHours → Json
  unfolding hours_object hour_json
  hours_of unknown_hours = hours_object true nil
  hours_of (weekly rows) = hours_object false (items range_json rows)

  abbrev pub by_day : HourRow → HourRow → Bool
  by_day a b =
      ltb a.day_of_week b.day_of_week
      || (a.day_of_week == b.day_of_week && leb a.opens_at b.opens_at)

  abbrev pub row_json : HourRow → Json
  row_json r = hour_json r.day_of_week r.opens_at r.closes_at r.all_day

  -- `read_hours_json`, by day and opening time, and `read_security_json`.
  unfoldable pub read_hours_json : ℕ → Bool → List HourRow → Json
  unfolding hours_object hour_json
  read_hours_json id unknown rows =
      hours_object unknown
        (items row_json (sort_by by_day (filter (λ r. r.location_id == id) rows)))

  unfoldable pub read_security_json : ℕ → List SecurityRow → Json
  unfolding security_row_json
  read_security_json id rows =
      array (items security_row_json (filter (λ r. r.location_id == id) rows))

  unfoldable pub snapshot_with : Store → Location → Json
  unfolding snapshot cost_json read_hours_json read_security_json parking_type_code
      moderation_state_code
  snapshot_with s l =
      snapshot l.name l.address l.description (parking_type_code l.parking_type)
        (cost_json (record {
          kind = l.cost_kind;
          cents = l.price_cents;
          currency = l.price_currency;
          unit = l.price_unit;
        }))
        l.lat l.lon l.timezone (read_hours_json l.id l.hours_unknown s.hours)
        (read_security_json l.id s.security) (moderation_state_code l.moderation_state)

-- The cost that a moderator's revision reads back from the columns is the one that an edit's revision
-- made of the value.
pub cost_json-cost_parts : (c : Cost) → cost_json (cost_parts c) ≡ cost_of c
unfolding cost_json cost_parts cost_of paid_columns text_eq
cost_json-cost_parts free = refl
cost_json-cost_parts unknown_cost = refl
cost_json-cost_parts (paid none) = refl
cost_json-cost_parts (paid (some p)) = refl
