-- ===== src/Parking/Proposals.antt =====
-- What a proposal asks for: `ProposedChange` and `ProposalPayload` of
-- crates/domain/src/community.rs, with the JSON object in which the column holds them.
use bikenest.Base.{Bool, true, false, ◌&&◌, Option, none, some, [], ◌∷◌, if◌then◌else◌}
use bikenest.Base.Text.{Text, codes, text_eq, trim}
use bikenest.Base.F64.{F64, is_finite, within}
use bikenest.Base.Json.{
  Json, text, object, Fields, end, field, get, as_str, as_bool, as_f64, of_f64,
}
use bikenest.Parking.{ProposalKind, move_location, change_existence}

pub data ProposedChange : Type 0 where
  moves : F64 → F64 → Option Text → ProposedChange
  changes_existence : Bool → ProposedChange
  unreadable : ProposedChange

-- `ProposedChange::kind`.
unfoldable pub change_kind : ProposedChange → Option ProposalKind
change_kind (moves _ _ _) = some move_location
change_kind (changes_existence _) = some change_existence
change_kind unreadable = none

-- `.map(str::trim).filter(|s| !s.is_empty())`.
abbrev pub non_empty : Text → Option Text
non_empty [] = none
non_empty (c ∷ s) = some (c ∷ s)

unfoldable pub trimmed : Option Text → Option Text
unfolding trim
trimmed none = none
trimmed (some s) = non_empty (trim s)

unfoldable pub coords_in_range : F64 → F64 → Bool
coords_in_range lat lon = is_finite lat && is_finite lon && within 90 lat && within 180 lon

abbrev pub exists_code : Text
exists_code = codes "exists"

abbrev pub removed_code : Text
removed_code = codes "removed"

-- The `match (lat, lon)` of `from_json`.
unfoldable pub read_move : Option F64 → Option F64 → Option Text → ProposedChange
unfolding coords_in_range trimmed
read_move (some lat) (some lon) timezone =
    if coords_in_range lat lon then moves lat lon (trimmed timezone) else unreadable
read_move none _ _ = unreadable
read_move (some _) none _ = unreadable

-- The `match` on `exists`.
unfoldable pub read_flag : Option Bool → ProposedChange
read_flag (some exists) = changes_existence exists
read_flag none = unreadable

-- The `match` on `existence`.
unfoldable pub read_existence : Option Text → Option Bool → ProposedChange
unfolding read_flag
read_existence (some c) _ =
    if text_eq c exists_code
    then changes_existence true
    else (if text_eq c removed_code then changes_existence false else unreadable)
read_existence none flag = read_flag flag

unfoldable pub change_from_json : ProposalKind → Json → ProposedChange
unfolding read_move read_existence get
change_from_json move_location raw =
    read_move (as_f64 (get (codes "lat") raw)) (as_f64 (get (codes "lon") raw))
      (as_str (get (codes "timezone") raw))
change_from_json change_existence raw =
    read_existence (as_str (get (codes "existence") raw)) (as_bool (get (codes "exists") raw))

-- The members of the object that `to_json` makes.
unfoldable pub change_fields : ProposedChange → Fields
change_fields (moves lat lon (some timezone)) =
    field (codes "lat") (of_f64 lat)
      (field (codes "lon") (of_f64 lon) (field (codes "timezone") (text timezone) end))
change_fields (moves lat lon none) =
    field (codes "lat") (of_f64 lat) (field (codes "lon") (of_f64 lon) end)
change_fields (changes_existence exists) =
    field (codes "existence") (text (if exists then exists_code else removed_code)) end
change_fields unreadable = end

unfoldable pub change_to_json : ProposedChange → Json
unfolding change_fields
change_to_json c = object (change_fields c)

pub record ProposalPayload : Type 0 where
  pub change : ProposedChange
  pub reason : Option Text

unfoldable pub new_payload : ProposedChange → Option Text → ProposalPayload
unfolding trimmed
new_payload change reason = record { change = change; reason = trimmed reason }

unfoldable pub payload_from_json : ProposalKind → Json → ProposalPayload
unfolding new_payload change_from_json get
payload_from_json kind raw =
    new_payload (change_from_json kind raw) (as_str (get (codes "reason") raw))

-- `obj.insert`: a member of the key is replaced.
unfoldable pub insert_field : Text → Json → Fields → Fields
insert_field k v end = field k v end
insert_field k v (field j w fs) =
    if text_eq j k then field j v fs else field j w (insert_field k v fs)

unfoldable pub payload_to_json : ProposalPayload → Json
unfolding change_fields insert_field
payload_to_json p = elim p.reason [
  | none ↦ object (change_fields p.change)
  | some reason ↦ object (insert_field (codes "reason") (text reason) (change_fields p.change))
]
