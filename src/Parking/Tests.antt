-- ===== src/Parking/Tests.antt =====
-- The claims on proposals at concrete values.
use bikenest.Base.{◌≡◌, refl, true, some}
use bikenest.Base.Text.{codes, trim, trim_start, trim_end, is_whitespace}
use bikenest.Base.Int.{pos}
use bikenest.Base.F64.{finite}
use bikenest.Parking.{move_location}
use bikenest.Parking.Proposals.{
  moves, trimmed, coords_in_range, new_payload, payload_from_json, payload_to_json,
}
use bikenest.Parking.RoundTrip.{IsStored, payload_from_json-payload_to_json}

a_move-IsStored :
    IsStored move_location
      (moves (finite true 25 (pos 0)) (finite true 49 (pos 0)) (some (codes "UTC")))
unfolding trimmed coords_in_range trim trim_start trim_end is_whitespace
a_move-IsStored = (refl, refl)

payload_from_json-payload_to_json_example :
    payload_from_json move_location (
      payload_to_json (
        new_payload
          (moves (finite true 25 (pos 0)) (finite true 49 (pos 0)) (some (codes "UTC")))
          (some (codes " moved "))))
    ≡ new_payload
        (moves (finite true 25 (pos 0)) (finite true 49 (pos 0)) (some (codes "UTC")))
        (some (codes " moved "))
payload_from_json-payload_to_json_example =
    payload_from_json-payload_to_json move_location
      (moves (finite true 25 (pos 0)) (finite true 49 (pos 0)) (some (codes "UTC")))
      (some (codes " moved ")) a_move-IsStored
