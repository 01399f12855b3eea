-- ===== src/Parking/RoundTrip.antt =====
-- The JSON of proposals, written and read back: crates/domain/src/community.rs.
use bikenest.Base.{
  ◌≡◌, refl, ap, ap₂, Bool, true, false, Option, none, some, [], ◌∷◌, arith, Bool-cases, inl, inr,
}
use bikenest.Base.Text.{Text, codes, text_eq, trim}
use bikenest.Base.Trim.{trim-trim}
use bikenest.Base.F64.{F64, finite, not_a_number, infinite, is_finite}
use bikenest.Base.Json.{Json, get, get_field, as_str, as_bool, as_f64, of_f64}
use bikenest.Parking.{ProposalKind, move_location, change_existence}
use bikenest.Parking.Proposals.{
  ProposedChange, moves, changes_existence, unreadable, non_empty, trimmed, coords_in_range,
  read_move, read_flag, read_existence, change_from_json, change_fields, new_payload,
  payload_from_json, insert_field, payload_to_json, exists_code, removed_code,
}

trimmed-non_empty : (s : Text) → trim s ≡ s → trimmed (non_empty s) ≡ non_empty s
unfolding trimmed
trimmed-non_empty [] h = refl
trimmed-non_empty (c ∷ s) h = ap non_empty h

trimmed-trimmed : (t : Option Text) → trimmed (trimmed t) ≡ trimmed t
unfolding trimmed
trimmed-trimmed none = refl
trimmed-trimmed (some s) = trimmed-non_empty (trim s) (trim-trim s)

-- A change that a row of this kind can hold: coordinates on the globe and a trimmed name of a time
-- zone, or nothing that can be read.
abbrev pub IsStored : ProposalKind → ProposedChange → Type 0
IsStored move_location (moves lat lon timezone) =
    (coords_in_range lat lon ≡ true) × (trimmed timezone ≡ timezone)
IsStored move_location (changes_existence _) = ⊥
IsStored change_existence (moves _ _ _) = ⊥
IsStored change_existence (changes_existence _) = Unit
IsStored _ unreadable = Unit

as_f64-of_f64 : (x : F64) → is_finite x ≡ true → as_f64 (some (of_f64 x)) ≡ some x
unfolding as_f64
as_f64-of_f64 (finite s m e) h = refl
as_f64-of_f64 not_a_number h = absurd (ground arith)
as_f64-of_f64 (infinite b) h = absurd (ground arith)

in_range-finite :
    (lat lon : F64)
    → coords_in_range lat lon ≡ true
    → (is_finite lat ≡ true) × (is_finite lon ≡ true)
unfolding coords_in_range
in_range-finite lat lon h = (ground (arith, h), ground (arith, h))

read_move-written :
    (lat lon : F64) (t : Option Text)
    → coords_in_range lat lon ≡ true
    → trimmed t ≡ t
    → read_move (as_f64 (some (of_f64 lat))) (as_f64 (some (of_f64 lon))) t ≡ moves lat lon t
unfolding read_move
read_move-written lat lon t h k =
    rw (as_f64-of_f64 lat (in_range-finite lat lon h).0)
      (rw (as_f64-of_f64 lon (in_range-finite lat lon h).1) (rw h (ap (moves lat lon) k)))

new_payload-trimmed :
    (c d : ProposedChange) (r : Option Text)
    → c ≡ d
    → trimmed r ≡ r
    → new_payload c r ≡ record { change = d; reason = r }
unfolding new_payload
new_payload-trimmed c d r h k = ap₂ (λ x y. record { change = x; reason = y }) h k

-- A payload as `ProposalPayload::new` makes it is read back from the JSON that it is written to.
payload_from_json-fixed :
    (k : ProposalKind) (c : ProposedChange) (r : Option Text)
    → IsStored k c
    → trimmed r ≡ r
    → payload_from_json k (payload_to_json (record { change = c; reason = r }))
      ≡ record { change = c; reason = r }
unfolding payload_from_json payload_to_json change_from_json change_fields insert_field get
    get_field text_eq as_f64
payload_from_json-fixed move_location (moves lat lon none) none (h, k) t =
    new_payload-trimmed _ _ none (read_move-written lat lon none h k) t
payload_from_json-fixed move_location (moves lat lon none) (some r) (h, k) t =
    new_payload-trimmed _ _ (some r) (read_move-written lat lon none h k) t
payload_from_json-fixed move_location (moves lat lon (some z)) none (h, k) t =
    new_payload-trimmed _ _ none (read_move-written lat lon (some z) h k) t
payload_from_json-fixed move_location (moves lat lon (some z)) (some r) (h, k) t =
    new_payload-trimmed _ _ (some r) (read_move-written lat lon (some z) h k) t
payload_from_json-fixed move_location (changes_existence _) r h t = absurd h
payload_from_json-fixed move_location unreadable none h t = new_payload-trimmed _ _ none refl t
payload_from_json-fixed move_location unreadable (some r) h t =
    new_payload-trimmed _ _ (some r) refl t
payload_from_json-fixed change_existence (moves _ _ _) r h t = absurd h
payload_from_json-fixed change_existence (changes_existence true) none h t =
    new_payload-trimmed _ _ none refl t
payload_from_json-fixed change_existence (changes_existence true) (some r) h t =
    new_payload-trimmed _ _ (some r) refl t
payload_from_json-fixed change_existence (changes_existence false) none h t =
    new_payload-trimmed _ _ none refl t
payload_from_json-fixed change_existence (changes_existence false) (some r) h t =
    new_payload-trimmed _ _ (some r) refl t
payload_from_json-fixed change_existence unreadable none h t = new_payload-trimmed _ _ none refl t
payload_from_json-fixed change_existence unreadable (some r) h t =
    new_payload-trimmed _ _ (some r) refl t

read_move-IsStored :
    (lat lon : Option F64) (t : Option Text) → IsStored move_location (read_move lat lon t)
unfolding read_move
read_move-IsStored (some lat) (some lon) t = elim (Bool-cases (coords_in_range lat lon)) [
  | inl e ↦ rw e (e, trimmed-trimmed t)
  | inr e ↦ rw e tt
]
read_move-IsStored none _ _ = tt
read_move-IsStored (some _) none _ = tt

read_existence-IsStored :
    (c : Option Text) (b : Option Bool) → IsStored change_existence (read_existence c b)
unfolding read_existence read_flag
read_existence-IsStored (some c) b = elim (Bool-cases (text_eq c exists_code)) [
  | inl e ↦ rw e tt
  | inr e ↦ rw e (elim (Bool-cases (text_eq c removed_code)) [ inl f ↦ rw f tt | inr f ↦ rw f tt ])
]
read_existence-IsStored none none = tt
read_existence-IsStored none (some b) = tt

-- What is read from any JSON value is a change that the kind can hold.
change_from_json-IsStored : (k : ProposalKind) (j : Json) → IsStored k (change_from_json k j)
unfolding change_from_json
change_from_json-IsStored move_location j =
    read_move-IsStored (as_f64 (get (codes "lat") j)) (as_f64 (get (codes "lon") j))
      (as_str (get (codes "timezone") j))
change_from_json-IsStored change_existence j =
    read_existence-IsStored (as_str (get (codes "existence") j)) (as_bool (get (codes "exists") j))

payload-eta :
    (c : ProposedChange) (r : Option Text)
    → new_payload c r ≡ record { change = c; reason = trimmed r }
unfolding new_payload
payload-eta c r = refl

-- A change of a kind with values in range, as trimmed text, is written and read back as it was, and so
-- is its reason, whatever was typed.
pub payload_from_json-payload_to_json :
    (k : ProposalKind) (c : ProposedChange) (r : Option Text)
    → IsStored k c
    → payload_from_json k (payload_to_json (new_payload c r)) ≡ new_payload c r
payload_from_json-payload_to_json k c r h =
    rw (payload-eta c r) (payload_from_json-fixed k c (trimmed r) h (trimmed-trimmed r))

-- Whatever JSON a row holds, writing what is read from it and reading that changes nothing.
pub payload_from_json_twice :
    (k : ProposalKind) (j : Json)
    → payload_from_json k (payload_to_json (payload_from_json k j)) ≡ payload_from_json k j
unfolding payload_from_json
payload_from_json_twice k j =
    payload_from_json-payload_to_json k (change_from_json k j) (as_str (get (codes "reason") j))
      (change_from_json-IsStored k j)
