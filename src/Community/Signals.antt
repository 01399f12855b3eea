-- ===== src/Community/Signals.antt =====
-- crates/infrastructure/src/community/verification.rs: the signals of users on a location.
use bikenest.Base.{
  ℕ, ◌+◌, ◌*◌, Bool, true, ◌&&◌, ◌||◌, List, [], ◌∷◌, ◌++◌, Option, none, some, ltb, ◌==◌,
  if◌then◌else◌, length, filter,
}
use bikenest.Base.Action.{ok, err, gets, modify}
use bikenest.Base.Text.{Text, codes, text_eq}
use bikenest.Base.Table.{update, sort_by}
use bikenest.Domain.Confidence.{ExistenceSignal}
use bikenest.Parking.{VerificationRow}
use bikenest.Community.{
  invalid_field, Outcome, Call, NewVerification, existence, attribute, parked_here,
}
use bikenest.Community.Values.{
  existence_code, existence_from_code, attribute_result_code, location_of, user_of,
}

-- `PARKED_HERE_RETENTION_DAYS`, in milliseconds.
abbrev pub parked_here_retention : ℕ
parked_here_retention = 90 * 86400000

-- The columns that `record` derives from the signal: kind, result, attribute and expiry.
unfoldable pub columns : ℕ → NewVerification → Text × Text × Option Text × Option ℕ
unfolding existence_code attribute_result_code
columns now (existence _ _ r) = (codes "existence", existence_code r, none, none)
columns now (attribute _ _ c r) = (codes "attribute", attribute_result_code r, some c, none)
columns now (parked_here _ _) =
    (codes "parked_here", codes "parked_here", none, some (now + parked_here_retention))

unfoldable pub verification_row : ℕ → ℕ → NewVerification → VerificationRow
unfolding columns location_of user_of
verification_row db_now now v =
    let c = columns now v in
    record {
      location_id = location_of v;
      user_id = some (user_of v);
      kind = c.0;
      result = c.1;
      attribute_code = c.2;
      created_at = db_now;
      expires_at = c.3;
    }

-- `record`, at the instant of the service; the row is stamped with that of the database.
unfoldable pub record_signal : ℕ → ℕ → NewVerification → Call (Unit {0})
unfolding verification_row
record_signal db_now now v =
    modify λ s. record s { verifications = s.verifications ++ verification_row db_now now v ∷ [] }

unfoldable pub mark_verified_at : ℕ → ℕ → Call (Unit {0})
mark_verified_at location at_time = modify λ s. record s {
  locations =
      update (λ l. l.id == location) (λ l. record l { last_verified_at = some at_time })
        s.locations;
}

abbrev pub is_existence : ℕ → VerificationRow → Bool
is_existence location v = v.location_id == location && text_eq v.kind (codes "existence")

-- An existence signal with its user, before its result is read.
pub record SignalRow : Type 0 where
  pub user : ℕ
  pub result : Text
  pub at_time : ℕ

-- `user_id IS NOT NULL`.
unfoldable pub signal_rows : List VerificationRow → List SignalRow
signal_rows [] = []
signal_rows (v ∷ vs) =
    let rest = signal_rows vs in
    elim v.user_id [
      | none ↦ rest
      | some u ↦ (record { user = u; result = v.result; at_time = v.created_at }) ∷ rest
    ]

-- `ORDER BY user_id, created_at DESC`.
abbrev pub by_user_latest : SignalRow → SignalRow → Bool
by_user_latest a b = ltb a.user b.user || (a.user == b.user && ltb b.at_time a.at_time)

-- `DISTINCT ON (user_id)`: the first row of each user in that order.
unfoldable pub distinct_users : Option ℕ → List SignalRow → List SignalRow
distinct_users last [] = []
distinct_users none (r ∷ rs) = r ∷ distinct_users (some r.user) rs
distinct_users (some u) (r ∷ rs) =
    let rest = distinct_users (some r.user) rs in if r.user == u then rest else r ∷ rest

unfoldable pub read_signals : List SignalRow → Outcome (List ExistenceSignal)
unfolding existence_from_code
read_signals [] = ok []
read_signals (r ∷ rs) = elim (existence_from_code r.result) [
  | none ↦ err invalid_field
  | some e ↦ elim (read_signals rs) [
    | err x ↦ err x
    | ok signals ↦ ok ((record { user = r.user; result = e; at_time = r.at_time }) ∷ signals)
  ]
]

unfoldable pub latest_existence_per_user : ℕ → Call (List ExistenceSignal)
unfolding signal_rows distinct_users read_signals
latest_existence_per_user location s = (
  read_signals (
      distinct_users none
        (sort_by by_user_latest (signal_rows (filter (is_existence location) s.verifications)))),
  s,
)

-- A park counts until it expires.
abbrev pub unexpired : ℕ → Option ℕ → Bool
unexpired now none = true
unexpired now (some t) = ltb now t

-- The count of parked-here signals in `attribute_and_parked_summary`.
unfoldable pub parked_here_count : ℕ → ℕ → Call ℕ
parked_here_count db_now location = gets λ s. length (
    filter
      (λ v.
        v.location_id == location
        && text_eq v.kind (codes "parked_here")
        && unexpired db_now v.expires_at)
      s.verifications)
