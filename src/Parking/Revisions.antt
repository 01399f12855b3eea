-- ===== src/Parking/Revisions.antt =====
-- The table `parking_revision`, whose rows are unique by location and version
-- (migrations/0007_contributions.sql).
use bikenest.Base.{ℕ, Bool, ◌&&◌, [], ◌∷◌, ◌++◌, ◌==◌, if◌then◌else◌, any}
use bikenest.Base.Action.{Action, ok, err}
use bikenest.Parking.{Revision, Store}

abbrev pub at_version : ℕ → ℕ → Revision → Bool
at_version id version r = r.location_id == id && r.version == version

-- An `INSERT` into the table, with the error that a violation of the index becomes.
unfoldable pub append_revision : {E : Type 0} → E → Revision → Action Store E (Unit {0})
append_revision e r s =
    if any (at_version r.location_id r.version) s.revisions
    then (err e, s)
    else (ok tt, record s { revisions = s.revisions ++ r ∷ [] })
