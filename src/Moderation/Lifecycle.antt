-- ===== src/Moderation/Lifecycle.antt =====
-- The operations of crates/infrastructure/src/moderation/report.rs as one type, so that an
-- interleaving of the moderators is a list.
pub mod Winners
pub mod Dedupe
use bikenest.Base.{ℕ, ◌+◌, Bool, true, false, ◌&&◌, List, [], ◌∷◌, ◌==◌, if◌then◌else◌}
use bikenest.Base.Action.{Outcome, ok, err, is_ok}
use bikenest.Base.Text.{Text}
use bikenest.Parking.{Store}
use bikenest.Moderation.{ReportOutcome, NewReport}
use bikenest.Moderation.Reports.{create, claim, resolve}

pub data ReportOp : Type 0 where
  creates : ℕ → NewReport → ReportOp
  claims : ℕ → ℕ → ℕ → ReportOp
  resolves : ℕ → ℕ → ℕ → Text → ReportOutcome → ReportOp

unfoldable pub run : ReportOp → Store → Store
unfolding create claim resolve
run (creates now n) s = (create now n s).1
run (claims now id m) s = (claim now id m s).1
run (resolves now id m note outcome) s = (resolve now id m note outcome s).1

unfoldable pub runs : List ReportOp → Store → Store
unfolding run
runs [] s = s
runs (op ∷ ops) s = runs ops (run op s)

-- Whether an operation is a claim of this report that succeeds, or an end of it that does.
abbrev pub wins : ℕ → ReportOp → Store → Bool
wins id (claims now i m) s = i == id && is_ok (claim now i m s).0
wins id (creates _ _) s = false
wins id (resolves _ _ _ _ _) s = false

abbrev pub ends : ℕ → ReportOp → Store → Bool
ends id (resolves now i m note outcome) s = i == id && is_ok (resolve now i m note outcome s).0
ends id (creates _ _) s = false
ends id (claims _ _ _) s = false

-- How many operations of a run pass a test, each in the store that it meets.
unfoldable pub times : (ReportOp → Store → Bool) → List ReportOp → Store → ℕ
unfolding run
times p [] s = 0
times p (op ∷ ops) s = (if p op s then 1 else 0) + times p ops (run op s)
