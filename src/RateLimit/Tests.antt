-- ===== src/RateLimit/Tests.antt =====
-- The limiters at concrete inputs: two keys under a limit of two checks in 100 ticks.
use bikenest.Base.{
  ◌≡◌, refl, true, false, List, [], ◌∷◌, Option, some, ℕ, ◌≤◌, arith, if◌then◌else◌, length, filter,
}
use bikenest.Base.Text.{Text, codes, text_eq}
use bikenest.RateLimit.InMemory.{check, make_room, sweep, retain, find, insert, hit, trim}
use bikenest.RateLimit.InMemory.Capacity.{IsBounded, check-IsBounded}
use bikenest.RateLimit.InMemory.Log.{Rules}
use bikenest.RateLimit.InMemory.Runs.{
  run_checks, run_logs, check-run_logs, granted-limited, fresh_limiter, InOrder, granted,
}
use bikenest.RateLimit.InMemory.Window.{in_window, log_allows, log_next}
use bikenest.RateLimit.ValKey.{ScoreSet, rate_limit_lua}
use bikenest.RateLimit.ValKey.Script.{KeyStands, rate_limit_lua-log}

abbrev two_in_100 : Rules
two_in_100 _ = record { limit = 2; window = 100 }

abbrev requests : List (ℕ × Text)
requests =
    (10, codes "a") ∷ (20, codes "a") ∷ (30, codes "b") ∷ (40, codes "a") ∷ (115, codes "a") ∷ []

requests-InOrder : InOrder 0 requests
requests-InOrder = ground arith

answers : run_checks two_in_100 requests fresh_limiter ≡ true ∷ true ∷ true ∷ false ∷ true ∷ []
unfolding run_checks check make_room sweep retain find insert hit trim text_eq
answers = refl

check-run_logs_example :
    run_checks two_in_100 requests fresh_limiter ≡ run_logs two_in_100 requests (λ _. [])
check-run_logs_example = check-run_logs two_in_100 requests requests-InOrder (omega arith)

granted-limited_example :
    length (
      filter
        (in_window 120 100)
        (granted (codes "a") requests (run_checks two_in_100 requests fresh_limiter)))
    ≤ 2
granted-limited_example =
    granted-limited two_in_100 requests (codes "a") 120 requests-InOrder (omega arith)

fresh-IsBounded : IsBounded fresh_limiter
fresh-IsBounded = record { distinct = tt; capped = omega arith }

check-IsBounded_example : IsBounded (check 10 (codes "a") 2 100 fresh_limiter).1
check-IsBounded_example = check-IsBounded 10 (codes "a") 2 100 fresh_limiter fresh-IsBounded

abbrev two_scores : Option ScoreSet
two_scores = some (record { scores = 10 ∷ 20 ∷ []; expires_at = 120 })

two_scores-KeyStands : KeyStands 20 100 two_scores (10 ∷ 20 ∷ [])
two_scores-KeyStands = record {
  stands = record { rising = ground arith; past = ground arith; same = λ t h. refl };
  expiring = ground arith;
}

rate_limit_lua-log_example :
    ((rate_limit_lua 40 100 2 two_scores).0 ≡ (if log_allows 40 2 100 (10 ∷ 20 ∷ []) then 1 else 0))
    × KeyStands 40 100 (rate_limit_lua 40 100 2 two_scores).1 (log_next 40 2 100 (10 ∷ 20 ∷ []))
rate_limit_lua-log_example =
    rate_limit_lua-log 20 40 100 2 two_scores (10 ∷ 20 ∷ []) (omega arith) two_scores-KeyStands
