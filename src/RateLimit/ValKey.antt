-- ===== src/RateLimit/ValKey.antt =====
-- The shared limiter over a ValKey sorted set: its script, and what a failure of the store decides.
-- The server runs the script in one step. A key's sorted set is the list of its scores, oldest
-- first (the random members keep equal scores apart), and the instant at which the key expires;
-- scores are milliseconds.
pub mod Script
use bikenest.Base.{
  ℕ, ◌+◌, ◌-◌, Bool, true, false, List, [], ◌∷◌, ◌++◌, Option, none, some, ltb, leb, ◌==◌,
  if◌then◌else◌, length, filter,
}

pub record ScoreSet : Type 0 where
  pub scores : List ℕ
  pub expires_at : ℕ

-- A key whose expiry has passed is not there.
unfoldable pub read_scores : ℕ → Option ScoreSet → List ℕ
read_scores now none = []
read_scores now (some z) = if leb z.expires_at now then [] else z.scores

-- `ZREMRANGEBYSCORE key 0 (now - window)`, whose upper end may be negative.
unfoldable pub remove_range : ℕ → ℕ → List ℕ → List ℕ
remove_range now window = filter λ e. if leb window now then ltb (now - window) e else true

abbrev pub expiry : Option ScoreSet → ℕ
expiry none = 0
expiry (some z) = z.expires_at

-- A sorted set with no member is removed by the server.
abbrev pub keep_scores : List ℕ → ℕ → Option ScoreSet
keep_scores [] t = none
keep_scores (e ∷ es) t = some (record { scores = e ∷ es; expires_at = t })

-- `RATE_LIMIT_LUA`: 1 allows and 0 denies; `none` is an Absent key.
unfoldable pub rate_limit_lua : ℕ → ℕ → ℕ → Option ScoreSet → ℕ × Option ScoreSet
rate_limit_lua now window limit key =
    let kept = remove_range now window (read_scores now key) in
    if leb limit (length kept)
    then (0, keep_scores kept (expiry key))
    else (1, some (record { scores = kept ++ now ∷ []; expires_at = now + window }))

-- What `check` returns: an answer, or `RateLimitError::Unexpected`.
pub data Verdict : Type 0 where
  allowed : Bool → Verdict
  unexpected : Verdict

-- `ValKeyRateLimiter::check`, by whether the connection was made and what the script replied;
-- `none` is an error of the client library.
unfoldable pub check : Bool → Bool → Option ℕ → Verdict
check fail_open false reply = allowed true
check fail_open true (some n) = allowed (n == 1)
check fail_open true none = if fail_open then allowed true else unexpected
