-- ===== src/RateLimit/ValKey/Script.antt =====
-- The script against the log of recorded events, and the failures of the store.
use bikenest.Base.{
  ℕ, ◌+◌, ◌≤◌, ◌≡◌, refl, sym, ◌∙◌, true, false, List, [], ◌∷◌, ◌++◌, Option, none, some, inl, inr,
  arith, leb, if◌then◌else◌, Bool-cases, length, filter, All,
}
use bikenest.RateLimit.InMemory.{trim}
use bikenest.RateLimit.InMemory.Window.{
  fresh, Matches, All-le, trim-filter, log_allows, log_next, kept-Matches, added-Matches, trim-log,
}
use bikenest.RateLimit.ValKey.{
  ScoreSet, read_scores, remove_range, expiry, keep_scores, rate_limit_lua,
}

-- The scores of a key stand for a log, and none is still in its window when the key expires.
pub record Stands (last window : ℕ) (z : ScoreSet) (log : List ℕ) : Type 0 where
  pub stands : Matches last window z.scores log
  pub expiring : All (λ e. e + window ≤ z.expires_at) z.scores

abbrev pub KeyStands : ℕ → ℕ → Option ScoreSet → List ℕ → Type 0
KeyStands last window none log = Matches last window [] log
KeyStands last window (some z) log = Stands last window z log

remove_range-filter :
    (now window : ℕ) (es : List ℕ)
    → All (λ e. e ≤ now) es
    → remove_range now window es ≡ filter (fresh now window) es
unfolding remove_range
remove_range-filter now window [] a = refl
remove_range-filter now window (e ∷ es) a = ground (arith, remove_range-filter now window es a.1)

expired_filter :
    (t window x : ℕ) (es : List ℕ)
    → All (λ e. e + window ≤ x) es
    → x ≤ t
    → filter (fresh t window) es ≡ []
expired_filter t window x [] a h = refl
expired_filter t window x (e ∷ es) a h = ground (arith, expired_filter t window x es a.1 h)

expired-Matches :
    (last now window : ℕ) (z : ScoreSet) (log : List ℕ)
    → last ≤ now
    → z.expires_at ≤ now
    → Stands last window z log
    → Matches now window [] log
expired-Matches last now window z log h x s = record {
  rising = tt;
  past = tt;
  same = λ t ht.
      ground (arith, s.stands.same t, expired_filter t window z.expires_at z.scores s.expiring);
}

-- What the script reads stands for the log.
read-Matches :
    (last now window : ℕ) (key : Option ScoreSet) (log : List ℕ)
    → last ≤ now
    → KeyStands last window key log
    → (l : ℕ) × (l ≤ now) × Matches l window (read_scores now key) log
unfolding read_scores
read-Matches last now window none log h k = (last, h, k)
read-Matches last now window (some z) log h k = elim (Bool-cases (leb z.expires_at now)) [
  | inl gone ↦
      (now, omega arith, rw gone (expired-Matches last now window z log h (ground arith) k))
  | inr live ↦ (last, h, rw live k.stands)
]

remove_range-trim :
    (l now window : ℕ) (es log : List ℕ)
    → l ≤ now
    → Matches l window es log
    → remove_range now window es ≡ trim now window es
remove_range-trim l now window es log h m =
    remove_range-filter now window es (All-le l now es h m.past)
    ∙ sym (trim-filter now window 0 es m.rising)

All-expiring_trim :
    (now window x : ℕ) (es : List ℕ)
    → All (λ e. e + window ≤ x) es
    → All (λ e. e + window ≤ x) (trim now window es)
unfolding trim
All-expiring_trim now window x [] a = tt
All-expiring_trim now window x (e ∷ es) a = ground (arith, All-expiring_trim now window x es a.1)

All-expiring_now :
    (now window : ℕ) (es : List ℕ) → All (λ e. e ≤ now) es → All (λ e. e + window ≤ now + window) es
All-expiring_now now window [] a = tt
All-expiring_now now window (e ∷ es) a = (omega arith, All-expiring_now now window es a.1)

read_expiring :
    (last now window : ℕ) (key : Option ScoreSet) (log : List ℕ)
    → KeyStands last window key log
    → All (λ e. e + window ≤ expiry key) (read_scores now key)
unfolding read_scores
read_expiring last now window none log k = tt
read_expiring last now window (some z) log k = elim (Bool-cases (leb z.expires_at now)) [
  | inl gone ↦ rw gone tt
  | inr live ↦ rw live k.expiring
]

keep_scores-KeyStands :
    (last window x : ℕ) (es log : List ℕ)
    → Matches last window es log
    → All (λ e. e + window ≤ x) es
    → KeyStands last window (keep_scores es x) log
keep_scores-KeyStands last window x [] log m a = m
keep_scores-KeyStands last window x (e ∷ es) log m a = record { stands = m; expiring = a }

module _ (last now window limit : ℕ) (key : Option ScoreSet) (log : List ℕ) (later : last ≤ now)
    (k : KeyStands last window key log) where
  abbrev kept : List ℕ
  kept = trim now window (read_scores now key)

  script_kept : remove_range now window (read_scores now key) ≡ kept
  script_kept =
      let (l, le, m) = read-Matches last now window key log later k in
      remove_range-trim l now window (read_scores now key) log le m

  kept_log : kept ≡ filter (fresh now window) log
  kept_log =
      let (l, le, m) = read-Matches last now window key log later k in
      trim-log l now limit window (read_scores now key) log le m

  kept_stands : Matches now window kept log
  kept_stands =
      let (l, le, m) = read-Matches last now window key log later k in
      kept-Matches l now limit window (read_scores now key) log le m

  added_stands : Matches now window (kept ++ now ∷ []) (log ++ now ∷ [])
  added_stands =
      let (l, le, m) = read-Matches last now window key log later k in
      added-Matches l now limit window (read_scores now key) log le m

  log_allows-full : leb limit (length kept) ≡ true → log_allows now limit window log ≡ false
  unfolding log_allows
  log_allows-full full = ground (arith, kept_log)

  log_allows-room : leb limit (length kept) ≡ false → log_allows now limit window log ≡ true
  unfolding log_allows
  log_allows-room room = ground (arith, kept_log)

  full_stands : KeyStands now window (keep_scores kept (expiry key)) log
  full_stands = keep_scores-KeyStands now window (expiry key) kept log kept_stands (
      All-expiring_trim now window (expiry key) (read_scores now key)
        (read_expiring last now window key log k))

  -- One run of the script, at an instant that is not before the last: it replies 1 exactly if fewer
  -- than `limit` of the recorded events lie in the window, and 0 otherwise; and the sorted set that
  -- it leaves, with its expiry, stands for the log of recorded events that has grown by this one
  -- exactly in the first case.
  pub rate_limit_lua-log :
      ((rate_limit_lua now window limit key).0 ≡ (if log_allows now limit window log then 1 else 0))
      × KeyStands now window (rate_limit_lua now window limit key).1 (log_next now limit window log)
  unfolding rate_limit_lua log_next log_allows
  rate_limit_lua-log = elim (Bool-cases (leb limit (length kept))) [
    | inl full ↦ rw (script_kept, full, log_allows-full full) (refl, full_stands)
    | inr room ↦
        rw (script_kept, room, log_allows-room room)
          (
            refl,
            record {
              stands = added_stands;
              expiring = All-expiring_now now window (kept ++ now ∷ []) added_stands.past;
            },
          )
  ]
