-- ===== src/RateLimit/InMemory/Runs.antt =====
-- A run of checks against the logs alone.
use bikenest.Base.{
  ℕ, ◌+◌, ◌≤◌, ◌≡◌, refl, sym, ap, ◌∙◌, ap₂, subst, Bool, List, [], ◌∷◌, ◌++◌, ◌&&◌, filter, Option,
  none, some, inl, inr, arith, if◌then◌else◌, Bool-cases, length,
}
use bikenest.Base.Text.{Text, text_eq, text_eq→eq, text_eq_refl}
use bikenest.RateLimit.InMemory.{
  Bucket, BucketMap, Buckets, max_buckets, find, insert, make_room, hit, events_of, check,
}
use bikenest.RateLimit.InMemory.Keys.{find-insert_self, find-insert_ne, insert-Distinct}
use mathlib.Core.List.{append-nil, append_assoc}
use bikenest.RateLimit.InMemory.Window.{
  Matches, log_allows, log_next, hit-log_allows, hit-Matches, in_window, Limited, log_next-Limited,
  All-le,
}
use bikenest.RateLimit.InMemory.Log.{
  Logs, Rule, Rules, KeptAs, Agrees, make_room-Agrees, length-make_room-le,
}

-- The log of the checked key moves on, and no other.
unfoldable pub next_logs : Rules → ℕ → Text → Logs → Logs
next_logs rules now key logs k =
    if text_eq key k then log_next now (rules key).limit (rules key).window (logs key) else logs k

-- The events that a bucket, or its absence, holds stand for the log.
KeptAs-events :
    (last window : ℕ) (o : Option Bucket) (log : List ℕ)
    → KeptAs last window o log
    → (l : ℕ) × (l ≤ last) × Matches l window (events_of o) log
KeptAs-events last window none log k = (last, omega arith, k)
KeptAs-events last window (some b) log k = (b.last_seen, k.seen, k.stands)

length-insert-le : (k : Text) (b : Bucket) (m : BucketMap) → length (insert k b m) ≤ length m + 1
unfolding insert
length-insert-le k b [] = omega arith
length-insert-le k b ((j, c) ∷ m) = ground (arith, length-insert-le k b m)

module _ (rules : Rules) (now : ℕ) (key : Text) (m : BucketMap) (logs : Logs)
    (a : Agrees rules now m logs) where
  abbrev rule : Rule
  rule = rules key

  abbrev answer : Bool × List ℕ
  answer = hit now rule.limit rule.window (events_of (find key m))

  abbrev written : Bucket
  written = record { events = answer.1; last_seen = now; window = rule.window }

  answer_both :
      (answer.0 ≡ log_allows now rule.limit rule.window (logs key))
      × Matches now rule.window answer.1 (log_next now rule.limit rule.window (logs key))
  answer_both =
      let (l, le, st) = KeptAs-events now rule.window (find key m) (logs key) (a.keeps key) in
      (
        hit-log_allows l now rule.limit rule.window (events_of (find key m)) (logs key) le st,
        hit-Matches l now rule.limit rule.window (events_of (find key m)) (logs key) le st,
      )

  written_keeps_key :
      KeptAs now rule.window (find key (insert key written m)) (next_logs rules now key logs key)
  unfolding next_logs
  written_keeps_key =
      rw (text_eq_refl key, find-insert_self key written m)
        (record { seen = omega arith; ruled = refl; stands = answer_both.1 })

  written_keeps :
      (k : Text)
      → KeptAs now (rules k).window (find k (insert key written m)) (next_logs rules now key logs k)
  unfolding next_logs
  written_keeps k = elim (Bool-cases (text_eq key k)) [
    | inl e ↦
        subst
          (λ i.
            KeptAs now (rules i).window (find i (insert key written m))
              (next_logs rules now key logs i))
          (text_eq→eq key k e) written_keeps_key
    | inr e ↦ rw (e, find-insert_ne k key written m e) (a.keeps k)
  ]

  written-Agrees : Agrees rules now (insert key written m) (next_logs rules now key logs)
  written-Agrees = record {
    distinct = insert-Distinct key written m a.distinct;
    keeps = written_keeps;
  }

-- A run of checks, each key under its own rule: the answers of the limiter.
unfoldable pub run_checks : Rules → List (ℕ × Text) → Buckets → List Bool
run_checks rules [] s = []
run_checks rules ((now, key) ∷ reqs) s =
    let (allowed, s') = check now key (rules key).limit (rules key).window s in
    allowed ∷ run_checks rules reqs s'

-- The same run against the logs alone.
unfoldable pub run_logs : Rules → List (ℕ × Text) → Logs → List Bool
run_logs rules [] logs = []
run_logs rules ((now, key) ∷ reqs) logs =
    log_allows now (rules key).limit (rules key).window (logs key)
    ∷ run_logs rules reqs (next_logs rules now key logs)

-- The clock does not go back over a run.
abbrev pub InOrder : ℕ → List (ℕ × Text) → Type 0
InOrder last [] = Unit {0}
InOrder last ((now, _) ∷ reqs) = (last ≤ now) × InOrder now reqs

run_checks-run_logs :
    (rules : Rules) (last : ℕ) (reqs : List (ℕ × Text)) (s : Buckets) (logs : Logs)
    → InOrder last reqs
    → length s.buckets + length reqs ≤ max_buckets
    → Agrees rules last s.buckets logs
    → run_checks rules reqs s ≡ run_logs rules reqs logs
unfolding run_checks run_logs check
run_checks-run_logs rules last [] s logs o small a = refl
run_checks-run_logs rules last ((now, key) ∷ reqs) s logs o small a =
    ap₂ ◌∷◌ (answer_both rules now key roomy logs ready).0 (
      run_checks-run_logs rules now reqs _ (next_logs rules now key logs) o.1 few
        (written-Agrees rules now key roomy logs ready))
  where
    roomy : BucketMap
    roomy = (make_room now key s).buckets

    ready : Agrees rules now roomy logs
    ready = make_room-Agrees rules last now key s logs (omega arith) o.0 a

    few :
        length (insert key (written rules now key roomy logs ready) roomy) + length reqs
        ≤ max_buckets
    few = omega (
      arith,
      length-insert-le key (written rules now key roomy logs ready) roomy,
      length-make_room-le now key s (omega arith),
    )

empty-Agrees : (rules : Rules) → Agrees rules 0 [] (λ _. [])
unfolding find
empty-Agrees rules = record {
  distinct = tt;
  keeps = λ k. record { rising = tt; past = tt; same = λ t h. refl };
}

abbrev pub fresh_limiter : Buckets
fresh_limiter = record { buckets = []; since_sweep = 0 }

-- Over a run of at most 100000 checks, on any mix of keys each under its own limit and window, and
-- with a clock that does not go back, the limiter answers as if it remembered every recorded event
-- for ever and allowed a check exactly if fewer than `limit` of its key's events lie in the window.
pub check-run_logs :
    (rules : Rules) (reqs : List (ℕ × Text))
    → InOrder 0 reqs
    → length reqs ≤ max_buckets
    → run_checks rules reqs fresh_limiter ≡ run_logs rules reqs (λ _. [])
check-run_logs rules reqs o small =
    run_checks-run_logs rules 0 reqs fresh_limiter (λ _. []) o (omega arith) (empty-Agrees rules)

-- The instants at which a run's checks of a key were allowed.
unfoldable pub granted : Text → List (ℕ × Text) → List Bool → List ℕ
granted k [] answers = []
granted k (r ∷ reqs) [] = []
granted k ((now, key) ∷ reqs) (allowed ∷ answers) =
    let rest = granted k reqs answers in if allowed && text_eq key k then now ∷ rest else rest

-- The log of a key at the end of a run.
last_log : Rules → List (ℕ × Text) → Logs → Text → List ℕ
last_log rules [] logs k = logs k
last_log rules ((now, key) ∷ reqs) logs k = last_log rules reqs (next_logs rules now key logs) k

last_log-granted :
    (rules : Rules) (k : Text) (reqs : List (ℕ × Text)) (logs : Logs)
    → last_log rules reqs logs k ≡ logs k ++ granted k reqs (run_logs rules reqs logs)
unfolding last_log granted run_logs next_logs log_next
last_log-granted rules k [] logs = sym (append-nil (logs k))
last_log-granted rules k ((now, key) ∷ reqs) logs = elim (Bool-cases (text_eq key k)) [
  | inl e ↦
      last_log-granted rules k reqs (next_logs rules now key logs)
      ∙ ground (
        arith,
        ap logs (text_eq→eq key k e),
        append_assoc (logs key) (now ∷ [])
            (granted k reqs (run_logs rules reqs (next_logs rules now key logs))),
      )
  | inr e ↦ last_log-granted rules k reqs (next_logs rules now key logs) ∙ ground arith
]

Limited-later :
    (last now limit window : ℕ) (log : List ℕ)
    → last ≤ now
    → Limited last limit window log
    → Limited now limit window log
Limited-later last now limit window log h l = record {
  past = All-le last now log h l.past;
  few = l.few;
}

next_logs-Limited :
    (rules : Rules) (k : Text) (last now : ℕ) (key : Text) (logs : Logs)
    → last ≤ now
    → Limited last (rules k).limit (rules k).window (logs k)
    → Limited now (rules k).limit (rules k).window (next_logs rules now key logs k)
unfolding next_logs
next_logs-Limited rules k last now key logs h l = elim (Bool-cases (text_eq key k)) [
  | inl e ↦
      rw (e, text_eq→eq key k e)
        (log_next-Limited last now (rules k).limit (rules k).window (logs k) h l)
  | inr e ↦ rw e (Limited-later last now (rules k).limit (rules k).window (logs k) h l)
]

last_log-Limited :
    (rules : Rules) (k : Text) (last : ℕ) (reqs : List (ℕ × Text)) (logs : Logs)
    → InOrder last reqs
    → Limited last (rules k).limit (rules k).window (logs k)
    → (t : ℕ)
    → length (filter (in_window t (rules k).window) (last_log rules reqs logs k)) ≤ (rules k).limit
unfolding last_log
last_log-Limited rules k last [] logs o l t = l.few t
last_log-Limited rules k last ((now, key) ∷ reqs) logs o l t =
    last_log-Limited rules k now reqs (next_logs rules now key logs) o.1
      (next_logs-Limited rules k last now key logs o.0 l) t

-- Over such a run, whatever the other keys do, no window that ends at any instant holds more
-- allowed checks of a key than that key's limit.
pub granted-limited :
    (rules : Rules) (reqs : List (ℕ × Text)) (k : Text) (t : ℕ)
    → InOrder 0 reqs
    → length reqs ≤ max_buckets
    → length (
        filter
          (in_window t (rules k).window)
          (granted k reqs (run_checks rules reqs fresh_limiter)))
      ≤ (rules k).limit
granted-limited rules reqs k t o small =
    rw (check-run_logs rules reqs o small, ← last_log-granted rules k reqs (λ _. []))
      (last_log-Limited rules k 0 reqs (λ _. []) o (record { past = tt; few = λ u. omega arith }) t)
