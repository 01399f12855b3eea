-- ===== src/RateLimit/InMemory.antt =====
-- The per-process limiter. An `Instant` is a number of clock ticks, and `duration_since` is the
-- subtraction that stops at 0, as in the standard library. The `HashMap` is an association list;
-- the order of its equal ages, which the source leaves open, is the list's.
pub mod Window
pub mod Keys
pub mod Eviction
pub mod Capacity
pub mod Log
pub mod Runs
use bikenest.Base.{
  ℕ, ◌+◌, ◌-◌, ◌/◌, Bool, true, false, ◌||◌, List, [], ◌∷◌, ◌++◌, map, Option, none, some, ltb, leb,
  if◌then◌else◌, is_some, length, take,
}
use bikenest.Base.Text.{Text, text_eq}

abbrev pub max_buckets : ℕ
max_buckets = 100000

abbrev pub sweep_every_new_keys : ℕ
sweep_every_new_keys = 512

pub record Bucket : Type 0 where
  pub events : List ℕ
  pub last_seen : ℕ
  pub window : ℕ

abbrev pub BucketMap : Type 0
BucketMap = List (Text × Bucket)

pub record Buckets : Type 0 where
  pub buckets : BucketMap
  pub since_sweep : ℕ

-- `map.get(key)`.
unfoldable pub find : Text → BucketMap → Option Bucket
find k [] = none
find k ((j, b) ∷ m) = if text_eq j k then some b else find k m

-- `map.insert(key, bucket)`, and the write through the entry that `check` holds.
unfoldable pub insert : Text → Bucket → BucketMap → BucketMap
insert k b [] = (k, b) ∷ []
insert k b ((j, c) ∷ m) = if text_eq j k then (j, b) ∷ m else (j, c) ∷ insert k b m

-- `map.remove(&key)`.
unfoldable pub remove : Text → BucketMap → BucketMap
remove k [] = []
remove k ((j, b) ∷ m) = if text_eq j k then m else (j, b) ∷ remove k m

-- The `retain` of `sweep`: buckets whose window has elapsed go.
unfoldable pub retain : ℕ → BucketMap → BucketMap
retain now [] = []
retain now ((k, b) ∷ m) =
    let rest = retain now m in if ltb (now - b.last_seen) b.window then (k, b) ∷ rest else rest

abbrev pub age : Text × Bucket → ℕ × Text
age (k, b) = (b.last_seen, k)

-- `sort_unstable_by_key` on the ages.
unfoldable pub insert_age : ℕ × Text → List (ℕ × Text) → List (ℕ × Text)
insert_age a [] = a ∷ []
insert_age a (b ∷ l) = if ltb a.0 b.0 then a ∷ b ∷ l else b ∷ insert_age a l

unfoldable pub sort_ages : List (ℕ × Text) → List (ℕ × Text)
sort_ages [] = []
sort_ages (a ∷ l) = insert_age a (sort_ages l)

unfoldable pub remove_all : List (ℕ × Text) → BucketMap → BucketMap
remove_all [] m = m
remove_all (a ∷ l) m = remove_all l (remove a.1 m)

-- The eviction of the least recently touched keys, down to nine tenths of the ceiling.
unfoldable pub evict : BucketMap → BucketMap
evict m =
    let target = max_buckets - max_buckets / 10 in
    remove_all (take (length m - target) (sort_ages (map age m))) m

unfoldable pub sweep : ℕ → Buckets → Buckets
sweep now s =
    let live = retain now s.buckets in
    record { buckets = if ltb (length live) max_buckets then live else evict live; since_sweep = 0 }

-- What `check` does before it takes the entry: only a new key can make a sweep due.
unfoldable pub make_room : ℕ → Text → Buckets → Buckets
make_room now key s =
    if is_some (find key s.buckets)
    then s
    else (let n = s.since_sweep + 1 in
        if leb sweep_every_new_keys n || leb max_buckets (length s.buckets)
        then sweep now s
        else (record s { since_sweep = n }))

-- The events that have fallen outside the window leave from the front.
unfoldable pub trim : ℕ → ℕ → List ℕ → List ℕ
trim now window [] = []
trim now window (e ∷ es) =
    let rest = trim now window es in if leb window (now - e) then rest else e ∷ es

-- One check against the key's own events: the answer, and the events that are kept.
unfoldable pub hit : ℕ → ℕ → ℕ → List ℕ → Bool × List ℕ
hit now limit window es =
    let kept = trim now window es in
    if leb limit (length kept) then (false, kept) else (true, kept ++ now ∷ [])

-- `entry(key).or_insert_with(…)`, of which the events matter: the other fields are overwritten.
abbrev pub events_of : Option Bucket → List ℕ
events_of none = []
events_of (some b) = b.events

-- `InMemoryRateLimiter::check`, under its lock.
unfoldable pub check : ℕ → Text → ℕ → ℕ → Buckets → Bool × Buckets
check now key limit window s =
    let s' = make_room now key s in
    let (allowed, es) = hit now limit window (events_of (find key s'.buckets)) in
    (
      allowed,
      record s' {
        buckets = insert key (record { events = es; last_seen = now; window = window }) s'.buckets;
      },
    )

-- `InMemoryRateLimiter::bucket_count`.
abbrev pub bucket_count : Buckets → ℕ
bucket_count s = length s.buckets
