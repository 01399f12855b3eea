-- ===== src/RateLimit/InMemory/Capacity.antt =====
-- The ceiling on the number of buckets under any sequence of checks.
use bikenest.Base.{ℕ, ◌+◌, ◌≤◌, ◌<◌, ◌≡◌, true, [], ◌∷◌, ◌⊎◌, inl, inr, arith, is_some, length}
use bikenest.Base.Text.{Text}
use bikenest.RateLimit.InMemory.{
  Bucket, BucketMap, Buckets, max_buckets, find, insert, retain, sweep, make_room, check,
  bucket_count,
}
use bikenest.RateLimit.InMemory.Keys.{Distinct, insert-Distinct, retain-Distinct}
use bikenest.RateLimit.InMemory.Eviction.{length-evict, evict-Distinct}

-- The invariant of the limiter's state.
pub record IsBounded (s : Buckets) : Type 0 where
  pub distinct : Distinct s.buckets
  pub capped : bucket_count s ≤ max_buckets

length-retain-le : (now : ℕ) (m : BucketMap) → length (retain now m) ≤ length m
unfolding retain
length-retain-le now [] = omega arith
length-retain-le now ((k, b) ∷ m) = ground (arith, length-retain-le now m)

-- After a sweep there is room for one more key.
sweep_room :
    (now : ℕ) (s : Buckets)
    → Distinct s.buckets
    → Distinct (sweep now s).buckets × (length (sweep now s).buckets < max_buckets)
unfolding sweep
sweep_room now s d = ground (
  arith,
  retain-Distinct now s.buckets d,
  evict-Distinct (retain now s.buckets) (retain-Distinct now s.buckets d),
  length-evict (retain now s.buckets) (retain-Distinct now s.buckets d),
)

make_room_cases :
    (now : ℕ) (key : Text) (s : Buckets)
    → IsBounded s
    → Distinct (make_room now key s).buckets
      × (length (make_room now key s).buckets ≤ max_buckets)
      × ((is_some (find key (make_room now key s).buckets) ≡ true)
          ⊎ (length (make_room now key s).buckets < max_buckets))
unfolding make_room
make_room_cases now key s v = ground (arith, sweep_room now s v.distinct)

length-insert_old :
    (k : Text) (b : Bucket) (m : BucketMap)
    → is_some (find k m) ≡ true
    → length (insert k b m) ≡ length m
unfolding find insert
length-insert_old k b [] h = ground arith
length-insert_old k b ((j, c) ∷ m) h = ground (arith, length-insert_old k b m)

length-insert-le : (k : Text) (b : Bucket) (m : BucketMap) → length (insert k b m) ≤ length m + 1
unfolding insert
length-insert-le k b [] = omega arith
length-insert-le k b ((j, c) ∷ m) = ground (arith, length-insert-le k b m)

insert_capped :
    (k : Text) (b : Bucket) (m : BucketMap)
    → length m ≤ max_buckets
    → (is_some (find k m) ≡ true) ⊎ (length m < max_buckets)
    → length (insert k b m) ≤ max_buckets
insert_capped k b m h (inl old) = omega (arith, length-insert_old k b m old)
insert_capped k b m h (inr room) = omega (arith, length-insert-le k b m)

-- A check keeps the keys distinct and the number of buckets at or below 100000, whatever the key.
pub check-IsBounded :
    (now : ℕ) (key : Text) (limit window : ℕ) (s : Buckets)
    → IsBounded s
    → IsBounded (check now key limit window s).1
unfolding check
check-IsBounded now key limit window s v = record {
  distinct = insert-Distinct key _ (make_room now key s).buckets rooms.0;
  capped = insert_capped key _ (make_room now key s).buckets rooms.1 rooms.2;
}
  where
    rooms :
        Distinct (make_room now key s).buckets
        × (length (make_room now key s).buckets ≤ max_buckets)
        × ((is_some (find key (make_room now key s).buckets) ≡ true)
            ⊎ (length (make_room now key s).buckets < max_buckets))
    rooms = make_room_cases now key s v
