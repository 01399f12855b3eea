-- ===== src/RateLimit/InMemory/Log.antt =====
-- What the limiter's buckets stand for: one log of recorded events for each key.
use bikenest.Base.{
  ℕ, ◌-◌, ◌≤◌, ◌<◌, ◌≡◌, refl, false, List, [], ◌∷◌, Option, none, some, ◌⊎◌, inl, inr, arith, ltb,
  Bool-cases, Option-cases, length, filter, All,
}
use bikenest.Base.Text.{Text}
use bikenest.RateLimit.InMemory.{
  Bucket, BucketMap, Buckets, max_buckets, find, retain, sweep, make_room,
}
use bikenest.RateLimit.InMemory.Keys.{Distinct, find-retain-none, retain-Distinct, find-retain}
use bikenest.RateLimit.InMemory.Window.{fresh, Matches}

-- What was recorded for each key.
abbrev pub Logs : Type 0
Logs = Text → List ℕ

-- The limit and the window under which a key is always checked.
pub record Rule : Type 0 where
  pub limit : ℕ
  pub window : ℕ

abbrev pub Rules : Type 0
Rules = Text → Rule

-- A bucket was last checked under its key's window, and holds no later event.
pub record Kept (last window : ℕ) (b : Bucket) (log : List ℕ) : Type 0 where
  pub seen : b.last_seen ≤ last
  pub ruled : b.window ≡ window
  pub stands : Matches b.last_seen window b.events log

abbrev pub KeptAs : ℕ → ℕ → Option Bucket → List ℕ → Type 0
KeptAs last window none log = Matches last window [] log
KeptAs last window (some b) log = Kept last window b log

-- Every key's bucket, or its absence, stands for the key's log.
pub record Agrees (rules : Rules) (last : ℕ) (m : BucketMap) (logs : Logs) : Type 0 where
  pub distinct : Distinct m
  pub keeps : (k : Text) → KeptAs last (rules k).window (find k m) (logs k)

pub Matches-later :
    (last later window : ℕ) (es log : List ℕ)
    → last ≤ later
    → All (λ e. e ≤ later) es
    → Matches last window es log
    → Matches later window es log
Matches-later last later window es log h a m = record {
  rising = m.rising;
  past = a;
  same = λ t ht. m.same t (omega arith);
}

All-later : (m n : ℕ) (es : List ℕ) → m ≤ n → All (λ e. e ≤ m) es → All (λ e. e ≤ n) es
All-later m n [] h a = tt
All-later m n (e ∷ es) h a = (omega arith, All-later m n es h a.1)

-- When a bucket's window has elapsed it stands for the same log as no bucket at all.
elapsed_empty :
    (t last window : ℕ) (es : List ℕ)
    → All (λ e. e ≤ last) es
    → window ≤ t - last
    → filter (fresh t window) es ≡ []
elapsed_empty t last window [] a h = refl
elapsed_empty t last window (e ∷ es) a h = ground (arith, elapsed_empty t last window es a.1 h)

KeptAs-elapsed :
    (last now window : ℕ) (b : Bucket) (log : List ℕ)
    → Kept last window b log
    → last ≤ now
    → ltb (now - b.last_seen) b.window ≡ false
    → Matches now window [] log
KeptAs-elapsed last now window b log k h e = record {
  rising = tt;
  past = tt;
  same = λ t ht. elapsed_same t ht;
}
  where
    elapsed_same : (t : ℕ) → now ≤ t → filter (fresh t window) [] ≡ filter (fresh t window) log
    elapsed_same t ht = ground (
      arith,
      k.seen,
      k.ruled,
      k.stands.same t,
      elapsed_empty t b.last_seen window b.events k.stands.past,
    )

KeptAs-later :
    (last now window : ℕ) (o : Option Bucket) (log : List ℕ)
    → last ≤ now
    → KeptAs last window o log
    → KeptAs now window o log
KeptAs-later last now window none log h k = Matches-later last now window [] log h tt k
KeptAs-later last now window (some b) log h k = record {
  seen = ground (arith, k.seen);
  ruled = k.ruled;
  stands = k.stands;
}

-- Dropping the elapsed buckets changes what no key stands for.
retain-Agrees :
    (rules : Rules) (last now : ℕ) (m : BucketMap) (logs : Logs)
    → last ≤ now
    → Agrees rules last m logs
    → Agrees rules now (retain now m) logs
retain-Agrees rules last now m logs h a = record {
  distinct = retain-Distinct now m a.distinct;
  keeps = λ k. keeps_one k (Option-cases (find k m));
}
  where
    keeps_one :
        (k : Text)
        → (find k m ≡ none) ⊎ ((b : Bucket) × (find k m ≡ some b))
        → KeptAs now (rules k).window (find k (retain now m)) (logs k)
    keeps_one k (inl e) =
        rw (find-retain-none k now m e)
          (KeptAs-later last now (rules k).window none (logs k) h (rw e at (a.keeps k)))
    keeps_one k (inr (b, e)) = elim (Bool-cases (ltb (now - b.last_seen) b.window)) [
      | inl live ↦
          rw (find-retain k now m b a.distinct e, live)
            (KeptAs-later last now (rules k).window (some b) (logs k) h (rw e at (a.keeps k)))
      | inr gone ↦
          rw (find-retain k now m b a.distinct e, gone)
            (KeptAs-elapsed last now (rules k).window b (logs k) (rw e at (a.keeps k)) h gone)
    ]

Agrees-later :
    (rules : Rules) (last now : ℕ) (m : BucketMap) (logs : Logs)
    → last ≤ now
    → Agrees rules last m logs
    → Agrees rules now m logs
Agrees-later rules last now m logs h a = record {
  distinct = a.distinct;
  keeps = λ k. KeptAs-later last now (rules k).window (find k m) (logs k) h (a.keeps k);
}

length-retain-le : (now : ℕ) (m : BucketMap) → length (retain now m) ≤ length m
unfolding retain
length-retain-le now [] = omega arith
length-retain-le now ((k, b) ∷ m) = ground (arith, length-retain-le now m)

-- Below the ceiling a sweep evicts nothing.
make_room-below :
    (now : ℕ) (key : Text) (s : Buckets)
    → length s.buckets < max_buckets
    → ((make_room now key s).buckets ≡ s.buckets)
      ⊎ ((make_room now key s).buckets ≡ retain now s.buckets)
unfolding make_room sweep
make_room-below now key s h = ground (arith, length-retain-le now s.buckets)

pub length-make_room-le :
    (now : ℕ) (key : Text) (s : Buckets)
    → length s.buckets < max_buckets
    → length (make_room now key s).buckets ≤ length s.buckets
length-make_room-le now key s h =
    ground (arith, make_room-below now key s h, length-retain-le now s.buckets)

pub make_room-Agrees :
    (rules : Rules) (last now : ℕ) (key : Text) (s : Buckets) (logs : Logs)
    → length s.buckets < max_buckets
    → last ≤ now
    → Agrees rules last s.buckets logs
    → Agrees rules now (make_room now key s).buckets logs
make_room-Agrees rules last now key s logs small h a = elim (make_room-below now key s small) [
  | inl e ↦ rw e (Agrees-later rules last now s.buckets logs h a)
  | inr e ↦ rw e (retain-Agrees rules last now s.buckets logs h a)
]
