-- ===== src/RateLimit/InMemory/Keys.antt =====
-- The key map of the limiter: lookups after each operation, and which keys it has.
use bikenest.Base.{
  ℕ, ◌-◌, ◌≡◌, refl, ap, ◌∙◌, true, false, [], ◌∷◌, none, some, inl, inr, arith, ltb, if◌then◌else◌,
  Bool-cases,
}
use bikenest.Base.Text.{Text, text_eq, text_eq→eq, text_eq_refl, text_eq_sym}
use bikenest.RateLimit.InMemory.{Bucket, BucketMap, find, insert, retain}

-- No key stands twice.
abbrev pub Distinct : BucketMap → Type 0
Distinct [] = Unit {0}
Distinct ((k, _) ∷ m) = (find k m ≡ none) × Distinct m

pub text_eq_trans : (i j k : Text) → text_eq i j ≡ true → text_eq i k ≡ text_eq j k
text_eq_trans i j k h = ground (arith, text_eq→eq i j h)

pub find-insert_self : (k : Text) (b : Bucket) (m : BucketMap) → find k (insert k b m) ≡ some b
unfolding find insert
find-insert_self k b [] = ground (arith, text_eq_refl k)
find-insert_self k b ((j, c) ∷ m) = ground (arith, find-insert_self k b m)

pub find-insert_ne :
    (i k : Text) (b : Bucket) (m : BucketMap)
    → text_eq k i ≡ false
    → find i (insert k b m) ≡ find i m
unfolding find insert
find-insert_ne i k b [] h = ground arith
find-insert_ne i k b ((j, c) ∷ m) h = ground (arith, find-insert_ne i k b m h, text_eq_trans j k i)

pub insert-Distinct : (k : Text) (b : Bucket) (m : BucketMap) → Distinct m → Distinct (insert k b m)
unfolding insert find
insert-Distinct k b [] d = ground arith
insert-Distinct k b ((j, c) ∷ m) d = elim (Bool-cases (text_eq j k)) [
  | inl e ↦ rw e d
  | inr e ↦ rw e (find-insert_ne j k b m (text_eq_sym k j ∙ e) ∙ d.0, insert-Distinct k b m d.1)
]

pub find-retain-none :
    (k : Text) (now : ℕ) (m : BucketMap) → find k m ≡ none → find k (retain now m) ≡ none
unfolding find retain
find-retain-none k now [] h = refl
find-retain-none k now ((j, b) ∷ m) h = ground (arith, find-retain-none k now m)

pub retain-Distinct : (now : ℕ) (m : BucketMap) → Distinct m → Distinct (retain now m)
unfolding retain
retain-Distinct now [] d = tt
retain-Distinct now ((j, b) ∷ m) d =
    ground (arith, find-retain-none j now m d.0, retain-Distinct now m d.1)

-- `retain` keeps exactly the buckets whose window has not elapsed.
pub find-retain :
    (k : Text) (now : ℕ) (m : BucketMap) (b : Bucket)
    → Distinct m
    → find k m ≡ some b
    → find k (retain now m) ≡ (if ltb (now - b.last_seen) b.window then some b else none)
unfolding find retain
find-retain k now [] b d h = ground arith
find-retain k now ((j, c) ∷ m) b d h = elim (Bool-cases (text_eq j k)) [
  | inl e ↦ ground (arith, find-retain-none k now m, ap (λ i. find i m) (text_eq→eq j k e))
  | inr e ↦ ground (arith, find-retain k now m b d.1)
]
