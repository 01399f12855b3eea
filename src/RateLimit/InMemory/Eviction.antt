-- ===== src/RateLimit/InMemory/Eviction.antt =====
-- crates/infrastructure/src/auth/rate_limit.rs: what the eviction of a sweep takes away.
use bikenest.Base.{
  ℕ, zero, suc, ◌+◌, ◌-◌, ◌≤◌, ◌≡◌, refl, ap, ◌∙◌, true, false, List, [], ◌∷◌, map, none, arith,
  is_some, length, take,
}
use bikenest.Base.Text.{Text, text_eq, text_eq_refl, text_eq_sym}
use bikenest.RateLimit.InMemory.{
  Bucket, BucketMap, max_buckets, find, remove, age, insert_age, sort_ages, remove_all, evict,
}
use bikenest.RateLimit.InMemory.Keys.{Distinct, text_eq_trans}

-- Among the ages no key stands twice.
abbrev Absent : Text → List (ℕ × Text) → Type 0
Absent k [] = Unit {0}
Absent k (a ∷ l) = (text_eq a.1 k ≡ false) × Absent k l

abbrev Apart : List (ℕ × Text) → Type 0
Apart [] = Unit {0}
Apart (a ∷ l) = Absent a.1 l × Apart l

-- Every key of a list of ages has a bucket.
abbrev Present : List (ℕ × Text) → BucketMap → Type 0
Present [] m = Unit {0}
Present (a ∷ l) m = (is_some (find a.1 m) ≡ true) × Present l m

length-remove :
    (k : Text) (m : BucketMap) → is_some (find k m) ≡ true → length (remove k m) + 1 ≡ length m
unfolding find remove
length-remove k [] h = ground arith
length-remove k ((j, b) ∷ m) h = ground (arith, length-remove k m)

find-remove_ne : (i k : Text) (m : BucketMap) → text_eq k i ≡ false → find i (remove k m) ≡ find i m
unfolding find remove
find-remove_ne i k [] h = refl
find-remove_ne i k ((j, b) ∷ m) h = ground (arith, find-remove_ne i k m h, text_eq_trans j k i)

Present-remove :
    (k : Text) (l : List (ℕ × Text)) (m : BucketMap)
    → Absent k l
    → Present l m
    → Present l (remove k m)
Present-remove k [] m h p = tt
Present-remove k (a ∷ l) m h p =
    (rw (find-remove_ne a.1 k m (text_eq_sym k a.1 ∙ h.0)) p.0, Present-remove k l m h.1 p.1)

length-remove_all :
    (l : List (ℕ × Text)) (m : BucketMap)
    → Apart l
    → Present l m
    → length (remove_all l m) + length l ≡ length m
unfolding remove_all
length-remove_all [] m d p = omega arith
length-remove_all (a ∷ l) m d p = omega (
  arith,
  length-remove a.1 m p.0,
  length-remove_all l (remove a.1 m) d.1 (Present-remove a.1 l m d.0 p.1),
)

Absent-take : (k : Text) (n : ℕ) (l : List (ℕ × Text)) → Absent k l → Absent k (take n l)
Absent-take k zero l h = tt
Absent-take k (suc n) [] h = tt
Absent-take k (suc n) (a ∷ l) h = (h.0, Absent-take k n l h.1)

Apart-take : (n : ℕ) (l : List (ℕ × Text)) → Apart l → Apart (take n l)
Apart-take zero l h = tt
Apart-take (suc n) [] h = tt
Apart-take (suc n) (a ∷ l) h = (Absent-take a.1 n l h.0, Apart-take n l h.1)

Present-take : (n : ℕ) (l : List (ℕ × Text)) (m : BucketMap) → Present l m → Present (take n l) m
Present-take zero l m h = tt
Present-take (suc n) [] m h = tt
Present-take (suc n) (a ∷ l) m h = (h.0, Present-take n l m h.1)

Absent-insert_age :
    (k : Text) (a : ℕ × Text) (l : List (ℕ × Text))
    → text_eq a.1 k ≡ false
    → Absent k l
    → Absent k (insert_age a l)
unfolding insert_age
Absent-insert_age k a [] e h = (e, tt)
Absent-insert_age k a (b ∷ l) e h = ground (arith, Absent-insert_age k a l e h.1)

Apart-insert_age :
    (a : ℕ × Text) (l : List (ℕ × Text)) → Absent a.1 l → Apart l → Apart (insert_age a l)
unfolding insert_age
Apart-insert_age a [] h d = (tt, tt)
Apart-insert_age a (b ∷ l) h d =
    ground (
      arith,
      Apart-insert_age a l h.1 d.1,
      Absent-insert_age b.1 a l (text_eq_sym a.1 b.1 ∙ h.0) d.0,
    )

Absent-sort_ages : (k : Text) (l : List (ℕ × Text)) → Absent k l → Absent k (sort_ages l)
unfolding sort_ages
Absent-sort_ages k [] h = tt
Absent-sort_ages k (a ∷ l) h = Absent-insert_age k a (sort_ages l) h.0 (Absent-sort_ages k l h.1)

Apart-sort_ages : (l : List (ℕ × Text)) → Apart l → Apart (sort_ages l)
unfolding sort_ages
Apart-sort_ages [] d = tt
Apart-sort_ages (a ∷ l) d =
    Apart-insert_age a (sort_ages l) (Absent-sort_ages a.1 l d.0) (Apart-sort_ages l d.1)

Present-insert_age :
    (a : ℕ × Text) (l : List (ℕ × Text)) (m : BucketMap)
    → is_some (find a.1 m) ≡ true
    → Present l m
    → Present (insert_age a l) m
unfolding insert_age
Present-insert_age a [] m e h = (e, tt)
Present-insert_age a (b ∷ l) m e h = ground (arith, Present-insert_age a l m e h.1)

Present-sort_ages : (l : List (ℕ × Text)) (m : BucketMap) → Present l m → Present (sort_ages l) m
unfolding sort_ages
Present-sort_ages [] m h = tt
Present-sort_ages (a ∷ l) m h = Present-insert_age a (sort_ages l) m h.0 (Present-sort_ages l m h.1)

length-insert_age : (a : ℕ × Text) (l : List (ℕ × Text)) → length (insert_age a l) ≡ suc (length l)
unfolding insert_age
length-insert_age a [] = refl
length-insert_age a (b ∷ l) = ground (arith, length-insert_age a l)

length-sort_ages : (m : BucketMap) → length (sort_ages (map age m)) ≡ length m
unfolding sort_ages
length-sort_ages [] = refl
length-sort_ages (e ∷ m) =
    length-insert_age (age e) (sort_ages (map age m)) ∙ ap suc (length-sort_ages m)

Absent-ages : (k : Text) (m : BucketMap) → find k m ≡ none → Absent k (map age m)
unfolding find
Absent-ages k [] h = tt
Absent-ages k ((j, b) ∷ m) h = ground (arith, Absent-ages k m)

Apart-ages : (m : BucketMap) → Distinct m → Apart (map age m)
Apart-ages [] d = tt
Apart-ages ((j, b) ∷ m) d = (Absent-ages j m d.0, Apart-ages m d.1)

Present-cons :
    (e : Text × Bucket) (l : List (ℕ × Text)) (m : BucketMap) → Present l m → Present l (e ∷ m)
unfolding find
Present-cons e [] m h = tt
Present-cons e (a ∷ l) m h = ground (arith, Present-cons e l m h.1)

Present-ages : (m : BucketMap) → Present (map age m) m
unfolding find
Present-ages [] = tt
Present-ages ((j, b) ∷ m) =
    (ground (arith, text_eq_refl j), Present-cons (j, b) (map age m) m (Present-ages m))

length-take {ℓ} : {A : Type ℓ} (n : ℕ) (l : List A) → n ≤ length l → length (take n l) ≡ n
length-take zero l h = refl
length-take (suc n) [] h = omega arith
length-take (suc n) (a ∷ l) h = omega (arith, length-take n l (omega arith))

-- A full map is cut down to exactly nine tenths of the ceiling.
pub length-evict : (m : BucketMap) → Distinct m → max_buckets ≤ length m → length (evict m) ≡ 90000
unfolding evict
length-evict m d h = omega (
  arith,
  length-take (length m - 90000) (sort_ages (map age m)) (omega (arith, length-sort_ages m)),
  length-remove_all (take (length m - 90000) (sort_ages (map age m))) m
      (Apart-take _ (sort_ages (map age m)) (Apart-sort_ages (map age m) (Apart-ages m d)))
      (Present-take _ (sort_ages (map age m)) m (Present-sort_ages (map age m) m (Present-ages m))),
)

find-remove-none : (i k : Text) (m : BucketMap) → find i m ≡ none → find i (remove k m) ≡ none
unfolding find remove
find-remove-none i k [] h = refl
find-remove-none i k ((j, b) ∷ m) h = ground (arith, find-remove-none i k m)

remove-Distinct : (k : Text) (m : BucketMap) → Distinct m → Distinct (remove k m)
unfolding remove
remove-Distinct k [] d = tt
remove-Distinct k ((j, b) ∷ m) d =
    ground (arith, find-remove-none j k m d.0, remove-Distinct k m d.1)

remove_all-Distinct : (l : List (ℕ × Text)) (m : BucketMap) → Distinct m → Distinct (remove_all l m)
unfolding remove_all
remove_all-Distinct [] m d = d
remove_all-Distinct (a ∷ l) m d = remove_all-Distinct l (remove a.1 m) (remove-Distinct a.1 m d)

pub evict-Distinct : (m : BucketMap) → Distinct m → Distinct (evict m)
unfolding evict
evict-Distinct m d = remove_all-Distinct _ m d
