-- ===== src/Community/Ratings.antt =====
-- The reviews of a location and the mean that it carries, in
-- crates/infrastructure/src/community/review.rs.
use bikenest.Base.{
  ◌≡◌, refl, ℕ, zero, suc, ◌+◌, ◌*◌, ◌≤◌, ◌<◌, ◌⊎◌, ==_iff, Bool, true, false, ◌&&◌, List, [], ◌∷◌,
  Option, none, some, ◌==◌, if◌then◌else◌, ◌++◌, arith, length, filter, any, first, All, Bool-cases,
  inl, inr,
}
use bikenest.Base.Action.{pure, transaction, ◌>>=◌, ◌>>◌}
use bikenest.Base.Text.{Text}
use bikenest.Base.Table.{
  update, any-update_same, any-append_true, any-imp_false, any-first-none, any-first-some,
}
use bikenest.Parking.{ReviewRow, ReviewState, review_active, review_hidden, Location, Store}
use native.Mathlib.Nat.{mul-div-le, lt-mul-div-succ}
use bikenest.Community.{Call}
use bikenest.Community.Reviews.{
  own, shown, counted, rewritten, new_row, put_found, put_new, put_review, keep_version, total,
  mean, rated, recompute, upsert_in_tx, upsert_review,
}

-- The number and the total of the ratings of a location's active reviews, by counting row for row.
pub data Tally (location : ℕ) : List ReviewRow → ℕ → ℕ → Type 0 where
  none_left : Tally location [] 0 0
  adds :
      {r : ReviewRow} {rs : List ReviewRow} {n t : ℕ}
      → r.location_id ≡ location
      → r.moderation_state ≡ review_active
      → Tally location rs n t
      → Tally location (r ∷ rs) (suc n) (r.rating + t)
  of_another :
      {r : ReviewRow} {rs : List ReviewRow} {n t : ℕ}
      → (r.location_id == location) ≡ false
      → Tally location rs n t
      → Tally location (r ∷ rs) n t
  of_hidden :
      {r : ReviewRow} {rs : List ReviewRow} {n t : ℕ}
      → r.moderation_state ≡ review_hidden
      → Tally location rs n t
      → Tally location (r ∷ rs) n t

-- The mean of `n` ratings of a total, in the nearest hundredth, and the larger of two: at a distance of
-- half a hundredth at most.
abbrev pub IsMean : ℕ → ℕ → Option ℕ → Type 0
IsMean zero t none = Unit
IsMean zero t (some h) = ⊥
IsMean (suc k) t none = ⊥
IsMean (suc k) t (some h) =
    (2 * suc k * h ≤ t * 200 + suc k) × (t * 200 + suc k < 2 * suc k * (h + 1))

-- The location carries the number and the mean of its active reviews.
abbrev pub CarriesMean : ℕ → List ReviewRow → Location → Type 0
CarriesMean location rs l =
    l.id ≡ location
    → (n : ℕ) × (t : ℕ) × Tally location rs n t × (l.rating_count ≡ n) × IsMean n t l.rating_avg

shown-cases :
    (st : ReviewState)
    → ((st ≡ review_active) × (shown st ≡ true)) ⊎ ((st ≡ review_hidden) × (shown st ≡ false))
shown-cases review_active = inl (refl, refl)
shown-cases review_hidden = inr (refl, refl)

filter-Tally :
    (location : ℕ) (rs : List ReviewRow)
    → Tally location rs
        (length (filter (counted location) rs))
        (total (filter (counted location) rs))
unfolding total
filter-Tally location [] = none_left
filter-Tally location (r ∷ rs) = elim (Bool-cases (r.location_id == location)) [
  | inr e ↦ rw e (of_another e (filter-Tally location rs))
  | inl e ↦ elim (shown-cases r.moderation_state) [
    | inl (f, g) ↦
        rw e (rw g (adds ((==_iff r.location_id location).0 e) f (filter-Tally location rs)))
    | inr (f, g) ↦ rw e (rw g (of_hidden f (filter-Tally location rs)))
  ]
]

mean-IsMean : (rs : List ReviewRow) → IsMean (length rs) (total rs) (mean rs)
unfolding mean total
mean-IsMean [] = tt
mean-IsMean (r ∷ rs) = (
  mul-div-le (total (r ∷ rs) * 200 + length (r ∷ rs)) (2 * length (r ∷ rs)),
  lt-mul-div-succ (total (r ∷ rs) * 200 + length (r ∷ rs)) (omega arith),
)

rated-CarriesMean :
    (location : ℕ) (rs : List ReviewRow) (ls : List Location)
    → All
        (CarriesMean location rs)
        (update (λ l. l.id == location) (rated (filter (counted location) rs)) ls)
rated-CarriesMean location rs [] = tt
rated-CarriesMean location rs (l ∷ ls) = elim (Bool-cases (l.id == location)) [
  | inl e ↦ rw e (
    (λ h. (
      length (filter (counted location) rs),
      total (filter (counted location) rs),
      filter-Tally location rs,
      refl,
      mean-IsMean (filter (counted location) rs),
    )),
    rated-CarriesMean location rs ls,
  )
  | inr e ↦ rw e ((λ h. absurd (ground (arith, e, h))), rated-CarriesMean location rs ls)
]

-- A review of the user that everyone sees.
abbrev pub own_shown : ℕ → ℕ → ReviewRow → Bool
own_shown location author r = own location author r && shown r.moderation_state

-- The end of the transaction.
abbrev ending : ℕ → ℕ → Text → ℕ × Bool → Call Bool
ending location rating body w = keep_version w.0 rating body >> (recompute location >> pure w.1)

abbrev is_at : ℕ → Location → Bool
is_at location l = l.id == location

-- Nothing is asked of a location that is not there.
absent-CarriesMean :
    (location : ℕ) (rs : List ReviewRow) (ls : List Location)
    → any (is_at location) ls ≡ false
    → All (CarriesMean location rs) ls
absent-CarriesMean location rs [] h = tt
absent-CarriesMean location rs (l ∷ ls) h =
    ((λ e. absurd (ground (arith, h, e))), absent-CarriesMean location rs ls (ground (arith, h)))

module _ (now location author rating : ℕ) (body : Text) where
  abbrev outcome : Option ReviewRow → Store → Store
  outcome found s =
      (transaction (put_found now location author rating body found >>= ending location rating body)
        s).1

  abbrev inserted : Bool → Store → Store
  inserted there s =
      (transaction (put_new now location author rating body there >>= ending location rating body)
        s).1

  put_found-CarriesMean :
      (found : Option ReviewRow) (s : Store)
      → All (CarriesMean location (outcome found s).reviews) (outcome found s).locations
  unfolding put_found put_new keep_version recompute
  put_found-CarriesMean (some r) s =
      rated-CarriesMean location
        (update (own location author) (rewritten now rating body) s.reviews) s.locations
  put_found-CarriesMean none s = new_CarriesMean (any (is_at location) s.locations) refl
    where
      new_CarriesMean :
          (there : Bool)
          → any (is_at location) s.locations ≡ there
          → All (CarriesMean location (inserted there s).reviews) (inserted there s).locations
      new_CarriesMean true e =
          rated-CarriesMean location
            (s.reviews ++ new_row now location author rating body s.next_review ∷ []) s.locations
      new_CarriesMean false e = absent-CarriesMean location s.reviews s.locations e

  put_found-shown :
      (found : Option ReviewRow) (s : Store)
      → first (own location author) s.reviews ≡ found
      → any (own_shown location author) (outcome found s).reviews ≡ (
          if any (own location author) s.reviews
          then any (own_shown location author) s.reviews
          else any (is_at location) s.locations)
  unfolding put_found put_new keep_version recompute
  put_found-shown (some r) s f = rw (any-first-some (own location author) s.reviews r f) (
      any-update_same (own_shown location author) (own location author) (rewritten now rating body)
        s.reviews (λ x. refl))
  put_found-shown none s f = rw h (new_shown (any (is_at location) s.locations))
    where
      h : any (own location author) s.reviews ≡ false
      h = any-first-none (own location author) s.reviews f

      new_shown :
          (there : Bool) → any (own_shown location author) (inserted there s).reviews ≡ there
      new_shown true =
          any-append_true (own_shown location author) s.reviews
            (new_row now location author rating body s.next_review) (ground arith)
      new_shown false =
          any-imp_false (own_shown location author) (own location author) s.reviews
            (λ r k. ground (arith, k)) h

-- After the call, whether it wrote or failed, the location carries the number of its active reviews and,
-- in hundredths, their mean, rounded to the nearest and up from the middle. A first review of the user is
-- visible, if there is such a location, and one that moderation has hidden stays hidden.
pub upsert_review-CarriesMean :
    (now location author rating : ℕ) (body : Text) (s : Store)
    → All
        (CarriesMean location (upsert_review now location author rating body s).1.reviews)
        (upsert_review now location author rating body s).1.locations
      × (any (own_shown location author) (upsert_review now location author rating body s).1.reviews
          ≡ (if any (own location author) s.reviews
              then any (own_shown location author) s.reviews
              else any (λ l. l.id == location) s.locations))
unfolding upsert_review upsert_in_tx put_review
upsert_review-CarriesMean now location author rating body s =
    let found = first (own location author) s.reviews in
    (
      put_found-CarriesMean now location author rating body found s,
      put_found-shown now location author rating body found s refl,
    )
