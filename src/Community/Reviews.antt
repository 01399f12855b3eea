-- ===== src/Community/Reviews.antt =====
-- crates/infrastructure/src/community/review.rs and favorite.rs: one review of a user on a location,
-- with the mean that the location carries, and the favorites.
use bikenest.Base.{
  ℕ, suc, ◌+◌, ◌*◌, ◌/◌, Bool, true, false, not, ◌&&◌, ◌||◌, List, [], ◌∷◌, ◌++◌, Option, none,
  some, ltb, ◌==◌, if◌then◌else◌, length, take, filter, any, first,
}
use bikenest.Base.Action.{ok, err, pure, gets, modify, transaction, ◌>>=◌, ◌>>◌}
use bikenest.Base.Text.{Text}
use bikenest.Base.Int.{ℤ, clamp}
use bikenest.Base.Table.{update, sort_by}
use bikenest.Parking.{ReviewState, review_active, review_hidden, Location, ReviewRow, Favorite}
use bikenest.Community.{invalid_field, Call}

abbrev pub by_author : ℕ → Option ℕ → Bool
by_author u none = false
by_author u (some v) = v == u

-- The conflict target of the insert.
abbrev pub own : ℕ → ℕ → ReviewRow → Bool
own location author r = r.location_id == location && by_author author r.author_id

abbrev pub shown : ReviewState → Bool
shown review_active = true
shown review_hidden = false

-- `WHERE location_id = $1 AND moderation_state = 'ACTIVE'`.
abbrev pub counted : ℕ → ReviewRow → Bool
counted location r = r.location_id == location && shown r.moderation_state

abbrev pub rewritten : ℕ → ℕ → Text → ReviewRow → ReviewRow
rewritten now rating body r = record r { rating = rating; body = body; updated_at = now }

abbrev pub new_row : ℕ → ℕ → ℕ → ℕ → Text → ℕ → ReviewRow
new_row now location author rating body id = record {
  id = id;
  location_id = location;
  author_id = some author;
  rating = rating;
  body = body;
  moderation_state = review_active;
  updated_at = now;
}

-- The insert of a new row, whose foreign key wants its location there.
unfoldable pub put_new : ℕ → ℕ → ℕ → ℕ → Text → Bool → Call (ℕ × Bool)
put_new now location author rating body false s = (err invalid_field, s)
put_new now location author rating body true s = (
  ok (s.next_review, false),
  record s {
    reviews = s.reviews ++ new_row now location author rating body s.next_review ∷ [];
    next_review = suc s.next_review;
  },
)

-- The upsert, by the row that it conflicts with: the id of the row, and whether it was there.
unfoldable pub put_found : ℕ → ℕ → ℕ → ℕ → Text → Option ReviewRow → Call (ℕ × Bool)
unfolding put_new
put_found now location author rating body (some r) s = (
  ok (r.id, true),
  record s {
    reviews = update (own location author) (rewritten now rating body) s.reviews;
    next_review = suc s.next_review;
  },
)
put_found now location author rating body none s =
    put_new now location author rating body (any (λ l. l.id == location) s.locations) s

unfoldable pub put_review : ℕ → ℕ → ℕ → ℕ → Text → Call (ℕ × Bool)
unfolding put_found
put_review now location author rating body s =
    put_found now location author rating body (first (own location author) s.reviews) s

unfoldable pub keep_version : ℕ → ℕ → Text → Call (Unit {0})
keep_version id rating body = modify λ s. record s {
  review_revisions =
      s.review_revisions ++ (record { review_id = id; rating = rating; body = body }) ∷ [];
}

unfoldable pub total : List ReviewRow → ℕ
total [] = 0
total (r ∷ rs) = r.rating + total rs

-- `AVG(rating)::numeric(3,2)`, in hundredths.
unfoldable pub mean : List ReviewRow → Option ℕ
unfolding total
mean [] = none
mean (r ∷ rs) = let n = length (r ∷ rs) in some ((total (r ∷ rs) * 200 + n) / (2 * n))

abbrev pub rated : List ReviewRow → Location → Location
rated rs l = record l { rating_avg = mean rs; rating_count = length rs }

-- The aggregate, recomputed from the active reviews.
unfoldable pub recompute : ℕ → Call (Unit {0})
recompute location = modify λ s. record s {
  locations =
      update (λ l. l.id == location) (rated (filter (counted location) s.reviews)) s.locations;
}

unfoldable pub upsert_in_tx : ℕ → ℕ → ℕ → ℕ → Text → Call Bool
unfolding put_review keep_version recompute
upsert_in_tx now location author rating body = do
  written ← put_review now location author rating body
  keep_version written.0 rating body
  recompute location
  pure written.1

unfoldable pub upsert_review : ℕ → ℕ → ℕ → ℕ → Text → Call Bool
unfolding upsert_in_tx
upsert_review now location author rating body =
    transaction (upsert_in_tx now location author rating body)

unfoldable pub find_own : ℕ → ℕ → Call (Option ReviewRow)
find_own location author = gets λ s. first (own location author) s.reviews

abbrev pub before : Option ℕ → ℕ → Bool
before none id = true
before (some last) id = ltb id last

abbrev pub latest_first : ReviewRow → ReviewRow → Bool
latest_first a b = ltb b.id a.id

-- `list_active`; an id grows with the instant of its row.
unfoldable pub list_active : ℕ → Option ℕ → ℤ → Call (List ReviewRow)
list_active location last limit = gets λ s.
    take (clamp 200 limit)
      (sort_by latest_first (filter (λ r. counted location r && before last r.id) s.reviews))

abbrev pub same_favorite : ℕ → ℕ → Favorite → Bool
same_favorite user location f = f.user_id == user && f.location_id == location

-- `toggle`: whether the favorite was added.
unfoldable pub toggle : ℕ → ℕ → ℕ → Call Bool
toggle now user location s =
    if any (same_favorite user location) s.favorites
    then (
      ok false,
      record s { favorites = filter (λ f. not (same_favorite user location f)) s.favorites },
    )
    else (
      ok true,
      record s {
        favorites =
            s.favorites
            ++ (record { user_id = user; location_id = location; created_at = now }) ∷ [];
      },
    )

unfoldable pub is_favorited : ℕ → ℕ → Call Bool
is_favorited user location = gets λ s. any (same_favorite user location) s.favorites

-- The order `(created_at, location_id)`, and the cursor on it.
abbrev pub earlier : ℕ × ℕ → ℕ × ℕ → Bool
earlier (a, i) (b, j) = ltb a b || (a == b && ltb i j)

abbrev pub favorite_key : Favorite → ℕ × ℕ
favorite_key f = (f.created_at, f.location_id)

abbrev pub past_cursor : Option (ℕ × ℕ) → Favorite → Bool
past_cursor none f = true
past_cursor (some last) f = earlier (favorite_key f) last

unfoldable pub list_favorites : ℕ → Option (ℕ × ℕ) → ℤ → Call (List Favorite)
list_favorites user last limit = gets λ s. take (clamp 200 limit) (
    sort_by (λ a b. earlier (favorite_key b) (favorite_key a))
      (filter (λ f. f.user_id == user && past_cursor last f) s.favorites))
