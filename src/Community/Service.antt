-- ===== src/Community/Service.antt =====
-- `ContributionService` of crates/application/src/community.rs. The advisory search for duplicates,
-- which only reads, is left out.
use bikenest.Base.{
  ℕ, Bool, true, false, not, ◌||◌, List, [], ◌∷◌, ◌++◌, Option, none, some, if◌then◌else◌,
}
use bikenest.Base.Action.{ok, err, pure, or_raise, raise_if, modify, ◌>>=◌, ◌>>◌}
use bikenest.Base.Text.{Text, codes, trim}
use bikenest.Base.Int.{ℤ, pos}
use bikenest.Base.F64.{F64}
use bikenest.Base.Json.{Json, integer, text, object, end, field}
use bikenest.RateLimit.InMemory
use bikenest.Auth.{User}
use bikenest.Auth.Accounts.{is_empty}
use bikenest.Parking.{ProposalKind, Location, Outside, Favorite}
use bikenest.Parking.Codes.{proposal_kind_code}
use bikenest.Community.{
  not_verified, rate_limited, not_found, location_not_active, invalid_field, no_timezone, Call,
  NewParkingLocation, ParkingEdit, NewVerification,
}
use bikenest.Community.Values.{location_of, is_parked_here, is_still_exists, signal_kind_code}
use bikenest.Community.Locations.{is_active, get_for_edit, create, apply_edit, create_proposal}
use bikenest.Community.Reviews
use bikenest.Community.Signals.{record_signal, mark_verified_at}

-- `AuthenticatedUser::is_verified`: the address was confirmed.
abbrev pub is_verified : User → Bool
is_verified u = elim u.account.email_verified_at [ none ↦ false | some _ ↦ true ]

unfoldable pub require_verified : User → Call (Unit {0})
require_verified u = raise_if (not (is_verified u)) not_verified

abbrev pub hour : ℕ
hour = 3600000

abbrev pub day : ℕ
day = 86400000

abbrev pub parking_create_user_limit : ℕ
parking_create_user_limit = 5

abbrev pub parking_create_ip_limit : ℕ
parking_create_ip_limit = 10

abbrev pub edit_user_limit : ℕ
edit_user_limit = 15

abbrev pub proposal_user_limit : ℕ
proposal_user_limit = 5

abbrev pub review_user_limit : ℕ
review_user_limit = 10

abbrev pub verification_user_limit : ℕ
verification_user_limit = 30

abbrev pub parked_here_user_limit : ℕ
parked_here_user_limit = 20

-- `allowed`, over the limiter of one process.
unfoldable pub allowed : ℕ → Text → ℕ → ℕ → Call (Unit {0})
allowed now key limit window s =
    let (answer, l) = InMemory.check now key limit window s.limiter in
    (if answer then ok tt else err rate_limited, record s { limiter = l })

unfoldable pub audit : User → Text → Text → ℕ → Json → Call (Unit {0})
audit u action target_type target_id metadata = modify λ s. record s {
  audits =
      s.audits
      ++ (record {
        actor = some u.account.id;
        action = action;
        target_type = target_type;
        target_id = target_id;
        metadata = metadata;
      })
        ∷ [];
}

abbrev pub one_field : Text → Json → Json
one_field k v = object (field k v end)

unfoldable pub require_active : ℕ → Call Location
unfolding get_for_edit
require_active id = do
  found ← get_for_edit id
  location ← or_raise found not_found
  raise_if (not (is_active location.moderation_state)) location_not_active
  pure location

-- `validate_name_address`.
unfoldable pub validate_name_address : Text → Text → Call (Unit {0})
unfolding trim
validate_name_address name address =
    raise_if (is_empty (trim name) || is_empty (trim address)) invalid_field

abbrev pub with_timezone : NewParkingLocation → Text → NewParkingLocation
with_timezone new tz = record new { timezone = some tz }

-- The end of `record_verification` of a positive signal.
abbrev pub refresh_if : Bool → ℕ → ℕ → Call (Unit {0})
refresh_if true location now = mark_verified_at location now
refresh_if false location now = pure tt

abbrev pub signal_key : Bool → Text
signal_key true = codes "contribution:parked-here:user:"
signal_key false = codes "contribution:verification:user:"

abbrev pub signal_limit : Bool → ℕ
signal_limit true = parked_here_user_limit
signal_limit false = verification_user_limit

abbrev pub review_action : Bool → Text
review_action true = codes "review.edited"
review_action false = codes "review.created"

module _ (o : Outside) where
  -- `TimezoneResolver`, when the form gave no time zone.
  module _ (resolve : F64 → F64 → Option Text) where
    unfoldable pub derived_timezone : NewParkingLocation → Call Text
    derived_timezone new = elim new.timezone [
      | some tz ↦ pure tz
      | none ↦ or_raise (resolve new.point.lat new.point.lon) no_timezone
    ]

    unfoldable pub add_parking_location : ℕ → User → Text → NewParkingLocation → Call ℕ
    unfolding require_verified allowed validate_name_address derived_timezone create audit
    add_parking_location now u ip new = do
      require_verified u
      allowed now (codes "contribution:parking-create:user:" ++ o.decimal u.account.id)
          parking_create_user_limit day
      allowed now (codes "contribution:parking-create:ip:" ++ ip) parking_create_ip_limit day
      validate_name_address new.name new.address
      tz ← derived_timezone new
      id ← create o now (with_timezone new tz) u.account.id
      audit u (codes "parking.created") (codes "parking_location") id
          (one_field (codes "name") (text new.name))
      pure id

  unfoldable pub apply_parking_edit : ℕ → User → ℕ → ℕ → ParkingEdit → Call ℕ
  unfolding require_verified allowed validate_name_address require_active apply_edit audit
  apply_parking_edit now u id version edit = do
    require_verified u
    allowed now (codes "contribution:edit:user:" ++ o.decimal u.account.id) edit_user_limit hour
    validate_name_address edit.name edit.address
    require_active id
    new_version ← apply_edit o now id version edit u.account.id
    audit u (codes "parking.edited") (codes "parking_location") id
        (one_field (codes "version") (integer (pos new_version)))
    pure new_version

  unfoldable pub propose_location_change : ℕ → User → ℕ → ProposalKind → Json → Call ℕ
  unfolding require_verified allowed require_active create_proposal audit proposal_kind_code
  propose_location_change now u id kind proposed = do
    require_verified u
    allowed now (codes "contribution:proposal:user:" ++ o.decimal u.account.id) proposal_user_limit
        hour
    current ← require_active id
    proposal ← create_proposal (record {
      location_id = id;
      proposer_id = u.account.id;
      base_version = current.version;
      kind = kind;
      proposed = proposed;
    })
    audit u (codes "parking.proposal_created") (codes "parking_proposal") proposal
        (one_field (codes "kind") (text (proposal_kind_code kind)))
    pure proposal

  unfoldable pub upsert_review : ℕ → User → ℕ → ℕ → Text → Call (Unit {0})
  unfolding require_verified allowed require_active Reviews.upsert_review audit
  upsert_review now u location rating body = do
    require_verified u
    allowed now (codes "contribution:review:user:" ++ o.decimal u.account.id) review_user_limit hour
    require_active location
    was_update ← Reviews.upsert_review now location u.account.id rating body
    audit u (review_action was_update) (codes "review") location
        (one_field (codes "rating") (integer (pos rating)))

  -- `record_verification`; the database stamps the row with its own instant.
  unfoldable pub record_verification : ℕ → ℕ → User → NewVerification → Call (Unit {0})
  unfolding require_verified allowed require_active record_signal mark_verified_at audit location_of
      is_parked_here is_still_exists signal_kind_code
  record_verification db_now now u v = do
    require_verified u
    allowed now (signal_key (is_parked_here v) ++ o.decimal u.account.id)
        (signal_limit (is_parked_here v)) hour
    require_active (location_of v)
    record_signal db_now now v
    refresh_if (is_still_exists v) (location_of v) now
    audit u (codes "verification.recorded") (codes "parking_location") (location_of v)
        (one_field (codes "kind") (text (signal_kind_code v)))

unfoldable pub toggle_favorite : ℕ → User → ℕ → Call Bool
unfolding Reviews.toggle
toggle_favorite now u location = Reviews.toggle now u.account.id location

unfoldable pub list_favorites : User → Option (ℕ × ℕ) → ℤ → Call (List Favorite)
unfolding Reviews.list_favorites
list_favorites u last limit = Reviews.list_favorites u.account.id last limit
