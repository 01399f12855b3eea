-- ===== src/Auth/Accounts.antt =====
-- crates/infrastructure/src/auth/account_repo.rs: accounts, identities and roles. A statement that
-- breaks a unique index is a conflict, and its transaction leaves nothing but the id it took.
use bikenest.Base.{
  ℕ, suc, Bool, true, false, not, ◌&&◌, ◌||◌, List, [], ◌∷◌, ◌++◌, map, Option, none, some, leb,
  ◌==◌, if◌then◌else◌, length, filter, any, first,
}
use mathlib.Core.Option
use bikenest.Base.Text.{Text, text_eq, trim}
use bikenest.Auth.{
  AccountState, pending_email_verification, active, suspended, deleted, Role, user, moderator,
  admin, AuthenticationProvider, password, google, LocaleCode, conflict, internal,
  refuse_admin_self_revoke, Account, User, Identity, Grant, Store, Outside,
}
use bikenest.Auth.Monad.{Outcome, ok, err, Action, modify, gets}

abbrev pub same_role : Role → Role → Bool
same_role user user = true
same_role moderator moderator = true
same_role admin admin = true
same_role _ _ = false

abbrev pub same_provider : AuthenticationProvider → AuthenticationProvider → Bool
same_provider password password = true
same_provider google google = true
same_provider _ _ = false

-- `split_once`, and the test of the shape in `UserEmail::parse`.
unfoldable pub split_once : ℕ → Text → Option (Text × Text)
split_once c [] = none
split_once c (d ∷ s) =
    if d == c
    then some ([], s)
    else elim (split_once c s) [ none ↦ none | some (l, r) ↦ some (d ∷ l, r) ]

abbrev pub is_empty : Text → Bool
is_empty [] = true
is_empty (_ ∷ _) = false

unfoldable pub shaped : Option (Text × Text) → Bool
shaped none = false
shaped (some (l, r)) = not (is_empty l) && not (is_empty r) && any (λ c. c == 46) r

-- `AccountState::can_log_in` and `can_access_account`.
abbrev pub can_log_in : AccountState → Bool
can_log_in pending_email_verification = true
can_log_in active = true
can_log_in suspended = false
can_log_in deleted = false

abbrev pub can_access_account : AccountState → Bool
can_access_account pending_email_verification = true
can_access_account active = true
can_access_account suspended = false
can_access_account deleted = false

abbrev pub holds : ℕ → Role → Grant → Bool
holds id r g = g.user_id == id && same_role g.role r

-- `roles_bysql`: the held roles in the order of their codes.
unfoldable pub roles_bysql : ℕ → List Grant → List Role
roles_bysql id gs =
    (if any (holds id admin) gs then admin ∷ [] else [])
    ++ (if any (holds id moderator) gs then moderator ∷ [] else [])
    ++ (if any (holds id user) gs then user ∷ [] else [])

abbrev pub has_role : Role → List Role → Bool
has_role r = any (same_role r)

abbrev pub is_user : ℕ → Account → Bool
is_user id a = a.id == id

module _ (o : Outside) where
  -- `UserEmail::parse`; `none` is either of its errors.
  unfoldable pub parse_email : Text → Option Text
  unfolding shaped split_once
  parse_email raw =
      let n = o.to_lowercase (trim raw) in
      if not (is_empty n) && shaped (split_once 64 n) then some n else none

  -- The roles, of which USER is one in any case.
  unfoldable pub with_roles : List Grant → Account → Text → User
  unfolding roles_bysql
  with_roles gs a e =
      let roles = roles_bysql a.id gs in
      record {
        account = record a { email = e };
        roles = if has_role user roles then roles else roles ++ user ∷ [];
      }

  unfoldable pub load_user : List Grant → Account → Option User
  unfolding parse_email with_roles
  load_user gs a = Option.map (with_roles gs a) (parse_email a.email)

  -- A row that does not load is an internal error.
  abbrev pub load_result : Option User → Outcome (Option User)
  load_result none = err internal
  load_result (some u) = ok (some u)

  -- The row found, loaded.
  unfoldable pub loaded : Option Account → Action (Option User)
  unfolding load_user
  loaded none s = (ok none, s)
  loaded (some a) s = (load_result (load_user s.grants a), s)

  abbrev pub has_email : Text → Account → Bool
  has_email e a = text_eq (o.to_lowercase a.email) (o.to_lowercase e)

  unfoldable pub find_by_email : Text → Action (Option User)
  unfolding loaded
  find_by_email e s = loaded (first (has_email e) s.accounts) s

  unfoldable pub find_by_id : ℕ → Action (Option User)
  unfolding loaded
  find_by_id id s = loaded (first (λ a. a.id == id) s.accounts) s

  abbrev pub has_subject : AuthenticationProvider → Text → Identity → Bool
  has_subject p subject i = same_provider i.provider p && text_eq i.provider_subject subject

  unfoldable pub find_identity : AuthenticationProvider → Text → Action (Option Identity)
  find_identity p subject = gets λ s. first (has_subject p subject) s.identities

  abbrev pub new_identity : ℕ → Text → Text → Identity
  new_identity id email hash = record {
    user_id = id;
    provider = password;
    provider_subject = email;
    credential_hash = some hash;
  }

  -- The rows that `create` inserts.
  abbrev pub with_account : Text → Option Text → Text → AccountState → LocaleCode → Store → Store
  with_account email name hash state locale s = record s {
    accounts =
        s.accounts
        ++ record {
          id = s.next_user;
          email = email;
          display_name = name;
          account_state = state;
          email_verified_at = none;
          locale = locale;
        }
          ∷ [];
    identities =
        if is_empty hash
        then s.identities
        else s.identities ++ new_identity s.next_user email hash ∷ [];
    grants = s.grants ++ record { user_id = s.next_user; role = user; granted_by = none } ∷ [];
    next_user = suc s.next_user;
  }

  unfoldable pub create : Text → Option Text → Text → AccountState → LocaleCode → Action ℕ
  create email name hash state locale s =
      if any (has_email email) s.accounts
        || (not (is_empty hash) && any (has_subject password email) s.identities)
      then (err conflict, record s { next_user = suc s.next_user })
      else (ok s.next_user, with_account email name hash state locale s)

  abbrev pub update_account : ℕ → (Account → Account) → Store → Store
  update_account id f s = record s {
    accounts = map (λ a. if a.id == id then f a else a) s.accounts;
  }

  unfoldable pub set_state : ℕ → AccountState → Action (Unit {0})
  set_state id st = modify (update_account id λ a. record a { account_state = st })

  unfoldable pub mark_email_verified : ℕ → ℕ → Action (Unit {0})
  mark_email_verified id at_time =
      modify (update_account id λ a. record a { email_verified_at = some at_time })

  unfoldable pub set_account_locale : ℕ → LocaleCode → Action (Unit {0})
  set_account_locale id l = modify (update_account id λ a. record a { locale = l })

  abbrev pub password_of : ℕ → Identity → Bool
  password_of id i = i.user_id == id && same_provider i.provider password

  abbrev pub update_password : ℕ → (Identity → Identity) → Store → Store
  update_password id f s = record s {
    identities = map (λ i. if password_of id i then f i else i) s.identities;
  }

  abbrev pub confirmed : ℕ → ℕ → Text → Store → Store
  confirmed id at_time email s =
      update_password id (λ i. record i { provider_subject = email })
        (update_account id
          (λ a. record a {
            email = email;
            email_verified_at = some at_time;
            account_state = active;
          })
          s)

  -- The address is another account's; or another's password identity has it as its subject.
  abbrev pub email_elsewhere : ℕ → Text → Store → Bool
  email_elsewhere id email s =
      any (is_user id) s.accounts && any (λ a. has_email email a && not (a.id == id)) s.accounts

  abbrev pub subject_elsewhere : ℕ → Text → Store → Bool
  subject_elsewhere id email s =
      any (password_of id) s.identities
      && any (λ i. has_subject password email i && not (i.user_id == id)) s.identities

  -- `confirm_email`: a user has at most one password identity, since only `create` writes one.
  unfoldable pub confirm_email : ℕ → ℕ → Text → Action (Unit {0})
  confirm_email id at_time email s =
      if email_elsewhere id email s || subject_elsewhere id email s
      then (err conflict, s)
      else (ok tt, confirmed id at_time email s)

  unfoldable pub set_password : ℕ → Text → Action (Unit {0})
  set_password id hash = modify (update_password id λ i. record i { credential_hash = some hash })

  -- `link_identity`, of which a second is ignored.
  unfoldable pub link_identity : ℕ → AuthenticationProvider → Text → Action (Unit {0})
  link_identity id p subject = modify λ s.
      if any (has_subject p subject) s.identities then s else (record s {
        identities =
            s.identities
            ++ record {
              user_id = id;
              provider = p;
              provider_subject = subject;
              credential_hash = none;
            }
              ∷ [];
      })

-- The rows whose role is ADMIN.
abbrev pub is_admin_row : Grant → Bool
is_admin_row g = same_role g.role admin

unfoldable pub count_admins : List Grant → ℕ
count_admins gs = length (filter is_admin_row gs)

-- `grant_role`: a second is ignored; an id that is nobody's breaks the foreign keys.
unfoldable pub grant_role_row : ℕ → Role → ℕ → Action (Unit {0})
grant_role_row id r by s =
    if any (holds id r) s.grants
    then (ok tt, s)
    else (if any (is_user id) s.accounts && any (is_user by) s.accounts
        then (
          ok tt,
          record s {
            grants = s.grants ++ record { user_id = id; role = r; granted_by = some by } ∷ [];
          },
        )
        else (err internal, s))

-- `revoke_role_guarded`, in its transaction with the ADMIN rows locked.
unfoldable pub revoke_role_guarded : ℕ → Role → Action Bool
unfolding count_admins
revoke_role_guarded id r s =
    if same_role r admin && leb (count_admins s.grants) 1 && any (holds id admin) s.grants
    then (err refuse_admin_self_revoke, s)
    else (
      ok (any (holds id r) s.grants),
      record s { grants = filter (λ g. not (holds id r g)) s.grants },
    )
