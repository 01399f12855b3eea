-- ===== src/Auth/Service.antt =====
-- crates/application/src/auth.rs: registration, verification, login and password reset. What a call
-- draws (tokens, salts) are its arguments, and so is the instant.
use bikenest.Base.{
  ℕ, Bool, true, false, not, List, [], ◌∷◌, ◌++◌, Option, none, some, ltb, ◌==◌, if◌then◌else◌,
  length,
}
use bikenest.Base.Text.{Text, codes, text_eq}
use bikenest.RateLimit.InMemory
use bikenest.Auth.{
  pending_email_verification, LocaleCode, AuthError, email_taken, weak_password, invalid_email,
  token_invalid, rate_limited, conflict, internal, User, Mail, verify_email_at, reset_password_at,
  Target, by_id, AuditEvent, Outside,
}
use bikenest.Auth.Monad.{Outcome, ok, err, Action, pure, or_raise, raise_if, modify, ◌>>=◌, ◌>>◌}
use bikenest.Auth.Accounts.{
  parse_email, find_by_email, find_by_id, create, confirm_email, set_password,
}
use bikenest.Auth.Sessions.{revoke_all_for_user_except}
use bikenest.Auth.Tokens.{issue_verification, consume_verification, issue_reset, consume_reset}

abbrev pub hour : ℕ
hour = 3600000

abbrev pub quarter_hour : ℕ
quarter_hour = 900000

abbrev pub register_ip_limit : ℕ
register_ip_limit = 3

abbrev pub login_limit : ℕ
login_limit = 5

abbrev pub login_ip_limit : ℕ
login_ip_limit = 10

abbrev pub reset_ip_limit : ℕ
reset_ip_limit = 3

abbrev pub reset_email_limit : ℕ
reset_email_limit = 3

abbrev pub verify_resend_user_limit : ℕ
verify_resend_user_limit = 3

abbrev pub verify_resend_ip_limit : ℕ
verify_resend_ip_limit = 5

-- `SessionId::new([0u8; 32])`.
abbrev pub zeros : ℕ → List ℕ
zeros Prim.Native.Nat.zero = []
zeros (Prim.Native.Nat.suc n) = 0 ∷ zeros n

abbrev pub no_session : List ℕ
no_session = zeros 32

-- `DUMMY_HASH`.
abbrev pub dummy_hash : Text
dummy_hash =
    codes
      "$argon2id$v=19$m=19456,t=2,p=1$AAAAAAAAAAAAAAAAAAAAAA$AAAAAAAAAAAAAAAAAAAAAAAAAAAAAAAAAAAAAAAAAAA"

-- `AuthService::allowed`, over the limiter of one process.
unfoldable pub allowed : ℕ → Text → ℕ → ℕ → Action (Unit {0})
allowed now key limit window s =
    let (answer, l) = InMemory.check now key limit window s.limiter in
    (if answer then ok tt else err rate_limited, record s { limiter = l })

abbrev pub event : Option ℕ → Text → Target → Bool → AuditEvent
event actor action target succeeded = record {
  actor = actor;
  action = action;
  target = target;
  succeeded = succeeded;
}

unfoldable pub audit : AuditEvent → Action (Unit {0})
audit e = modify λ s. record s { audits = s.audits ++ e ∷ [] }

unfoldable pub send : Mail → Action (Unit {0})
send m = modify λ s. record s { mails = s.mails ++ m ∷ [] }

-- `PasswordPolicy::validate`, with its least length.
unfoldable pub valid_password : Text → Bool
valid_password pw = not (ltb (length pw) 8)

-- The `map_err` of `verify_email`.
abbrev pub taken_for : AuthError → AuthError
taken_for conflict = email_taken
taken_for e = e

abbrev pub on_conflict : {A : Type 0} → Outcome A → Outcome A
on_conflict (ok a) = ok a
on_conflict (err e) = err (taken_for e)

module _ (o : Outside) where
  -- `decode_token`.
  unfoldable pub decode_token : Text → Option (List ℕ)
  decode_token raw = elim (o.decode raw) [
    | none ↦ none
    | some bytes ↦ if length bytes == 32 then some bytes else none
  ]

  abbrev pub verification_link : List ℕ → Text
  verification_link token = o.base_url ++ codes "/verify-email?token=" ++ o.encode token

  abbrev pub reset_link : List ℕ → Text
  reset_link token = o.base_url ++ codes "/password-reset/new?token=" ++ o.encode token

  -- The rest of `register`, once the address was found free.
  unfoldable pub register_new :
      ℕ → Text → Option Text → Text → LocaleCode → Text → List ℕ → Action (Unit {0})
  unfolding create issue_verification send audit
  register_new now email name pw locale salt token = do
    hash ← or_raise (o.hash_password salt pw) internal
    id ← create o email name hash pending_email_verification locale
    issue_verification o id email token now
    send (record { to = email; locale = locale; kind = verify_email_at (verification_link token) })
    audit (event (some id) (codes "auth.register") (by_id id) true)

  -- The hash that `register` computes against nobody's when the address is taken.
  unfoldable pub dummy_verify : Text → Action (Unit {0})
  dummy_verify pw s = elim (o.verify_password pw dummy_hash) [
    | none ↦ (err internal, s)
    | some b ↦ (ok tt, s)
  ]

  unfoldable pub register :
      ℕ → Text → Text → Option Text → Text → LocaleCode → Text → List ℕ → Action (Unit {0})
  unfolding allowed valid_password find_by_email register_new dummy_verify
  register now ip raw_email name pw locale salt token = do
    allowed now (codes "register:ip:" ++ ip) register_ip_limit hour
    email ← or_raise (parse_email o raw_email) invalid_email
    raise_if (not (valid_password pw)) weak_password
    found ← find_by_email o email
    elim found [
      | some u ↦ dummy_verify pw
      | none ↦ register_new now email name pw locale salt token
    ]

  -- `confirm_email`, whose conflict means that the address is taken by now.
  unfoldable pub confirm_or_taken : ℕ → ℕ → Text → Action (Unit {0})
  unfolding confirm_email
  confirm_or_taken id now email s =
      let (r, s') = confirm_email o id now email s in (on_conflict r, s')

  -- What `verify_email` does last, by whether the address is the account's own: another one signs
  -- every session out.
  unfoldable pub record_confirmed : ℕ → ℕ → Bool → Action (Unit {0})
  unfolding revoke_all_for_user_except audit
  record_confirmed now id true =
      audit (event (some id) (codes "auth.email_verified") (by_id id) true)
  record_confirmed now id false =
      revoke_all_for_user_except o id no_session now
      >> audit (event (some id) (codes "auth.email_changed") (by_id id) true)

  unfoldable pub confirm_user : ℕ → ℕ → Bool → Text → Action (Unit {0})
  unfolding confirm_or_taken record_confirmed
  confirm_user now id own new_email =
      confirm_or_taken id now new_email >>= λ _. record_confirmed now id own

  -- After the token: what it confirms.
  unfoldable pub verify_user : ℕ → ℕ → Text → User → Action (Unit {0})
  unfolding confirm_user
  verify_user now id email user =
      or_raise (parse_email o email) invalid_email
      >>= confirm_user now id (text_eq user.account.email email)

  -- `verify_email`, once the token was consumed.
  unfoldable pub verify_grant : ℕ → ℕ × Text → Action (Unit {0})
  unfolding find_by_id verify_user
  verify_grant now (id, email) = do
    row ← find_by_id o id
    user ← or_raise row token_invalid
    verify_user now id email user

  unfoldable pub verify_email : ℕ → Text → Action (Unit {0})
  unfolding consume_verification verify_grant decode_token
  verify_email now raw_token = do
    token ← or_raise (decode_token raw_token) token_invalid
    found ← consume_verification o token now
    granted ← or_raise found token_invalid
    verify_grant now granted

  -- The rest of `resend_verification`, for an account that exists.
  unfoldable pub resend_to : ℕ → Text → Text → List ℕ → User → Action (Unit {0})
  unfolding allowed issue_verification send
  resend_to now ip email token user = do
    allowed now (codes "verif:user:" ++ o.decimal user.account.id) verify_resend_user_limit hour
    allowed now (codes "verif:ip:" ++ ip) verify_resend_ip_limit hour
    issue_verification o user.account.id email token now
    send (record {
      to = email;
      locale = user.account.locale;
      kind = verify_email_at (verification_link token);
    })

  unfoldable pub resend_verification : ℕ → Text → Text → List ℕ → Action (Unit {0})
  unfolding find_by_email resend_to
  resend_verification now ip email token = do
    found ← find_by_email o email
    elim found [ none ↦ pure tt | some user ↦ resend_to now ip email token user ]

  -- The rest of `request_password_reset`, for an account that exists.
  unfoldable pub send_reset : ℕ → Text → List ℕ → User → Action (Unit {0})
  unfolding issue_reset send
  send_reset now email token user = do
    issue_reset o user.account.id token now
    send (record {
      to = email;
      locale = user.account.locale;
      kind = reset_password_at (reset_link token);
    })

  unfoldable pub request_password_reset : ℕ → Text → Text → List ℕ → Action (Unit {0})
  unfolding allowed find_by_email send_reset
  request_password_reset now ip email token = do
    allowed now (codes "reset:ip:" ++ ip) reset_ip_limit hour
    allowed now (codes "reset:email:" ++ email) reset_email_limit hour
    found ← find_by_email o email
    elim found [ none ↦ pure tt | some user ↦ send_reset now email token user ]

  -- What `reset_password` does for the owner of the token, and `change_password` for its caller,
  -- whose session is kept.
  unfoldable pub replace_password : ℕ → ℕ → Text → Text → List ℕ → Action (Unit {0})
  unfolding valid_password set_password revoke_all_for_user_except audit
  replace_password now id pw salt keep = do
    raise_if (not (valid_password pw)) weak_password
    hash ← or_raise (o.hash_password salt pw) internal
    set_password o id hash
    revoke_all_for_user_except o id keep now
    audit (event (some id) (codes "auth.password_changed") (by_id id) true)

  unfoldable pub reset_password : ℕ → Text → Text → Text → Action (Unit {0})
  unfolding consume_reset decode_token replace_password
  reset_password now raw_token pw salt = do
    token ← or_raise (decode_token raw_token) token_invalid
    found ← consume_reset o token now
    id ← or_raise found token_invalid
    replace_password now id pw salt no_session
