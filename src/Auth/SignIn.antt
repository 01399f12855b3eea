-- ===== src/Auth/SignIn.antt =====
-- crates/application/src/auth.rs: login and logout, sign-in through a provider, and the session of
-- a request.
use bikenest.Base.{ℕ, Bool, true, false, List, [], ◌++◌, Option, none, some, if◌then◌else◌}
use bikenest.Base.Text.{Text, codes}
use bikenest.Auth.{
  pending_email_verification, active, AuthenticationProvider, password, pt_br, invalid_credentials,
  provider_failed, internal, User, Identity, by_id, by_email, Outside,
}
use bikenest.Auth.Monad.{Action, pure, raise, or_raise, ◌>>=◌, ◌>>◌}
use bikenest.Auth.Accounts.{
  can_log_in, can_access_account, parse_email, find_by_email, find_by_id, find_identity, create,
  link_identity, mark_email_verified,
}
use bikenest.Auth.Sessions.{create_session, resolve, revoke}
use bikenest.Auth.Service.{allowed, event, audit, login_limit, login_ip_limit, quarter_hour}

-- What `sign_in` and `login` give: the session id for the cookie, its CSRF token, and the user.
pub record LoginOutcome : Type 0 where
  pub session : List ℕ
  pub csrf : List ℕ
  pub signed_in : User

module _ (o : Outside) where
  -- A failed login is recorded under the address that was tried.
  unfoldable pub refuse_login : {A : Type 0} → Text → Action A
  unfolding audit
  refuse_login email = do
    audit (event none (codes "auth.login") (by_email email) false)
    raise invalid_credentials

  -- A session for the user, in `login` and `sign_in`.
  unfoldable pub open_session : ℕ → List ℕ → List ℕ → User → Action LoginOutcome
  unfolding create_session audit
  open_session now session csrf user = do
    create_session o user.account.id session csrf now
    audit (event (some user.account.id) (codes "auth.login") (by_id user.account.id) true)
    pure (record { session = session; csrf = csrf; signed_in = user })

  -- `login`, once the password was checked.
  unfoldable pub login_user : ℕ → Text → List ℕ → List ℕ → Option User → Action LoginOutcome
  unfolding refuse_login open_session
  login_user now email session csrf none = refuse_login email
  login_user now email session csrf (some user) =
      if can_log_in user.account.account_state
      then open_session now session csrf user
      else refuse_login email

  -- `login`, with the stored hash of the identity.
  unfoldable pub login_hash :
      ℕ → Text → Text → List ℕ → List ℕ → ℕ → Option Text → Action LoginOutcome
  unfolding refuse_login login_user find_by_id
  login_hash now email pw session csrf id none = refuse_login email
  login_hash now email pw session csrf id (some hash) = do
    right ← or_raise (o.verify_password pw hash) internal
    if right then (find_by_id o id >>= login_user now email session csrf) else refuse_login email

  unfoldable pub login_identity :
      ℕ → Text → Text → List ℕ → List ℕ → Option Identity → Action LoginOutcome
  unfolding refuse_login login_hash
  login_identity now email pw session csrf none = refuse_login email
  login_identity now email pw session csrf (some i) =
      login_hash now email pw session csrf i.user_id i.credential_hash

  unfoldable pub login : ℕ → Text → Text → Text → List ℕ → List ℕ → Action LoginOutcome
  unfolding allowed find_identity login_identity
  login now ip raw_email pw session csrf = do
    email ← or_raise (parse_email o raw_email) invalid_credentials
    allowed now (codes "login:" ++ ip ++ codes ":" ++ email) login_limit quarter_hour
    allowed now (codes "login:ip:" ++ ip) login_ip_limit quarter_hour
    identity ← find_identity o password email
    login_identity now email pw session csrf identity

  unfoldable pub logout : ℕ → List ℕ → Action (Unit {0})
  unfolding revoke
  logout now session = revoke o session now

  -- The user, if the state of the account lets it in.
  abbrev pub principal : List ℕ → Option User → Option (User × List ℕ)
  principal csrf none = none
  principal csrf (some u) =
      if can_access_account u.account.account_state then some (u, csrf) else none

  -- `resolve_session`, once the session was found live.
  unfoldable pub resolve_user : Option (ℕ × List ℕ) → Action (Option (User × List ℕ))
  unfolding find_by_id
  resolve_user none = pure none
  resolve_user (some (id, csrf)) = do found ← find_by_id o id; pure (principal csrf found)

  unfoldable pub resolve_session : ℕ → List ℕ → Action (Option (User × List ℕ))
  unfolding resolve resolve_user
  resolve_session now raw = resolve o raw now >>= resolve_user

-- What a provider asserts of the one who signs in.
pub record ProviderIdentity : Type 0 where
  pub provider : AuthenticationProvider
  pub subject : Text
  pub email : Text
  pub email_verified : Bool

module _ (o : Outside) where
  unfoldable pub sign_in : ℕ → List ℕ → List ℕ → User → Action LoginOutcome
  unfolding open_session
  sign_in now session csrf user =
      if can_log_in user.account.account_state
      then open_session o now session csrf user
      else raise invalid_credentials

  -- The third case of `oauth_callback`: a new account.
  unfoldable pub oauth_new : ℕ → ProviderIdentity → List ℕ → List ℕ → Action LoginOutcome
  unfolding create link_identity mark_email_verified find_by_id audit sign_in
  oauth_new now i session csrf = do
    id ←
        create o i.email none [] (if i.email_verified then active else pending_email_verification)
          pt_br
    link_identity o id i.provider i.subject
    if i.email_verified then mark_email_verified o id now else pure tt
    row ← find_by_id o id
    user ← or_raise row provider_failed
    audit (event (some id) (codes "auth.oauth_linked") (by_id id) true)
    sign_in now session csrf user

  -- The second: an account under the provider's verified address.
  unfoldable pub oauth_linked :
      ℕ → ProviderIdentity → List ℕ → List ℕ → Option User → Action LoginOutcome
  unfolding link_identity oauth_new sign_in
  oauth_linked now i session csrf none = oauth_new now i session csrf
  oauth_linked now i session csrf (some user) =
      link_identity o user.account.id i.provider i.subject >> sign_in now session csrf user

  unfoldable pub oauth_unknown : ℕ → ProviderIdentity → List ℕ → List ℕ → Action LoginOutcome
  unfolding find_by_email oauth_linked oauth_new
  oauth_unknown now i session csrf =
      if i.email_verified
      then (find_by_email o i.email >>= oauth_linked now i session csrf)
      else oauth_new now i session csrf

  -- The first: the identity is known.
  unfoldable pub oauth_known :
      ℕ → ProviderIdentity → List ℕ → List ℕ → Option Identity → Action LoginOutcome
  unfolding find_by_id oauth_unknown sign_in
  oauth_known now i session csrf none = oauth_unknown now i session csrf
  oauth_known now i session csrf (some r) = do
    row ← find_by_id o r.user_id
    user ← or_raise row provider_failed
    sign_in now session csrf user

  -- `oauth_callback`, by what the exchange with the provider gave.
  unfoldable pub oauth_callback :
      ℕ → Option ProviderIdentity → List ℕ → List ℕ → Action LoginOutcome
  unfolding find_identity oauth_known
  oauth_callback now none session csrf = raise provider_failed
  oauth_callback now (some i) session csrf =
      find_identity o i.provider i.subject >>= oauth_known now i session csrf
