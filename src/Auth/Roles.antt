-- ===== src/Auth/Roles.antt =====
-- crates/application/src/auth.rs: settings of a signed-in user, and what an admin may do.
use bikenest.Base.{ℕ, Bool, true, false, not, List, some, is_some}
use bikenest.Base.Text.{Text, codes}
use bikenest.Auth.{
  active, suspended, Role, user, admin, password, LocaleCode, invalid_credentials, email_taken,
  unauthorized, internal, User, confirm_change_at, by_id, Outside,
}
use bikenest.Auth.Monad.{Action, pure, or_raise, raise_if, ◌>>=◌, ◌>>◌}
use bikenest.Auth.Accounts.{
  same_role, has_role, find_by_email, find_by_id, find_identity, set_state, set_account_locale,
  grant_role_row, revoke_role_guarded,
}
use bikenest.Auth.Sessions.{revoke_all_for_user_except}
use bikenest.Auth.Tokens.{issue_verification}
use bikenest.Auth.Service.{event, audit, send, no_session, replace_password, verification_link}

module _ (o : Outside) where
  -- The current password of a signed-in user must be right; then the user is given.
  unfoldable pub check_current : ℕ → Text → Action User
  unfolding find_by_id find_identity
  check_current id current = do
    row ← find_by_id o id
    found ← or_raise row invalid_credentials
    identity ← find_identity o password found.account.email
    known ← or_raise identity invalid_credentials
    hash ← or_raise known.credential_hash invalid_credentials
    right ← or_raise (o.verify_password current hash) internal
    raise_if (not right) invalid_credentials
    pure found

  unfoldable pub change_password : ℕ → ℕ → Text → Text → Text → List ℕ → Action (Unit {0})
  unfolding check_current replace_password
  change_password now id current new salt current_session = do
    found ← check_current id current
    replace_password o now id new salt current_session

  unfoldable pub change_email : ℕ → ℕ → Text → Text → List ℕ → Action (Unit {0})
  unfolding check_current find_by_email issue_verification send audit
  change_email now id current new_email token = do
    found ← check_current id current
    other ← find_by_email o new_email
    raise_if (is_some other) email_taken
    issue_verification o id new_email token now
    send (record {
      to = new_email;
      locale = found.account.locale;
      kind = confirm_change_at (verification_link o token);
    })
    audit (event (some id) (codes "auth.email_change_requested") (by_id id) true)

  unfoldable pub set_locale : ℕ → LocaleCode → Action (Unit {0})
  unfolding set_account_locale
  set_locale id locale = set_account_locale o id locale

  unfoldable pub suspend_user : ℕ → User → ℕ → Action (Unit {0})
  unfolding set_state revoke_all_for_user_except audit
  suspend_user now actor target = do
    raise_if (not (has_role admin actor.roles)) unauthorized
    set_state o target suspended
    revoke_all_for_user_except o target no_session now
    audit (event (some actor.account.id) (codes "user.suspended") (by_id target) true)

  unfoldable pub restore_user : User → ℕ → Action (Unit {0})
  unfolding set_state audit
  restore_user actor target = do
    raise_if (not (has_role admin actor.roles)) unauthorized
    set_state o target active
    audit (event (some actor.account.id) (codes "user.restored") (by_id target) true)

-- The rest of `grant_role` and of `revoke_role`, which record what they did.
unfoldable pub granted_by_admin : User → ℕ → Role → Action (Unit {0})
unfolding grant_role_row audit
granted_by_admin actor target role = do
  grant_role_row target role actor.account.id
  audit (event (some actor.account.id) (codes "role.granted") (by_id target) true)

unfoldable pub grant_role : User → ℕ → Role → Action (Unit {0})
unfolding granted_by_admin
grant_role actor target role = do
  raise_if (not (has_role admin actor.roles)) unauthorized
  raise_if (same_role role user) unauthorized
  granted_by_admin actor target role

unfoldable pub audit_revoked : User → ℕ → Bool → Action (Unit {0})
unfolding audit
audit_revoked actor target true =
    audit (event (some actor.account.id) (codes "role.revoked") (by_id target) true)
audit_revoked actor target false = pure tt

unfoldable pub revoked_by_admin : User → ℕ → Role → Action (Unit {0})
unfolding revoke_role_guarded audit_revoked
revoked_by_admin actor target role = revoke_role_guarded target role >>= audit_revoked actor target

unfoldable pub revoke_role : User → ℕ → Role → Action (Unit {0})
unfolding revoked_by_admin
revoke_role actor target role = do
  raise_if (not (has_role admin actor.roles)) unauthorized
  raise_if (same_role role user) unauthorized
  revoked_by_admin actor target role
