-- ===== src/Auth.antt =====
-- Accounts and sessions: the tables of crates/infrastructure/src/auth, and the use cases of
-- crates/application/src/auth.rs over them. Instants are milliseconds of one clock; what a call
-- draws at random, and what hashes and codecs compute, comes from outside.
pub mod Codes
pub mod Monad
pub mod Accounts
pub mod Sessions
pub mod Tokens
pub mod Service
pub mod SignIn
pub mod Roles
pub mod Admins
pub mod SingleUse
pub mod Access
pub mod Lifetime
pub mod States
pub mod Passwords
pub mod Login
mod Tests
use bikenest.Base.{ℕ, Bool, true, false, List, Option}
use bikenest.Base.Text.{Text}
use bikenest.RateLimit.InMemory.{Buckets}

pub data AccountState : Type 0 where
  pending_email_verification active suspended deleted : AccountState

pub data Role : Type 0 where
  user moderator admin : Role

pub data AuthenticationProvider : Type 0 where
  password google : AuthenticationProvider

pub data LocaleCode : Type 0 where
  pt_br en : LocaleCode

pub data AuthError : Type 0 where
  invalid_credentials email_taken weak_password invalid_email : AuthError
  token_expired token_used token_invalid rate_limited : AuthError
  account_suspended account_deleted provider_failed unauthorized : AuthError
  refuse_admin_self_revoke conflict unavailable internal : AuthError

-- A row of `users`.
pub record Account : Type 0 where
  pub id : ℕ
  pub email : Text
  pub display_name : Option Text
  pub account_state : AccountState
  pub email_verified_at : Option ℕ
  pub locale : LocaleCode

-- A `User` as the repository loads it, with its roles.
pub record User : Type 0 where
  pub account : Account
  pub roles : List Role

-- A row of `authentication_identities`.
pub record Identity : Type 0 where
  pub user_id : ℕ
  pub provider : AuthenticationProvider
  pub provider_subject : Text
  pub credential_hash : Option Text

-- A row of `user_roles`.
pub record Grant : Type 0 where
  pub user_id : ℕ
  pub role : Role
  pub granted_by : Option ℕ

-- A row of `sessions`.
pub record Session : Type 0 where
  pub token_hash : Text
  pub user_id : ℕ
  pub csrf_token : Text
  pub created_at : ℕ
  pub last_seen_at : ℕ
  pub expires_at : ℕ
  pub revoked_at : Option ℕ

-- A row of `email_verification_tokens`.
pub record Verification : Type 0 where
  pub token_hash : Text
  pub user_id : ℕ
  pub email : Text
  pub expires_at : ℕ
  pub used_at : Option ℕ

-- A row of `password_reset_tokens`.
pub record Reset : Type 0 where
  pub token_hash : Text
  pub user_id : ℕ
  pub expires_at : ℕ
  pub used_at : Option ℕ

-- An enqueued message, by its kind and link.
pub data EmailKind : Type 0 where
  verify_email_at confirm_change_at reset_password_at : Text → EmailKind

pub record Mail : Type 0 where
  pub to : Text
  pub locale : LocaleCode
  pub kind : EmailKind

-- The target of an audit event: an id, or the address that was tried.
pub data Target : Type 0 where
  by_id : ℕ → Target
  by_email : Text → Target

-- A row of `audit_events`.
pub record AuditEvent : Type 0 where
  pub actor : Option ℕ
  pub action : Text
  pub target : Target
  pub succeeded : Bool

-- What the calls read and write.
pub record Store : Type 0 where
  pub accounts : List Account
  pub identities : List Identity
  pub grants : List Grant
  pub sessions : List Session
  pub verifications : List Verification
  pub resets : List Reset
  pub mails : List Mail
  pub audits : List AuditEvent
  pub next_user : ℕ
  pub limiter : Buckets

-- The libraries that the calls go through. A password hash takes its salt; `none` is an error.
pub record Outside : Type 0 where
  pub to_lowercase : Text → Text
  pub sha256_hex : List ℕ → Text
  pub hash_password : Text → Text → Option Text
  pub verify_password : Text → Text → Option Bool
  pub encode : List ℕ → Text
  pub decode : Text → Option (List ℕ)
  pub decimal : ℕ → Text
  pub base_url : Text
