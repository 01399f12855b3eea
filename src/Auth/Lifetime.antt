-- ===== src/Auth/Lifetime.antt =====
-- How long a session of crates/infrastructure/src/auth/session_store.rs lets its user in, through
-- `resolve_session` of crates/application/src/auth.rs.
use bikenest.Base.{
  ℕ, ◌+◌, ◌≤◌, ◌≡◌, refl, sym, subst, ◌∙◌, Option-cases, true, not, ◌&&◌, List, [], ◌∷◌, ◌⊎◌, inl,
  inr, none, some, arith, All, first, Bool-cases, any, ◌==◌, if◌then◌else◌,
}
use mathlib.Core.Option.{some_inj}
use bikenest.Base.Members.{All-map, All-append}
use bikenest.Base.Text.{Text}
use bikenest.Auth.{
  Account, AccountState, active, pending_email_verification, suspended, deleted, User, Session,
  Store, Outside,
}
use bikenest.Auth.Monad.{ok}
use bikenest.Auth.Accounts.{can_access_account, is_user}
use bikenest.Auth.Sessions.{
  has_hash, is_live, seen, revoked_by, create_session, resolve, revoke, revoke_all_for_user_except,
  revoke_all_for_user,
}
use bikenest.Auth.SignIn.{resolve_session}
use bikenest.Auth.Access.{resolve_session-Found}

abbrev pub thirty_days : ℕ
thirty_days = 2592000000

abbrev pub ninety_days : ℕ
ninety_days = 7776000000

-- The statements that write the table of sessions.
pub data SessionOp : Type 0 where
  opens : ℕ → List ℕ → List ℕ → ℕ → SessionOp
  resolves closes : List ℕ → ℕ → SessionOp
  closes_others : ℕ → List ℕ → ℕ → SessionOp
  closes_all : ℕ → ℕ → SessionOp

-- A row ends 90 days after its login.
abbrev pub IsCapped : Session → Type 0
IsCapped r = r.expires_at ≡ r.created_at + ninety_days

-- A state of an account that may use a session.
abbrev pub IsOpen : AccountState → Type 0
IsOpen st = (st ≡ active) ⊎ (st ≡ pending_email_verification)

can_access_account-IsOpen : (st : AccountState) → can_access_account st ≡ true → IsOpen st
can_access_account-IsOpen pending_email_verification h = inr refl
can_access_account-IsOpen active h = inl refl
can_access_account-IsOpen suspended h = absurd (ground (arith, h))
can_access_account-IsOpen deleted h = absurd (ground (arith, h))

is_live-unrevoked : (now : ℕ) (r : Session) → is_live now r ≡ true → r.revoked_at ≡ none
unfolding is_live
is_live-unrevoked now r h = elim (Option-cases r.revoked_at) [
  | inl e ↦ e
  | inr (at_time, e) ↦ absurd (ground (arith, e, h))
]

is_live-times :
    (now : ℕ) (r : Session)
    → is_live now r ≡ true
    → (now ≤ r.expires_at) × (now ≤ r.last_seen_at + thirty_days)
unfolding is_live
is_live-times now r h = (ground (arith, h), ground (arith, h))

module _ (o : Outside) where
  unfoldable pub run_session : SessionOp → Store → Store
  unfolding create_session resolve revoke revoke_all_for_user_except revoke_all_for_user
  run_session (opens user_id raw csrf now) s = (create_session o user_id raw csrf now s).1
  run_session (resolves raw now) s = (resolve o raw now s).1
  run_session (closes raw now) s = (revoke o raw now s).1
  run_session (closes_others user_id keep now) s =
      (revoke_all_for_user_except o user_id keep now s).1
  run_session (closes_all user_id now) s = (revoke_all_for_user user_id now s).1

  unfoldable pub run_sessions : List SessionOp → Store → Store
  unfolding run_session
  run_sessions [] s = s
  run_sessions (op ∷ ops) s = run_sessions ops (run_session op s)

  -- What stands behind a session that is let in.
  pub record LetIn (now : ℕ) (raw : List ℕ) (s : Store) (id : ℕ) : Type 0 where
    pub row : Session
    pub found : first (has_hash (o.sha256_hex raw)) s.sessions ≡ some row
    pub unrevoked : row.revoked_at ≡ none
    pub young : now ≤ row.created_at + ninety_days
    pub used : now ≤ row.last_seen_at + thirty_days
    pub account : Account
    pub known : first (is_user row.user_id) s.accounts ≡ some account
    pub named : account.id ≡ id
    pub open_to : IsOpen account.account_state

  run_session-IsCapped :
      (op : SessionOp) (s : Store)
      → All IsCapped s.sessions
      → All IsCapped (run_session op s).sessions
  unfolding run_session create_session resolve revoke revoke_all_for_user_except revoke_all_for_user
  run_session-IsCapped (opens user_id raw csrf now) s h =
      elim (Bool-cases (any (has_hash (o.sha256_hex raw)) s.sessions)) [
        | inl e ↦ rw (e, All) h
        | inr e ↦ rw (e, All) (All-append IsCapped s.sessions _ h (refl, tt))
      ]
  run_session-IsCapped (resolves raw now) s h =
      All-map IsCapped (seen o (o.sha256_hex raw) now) s.sessions (λ r c. ground (arith, c)) h
  run_session-IsCapped (closes raw now) s h =
      All-map IsCapped (λ r. if has_hash (o.sha256_hex raw) r then revoked_by now r else r)
        s.sessions (λ r c. ground (arith, c)) h
  run_session-IsCapped (closes_others user_id keep now) s h =
      All-map IsCapped
        (λ r.
          if r.user_id == user_id && not (has_hash (o.sha256_hex keep) r)
          then revoked_by now r
          else r)
        s.sessions (λ r c. ground (arith, c)) h
  run_session-IsCapped (closes_all user_id now) s h =
      All-map IsCapped (λ r. if r.user_id == user_id then revoked_by now r else r) s.sessions
        (λ r c. ground (arith, c)) h

  run_sessions-IsCapped :
      (ops : List SessionOp) (s : Store)
      → All IsCapped s.sessions
      → All IsCapped (run_sessions ops s).sessions
  unfolding run_sessions
  run_sessions-IsCapped [] s h = h
  run_sessions-IsCapped (op ∷ ops) s h =
      run_sessions-IsCapped ops (run_session op s) (run_session-IsCapped op s h)

  first-IsCapped :
      (h : Text) (rs : List Session) (row : Session)
      → first (has_hash h) rs ≡ some row
      → All IsCapped rs
      → IsCapped row
  first-IsCapped h [] row e a = absurd (ground (arith, e))
  first-IsCapped h (r ∷ rs) row e a = elim (Bool-cases (has_hash h r)) [
    | inl f ↦ let g : r ≡ row = some_inj.0 (sym (rw f refl) ∙ e) in subst IsCapped g a.0
    | inr f ↦ first-IsCapped h rs row (sym (rw f refl) ∙ e) a.1
  ]

  -- If each row of the table ends 90 days after its login, then after any sequence of logins, requests
  -- and revocations a session is let in only if its row, found under the hash of its id, is not revoked,
  -- was opened within the last 90 days and last refreshed within 30, and its account is active or
  -- waiting for its confirmation.
  pub resolve_session-LetIn :
      (ops : List SessionOp) (now : ℕ) (raw : List ℕ) (s : Store) (u : User) (csrf : List ℕ)
      → All IsCapped s.sessions
      → (resolve_session o now raw (run_sessions ops s)).0 ≡ ok (some (u, csrf))
      → LetIn now raw (run_sessions ops s) u.account.id
  resolve_session-LetIn ops now raw s u csrf c h =
      let t = run_sessions ops s in
      let f = resolve_session-Found o now raw t u csrf h in
      let (ends, idle) = is_live-times now f.row f.live in
      record {
        row = f.row;
        found = f.found;
        unrevoked = is_live-unrevoked now f.row f.live;
        young = omega (
          arith,
          ends,
          first-IsCapped (o.sha256_hex raw) t.sessions f.row f.found
              (run_sessions-IsCapped ops s c),
        );
        used = idle;
        account = f.account;
        known = f.known;
        named = f.named;
        open_to = can_access_account-IsOpen f.account.account_state f.open_to;
      }
