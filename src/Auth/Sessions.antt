-- ===== src/Auth/Sessions.antt =====
-- crates/infrastructure/src/auth/session_store.rs: a session lives 90 days at most, and 30 days
-- without a request. `last_seen_at` is written again when it is over five minutes old.
use bikenest.Base.{
  ℕ, ◌+◌, ◌*◌, Bool, not, ◌&&◌, List, [], ◌∷◌, ◌++◌, map, Option, none, some, ltb, leb, ◌==◌,
  if◌then◌else◌, length, any, first, is_some,
}
use bikenest.Base.Text.{Text, text_eq}
use bikenest.Auth.{conflict, internal, Session, Store, Outside}
use bikenest.Auth.Monad.{Outcome, ok, err, Action, modify}

abbrev pub day : ℕ
day = 86400000

abbrev pub inactive_idle : ℕ
inactive_idle = 30 * day

abbrev pub absolute_cap : ℕ
absolute_cap = 90 * day

abbrev pub last_seen_refresh : ℕ
last_seen_refresh = 300000

abbrev pub has_hash : Text → Session → Bool
has_hash h r = text_eq r.token_hash h

-- The `WHERE` of the refresh, but for the hash.
unfoldable pub refreshes : ℕ → Session → Bool
refreshes now r =
    not (is_some r.revoked_at)
    && leb now r.expires_at
    && ltb now (r.last_seen_at + inactive_idle)
    && ltb (r.last_seen_at + last_seen_refresh) now

-- The row is neither revoked, nor expired, nor idle.
unfoldable pub is_live : ℕ → Session → Bool
is_live now r =
    not (is_some r.revoked_at) && leb now r.expires_at && leb now (r.last_seen_at + inactive_idle)

abbrev pub revoked_by : ℕ → Session → Session
revoked_by now r = if is_some r.revoked_at then r else (record r { revoked_at = some now })

abbrev pub update_sessions : (Session → Session) → Store → Store
update_sessions f s = record s { sessions = map f s.sessions }

module _ (o : Outside) where
  -- `create`: the session ids are 32 random bytes, and the table is unique in their hashes.
  unfoldable pub create_session : ℕ → List ℕ → List ℕ → ℕ → Action (Unit {0})
  create_session user_id raw csrf now s =
      if any (has_hash (o.sha256_hex raw)) s.sessions then (err conflict, s) else (
        ok tt,
        record s {
          sessions =
              s.sessions
              ++ record {
                token_hash = o.sha256_hex raw;
                user_id = user_id;
                csrf_token = o.encode csrf;
                created_at = now;
                last_seen_at = now;
                expires_at = now + absolute_cap;
                revoked_at = none;
              }
                ∷ [];
        },
      )

  -- `CsrfToken::from_base64url`.
  abbrev pub csrf_of : Text → Option (List ℕ)
  csrf_of t = elim (o.decode t) [
    | none ↦ none
    | some bytes ↦ if length bytes == 32 then some bytes else none
  ]

  abbrev pub seen : Text → ℕ → Session → Session
  seen h now r = if has_hash h r && refreshes now r then (record r { last_seen_at = now }) else r

  abbrev pub with_csrf : ℕ → Option (List ℕ) → Outcome (Option (ℕ × List ℕ))
  with_csrf id none = err internal
  with_csrf id (some csrf) = ok (some (id, csrf))

  -- The row as it was read, before the refresh.
  unfoldable pub admitted : ℕ → Option Session → Outcome (Option (ℕ × List ℕ))
  unfolding is_live
  admitted now none = ok none
  admitted now (some r) =
      if is_live now r then with_csrf r.user_id (csrf_of r.csrf_token) else ok none

  -- `resolve`: the user and the CSRF token of a live session.
  unfoldable pub resolve : List ℕ → ℕ → Action (Option (ℕ × List ℕ))
  unfolding admitted refreshes
  resolve raw now s = (
    admitted now (first (has_hash (o.sha256_hex raw)) s.sessions),
    update_sessions (seen (o.sha256_hex raw) now) s,
  )

  unfoldable pub revoke : List ℕ → ℕ → Action (Unit {0})
  revoke raw now =
      modify (update_sessions λ r. if has_hash (o.sha256_hex raw) r then revoked_by now r else r)

  unfoldable pub revoke_all_for_user_except : ℕ → List ℕ → ℕ → Action (Unit {0})
  revoke_all_for_user_except user_id keep now = modify (
      update_sessions λ r.
        if r.user_id == user_id && not (has_hash (o.sha256_hex keep) r)
        then revoked_by now r
        else r)

unfoldable pub revoke_all_for_user : ℕ → ℕ → Action (Unit {0})
revoke_all_for_user user_id now =
    modify (update_sessions λ r. if r.user_id == user_id then revoked_by now r else r)
