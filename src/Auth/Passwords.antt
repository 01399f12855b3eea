-- ===== src/Auth/Passwords.antt =====
-- The sessions after a change of the password, in crates/application/src/auth.rs.
use bikenest.Base.{
  ℕ, ◌≡◌, refl, sym, subst, true, not, ◌&&◌, List, [], ◌∷◌, map, inl, inr, arith, ◌==◌,
  if◌then◌else◌, Bool-cases, Option-cases, is_some, All,
}
use bikenest.Base.Text.{Text}
use bikenest.Auth.{Session, Store, Outside}
use bikenest.Auth.Monad.{ok}
use bikenest.Auth.Accounts.{set_password}
use bikenest.Auth.Sessions.{has_hash, revoked_by, revoke_all_for_user_except}
use bikenest.Auth.Service.{audit, valid_password, replace_password}

revoked_by-revoked : (now : ℕ) (r : Session) → is_some (revoked_by now r).revoked_at ≡ true
revoked_by-revoked now r = elim (Bool-cases (is_some r.revoked_at)) [
  | inl e ↦ rw e e
  | inr e ↦ rw e refl
]

module _ (o : Outside) (now id : ℕ) (keep : List ℕ) where
  -- A session of the user is revoked, unless it is the one that is kept.
  pub SignedOut : Session → Type 0
  SignedOut r =
      (r.user_id == id && not (has_hash (o.sha256_hex keep) r)) ≡ true → is_some r.revoked_at ≡ true

  abbrev out : Session → Session
  out r = if r.user_id == id && not (has_hash (o.sha256_hex keep) r) then revoked_by now r else r

  out-SignedOut : (r : Session) → SignedOut (out r)
  unfolding SignedOut
  out-SignedOut r = elim (Bool-cases (r.user_id == id && not (has_hash (o.sha256_hex keep) r))) [
    | inl e ↦ rw e (λ _. revoked_by-revoked now r)
    | inr e ↦ rw e (λ h. absurd (ground (arith, e, h)))
  ]

  All-out : (l : List Session) → All SignedOut (map out l)
  All-out [] = tt
  All-out (r ∷ l) = (out-SignedOut r, All-out l)

  replace_password-sessions :
      (pw salt : Text) (s : Store)
      → (replace_password o now id pw salt keep s).0 ≡ ok tt
      → (replace_password o now id pw salt keep s).1.sessions ≡ map out s.sessions
  unfolding replace_password set_password revoke_all_for_user_except audit
  replace_password-sessions pw salt s h = elim (Bool-cases (valid_password pw)) [
    | inr e ↦ absurd (ground (arith, e, h))
    | inl e ↦ elim (Option-cases (o.hash_password salt pw)) [
      | inl n ↦ absurd (ground (arith, e, n, h))
      | inr q ↦ rw (e, q.1) refl
    ]
  ]

  -- After a change of the password that went well, by a reset or by its owner, each session of the
  -- account is revoked, but for the one that the call keeps.
  pub replace_password-SignedOut :
      (pw salt : Text) (s : Store)
      → (replace_password o now id pw salt keep s).0 ≡ ok tt
      → All SignedOut (replace_password o now id pw salt keep s).1.sessions
  replace_password-SignedOut pw salt s h =
      subst (All SignedOut) (sym (replace_password-sessions pw salt s h)) (All-out s.sessions)
