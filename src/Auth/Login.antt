-- ===== src/Auth/Login.antt =====
-- The outcomes of a login, in crates/application/src/auth.rs.
use bikenest.Base.{
  ℕ, ◌≡◌, refl, true, false, List, Option, none, some, ◌⊎◌, inl, inr, Bool-cases, Option-cases,
  first, any,
}
use bikenest.Base.Text.{Text}
use bikenest.Auth.{internal, conflict, Identity, User, Store, Outside}
use bikenest.Auth.Monad.{Outcome, ok, err, ◌>>=◌}
use bikenest.Auth.Accounts.{can_log_in, find_by_id, is_user, load_user, loaded}
use bikenest.Auth.Sessions.{has_hash, create_session}
use bikenest.Auth.Service.{audit}
use bikenest.Auth.SignIn.{
  LoginOutcome, refuse_login, open_session, login_user, login_hash, login_identity,
}

module _ (o : Outside) (now : ℕ) (email pw : Text) (session csrf : List ℕ) where
  -- How a login ends once the limits let it in: with a session, with a failure inside, or as any
  -- other refusal does, in the same answer and with the same record.
  pub Ends : (Outcome LoginOutcome × Store) → Store → Type 0
  Ends r s =
      ((out : LoginOutcome) × (r.0 ≡ ok out))
      ⊎ ((r.0 ≡ err internal) ⊎ ((r.0 ≡ err conflict) ⊎ (r ≡ refuse_login o email s)))

  open_session-Ends : (u : User) (s : Store) → Ends (open_session o now session csrf u s) s
  unfolding Ends open_session create_session audit
  open_session-Ends u s = elim (Bool-cases (any (has_hash (o.sha256_hex session)) s.sessions)) [
    | inl e ↦ rw e (inr (inr (inl refl)))
    | inr e ↦ rw e (inl (_, refl))
  ]

  login_user-Ends : (u : Option User) (s : Store) → Ends (login_user o now email session csrf u s) s
  unfolding Ends login_user
  login_user-Ends none s = inr (inr (inr refl))
  login_user-Ends (some u) s = elim (Bool-cases (can_log_in u.account.account_state)) [
    | inl e ↦ rw e (open_session-Ends u s)
    | inr e ↦ rw e (inr (inr (inr refl)))
  ]

  find_by_id-Ends :
      (id : ℕ) (s : Store) → Ends ((find_by_id o id >>= login_user o now email session csrf) s) s
  unfolding Ends find_by_id loaded
  find_by_id-Ends id s = elim (Option-cases (first (is_user id) s.accounts)) [
    | inl e ↦ rw e (login_user-Ends none s)
    | inr a ↦ rw (a.1) (elim (Option-cases (load_user o s.grants a.0)) [
      | inl n ↦ rw n (inr (inl refl))
      | inr u ↦ rw (u.1) (login_user-Ends (some u.0) s)
    ])
  ]

  login_hash-Ends :
      (id : ℕ) (h : Option Text) (s : Store)
      → Ends (login_hash o now email pw session csrf id h s) s
  unfolding Ends login_hash
  login_hash-Ends id none s = inr (inr (inr refl))
  login_hash-Ends id (some hash) s = elim (Option-cases (o.verify_password pw hash)) [
    | inl n ↦ rw n (inr (inl refl))
    | inr (true, e) ↦ rw e (find_by_id-Ends id s)
    | inr (false, e) ↦ rw e (inr (inr (inr refl)))
  ]

  -- Past the limits, a login gives a session, or fails inside (a row or a hash that does not parse, a
  -- session id drawn twice); any other refusal, for an unknown address, a missing or a wrong password,
  -- a missing, suspended or deleted account, has one answer and leaves one record.
  pub login_identity-Ends :
      (i : Option Identity) (s : Store) → Ends (login_identity o now email pw session csrf i s) s
  unfolding Ends login_identity
  login_identity-Ends none s = inr (inr (inr refl))
  login_identity-Ends (some i) s = login_hash-Ends i.user_id i.credential_hash s
