-- ===== src/Auth/Access.antt =====
-- Who is let in by a session: `resolve_session` of crates/application/src/auth.rs.
use bikenest.Base.{
  ℕ, ◌≡◌, refl, sym, ap, ◌∙◌, true, List, Option, none, some, inl, inr, arith, if◌then◌else◌,
  Bool-cases, first,
}
use mathlib.Core.Option
use mathlib.Core.Option.{some_inj}
use bikenest.Base.Text.{Text}
use bikenest.Auth.{Account, User, Grant, Session, Store, Outside}
use bikenest.Auth.Monad.{ok, pure, ok_inj, >>=-ok}
use bikenest.Auth.Accounts.{
  can_access_account, parse_email, with_roles, load_user, load_result, loaded, find_by_id, is_user,
}
use bikenest.Auth.Sessions.{has_hash, is_live, csrf_of, with_csrf, admitted, resolve}
use bikenest.Auth.SignIn.{principal, resolve_user, resolve_session}

module _ (o : Outside) where
  -- What stands behind a session that is let in.
  pub record Found (now : ℕ) (raw : List ℕ) (s : Store) (id : ℕ) : Type 0 where
    pub row : Session
    pub found : first (has_hash (o.sha256_hex raw)) s.sessions ≡ some row
    pub live : is_live now row ≡ true
    pub account : Account
    pub known : first (is_user row.user_id) s.accounts ≡ some account
    pub named : account.id ≡ id
    pub open_to : can_access_account account.account_state ≡ true

  with_csrf-some :
      (user_id : ℕ) (c : Option (List ℕ)) (id : ℕ) (csrf : List ℕ)
      → with_csrf o user_id c ≡ ok (some (id, csrf))
      → user_id ≡ id
  with_csrf-some user_id none id csrf h = absurd (ground arith)
  with_csrf-some user_id (some c) id csrf h = ground arith

  admitted-some :
      (now : ℕ) (r : Option Session) (id : ℕ) (csrf : List ℕ)
      → admitted o now r ≡ ok (some (id, csrf))
      → (row : Session) × (r ≡ some row) × (is_live now row ≡ true) × (row.user_id ≡ id)
  unfolding admitted
  admitted-some now none id csrf h = absurd (ground arith)
  admitted-some now (some r) id csrf h = elim (Bool-cases (is_live now r)) [
    | inl e ↦ (
      r,
      refl,
      e,
      with_csrf-some r.user_id (csrf_of o r.csrf_token) id csrf (
          sym (ap (λ b. if b then with_csrf o r.user_id (csrf_of o r.csrf_token) else ok none) e)
          ∙ h),
    )
    | inr e ↦ absurd (ground (arith, e, h))
  ]

  load_user_keeps :
      (gs : List Grant) (a : Account) (u : User) (e : Option Text)
      → Option.map (with_roles o gs a) e ≡ some u
      → (u.account.id ≡ a.id) × (u.account.account_state ≡ a.account_state)
  unfolding with_roles
  load_user_keeps gs a u none h = absurd (ground arith)
  load_user_keeps gs a u (some e) h =
      let q = some_inj.0 h in
      (sym (ap (λ (v : User). v.account.id) q), sym (ap (λ (v : User). v.account.account_state) q))

  load_result-some : (r : Option User) (u : User) → load_result o r ≡ ok (some u) → r ≡ some u
  load_result-some none u h = absurd (ground arith)
  load_result-some (some v) u h = ground arith

  -- The row behind a loaded user.
  abbrev pub Behind : Option Account → User → Type 0
  Behind a u =
      (row : Account) × (a ≡ some row)
      × (u.account.id ≡ row.id)
      × (u.account.account_state ≡ row.account_state)

  loaded-some :
      (a : Option Account) (s : Store) (u : User) → (loaded o a s).0 ≡ ok (some u) → Behind a u
  unfolding loaded load_user
  loaded-some none s u h = absurd (ground arith)
  loaded-some (some a) s u h =
      let (i, q) =
        load_user_keeps s.grants a u (parse_email o a.email)
          (load_result-some (load_user o s.grants a) u h) in
      (a, refl, i, q)

  principal-some :
      (c : List ℕ) (f : Option User) (u : User) (csrf : List ℕ)
      → principal o c f ≡ some (u, csrf)
      → (f ≡ some u) × (can_access_account u.account.account_state ≡ true)
  principal-some c none u csrf h = absurd (ground arith)
  principal-some c (some v) u csrf h =
      elim (Bool-cases (can_access_account v.account.account_state)) [
        | inl e ↦
            let q = some_inj.0 (sym (ap (λ b. if b then some (v, c) else none) e) ∙ h) in
            (
              ap (λ p. some p.0) q,
              sym (ap (λ p. can_access_account p.0.account.account_state) q) ∙ e,
            )
        | inr e ↦ absurd (ground (arith, e, h))
      ]

  resolve_user-some :
      (r : Option (ℕ × List ℕ)) (s : Store) (u : User) (csrf : List ℕ)
      → (resolve_user o r s).0 ≡ ok (some (u, csrf))
      → (id : ℕ) × (c : List ℕ) × (r ≡ some (id, c))
        × Behind (first (is_user id) s.accounts) u
        × (can_access_account u.account.account_state ≡ true)
  unfolding resolve_user find_by_id
  resolve_user-some none s u csrf h = absurd (ground arith)
  resolve_user-some (some (id, c)) s u csrf h =
      let (found, q, p, _) =
        >>=-ok (find_by_id o id) (λ f. pure (principal o c f)) (some (u, csrf)) s h in
      let (known, let_in) = principal-some c found u csrf (ok_inj p) in
      (id, c, refl, loaded-some (first (is_user id) s.accounts) s u (q ∙ ap ok known), let_in)

  -- The row and the account that the guards of `resolve_session` let through.
  pub resolve_session-Found :
      (now : ℕ) (raw : List ℕ) (s : Store) (u : User) (csrf : List ℕ)
      → (resolve_session o now raw s).0 ≡ ok (some (u, csrf))
      → Found now raw s u.account.id
  unfolding resolve_session resolve
  resolve_session-Found now raw s u csrf h =
      let (r, q, p, _) = >>=-ok (resolve o raw now) (resolve_user o) (some (u, csrf)) s h in
      let (id, c, e, b, a) = resolve_user-some r (resolve o raw now s).1 u csrf p in
      let (row, f, l, own) =
        admitted-some now (first (has_hash (o.sha256_hex raw)) s.sessions) id c (q ∙ ap ok e) in
      let (account, known, named, state) = b in
      record {
        row = row;
        found = f;
        live = l;
        account = account;
        known = ap (λ i. first (is_user i) s.accounts) own ∙ known;
        named = sym named;
        open_to = sym (ap can_access_account state) ∙ a;
      }
