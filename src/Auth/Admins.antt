-- ===== src/Auth/Admins.antt =====
-- The roles under calls of `grant_role` and `revoke_role` of crates/application/src/auth.rs.
use bikenest.Base.{
  ℕ, ◌+◌, ◌≤◌, ◌≡◌, refl, ap, ◌∙◌, Bool, true, false, not, ◌&&◌, List, [], ◌∷◌, ◌++◌, inl, inr,
  arith, leb, Bool-cases, filter, any,
}
use bikenest.Auth.{Role, user, moderator, admin, User, Grant, Store, unauthorized}
use bikenest.Auth.Monad.{Keeps, >>=-Keeps, guard-Keeps, raise_if, ◌>>◌}
use bikenest.Auth.Accounts.{
  same_role, has_role, holds, is_user, count_admins, grant_role_row, revoke_role_guarded,
}
use bikenest.Auth.Roles.{grant_role, granted_by_admin, revoke_role, revoked_by_admin, audit_revoked}
use bikenest.Auth.Service.{audit}

-- The primary key of `user_roles`.
abbrev pub KeyedOnce : List Grant → Type 0
KeyedOnce [] = Unit {0}
KeyedOnce (g ∷ gs) = (any (holds g.user_id g.role) gs ≡ false) × KeyedOnce gs

-- A sequence of calls, each by some actor; what an error leaves is gone on with.
pub data RoleCall : Type 0 where
  grants_role revokes_role : User → ℕ → Role → RoleCall

unfoldable pub call_role : RoleCall → Store → Store
unfolding grant_role revoke_role
call_role (grants_role actor target role) s = (grant_role actor target role s).1
call_role (revokes_role actor target role) s = (revoke_role actor target role s).1

unfoldable pub call_roles : List RoleCall → Store → Store
unfolding call_role
call_roles [] s = s
call_roles (c ∷ cs) s = call_roles cs (call_role c s)

holds-filter :
    (id : ℕ) (r : Role) (p : Grant → Bool) (gs : List Grant)
    → any (holds id r) gs ≡ false
    → any (holds id r) (filter p gs) ≡ false
holds-filter id r p [] h = refl
holds-filter id r p (g ∷ gs) h = ground (arith, holds-filter id r p gs)

KeyedOnce-filter : (p : Grant → Bool) (gs : List Grant) → KeyedOnce gs → KeyedOnce (filter p gs)
KeyedOnce-filter p [] k = tt
KeyedOnce-filter p (g ∷ gs) k = elim (Bool-cases (p g)) [
  | inl e ↦ rw e (holds-filter g.user_id g.role p gs k.0, KeyedOnce-filter p gs k.1)
  | inr e ↦ rw e (KeyedOnce-filter p gs k.1)
]

same_role_sym : (r q : Role) → same_role r q ≡ same_role q r
same_role_sym user user = refl
same_role_sym user moderator = refl
same_role_sym user admin = refl
same_role_sym moderator user = refl
same_role_sym moderator moderator = refl
same_role_sym moderator admin = refl
same_role_sym admin user = refl
same_role_sym admin moderator = refl
same_role_sym admin admin = refl

same_role_eq : (r q : Role) → same_role r q ≡ true → r ≡ q
same_role_eq user user h = refl
same_role_eq user moderator h = absurd (ground arith)
same_role_eq user admin h = absurd (ground arith)
same_role_eq moderator user h = absurd (ground arith)
same_role_eq moderator moderator h = refl
same_role_eq moderator admin h = absurd (ground arith)
same_role_eq admin user h = absurd (ground arith)
same_role_eq admin moderator h = absurd (ground arith)
same_role_eq admin admin h = refl

holds_append :
    (id : ℕ) (r : Role) (gs : List Grant) (g : Grant)
    → any (holds id r) gs ≡ false
    → holds id r g ≡ false
    → any (holds id r) (gs ++ g ∷ []) ≡ false
holds_append id r [] g h n = rw n refl
holds_append id r (x ∷ gs) g h n = ground (arith, holds_append id r gs g)

KeyedOnce-append :
    (gs : List Grant) (g : Grant)
    → any (holds g.user_id g.role) gs ≡ false
    → KeyedOnce gs
    → KeyedOnce (gs ++ g ∷ [])
KeyedOnce-append [] g h k = (refl, tt)
KeyedOnce-append (x ∷ gs) g h k = (
  holds_append x.user_id x.role gs g k.0 (ground (arith, same_role_sym x.role g.role)),
  KeyedOnce-append gs g (ground arith) k.1,
)

-- A revoke takes one admin row at most, and none of an id that has none.
count_admins-filter_none :
    (id : ℕ) (gs : List Grant)
    → any (holds id admin) gs ≡ false
    → count_admins (filter (λ g. not (holds id admin g)) gs) ≡ count_admins gs
unfolding count_admins
count_admins-filter_none id [] h = refl
count_admins-filter_none id (g ∷ gs) h = ground (arith, count_admins-filter_none id gs)

same_key :
    (id : ℕ) (g : Grant) (gs : List Grant)
    → holds id admin g ≡ true
    → any (holds g.user_id g.role) gs ≡ false
    → any (holds id admin) gs ≡ false
same_key id g [] h k = refl
same_key id g (x ∷ gs) h k = ground (arith, same_key id g gs, same_role_eq g.role admin)

count_admins-filter :
    (id : ℕ) (gs : List Grant)
    → KeyedOnce gs
    → count_admins gs ≤ count_admins (filter (λ g. not (holds id admin g)) gs) + 1
unfolding count_admins
count_admins-filter id [] k = omega arith
count_admins-filter id (g ∷ gs) k = elim (Bool-cases (holds id admin g)) [
  | inl e ↦ rw e (ground (arith, count_admins-filter_none id gs (same_key id g gs e k.0)))
  | inr e ↦ rw e (ground (arith, count_admins-filter id gs))
]

not_admin :
    (q r : Role) → same_role q r ≡ true → same_role r admin ≡ false → same_role q admin ≡ false
not_admin q r e h = ap (λ x. same_role x admin) (same_role_eq q r e) ∙ h

-- A revoke of another role takes none.
count_admins-filter_other :
    (id : ℕ) (r : Role) (gs : List Grant)
    → same_role r admin ≡ false
    → count_admins (filter (λ g. not (holds id r g)) gs) ≡ count_admins gs
unfolding count_admins
count_admins-filter_other id r [] h = refl
count_admins-filter_other id r (g ∷ gs) h = elim (Bool-cases (holds id r g)) [
  | inl e ↦ rw e (
      ground (arith, not_admin g.role r (ground (arith, e)) h, count_admins-filter_other id r gs h))
  | inr e ↦ rw e (ground (arith, count_admins-filter_other id r gs h))
]

-- What a call on the roles keeps.
pub record HasAdmin (gs : List Grant) : Type 0 where
  pub keyed : KeyedOnce gs
  pub admins : 1 ≤ count_admins gs

count_admins-append : (gs : List Grant) (g : Grant) → count_admins gs ≤ count_admins (gs ++ g ∷ [])
unfolding count_admins
count_admins-append [] g = omega arith
count_admins-append (x ∷ gs) g = ground (arith, count_admins-append gs g)

two_admins :
    (id : ℕ) (r : Role) (gs : List Grant)
    → (same_role r admin && leb (count_admins gs) 1 && any (holds id admin) gs) ≡ false
    → same_role r admin ≡ true
    → any (holds id admin) gs ≡ true
    → 2 ≤ count_admins gs
two_admins id r gs e q y = ground arith

-- A guarded revoke leaves an admin: of another role it takes none, of nobody none, and else there are
-- two.
revoked_admins :
    (id : ℕ) (r : Role) (gs : List Grant)
    → (same_role r admin && leb (count_admins gs) 1 && any (holds id admin) gs) ≡ false
    → HasAdmin gs
    → 1 ≤ count_admins (filter (λ g. not (holds id r g)) gs)
revoked_admins id r gs e h = elim (Bool-cases (same_role r admin)) [
  | inr q ↦ omega (arith, h.admins, count_admins-filter_other id r gs q)
  | inl q ↦ rw (same_role_eq r admin q) (elim (Bool-cases (any (holds id admin) gs)) [
    | inr n ↦ omega (arith, h.admins, count_admins-filter_none id gs n)
    | inl y ↦ omega (arith, two_admins id r gs e q y, count_admins-filter id gs h.keyed)
  ])
]

revoked-HasAdmin :
    (id : ℕ) (r : Role) (gs : List Grant)
    → (same_role r admin && leb (count_admins gs) 1 && any (holds id admin) gs) ≡ false
    → HasAdmin gs
    → HasAdmin (filter (λ g. not (holds id r g)) gs)
revoked-HasAdmin id r gs e h = record {
  keyed = KeyedOnce-filter (λ g. not (holds id r g)) gs h.keyed;
  admins = revoked_admins id r gs e h;
}

revoke_role_guarded-HasAdmin :
    (id : ℕ) (r : Role) (s : Store)
    → HasAdmin s.grants
    → HasAdmin (revoke_role_guarded id r s).1.grants
unfolding revoke_role_guarded
revoke_role_guarded-HasAdmin id r s h =
    elim (Bool-cases
      (same_role r admin && leb (count_admins s.grants) 1 && any (holds id admin) s.grants)) [
        | inl e ↦ rw e h
        | inr e ↦ rw e (revoked-HasAdmin id r s.grants e h)
      ]

granted-HasAdmin :
    (gs : List Grant) (g : Grant)
    → any (holds g.user_id g.role) gs ≡ false
    → HasAdmin gs
    → HasAdmin (gs ++ g ∷ [])
granted-HasAdmin gs g e h = record {
  keyed = KeyedOnce-append gs g e h.keyed;
  admins = omega (arith, h.admins, count_admins-append gs g);
}

grant_role_row-HasAdmin :
    (id : ℕ) (r : Role) (by : ℕ) (s : Store)
    → HasAdmin s.grants
    → HasAdmin (grant_role_row id r by s).1.grants
unfolding grant_role_row
grant_role_row-HasAdmin id r by s h = elim (Bool-cases (any (holds id r) s.grants)) [
  | inl e ↦ rw e h
  | inr e ↦ rw e (elim (Bool-cases (any (is_user id) s.accounts && any (is_user by) s.accounts)) [
    | inl q ↦ rw q (granted-HasAdmin s.grants _ e h)
    | inr q ↦ rw q h
  ])
]

abbrev HasAdminIn : Store → Type 0
HasAdminIn s = HasAdmin s.grants

-- The rest of a call writes no role.
audit_revoked-HasAdmin :
    (actor : User) (id : ℕ) (b : Bool) → Keeps HasAdminIn (audit_revoked actor id b)
unfolding audit_revoked audit
audit_revoked-HasAdmin actor id true s h = h
audit_revoked-HasAdmin actor id false s h = h

revoke_role-HasAdmin :
    (actor : User) (id : ℕ) (r : Role) → Keeps HasAdminIn (revoke_role actor id r)
unfolding revoke_role revoked_by_admin
revoke_role-HasAdmin actor id r =
    guard-Keeps HasAdminIn (not (has_role admin actor.roles)) unauthorized
      (raise_if (same_role r user) unauthorized >> revoked_by_admin actor id r)
      (guard-Keeps HasAdminIn (same_role r user) unauthorized (revoked_by_admin actor id r) (
        >>=-Keeps HasAdminIn (revoke_role_guarded id r) (audit_revoked actor id)
          (revoke_role_guarded-HasAdmin id r) (audit_revoked-HasAdmin actor id)))

granted_by_admin-HasAdmin :
    (actor : User) (id : ℕ) (r : Role) → Keeps HasAdminIn (granted_by_admin actor id r)
unfolding granted_by_admin audit
granted_by_admin-HasAdmin actor id r =
    >>=-Keeps HasAdminIn (grant_role_row id r actor.account.id) (λ _. audit _)
      (grant_role_row-HasAdmin id r actor.account.id) (λ _ s h. h)

grant_role-HasAdmin : (actor : User) (id : ℕ) (r : Role) → Keeps HasAdminIn (grant_role actor id r)
unfolding grant_role
grant_role-HasAdmin actor id r =
    guard-Keeps HasAdminIn (not (has_role admin actor.roles)) unauthorized
      (raise_if (same_role r user) unauthorized >> granted_by_admin actor id r)
      (guard-Keeps HasAdminIn (same_role r user) unauthorized (granted_by_admin actor id r)
        (granted_by_admin-HasAdmin actor id r))

-- From a table of roles with an admin, any sequence of grants and revokes, by any actors and on any
-- users, leaves a table with an admin, in which no user holds a role twice.
pub call_roles-HasAdmin :
    (cs : List RoleCall) (s : Store) → HasAdmin s.grants → HasAdmin (call_roles cs s).grants
unfolding call_roles call_role
call_roles-HasAdmin [] s h = h
call_roles-HasAdmin (grants_role actor id r ∷ cs) s h =
    call_roles-HasAdmin cs _ (grant_role-HasAdmin actor id r s h)
call_roles-HasAdmin (revokes_role actor id r ∷ cs) s h =
    call_roles-HasAdmin cs _ (revoke_role-HasAdmin actor id r s h)
