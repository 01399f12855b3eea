-- ===== src/Auth/States.antt =====
-- Suspension and the confirmation of an address, in crates/application/src/auth.rs: what each does to
-- the account.
use bikenest.Base.{
  ℕ, ◌≡◌, refl, sym, ap, subst, ◌∙◌, ◌≢◌, Bool, true, false, ◌||◌, List, [], ◌∷◌, map, some, inl,
  inr, arith, ◌==◌, ==_iff, if◌then◌else◌, Bool-cases, first,
}
use mathlib.Core.Option.{some_inj}
use bikenest.Base.Text.{Text, text_eq}
use bikenest.Auth.{Account, active, suspended, admin, User, Store, Outside, invalid_email}
use bikenest.Auth.Monad.{ok, >>=-ok, or_raise-ok, or_raise}
use bikenest.Auth.Accounts.{
  has_role, can_access_account, parse_email, is_user, set_state, confirm_email, email_elsewhere,
  subject_elsewhere,
}
use bikenest.Auth.Sessions.{revoke_all_for_user_except}
use bikenest.Auth.Service.{audit, confirm_or_taken, record_confirmed, confirm_user, verify_user}
use bikenest.Auth.SignIn.{resolve_session}
use bikenest.Auth.Roles.{suspend_user}
use bikenest.Auth.Access.{Found, resolve_session-Found}

abbrev updated : ℕ → (Account → Account) → List Account → List Account
updated id f = map λ a. if a.id == id then f a else a

-- The first row of an id, after an update of it.
first-updated :
    (id : ℕ) (f : Account → Account) (l : List Account) (b : Account)
    → ((a : Account) → (f a).id ≡ a.id)
    → first (is_user id) (updated id f l) ≡ some b
    → (a : Account) × (b ≡ f a)
first-updated id f [] b same h = absurd (ground arith)
first-updated id f (a ∷ l) b same h = elim (Bool-cases (a.id == id)) [
  | inl e ↦ (a, sym (some_inj.0 (rw (e, same a, e) refl ∙ h)))
  | inr e ↦ first-updated id f l b same (rw (e, e) refl ∙ h)
]

suspend_user-has_role :
    (o : Outside) (now : ℕ) (actor : User) (target : ℕ) (s : Store)
    → (suspend_user o now actor target s).0 ≡ ok tt
    → has_role admin actor.roles ≡ true
unfolding suspend_user
suspend_user-has_role o now actor target s h = elim (Bool-cases (has_role admin actor.roles)) [
  | inl e ↦ e
  | inr e ↦ absurd (ground (arith, e, h))
]

suspend_user-accounts :
    (o : Outside) (now : ℕ) (actor : User) (target : ℕ) (s : Store)
    → has_role admin actor.roles ≡ true
    → (suspend_user o now actor target s).1.accounts
      ≡ updated target (λ a. record a { account_state = suspended }) s.accounts
unfolding suspend_user set_state revoke_all_for_user_except audit
suspend_user-accounts o now actor target s h = rw h refl

first_id_step : (x a : Account) → some x ≡ some a → a.id ≡ x.id
first_id_step x a h = sym (ap (λ (y : Account). y.id) (some_inj.0 h))

first_id : (id : ℕ) (l : List Account) (a : Account) → first (is_user id) l ≡ some a → a.id ≡ id
first_id id [] a h = absurd (ground arith)
first_id id (x ∷ l) a h = elim (Bool-cases (x.id == id)) [
  | inl e ↦ first_id_step x a (rw e refl ∙ h) ∙ (==_iff x.id id).0 e
  | inr e ↦ first_id id l a (rw e refl ∙ h)
]

shut_out :
    (o : Outside) (later : ℕ) (raw : List ℕ) (s t : Store) (id : ℕ)
    → t.accounts ≡ updated id (λ a. record a { account_state = suspended }) s.accounts
    → Found o later raw t id
    → ⊥
shut_out o later raw s t id e l =
    let same = sym l.named ∙ first_id l.row.user_id t.accounts l.account l.known in
    let known =
      ap (first (is_user id)) (sym e) ∙ (ap (λ i. first (is_user i) t.accounts) same ∙ l.known) in
    let (a, q) =
      first-updated id (λ a. record a { account_state = suspended }) s.accounts l.account
        (λ a. refl) known in
    ground (arith, l.open_to, ap (λ (b : Account). can_access_account b.account_state) q)

-- After a suspension that went well, no session of the account is let in, at any later request,
-- whichever cookie it carries.
pub suspend_user-shuts_out :
    (o : Outside) (now later : ℕ) (actor u : User) (target : ℕ) (raw csrf : List ℕ) (s : Store)
    → (suspend_user o now actor target s).0 ≡ ok tt
    → (resolve_session o later raw (suspend_user o now actor target s).1).0 ≡ ok (some (u, csrf))
    → u.account.id ≢ target
suspend_user-shuts_out o now later actor u target raw csrf s h k e =
    shut_out o later raw s (suspend_user o now actor target s).1 target
      (suspend_user-accounts o now actor target s (suspend_user-has_role o now actor target s h))
      (subst (Found o later raw (suspend_user o now actor target s).1) e
        (resolve_session-Found o later raw (suspend_user o now actor target s).1 u csrf k))

-- What `confirm_email` makes of a row.
abbrev confirm : ℕ → Text → Account → Account
confirm at_time email a = record a {
  email = email;
  email_verified_at = some at_time;
  account_state = active;
}

first_head :
    (id : ℕ) (l : List Account) (a b : Account)
    → (a.id == id) ≡ true
    → first (is_user id) (a ∷ l) ≡ some b
    → some a ≡ some b
first_head id l a b e h = rw e refl ∙ h

first_tail :
    (id : ℕ) (l : List Account) (a b : Account)
    → (a.id == id) ≡ false
    → first (is_user id) (a ∷ l) ≡ some b
    → first (is_user id) l ≡ some b
first_tail id l a b e h = rw e refl ∙ h

updated_head :
    (id : ℕ) (f : Account → Account) (l : List Account) (a : Account)
    → ((a : Account) → (f a).id ≡ a.id)
    → (a.id == id) ≡ true
    → some (f a) ≡ first (is_user id) (updated id f (a ∷ l))
updated_head id f l a same e = rw (e, same a, e) refl

first_exists :
    (id : ℕ) (f : Account → Account) (l : List Account) (b : Account)
    → ((a : Account) → (f a).id ≡ a.id)
    → first (is_user id) l ≡ some b
    → first (is_user id) (updated id f l) ≡ some (f b)
first_exists id f [] b same h = absurd (ground arith)
first_exists id f (a ∷ l) b same h = elim (Bool-cases (a.id == id)) [
  | inl e ↦
      sym (updated_head id f l a same e)
      ∙ ap (λ x. some (f x)) (some_inj.0 (first_head id l a b e h))
  | inr e ↦ rw (e, e) (first_exists id f l b same (first_tail id l a b e h))
]

confirm_or_taken-ok :
    (o : Outside) (id now : ℕ) (email : Text) (s : Store)
    → (confirm_or_taken o id now email s).0 ≡ ok tt
    → (confirm_or_taken o id now email s).1.accounts ≡ updated id (confirm now email) s.accounts
unfolding confirm_or_taken confirm_email
confirm_or_taken-ok o id now email s h =
    elim (Bool-cases (email_elsewhere o id email s || subject_elsewhere o id email s)) [
      | inl e ↦ absurd (ground (arith, e, h))
      | inr e ↦ rw e refl
    ]

record_confirmed-accounts :
    (o : Outside) (now id : ℕ) (own : Bool) (s : Store)
    → (record_confirmed o now id own s).1.accounts ≡ s.accounts
unfolding record_confirmed revoke_all_for_user_except audit
record_confirmed-accounts o now id true s = refl
record_confirmed-accounts o now id false s = refl

verify_user-accounts :
    (o : Outside) (now id : ℕ) (email : Text) (u : User) (s : Store)
    → (verify_user o now id email u s).0 ≡ ok tt
    → (e : Text) × (parse_email o email ≡ some e)
      × ((verify_user o now id email u s).1.accounts ≡ updated id (confirm now e) s.accounts)
unfolding verify_user confirm_user
verify_user-accounts o now id email u s h =
    let own = text_eq u.account.email email in
    let (e, p, q, t) =
      >>=-ok (or_raise (parse_email o email) invalid_email) (confirm_user o now id own) tt s h in
    let (same, kept) = or_raise-ok (parse_email o email) invalid_email s e p in
    let (x, c, r, t') =
      >>=-ok (confirm_or_taken o id now e) (λ _. record_confirmed o now id own) tt _ q in
    (
      e,
      same,
      ap (λ (w : Store). w.accounts) (t ∙ t')
          ∙ (record_confirmed-accounts o now id own _
              ∙ (confirm_or_taken-ok o id now e _ c
                  ∙ ap (λ (w : Store). updated id (confirm now e) w.accounts) kept)),
    )

-- The address that a token confirms becomes the account's, and the account active, whatever its state
-- was: a suspended or deleted one too.
pub verify_user-active :
    (o : Outside) (now id : ℕ) (email : Text) (u : User) (b : Account) (s : Store)
    → first (is_user id) s.accounts ≡ some b
    → (verify_user o now id email u s).0 ≡ ok tt
    → (a : Account) × (first (is_user id) (verify_user o now id email u s).1.accounts ≡ some a)
      × (a.account_state ≡ active)
      × (a.email_verified_at ≡ some now)
      × (parse_email o email ≡ some a.email)
verify_user-active o now id email u b s known h =
    let (e, p, q) = verify_user-accounts o now id email u s h in
    (
      confirm now e b,
      ap (first (is_user id)) q ∙ first_exists id (confirm now e) s.accounts b (λ a. refl) known,
      refl,
      refl,
      p,
    )
