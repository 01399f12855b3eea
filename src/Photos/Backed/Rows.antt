-- ===== src/Photos/Backed/Rows.antt =====
-- The statements of crates/infrastructure/src/photo/repository.rs and the calls of the storage, on rows
-- and the keys of the objects.
use mathlib.Core.Option.{some_inj}
use bikenest.Base.{
  ◌≡◌, refl, sym, ap, ◌∙◌, subst, ℕ, Bool, true, false, not, List, [], ◌∷◌, Option, none, some, any,
  first, arith, Bool-cases, inl, inr,
}
use bikenest.Base.Text.{Text, text_eq, text_eq→eq}
use bikenest.Base.Table.{update, any-update_same, any-imp_false, All-update}
use bikenest.Parking.{
  PhotoKind, PhotoModerationState, photo_pending, photo_approved, photo_rejected, photo_hidden,
}
use bikenest.Moderation.Actions.{same_photo_state}
use bikenest.Photos.{Photo}
use bikenest.Photos.Repository.{pending_photo, approved, rejected, without}
use bikenest.Photos.Backed.{
  live, has, has_thumbnail, is_thumbnail, uses, holds, backed, Apart, Rows,
}

-- An object that is there stays when another is removed.
has-without :
    (k key : Text) (os : List Text)
    → text_eq k key ≡ false
    → has key os ≡ true
    → has key (without k os) ≡ true
has-without k key [] e h = h
has-without k key (o ∷ os) e h = elim (Bool-cases (text_eq key o)) [
  | inl f ↦
      let g : text_eq k o ≡ false = subst (λ x. text_eq k x ≡ false) (text_eq→eq key o f) e in
      rw g (ground (arith, f))
  | inr f ↦ ground (arith, f, h, has-without k key os e)
]

thumbnail-without :
    (k : Text) (t : Option Text) (os : List Text)
    → is_thumbnail k t ≡ false
    → has_thumbnail t os ≡ true
    → has_thumbnail t (without k os) ≡ true
thumbnail-without k none os e h = refl
thumbnail-without k (some key) os e h = has-without k key os e h

thumbnail-more :
    (k : Text) (t : Option Text) (os : List Text)
    → has_thumbnail t os ≡ true
    → has_thumbnail t (k ∷ os) ≡ true
thumbnail-more k none os h = refl
thumbnail-more k (some key) os h = ground (arith, h)

backed-more :
    (k : Text) (os : List Text) (p : Photo) → backed os p ≡ true → backed (k ∷ os) p ≡ true
backed-more k os p h = ground (arith, h, thumbnail-more k p.thumbnail_key os)

backed-without :
    (k : Text) (os : List Text) (p : Photo)
    → holds k p ≡ false
    → backed os p ≡ true
    → backed (without k os) p ≡ true
backed-without k os p e h =
    ground (arith, e, h, has-without k p.storage_key os, thumbnail-without k p.thumbnail_key os)

-- A new object.
pub Rows-more : (k : Text) (os : List Text) (ps : List Photo) → Rows os ps → Rows (k ∷ os) ps
Rows-more k os [] r = r
Rows-more k os (p ∷ ps) (h, a) = ((backed-more k os p h.0, (Rows-more k os ps (h.1, a.1)).0), a)

-- The removal of an object that no row holds.
pub Rows-without :
    (k : Text) (os : List Text) (ps : List Photo)
    → any (holds k) ps ≡ false
    → Rows os ps
    → Rows (without k os) ps
Rows-without k os [] e r = r
Rows-without k os (p ∷ ps) e (h, a) = (
  (
    backed-without k os p (ground (arith, e)) h.0,
    (Rows-without k os ps (ground (arith, e)) (h.1, a.1)).0,
  ),
  a,
)

pub Apart-update :
    (p : Photo → Bool) (f : Photo → Photo) (ps : List Photo)
    → ((key : Text) (a : Photo) → uses key (f a) ≡ uses key a)
    → Apart ps
    → Apart (update p f ps)
Apart-update p f [] k a = tt
Apart-update p f (x ∷ ps) k a = elim (Bool-cases (p x)) [
  | inl e ↦ rw e (
    (λ key h. any-update_same (uses key) p f ps (k key) ∙ a.0 key (sym (k key x) ∙ h)),
    Apart-update p f ps k a.1,
  )
  | inr e ↦
      rw e (
        (λ key h. any-update_same (uses key) p f ps (k key) ∙ a.0 key h),
        Apart-update p f ps k a.1,
      )
]

-- A row that the first test finds uses a key: no other row does.
first-uses :
    (p : Photo → Bool) (k : Text) (ps : List Photo) (r : Photo)
    → first p ps ≡ some r
    → uses k r ≡ true
    → any (uses k) ps ≡ true
first-uses p k [] r e h = absurd (ground (arith, e))
first-uses p k (x ∷ ps) r e h = elim (Bool-cases (p x)) [
  | inl f ↦ let g : x ≡ r = some_inj.0 (sym (rw f refl) ∙ e) in ground (arith, ap (uses k) g, h)
  | inr f ↦ ground (arith, f, e, first-uses p k ps r)
]

-- Nothing holds a key that no row uses.
pub any-holds-false :
    (k : Text) (ps : List Photo) → any (uses k) ps ≡ false → any (holds k) ps ≡ false
any-holds-false k ps = any-imp_false (holds k) (uses k) ps (λ p h. ground (arith, h))

module _ (kind : PhotoKind) (id now moderator : ℕ) where
  approved-backed :
      (os : List Text) (position : ℕ) (p : Photo)
      → pending_photo kind id p ≡ true
      → backed os p ≡ true
      → backed os (approved now moderator position p) ≡ true
  approved-backed os position p e h = elim (Bool-cases (live p)) [
    | inl f ↦ ground (arith, f, h)
    | inr f ↦ absurd (dead p e f)
  ]
    where
      dead : (p : Photo) → pending_photo kind id p ≡ true → live p ≡ false → ⊥
      dead p e f = pending_live p.moderation_state (ground (arith, e)) f
        where
          pending_live :
              (st : PhotoModerationState)
              → same_photo_state st photo_pending ≡ true
              → not (same_photo_state st photo_rejected) ≡ false
              → ⊥
          pending_live photo_pending e f = absurd (ground (arith, f))
          pending_live photo_approved e f = absurd (ground (arith, e))
          pending_live photo_rejected e f = absurd (ground (arith, e))
          pending_live photo_hidden e f = absurd (ground (arith, e))

  pub Rows-approved :
      (os : List Text) (position : ℕ) (ps : List Photo)
      → Rows os ps
      → Rows os (update (pending_photo kind id) (approved now moderator position) ps)
  Rows-approved os position ps r = (
    All-update (λ p. backed os p ≡ true) (pending_photo kind id) (approved now moderator position)
        ps (λ p e h. approved-backed os position p e h) r.0,
    Apart-update (pending_photo kind id) (approved now moderator position) ps (λ key p. refl) r.1,
  )

  pub Rows-rejected :
      (os : List Text) (reason : Text) (ps : List Photo)
      → Rows os ps
      → Rows os (update (pending_photo kind id) (rejected now moderator reason) ps)
  Rows-rejected os reason ps r = (
    All-update (λ p. backed os p ≡ true) (pending_photo kind id) (rejected now moderator reason) ps
        (λ p e h. refl) r.0,
    Apart-update (pending_photo kind id) (rejected now moderator reason) ps (λ key p. refl) r.1,
  )

  -- Once a row is rejected, nothing holds its objects.
  pub rejected-unheld :
      (k reason : Text) (ps : List Photo) (r : Photo)
      → first (pending_photo kind id) ps ≡ some r
      → uses k r ≡ true
      → Apart ps
      → any (holds k) (update (pending_photo kind id) (rejected now moderator reason) ps) ≡ false
  rejected-unheld k reason [] r e h a = refl
  rejected-unheld k reason (x ∷ ps) r e h a = elim (Bool-cases (pending_photo kind id x)) [
    | inl f ↦
        let g : x ≡ r = some_inj.0 (sym (rw f refl) ∙ e) in
        rw f (
          any-holds-false k (update (pending_photo kind id) (rejected now moderator reason) ps) (
            any-update_same (uses k) (pending_photo kind id) (rejected now moderator reason) ps
              (λ p. refl)
            ∙ a.0 k (ap (uses k) g ∙ h)))
    | inr f ↦ elim (Bool-cases (uses k x)) [
      | inl g ↦ absurd (
          ground
            (arith, a.0 k g, first-uses (pending_photo kind id) k ps r (sym (rw f refl) ∙ e) h))
      | inr g ↦ rw f (ground (arith, g, rejected-unheld k reason ps r (sym (rw f refl) ∙ e) h a.1))
    ]
  ]

-- A row whose objects are there, under keys that no row uses.
pub Rows-insert :
    (os : List Text) (p : Photo) (ps : List Photo)
    → backed os p ≡ true
    → ((key : Text) → uses key p ≡ true → any (uses key) ps ≡ false)
    → Rows os ps
    → Rows os (p ∷ ps)
Rows-insert os p ps b k r = ((b, r.0), (k, r.1))
