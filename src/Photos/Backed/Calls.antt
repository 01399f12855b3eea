-- ===== src/Photos/Backed/Calls.antt =====
-- `upload_photo`, `approve_photo` and `reject_photo` of crates/application/src/photo.rs, whatever the
-- storage and the database do.
use bikenest.Base.{
  ◌≡◌, refl, sym, subst, ℕ, Bool, true, false, List, ◌∷◌, Option, none, some, any, first, arith,
  Bool-cases, Option-cases, inl, inr,
}
use bikenest.Base.Action.{ok, Keeps}
use bikenest.Base.Text.{Text, text_eq, text_eq→eq, text_eq_refl}
use bikenest.Base.Table.{update}
use bikenest.Auth.{User}
use bikenest.Parking.{PhotoKind, of_parking, of_review}
use bikenest.Photos.{Photo, Store, NewPendingPhoto, Put, written, refused, written_unsaid}
use bikenest.Photos.Repository.{
  pending_photo, rejected, without, put, drop, drop_thumbnail, insert_pending, new_photo,
  approve_row, reject_row, count_up, next_id, approve, reject, max_position,
}
use bikenest.Photos.Service.{store_upload, remove_objects, reject_pending, approve_pending, audit}
use bikenest.Photos.Backed.{is_thumbnail, uses, holds, backed, unsaid, Rows, Backed}
use bikenest.Photos.Backed.Rows.{
  Rows-more, Rows-without, Rows-approved, Rows-rejected, rejected-unheld, any-holds-false,
  Rows-insert,
}

count_up-objects : (k : PhotoKind) (s : Store) → (count_up k s).objects ≡ s.objects
count_up-objects of_parking s = refl
count_up-objects of_review s = refl

new_photo-backed :
    (new : NewPendingPhoto) (id : ℕ) (os : List Text)
    → backed (new.thumbnail_key ∷ new.storage_key ∷ os) (new_photo new id) ≡ true
unfolding new_photo
new_photo-backed new id os =
    ground (arith, text_eq_refl new.storage_key, text_eq_refl new.thumbnail_key)

new_photo-uses :
    (new : NewPendingPhoto) (id : ℕ) (ps : List Photo)
    → any (uses new.storage_key) ps ≡ false
    → any (uses new.thumbnail_key) ps ≡ false
    → (key : Text) → uses key (new_photo new id) ≡ true
    → any (uses key) ps ≡ false
unfolding new_photo
new_photo-uses new id ps a b key h = elim (Bool-cases (text_eq key new.storage_key)) [
  | inl e ↦ subst (λ x. any (uses x) ps ≡ false) (sym (text_eq→eq key new.storage_key e)) a
  | inr e ↦
      subst (λ x. any (uses x) ps ≡ false)
        (sym (text_eq→eq key new.thumbnail_key (ground (arith, e, h)))) b
]

-- Under keys that no row uses, an upload leaves every row with its objects, wherever it fails.
pub store_upload-Backed :
    (new : NewPendingPhoto) (p q row : Put) (d e : Bool) (s : Store)
    → unsaid row ≡ false
    → any (uses new.storage_key) s.photos ≡ false
    → any (uses new.thumbnail_key) s.photos ≡ false
    → Backed s
    → Backed (store_upload new p q row d e s).1
unfolding Backed store_upload put drop insert_pending
store_upload-Backed new refused q row d e s k a b r = r
store_upload-Backed new written_unsaid q row d e s k a b r =
    Rows-more new.storage_key s.objects s.photos r
store_upload-Backed new written refused row false e s k a b r =
    Rows-more new.storage_key s.objects s.photos r
store_upload-Backed new written refused row true e s k a b r =
    Rows-without new.storage_key (new.storage_key ∷ s.objects) s.photos
      (any-holds-false new.storage_key s.photos a) (Rows-more new.storage_key s.objects s.photos r)
store_upload-Backed new written written_unsaid row false e s k a b r =
    Rows-more new.thumbnail_key (new.storage_key ∷ s.objects) s.photos
      (Rows-more new.storage_key s.objects s.photos r)
store_upload-Backed new written written_unsaid row true e s k a b r =
    Rows-without new.storage_key (new.thumbnail_key ∷ new.storage_key ∷ s.objects) s.photos
      (any-holds-false new.storage_key s.photos a)
      (Rows-more new.thumbnail_key (new.storage_key ∷ s.objects) s.photos
        (Rows-more new.storage_key s.objects s.photos r))
store_upload-Backed new written written refused d e s k a b r = failed d e
  where
    both : Rows (new.thumbnail_key ∷ new.storage_key ∷ s.objects) s.photos
    both =
        Rows-more new.thumbnail_key (new.storage_key ∷ s.objects) s.photos
          (Rows-more new.storage_key s.objects s.photos r)

    failed : (d e : Bool) → Backed (store_upload new written written refused d e s).1
    failed false false = both
    failed true false =
        Rows-without new.storage_key (new.thumbnail_key ∷ new.storage_key ∷ s.objects) s.photos
          (any-holds-false new.storage_key s.photos a) both
    failed false true =
        Rows-without new.thumbnail_key (new.thumbnail_key ∷ new.storage_key ∷ s.objects) s.photos
          (any-holds-false new.thumbnail_key s.photos b) both
    failed true true =
        Rows-without new.storage_key
          (without new.thumbnail_key (new.thumbnail_key ∷ new.storage_key ∷ s.objects)) s.photos
          (any-holds-false new.storage_key s.photos a)
          (Rows-without new.thumbnail_key (new.thumbnail_key ∷ new.storage_key ∷ s.objects) s.photos
            (any-holds-false new.thumbnail_key s.photos b) both)
store_upload-Backed new written written written d e s k a b r =
    let t = record s { objects = new.thumbnail_key ∷ new.storage_key ∷ s.objects } in
    let id = next_id new.target.kind t in
    subst (λ os. Rows os (new_photo new id ∷ s.photos)) (sym (count_up-objects new.target.kind t))
      (Rows-insert t.objects (new_photo new id) s.photos (new_photo-backed new id s.objects)
        (new_photo-uses new id s.photos a b)
        (Rows-more new.thumbnail_key (new.storage_key ∷ s.objects) s.photos
          (Rows-more new.storage_key s.objects s.photos r)))
store_upload-Backed new written written written_unsaid d e s k a b r = absurd (ground (arith, k))

-- What is left of the objects after the two deletes of a rejection.
abbrev pub remaining : Bool → Text → List Text → List Text
remaining false key os = os
remaining true key os = without key os

abbrev pub remaining_thumbnail : Bool → Option Text → List Text → List Text
remaining_thumbnail d none os = os
remaining_thumbnail d (some key) os = remaining d key os

remove_objects-run :
    (d e : Bool) (key : Text) (t : Option Text) (s : Store)
    → remove_objects d e (key, t) s
      ≡ (ok tt, record s { objects = remaining_thumbnail e t (remaining d key s.objects) })
unfolding remove_objects drop drop_thumbnail
remove_objects-run false e key none s = refl
remove_objects-run true e key none s = refl
remove_objects-run false false key (some k) s = refl
remove_objects-run false true key (some k) s = refl
remove_objects-run true false key (some k) s = refl
remove_objects-run true true key (some k) s = refl

remaining-Rows :
    (d : Bool) (key : Text) (os : List Text) (ps : List Photo)
    → any (holds key) ps ≡ false
    → Rows os ps
    → Rows (remaining d key os) ps
remaining-Rows false key os ps h r = r
remaining-Rows true key os ps h r = Rows-without key os ps h r

remaining_thumbnail-Rows :
    (d : Bool) (t : Option Text) (os : List Text) (ps : List Photo)
    → ((key : Text) → is_thumbnail key t ≡ true → any (holds key) ps ≡ false)
    → Rows os ps
    → Rows (remaining_thumbnail d t os) ps
remaining_thumbnail-Rows d none os ps h r = r
remaining_thumbnail-Rows d (some key) os ps h r =
    remaining-Rows d key os ps (h key (text_eq_refl key)) r

module _ (now : ℕ) (u : User) (kind : PhotoKind) (id : ℕ) where
  abbrev rejection : Text → Bool → Bool → Photo → Store → Store
  rejection reason d e p s = record s {
    photos = update (pending_photo kind id) (rejected now u.account.id reason) s.photos;
    objects = remaining_thumbnail e p.thumbnail_key (remaining d p.storage_key s.objects);
  }

  rejection-Backed :
      (reason : Text) (d e : Bool) (s : Store) (p : Photo)
      → first (pending_photo kind id) s.photos ≡ some p
      → Backed s
      → Backed (rejection reason d e p s)
  unfolding Backed
  rejection-Backed reason d e s p f b =
      let ps = update (pending_photo kind id) (rejected now u.account.id reason) s.photos in
      let unheld = λ (k : Text) (h : uses k p ≡ true).
        rejected-unheld kind id now u.account.id k reason s.photos p f h b.1 in
      remaining_thumbnail-Rows e p.thumbnail_key (remaining d p.storage_key s.objects) ps
        (λ k h. unheld k (ground (arith, h)))
        (remaining-Rows d p.storage_key s.objects ps
          (unheld p.storage_key (ground (arith, text_eq_refl p.storage_key)))
          (Rows-rejected kind id now u.account.id s.objects reason s.photos b))

  reject_pending-run :
      (reason : Text) (d e : Bool) (s : Store) (p : Photo)
      → first (pending_photo kind id) s.photos ≡ some p
      → ((reject_pending written now u kind id reason d e s).1.photos
          ≡ (rejection reason d e p s).photos)
        × ((reject_pending written now u kind id reason d e s).1.objects
            ≡ (rejection reason d e p s).objects)
  unfolding reject_pending reject audit
  reject_pending-run reason d e s p f =
      let t = record s {
        photos = update (pending_photo kind id) (rejected now u.account.id reason) s.photos;
      } in
      (
        rw (f, reject_row) (rw (remove_objects-run d e p.storage_key p.thumbnail_key t) refl),
        rw (f, reject_row) (rw (remove_objects-run d e p.storage_key p.thumbnail_key t) refl),
      )

  rejected-Backed : (reason : Text) → Keeps Backed (reject_row now kind id u.account.id reason)
  unfolding Backed reject_row
  rejected-Backed reason s b = elim (Option-cases (first (pending_photo kind id) s.photos)) [
    | inl f ↦ rw (f, reject_row) b
    | inr (p, f) ↦
        rw (f, reject_row) (Rows-rejected kind id now u.account.id s.objects reason s.photos b)
  ]

  -- The rejection of a pending photo, whatever the database answers, with its objects removed or left.
  pub reject_pending-Backed :
      (answer : Put) (reason : Text) (d e : Bool)
      → Keeps Backed (reject_pending answer now u kind id reason d e)
  unfolding Backed reject_pending reject
  reject_pending-Backed refused reason d e s b = b
  reject_pending-Backed written_unsaid reason d e s b = rejected-Backed reason s b
  reject_pending-Backed written reason d e s b =
      elim (Option-cases (first (pending_photo kind id) s.photos)) [
        | inl f ↦ rw (f, reject_row) b
        | inr (p, f) ↦
            let (x, y) = reject_pending-run reason d e s p f in
            subst (λ ps. Rows (reject_pending written now u kind id reason d e s).1.objects ps)
              (sym x)
              (subst (λ os. Rows os (rejection reason d e p s).photos) (sym y)
                (rejection-Backed reason d e s p f b))
      ]

  approved-Backed : (position : ℕ) → Keeps Backed (approve_row now kind id u.account.id position)
  unfolding Backed
  approved-Backed position s b = elim (Bool-cases (any (pending_photo kind id) s.photos)) [
    | inl e ↦ rw e (Rows-approved kind id now u.account.id s.objects position s.photos b)
    | inr e ↦ rw e b
  ]

  pub approve_pending-Backed :
      (answer : Put) (parent : ℕ) → Keeps Backed (approve_pending answer now u kind id parent)
  unfolding Backed approve_pending max_position approve audit
  approve_pending-Backed refused parent s b = b
  approve_pending-Backed written_unsaid parent s b = approved-Backed _ s b
  approve_pending-Backed written parent s b =
      elim (Bool-cases (any (pending_photo kind id) s.photos)) [
        | inl e ↦ rw e (Rows-approved kind id now u.account.id s.objects _ s.photos b)
        | inr e ↦ rw e b
      ]
