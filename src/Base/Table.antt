-- ===== src/Base/Table.antt =====
-- A table as the list of its rows: `UPDATE … WHERE`, and what it does to the rows.
use mathlib.Core.Path.{◌≡◌, refl, sym, ap, subst, ◌∙◌}
use mathlib.Core.Bool.{Bool, true, false}
use mathlib.Core.Option.{none, some, some_inj}
use mathlib.Core.List.{List, [], ◌∷◌, ◌++◌}
use mathlib.Core.Logic.{inl, inr}
use native.Mathlib.Omega.{arith}
use bikenest.Base.Tests.{if◌then◌else◌, Bool-cases}
use bikenest.Base.Lists.{first, any, All}

module _ {ℓ} {A : Type ℓ} where
  abbrev pub update : (A → Bool) → (A → A) → List A → List A
  update p f [] = []
  update p f (x ∷ xs) = (if p x then f x else x) ∷ update p f xs

  -- `ORDER BY`, by an insertion that keeps the order of equal keys.
  abbrev pub insert_by : (A → A → Bool) → A → List A → List A
  insert_by before x [] = x ∷ []
  insert_by before x (y ∷ ys) =
      let rest = insert_by before x ys in if before y x then y ∷ rest else x ∷ y ∷ ys

  abbrev pub sort_by : (A → A → Bool) → List A → List A
  sort_by before [] = []
  sort_by before (x ∷ xs) = insert_by before x (sort_by before xs)

  -- What every row satisfies, when the update keeps it on the rows that it changes.
  pub All-update {κ} :
      (P : A → Type κ) (p : A → Bool) (f : A → A) (xs : List A)
      → ((a : A) → p a ≡ true → P a → P (f a))
      → All P xs
      → All P (update p f xs)
  All-update P p f [] k h = tt
  All-update P p f (x ∷ xs) k h = elim (Bool-cases (p x)) [
    | inl e ↦ rw e (k x e h.0, All-update P p f xs k h.1)
    | inr e ↦ rw e (h.0, All-update P p f xs k h.1)
  ]

  -- A test that no row passes, and that the update does not make a row pass.
  pub any-update-false :
      (q p : A → Bool) (f : A → A) (xs : List A)
      → ((a : A) → p a ≡ true → q (f a) ≡ true → q a ≡ true)
      → any q xs ≡ false
      → any q (update p f xs) ≡ false
  any-update-false q p f [] k h = refl
  any-update-false q p f (x ∷ xs) k h = ground (arith, k x, any-update-false q p f xs k)

  -- A test on which the update has no effect.
  pub any-update_same :
      (q p : A → Bool) (f : A → A) (xs : List A)
      → ((a : A) → q (f a) ≡ q a)
      → any q (update p f xs) ≡ any q xs
  any-update_same q p f [] k = refl
  any-update_same q p f (x ∷ xs) k = ground (arith, k x, any-update_same q p f xs k)

  pub any-append_true :
      (p : A → Bool) (xs : List A) (a : A) → p a ≡ true → any p (xs ++ a ∷ []) ≡ true
  any-append_true p [] a h = ground (arith, h)
  any-append_true p (x ∷ xs) a h = ground (arith, any-append_true p xs a h)

  pub any-imp_false :
      (q p : A → Bool) (xs : List A)
      → ((a : A) → q a ≡ true → p a ≡ true)
      → any p xs ≡ false
      → any q xs ≡ false
  any-imp_false q p [] k h = refl
  any-imp_false q p (x ∷ xs) k h = ground (arith, k x, any-imp_false q p xs k)

  -- The changed rows are those that passed the test, so that it passes nowhere afterwards.
  pub any-update_all :
      (q p : A → Bool) (f : A → A) (xs : List A)
      → ((a : A) → p a ≡ true → q (f a) ≡ false)
      → ((a : A) → p a ≡ false → q a ≡ false)
      → any q (update p f xs) ≡ false
  any-update_all q p f [] k j = refl
  any-update_all q p f (x ∷ xs) k j = ground (arith, k x, j x, any-update_all q p f xs k j)

  pub any-append_false :
      (p : A → Bool) (xs ys : List A)
      → any p xs ≡ false
      → any p ys ≡ false
      → any p (xs ++ ys) ≡ false
  any-append_false p [] ys h k = k
  any-append_false p (x ∷ xs) ys h k = ground (arith, any-append_false p xs ys)

  -- The row that `first` finds, passes.
  pub first-some : (p : A → Bool) (xs : List A) (a : A) → first p xs ≡ some a → p a ≡ true
  first-some p [] a h = absurd (ground arith)
  first-some p (x ∷ xs) a h = ground (arith, first-some p xs a)

  -- A search that finds nothing, and a test that no row passes.
  pub any-first-some : (p : A → Bool) (xs : List A) (a : A) → first p xs ≡ some a → any p xs ≡ true
  any-first-some p [] a h = absurd (ground (arith, h))
  any-first-some p (x ∷ xs) a h = ground (arith, h, any-first-some p xs a)

  pub any-first-none : (p : A → Bool) (xs : List A) → first p xs ≡ none → any p xs ≡ false
  any-first-none p [] h = refl
  any-first-none p (x ∷ xs) h = ground (arith, h, any-first-none p xs)

  pub first-none : (p : A → Bool) (xs : List A) → any p xs ≡ false → first p xs ≡ none
  first-none p [] h = refl
  first-none p (x ∷ xs) h = ground (arith, h, first-none p xs)

  -- Where some row passes, `first` finds one.
  pub first-any : (p : A → Bool) (xs : List A) → any p xs ≡ true → (a : A) × (first p xs ≡ some a)
  first-any p [] h = absurd (ground arith)
  first-any p (x ∷ xs) h = elim (Bool-cases (p x)) [
    | inl e ↦ (x, rw e refl)
    | inr e ↦ rw e (first-any p xs (ground arith))
  ]

  -- The row that `first` finds, after an update of rows that pass and go on to.
  pub first-update :
      (q p : A → Bool) (f : A → A) (xs : List A) (a : A)
      → ((x : A) → p x ≡ true → q x ≡ true)
      → ((x : A) → p x ≡ true → q (f x) ≡ true)
      → first q xs ≡ some a
      → p a ≡ true
      → first q (update p f xs) ≡ some (f a)
  first-update q p f [] a k j h e = absurd (ground arith)
  first-update q p f (x ∷ xs) a k j h e = elim (Bool-cases (q x)) [
    | inl i ↦
        let r = some_inj.0 (sym (rw i refl) ∙ h) in
        first-here q p f xs x a r (subst (λ y. p y ≡ true) (sym r) e) (j x)
    | inr i ↦ ground (arith, i, k x, h, e, first-update q p f xs a k j)
  ]
    where
      first-here :
          (q p : A → Bool) (f : A → A) (xs : List A) (x a : A)
          → x ≡ a
          → p x ≡ true
          → (p x ≡ true → q (f x) ≡ true)
          → first q (update p f (x ∷ xs)) ≡ some (f a)
      first-here q p f xs x a r e j = rw e (rw (j e) (ap (λ y. some (f y)) r))

  -- A finer test that the row found passes, finds it too.
  pub first-finer :
      (q p : A → Bool) (xs : List A) (a : A)
      → ((x : A) → p x ≡ true → q x ≡ true)
      → first q xs ≡ some a
      → p a ≡ true
      → first p xs ≡ some a
  first-finer q p [] a k h e = absurd (ground arith)
  first-finer q p (x ∷ xs) a k h e = elim (Bool-cases (q x)) [
    | inl i ↦ here_first (some_inj.0 (sym (rw i refl) ∙ h))
    | inr i ↦ ground (arith, i, k x, h, e, first-finer q p xs a k)
  ]
    where
      here_first : x ≡ a → first p (x ∷ xs) ≡ some a
      here_first r = rw (subst (λ y. p y ≡ true) (sym r) e) (ap some r)
