-- ===== src/Base/Members.antt =====
-- Membership with its place kept, and what map, filter, take and append do to it.
use Prim.Native.Nat.{ℕ, zero, suc}
use mathlib.Core.Path.{◌≡◌, refl, sym, ap, ◌∙◌, subst}
use mathlib.Core.Logic.{inl, inr}
use mathlib.Core.Bool.{Bool, true, false}
use mathlib.Core.List.{List, [], ◌∷◌, ◌++◌, map}
use native.Mathlib.Omega.{arith}
use bikenest.Base.Tests.{if◌then◌else◌, Bool-cases}
use bikenest.Base.Lists.{take, filter, any, All}

pub data In {ℓ} {A : Type ℓ} (a : A) : List A → Type ℓ where
  here : {x : A} {xs : List A} → a ≡ x → In a (x ∷ xs)
  there : {x : A} {xs : List A} → In a xs → In a (x ∷ xs)

module _ {ℓ} {A : Type ℓ} where
  pub In-append_left : {a : A} {xs : List A} (ys : List A) → In a xs → In a (xs ++ ys)
  In-append_left ys (here e) = here e
  In-append_left ys (there i) = there (In-append_left ys i)

  pub In-append_right : {a : A} (xs : List A) {ys : List A} → In a ys → In a (xs ++ ys)
  In-append_right [] i = i
  In-append_right (x ∷ xs) i = there (In-append_right xs i)

  pub not-In-nil : {a : A} → In a [] → ⊥
  not-In-nil i = elim i [ ]

  In-filter_step :
      {a x : A} {xs rest : List A} (p : A → Bool) (b : Bool)
      → p x ≡ b
      → (In a rest → In a xs × (p a ≡ true))
      → In a (if b then x ∷ rest else rest)
      → In a (x ∷ xs) × (p a ≡ true)
  In-filter_step p true e ih (here q) = (here q, ap p q ∙ e)
  In-filter_step p true e ih (there j) = (there (ih j).0, (ih j).1)
  In-filter_step p false e ih j = (there (ih j).0, (ih j).1)

  pub In-filter : {a : A} (p : A → Bool) (xs : List A) → In a (filter p xs) → In a xs × (p a ≡ true)
  In-filter p [] i = absurd (not-In-nil i)
  In-filter p (x ∷ xs) i = In-filter_step p (p x) refl (In-filter p xs) i

  In-filter_of_step :
      {a x : A} {xs rest : List A} (p : A → Bool) (b : Bool)
      → p x ≡ b
      → p a ≡ true
      → (In a xs → In a rest)
      → In a (x ∷ xs)
      → In a (if b then x ∷ rest else rest)
  In-filter_of_step p true e h ih (here q) = here q
  In-filter_of_step p true e h ih (there j) = there (ih j)
  In-filter_of_step p false e h ih (here q) = absurd (ground (arith, ap p q))
  In-filter_of_step p false e h ih (there j) = ih j

  pub In-filter_of :
      {a : A} (p : A → Bool) (xs : List A) → p a ≡ true → In a xs → In a (filter p xs)
  In-filter_of p [] h i = i
  In-filter_of p (x ∷ xs) h i = In-filter_of_step p (p x) refl h (In-filter_of p xs h) i

  pub In-take : {a : A} (n : ℕ) (xs : List A) → In a (take n xs) → In a xs
  In-take zero xs i = absurd (not-In-nil i)
  In-take (suc n) [] i = i
  In-take (suc n) (x ∷ xs) (here e) = here e
  In-take (suc n) (x ∷ xs) (there i) = there (In-take n xs i)

  -- A test that holds somewhere in a list holds at a member.
  pub any-In : (p : A → Bool) (xs : List A) → any p xs ≡ true → (a : A) × In a xs × (p a ≡ true)
  any-In p [] h = absurd (ground arith)
  any-In p (x ∷ xs) h = elim (Bool-cases (p x)) [
    | inl e ↦ (x, here refl, e)
    | inr e ↦ let (a, i, q) = any-In p xs (ground arith) in (a, there i, q)
  ]

  pub In-any : {a : A} (p : A → Bool) (xs : List A) → In a xs → p a ≡ true → any p xs ≡ true
  In-any p [] i h = absurd (not-In-nil i)
  In-any p (x ∷ xs) (here e) h = ground (arith, ap p e)
  In-any p (x ∷ xs) (there i) h = ground (arith, In-any p xs i h)

module _ {ℓ κ} {A : Type ℓ} (P : A → Type κ) where
  pub All-In : {a : A} (xs : List A) → All P xs → In a xs → P a
  All-In [] h i = absurd (not-In-nil i)
  All-In (x ∷ xs) h (here e) = subst P (sym e) h.0
  All-In (x ∷ xs) h (there i) = All-In xs h.1 i

  pub All-of_In : (xs : List A) → ((a : A) → In a xs → P a) → All P xs
  All-of_In [] h = tt
  All-of_In (x ∷ xs) h = (h x (here refl), All-of_In xs (λ a i. h a (there i)))

  pub All-append : (xs ys : List A) → All P xs → All P ys → All P (xs ++ ys)
  All-append [] ys h k = k
  All-append (x ∷ xs) ys h k = (h.0, All-append xs ys h.1 k)

  pub All-filter : (p : A → Bool) (xs : List A) → All P xs → All P (filter p xs)
  All-filter p [] h = tt
  All-filter p (x ∷ xs) h = ground (arith, All-filter p xs h.1)

  pub All-map : (f : A → A) (xs : List A) → ((a : A) → P a → P (f a)) → All P xs → All P (map f xs)
  All-map f [] k h = tt
  All-map f (x ∷ xs) k h = (k x h.0, All-map f xs k h.1)

module _ {ℓ κ} {A : Type ℓ} {B : Type κ} where
  pub In-map : {a : A} (f : A → B) (xs : List A) → In a xs → In (f a) (map f xs)
  In-map f [] i = absurd (not-In-nil i)
  In-map f (x ∷ xs) (here e) = here (ap f e)
  In-map f (x ∷ xs) (there i) = there (In-map f xs i)

  pub In-map_inv :
      {b : B} (f : A → B) (xs : List A) → In b (map f xs) → (a : A) × In a xs × (b ≡ f a)
  In-map_inv f [] i = absurd (not-In-nil i)
  In-map_inv f (x ∷ xs) (here e) = (x, here refl, e)
  In-map_inv f (x ∷ xs) (there i) = let (a, j, e) = In-map_inv f xs i in (a, there j, e)

-- A map that takes one predicate to another on the members of a list.
pub All-map-In {ℓ κ ι} :
    {A : Type ℓ} {B : Type κ} (Q : B → Type ι) (f : A → B) (xs : List A)
    → ((a : A) → In a xs → Q (f a))
    → All Q (map f xs)
All-map-In Q f [] k = tt
All-map-In Q f (x ∷ xs) k = (k x (here refl), All-map-In Q f xs (λ a i. k a (there i)))
