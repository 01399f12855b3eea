-- ===== src/Parking/Versions.antt =====
-- The version of a location under updates of the table.
use mathlib.Core.Option.{some_inj}
use bikenest.Base.{
  ◌≡◌, refl, sym, ap, ◌∙◌, Bool-cases, inl, inr, ℕ, ◌≤◌, Bool, true, false, List, [], ◌∷◌, ◌++◌,
  some, ◌==◌, leb, if◌then◌else◌, arith, first,
}
use bikenest.Base.Table.{update}
use bikenest.Parking.{Location}

-- Whether the location of an id stands at version n at least.
unfoldable pub reaches : ℕ → ℕ → List Location → Bool
reaches id n [] = false
reaches id n (x ∷ xs) = let rest = reaches id n xs in if x.id == id then leb n x.version else rest

-- An update that keeps ids and takes no version back.
pub reaches-update :
    (id n : ℕ) (p : Location → Bool) (f : Location → Location) (ls : List Location)
    → ((l : Location) → (f l).id ≡ l.id)
    → ((l : Location) → l.version ≤ (f l).version)
    → reaches id n ls ≡ true
    → reaches id n (update p f ls) ≡ true
unfolding reaches
reaches-update id n p f [] k j h = h
reaches-update id n p f (x ∷ xs) k j h = ground (arith, h, k x, j x, reaches-update id n p f xs k j)

pub reaches-append :
    (id n : ℕ) (ls ms : List Location) → reaches id n ls ≡ true → reaches id n (ls ++ ms) ≡ true
unfolding reaches
reaches-append id n [] ms h = absurd (ground (arith, h))
reaches-append id n (x ∷ xs) ms h = ground (arith, h, reaches-append id n xs ms)

head-same :
    (id : ℕ) (x : Location) (xs : List Location) (l : Location)
    → first (λ l. l.id == id) (x ∷ xs) ≡ some l
    → (x.id == id) ≡ true
    → x ≡ l
head-same id x xs l e h = some_inj.0 (sym (rw h refl) ∙ e)

head-found :
    (id : ℕ) (x : Location) (xs : List Location) (l : Location)
    → first (λ l. l.id == id) (x ∷ xs) ≡ some l
    → (x.id == id) ≡ true
    → x.version ≡ l.version
head-found id x xs l e h = ap (λ (m : Location). m.version) (head-same id x xs l e h)

-- What `first` finds, stands where the location reaches.
pub reaches-first :
    (id n : ℕ) (ls : List Location) (l : Location)
    → first (λ l. l.id == id) ls ≡ some l
    → reaches id n ls ≡ true
    → n ≤ l.version
unfolding reaches
reaches-first id n [] l e h = absurd (ground arith)
reaches-first id n (x ∷ xs) l e h = elim (Bool-cases (x.id == id)) [
  | inl c ↦ ground (arith, c, h, head-found id x xs l e c)
  | inr c ↦ reaches-first id n xs l (ground (arith, c, e)) (ground (arith, c, h))
]

pub first-reaches :
    (id : ℕ) (ls : List Location) (l : Location)
    → first (λ l. l.id == id) ls ≡ some l
    → reaches id l.version ls ≡ true
unfolding reaches
first-reaches id [] l e = absurd (ground arith)
first-reaches id (x ∷ xs) l e = elim (Bool-cases (x.id == id)) [
  | inl c ↦ ground (arith, c, head-found id x xs l e c)
  | inr c ↦ ground (arith, c, e, first-reaches id xs l)
]
