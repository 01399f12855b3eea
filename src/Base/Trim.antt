-- ===== src/Base/Trim.antt =====
-- What is left by a trim has no white space at its ends.
use Prim.Native.Nat.{ℕ}
use mathlib.Core.Path.{◌≡◌, refl, ap, ◌∙◌}
use mathlib.Core.Logic.{inl, inr}
use mathlib.Core.Bool.{false}
use mathlib.Core.List.{[], ◌∷◌}
use bikenest.Base.Tests.{if◌then◌else◌, Bool-cases}
use bikenest.Base.Text.{Text, is_whitespace, trim, trim_start, trim_end}

-- No white space at the front.
abbrev Starts : Text → Type 0
Starts [] = Unit
Starts (c ∷ s) = is_whitespace c ≡ false

trim_start-Starts : (s : Text) → Starts (trim_start s)
unfolding trim_start
trim_start-Starts [] = tt
trim_start-Starts (c ∷ s) = elim (Bool-cases (is_whitespace c)) [
  | inl e ↦ rw e (trim_start-Starts s)
  | inr e ↦ rw e e
]

trim_start-of_Starts : (s : Text) → Starts s → trim_start s ≡ s
unfolding trim_start
trim_start-of_Starts [] h = refl
trim_start-of_Starts (c ∷ s) h = rw h refl

-- The head of what a trim at the end leaves of c ∷ s, by what it leaves of s.
abbrev keep : ℕ → Text → Text
keep c [] = if is_whitespace c then [] else c ∷ []
keep c (d ∷ t) = c ∷ d ∷ t

trim_end-cons : (c : ℕ) (s : Text) → trim_end (c ∷ s) ≡ keep c (trim_end s)
unfolding trim_end
trim_end-cons c s = elim (trim_end s) [ [] ↦ refl | d ∷ t ↦ refl ]

keep-Starts : (c : ℕ) (t : Text) → is_whitespace c ≡ false → Starts (keep c t)
keep-Starts c [] h = rw h h
keep-Starts c (d ∷ t) h = h

trim_end-Starts : (s : Text) → Starts s → Starts (trim_end s)
unfolding trim_end
trim_end-Starts [] h = tt
trim_end-Starts (c ∷ s) h = rw (trim_end-cons c s) (keep-Starts c (trim_end s) h)

trim_end-keep : (c : ℕ) (t : Text) → trim_end t ≡ t → trim_end (keep c t) ≡ keep c t
unfolding trim_end
trim_end-keep c [] h = elim (Bool-cases (is_whitespace c)) [
  | inl e ↦ rw e refl
  | inr e ↦ rw e (rw e refl)
]
trim_end-keep c (d ∷ t) h = trim_end-cons c (d ∷ t) ∙ ap (keep c) h

trim_end-trim_end : (s : Text) → trim_end (trim_end s) ≡ trim_end s
unfolding trim_end
trim_end-trim_end [] = refl
trim_end-trim_end (c ∷ s) =
    rw (trim_end-cons c s) (trim_end-keep c (trim_end s) (trim_end-trim_end s))

pub trim-trim : (s : Text) → trim (trim s) ≡ trim s
unfolding trim
trim-trim s =
    ap trim_end (
      trim_start-of_Starts (trim_end (trim_start s))
        (trim_end-Starts (trim_start s) (trim_start-Starts s)))
    ∙ trim_end-trim_end (trim_start s)
