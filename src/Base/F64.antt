-- ===== src/Base/F64.antt =====
-- Double-precision numbers: a finite one is m · 2^e with its sign.
use Prim.Native.Nat.{ℕ, zero, suc, ◌+◌, ◌*◌, ◌/◌, ◌%◌, ◌^◌}
use mathlib.Core.Bool.{Bool, true, false, ◌&&◌, ◌||◌}
use bikenest.Base.Tests.{ltb, leb, ◌==◌, if◌then◌else◌}
use bikenest.Base.Int.{ℤ, pos, negsuc}

pub data F64 : Type 0 where
  not_a_number : F64
  infinite : Bool → F64
  finite : Bool → ℕ → ℤ → F64

abbrev pub is_finite : F64 → Bool
is_finite not_a_number = false
is_finite (infinite _) = false
is_finite (finite _ _ _) = true

-- `(-bound..=bound).contains(&x)`.
abbrev pub within : ℕ → F64 → Bool
within bound not_a_number = false
within bound (infinite _) = false
within bound (finite _ m (pos e)) = leb (m * 2 ^ e) bound
within bound (finite _ m (negsuc e)) = leb m (bound * 2 ^ suc e)

-- The quotient by a power of two, to the nearest and to the even of two.
abbrev round_half_even : ℕ → ℕ → ℕ
round_half_even n d =
    let q = n / d in
    let r = n % d in if ltb d (r * 2) || (r * 2 == d && q % 2 == 1) then q + 1 else q

-- The conversion of an integer of 64 bits: it is rounded to 53 significant ones, which takes a shift
-- of 11 at most.
unfoldable pub magnitude : ℕ → ℕ → ℕ → ℕ × ℕ
magnitude zero shift n = (round_half_even n (2 ^ shift), shift)
magnitude (suc fuel) shift n =
    let rest = magnitude fuel (suc shift) n in
    if ltb (round_half_even n (2 ^ shift)) (2 ^ 53)
    then (round_half_even n (2 ^ shift), shift)
    else rest

abbrev signed : Bool → ℕ × ℕ → F64
signed negative (m, e) = finite negative m (pos e)

unfoldable pub of_integer : ℤ → F64
unfolding magnitude
of_integer (pos n) = signed false (magnitude 12 0 n)
of_integer (negsuc n) = signed true (magnitude 12 0 (suc n))
