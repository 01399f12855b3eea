-- ===== src/Base/Json.antt =====
-- JSON values as `serde_json` holds them: a number is an integer or a double.
use Prim.Native.Nat.{◌^◌}
use mathlib.Core.Bool.{Bool}
use mathlib.Core.Option.{Option, none, some}
use mathlib.Core.List.{List, [], ◌∷◌}
use bikenest.Base.Tests.{ltb, if◌then◌else◌}
use bikenest.Base.Text.{Text, text_eq}
use bikenest.Base.Int.{ℤ, pos, negsuc}
use bikenest.Base.F64.{F64, finite, not_a_number, infinite, of_integer}

mutual
  pub data Json : Type 0 where
    null : Json
    boolean : Bool → Json
    integer : ℤ → Json
    decimal : F64 → Json
    text : Text → Json
    array : Items → Json
    object : Fields → Json

  pub data Items : Type 0 where
    nil : Items
    cons : Json → Items → Items

  pub data Fields : Type 0 where
    end : Fields
    field : Text → Json → Fields → Fields

unfoldable pub get_field : Text → Fields → Option Json
get_field k end = none
get_field k (field j v fs) = if text_eq j k then some v else get_field k fs

-- `Value::get` with a key.
unfoldable pub get : Text → Json → Option Json
unfolding get_field
get k (object fs) = get_field k fs
get k null = none
get k (boolean _) = none
get k (integer _) = none
get k (decimal _) = none
get k (text _) = none
get k (array _) = none

-- The integers that fit a signed 64-bit word.
abbrev pub fits_i64 : ℤ → Bool
fits_i64 (pos n) = ltb n (2 ^ 63)
fits_i64 (negsuc n) = ltb n (2 ^ 63)

-- `get(key).and_then(Value::as_i64)`.
abbrev pub as_i64 : Option Json → Option ℤ
as_i64 (some (integer z)) = if fits_i64 z then some z else none
as_i64 _ = none

-- `get(key).and_then(Value::as_str)`.
abbrev pub as_str : Option Json → Option Text
as_str (some (text s)) = some s
as_str _ = none

-- `get(key).and_then(Value::as_bool)`.
abbrev pub as_bool : Option Json → Option Bool
as_bool (some (boolean b)) = some b
as_bool _ = none

-- `get(key).and_then(Value::as_f64)`.
unfoldable pub as_f64 : Option Json → Option F64
as_f64 (some (integer z)) = some (of_integer z)
as_f64 (some (decimal x)) = some x
as_f64 _ = none

-- The value that `json!` makes of a double.
abbrev pub of_f64 : F64 → Json
of_f64 (finite s m e) = decimal (finite s m e)
of_f64 not_a_number = null
of_f64 (infinite _) = null

abbrev pub of_option {ℓ} : {A : Type ℓ} → (A → Json) → Option A → Json
of_option f none = null
of_option f (some a) = f a

abbrev pub items {ℓ} : {A : Type ℓ} → (A → Json) → List A → Items
items f [] = nil
items f (x ∷ xs) = cons (f x) (items f xs)
