-- ===== src/Base/PythonEquality.antt =====
-- `==` of the values that `json` reads: True is 1, an int equals the float of the same value, and NaN
-- equals nothing. Two objects are equal that have as many fields and equal values under equal keys, in
-- whatever order.
use Prim.Native.Nat.{ℕ, suc}
use mathlib.Core.Bool.{Bool, true, false, ◌&&◌}
use mathlib.Core.Option.{Option, none, some}
use proof_arena.Base.Tests.{◌==◌, text_equality, nat_beq, is_some, or_default}
use proof_arena.Base.Int.{pos, negsuc}
use proof_arena.Base.Float.{le_float, one}
use proof_arena.Base.Json.{
  Float, zero_float, Json, Items, Fields, null, bool, int, float, text, arr, obj, nil, cons, end,
  field, get,
}

abbrev number_of : Json → Option Float
number_of (bool true) = some one
number_of (bool false) = some zero_float
number_of (int (pos n)) = some (Float.finite false n (pos 0))
number_of (int (negsuc n)) = some (Float.finite true (suc n) (pos 0))
number_of (float f) = some f
number_of _ = none

abbrev same_number : Option Float → Option Float → Bool
same_number (some a) (some b) = le_float a b && le_float b a
same_number _ _ = false

abbrev field_count : Fields → ℕ
field_count end = 0
field_count (field k v fs) = suc (field_count fs)

unfoldable mutual
  pub same_json : Json → Json → Bool
  same_json null null = true
  same_json (text s) (text t) = s == t
  same_json (arr xs) (arr ys) = same_items xs ys
  same_json (obj fs) (obj gs) = nat_beq (field_count fs) (field_count gs) && same_fields fs gs
  same_json a b = same_number (number_of a) (number_of b)

  pub same_items : Items → Items → Bool
  same_items nil nil = true
  same_items (cons x xs) (cons y ys) = same_json x y && same_items xs ys
  same_items _ _ = false

  pub same_fields : Fields → Fields → Bool
  same_fields end gs = true
  same_fields (field k v fs) gs =
      is_some (get k gs) && same_json v (or_default (get k gs) null) && same_fields fs gs
