-- ===== src/Base/Json.antt =====
-- The dynamic values that the program passes about: what `json` reads and writes.
use proof_arena.Base.Tests.{◌==◌, text_equality, if◌then◌else◌, nonempty}
use Prim.Native.Nat.{ℕ, suc, ◌*◌, ◌^◌}
use Prim.Native.String.{String}
use mathlib.Core.Bool.{Bool, true, false, not, ◌&&◌}
use mathlib.Core.Option.{Option, none, some}
use proof_arena.Base.Int.{ℤ, pos, negsuc}
use proof_arena.Base.Tests.{nat_beq, leb}

-- `finite negative m e` is ±m · 2^e; Base/Float computes with them.
pub data Float : Type 0 where
  finite : Bool → ℕ → ℤ → Float
  infinite : Bool → Float
  nan : Float

abbrev pub zero_float : Float
zero_float = Float.finite false 0 (pos 0)

-- `f >= n` of a float and an int: the exact values are compared, and NaN is at least nothing.
abbrev pub float_ge : Float → ℕ → Bool
float_ge (Float.finite false m (pos k)) n = leb n (m * 2 ^ k)
float_ge (Float.finite false m (negsuc k)) n = leb (n * 2 ^ suc k) m
float_ge (Float.finite true m e) n = nat_beq m 0 && nat_beq n 0
float_ge (Float.infinite negative) n = not negative
float_ge Float.nan n = false

-- The fields of an object are the entries of the dict in its order. An object that the code writes with
-- `json.dumps(sort_keys=True)` is built in the order of its keys.
mutual
  pub data Json : Type 0 where
    null : Json
    bool : Bool → Json
    int : ℤ → Json
    float : Float → Json
    text : String → Json
    arr : Items → Json
    obj : Fields → Json

  pub data Items : Type 0 where
    nil : Items
    cons : Json → Items → Items

  pub data Fields : Type 0 where
    end : Fields
    field : String → Json → Fields → Fields

-- `d.get(key)`: the keys of a dict are distinct, so the first entry is the entry.
abbrev pub get : String → Fields → Option Json
get k end = none
get k (field j v fs) = if k == j then some v else get k fs

-- Python's truth of a value
abbrev pub truthy : Json → Bool
truthy null = false
truthy (bool b) = b
truthy (int (pos n)) = not (nat_beq n 0)
truthy (int n) = true
truthy (float (Float.finite s m e)) = not (nat_beq m 0)
truthy (float f) = true
truthy (text s) = nonempty s
truthy (arr nil) = false
truthy (arr (cons x xs)) = true
truthy (obj end) = false
truthy (obj (field k v fs)) = true

-- `d.get(key, default)` and then its truth
abbrev pub truthy_or : Option Json → Bool → Bool
truthy_or none d = d
truthy_or (some v) d = truthy v
