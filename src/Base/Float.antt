-- ===== src/Base/Float.antt =====
-- Python's floats: IEEE 754 doubles, of which the program adds and compares some. A finite value is
-- ±m · 2^e, and a sum is rounded to 53 bits, to the nearest value and to an even one at a tie. The
-- exact sum of two doubles is a multiple of the least double, so that it needs no other rounding.
use Prim.Native.Nat.{ℕ, zero, suc, ◌+◌, ◌-◌, ◌*◌, ◌/◌, ◌%◌, ◌^◌}
use mathlib.Core.Path.{◌≡◌, refl}
use mathlib.Core.Bool.{Bool, true, false, not, ◌&&◌}
use mathlib.Core.Option.{Option, none, some}
use proof_arena.Base.Tests.{ltb, leb, nat_beq, if◌then◌else◌}
use proof_arena.Base.Int.{ℤ, pos, negsuc, pos_part, ◌+ℤ◌, ◌-ℤ◌, ltb_ℤ}
use proof_arena.Base.Json.{Float}

-- the number of binary digits, by halving; the number itself is fuel enough
abbrev halvings : ℕ → ℕ → ℕ
halvings zero n = 0
halvings (suc fuel) n = elim (nat_beq n 0) [ true ↦ 0 | false ↦ suc (halvings fuel (n / 2)) ]

unfoldable pub bit_length : ℕ → ℕ
bit_length n = halvings n n

-- n / 2^d, rounded to the nearest, and to the even one at a tie
abbrev pub round_half_even : ℕ → ℕ → ℕ
round_half_even n d =
    let q = n / 2 ^ d in
    let twice = 2 * (n % 2 ^ d) in
    if ltb (2 ^ d) twice then q + 1 else if nat_beq twice (2 ^ d) then q + q % 2 else q

-- what is at least 2^1024 is infinite
abbrev pub is_too_large : ℕ → ℤ → Bool
is_too_large m (pos k) = leb (2 ^ 1024) (m * 2 ^ k)
is_too_large m (negsuc k) = false

unfoldable pub rounded : Bool → ℕ → ℤ → Float
unfolding bit_length
rounded negative n e =
    let d = bit_length n - 53 in
    let m = round_half_even n d in
    if is_too_large m (e +ℤ pos d)
    then Float.infinite negative
    else Float.finite negative m (e +ℤ pos d)

abbrev pub signed : Bool → ℕ → ℤ
signed false m = pos m
signed true zero = pos 0
signed true (suc m) = negsuc m

-- how far an exponent lies above another
abbrev pub above : ℤ → ℤ → ℕ
above e f = pos_part (e -ℤ f)

abbrev pub least : ℤ → ℤ → ℤ
least e f = if ltb_ℤ e f then e else f

-- ±m · 2^e in units of 2^(least e f)
abbrev pub units : Bool → ℕ → ℤ → ℤ → ℤ
units negative m e f = signed negative (m * 2 ^ above e f)

abbrev pub of_units : Bool → ℤ → ℤ → Float
of_units negative_zero (pos zero) e = Float.finite negative_zero 0 (pos 0)
of_units negative_zero (pos (suc n)) e = rounded false (suc n) e
of_units negative_zero (negsuc n) e = rounded true (suc n) e

abbrev pub add_infinite : Bool → Float → Float
add_infinite s (Float.infinite true) = if s then Float.infinite true else Float.nan
add_infinite s (Float.infinite false) = if s then Float.nan else Float.infinite false
add_infinite s (Float.finite t n f) = Float.infinite s
add_infinite s Float.nan = Float.nan

-- `x + y`
unfoldable pub add : Float → Float → Float
unfolding rounded ◌+ℤ◌ ◌-ℤ◌
add (Float.finite s m e) (Float.finite t n f) =
    of_units (s && t) (units s m e f +ℤ units t n f e) (least e f)
add (Float.infinite s) y = add_infinite s y
add (Float.finite s m e) (Float.infinite t) = Float.infinite t
add (Float.finite s m e) Float.nan = Float.nan
add Float.nan y = Float.nan

abbrev pub negated : Float → Float
negated (Float.finite s m e) = Float.finite (not s) m e
negated (Float.infinite s) = Float.infinite (not s)
negated Float.nan = Float.nan

-- `abs(x)`
abbrev pub absolute : Float → Float
absolute (Float.finite s m e) = Float.finite false m e
absolute (Float.infinite s) = Float.infinite false
absolute Float.nan = Float.nan

-- `x < y`: no comparison with NaN holds
unfoldable pub lt_float : Float → Float → Bool
unfolding ◌-ℤ◌
lt_float (Float.finite s m e) (Float.finite t n f) = ltb_ℤ (units s m e f) (units t n f e)
lt_float (Float.finite s m e) (Float.infinite t) = not t
lt_float (Float.infinite s) (Float.finite t n f) = s
lt_float (Float.infinite s) (Float.infinite t) = s && not t
lt_float (Float.finite s m e) Float.nan = false
lt_float (Float.infinite s) Float.nan = false
lt_float Float.nan y = false

-- `x <= y`
unfoldable pub le_float : Float → Float → Bool
unfolding ◌-ℤ◌
le_float (Float.finite s m e) (Float.finite t n f) = not (ltb_ℤ (units t n f e) (units s m e f))
le_float (Float.finite s m e) (Float.infinite t) = not t
le_float (Float.infinite s) (Float.finite t n f) = s
le_float (Float.infinite true) (Float.infinite t) = true
le_float (Float.infinite false) (Float.infinite t) = not t
le_float (Float.finite s m e) Float.nan = false
le_float (Float.infinite s) Float.nan = false
le_float Float.nan y = false

abbrev pub one : Float
one = Float.finite false 1 (pos 0)

abbrev pub finite_or_none : Float → Option Float
finite_or_none (Float.finite s m e) = some (Float.finite s m e)
finite_or_none f = none

-- `float(n)` of an int; none is `OverflowError`
unfoldable pub of_int : ℤ → Option Float
unfolding rounded ◌+ℤ◌
of_int n = finite_or_none (of_units false n (pos 0))

-- a sum with NaN on the left or on the right is NaN
pub add-nan_left : (y : Float) → add Float.nan y ≡ Float.nan
unfolding add
add-nan_left y = refl

pub add-nan_right : (x : Float) → add x Float.nan ≡ Float.nan
unfolding add
add-nan_right (Float.finite s m e) = refl
add-nan_right (Float.infinite s) = refl
add-nan_right Float.nan = refl
