-- ===== src/Policy/Rebalance/Shape.antt =====
-- Which specs pass the checks of a rebalance envelope.
use proof_arena.Base.{
  ◌≡◌, ◌↔◌, ◌⊎◌, refl, sym, ap, ◌∙◌, subst, String, true, false, Option, none, some, List, [], ◌∷◌,
  ◌++◌, arith, append-eq-nil, or_default, text_equality, if◌then◌else◌, zero, suc,
}
use package.text.Mathlib.TextEquality.{eq_iff}
use proof_arena.Base.Int.{pos, negsuc, ◌≤ℤ◌}
use proof_arena.Base.Float.{add, lt_float, le_float, of_int, one}
use proof_arena.Base.Json.{
  Float, zero_float, Json, Items, Fields, null, bool, int, float, text, arr, obj, nil, cons, end,
  field, get,
}
use proof_arena.Base.Result.{ok, bind-ok, ok-injective}
use proof_arena.Policy.Envelope.{AreMints, IsUniverse, IsIntIn}
use proof_arena.Policy.Rebalance.{
  EnvelopeError, entry_errors, check_universe, mint_in, member_errors, weight_errors, add_weight,
  check_weights, is_off, sum_off, with_sum, items_of, check_target,
}

-- a weight from 0 to 1; a float that is NaN is neither below 0 nor above 1
abbrev pub IsUnitWeight : Json → Type 0
IsUnitWeight (int n) = (pos 0 ≤ℤ n) × (n ≤ℤ pos 1)
IsUnitWeight (float f) = (lt_float f zero_float ≡ false) × (lt_float one f ≡ false)
IsUnitWeight _ = ⊥

abbrev pub IsListed : String → Items → Type 0
IsListed mint nil = ⊥
IsListed mint (cons v vs) = (v ≡ text mint) ⊎ IsListed mint vs

-- each mint is of the universe and has a weight
abbrev pub AreWeights : Items → Fields → Type 0
AreWeights universe end = Unit
AreWeights universe (field mint w rest) =
    IsListed mint universe × IsUnitWeight w × AreWeights universe rest

abbrev pub value_of : Json → Float
value_of (int n) = or_default (of_int n) zero_float
value_of (float f) = f
value_of _ = zero_float

-- the weights, added up in their order
abbrev pub total_of : Float → Fields → Float
total_of total end = total
total_of total (field mint w rest) = total_of (add total (value_of w)) rest

-- at least one weight, and their total is not off 1
abbrev pub AreAllocations : Items → Option Json → Type 0
AreAllocations universe (some (obj (field mint w rest))) =
    AreWeights universe (field mint w rest)
    × (is_off (total_of zero_float (field mint w rest)) ≡ false)
AreAllocations universe _ = ⊥

abbrev pub IsPositionWeight : Option Json → Type 0
IsPositionWeight (some (int n)) = (pos 1 ≤ℤ n) × (n ≤ℤ pos 1)
IsPositionWeight (some (float f)) = (le_float f zero_float ≡ false) × (lt_float one f ≡ false)
IsPositionWeight _ = ⊥

abbrev pub IsFlag : Option Json → Type 0
IsFlag (some (bool b)) = Unit
IsFlag _ = ⊥

-- the five fields that stand for themselves
abbrev pub HasLimits : Fields → Type 0
HasLimits spec =
    IsIntIn (pos 1) (pos 5000) (get "rebalance_threshold_bps" spec)
    × IsIntIn (pos 0) (pos 500) (get "max_slippage_bps" spec)
    × IsPositionWeight (get "max_position_weight" spec)
    × IsIntIn (pos 1) (pos 10000000000) (get "max_trade_value" spec)
    × IsFlag (get "dry_run" spec)

-- the seven fields of a rebalance envelope, each of its shape
abbrev pub IsRebalanceShape : Fields → Type 0
IsRebalanceShape spec =
    IsUniverse (get "allowed_token_universe" spec)
    × AreAllocations (items_of (or_default (get "allowed_token_universe" spec) (arr nil)))
        (get "target_allocations" spec)
    × HasLimits spec

entry_errors_iff : (vs : Items) → (entry_errors vs ≡ []) ↔ AreMints vs
entry_errors_iff nil = (λ h. tt, λ h. refl)
entry_errors_iff (cons (text s) vs) = ground (arith, entry_errors_iff vs)
entry_errors_iff (cons v vs) = ground (arith, entry_errors_iff vs)

pub check_universe_iff :
    (o : Option Json) → (check_universe (or_default o (arr nil)) ≡ []) ↔ IsUniverse o
check_universe_iff none = ground arith
check_universe_iff (some (arr nil)) = ground arith
check_universe_iff (some (arr (cons v vs))) = entry_errors_iff (cons v vs)
check_universe_iff (some v) = ground arith

mint_in_iff : (mint : String) (vs : Items) → (mint_in mint vs ≡ true) ↔ IsListed mint vs
mint_in_iff mint nil = (λ h. cc, λ h. absurd h)
mint_in_iff mint (cons (text s) vs) = ground (arith, mint_in_iff mint vs, eq_iff mint s)
mint_in_iff mint (cons v vs) = ground (arith, mint_in_iff mint vs)

weight_errors_iff : (mint : String) (w : Json) → (weight_errors mint w ≡ []) ↔ IsUnitWeight w
weight_errors_iff mint (int n) = ground arith
weight_errors_iff mint (float f) = ground arith
weight_errors_iff mint w = ground arith

add_weight-unit :
    (total : Float) (w : Json) → IsUnitWeight w → add_weight total w ≡ ok (add total (value_of w))
unfolding of_int
add_weight-unit total (int (pos zero)) h = refl
add_weight-unit total (int (pos (suc zero))) h = refl
add_weight-unit total (int (pos (suc (suc n)))) h = absurd (omega arith)
add_weight-unit total (int (negsuc n)) h = absurd (omega arith)
add_weight-unit total (float f) h = refl
add_weight-unit total null h = absurd h
add_weight-unit total (bool b) h = absurd h
add_weight-unit total (text s) h = absurd h
add_weight-unit total (arr vs) h = absurd h
add_weight-unit total (obj fs) h = absurd h

-- the errors about one weight
weight_iff :
    (universe : Items) (mint : String) (w : Json)
    → (member_errors universe mint ++ weight_errors mint w ≡ [])
      ↔ (IsListed mint universe × IsUnitWeight w)
weight_iff universe mint w = ground (
  arith,
  append-eq-nil (member_errors universe mint) (weight_errors mint w),
  mint_in_iff mint universe,
  weight_errors_iff mint w,
)

check_weights-accepts :
    (universe : Items) (fs : Fields) (total : Float)
    → AreWeights universe fs
    → check_weights universe fs total ≡ ok ([], total_of total fs)
check_weights-accepts universe end total h = refl
check_weights-accepts universe (field mint w rest) total (listed, unit, others) =
    rw
      (
        add_weight-unit total w unit,
        check_weights-accepts universe rest (add total (value_of w)) others,
        (weight_iff universe mint w).1 (listed, unit),
      )
      refl

check_weights-accepted :
    (universe : Items) (fs : Fields) (total : Float) {sum : Float}
    → check_weights universe fs total ≡ ok ([], sum)
    → AreWeights universe fs × (sum ≡ total_of total fs)
check_weights-accepted universe end total h = (tt, ground (arith, h))
check_weights-accepted universe (field mint w rest) total {sum} h =
    let (next, added, h') = bind-ok (add_weight total w) _ h in
    let ((errors, last), checked, h'') = bind-ok (check_weights universe rest next) _ h' in
    let pair = ok-injective h'' in
    let clean =
      (append-eq-nil (member_errors universe mint ++ weight_errors mint w) errors).0
        (ap (λ p. p.0) pair) in
    let (listed, unit) = (weight_iff universe mint w).0 clean.0 in
    let same : next ≡ add total (value_of w) =
      ok-injective (sym added ∙ add_weight-unit total w unit) in
    let (others, total_is) =
      check_weights-accepted universe rest next {sum = last}
        (subst (λ es. check_weights universe rest next ≡ ok (es, last)) clean.1 checked) in
    ((listed, unit, others), sym (ap (λ p. p.1) pair) ∙ total_is ∙ ap (λ t. total_of t rest) same)

pub check_target-accepts :
    (universe : Items) (o : Option Json)
    → AreAllocations universe o
    → check_target universe (or_default o (obj end)) ≡ ok []
check_target-accepts universe (some (obj (field mint w rest))) (weights, near) =
    rw (check_weights-accepts universe (field mint w rest) zero_float weights, near) refl
check_target-accepts universe none h = absurd h
check_target-accepts universe (some null) h = absurd h
check_target-accepts universe (some (bool b)) h = absurd h
check_target-accepts universe (some (int n)) h = absurd h
check_target-accepts universe (some (float f)) h = absurd h
check_target-accepts universe (some (text s)) h = absurd h
check_target-accepts universe (some (arr vs)) h = absurd h
check_target-accepts universe (some (obj end)) h = absurd h

with_sum-eq-nil :
    (errors : List EnvelopeError) (total : Float)
    → with_sum (errors, total) ≡ []
    → (errors ≡ []) × (is_off total ≡ false)
with_sum-eq-nil errors total h =
    ground (arith, append-eq-nil errors (if is_off total then sum_off total ∷ [] else []))

pub check_target-accepted :
    (universe : Items) (o : Option Json)
    → check_target universe (or_default o (obj end)) ≡ ok []
    → AreAllocations universe o
check_target-accepted universe (some (obj (field mint w rest))) h =
    let ((errors, total), checked, h') =
      bind-ok (check_weights universe (field mint w rest) zero_float) _ h in
    let (clean, near) = with_sum-eq-nil errors total (ok-injective h') in
    let (weights, total_is) =
      check_weights-accepted universe (field mint w rest) zero_float {sum = total} (
        subst (λ es. check_weights universe (field mint w rest) zero_float ≡ ok (es, total)) clean
          checked) in
    (weights, ap is_off (sym total_is) ∙ near)
check_target-accepted universe none h = absurd (cc)
check_target-accepted universe (some null) h = absurd (cc)
check_target-accepted universe (some (bool b)) h = absurd (cc)
check_target-accepted universe (some (int n)) h = absurd (cc)
check_target-accepted universe (some (float f)) h = absurd (cc)
check_target-accepted universe (some (text s)) h = absurd (cc)
check_target-accepted universe (some (arr vs)) h = absurd (cc)
check_target-accepted universe (some (obj end)) h = absurd (cc)
