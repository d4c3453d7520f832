-- ===== src/Policy/Rebalance.antt =====
-- backend/src/policy/engine.py: the envelope of a rebalance instance, and the validation of a spec for
-- a template. A weight may be any float, NaN included.
pub mod Shape
pub mod Limits
pub mod Accepted
pub mod NotANumber
use proof_arena.Base.{
  ℕ, String, Bool, true, false, not, ◌&&◌, ◌||◌, Option, none, some, List, [], ◌∷◌, ◌++◌, map,
  if◌then◌else◌, ◌==◌, text_equality, contains, or_default, filter, is_some,
}
use proof_arena.Base.Int.{ℤ, pos, negsuc, ltb_ℤ}
use proof_arena.Base.Float.{add, negated, absolute, one, lt_float, le_float, of_int}
use proof_arena.Base.Json.{
  Float, zero_float, Json, Items, Fields, null, bool, int, float, text, arr, obj, nil, cons, end,
  field, get,
}
use proof_arena.Base.Result.{Result, ok, err, ◌>>=◌}
use proof_arena.Policy.{
  allowed_envelope_fields, SpecError, keys, is_filled_text, validate_spec, max_slippage_bps_limit,
  max_position_size_limit,
}

-- `_REBALANCE_ENVELOPE_FIELDS`
abbrev pub rebalance_envelope_fields : List String
rebalance_envelope_fields =
    "allowed_token_universe" ∷ "target_allocations" ∷ "rebalance_threshold_bps" ∷ "max_slippage_bps"
    ∷ "max_position_weight" ∷ "max_trade_value" ∷ "dry_run" ∷ []

-- `TEMPLATE_ENVELOPE_REGISTRY`
abbrev pub template_envelope_registry : String → Option (List String)
template_envelope_registry key =
    if key == "swap_executor_v1"
    then some allowed_envelope_fields
    else if key == "rebalance_executor_v1"
    then some rebalance_envelope_fields
    else none

-- the error texts, by the code that writes them
pub data EnvelopeError : Type 0 where
  unknown_template_key extra_field absent_field not_in_universe : String → EnvelopeError
  swap_error : SpecError → EnvelopeError
  universe_shape target_shape : EnvelopeError
  universe_entry bad_threshold bad_slippage bad_position_weight bad_trade_value bad_dry_run :
      Json → EnvelopeError
  not_a_number weight_out_of_range : String → Json → EnvelopeError
  sum_off : Float → EnvelopeError

-- the exception of `float(w)` for an int that is too large
pub data Raised : Type 0 where
  overflow : Raised

abbrev pub entry_errors : Items → List EnvelopeError
entry_errors nil = []
entry_errors (cons v vs) =
    if is_filled_text v then entry_errors vs else universe_entry v ∷ entry_errors vs

-- the checks of `universe`
abbrev pub check_universe : Json → List EnvelopeError
check_universe (arr (cons v vs)) = entry_errors (cons v vs)
check_universe _ = universe_shape ∷ []

abbrev pub is_text : String → Json → Bool
is_text mint (text s) = mint == s
is_text mint _ = false

abbrev pub mint_in : String → Items → Bool
mint_in mint nil = false
mint_in mint (cons v vs) = is_text mint v || mint_in mint vs

-- `mint not in valid_universe`
abbrev pub member_errors : Items → String → List EnvelopeError
member_errors universe mint = if mint_in mint universe then [] else not_in_universe mint ∷ []

-- `w < 0.0 or w > 1.0`
abbrev pub out_of_unit : Json → Bool
out_of_unit (int n) = ltb_ℤ n (pos 0) || ltb_ℤ (pos 1) n
out_of_unit (float f) = lt_float f zero_float || lt_float one f
out_of_unit _ = false

abbrev pub is_number : Json → Bool
is_number (int n) = true
is_number (float f) = true
is_number _ = false

abbrev pub weight_errors : String → Json → List EnvelopeError
weight_errors mint w =
    if is_number w
    then if out_of_unit w then weight_out_of_range mint w ∷ [] else []
    else not_a_number mint w ∷ []

abbrev pub plus : Float → Option Float → Result Raised Float
plus total none = err overflow
plus total (some f) = ok (add total f)

-- `total += float(w)`, and for what is no number the `continue` before it
abbrev pub add_weight : Float → Json → Result Raised Float
add_weight total (int n) = plus total (of_int n)
add_weight total (float f) = ok (add total f)
add_weight total _ = ok total

abbrev pub prepend : List EnvelopeError → List EnvelopeError × Float → List EnvelopeError × Float
prepend errors (more, total) = (errors ++ more, total)

-- the loop over `target.items()`: the errors, and the total of the weights
abbrev pub check_weights : Items → Fields → Float → Result Raised (List EnvelopeError × Float)
check_weights universe end total = ok ([], total)
check_weights universe (field mint w rest) total = add_weight total w >>= λ sum.
    check_weights universe rest sum >>= λ checked.
    ok (prepend (member_errors universe mint ++ weight_errors mint w) checked)

-- `0.01 + 1e-9`
abbrev pub tolerance : Float
tolerance = Float.finite false 5764608099494987 (negsuc 58)

-- `abs(total - 1.0) > 0.01 + 1e-9`
abbrev pub is_off : Float → Bool
is_off total = lt_float tolerance (absolute (add total (negated one)))

abbrev pub with_sum : List EnvelopeError × Float → List EnvelopeError
with_sum (errors, total) = errors ++ (if is_off total then sum_off total ∷ [] else [])

abbrev pub items_of : Json → Items
items_of (arr vs) = vs
items_of _ = nil

-- the checks of `target`
abbrev pub check_target : Items → Json → Result Raised (List EnvelopeError)
check_target universe (obj (field mint w rest)) =
    check_weights universe (field mint w rest) zero_float >>= λ checked. ok (with_sum checked)
check_target universe _ = ok (target_shape ∷ [])

-- an int, not a bool, between two bounds
abbrev pub is_int_in : ℤ → ℤ → Json → Bool
is_int_in lo hi (int n) = not (ltb_ℤ n lo || ltb_ℤ hi n)
is_int_in lo hi _ = false

-- the negation of `pw <= 0.0 or pw > 1.0` for a number
abbrev pub is_position_weight : Json → Bool
is_position_weight (int n) = not (not (ltb_ℤ (pos 0) n) || ltb_ℤ (pos 1) n)
is_position_weight (float f) = not (le_float f zero_float || lt_float one f)
is_position_weight _ = false

abbrev pub is_bool : Json → Bool
is_bool (bool b) = true
is_bool _ = false

abbrev pub unless : Bool → EnvelopeError → List EnvelopeError
unless holds e = if holds then [] else e ∷ []

-- the checks of the other five fields
abbrev pub check_limits : Fields → List EnvelopeError
check_limits spec =
    let th = or_default (get "rebalance_threshold_bps" spec) null in
    let sl = or_default (get "max_slippage_bps" spec) null in
    let pw = or_default (get "max_position_weight" spec) null in
    let tv = or_default (get "max_trade_value" spec) null in
    let dr = or_default (get "dry_run" spec) null in
    unless (is_int_in (pos 1) (pos 5000) th) (bad_threshold th)
    ++ unless (is_int_in (pos 0) max_slippage_bps_limit sl) (bad_slippage sl)
    ++ unless (is_position_weight pw) (bad_position_weight pw)
    ++ unless (is_int_in (pos 1) max_position_size_limit tv) (bad_trade_value tv)
    ++ unless (is_bool dr) (bad_dry_run dr)

-- `_validate_rebalance_envelope_shape`
unfoldable pub validate_rebalance_envelope_shape : Fields → Result Raised (List EnvelopeError)
validate_rebalance_envelope_shape spec =
    let universe = or_default (get "allowed_token_universe" spec) (arr nil) in
    check_target (items_of universe) (or_default (get "target_allocations" spec) (obj end))
    >>= λ errors. ok (check_universe universe ++ errors ++ check_limits spec)

-- `extra` and `missing`; the code sorts each of them
abbrev pub extra_fields : List String → List String → List EnvelopeError
extra_fields allowed spec_keys = map extra_field (filter (λ k. not (contains k allowed)) spec_keys)

abbrev pub absent_fields : List String → Fields → List EnvelopeError
absent_fields allowed spec = map absent_field (filter (λ k. not (is_some (get k spec))) allowed)

-- the checks of a template, after the membership check
abbrev pub check_shape : String → Fields → Result Raised (List EnvelopeError)
check_shape template_key spec =
    if template_key == "swap_executor_v1"
    then ok (map swap_error (validate_spec spec))
    else if template_key == "rebalance_executor_v1"
    then validate_rebalance_envelope_shape spec
    else ok []

abbrev pub or_shape : String → Fields → List EnvelopeError → Result Raised (List EnvelopeError)
or_shape template_key spec (e ∷ es) = ok (e ∷ es)
or_shape template_key spec [] = check_shape template_key spec

abbrev pub within : String → Fields → Option (List String) → Result Raised (List EnvelopeError)
within template_key spec none = ok (unknown_template_key template_key ∷ [])
within template_key spec (some allowed) =
    or_shape template_key spec (extra_fields allowed (keys spec) ++ absent_fields allowed spec)

-- `validate_spec_for_template`: the list of errors
unfoldable pub validate_spec_for_template : String → Fields → Result Raised (List EnvelopeError)
unfolding validate_spec validate_rebalance_envelope_shape
validate_spec_for_template template_key spec =
    within template_key spec (template_envelope_registry template_key)
