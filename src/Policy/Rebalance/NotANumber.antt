-- ===== src/Policy/Rebalance/NotANumber.antt =====
-- The weight that switches the check of the total off.
use proof_arena.Base.{
  ◌≡◌, ◌⊎◌, inl, inr, refl, ap, ◌∙◌, String, false, some, [], All, In, or_default,
}
use proof_arena.Base.Float.{add, lt_float, add-nan_left, add-nan_right}
use proof_arena.Base.Json.{Float, zero_float, Json, Fields, float, arr, obj, end, field, get, nil}
use proof_arena.Base.Result.{ok}
use proof_arena.Policy.{keys}
use proof_arena.Policy.Envelope.{IsUniverse}
use proof_arena.Policy.Rebalance.{
  rebalance_envelope_fields, items_of, is_off, validate_spec_for_template,
}
use proof_arena.Policy.Rebalance.Shape.{AreWeights, value_of, total_of, HasLimits}
use proof_arena.Policy.Rebalance.Accepted.{validate_spec_for_template_iff}

-- one of the weights is NaN
abbrev pub HasNan : Fields → Type 0
HasNan end = ⊥
HasNan (field mint w rest) = (w ≡ float Float.nan) ⊎ HasNan rest

total_of-nan : (fs : Fields) → total_of Float.nan fs ≡ Float.nan
total_of-nan end = refl
total_of-nan (field mint w rest) =
    ap (λ t. total_of t rest) (add-nan_left (value_of w)) ∙ total_of-nan rest

total_of-HasNan : (total : Float) (fs : Fields) → HasNan fs → total_of total fs ≡ Float.nan
total_of-HasNan total end h = absurd h
total_of-HasNan total (field mint w rest) (inl is_nan) =
    ap (λ v. total_of (add total (value_of v)) rest) is_nan
    ∙ ap (λ t. total_of t rest) (add-nan_right total)
    ∙ total_of-nan rest
total_of-HasNan total (field mint w rest) (inr later) =
    total_of-HasNan (add total (value_of w)) rest later

is_off-nan : is_off Float.nan ≡ false
unfolding add lt_float
is_off-nan = refl

-- A rebalance spec that has a NaN among its weights passes whatever the weights add up to: it is enough
-- that its fields are the seven, that each other weight is not below 0 nor above 1, and that its
-- universe and its limits are in order.
pub nan_weight-accepted :
    (spec : Fields) (mint : String) (w : Json) (rest : Fields)
    → All (λ k. In k rebalance_envelope_fields) (keys spec)
    → IsUniverse (get "allowed_token_universe" spec)
    → get "target_allocations" spec ≡ some (obj (field mint w rest))
    → AreWeights
        (items_of (or_default (get "allowed_token_universe" spec) (arr nil)))
        (field mint w rest)
    → HasNan (field mint w rest)
    → HasLimits spec
    → validate_spec_for_template "rebalance_executor_v1" spec ≡ ok []
nan_weight-accepted spec mint w rest known universe target weights has limits =
    (validate_spec_for_template_iff "rebalance_executor_v1" spec).1 (
      inr (
        refl,
        (
          known,
          (
            universe,
            rw target (
              weights,
              ap is_off (total_of-HasNan zero_float (field mint w rest) has) ∙ is_off-nan,
            ),
            limits,
          ),
        ),
      ))
