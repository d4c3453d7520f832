-- ===== src/Tests/Rebalancing.antt =====
-- A rebalance spec, one with a NaN weight, and sums of doubles.
use proof_arena.Base.{◌≡◌, ◌↔◌, refl, inl, inr, arith, true, false, [], ◌∷◌}
use proof_arena.Base.Int.{pos, negsuc}
use proof_arena.Base.Float.{add, lt_float, one}
use proof_arena.Base.Json.{Float, Fields, text, int, bool, float, arr, obj, cons, nil, field, end}
use proof_arena.Base.Result.{ok}
use proof_arena.Policy.Rebalance.{validate_spec_for_template}
use proof_arena.Policy.Rebalance.Accepted.{FitsTemplate, validate_spec_for_template_iff}
use proof_arena.Policy.Rebalance.NotANumber.{nan_weight-accepted}

-- 0.1 + 0.2 is not the double of 0.3 but the next one
tenths :
    add
      (Float.finite false 3602879701896397 (negsuc 54))
      (Float.finite false 3602879701896397 (negsuc 53))
    ≡ Float.finite false 5404319552844596 (negsuc 53)
unfolding add
tenths = refl

-- 2^53 + 1 is 2^53
to_even :
    add (Float.finite false 9007199254740992 (pos 0)) one
    ≡ Float.finite false 4503599627370496 (pos 1)
unfolding add
to_even = refl

abbrev pub spec_with : Fields → Fields
spec_with weights =
    field "allowed_token_universe" (arr (cons (text "A") (cons (text "B") (cons (text "C") nil)))) (
      field "dry_run" (bool true) (
        field "max_position_weight" (float one) (
          field "max_slippage_bps" (int (pos 100)) (
            field "max_trade_value" (int (pos 1000000)) (
              field "rebalance_threshold_bps" (int (pos 100))
                (field "target_allocations" (obj weights) end))))))

abbrev pub halves : Fields
halves =
    field "A" (float (Float.finite false 1 (negsuc 0)))
      (field "B" (float (Float.finite false 1 (negsuc 0))) end)

halves_pass : validate_spec_for_template "rebalance_executor_v1" (spec_with halves) ≡ ok []
unfolding validate_spec_for_template add lt_float proof_arena.Base.Float.le_float
halves_pass = refl

validate_spec_for_template_iff_example :
    (validate_spec_for_template "rebalance_executor_v1" (spec_with halves) ≡ ok [])
    ↔ FitsTemplate "rebalance_executor_v1" (spec_with halves)
validate_spec_for_template_iff_example =
    validate_spec_for_template_iff "rebalance_executor_v1" (spec_with halves)

-- two whole units and a NaN
abbrev too_much : Fields
too_much = field "B" (int (pos 1)) (field "C" (int (pos 1)) end)

nan_weight-accepted_example :
    validate_spec_for_template "rebalance_executor_v1"
      (spec_with (field "A" (float Float.nan) too_much))
    ≡ ok []
unfolding lt_float proof_arena.Base.Float.le_float
nan_weight-accepted_example =
    nan_weight-accepted (spec_with (field "A" (float Float.nan) too_much)) "A" (float Float.nan)
      too_much
      (
        inl refl,
        (
          inr (inr (inr (inr (inr (inr (inl refl)))))),
          (
            inr (inr (inr (inr (inl refl)))),
            (
              inr (inr (inr (inl refl))),
              (
                inr (inr (inr (inr (inr (inl refl))))),
                (inr (inr (inl refl)), (inr (inl refl), tt)),
              ),
            ),
          ),
        ),
      )
      ((_, refl, refl), ((_, refl, refl), ((_, refl, refl), tt))) refl
      (
        inl refl,
        (refl, refl),
        (inr (inl refl), (ground arith), (inr (inr (inl refl)), (ground arith), tt)),
      )
      (inl refl) (ground arith, ground arith, (refl, refl), ground arith, tt)
