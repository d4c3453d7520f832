-- ===== src/Templates/Seeds.antt =====
-- The default configurations of the two seeds of backend/src/services/template_service.py.
use proof_arena.Base.{String, true, false, List, [], ◌∷◌}
use proof_arena.Base.Int.{pos, negsuc}
use proof_arena.Base.Float.{one}
use proof_arena.Base.Json.{
  Float, Json, Items, Fields, text, int, bool, float, arr, obj, cons, nil, field, end,
}

abbrev pub texts : List String → Items
texts [] = nil
texts (s ∷ ss) = cons (text s) (texts ss)

abbrev pub seed_mints : Json
seed_mints = arr (
    texts (
      "So11111111111111111111111111111111111111112" ∷ "BRjpCHtyQLNCo8gqRUr8jtdAj5AjPYQaoqbvcZiHok1k"
      ∷ []))

-- the default configurations of the two seeds
abbrev pub swap_executor_v1_seed : Fields
swap_executor_v1_seed = field "allowed_token_universe" seed_mints (
    field "max_slippage_bps" (int (pos 100)) (
      field "max_position_size" (int (pos 1000000))
        (field "max_iterations" (int (pos 10)) (field "max_runtime_seconds" (int (pos 180)) end))))

-- 0.5
abbrev pub half : Json
half = float (Float.finite false 1 (negsuc 0))

abbrev pub rebalance_executor_v1_seed : Fields
rebalance_executor_v1_seed = field "allowed_token_universe" seed_mints (
    field "target_allocations"
      (obj (
        field "So11111111111111111111111111111111111111112" half
          (field "BRjpCHtyQLNCo8gqRUr8jtdAj5AjPYQaoqbvcZiHok1k" half end)))
      (field "rebalance_threshold_bps" (int (pos 100)) (
        field "max_slippage_bps" (int (pos 100)) (
          field "max_position_weight" (float one)
            (field "max_trade_value" (int (pos 1000000)) (field "dry_run" (bool true) end))))))
