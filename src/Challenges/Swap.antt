-- ===== src/Challenges/Swap.antt =====
-- backend/src/challenges/swap_execution.py: the fixed-basket swap challenge.
use proof_arena.Base.{
  ℕ, String, Bool, true, false, not, Option, none, some, List, [], ◌∷◌, ◌==◌, text_equality,
  if◌then◌else◌, filter, contains, nonempty, or_default,
}
use proof_arena.Base.Int.{ℤ, pos, ltb_ℤ}
use proof_arena.Base.Json.{Json, text, int, obj, field, end, zero_float, Fields, get, truthy_or}
use proof_arena.Db.{EventType, CompletionStatus, RunInvalidReason, Run}
use proof_arena.Events.{Event}
use proof_arena.Challenges.Base.{
  Balances, execute_swap, wait, finish, ChallengeState, missing_swaps, unflattened_mint,
  CompletionResult, ChallengeConfig, ChallengeAdapter,
}

pub record SwapExecutionChallenge : Type 0 where
  pub starting_usdc : ℤ
  pub swap_intents : List String
  pub allowed_routes : List (List String)
  pub iteration_budget : ℕ
  pub time_budget_secs : ℕ
  pub max_slippage_bps : ℤ
  pub usdc_mint : String

-- `__init__`, given `config["starting_usdc"]`; none is the `KeyError` of a config without it
abbrev pub with_starting_usdc : ChallengeConfig → Option ℤ → Option SwapExecutionChallenge
with_starting_usdc config none = none
with_starting_usdc config (some usdc) = some (record {
  starting_usdc = usdc;
  swap_intents = or_default config.swap_intents [];
  allowed_routes = or_default config.allowed_routes [];
  iteration_budget = or_default config.iteration_budget 20;
  time_budget_secs = or_default config.time_budget_secs 300;
  max_slippage_bps = or_default config.max_slippage_bps (pos 100);
  usdc_mint = or_default config.usdc_mint "";
})

unfoldable pub new : ChallengeConfig → Option SwapExecutionChallenge
new config = with_starting_usdc config config.starting_usdc

unfoldable pub build_initial_state : SwapExecutionChallenge → String → ChallengeState
build_initial_state c wallet_address = record {
  portfolio = ("USDC", c.starting_usdc) ∷ [];
  completed_swaps = [];
  required_swaps = c.swap_intents;
  iterations_used = 0;
  elapsed_secs = zero_float;
  iteration_budget = c.iteration_budget;
  time_budget_secs = c.time_budget_secs;
  status = "active";
  extra = field "wallet_address" (text wallet_address) (
      field "usdc_mint" (text c.usdc_mint) (field "max_slippage_bps" (int c.max_slippage_bps) end));
}

-- `exec_payload.get("output_mint", "")`, kept if it is true of a text
abbrev pub output_mint : Fields → Option String
output_mint fs = elim (get "output_mint" fs) [
  | some (text m) ↦ if nonempty m then some m else none
  | _ ↦ none
]

-- The mint that one execute event completes: its payload must be a dict with a true "executed".
abbrev pub executed_mint : Option Json → Option String
executed_mint (some (obj fs)) = if truthy_or (get "executed" fs) false then output_mint fs else none
executed_mint _ = none

abbrev pub is_execute : EventType → Bool
is_execute EventType.execute = true
is_execute _ = false

abbrev pub cons_some : Option String → List String → List String
cons_some none ms = ms
cons_some (some m) ms = m ∷ ms

-- the set `completed_mints`
unfoldable pub completed_mints : {T : Type 0} → List (Event T) → List String
completed_mints [] = []
completed_mints (e ∷ es) =
    if is_execute e.event_type
    then cons_some (executed_mint e.execution_payload_json) (completed_mints es)
    else completed_mints es

-- the first mint but USDC that still has a balance
unfoldable pub unflattened : String → Balances → Option (String × ℤ)
unflattened usdc [] = none
unflattened usdc ((mint, balance) ∷ rest) =
    if mint == usdc
    then unflattened usdc rest
    else if ltb_ℤ (pos 0) balance
    then some (mint, balance)
    else unflattened usdc rest

abbrev flattened_result : Option (String × ℤ) → CompletionResult
flattened_result none = record { status = CompletionStatus.complete; reason = none; details = none }
flattened_result (some (mint, balance)) = record {
  status = CompletionStatus.incomplete;
  reason = some RunInvalidReason.flattening_failed;
  details = some (unflattened_mint mint balance);
}

abbrev completion_result : List String → Option (String × ℤ) → CompletionResult
completion_result [] left = flattened_result left
completion_result (m ∷ ms) left = record {
  status = CompletionStatus.incomplete;
  reason = some RunInvalidReason.incomplete_required_actions;
  details = some (missing_swaps (m ∷ ms));
}

unfoldable pub validate_completion :
    {T : Type 0} → SwapExecutionChallenge → List (Event T) → Balances → CompletionResult
unfolding unflattened completed_mints
validate_completion c run_events final_balances =
    let completed = completed_mints run_events in
    completion_result (filter (λ m. not (contains m completed)) c.swap_intents)
      (unflattened c.usdc_mint final_balances)

-- `final_balances.get(mint, 0)`
abbrev pub balance_of : String → Balances → ℤ
balance_of mint [] = pos 0
balance_of mint ((m, balance) ∷ rest) = if mint == m then balance else balance_of mint rest

unfoldable pub compute_ending_value : SwapExecutionChallenge → Run → Balances → ℤ
compute_ending_value c run final_balances = balance_of c.usdc_mint final_balances

unfoldable pub adapter : {T : Type 0} → SwapExecutionChallenge → ChallengeAdapter T
adapter c = record {
  build_initial_state = build_initial_state c;
  validate_completion = validate_completion c;
  allowed_action_types = execute_swap ∷ wait ∷ finish ∷ [];
  should_flatten = true;
  compute_ending_value = compute_ending_value c;
}
