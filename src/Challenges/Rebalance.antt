-- ===== src/Challenges/Rebalance.antt =====
-- backend/src/challenges/rebalance_execution.py: the dry-run rebalance challenge, as far as the
-- runner and the evaluator use it.
use proof_arena.Base.{
  ℕ, String, Bool, false, true, none, some, List, [], ◌∷◌, or_default, if◌then◌else◌,
}
use proof_arena.Base.Int.{ℤ}
use proof_arena.Base.Json.{text, bool, field, end, zero_float}
use proof_arena.Db.{EventType, CompletionStatus, RunInvalidReason, Run}
use proof_arena.Events.{Event}
use proof_arena.Challenges.Base.{
  Balances, wait, finish, ChallengeState, hint, CompletionResult, ChallengeConfig, ChallengeAdapter,
}

-- the attributes that are not floats
pub record RebalanceExecutionChallenge : Type 0 where
  pub iteration_budget : ℕ
  pub time_budget_secs : ℕ
  pub dry_run : Bool

unfoldable pub new : ChallengeConfig → RebalanceExecutionChallenge
new config = record {
  iteration_budget = or_default config.iteration_budget 5;
  time_budget_secs = or_default config.time_budget_secs 60;
  dry_run = or_default config.dry_run true;
}

unfoldable pub build_initial_state : RebalanceExecutionChallenge → String → ChallengeState
build_initial_state c wallet_address = record {
  portfolio = [];
  completed_swaps = [];
  required_swaps = [];
  iterations_used = 0;
  elapsed_secs = zero_float;
  iteration_budget = c.iteration_budget;
  time_budget_secs = c.time_budget_secs;
  status = "active";
  extra =
      field "wallet_address" (text wallet_address) (
        field "template_key" (text "rebalance_executor_v1") (field "dry_run" (bool c.dry_run) end));
}

abbrev pub is_finish : EventType → Bool
is_finish EventType.finish = true
is_finish _ = false

unfoldable pub validate_completion : {T : Type 0} → List (Event T) → Balances → CompletionResult
validate_completion [] final_balances = record {
  status = CompletionStatus.incomplete;
  reason = some RunInvalidReason.incomplete_required_actions;
  details = some hint;
}
validate_completion (e ∷ es) final_balances =
    if is_finish e.event_type
    then record { status = CompletionStatus.complete; reason = none; details = none }
    else validate_completion es final_balances

-- a dry run ends where it started
unfoldable pub compute_ending_value : Run → Balances → ℤ
compute_ending_value run final_balances = run.starting_value

unfoldable pub adapter : {T : Type 0} → RebalanceExecutionChallenge → ChallengeAdapter T
adapter c = record {
  build_initial_state = build_initial_state c;
  validate_completion = validate_completion;
  allowed_action_types = finish ∷ wait ∷ [];
  should_flatten = false;
  compute_ending_value = compute_ending_value;
}
