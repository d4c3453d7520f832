-- ===== src/Tests/Judging.antt =====
-- The verdicts on a swap, on a run's events and on a hosted run.
use proof_arena.Base.{
  ◌≡◌, ◌≢◌, ◌↔◌, ◌≤◌, ◌++◌, refl, arith, String, true, false, Option, none, some, List, [], ◌∷◌,
}
use proof_arena.Base.Int.{pos}
use proof_arena.Base.Json.{Json, obj, text, bool, field, end}
use proof_arena.Base.Result.{ok}
use proof_arena.Db.{
  EventType, Run, Agent, AgentInstance, RunStatus, CompletionStatus, RunInvalidReason, ProviderType,
  Store,
}
use proof_arena.Events.{Event, Loads}
use proof_arena.Challenges.{Balances, execute_swap}
use proof_arena.Challenges.Swap.{SwapExecutionChallenge, validate_completion, adapter}
use proof_arena.Services.SwapProtocol.{QuoteCache}
use proof_arena.Integrity.Completion.{
  evaluate, count_invalid_validations, find_critical_error, find_budget_exceeded, truthy_value,
}
use proof_arena.Integrity.Completion.Swap.{IsDone, evaluate-complete}
use proof_arena.Integrity.Completion.Invalid.{NeverInvalid, silent_fatal_not_invalid}
use proof_arena.Integrity.Validator.{
  ActionValidator, Action, Budget, ValidationResult, allows, validate,
}
use proof_arena.Integrity.Validator.Verdict.{IsAdmitted, validate-swap_iff}
use proof_arena.Cats.{
  Bridge, WalletSafetyCatResponse, judge, verdict, compute_wallet_safety_cat, get_wallet_safety_cat,
  resolve_run_and_instance,
}
use proof_arena.Cats.Verdict.{IsJudged, compute_wallet_safety_cat-judges}
use proof_arena.Cats.Access.{IsResolved, MaySee, get_wallet_safety_cat-verdict}
use proof_arena.Tests.Data.{quote, store, fresh_run, agent, live_instance}

abbrev loads : Loads
loads s = none

abbrev swap_challenge : SwapExecutionChallenge
swap_challenge = record {
  starting_usdc = pos 100;
  swap_intents = "SOL" ∷ [];
  allowed_routes = [];
  iteration_budget = 20;
  time_budget_secs = 300;
  max_slippage_bps = pos 100;
  usdc_mint = "USDC";
}

abbrev event : EventType → Option Json → Option Json → Event Json
event type execution result = record {
  run_id = 7;
  sequence_no = 0;
  event_type = type;
  timestamp = 0;
  state_snapshot_json = none;
  action_payload_json = none;
  validation_payload_json = none;
  execution_payload_json = execution;
  result_payload_json = result;
  tx_signature = none;
  quote_snapshot_ref = none;
}

abbrev swap_events : List (Event Json)
swap_events =
    event EventType.execute
      (some (obj (field "executed" (bool true) (field "output_mint" (text "SOL") end)))) none
    ∷ []

abbrev in_usdc : Balances
in_usdc = ("USDC", pos 120) ∷ []

evaluate-complete_example :
    ((evaluate loads (adapter swap_challenge) 10 swap_events in_usdc RunStatus.running).status
      ≡ CompletionStatus.complete)
    ↔ ((count_invalid_validations loads swap_events ≤ 10)
        × (truthy_value (find_critical_error loads swap_events) ≡ false)
        × (RunStatus.running ≢ RunStatus.timeout)
        × (truthy_value (find_budget_exceeded loads swap_events) ≡ false)
        × IsDone swap_challenge swap_events in_usdc)
evaluate-complete_example =
    evaluate-complete loads swap_challenge 10 swap_events in_usdc RunStatus.running

never_invalid : NeverInvalid {T = Json} (adapter swap_challenge)
unfolding adapter validate_completion
never_invalid es balances = ground arith

abbrev silent : Event Json
silent =
    event EventType.error none
      (some (obj (field "error" (text "") (field "fatal" (bool true) end))))

no_fatal : find_critical_error loads swap_events ≡ none
unfolding find_critical_error
no_fatal = refl

few : count_invalid_validations loads (swap_events ++ silent ∷ []) ≤ 10
unfolding count_invalid_validations
few = omega arith

silent_fatal_not_invalid_example :
    (evaluate loads
      (adapter swap_challenge)
      10
      (swap_events ++ silent ∷ [])
      in_usdc
      RunStatus.running).status
    ≢ CompletionStatus.invalid
silent_fatal_not_invalid_example =
    silent_fatal_not_invalid loads (adapter swap_challenge) 10 swap_events silent
      (field "error" (text "") (field "fatal" (bool true) end)) [] in_usdc RunStatus.running
      never_invalid no_fatal refl refl refl refl few

abbrev validator : ActionValidator
validator = record {
  allowed_actions = execute_swap ∷ [];
  max_slippage_bps = pos 100;
  allowed_routes = ("USDC" ∷ "SOL" ∷ []) ∷ [];
  quote_max_age_secs = 30;
}

abbrev cache : QuoteCache
cache = record { is_quote_fresh = λ id age. true; get_cached_quote = λ id. some quote }

abbrev swap : Action
swap = record {
  type = "EXECUTE_SWAP";
  quote_id = some "q1";
  requested_slippage = some (Json.int (pos 50));
  seconds = none;
}

abbrev budget : Budget
budget = record { iterations_used = 1; iteration_budget = 3 }

validate-swap_iff_example :
    ((r : ValidationResult) × (validate validator cache swap budget ≡ ok r) × (r.valid ≡ true)) ↔ (
      (allows execute_swap validator.allowed_actions ≡ true)
      × IsAdmitted validator cache swap budget)
validate-swap_iff_example = validate-swap_iff validator cache swap budget refl

abbrev bridge : Bridge
bridge = record { metadata_id = λ s. some 9; privy_id = λ s. none }

abbrev critique_for : RunInvalidReason → String
critique_for reason = "copy"

abbrev failed_run : Run
failed_run = record fresh_run {
  provider_type = ProviderType.hosted_instance;
  status = RunStatus.completed;
  completion_status = some CompletionStatus.invalid;
  invalid_reason = some RunInvalidReason.invalid_action_attempts_exceeded;
}

abbrev hosted : Store
hosted = record store { runs = failed_run ∷ [] }

abbrev response : WalletSafetyCatResponse
response = judge critique_for failed_run agent live_instance failed_run.invalid_reason

judged : compute_wallet_safety_cat bridge critique_for hosted 7 ≡ ok response
unfolding compute_wallet_safety_cat resolve_run_and_instance proof_arena.Cats.resolve_instance
judged = refl

compute_wallet_safety_cat-judges_example :
    (run : Run) × (agent : Agent) × (inst : AgentInstance) × (resolve_run_and_instance bridge hosted
        7
      ≡ ok (run, agent, inst))
    × IsJudged run.invalid_reason response
compute_wallet_safety_cat-judges_example =
    compute_wallet_safety_cat-judges bridge critique_for hosted 7 judged

get_wallet_safety_cat-verdict_example :
    (get_wallet_safety_cat bridge critique_for hosted 7 (some "owner") ≡ verdict response) ↔ (
      (run : Run) × (agent : Agent) × (inst : AgentInstance) × IsResolved bridge hosted 7 run agent
        inst
      × MaySee (some "owner") inst
      × (compute_wallet_safety_cat bridge critique_for hosted 7 ≡ ok response))
get_wallet_safety_cat-verdict_example =
    get_wallet_safety_cat-verdict bridge critique_for hosted 7 (some "owner") response
