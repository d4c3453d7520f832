-- ===== src/Integrity/Completion.antt =====
-- backend/src/integrity/completion_evaluator.py: whether a run counts as complete, incomplete or
-- invalid.
pub mod Swap
pub mod Invalid
use proof_arena.Base.{
  ℕ, ◌+◌, Bool, true, false, not, ◌&&◌, Option, none, some, List, [], ◌∷◌, ltb, if◌then◌else◌,
}
use proof_arena.Base.Json.{Json, text, Fields, get, truthy, truthy_or}
use proof_arena.Db.{EventType, RunStatus, CompletionStatus, RunInvalidReason}
use proof_arena.Events.{Event, Loads, payload_dict}
use proof_arena.Challenges.{
  Balances, CompletionResult, ChallengeAdapter, invalid_count, critical_error, budget_reason,
}

abbrev pub max_invalid_attempts : ℕ
max_invalid_attempts = 10

abbrev is_validate : EventType → Bool
is_validate EventType.validate = true
is_validate _ = false

abbrev is_error : EventType → Bool
is_error EventType.error = true
is_error _ = false

abbrev is_budget_exceeded : EventType → Bool
is_budget_exceeded EventType.budget_exceeded = true
is_budget_exceeded _ = false

abbrev is_timeout : RunStatus → Bool
is_timeout RunStatus.timeout = true
is_timeout _ = false

-- `isinstance(payload, dict) and not payload.get("valid", True)`
abbrev pub says_invalid : Option Fields → Bool
says_invalid none = false
says_invalid (some fs) = not (truthy_or (get "valid" fs) true)

-- `payload.get("fatal")` of a dict
abbrev pub says_fatal : Option Fields → Bool
says_fatal none = false
says_fatal (some fs) = truthy_or (get "fatal" fs) false

abbrev pub get_text_or : Option Json → Json → Json
get_text_or none d = d
get_text_or (some v) d = v

-- `payload.get("error", "Unknown fatal error")`
abbrev pub error_of : Option Fields → Json
error_of none = text "Unknown fatal error"
error_of (some fs) = get_text_or (get "error" fs) (text "Unknown fatal error")

-- `payload.get("reason", "budget_exceeded")`, and "budget_exceeded" for what is no dict
abbrev pub reason_of : Option Fields → Json
reason_of none = text "budget_exceeded"
reason_of (some fs) = get_text_or (get "reason" fs) (text "budget_exceeded")

abbrev pub truthy_value : Option Json → Bool
truthy_value v = truthy_or v false

abbrev pub or_null : Option Json → Json
or_null v = get_text_or v Json.null

module _ {T : Type 0} (loads : Loads) where
  unfoldable pub count_invalid_validations : List (Event T) → ℕ
  count_invalid_validations [] = 0
  count_invalid_validations (e ∷ es) =
      (if is_validate e.event_type && says_invalid (payload_dict loads e.validation_payload_json)
        then 1
        else 0)
      + count_invalid_validations es

  unfoldable pub find_critical_error : List (Event T) → Option Json
  find_critical_error [] = none
  find_critical_error (e ∷ es) =
      let payload = payload_dict loads e.result_payload_json in
      if is_error e.event_type && says_fatal payload
      then some (error_of payload)
      else find_critical_error es

  unfoldable pub find_budget_exceeded : List (Event T) → Option Json
  find_budget_exceeded [] = none
  find_budget_exceeded (e ∷ es) =
      if is_budget_exceeded e.event_type
      then some (reason_of (payload_dict loads e.result_payload_json))
      else find_budget_exceeded es

  unfoldable pub evaluate :
      ChallengeAdapter T → ℕ → List (Event T) → Balances → RunStatus → CompletionResult
  evaluate adapter max run_events final_balances run_status =
      let count = count_invalid_validations run_events in
      let critical = find_critical_error run_events in
      let budget = find_budget_exceeded run_events in
      if ltb max count
      then record {
        status = CompletionStatus.invalid;
        reason = some RunInvalidReason.invalid_action_attempts_exceeded;
        details = some (invalid_count count max);
      }
      else if truthy_value critical
      then record {
        status = CompletionStatus.invalid;
        reason = some RunInvalidReason.execution_error;
        details = some (critical_error (or_null critical));
      }
      else if is_timeout run_status
      then record {
        status = CompletionStatus.incomplete;
        reason = some RunInvalidReason.timeout_before_completion;
        details = none;
      }
      else if truthy_value budget
      then record {
        status = CompletionStatus.incomplete;
        reason = some RunInvalidReason.timeout_before_completion;
        details = some (budget_reason (or_null budget));
      }
      else adapter.validate_completion run_events final_balances
