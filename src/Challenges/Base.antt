-- ===== src/Challenges/Base.antt =====
-- The data of the `ChallengeAdapter` protocol, and the protocol as a record of functions.
use proof_arena.Base.{ℕ, String, Bool, Option, List}
use proof_arena.Base.Int.{ℤ}
use proof_arena.Base.Json.{Json, Float, Fields}
use proof_arena.Db.{CompletionStatus, RunInvalidReason, Run}
use proof_arena.Events.{Event}

-- mint → balance in base units
abbrev pub Balances : Type 0
Balances = List (String × ℤ)

pub data AgentActionType : Type 0 where
  execute_swap wait finish : AgentActionType

pub record ChallengeState : Type 0 where
  pub portfolio : Balances
  pub completed_swaps : List String
  pub required_swaps : List String
  pub iterations_used : ℕ
  pub elapsed_secs : Float
  pub iteration_budget : ℕ
  pub time_budget_secs : ℕ
  pub status : String
  pub extra : Fields

-- the `details` of a result, by the code that gives them
pub data Details : Type 0 where
  invalid_count : ℕ → ℕ → Details
  critical_error : Json → Details
  budget_reason : Json → Details
  missing_swaps : List String → Details
  unflattened_mint : String → ℤ → Details
  hint : Details

pub record CompletionResult : Type 0 where
  pub status : CompletionStatus
  pub reason : Option RunInvalidReason
  pub details : Option Details

-- The keys of `config_json` that the adapters and the validator read.
pub record ChallengeConfig : Type 0 where
  pub starting_usdc : Option ℤ
  pub swap_intents : Option (List String)
  pub allowed_routes : Option (List (List String))
  pub iteration_budget : Option ℕ
  pub time_budget_secs : Option ℕ
  pub max_slippage_bps : Option ℤ
  pub quote_max_age_secs : Option ℕ
  pub usdc_mint : Option String
  pub dry_run : Option Bool

-- `Text` is the type of serialized texts in an event.
pub record ChallengeAdapter (Text : Type 0) : Type 0 where
  pub build_initial_state : String → ChallengeState
  pub validate_completion : List (Event Text) → Balances → CompletionResult
  pub allowed_action_types : List AgentActionType
  pub should_flatten : Bool
  pub compute_ending_value : Run → Balances → ℤ
