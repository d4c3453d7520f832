-- ===== src/Integrity/Validator.antt =====
-- backend/src/integrity/action_validator.py: the check of an agent's action before it is executed.
pub mod Verdict
use proof_arena.Base.{
  ℕ, ◌*◌, ◌^◌, suc, String, Bool, true, false, not, ◌&&◌, ◌||◌, Option, none, some, List, [], ◌∷◌,
  ltb, leb, ◌==◌, text_equality, if◌then◌else◌, nonempty, or_default, contains, Equality, is_some,
}
use proof_arena.Base.Int.{ℤ, pos, negsuc, ltb_ℤ, leb_ℤ, neg_part, pos_part}
use proof_arena.Base.Json.{Json, Float}
use proof_arena.Base.Result.{Result, ok, err}
use proof_arena.Challenges.{AgentActionType, execute_swap, wait, finish, ChallengeConfig}
use proof_arena.Services.SwapProtocol.{QuoteOption, QuoteCache}

-- `ActionValidator.__init__`
pub record ActionValidator : Type 0 where
  pub allowed_actions : List AgentActionType
  pub max_slippage_bps : ℤ
  pub allowed_routes : List (List String)
  pub quote_max_age_secs : ℕ

-- an empty set of types is false, so it gives the default
abbrev pub or_all : List AgentActionType → List AgentActionType
or_all [] = execute_swap ∷ wait ∷ finish ∷ []
or_all (t ∷ ts) = t ∷ ts

unfoldable pub new : ChallengeConfig → List AgentActionType → ActionValidator
new config allowed_action_types = record {
  allowed_actions = or_all allowed_action_types;
  max_slippage_bps = or_default config.max_slippage_bps (pos 500);
  allowed_routes = or_default config.allowed_routes [];
  quote_max_age_secs = or_default config.quote_max_age_secs 30;
}

-- `action.model_dump()`: `AgentAction` has made sure that a quote id is a text.
pub record Action : Type 0 where
  pub type : String
  pub quote_id : Option String
  pub requested_slippage : Option Json
  pub seconds : Option Json

pub record Budget : Type 0 where
  pub iterations_used : ℕ
  pub iteration_budget : ℕ

pub data Reason : Type 0 where
  unknown_action_type action_not_allowed : String → Reason
  wait_seconds : Json → Reason
  missing_quote_id stale_quote quote_not_found route_not_allowed : Reason
  slippage_exceeds : Json → ℤ → Reason
  iteration_budget_exceeded : ℕ → ℕ → Reason
  unhandled_action_type : Reason

pub record ValidationResult : Type 0 where
  pub valid : Bool
  pub reason : Option Reason

abbrev pub accept : ValidationResult
accept = record { valid = true; reason = none }

abbrev pub reject : Reason → ValidationResult
reject r = record { valid = false; reason = some r }

pub data TypeError : Type 0 where
  type_error : TypeError

-- `AgentActionType(action_type_str)`
abbrev pub action_type_of : String → Option AgentActionType
action_type_of s =
    if s == "EXECUTE_SWAP"
    then some execute_swap
    else if s == "WAIT"
    then some wait
    else if s == "FINISH"
    then some finish
    else none

abbrev pub same_type : AgentActionType → AgentActionType → Bool
same_type execute_swap execute_swap = true
same_type wait wait = true
same_type finish finish = true
same_type _ _ = false

abbrev pub allows : AgentActionType → List AgentActionType → Bool
allows t [] = false
allows t (u ∷ us) = same_type t u || allows t us

-- `isinstance(v, int)`: a bool is an int
abbrev pub as_int : Json → Option ℤ
as_int (Json.int i) = some i
as_int (Json.bool true) = some (pos 1)
as_int (Json.bool false) = some (pos 0)
as_int _ = none

-- `f > i` of a float and an int: the exact values are compared, and NaN is above nothing
abbrev pub float_gt : Float → ℤ → Bool
float_gt (Float.finite false m (pos k)) i = ltb_ℤ i (pos (m * 2 ^ k))
float_gt (Float.finite false m (negsuc k)) (pos i) = ltb (i * 2 ^ suc k) m
float_gt (Float.finite false m (negsuc k)) (negsuc i) = true
float_gt (Float.finite true m (pos k)) i = ltb (m * 2 ^ k) (neg_part i)
float_gt (Float.finite true m (negsuc k)) i = ltb m (neg_part i * 2 ^ suc k)
float_gt (Float.infinite negative) i = not negative
float_gt Float.nan i = false

-- `v > i`
abbrev pub exceeds : Json → ℤ → Result TypeError Bool
exceeds (Json.float f) i = ok (float_gt f i)
exceeds v i = elim (as_int v) [ none ↦ err type_error | some n ↦ ok (ltb_ℤ i n) ]

abbrev pub in_wait_range : Option ℤ → Bool
in_wait_range none = false
in_wait_range (some n) = leb_ℤ (pos 1) n && leb_ℤ n (pos 60)

-- `_validate_wait`
unfoldable pub validate_wait : Action → ValidationResult
validate_wait action =
    let seconds = or_default action.seconds (Json.int (pos 0)) in
    if in_wait_range (as_int seconds) then accept else reject (wait_seconds seconds)

abbrev same_route : List String → List String → Bool
same_route [] [] = true
same_route (x ∷ xs) (y ∷ ys) = x == y && same_route xs ys
same_route _ _ = false

abbrev pub route_listed : List String → List (List String) → Bool
route_listed route [] = false
route_listed route (r ∷ rs) = same_route route r || route_listed route rs

abbrev pub is_empty {ℓ} : {A : Type ℓ} → List A → Bool
is_empty [] = true
is_empty (x ∷ xs) = false

-- the tests on a quote that was found and whose slippage is within bounds
abbrev pub route_and_budget : ActionValidator → Budget → QuoteOption → ValidationResult
route_and_budget v state quote =
    if not (is_empty v.allowed_routes)
      && not (route_listed (quote.input_mint ∷ quote.output_mint ∷ []) v.allowed_routes)
    then reject route_not_allowed
    else if ltb 0 state.iteration_budget && leb state.iteration_budget state.iterations_used
    then reject (iteration_budget_exceeded state.iterations_used state.iteration_budget)
    else accept

-- the tests on a quote that was found
abbrev pub validate_quote :
    ActionValidator → Budget → Json → QuoteOption → Result TypeError ValidationResult
validate_quote v state slippage quote = elim (exceeds slippage v.max_slippage_bps) [
  | err e ↦ err e
  | ok over ↦
      if over
      then ok (reject (slippage_exceeds slippage v.max_slippage_bps))
      else ok (route_and_budget v state quote)
]

-- `_validate_swap` from the quote id on
abbrev pub validate_quote_id :
    ActionValidator → QuoteCache → Budget → Json → Option String → Result TypeError ValidationResult
validate_quote_id v swap state slippage none = ok (reject missing_quote_id)
validate_quote_id v swap state slippage (some quote_id) =
    if not (nonempty quote_id)
    then ok (reject missing_quote_id)
    else if not (swap.is_quote_fresh quote_id v.quote_max_age_secs)
    then ok (reject stale_quote)
    else elim (swap.get_cached_quote quote_id) [
      | none ↦ ok (reject quote_not_found)
      | some quote ↦ validate_quote v state slippage quote
    ]

-- `_validate_swap`
unfoldable pub validate_swap :
    ActionValidator → QuoteCache → Action → Budget → Result TypeError ValidationResult
validate_swap v swap action state =
    validate_quote_id v swap state (or_default action.requested_slippage (Json.int (pos 0)))
      action.quote_id

abbrev pub by_type :
    ActionValidator
    → QuoteCache
    → Action
    → Budget
    → AgentActionType
    → Result TypeError ValidationResult
by_type v swap action state finish = ok accept
by_type v swap action state wait = ok (validate_wait action)
by_type v swap action state execute_swap = validate_swap v swap action state

unfoldable pub validate :
    ActionValidator → QuoteCache → Action → Budget → Result TypeError ValidationResult
validate v swap action state = elim (action_type_of action.type) [
  | none ↦ ok (reject (unknown_action_type action.type))
  | some t ↦
      if not (allows t v.allowed_actions)
      then ok (reject (action_not_allowed action.type))
      else by_type v swap action state t
]
