-- ===== src/Runner/Pass.antt =====
-- One pass of the loop of `execute_run` (observe, budget, decide, validate, execute), and the loop.
use proof_arena.Base.{
  ℕ, zero, suc, ◌+◌, String, Bool, true, false, Option, none, some, List, [], ◌∷◌, ◌++◌, leb,
  if◌then◌else◌, nonempty, or_default,
}
use proof_arena.Base.Int.{pos, ltb_ℤ}
use proof_arena.Base.Json.{Json, Fields, null, bool, int, text, obj, field, end, get, float_ge}
use proof_arena.Base.Result.{Result, ok, err}
use proof_arena.Db.{EventType}
use proof_arena.Challenges.{Balances, ChallengeState, AgentActionType, execute_swap, wait, finish}
use proof_arena.Services.SwapProtocol.{QuoteOption}
use proof_arena.Integrity.Validator.{
  ActionValidator, ValidationResult, Reason, TypeError, as_int, validate,
}
use proof_arena.Services.Serialization.{Codec}
use proof_arena.Runner.World.{
  World, AgentAction, Decision, act, parse_error, failed, Log, Payload, no_payload, result_of,
  action_type_text, to_action, action_json, state_json, as_text, persist,
}

-- what stays fixed during a run
pub record Setting : Type 0 where
  pub run_id : ℕ
  pub wallet_address : String
  pub wallet_id : String
  pub validator : ActionValidator

-- how a pass ends: `break`, the next pass, or an exception that leaves the loop
pub data Pass (Text : Type 0) : Type 0 where
  stopped : ChallengeState → Log Text → Pass Text
  again : ChallengeState → Log Text → Pass Text
  crashed : String → ChallengeState → Log Text → Pass Text

abbrev pub is_empty_dict : Balances → Bool
is_empty_dict [] = true
is_empty_dict (b ∷ bs) = false

-- `balances if balances else state.portfolio`, and nothing if the wallet could not be read
abbrev pub observed : Option Balances → Balances → Balances
observed none portfolio = portfolio
observed (some balances) portfolio = if is_empty_dict balances then portfolio else balances

-- `raw_response[:500]`
abbrev pub take_text : ℕ → String → String
take_text zero s = ""
take_text (suc n) String.[] = ""
take_text (suc n) (String.◌∷◌ ch s) = String.◌∷◌ ch (take_text n s)

-- `min(seconds, 60)` of a value that was found valid
abbrev pub waited : Json → Json
waited v = elim (as_int v) [ none ↦ v | some n ↦ if ltb_ℤ (pos 60) n then int (pos 60) else v ]

-- what an executed action leaves: the payload's parts, and the mint to count as completed
pub record Outcome : Type 0 where
  pub exec_result : Fields
  pub signature : Option String
  pub snapshot : Option QuoteOption
  pub completed : Option String

abbrev pub swap_failed : String → Outcome
swap_failed message = record {
  exec_result = field "error" (text message) (field "executed" (bool false) end);
  signature = none;
  snapshot = none;
  completed = none;
}

abbrev pub mint_of : Option QuoteOption → String
mint_of none = ""
mint_of (some q) = q.output_mint

abbrev pub swap_done : String → String → Option QuoteOption → Outcome
swap_done quote_id sig quote = record {
  exec_result = field "executed" (bool true) (
      field "in_amount" (int (elim quote [ none ↦ pos 0 | some q ↦ q.in_amount ])) (
        field "input_mint" (text (elim quote [ none ↦ "" | some q ↦ q.input_mint ])) (
          field "out_amount" (int (elim quote [ none ↦ pos 0 | some q ↦ q.out_amount ])) (
            field "output_mint" (text (mint_of quote))
              (field "quote_id" (text quote_id) (field "tx_signature" (text sig) end))))));
  signature = some sig;
  snapshot = quote;
  completed = if nonempty (mint_of quote) then some (mint_of quote) else none;
}

-- the `try` of EXECUTE_SWAP
unfoldable pub execute_swap_action : World → Setting → ℕ → Fields → Outcome
execute_swap_action w set seq params =
    let quote_id = or_default (as_text (get "quote_id" params)) "" in
    let slippage = or_default (get "max_slippage_bps" params) (int (pos 100)) in
    elim (w.prepare_swap_transaction seq quote_id set.wallet_address slippage) [
      | err message ↦ swap_failed message
      | ok tx_bytes ↦ elim (w.sign_and_send_transaction seq set.wallet_id tx_bytes) [
        | err message ↦ swap_failed message
        | ok sig ↦ swap_done quote_id sig (w.cached_quote seq quote_id)
      ]
    ]

abbrev pub execute_action : World → Setting → ℕ → AgentActionType → Fields → Outcome
execute_action w set seq execute_swap params = execute_swap_action w set seq params
execute_action w set seq wait params = record {
  exec_result = field "waited" (waited (or_default (get "seconds" params) (int (pos 5)))) end;
  signature = none;
  snapshot = none;
  completed = none;
}
execute_action w set seq finish params = record {
  exec_result = end;
  signature = none;
  snapshot = none;
  completed = none;
}

abbrev pub with_completed : Option String → List String → List String
with_completed none swaps = swaps
with_completed (some mint) swaps = swaps ++ mint ∷ []

-- `state.iterations_used += 1`
abbrev pub count_iteration : ChallengeState → ChallengeState
count_iteration s = record s { iterations_used = s.iterations_used + 1 }

abbrev pub reason_value : World → Option Reason → Json
reason_value w none = null
reason_value w (some r) = text (w.reason_text r)

abbrev pub details_value : World → Option Reason → Json
details_value w none = null
details_value w (some r) = w.reason_details r

abbrev pub validation_fields : World → AgentAction → ValidationResult → Fields
validation_fields w a v = field "action_type" (text (action_type_text a.type)) (
    field "details" (details_value w v.reason)
      (field "reason" (reason_value w v.reason) (field "valid" (bool v.valid) end)))

abbrev pub validate_payload : {T : Type 0} → World → AgentAction → ValidationResult → Payload T
validate_payload w a v = record no_payload {
  validation_payload = some (obj (validation_fields w a v));
}

-- `await validator.validate(action.model_dump(), validation_state)`
abbrev pub verdict :
    World → Setting → AgentAction → ChallengeState → ℕ → Result TypeError ValidationResult
verdict w set a s seq =
    validate set.validator (w.quotes seq) (to_action a)
      (record { iterations_used = s.iterations_used; iteration_budget = s.iteration_budget })

-- the time and the balances of the pass
abbrev pub observe_stage : World → ChallengeState → ℕ → ChallengeState
observe_stage w s seq = record s {
  elapsed_secs = w.elapsed seq;
  portfolio = observed (w.observe seq) s.portfolio;
}

abbrev pub observe_payload : {T : Type 0} → ChallengeState → Payload T
observe_payload seen = record no_payload { state_snapshot = some (state_json seen) }

abbrev pub budget_payload : {T : Type 0} → String → ℕ → Payload T
budget_payload reason limit =
    result_of (field "limit" (int (pos limit)) (field "reason" (text reason) end))

module _ (c : Codec) (quote_json : QuoteOption → Json) (w : World) (set : Setting) where
  abbrev emit : EventType → Payload c.Text → Log c.Text → Log c.Text
  emit type p log = persist c w set.run_id type p log

  abbrev snapshot_text : Option QuoteOption → Option c.Text
  snapshot_text none = none
  snapshot_text (some q) = some (c.dumps (quote_json q))

  -- EXECUTE and the end of the pass
  unfoldable pub execute_stage : AgentAction → ChallengeState → Log c.Text → Pass c.Text
  unfolding execute_swap_action
  execute_stage a s log =
      let out = execute_action w set log.sequence_no a.type a.params in
      again
        (count_iteration
          (record s { completed_swaps = with_completed out.completed s.completed_swaps }))
        (emit EventType.execute
          (record no_payload {
            execution_payload = some (obj out.exec_result);
            tx_signature = out.signature;
            quote_snapshot_ref = snapshot_text out.snapshot;
          })
          log)

  -- An invalid action is not executed.
  unfoldable pub after_validate :
      AgentAction → ChallengeState → Log c.Text → ValidationResult → Pass c.Text
  unfolding execute_stage
  after_validate a s log v =
      let written = emit EventType.validate (validate_payload w a v) log in
      if v.valid then execute_stage a s written else again (count_iteration s) written

  -- VALIDATE, which fails closed
  abbrev pub on_verdict :
      AgentAction → ChallengeState → Log c.Text → Result TypeError ValidationResult → Pass c.Text
  on_verdict a s log (err e) = crashed w.type_error_text s log
  on_verdict a s log (ok v) = after_validate a s log v

  unfoldable pub validate_stage : AgentAction → ChallengeState → Log c.Text → Pass c.Text
  unfolding after_validate
  validate_stage a s log = on_verdict a s log (verdict w set a s log.sequence_no)

  abbrev pub after_decide :
      AgentAction → ChallengeState → Log c.Text → AgentActionType → Pass c.Text
  after_decide a s log finish = stopped s (emit EventType.finish no_payload log)
  after_decide a s log execute_swap = validate_stage a s log
  after_decide a s log wait = validate_stage a s log

  -- DECIDE
  unfoldable pub decide_stage : ChallengeState → Log c.Text → Decision → Pass c.Text
  unfolding validate_stage
  decide_stage s log (parse_error message raw) = stopped s (
      emit EventType.error
        (result_of
          (field "error" (text message) (field "raw_response" (text (take_text 500 raw)) end)))
        log)
  decide_stage s log (failed message) =
      stopped s (emit EventType.error (result_of (field "error" (text message) end)) log)
  decide_stage s log (act a) =
      after_decide a s
        (emit EventType.decide (record no_payload { action_payload = some (action_json a) }) log)
        a.type

  -- OBSERVE and the budget checks
  unfoldable pub one_pass : ChallengeState → Log c.Text → Pass c.Text
  unfolding decide_stage
  one_pass s log =
      let seen = observe_stage w s log.sequence_no in
      let written = emit EventType.observe (observe_payload seen) log in
      if leb seen.iteration_budget seen.iterations_used
      then stopped seen (
          emit EventType.budget_exceeded (budget_payload "iteration_limit" seen.iteration_budget)
            written)
      else if float_ge seen.elapsed_secs seen.time_budget_secs
      then stopped seen (
          emit EventType.budget_exceeded (budget_payload "time_limit" seen.time_budget_secs)
            written)
      else decide_stage seen written (w.decide written.sequence_no seen)

  -- A pass that neither stopped nor crashed is followed by another.
  abbrev pub go_on :
      (ChallengeState → Log c.Text → Option (Pass c.Text)) → Pass c.Text → Option (Pass c.Text)
  go_on next (stopped s log) = some (stopped s log)
  go_on next (crashed message s log) = some (crashed message s log)
  go_on next (again s log) = next s log

  -- `while True` on fuel; none means that the fuel ran out
  unfoldable pub loop : ℕ → ChallengeState → Log c.Text → Option (Pass c.Text)
  loop zero s log = none
  loop (suc fuel) s log = go_on (λ s' log'. loop fuel s' log') (one_pass s log)
