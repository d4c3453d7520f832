-- ===== src/Runner/Execution.antt =====
-- `execute_run`: the loop, the handler of a fatal error, flattening and finalizing.
use proof_arena.Base.{
  ℕ, suc, ◌+◌, String, Bool, true, Option, none, some, [], ◌==◌, text_equality, if◌then◌else◌,
  or_default,
}
use proof_arena.Base.Json.{Json, text, bool, field, end}
use proof_arena.Base.Result.{Result, ok, err}
use proof_arena.Db.{EventType, RunStatus, Run}
use proof_arena.Events.{Loads}
use proof_arena.Challenges.{ChallengeState, ChallengeConfig, ChallengeAdapter}
use proof_arena.Challenges.Swap as SwapChallenge
use proof_arena.Challenges.Rebalance as RebalanceChallenge
use proof_arena.Services.SwapProtocol.{QuoteOption}
use proof_arena.Integrity.Validator as Validator
use proof_arena.Services.Serialization.{Codec}
use proof_arena.Runner.World.{World, Log, Payload, result_of, persist}
use proof_arena.Runner.Pass.{Setting, Pass, stopped, again, crashed, loop}
use proof_arena.Runner.Closing.{flatten_to_usdc, finalize_run}

pub data RunnerError : Type 0 where
  unknown_challenge_type : String → RunnerError
  missing_starting_usdc out_of_fuel : RunnerError

-- the adapter of a swap challenge that could be made
abbrev pub swap_adapter :
    {T : Type 0}
    → Option SwapChallenge.SwapExecutionChallenge
    → Result RunnerError (ChallengeAdapter T)
swap_adapter none = err missing_starting_usdc
swap_adapter (some challenge) = ok (SwapChallenge.adapter challenge)

-- `CHALLENGE_ADAPTERS[run.challenge_type](config)`
unfoldable pub adapter_for :
    {T : Type 0} → String → ChallengeConfig → Result RunnerError (ChallengeAdapter T)
adapter_for challenge_type config =
    if challenge_type == "swap_execution"
    then swap_adapter (SwapChallenge.new config)
    else if challenge_type == "rebalance_execution"
    then ok (RebalanceChallenge.adapter (RebalanceChallenge.new config))
    else err (unknown_challenge_type challenge_type)

-- `adapter.should_flatten()` and `sequence_no += flatten_results["next_sequence_no"]`
abbrev pub count_on : {T : Type 0} → ℕ → Log T × ℕ → Log T
count_on seq (log, next) = record log { sequence_no = seq + next }

module _ (c : Codec) (w : World) where
  abbrev pub empty_log : Log c.Text
  empty_log = record { sequence_no = 0; events = []; rows = [] }

  abbrev pub fatal_payload : String → Payload c.Text
  fatal_payload message = result_of (field "error" (text message) (field "fatal" (bool true) end))

  -- what the loop leaves: a fatal error is one more event
  unfoldable pub after_loop : ℕ → Pass c.Text → ChallengeState × Log c.Text
  after_loop run_id (stopped s log) = (s, log)
  after_loop run_id (again s log) = (s, log)
  after_loop run_id (crashed message s log) =
      (s, persist c w run_id EventType.error (fatal_payload message) log)

  unfoldable pub flatten_stage : Setting → Bool → String → Log c.Text → Log c.Text
  flatten_stage set should_flatten usdc log =
      if should_flatten
      then count_on log.sequence_no (flatten_to_usdc c w set usdc log.sequence_no log)
      else log

module _ (c : Codec) (quote_json : QuoteOption → Json) (loads : Loads) (w : World) where
  -- from the end of the loop on
  unfoldable pub closing_stages :
      Setting
      → ChallengeAdapter c.Text
      → String
      → Run
      → ChallengeState × Log c.Text
      → Run × Log c.Text
  unfolding flatten_stage
  closing_stages set adapter usdc run (s, log) =
      let flat = flatten_stage c w set adapter.should_flatten usdc log in
      finalize_run c w set loads adapter run flat.sequence_no s.iterations_used flat

  abbrev pub setting_of : Run → ChallengeConfig → ChallengeAdapter c.Text → Setting
  setting_of run config adapter = record {
    run_id = run.run_id;
    wallet_address = or_default run.benchmark_wallet_address "";
    wallet_id = or_default run.benchmark_wallet_ref "";
    validator = Validator.new config adapter.allowed_action_types;
  }

  -- what follows the loop, if the fuel was enough
  abbrev pub on_ended :
      ChallengeAdapter c.Text
      → ChallengeConfig
      → Run
      → Option (Pass c.Text)
      → Result RunnerError (Run × Log c.Text)
  on_ended adapter config run none = err out_of_fuel
  on_ended adapter config run (some ended) = ok (
      closing_stages (setting_of run config adapter) adapter (or_default config.usdc_mint "")
        (record run { status = RunStatus.running; started_at = some w.started_at })
        (after_loop c w run.run_id ended))

  -- the run with its adapter at hand; the fuel is one pass more than the budget has iterations
  unfoldable pub execute_with :
      ChallengeAdapter c.Text → ChallengeConfig → Run → Result RunnerError (Run × Log c.Text)
  unfolding after_loop closing_stages
  execute_with adapter config run =
      let set = setting_of run config adapter in
      let state = adapter.build_initial_state set.wallet_address in
      on_ended adapter config run
        (loop c quote_json w set (suc state.iteration_budget) state (empty_log c w))

  abbrev pub on_adapter :
      ChallengeConfig
      → Run
      → Result RunnerError (ChallengeAdapter c.Text)
      → Result RunnerError (Run × Log c.Text)
  on_adapter config run (err e) = err e
  on_adapter config run (ok adapter) = execute_with adapter config run

  unfoldable pub execute_run : ChallengeConfig → Run → Result RunnerError (Run × Log c.Text)
  unfolding adapter_for execute_with
  execute_run config run = on_adapter config run (adapter_for run.challenge_type config)
