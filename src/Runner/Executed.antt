-- ===== src/Runner/Executed.antt =====
-- `execute_run` returns, and what the run that it returns is.
use proof_arena.Base.{
  ℕ, suc, ◌≤◌, ◌≡◌, ◌⊎◌, ◌≢◌, inl, inr, refl, Option, none, some, arith, String, true, subst, sym,
  or_default, if_cases, if◌then◌else◌, ◌==◌, text_equality,
}
use proof_arena.Base.Json.{Json}
use text.Mathlib.TextEquality.{eq_iff}
use proof_arena.Base.Int.{ℤ}
use proof_arena.Base.Result.{Result, ok, err}
use proof_arena.Db.{Run}
use proof_arena.Events.{Loads}
use proof_arena.Challenges.{ChallengeState, ChallengeConfig, ChallengeAdapter}
use proof_arena.Challenges.Swap as SwapChallenge
use proof_arena.Challenges.Rebalance as RebalanceChallenge
use proof_arena.Services.SwapProtocol.{QuoteOption}
use proof_arena.Services.Serialization.{Codec, RoundTrip}
use proof_arena.Runner.World.{World, Log}
use proof_arena.Runner.Pass.{Pass, stopped, again, crashed, Setting}
use proof_arena.Runner.Execution.{
  RunnerError, missing_starting_usdc, unknown_challenge_type, swap_adapter, adapter_for, empty_log,
  after_loop, closing_stages, setting_of, on_ended, on_adapter, execute_with, execute_run,
  flatten_stage,
}
use proof_arena.Runner.Closing.{finalize_run}
use proof_arena.Runner.Log.{IsLog}
use proof_arena.Runner.Stages.{log_of, error-Sound}
use proof_arena.Runner.Progress.{state_of, loop-Returns}
use proof_arena.Runner.Sealing.{IsSealed, flatten_stage-IsLog, finalize_run-IsSealed}

-- An adapter that starts a run inside its budget of `limit` iterations.
abbrev pub StartsWith : {T : Type 0} → ℕ → ChallengeAdapter T → Type 0
StartsWith limit adapter =
    (address : String)
    → ((adapter.build_initial_state address).iterations_used ≡ 0)
      × ((adapter.build_initial_state address).iteration_budget ≡ limit)

-- What `execute_run` returns when it returns: a completed run and its log, which fit together.
abbrev pub IsFinished : (c : Codec) → ℕ → Result RunnerError (Run × Log c.Text) → Type 0
IsFinished c limit result =
    (run : Run) × (log : Log c.Text) × (result ≡ ok (run, log))
    × IsSealed c run log
    × (run.iterations_used ≤ limit)

-- the iteration budget of a run: its challenge's, or the default of the challenge's type
abbrev pub budget_of : String → ChallengeConfig → ℕ
budget_of challenge_type config =
    or_default config.iteration_budget (if challenge_type == "swap_execution" then 20 else 5)

-- The errors of a run that does not start.
abbrev pub Refuses : ChallengeConfig → Run → RunnerError → Type 0
Refuses config run e =
    ((e ≡ missing_starting_usdc)
      × (run.challenge_type ≡ "swap_execution")
      × (config.starting_usdc ≡ none))
    ⊎ ((e ≡ unknown_challenge_type run.challenge_type)
        × (run.challenge_type ≢ "swap_execution")
        × (run.challenge_type ≢ "rebalance_execution"))

module _ (c : Codec) (rt : RoundTrip c) (quote_json : QuoteOption → Json) (loads : Loads)
    (w : World) where
  after_loop-IsLog :
      (set : Setting) (p : Pass c.Text)
      → IsLog c (log_of p).sequence_no (log_of p)
      → IsLog c (after_loop c w set.run_id p).1.sequence_no (after_loop c w set.run_id p).1
  unfolding after_loop
  after_loop-IsLog set (stopped s log) h = h
  after_loop-IsLog set (again s log) h = h
  after_loop-IsLog set (crashed message s log) h =
      error-Sound c rt quote_json w set _ log refl refl h

  closing_stages-IsSealed :
      (set : Setting) (adapter : ChallengeAdapter c.Text) (usdc : String) (run : Run)
      (ended : ChallengeState × Log c.Text)
      → IsLog c ended.1.sequence_no ended.1
      → IsSealed c
          (closing_stages c quote_json loads w set adapter usdc run ended).0
          (closing_stages c quote_json loads w set adapter usdc run ended).1
  unfolding closing_stages
  closing_stages-IsSealed set adapter usdc run (s, log) h =
      finalize_run-IsSealed c rt w set loads adapter run _ s.iterations_used
        (flatten_stage c w set adapter.should_flatten usdc log)
        (flatten_stage-IsLog c rt w set adapter.should_flatten usdc log h)

  closing_stages-used :
      (set : Setting) (adapter : ChallengeAdapter c.Text) (usdc : String) (run : Run)
      (ended : ChallengeState × Log c.Text)
      → (closing_stages c quote_json loads w set adapter usdc run ended).0.iterations_used
        ≡ ended.0.iterations_used
  unfolding closing_stages finalize_run
  closing_stages-used set adapter usdc run (s, log) = refl

  after_loop-used :
      (run_id : ℕ) (p : Pass c.Text)
      → (after_loop c w run_id p).0.iterations_used ≡ (state_of p).iterations_used
  unfolding after_loop
  after_loop-used run_id (stopped s log) = refl
  after_loop-used run_id (again s log) = refl
  after_loop-used run_id (crashed message s log) = refl

  execute_with-IsFinished :
      (adapter : ChallengeAdapter c.Text) (config : ChallengeConfig) (run : Run) (limit : ℕ)
      → StartsWith limit adapter
      → IsFinished c limit (execute_with c quote_json loads w adapter config run)
  unfolding execute_with
  execute_with-IsFinished adapter config run limit starts =
      let set = setting_of c quote_json loads w run config adapter in
      let state = adapter.build_initial_state set.wallet_address in
      let usdc = or_default config.usdc_mint "" in
      let (p, returned, sound, in_budget) =
        loop-Returns c rt quote_json w set (suc state.iteration_budget) state (empty_log c w)
          (omega (arith, starts set.wallet_address)) (omega arith) (refl, tt, refl, tt, tt) in
      let ended = after_loop c w set.run_id p in
      subst (λ r. IsFinished c limit (on_ended c quote_json loads w adapter config run r))
        (sym returned)
        (
          _,
          _,
          refl,
          closing_stages-IsSealed set adapter usdc _ ended (after_loop-IsLog set p sound),
          omega (
            arith,
            closing_stages-used set adapter usdc _ ended,
            after_loop-used set.run_id p,
            starts set.wallet_address,
          ),
        )

-- what the choice of the adapter comes to
abbrev Chosen :
    {T : Type 0} → ChallengeConfig → Run → Result RunnerError (ChallengeAdapter T) → Type 0
Chosen config run (err e) = Refuses config run e
Chosen config run (ok adapter) = StartsWith (budget_of run.challenge_type config) adapter

module _ (T : Type 0) (config : ChallengeConfig) (run : Run) where
  swap-Chosen :
      run.challenge_type ≡ "swap_execution"
      → (usdc : Option ℤ) → config.starting_usdc ≡ usdc
      → Chosen {T = T} config run (swap_adapter (SwapChallenge.with_starting_usdc config usdc))
  unfolding SwapChallenge.adapter SwapChallenge.build_initial_state
  swap-Chosen e none missing = inl (refl, e, missing)
  swap-Chosen e (some usdc) known =
      let is_swap : (run.challenge_type == "swap_execution") ≡ true =
        (eq_iff run.challenge_type "swap_execution").1 e in
      λ address. (refl, rw is_swap refl)

  adapter_for-Chosen : Chosen {T = T} config run (adapter_for run.challenge_type config)
  unfolding adapter_for RebalanceChallenge.new RebalanceChallenge.adapter
      RebalanceChallenge.build_initial_state SwapChallenge.new
  adapter_for-Chosen =
      if_cases (Chosen {T = T} config run) (run.challenge_type == "swap_execution")
        (λ swap.
          swap-Chosen ((eq_iff run.challenge_type "swap_execution").0 swap) config.starting_usdc
            refl)
        (λ other.
          if_cases (Chosen {T = T} config run) (run.challenge_type == "rebalance_execution")
            (λ rebalance. λ address. (refl, rw other refl))
            (λ unknown. inr (
              refl,
              λ e. absurd (ground (arith, eq_iff run.challenge_type "swap_execution")),
              λ e. absurd (ground (arith, eq_iff run.challenge_type "rebalance_execution")),
            )))

module _ (c : Codec) (rt : RoundTrip c) (quote_json : QuoteOption → Json) (loads : Loads)
    (w : World) where
  on_adapter-Outcome :
      (config : ChallengeConfig) (run : Run) (chosen : Result RunnerError (ChallengeAdapter c.Text))
      → Chosen config run chosen
      → ((e : RunnerError) × (on_adapter c quote_json loads w config run chosen ≡ err e)
          × Refuses config run e)
        ⊎ IsFinished c
            (budget_of run.challenge_type config)
            (on_adapter c quote_json loads w config run chosen)
  on_adapter-Outcome config run (err e) refuses = inl (e, refl, refuses)
  on_adapter-Outcome config run (ok adapter) starts =
      inr (execute_with-IsFinished c rt quote_json loads w adapter config run _ starts)

  pub execute_run-Outcome :
      (config : ChallengeConfig) (run : Run)
      → ((e : RunnerError) × (execute_run c quote_json loads w config run ≡ err e)
          × Refuses config run e)
        ⊎ IsFinished c
            (budget_of run.challenge_type config)
            (execute_run c quote_json loads w config run)
  unfolding execute_run
  execute_run-Outcome config run =
      on_adapter-Outcome config run (adapter_for run.challenge_type config)
        (adapter_for-Chosen c.Text config run)
