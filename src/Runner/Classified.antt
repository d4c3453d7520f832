-- ===== src/Runner/Classified.antt =====
-- How a run that `execute_run` returns is classified, read off its own log.
use proof_arena.Base.{
  ℕ, ◌+◌, ◌≡◌, ◌↔◌, ◌⊎◌, ◌<◌, refl, ap, subst, String, true, Option, none, some, List, [], ◌∷◌,
  ◌++◌, arith, if_cases, or_default, ◌==◌, text_equality,
}
use mathlib.Core.Option.{some-injective}
use proof_arena.Base.Int.{ℤ}
use proof_arena.Base.Json.{Json}
use proof_arena.Base.Result.{Result, ok, err}
use proof_arena.Db.{EventType, CompletionStatus, Run, RunStatus}
use proof_arena.Events.{Event, Loads}
use proof_arena.Challenges.{Balances, ChallengeAdapter, ChallengeConfig}
use proof_arena.Challenges.Swap as SwapChallenge
use proof_arena.Challenges.Rebalance as RebalanceChallenge
use proof_arena.Services.SwapProtocol.{QuoteOption}
use proof_arena.Services.Serialization.{Codec}
use proof_arena.Integrity.Completion.{
  max_invalid_attempts, count_invalid_validations, find_critical_error, truthy_value, evaluate,
}
use proof_arena.Integrity.Completion.Invalid.{NeverInvalid, evaluate-invalid}
use proof_arena.Runner.World.{World, Log, persist_at, persist_outside}
use proof_arena.Runner.Pass.{Setting, Pass}
use proof_arena.Runner.Closing.{
  variant_text, onchain_event, finalize_payload, finalize_onchain, finalize_run,
}
use proof_arena.Runner.Execution.{
  RunnerError, swap_adapter, adapter_for, closing_stages, on_ended, execute_with, on_adapter,
  execute_run,
}

-- the verdict "invalid" on a log of events
abbrev pub CountsAsInvalid : {T : Type 0} → Loads → List (Event T) → Type 0
CountsAsInvalid loads events =
    (max_invalid_attempts < count_invalid_validations loads events)
    ⊎ (truthy_value (find_critical_error loads events) ≡ true)

-- an event that finalizes changes neither count
module _ {T : Type 0} (loads : Loads) (e : Event T) (h : e.event_type ≡ EventType.finalize) where
  count_invalid_validations-finalize :
      (es : List (Event T))
      → count_invalid_validations loads (es ++ e ∷ []) ≡ count_invalid_validations loads es
  unfolding count_invalid_validations
  count_invalid_validations-finalize [] = rw h refl
  count_invalid_validations-finalize (x ∷ es) = rw (count_invalid_validations-finalize es) refl

  find_critical_error-finalize :
      (es : List (Event T))
      → find_critical_error loads (es ++ e ∷ []) ≡ find_critical_error loads es
  unfolding find_critical_error
  find_critical_error-finalize [] = rw h refl
  find_critical_error-finalize (x ∷ es) = rw (find_critical_error-finalize es) refl

-- an adapter that could be made leaves "invalid" to the evaluator
abbrev pub NeverInvalidResult : {T : Type 0} → Result RunnerError (ChallengeAdapter T) → Type 0
NeverInvalidResult (err e) = Unit
NeverInvalidResult (ok adapter) = NeverInvalid adapter

swap-NeverInvalid :
    {T : Type 0} (challenge : SwapChallenge.SwapExecutionChallenge)
    → NeverInvalid {T = T} (SwapChallenge.adapter challenge)
unfolding SwapChallenge.adapter SwapChallenge.validate_completion
swap-NeverInvalid challenge es balances = ground arith

rebalance-NeverInvalid :
    {T : Type 0} (challenge : RebalanceChallenge.RebalanceExecutionChallenge)
    → NeverInvalid {T = T} (RebalanceChallenge.adapter challenge)
unfolding RebalanceChallenge.adapter RebalanceChallenge.validate_completion
rebalance-NeverInvalid challenge [] balances = ground arith
rebalance-NeverInvalid challenge (e ∷ es) balances =
    ground (arith, rebalance-NeverInvalid challenge es balances)

swap_adapter-NeverInvalid :
    (T : Type 0) (o : Option SwapChallenge.SwapExecutionChallenge)
    → NeverInvalidResult {T = T} (swap_adapter o)
swap_adapter-NeverInvalid T none = tt
swap_adapter-NeverInvalid T (some challenge) = swap-NeverInvalid challenge

adapter_for-NeverInvalid :
    (T : Type 0) (challenge_type : String) (config : ChallengeConfig)
    → NeverInvalidResult {T = T} (adapter_for challenge_type config)
unfolding adapter_for
adapter_for-NeverInvalid T challenge_type config =
    if_cases (NeverInvalidResult {T = T}) (challenge_type == "swap_execution")
      (λ swap. swap_adapter-NeverInvalid T (SwapChallenge.new config))
      (λ other.
        if_cases (NeverInvalidResult {T = T}) (challenge_type == "rebalance_execution")
          (λ rebalance. rebalance-NeverInvalid (RebalanceChallenge.new config)) (λ unknown. tt))

module _ (c : Codec) (quote_json : QuoteOption → Json) (loads : Loads) (w : World) where
  onchain_event-events :
      (set : Setting) (run_log_hash : String) (next : ℕ) (log : Log c.Text)
      (r : Result String String)
      → (onchain_event c w set run_log_hash next log r).events ≡ log.events
  unfolding onchain_event persist_outside
  onchain_event-events set run_log_hash next log (ok sig) = refl
  onchain_event-events set run_log_hash next log (err message) = refl

  -- a run with its log, classified by what the log says
  abbrev pub IsJudged : Run × Log c.Text → Type 0
  IsJudged r =
      (r.0.completion_status ≡ some CompletionStatus.invalid) ↔ CountsAsInvalid loads r.1.events

  abbrev pub IsJudgedResult : Result RunnerError (Run × Log c.Text) → Type 0
  IsJudgedResult (err e) = Unit
  IsJudgedResult (ok r) = IsJudged r

  finalize_onchain-events :
      (set : Setting) (program : Option (ℤ → String → String → ℕ → Result String String))
      (ending_value : ℤ) (hash : String) (status : CompletionStatus) (used next : ℕ)
      (log : Log c.Text)
      → (finalize_onchain c w set program ending_value hash status used next log).events
        ≡ log.events
  unfolding finalize_onchain
  finalize_onchain-events set none ending_value hash status used next log = refl
  finalize_onchain-events set (some finalize) ending_value hash status used next log =
      onchain_event-events set hash next log (finalize ending_value hash (variant_text status) used)

  -- the events of the log end with the one that finalizes, which counts for nothing
  judged_last :
      (adapter : ChallengeAdapter c.Text) (balances : Balances) (status : RunStatus)
      (before events : List (Event c.Text)) (e : Event c.Text)
      → NeverInvalid adapter
      → e.event_type ≡ EventType.finalize
      → events ≡ before ++ e ∷ []
      → (some (evaluate loads adapter max_invalid_attempts before balances status).status
          ≡ some CompletionStatus.invalid)
        ↔ CountsAsInvalid loads events
  judged_last adapter balances status before events e never is_finalize ends =
      let (only_if, then') =
        evaluate-invalid loads adapter max_invalid_attempts before balances status never in
      rw
        (
          ends,
          count_invalid_validations-finalize loads e is_finalize before,
          find_critical_error-finalize loads e is_finalize before,
        )
        (λ invalid. only_if (some-injective _ _ invalid), λ counts. ap some (then' counts))

  finalize_run-IsJudged :
      (set : Setting) (adapter : ChallengeAdapter c.Text) (run : Run) (seq used : ℕ)
      (log : Log c.Text)
      → NeverInvalid adapter
      → IsJudged (finalize_run c w set loads adapter run seq used log)
  unfolding finalize_run persist_at
  finalize_run-IsJudged set adapter run seq used log never =
      judged_last adapter (or_default w.final_balances []) run.status log.events _ _ never refl (
        finalize_onchain-events set w.program _ _ _ used (seq + 1) (
          persist_at c w set.run_id seq EventType.finalize
            (finalize_payload c w set
              (adapter.compute_ending_value run (or_default w.final_balances []))
              (evaluate loads adapter max_invalid_attempts log.events
                (or_default w.final_balances []) run.status)
              used)
            log))

  on_ended-IsJudged :
      (adapter : ChallengeAdapter c.Text) (config : ChallengeConfig) (run : Run)
      (ended : Option (Pass c.Text))
      → NeverInvalid adapter
      → IsJudgedResult (on_ended c quote_json loads w adapter config run ended)
  unfolding closing_stages
  on_ended-IsJudged adapter config run none never = tt
  on_ended-IsJudged adapter config run (some ended) never =
      finalize_run-IsJudged _ adapter _ _ _ _ never

  on_adapter-IsJudged :
      (config : ChallengeConfig) (run : Run) (chosen : Result RunnerError (ChallengeAdapter c.Text))
      → NeverInvalidResult chosen
      → IsJudgedResult (on_adapter c quote_json loads w config run chosen)
  unfolding execute_with
  on_adapter-IsJudged config run (err e) never = tt
  on_adapter-IsJudged config run (ok adapter) never = on_ended-IsJudged adapter config run _ never

  -- A run that `execute_run` returns, of either type of challenge, is classified invalid exactly if
  -- the events of its own log, the finalizing one included, show more invalid attempts than are
  -- allowed or a fatal error with a message.
  pub execute_run-invalid_iff :
      (config : ChallengeConfig) (run done : Run) (log : Log c.Text)
      → execute_run c quote_json loads w config run ≡ ok (done, log)
      → (done.completion_status ≡ some CompletionStatus.invalid) ↔ CountsAsInvalid loads log.events
  unfolding execute_run
  execute_run-invalid_iff config run done log h = subst IsJudgedResult h (
      on_adapter-IsJudged config run (adapter_for run.challenge_type config)
        (adapter_for-NeverInvalid c.Text run.challenge_type config))
