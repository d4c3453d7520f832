-- ===== src/Runner/Stages.antt =====
-- Every stage of a pass keeps the log sound.
use proof_arena.Base.{
  inl, inr, ℕ, ◌≡◌, ◌≢◌, refl, ap, true, none, some, arith, leb, if_cases, String,
}
use proof_arena.Base.Json.{Json, Fields, obj, get, bool, truthy, float_ge}
use proof_arena.Base.Result.{Result, ok, err}
use proof_arena.Db.{EventType}
use proof_arena.Challenges.{ChallengeState, AgentActionType, execute_swap, wait, finish}
use proof_arena.Integrity.Validator.{ValidationResult, TypeError}
use proof_arena.Services.SwapProtocol.{QuoteOption}
use proof_arena.Services.Serialization.{Codec, RoundTrip}
use proof_arena.Runner.World.{
  World, AgentAction, Decision, act, parse_error, failed, Log, result_of, persist,
}
use proof_arena.Runner.Pass.{
  Setting, Pass, stopped, again, crashed, execute_swap_action, execute_action, execute_stage,
  validate_stage, validate_payload, validation_fields, verdict, after_validate, on_verdict,
  observe_stage, observe_payload, budget_payload, after_decide, decide_stage, one_pass,
}
use proof_arena.Runner.Log.{
  IsLog, IsApproval, last_from, last_from-snoc, persist-IsLog, kept_of_type, kept_of_error,
}

abbrev pub log_of : {T : Type 0} → Pass T → Log T
log_of (stopped s log) = log
log_of (again s log) = log
log_of (crashed message s log) = log

exec_result_full :
    (w : World) (set : Setting) (seq : ℕ) (type : AgentActionType) (params : Fields)
    → type ≢ finish
    → truthy (obj (execute_action w set seq type params).exec_result) ≡ true
unfolding execute_swap_action
exec_result_full w set seq execute_swap params h = ground arith
exec_result_full w set seq wait params h = refl
exec_result_full w set seq finish params h = absurd (h refl)

module _ (c : Codec) (rt : RoundTrip c) (quote_json : QuoteOption → Json) (w : World)
    (set : Setting) where
  abbrev Sound : Log c.Text → Type 0
  Sound log = IsLog c log.sequence_no log

  execute_stage-Sound :
      (a : AgentAction) (s : ChallengeState) (log : Log c.Text)
      → a.type ≢ finish
      → IsApproval (last_from none log.events)
      → Sound log
      → Sound (log_of (execute_stage c quote_json w set a s log))
  unfolding execute_stage
  execute_stage-Sound a s log h approved sound =
      persist-IsLog c w set.run_id EventType.execute _ log
        (record {
          state_full = tt;
          action_full = tt;
          validation_full = tt;
          execution_full = exec_result_full w set log.sequence_no a.type a.params h;
          result_full = tt;
          kept = kept_of_type c _ refl refl;
        })
        (inr approved) sound

  validate_written-Sound :
      (a : AgentAction) (log : Log c.Text) (v : ValidationResult)
      → Sound log
      → Sound (persist c w set.run_id EventType.validate (validate_payload w a v) log)
  validate_written-Sound a log v sound =
      persist-IsLog c w set.run_id EventType.validate _ log
        (record {
          state_full = tt;
          action_full = tt;
          validation_full = refl;
          execution_full = tt;
          result_full = tt;
          kept = kept_of_type c _ refl refl;
        })
        (inl refl) sound

  IsApproval-written :
      (a : AgentAction) (log : Log c.Text) (v : ValidationResult)
      → v.valid ≡ true
      → IsApproval (
          last_from none
            (persist c w set.run_id EventType.validate (validate_payload w a v) log).events)
  unfolding persist
  IsApproval-written a log v valid =
      rw (last_from-snoc none log.events)
        (refl, (validation_fields w a v, refl, ap (λ b. some (bool b)) valid))

  after_validate-Sound :
      (a : AgentAction) (s : ChallengeState) (log : Log c.Text) (v : ValidationResult)
      → a.type ≢ finish
      → Sound log
      → Sound (log_of (after_validate c quote_json w set a s log v))
  unfolding after_validate
  after_validate-Sound a s log v h sound =
      if_cases (λ p. Sound (log_of p)) v.valid
        (λ valid.
          execute_stage-Sound a s _ h (IsApproval-written a log v valid)
            (validate_written-Sound a log v sound))
        (λ invalid. validate_written-Sound a log v sound)

  on_verdict-Sound :
      (a : AgentAction) (s : ChallengeState) (log : Log c.Text)
      (r : Result TypeError ValidationResult)
      → a.type ≢ finish
      → Sound log
      → Sound (log_of (on_verdict c quote_json w set a s log r))
  on_verdict-Sound a s log (ok v) h sound = after_validate-Sound a s log v h sound
  on_verdict-Sound a s log (err e) h sound = sound

  validate_stage-Sound :
      (a : AgentAction) (s : ChallengeState) (log : Log c.Text)
      → a.type ≢ finish
      → Sound log
      → Sound (log_of (validate_stage c quote_json w set a s log))
  unfolding validate_stage
  validate_stage-Sound a s log h sound =
      on_verdict-Sound a s log (verdict w set a s log.sequence_no) h sound

  pub error-Sound :
      (fs : Fields) (log : Log c.Text)
      → truthy (obj fs) ≡ true
      → get "onchain_finalize_failed" fs ≡ none
      → Sound log
      → Sound (persist c w set.run_id EventType.error (result_of fs) log)
  error-Sound fs log full unmarked sound =
      persist-IsLog c w set.run_id EventType.error _ log
        (record {
          state_full = tt;
          action_full = tt;
          validation_full = tt;
          execution_full = tt;
          result_full = full;
          kept = kept_of_error c rt _ fs refl refl full unmarked;
        })
        (inl refl) sound

  after_decide-Sound :
      (a : AgentAction) (s : ChallengeState) (log : Log c.Text) (type : AgentActionType)
      → a.type ≡ type
      → Sound log
      → Sound (log_of (after_decide c quote_json w set a s log type))
  after_decide-Sound a s log finish e sound =
      persist-IsLog c w set.run_id EventType.finish _ log
        (record {
          state_full = tt;
          action_full = tt;
          validation_full = tt;
          execution_full = tt;
          result_full = tt;
          kept = kept_of_type c _ refl refl;
        })
        (inl refl) sound
  after_decide-Sound a s log execute_swap e sound = validate_stage-Sound a s log (λ h. cc) sound
  after_decide-Sound a s log wait e sound = validate_stage-Sound a s log (λ h. cc) sound

  decide_stage-Sound :
      (s : ChallengeState) (log : Log c.Text) (d : Decision)
      → Sound log
      → Sound (log_of (decide_stage c quote_json w set s log d))
  unfolding decide_stage
  decide_stage-Sound s log (parse_error message raw) sound = error-Sound _ log refl refl sound
  decide_stage-Sound s log (failed message) sound = error-Sound _ log refl refl sound
  decide_stage-Sound s log (act a) sound = after_decide-Sound a s _ a.type refl (
      persist-IsLog c w set.run_id EventType.decide _ log
        (record {
          state_full = tt;
          action_full = refl;
          validation_full = tt;
          execution_full = tt;
          result_full = tt;
          kept = kept_of_type c _ refl refl;
        })
        (inl refl) sound)

  observe_written-Sound :
      (s : ChallengeState) (log : Log c.Text)
      → Sound log
      → Sound (persist c w set.run_id EventType.observe (observe_payload s) log)
  observe_written-Sound s log sound =
      persist-IsLog c w set.run_id EventType.observe _ log
        (record {
          state_full = refl;
          action_full = tt;
          validation_full = tt;
          execution_full = tt;
          result_full = tt;
          kept = kept_of_type c _ refl refl;
        })
        (inl refl) sound

  budget-Sound :
      (reason : String) (limit : ℕ) (log : Log c.Text)
      → Sound log
      → Sound (persist c w set.run_id EventType.budget_exceeded (budget_payload reason limit) log)
  budget-Sound reason limit log sound =
      persist-IsLog c w set.run_id EventType.budget_exceeded _ log
        (record {
          state_full = tt;
          action_full = tt;
          validation_full = tt;
          execution_full = tt;
          result_full = refl;
          kept = kept_of_type c _ refl refl;
        })
        (inl refl) sound

  pub one_pass-Sound :
      (s : ChallengeState) (log : Log c.Text)
      → Sound log
      → Sound (log_of (one_pass c quote_json w set s log))
  unfolding one_pass
  one_pass-Sound s log sound =
      let seen = observe_stage w s log.sequence_no in
      let written = observe_written-Sound seen log sound in
      if_cases (λ p. Sound (log_of p)) (leb seen.iteration_budget seen.iterations_used)
        (λ used. budget-Sound "iteration_limit" seen.iteration_budget _ written)
        (λ left.
          if_cases (λ p. Sound (log_of p)) (float_ge seen.elapsed_secs seen.time_budget_secs)
            (λ over. budget-Sound "time_limit" seen.time_budget_secs _ written)
            (λ in_time. decide_stage-Sound seen _ _ written))
