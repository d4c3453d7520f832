-- ===== src/Runner/Progress.antt =====
-- How the passes of the loop count: each one that is followed by another uses up an iteration of
-- the budget, so that the loop ends.
use proof_arena.Base.{ℕ, zero, suc, ◌+◌, ◌<◌, ◌≤◌, ◌≡◌, refl, Option, some, arith, leb, if_cases}
use proof_arena.Base.Json.{Json, float_ge}
use proof_arena.Base.Result.{Result, ok, err}
use proof_arena.Challenges.{ChallengeState, AgentActionType, execute_swap, wait, finish}
use proof_arena.Integrity.Validator.{ValidationResult, TypeError}
use proof_arena.Services.SwapProtocol.{QuoteOption}
use proof_arena.Services.Serialization.{Codec, RoundTrip}
use proof_arena.Runner.World.{World, AgentAction, Decision, act, parse_error, failed, Log}
use proof_arena.Runner.Pass.{
  Setting, Pass, stopped, again, crashed, execute_stage, validate_stage, verdict, after_validate,
  on_verdict, observe_stage, after_decide, decide_stage, one_pass, loop, go_on,
}
use proof_arena.Runner.Log.{IsLog}
use proof_arena.Runner.Stages.{log_of, one_pass-Sound}

abbrev pub state_of : {T : Type 0} → Pass T → ChallengeState
state_of (stopped s log) = s
state_of (again s log) = s
state_of (crashed message s log) = s

abbrev pub Advances : {T : Type 0} → ChallengeState → Pass T → Type 0
Advances s (stopped s' log) =
    (s'.iterations_used ≡ s.iterations_used) × (s'.iteration_budget ≡ s.iteration_budget)
Advances s (again s' log) =
    (s'.iterations_used ≡ s.iterations_used + 1) × (s'.iteration_budget ≡ s.iteration_budget)
Advances s (crashed message s' log) =
    (s'.iterations_used ≡ s.iterations_used) × (s'.iteration_budget ≡ s.iteration_budget)

-- Only a run that has iterations left goes on.
abbrev MayGoOn : {T : Type 0} → ChallengeState → Pass T → Type 0
MayGoOn s (again s' log) = s.iterations_used < s.iteration_budget
MayGoOn s _ = Unit

module _ (c : Codec) (quote_json : QuoteOption → Json) (w : World) (set : Setting) where
  after_validate-Advances :
      (a : AgentAction) (s : ChallengeState) (log : Log c.Text) (v : ValidationResult)
      → Advances s (after_validate c quote_json w set a s log v)
  unfolding after_validate execute_stage
  after_validate-Advances a s log v =
      if_cases (Advances s) v.valid (λ valid. (refl, refl)) (λ invalid. (refl, refl))

  validate_stage-Advances :
      (a : AgentAction) (s : ChallengeState) (log : Log c.Text)
      (r : Result TypeError ValidationResult)
      → Advances s (on_verdict c quote_json w set a s log r)
  validate_stage-Advances a s log (ok v) = after_validate-Advances a s log v
  validate_stage-Advances a s log (err e) = (refl, refl)

  after_decide-Advances :
      (a : AgentAction) (s : ChallengeState) (log : Log c.Text) (type : AgentActionType)
      → Advances s (after_decide c quote_json w set a s log type)
  unfolding validate_stage
  after_decide-Advances a s log finish = (refl, refl)
  after_decide-Advances a s log execute_swap =
      validate_stage-Advances a s log (verdict w set a s log.sequence_no)
  after_decide-Advances a s log wait =
      validate_stage-Advances a s log (verdict w set a s log.sequence_no)

  decide_stage-Advances :
      (s : ChallengeState) (log : Log c.Text) (d : Decision)
      → Advances s (decide_stage c quote_json w set s log d)
  unfolding decide_stage
  decide_stage-Advances s log (parse_error message raw) = (refl, refl)
  decide_stage-Advances s log (failed message) = (refl, refl)
  decide_stage-Advances s log (act a) = after_decide-Advances a s _ a.type

  one_pass-Advances :
      (s : ChallengeState) (log : Log c.Text) → Advances s (one_pass c quote_json w set s log)
  unfolding one_pass
  one_pass-Advances s log =
      let seen = observe_stage w s log.sequence_no in
      if_cases (Advances s) (leb seen.iteration_budget seen.iterations_used) (λ used. (refl, refl))
        (λ left.
          if_cases (Advances s) (float_ge seen.elapsed_secs seen.time_budget_secs)
            (λ over. (refl, refl)) (λ in_time. decide_stage-Advances seen _ _))

  may_go_on :
      (s : ChallengeState) (p : Pass c.Text) → s.iterations_used < s.iteration_budget → MayGoOn s p
  may_go_on s (again s' log) h = h
  may_go_on s (stopped s' log) h = tt
  may_go_on s (crashed m s' log) h = tt

  one_pass-MayGoOn :
      (s : ChallengeState) (log : Log c.Text) → MayGoOn s (one_pass c quote_json w set s log)
  unfolding one_pass
  one_pass-MayGoOn s log =
      let seen = observe_stage w s log.sequence_no in
      if_cases (MayGoOn s) (leb seen.iteration_budget seen.iterations_used) (λ used. tt)
        (λ left. may_go_on s _ (ground arith))

-- What a loop returns: a pass that did not go on, with the log sound and the budget kept.
abbrev pub Returns : (c : Codec) → ChallengeState → Option (Pass c.Text) → Type 0
Returns c s result =
    (p : Pass c.Text) × (result ≡ some p)
    × IsLog c (log_of p).sequence_no (log_of p)
    × ((state_of p).iterations_used ≤ s.iteration_budget)

module _ (c : Codec) (rt : RoundTrip c) (quote_json : QuoteOption → Json) (w : World)
    (set : Setting) where
  go_on-Returns :
      (next : ChallengeState → Log c.Text → Option (Pass c.Text)) (s : ChallengeState)
      (p : Pass c.Text)
      → s.iterations_used ≤ s.iteration_budget
      → Advances s p
      → MayGoOn s p
      → IsLog c (log_of p).sequence_no (log_of p)
      → ((s' : ChallengeState) (log' : Log c.Text)
          → s'.iterations_used ≡ s.iterations_used + 1
          → s'.iteration_budget ≡ s.iteration_budget
          → s.iterations_used < s.iteration_budget
          → IsLog c log'.sequence_no log'
          → Returns c s (next s' log'))
      → Returns c s (go_on c quote_json w set next p)
  go_on-Returns next s (stopped s' log') le adv may sound step =
      (stopped s' log', refl, sound, omega (arith, adv))
  go_on-Returns next s (crashed m s' log') le adv may sound step =
      (crashed m s' log', refl, sound, omega (arith, adv))
  go_on-Returns next s (again s' log') le adv may sound step = step s' log' adv.0 adv.1 may sound

  pub loop-Returns :
      (fuel : ℕ) (s : ChallengeState) (log : Log c.Text)
      → s.iterations_used ≤ s.iteration_budget
      → s.iteration_budget < fuel + s.iterations_used
      → IsLog c log.sequence_no log
      → Returns c s (loop c quote_json w set fuel s log)
  unfolding loop
  loop-Returns zero s log le enough sound = absurd (omega arith)
  loop-Returns (suc fuel) s log le enough sound =
      go_on-Returns _ s (one_pass c quote_json w set s log) le
        (one_pass-Advances c quote_json w set s log) (one_pass-MayGoOn c quote_json w set s log)
        (one_pass-Sound c rt quote_json w set s log sound)
        (λ s' log' used budget more sound'.
          let (p, e, good, bound) = loop-Returns fuel s' log' (omega arith) (omega arith) sound' in
          (p, e, good, omega arith))
