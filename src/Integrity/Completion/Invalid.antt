-- ===== src/Integrity/Completion/Invalid.antt =====
-- When a run counts as invalid, and the fatal error that does not make it so.
use proof_arena.Base.{
  ℕ, ◌≤◌, ◌<◌, ◌≡◌, ◌≢◌, ◌↔◌, ◌⊎◌, true, false, some, List, [], ◌∷◌, ◌++◌, ◌∙◌, refl, none, arith,
}
use proof_arena.Base.Json.{obj, text, Fields, get, truthy_or}
use proof_arena.Db.{EventType, RunStatus, CompletionStatus}
use proof_arena.Events.{Event, Loads}
use proof_arena.Challenges.{Balances, ChallengeAdapter}
use proof_arena.Integrity.Completion.{
  count_invalid_validations, find_critical_error, evaluate, truthy_value,
}

-- An adapter that leaves the verdict "invalid" to the evaluator, as both adapters do.
abbrev pub NeverInvalid : {T : Type 0} → ChallengeAdapter T → Type 0
NeverInvalid {T} adapter =
    (es : List (Event T)) (balances : Balances)
    → (adapter.validate_completion es balances).status ≢ CompletionStatus.invalid

module _ {T : Type 0} (loads : Loads) where
  -- With an adapter that never says so itself, a run is classified invalid exactly if there were
  -- more than `max` invalid attempts or a fatal error with a message.
  pub evaluate-invalid :
      (adapter : ChallengeAdapter T) (max : ℕ) (run_events : List (Event T))
      (final_balances : Balances) (run_status : RunStatus)
      → NeverInvalid adapter
      → ((evaluate loads adapter max run_events final_balances run_status).status
          ≡ CompletionStatus.invalid)
        ↔ ((max < count_invalid_validations loads run_events)
            ⊎ (truthy_value (find_critical_error loads run_events) ≡ true))
  unfolding evaluate
  evaluate-invalid adapter max run_events final_balances run_status never =
      ground (arith, never run_events final_balances)

  find_critical_error-append :
      (es fs : List (Event T))
      → find_critical_error loads es ≡ none
      → find_critical_error loads (es ++ fs) ≡ find_critical_error loads fs
  unfolding find_critical_error
  find_critical_error-append [] fs h = refl
  find_critical_error-append (e ∷ es) fs h = ground (arith, find_critical_error-append es fs)

  find_critical_error-silent :
      (e : Event T) (fs : Fields) (es : List (Event T))
      → e.event_type ≡ EventType.error
      → e.result_payload_json ≡ some (obj fs)
      → truthy_or (get "fatal" fs) false ≡ true
      → get "error" fs ≡ some (text "")
      → find_critical_error loads (e ∷ es) ≡ some (text "")
  unfolding find_critical_error
  find_critical_error-silent e fs es is_err payload fatal silent = ground arith

  -- A fatal error whose message is the empty text, as `str(e)` is for many exceptions, is not seen:
  -- if no fatal error stands before it and the invalid attempts are within bounds, the run is not
  -- classified invalid.
  pub silent_fatal_not_invalid :
      (adapter : ChallengeAdapter T) (max : ℕ) (before : List (Event T)) (e : Event T) (fs : Fields)
      (after : List (Event T)) (final_balances : Balances) (run_status : RunStatus)
      → NeverInvalid adapter
      → find_critical_error loads before ≡ none
      → e.event_type ≡ EventType.error
      → e.result_payload_json ≡ some (obj fs)
      → truthy_or (get "fatal" fs) false ≡ true
      → get "error" fs ≡ some (text "")
      → count_invalid_validations loads (before ++ e ∷ after) ≤ max
      → (evaluate loads adapter max (before ++ e ∷ after) final_balances run_status).status
        ≢ CompletionStatus.invalid
  unfolding evaluate
  silent_fatal_not_invalid adapter max before e fs after final_balances run_status never clean
        is_err payload fatal silent few =
      let found =
        find_critical_error-append before (e ∷ after) clean
        ∙ find_critical_error-silent e fs after is_err payload fatal silent in
      ground (arith, never (before ++ e ∷ after) final_balances)
