-- ===== src/Integrity/Completion/Swap.antt =====
-- When a swap run counts as complete.
use proof_arena.Base.{
  ℕ, ◌≤◌, String, ◌≡◌, ◌≢◌, refl, ◌↔◌, ◌⊎◌, false, not, none, List, [], ◌∷◌, arith, filter, All, In,
  contains, contains_iff, text_equality,
}
use text.Mathlib.TextEquality.{eq_iff}
use proof_arena.Base.Int.{pos, ◌≤ℤ◌}
use proof_arena.Db.{RunStatus, CompletionStatus}
use proof_arena.Events.{Event, Loads}
use proof_arena.Challenges.{Balances}
use proof_arena.Challenges.Swap.{
  SwapExecutionChallenge, completed_mints, unflattened, validate_completion, adapter,
}
use proof_arena.Integrity.Completion.{
  count_invalid_validations, find_critical_error, find_budget_exceeded, evaluate, truthy_value,
}

-- Every required swap was executed, and nothing but USDC is left.
abbrev pub IsDone : {T : Type 0} → SwapExecutionChallenge → List (Event T) → Balances → Type 0
IsDone c run_events final_balances =
    All (λ m. In m (completed_mints run_events)) c.swap_intents
    × All (λ entry. (entry.0 ≡ c.usdc_mint) ⊎ (entry.1 ≤ℤ pos 0)) final_balances

unflattened_iff :
    (usdc : String) (balances : Balances)
    → (unflattened usdc balances ≡ none)
      ↔ All (λ entry. (entry.0 ≡ usdc) ⊎ (entry.1 ≤ℤ pos 0)) balances
unfolding unflattened
unflattened_iff usdc [] = (λ h. tt, λ h. refl)
unflattened_iff usdc ((mint, balance) ∷ rest) =
    ground (arith, eq_iff mint usdc, unflattened_iff usdc rest)

missing_iff :
    (completed intents : List String)
    → (filter (λ m. not (contains m completed)) intents ≡ []) ↔ All (λ m. In m completed) intents
missing_iff completed [] = (λ h. tt, λ h. refl)
missing_iff completed (m ∷ intents) =
    ground (arith, contains_iff m completed, missing_iff completed intents)

validate_completion-complete :
    {T : Type 0} (c : SwapExecutionChallenge) (run_events : List (Event T))
    (final_balances : Balances)
    → ((validate_completion c run_events final_balances).status ≡ CompletionStatus.complete)
      ↔ IsDone c run_events final_balances
unfolding validate_completion
validate_completion-complete c run_events final_balances = ground (
  arith,
  unflattened_iff c.usdc_mint final_balances,
  missing_iff (completed_mints run_events) c.swap_intents,
)

module _ {T : Type 0} (loads : Loads) where
  -- A swap run is classified complete exactly if there were no more than `max` invalid attempts, no
  -- fatal error with a message, no timeout and no exceeded budget, each required mint is the output
  -- of an executed swap, and no balance but that of USDC is above 0.
  pub evaluate-complete :
      (c : SwapExecutionChallenge) (max : ℕ) (run_events : List (Event T))
      (final_balances : Balances) (run_status : RunStatus)
      → ((evaluate loads (adapter c) max run_events final_balances run_status).status
          ≡ CompletionStatus.complete)
        ↔ ((count_invalid_validations loads run_events ≤ max)
            × (truthy_value (find_critical_error loads run_events) ≡ false)
            × (run_status ≢ RunStatus.timeout)
            × (truthy_value (find_budget_exceeded loads run_events) ≡ false)
            × IsDone c run_events final_balances)
  unfolding evaluate adapter
  evaluate-complete c max run_events final_balances run_status =
      let done = validate_completion-complete c run_events final_balances in
      (
        λ h. (ground arith, ground arith, ground arith, ground arith, done.0 (ground arith)),
        λ h. ground (arith, done.1 (h.4)),
      )
