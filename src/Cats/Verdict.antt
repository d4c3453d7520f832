-- ===== src/Cats/Verdict.antt =====
-- What the Wallet Safety Cat's verdict says of a run.
use proof_arena.Base.{
  ℕ, ◌≡◌, ◌⊎◌, inl, inr, refl, subst, true, false, not, Option, none, some, List, [], ◌∷◌, map,
  String, filter,
}
use proof_arena.Base.Result.{ok, Result-cases}
use proof_arena.Db.{Run, Agent, AgentInstance, RunInvalidReason, Store}
use proof_arena.Cats.{
  Bridge, WalletSafetyCatResponse, WalletSafetyCheck, reason_to_check, compose, judge,
  resolve_run_and_instance, compute_wallet_safety_cat,
}

-- the check that a run's invalid reason fails, if it is one of wallet safety
abbrev pub failed_check : Option RunInvalidReason → Option String
failed_check none = none
failed_check (some reason) = reason_to_check reason

abbrev pub failing_checks : WalletSafetyCatResponse → List String
failing_checks r =
    map (λ (k : WalletSafetyCheck). k.check_id)
      (filter (λ (k : WalletSafetyCheck). not k.passes) r.checks)

-- a verdict "pass" on a run with this invalid reason
abbrev pub Passes : Option RunInvalidReason → WalletSafetyCatResponse → Type 0
Passes reason r =
    (failed_check reason ≡ none)
    × (r.passes ≡ true)
    × (r.reason ≡ none)
    × (r.off_scope_invalid_reason ≡ reason)
    × (failing_checks r ≡ [])

abbrev pub FailsAt : String → Option RunInvalidReason → WalletSafetyCatResponse → Type 0
FailsAt check reason r =
    (failed_check reason ≡ some check)
    × (r.passes ≡ false)
    × (r.reason ≡ reason)
    × (r.off_scope_invalid_reason ≡ none)
    × (failing_checks r ≡ check ∷ [])

abbrev pub IsJudged : Option RunInvalidReason → WalletSafetyCatResponse → Type 0
IsJudged reason r = Passes reason r ⊎ ((check : String) × FailsAt check reason r)

module _ (critique_for : RunInvalidReason → String) (run : Run) (agent : Agent)
    (instance' : AgentInstance) where
  judge-IsJudged :
      (reason : Option RunInvalidReason)
      → IsJudged reason (judge critique_for run agent instance' reason)
  unfolding compose
  judge-IsJudged none = inl (refl, refl, refl, refl, refl)
  judge-IsJudged (some RunInvalidReason.mainnet_guard_triggered) =
      inr (_, (refl, refl, refl, refl, refl))
  judge-IsJudged (some RunInvalidReason.wallet_policy_rejected) =
      inr (_, (refl, refl, refl, refl, refl))
  judge-IsJudged (some RunInvalidReason.authorization_signature_rejected) =
      inr (_, (refl, refl, refl, refl, refl))
  judge-IsJudged (some RunInvalidReason.hosted_wallet_unavailable) =
      inr (_, (refl, refl, refl, refl, refl))
  judge-IsJudged (some RunInvalidReason.invalid_action_attempts_exceeded) =
      inr (_, (refl, refl, refl, refl, refl))
  judge-IsJudged (some _) = inl (refl, refl, refl, refl, refl)

-- A verdict that is given fails exactly for a run whose invalid reason is one of wallet safety. It
-- then names that reason, and of the ten checks the one of that reason alone fails. Otherwise every
-- check passes, and an invalid reason of another kind is reported as off scope.
pub compute_wallet_safety_cat-judges :
    (bridge : Bridge) (critique_for : RunInvalidReason → String) (db : Store) (run_id : ℕ)
    {r : WalletSafetyCatResponse}
    → compute_wallet_safety_cat bridge critique_for db run_id ≡ ok r
    → (run : Run) × (agent : Agent) × (inst : AgentInstance) × (resolve_run_and_instance bridge db
          run_id
        ≡ ok (run, agent, inst))
      × IsJudged run.invalid_reason r
unfolding compute_wallet_safety_cat
compute_wallet_safety_cat-judges bridge critique_for db run_id {r} h =
    elim (Result-cases (resolve_run_and_instance bridge db run_id)) [
      | inr (e, refused) ↦ absurd (cc)
      | inl ((run, agent, inst), resolved) ↦
          let same : judge critique_for run agent inst run.invalid_reason ≡ r = cc in
          (
            run,
            agent,
            inst,
            resolved,
            subst (IsJudged run.invalid_reason) same
                (judge-IsJudged critique_for run agent inst run.invalid_reason),
          )
    ]
