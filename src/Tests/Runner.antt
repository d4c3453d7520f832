-- ===== src/Tests/Runner.antt =====
-- A run that swaps once and ends, from its first event to its audit.
use proof_arena.Base.{
  ◌≡◌, ◌↔◌, ◌≤◌, ◌⊎◌, refl, String, List, [], ◌∷◌, none, some, map, In, arith, inl, inr, Bool-cases,
  ◌==◌, text_equality,
}
use mathlib.Core.HLevel.{Discrete}
use native.Mathlib.Decide.{ℕ_discrete}
use proof_arena.Base.Json.{Json}
use proof_arena.Base.Result.{Result, ok, err}
use proof_arena.Base.Sorting.{sorted}
use proof_arena.Db.{
  Run, RunStatus, CompletionStatus, VerificationArtifact, get_challenge, get_agent,
}
use proof_arena.Events.{Loads}
use proof_arena.Integrity.Audit.{ArtifactTexts, generate_run_log_hash, create_audit_trail}
use proof_arena.Services.SwapProtocol.{QuoteOption}
use proof_arena.Services.Serialization.{event_json, by_sequence}
use proof_arena.Runner.World.{Log}
use proof_arena.Runner.Execution.{RunnerError, execute_run}
use proof_arena.Runner.Log.{Guarded}
use proof_arena.Runner.Executed.{Refuses, budget_of}
use proof_arena.Runner.Audited.{
  evidence, execute_run-returns, run_log_hash-generate, evidence-Guarded, create_audit_trail-passes,
}
use proof_arena.Runner.Classified.{CountsAsInvalid, execute_run-invalid_iff}
use proof_arena.Runner.Tampering.{IsCollision, event_bytes, generate_run_log_hash-tamper}
use proof_arena.Tests.Data.{
  codec, round_trip, self_delimiting, world, config, fresh_run, agent, challenge, store,
}

abbrev quote_json : QuoteOption → Json
quote_json q = Json.text q.quote_id

abbrev loads : Loads
loads s = none

abbrev executed : Result RunnerError (Run × Log Json)
executed = execute_run codec quote_json loads world config fresh_run

abbrev run_part : Result RunnerError (Run × Log Json) → Run
run_part (ok (run, log)) = run
run_part (err e) = fresh_run

abbrev log_part : Result RunnerError (Run × Log Json) → Log Json
log_part (ok (run, log)) = log
log_part (err e) = record { sequence_no = 0; events = []; rows = [] }

abbrev done : Run
done = run_part executed

abbrev log : Log Json
log = log_part executed

ran : execute_run codec quote_json loads world config fresh_run ≡ ok (done, log)
unfolding execute_run proof_arena.Challenges.Swap.new proof_arena.Runner.Pass.loop
    proof_arena.Runner.Pass.one_pass proof_arena.Challenges.Swap.adapter
    proof_arena.Challenges.Swap.build_initial_state proof_arena.Runner.World.persist
    proof_arena.Integrity.Validator.validate proof_arena.Integrity.Validator.new
    proof_arena.Integrity.Validator.validate_swap
ran = refl

execute_run-returns_example :
    ((e : RunnerError) × (execute_run codec quote_json loads world config fresh_run ≡ err e)
      × Refuses config fresh_run e)
    ⊎ ((done : Run) × (log : Log Json) × (execute_run codec quote_json loads world config fresh_run
          ≡ ok (done, log))
        × (done.status ≡ RunStatus.completed)
        × (done.iterations_used ≤ budget_of fresh_run.challenge_type config))
execute_run-returns_example =
    execute_run-returns codec round_trip quote_json loads world config fresh_run

run_log_hash-generate_example : done.run_log_hash ≡ some (generate_run_log_hash codec log.rows)
run_log_hash-generate_example =
    run_log_hash-generate codec round_trip quote_json loads world config fresh_run done log ran

execute_run-invalid_iff_example :
    (done.completion_status ≡ some CompletionStatus.invalid) ↔ CountsAsInvalid loads log.events
execute_run-invalid_iff_example =
    execute_run-invalid_iff codec quote_json loads world config fresh_run done log ran

evidence-Guarded_example : Guarded none (evidence codec log.rows)
evidence-Guarded_example =
    evidence-Guarded codec round_trip quote_json loads world config fresh_run done log ran

abbrev texts : ArtifactTexts Json
texts = record {
  challenge_ref = λ n. "challenge:1";
  agent_ref = λ n. "agent:4";
  run_ref = λ n. "run:7";
  quote_set = λ qs. "[]";
  tx_receipt = λ sigs. "[]";
  digest = λ s. s;
}

has_challenge : get_challenge store done.challenge_id ≡ some challenge
unfolding execute_run proof_arena.Challenges.Swap.new proof_arena.Runner.Pass.loop
    proof_arena.Runner.Pass.one_pass proof_arena.Challenges.Swap.adapter
    proof_arena.Challenges.Swap.build_initial_state proof_arena.Runner.World.persist
    proof_arena.Integrity.Validator.validate proof_arena.Integrity.Validator.new
    proof_arena.Integrity.Validator.validate_swap proof_arena.Runner.Closing.finalize_run
has_challenge = refl

has_agent : get_agent store done.agent_id ≡ some agent
unfolding execute_run proof_arena.Challenges.Swap.new proof_arena.Runner.Pass.loop
    proof_arena.Runner.Pass.one_pass proof_arena.Challenges.Swap.adapter
    proof_arena.Challenges.Swap.build_initial_state proof_arena.Runner.World.persist
    proof_arena.Integrity.Validator.validate proof_arena.Integrity.Validator.new
    proof_arena.Integrity.Validator.validate_swap proof_arena.Runner.Closing.finalize_run
has_agent = refl

create_audit_trail-passes_example :
    (artifacts : List VerificationArtifact) × (create_audit_trail codec texts store done log.rows
      ≡ ok artifacts)
    × (map (λ (a : VerificationArtifact). a.artifact_type) artifacts
        ≡ "challenge_config" ∷ "submission_hash" ∷ "quote_set" ∷ "tx_receipt" ∷ "audit_log_hash"
          ∷ [])
    × ((a : VerificationArtifact) × In a artifacts
        × (a.artifact_type ≡ "audit_log_hash")
        × (some a.content_hash ≡ done.run_log_hash))
create_audit_trail-passes_example =
    create_audit_trail-passes codec round_trip quote_json loads world config fresh_run texts store
      done log challenge agent ran has_challenge has_agent

string_discrete : Discrete String
string_discrete s t = elim (Bool-cases (s == t)) [
  | inl same ↦ yes ((text_equality.same_iff s t).0 same)
  | inr other ↦ no (λ e. absurd (ground (arith, text_equality.same_iff s t)))
]

json_discrete : Discrete Json
json_discrete = hlevel (ℕ_discrete, string_discrete)

same_hash : done.run_log_hash ≡ some (generate_run_log_hash codec log.rows)
same_hash =
    run_log_hash-generate codec round_trip quote_json loads world config fresh_run done log ran

generate_run_log_hash-tamper_example :
    (map (event_json codec) (sorted (by_sequence codec) (evidence codec log.rows))
      ≡ map (event_json codec) log.events)
    ⊎ IsCollision codec
        (event_bytes codec (sorted (by_sequence codec) (evidence codec log.rows)))
        (event_bytes codec log.events)
generate_run_log_hash-tamper_example =
    generate_run_log_hash-tamper codec round_trip self_delimiting json_discrete quote_json loads
      world config fresh_run done log log.rows ran same_hash
