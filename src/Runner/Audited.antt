-- ===== src/Runner/Audited.antt =====
-- A run that `execute_run` returns stands the audit of run_auditor.py.
use proof_arena.Base.{
  ◌≤◌, ◌≡◌, ◌⊎◌, inl, inr, refl, subst, none, some, List, [], ◌∷◌, map, filter, In, eq_refl_true,
  text_equality,
}
use proof_arena.Base.Json.{Json}
use proof_arena.Base.Result.{ok, err}
use proof_arena.Base.Sorting.{Ascending, sorted}
use proof_arena.Db.{
  Run, RunEvent, RunStatus, Challenge, Agent, VerificationArtifact, Store, get_challenge, get_agent,
}
use proof_arena.Events.{Event, Loads}
use proof_arena.Challenges.{ChallengeConfig}
use proof_arena.Services.SwapProtocol.{QuoteOption}
use proof_arena.Services.Serialization.{Codec, RoundTrip}
use proof_arena.Integrity.Audit.{
  ArtifactTexts, is_evidence, row_order, event_to_canonical_dict, generate_run_log_hash,
  create_audit_trail, audit_with, audit_artifacts,
}
use proof_arena.Runner.World.{World, Log}
use proof_arena.Runner.Execution.{RunnerError, execute_run}
use proof_arena.Runner.Log.{Guarded}
use proof_arena.Runner.Sealing.{IsSealed}
use proof_arena.Runner.Replay.{sealed_numbered, sealed_read_back, sealed_hash}
use proof_arena.Runner.Executed.{Refuses, budget_of, execute_run-Outcome}

-- what the auditor hashes of the rows
abbrev pub evidence : (c : Codec) → List (RunEvent c.Text) → List (Event c.Text)
evidence c rows =
    map (event_to_canonical_dict c) (filter (is_evidence c) (sorted (row_order c) rows))

module _ (c : Codec) (rt : RoundTrip c) (quote_json : QuoteOption → Json) (loads : Loads)
    (w : World) (config : ChallengeConfig) (run : Run) where
  pub IsSealed-of_returned :
      (done : Run) (log : Log c.Text)
      → execute_run c quote_json loads w config run ≡ ok (done, log)
      → IsSealed c done log
  IsSealed-of_returned done log h = elim (execute_run-Outcome c rt quote_json loads w config run) [
    | inl (e, failed, refuses) ↦ absurd (cc)
    | inr (done', log', returned, sealed, used) ↦
        subst (λ (r : Run × Log c.Text). IsSealed c r.0 r.1) (cc) sealed
  ]

  -- A run either fails to start, with the error of an unknown challenge type or of a swap challenge
  -- without `starting_usdc`, or comes back completed, after no more iterations than its budget. The
  -- agent, the wallet and the swap service may answer and fail as they like.
  pub execute_run-returns :
      ((e : RunnerError) × (execute_run c quote_json loads w config run ≡ err e)
        × Refuses config run e)
      ⊎ ((done : Run) × (log : Log c.Text) × (execute_run c quote_json loads w config run
            ≡ ok (done, log))
          × (done.status ≡ RunStatus.completed)
          × (done.iterations_used ≤ budget_of run.challenge_type config))
  execute_run-returns = elim (execute_run-Outcome c rt quote_json loads w config run) [
    | inl failed ↦ inl failed
    | inr (done, log, returned, sealed, used) ↦ inr (done, log, returned, sealed.status_is, used)
  ]

  -- The hash that the runner stored in a run that it completed is the one that the auditor
  -- recomputes from the rows of that run.
  pub run_log_hash-generate :
      (done : Run) (log : Log c.Text)
      → execute_run c quote_json loads w config run ≡ ok (done, log)
      → done.run_log_hash ≡ some (generate_run_log_hash c log.rows)
  run_log_hash-generate done log h = sealed_hash c rt done log (IsSealed-of_returned done log h)

  -- The rows of a completed run, the on-chain one included, are numbered 0, 1, 2, … without a gap.
  pub rows-Ascending_from_zero :
      (done : Run) (log : Log c.Text)
      → execute_run c quote_json loads w config run ≡ ok (done, log)
      → Ascending (λ (r : RunEvent c.Text). r.sequence_no) 0 log.rows
  rows-Ascending_from_zero done log h =
      sealed_numbered c rt done log (IsSealed-of_returned done log h)

  -- Among the event dicts that the auditor reads back from the rows of a completed run, every
  -- execution stands directly behind a validation whose payload says "valid": true.
  pub evidence-Guarded :
      (done : Run) (log : Log c.Text)
      → execute_run c quote_json loads w config run ≡ ok (done, log)
      → Guarded none (evidence c log.rows)
  evidence-Guarded done log h =
      let sealed = IsSealed-of_returned done log h in
      rw (sealed_read_back c rt done log sealed) sealed.guarded

  -- A completed run whose challenge and agent are stored passes the audit: five artifacts are
  -- made, and the last one carries the stored hash.
  pub create_audit_trail-passes :
      (texts : ArtifactTexts c.Text) (db : Store) (done : Run) (log : Log c.Text)
      (challenge : Challenge) (agent : Agent)
      → execute_run c quote_json loads w config run ≡ ok (done, log)
      → get_challenge db done.challenge_id ≡ some challenge
      → get_agent db done.agent_id ≡ some agent
      → (artifacts : List VerificationArtifact) × (create_audit_trail c texts db done log.rows
          ≡ ok artifacts)
        × (map (λ (a : VerificationArtifact). a.artifact_type) artifacts
            ≡ "challenge_config" ∷ "submission_hash" ∷ "quote_set" ∷ "tx_receipt" ∷ "audit_log_hash"
              ∷ [])
        × ((a : VerificationArtifact) × In a artifacts
            × (a.artifact_type ≡ "audit_log_hash")
            × (some a.content_hash ≡ done.run_log_hash))
  unfolding create_audit_trail audit_with audit_artifacts
  create_audit_trail-passes texts db done log challenge agent h has_challenge has_agent =
      let e = run_log_hash-generate done log h in
      rw (has_challenge, has_agent, e, eq_refl_true (generate_run_log_hash c log.rows))
        (_, refl, refl, (_, inr (inr (inr (inr (inl refl)))), refl, refl))
