-- ===== src/Integrity/Audit.antt =====
-- backend/src/integrity/run_auditor.py: the evidence hash recomputed from the rows, and the audit
-- artifacts.
use proof_arena.Base.{
  ℕ, String, Bool, true, false, not, ◌&&◌, Option, none, some, List, [], ◌∷◌, map, leb, ◌==◌,
  text_equality, if◌then◌else◌, filter, nonempty, or_default,
}
use proof_arena.Base.Json.{Json, obj, get, truthy_or}
use proof_arena.Base.Result.{Result, ok, err}
use proof_arena.Base.Sorting.{sorted}
use proof_arena.Db.{
  EventType, Run, Agent, Challenge, RunEvent, VerificationArtifact, Store, get_challenge, get_agent,
}
use proof_arena.Events.{Event}
use proof_arena.Services.Serialization.{Codec, compute_run_log_hash}

-- `event_type not in POST_CHAIN_EVENT_TYPES`
abbrev pub is_evidence_event_type : EventType → Bool
is_evidence_event_type EventType.onchain_finalize = false
is_evidence_event_type _ = true

abbrev pub is_error : EventType → Bool
is_error EventType.error = true
is_error _ = false

-- `bool(data.get("onchain_finalize_failed"))`, and False for what is no dict
abbrev pub marks_post_chain : Option Json → Bool
marks_post_chain (some (obj fs)) = truthy_or (get "onchain_finalize_failed" fs) false
marks_post_chain _ = false

pub data AuditError : Type 0 where
  challenge_not_found agent_not_found hash_mismatch : AuditError

-- the texts that the artifacts quote: f-strings, canonical JSON of lists, and SHA-256 of a text
pub record ArtifactTexts (Text : Type 0) : Type 0 where
  pub challenge_ref : ℕ → String
  pub agent_ref : ℕ → String
  pub run_ref : ℕ → String
  pub quote_set : List Text → String
  pub tx_receipt : List String → String
  pub digest : String → String

module _ (c : Codec) where
  abbrev pub loaded : Option c.Text → Option Json
  loaded none = none
  loaded (some t) = c.loads t

  unfoldable pub is_post_chain_error : RunEvent c.Text → Bool
  is_post_chain_error row =
      if is_error row.event_type then marks_post_chain (loaded row.result_payload_json) else false

  -- `_parse_json`: a text that is no JSON stays a text
  abbrev pub parse_json : Option c.Text → Option Json
  parse_json none = none
  parse_json (some t) = some (or_default (c.loads t) (c.quoted t))

  unfoldable pub event_to_canonical_dict : RunEvent c.Text → Event c.Text
  event_to_canonical_dict row = record {
    run_id = row.run_id;
    sequence_no = row.sequence_no;
    event_type = row.event_type;
    timestamp = row.timestamp;
    state_snapshot_json = parse_json row.state_snapshot_json;
    action_payload_json = parse_json row.action_payload_json;
    validation_payload_json = parse_json row.validation_payload_json;
    execution_payload_json = parse_json row.execution_payload_json;
    result_payload_json = parse_json row.result_payload_json;
    tx_signature = row.tx_signature;
    quote_snapshot_ref = row.quote_snapshot_ref;
  }

  -- `compute_evidence_hash` has the body of `compute_run_log_hash`
  unfoldable pub compute_evidence_hash : List (Event c.Text) → String
  compute_evidence_hash events = compute_run_log_hash c events

  abbrev pub row_order : RunEvent c.Text → RunEvent c.Text → Bool
  row_order d e = leb d.sequence_no e.sequence_no

  abbrev pub is_evidence : RunEvent c.Text → Bool
  is_evidence row = is_evidence_event_type row.event_type && not (is_post_chain_error row)

  -- `generate_run_log_hash` on the rows of the run
  unfoldable pub generate_run_log_hash : List (RunEvent c.Text) → String
  unfolding compute_evidence_hash
  generate_run_log_hash rows =
      compute_evidence_hash
        (map event_to_canonical_dict (filter is_evidence (sorted row_order rows)))

  -- the values that are not None and not empty
  abbrev pub signatures : List (RunEvent c.Text) → List String
  signatures [] = []
  signatures (row ∷ rows) = elim row.tx_signature [
    | none ↦ signatures rows
    | some s ↦ if nonempty s then s ∷ signatures rows else signatures rows
  ]

  -- the references that are given; a JSON text is never empty
  abbrev pub quote_refs : List (RunEvent c.Text) → List c.Text
  quote_refs [] = []
  quote_refs (row ∷ rows) = elim row.quote_snapshot_ref [
    | none ↦ quote_refs rows
    | some q ↦ q ∷ quote_refs rows
  ]

  -- the five artifacts, once the hash has been compared
  unfoldable pub audit_artifacts :
      ArtifactTexts c.Text
      → Run
      → List (RunEvent c.Text)
      → Challenge
      → Agent
      → List VerificationArtifact
  audit_artifacts texts run rows challenge agent =
      let events = sorted row_order rows in
      let artifact : String → String → String → VerificationArtifact = λ type ref hash. record {
        run_id = some run.run_id;
        artifact_type = type;
        uri_or_ref = ref;
        content_hash = hash;
      } in
      artifact "challenge_config" (texts.challenge_ref run.challenge_id)
        (texts.digest challenge.config_json)
      ∷ artifact "submission_hash" (texts.agent_ref run.agent_id) agent.submission_hash
      ∷ artifact "quote_set" (texts.quote_set (quote_refs events))
          (texts.digest (texts.quote_set (quote_refs events)))
      ∷ artifact "tx_receipt" (texts.tx_receipt (signatures events))
          (texts.digest (texts.tx_receipt (signatures events)))
      ∷ artifact "audit_log_hash" (texts.run_ref run.run_id) (or_default run.run_log_hash "")
      ∷ []

  unfoldable pub audit_with :
      ArtifactTexts c.Text
      → Run
      → List (RunEvent c.Text)
      → Option Challenge
      → Option Agent
      → Result AuditError (List VerificationArtifact)
  unfolding audit_artifacts generate_run_log_hash
  audit_with texts run rows none agent = err challenge_not_found
  audit_with texts run rows (some challenge) none = err agent_not_found
  audit_with texts run rows (some challenge) (some agent) =
      if not (generate_run_log_hash rows == or_default run.run_log_hash "")
      then err hash_mismatch
      else ok (audit_artifacts texts run rows challenge agent)

  -- `create_audit_trail`: the artifacts that it adds, or what it raises before it adds any
  unfoldable pub create_audit_trail :
      ArtifactTexts c.Text
      → Store
      → Run
      → List (RunEvent c.Text)
      → Result AuditError (List VerificationArtifact)
  unfolding audit_with
  create_audit_trail texts db run rows =
      audit_with texts run rows (get_challenge db run.challenge_id) (get_agent db run.agent_id)
