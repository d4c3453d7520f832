-- ===== src/Db/Rows.antt =====
-- The tables as records. Times are microseconds; texts that hold JSON stay texts unless the code
-- looks inside them.
use proof_arena.Base.{ℕ, String, Option}
use proof_arena.Base.Int.{ℤ}
use proof_arena.Db.Vocabulary.{
  RunStatus, CompletionStatus, RunInvalidReason, SagaStatus, SagaFailureReason, TrustLabel,
  SubjectType, ProviderType, ChallengeStatus, EventType,
}

pub record Agent : Type 0 where
  pub agent_id : ℕ
  pub privy_user_id : String
  pub owner_wallet : String
  pub submission_hash : String
  pub system_prompt : String
  pub config_json : String
  pub metadata_ref : Option String
  pub provider_type : ProviderType
  pub provider_config_json : Option String
  pub onchain_address : Option String
  pub subject_type : SubjectType

pub record Challenge : Type 0 where
  pub challenge_id : ℕ
  pub challenge_type : String
  pub config_json : String
  pub status : ChallengeStatus
  pub num_contestants : ℕ
  pub winner_agent_id : Option ℕ
  pub onchain_address : Option String
  pub started_at : Option ℕ
  pub ended_at : Option ℕ
  pub created_at : ℕ

pub record Run : Type 0 where
  pub run_id : ℕ
  pub challenge_id : ℕ
  pub agent_id : ℕ
  pub provider_type : ProviderType
  pub benchmark_wallet_address : Option String
  pub benchmark_wallet_ref : Option String
  pub status : RunStatus
  pub completion_status : Option CompletionStatus
  pub invalid_reason : Option RunInvalidReason
  pub starting_value : ℤ
  pub ending_value : Option ℤ
  pub iterations_used : ℕ
  pub score_inputs_json : Option String
  pub run_log_hash : Option String
  pub challenge_type : String
  pub onchain_address : Option String
  pub started_at : Option ℕ
  pub ended_at : Option ℕ

-- a row before it has its key, `artifact_id`
pub record VerificationArtifact : Type 0 where
  pub run_id : Option ℕ
  pub artifact_type : String
  pub uri_or_ref : String
  pub content_hash : String

pub record AgentTemplate : Type 0 where
  pub template_id : ℕ
  pub template_key : String
  pub template_version : String
  pub description : String
  pub allowed_fields_json : String
  pub default_config_json : String
  pub system_prompt : String
  pub benchmark_subject_agent_id : Option ℕ
  pub is_deployable : ℕ
  pub created_at : ℕ

pub record AgentInstance : Type 0 where
  pub instance_id : ℕ
  pub template_id : ℕ
  pub template_version_at_deploy : String
  pub instance_owner_ref : String
  pub effective_config_json : String
  pub consent_artifact_id : Option ℕ
  pub runtime_handle_json : Option String
  pub wallet_address : Option String
  pub hosted_wallet_ref : Option String
  pub wallet_provider : Option String
  pub trust_label : TrustLabel
  pub status : SagaStatus
  pub last_failure_reason : Option SagaFailureReason
  pub superseded_by_instance_id : Option ℕ
  pub created_at : ℕ

-- One JSON column each for what an event carries; `Text` is the type of the serialized texts.
pub record RunEvent (Text : Type 0) : Type 0 where
  pub run_id : ℕ
  pub sequence_no : ℕ
  pub event_type : EventType
  pub timestamp : ℕ
  pub state_snapshot_json : Option Text
  pub action_payload_json : Option Text
  pub validation_payload_json : Option Text
  pub execution_payload_json : Option Text
  pub result_payload_json : Option Text
  pub tx_signature : Option String
  pub quote_snapshot_ref : Option Text
