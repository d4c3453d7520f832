-- ===== src/Db/Vocabulary.antt =====
-- The closed vocabularies of backend/src/integrity (failure_taxonomy.py, saga_statuses.py,
-- trust_labels.py, subject_types.py) and the status words of backend/src/db/models.py.

use Prim.Native.String.{String}

pub data RunStatus : Type 0 where
  pending pending_onchain onchain_failed running completed failed timeout : RunStatus

pub data CompletionStatus : Type 0 where
  complete incomplete invalid : CompletionStatus

pub data RunInvalidReason : Type 0 where
  incomplete_required_actions invalid_action_attempts_exceeded : RunInvalidReason
  stale_quote_execution_failed timeout_before_completion : RunInvalidReason
  flattening_failed execution_error : RunInvalidReason
  mainnet_guard_triggered wallet_policy_rejected runtime_invocation_failed : RunInvalidReason
  authorization_signature_rejected hosted_wallet_unavailable : RunInvalidReason

pub data SagaStatus : Type 0 where
  provisioning wallet_created_runtime_failed runtime_live_consent_failed : SagaStatus
  provisioning_failed live paused torn_down : SagaStatus

pub data SagaFailureReason : Type 0 where
  provisioning_failed wallet_created_runtime_failed runtime_live_consent_failed : SagaFailureReason

pub data TrustLabel : Type 0 where
  benchmarked_canonical_template benchmark_compatible_customized_instance : TrustLabel
  external_custom_runtime : TrustLabel

pub data SubjectType : Type 0 where
  canonical_template customized_instance : SubjectType

-- `provider_type` is an open text; the code tests it against "hosted_instance" alone.
pub data ProviderType : Type 0 where
  local hosted_instance : ProviderType
  other : String → ProviderType

pub data ChallengeStatus : Type 0 where
  pending active completed onchain_failed : ChallengeStatus

-- the event types that the runner writes
pub data EventType : Type 0 where
  observe budget_exceeded error decide finish validate execute : EventType
  flatten finalize onchain_finalize : EventType
