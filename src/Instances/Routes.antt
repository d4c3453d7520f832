-- ===== src/Instances/Routes.antt =====
-- The route POST /instances/deploy of backend/src/api/instances.py, and the rows that
-- backend/src/api/instances_operator.py shows of failed instances. The user is authenticated before.
use proof_arena.Base.{ℕ, String, Option, none, some, List, map}
use proof_arena.Base.Json.{Fields}
use proof_arena.Base.Result.{Result, ok, err}
use proof_arena.Db.{AgentInstance, SagaStatus, SagaFailureReason, Store}
use proof_arena.Instances.{
  Outside, DeployError, weight_overflow, no_signer, DeployCall, deploy_instance,
}
use proof_arena.Instances.Reads.{list_failed_instances}

pub record InstanceDeployRequest : Type 0 where
  pub template_key : String
  pub effective_config : Fields
  pub consent : Fields

pub record InstanceDeployResponse : Type 0 where
  pub instance_id : ℕ
  pub status : SagaStatus
  pub last_failure_reason : Option SagaFailureReason

-- the response, the 503, the 400 with the details, and what is not caught
pub data DeployAnswer : Type 0 where
  deployed : InstanceDeployResponse → DeployAnswer
  not_configured : DeployAnswer
  refused raised : DeployError → DeployAnswer

-- the owner is the user
abbrev pub call_of : ℕ → ℕ → ℕ → InstanceDeployRequest → String → DeployCall
call_of instance_id artifact_id now body user = record {
  instance_id = instance_id;
  artifact_id = artifact_id;
  now = now;
  template_key = body.template_key;
  effective_config = body.effective_config;
  consent = body.consent;
  owner_ref = user;
}

abbrev pub answer_error : DeployError → DeployAnswer
answer_error weight_overflow = raised weight_overflow
answer_error no_signer = raised no_signer
answer_error e = refused e

abbrev pub answer : Store → Result DeployError (Store × AgentInstance) → Store × DeployAnswer
answer db (err e) = (db, answer_error e)
answer db (ok (db', row)) = (
  db',
  deployed (record {
    instance_id = row.instance_id;
    status = row.status;
    last_failure_reason = row.last_failure_reason;
  }),
)

-- `deploy_instance` of the router, with the service or without one
unfoldable pub post_deploy :
    Option Outside → Store → ℕ → ℕ → ℕ → InstanceDeployRequest → String → Store × DeployAnswer
unfolding deploy_instance
post_deploy none db instance_id artifact_id now body user = (db, not_configured)
post_deploy (some o) db instance_id artifact_id now body user =
    answer db (deploy_instance o db (call_of instance_id artifact_id now body user))

-- `_project_failed_row`; the time is written by `isoformat`
pub record FailedRow : Type 0 where
  pub instance_id : ℕ
  pub template_id : ℕ
  pub instance_owner_ref : String
  pub status : SagaStatus
  pub last_failure_reason : Option SagaFailureReason
  pub hosted_wallet_ref : Option String
  pub wallet_address : Option String
  pub runtime_handle_json : Option String
  pub created_at : String

abbrev pub project_failed_row : (ℕ → String) → AgentInstance → FailedRow
project_failed_row isoformat row = record {
  instance_id = row.instance_id;
  template_id = row.template_id;
  instance_owner_ref = row.instance_owner_ref;
  status = row.status;
  last_failure_reason = row.last_failure_reason;
  hosted_wallet_ref = row.hosted_wallet_ref;
  wallet_address = row.wallet_address;
  runtime_handle_json = row.runtime_handle_json;
  created_at = isoformat row.created_at;
}

-- the answer of GET /instances/operator/failed
unfoldable pub get_failed : (ℕ → String) → Store → List FailedRow
unfolding list_failed_instances
get_failed isoformat db = map (project_failed_row isoformat) (list_failed_instances db)
