-- ===== src/Instances/Reads.antt =====
-- The reads of backend/src/services/instance_service.py and of backend/src/api/instances_operator.py.
use proof_arena.Base.{
  String, Bool, true, false, List, if◌then◌else◌, ◌==◌, text_equality, ltb, leb, filter, any,
}
use proof_arena.Base.Sorting.{sorted}
use proof_arena.Db.{AgentInstance, SagaStatus, Store}

-- `order_by(created_at.desc(), instance_id.desc())`
abbrev pub newest_first : AgentInstance → AgentInstance → Bool
newest_first a b =
    if ltb b.created_at a.created_at
    then true
    else if ltb a.created_at b.created_at
    then false
    else leb b.instance_id a.instance_id

unfoldable pub get_instances_by_owner : Store → String → List AgentInstance
get_instances_by_owner db owner_ref =
    sorted newest_first (filter (λ r. r.instance_owner_ref == owner_ref) db.instances)

abbrev pub same_status : SagaStatus → SagaStatus → Bool
same_status SagaStatus.provisioning SagaStatus.provisioning = true
same_status SagaStatus.wallet_created_runtime_failed SagaStatus.wallet_created_runtime_failed = true
same_status SagaStatus.runtime_live_consent_failed SagaStatus.runtime_live_consent_failed = true
same_status SagaStatus.provisioning_failed SagaStatus.provisioning_failed = true
same_status SagaStatus.live SagaStatus.live = true
same_status SagaStatus.paused SagaStatus.paused = true
same_status SagaStatus.torn_down SagaStatus.torn_down = true
same_status _ _ = false

-- `get_instances_by_status`, for members of the enumeration
unfoldable pub get_instances_by_status : Store → List SagaStatus → List AgentInstance
get_instances_by_status db statuses =
    sorted newest_first (filter (λ r. any (λ s. same_status r.status s) statuses) db.instances)

-- `_FAILED_STATES`
abbrev pub is_failed : SagaStatus → Bool
is_failed SagaStatus.wallet_created_runtime_failed = true
is_failed SagaStatus.runtime_live_consent_failed = true
is_failed SagaStatus.provisioning_failed = true
is_failed _ = false

-- `list_failed_instances`, before the projection
unfoldable pub list_failed_instances : Store → List AgentInstance
list_failed_instances db = sorted newest_first (filter (λ r. is_failed r.status) db.instances)
