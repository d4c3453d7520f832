-- ===== src/Instances/Operator.antt =====
-- backend/src/api/instances_operator.py: the repair of instances whose saga failed. The administrator
-- is authenticated before.
use proof_arena.Base.{
  ℕ, String, Bool, true, false, not, Option, none, some, [], ◌∷◌, ◌++◌, if◌then◌else◌, contains,
  nonempty, all, text_equality,
}
use proof_arena.Base.Json.{Json, Fields, null, bool, obj, end, field, get}
use proof_arena.Base.Result.{Result, ok, err, ◌>>=◌}
use proof_arena.Db.{AgentInstance, SagaStatus, Store, get_instance}
use proof_arena.Events.{Loads}
use proof_arena.Policy.{keys, PolicyEngineError, ConsentRecord, record_consent}
use proof_arena.Instances.{Outside, consent_codec, consent_artifact}
use proof_arena.Instances.Update.{write_row}

-- the `HTTPException`s, 404, 400, 400 and 503
pub data OperatorError : Type 0 where
  instance_not_found runtime_not_configured : OperatorError
  wrong_status : SagaStatus → OperatorError
  consent_rejected : PolicyEngineError → OperatorError

abbrev pub or_404 : Option AgentInstance → Result OperatorError AgentInstance
or_404 none = err instance_not_found
or_404 (some row) = ok row

-- `_RetryConsentBody`
pub record RetryConsentBody : Type 0 where
  pub devnet_only_acknowledged : Option Bool
  pub platform_managed_signing_acknowledged : Option Bool
  pub spend_caps_acknowledged : Option Bool
  pub no_indemnity_acknowledged : Option Bool

abbrev pub bool_or_null : Option Bool → Json
bool_or_null none = null
bool_or_null (some b) = bool b

-- `body.model_dump()`
abbrev pub model_dump : RetryConsentBody → Fields
model_dump body = field "devnet_only_acknowledged" (bool_or_null body.devnet_only_acknowledged) (
    field "no_indemnity_acknowledged" (bool_or_null body.no_indemnity_acknowledged) (
      field "platform_managed_signing_acknowledged"
        (bool_or_null body.platform_managed_signing_acknowledged)
        (field "spend_caps_acknowledged" (bool_or_null body.spend_caps_acknowledged) end)))

abbrev pub is_consent_failed : SagaStatus → Bool
is_consent_failed SagaStatus.runtime_live_consent_failed = true
is_consent_failed _ = false

abbrev pub check_consent_failed : AgentInstance → Result OperatorError AgentInstance
check_consent_failed row =
    if not (is_consent_failed row.status) then err (wrong_status row.status) else ok row

abbrev pub promoted : ℕ → AgentInstance → AgentInstance
promoted artifact_id row = record row {
  consent_artifact_id = some artifact_id;
  status = SagaStatus.live;
  last_failure_reason = none;
}

abbrev pub on_recorded :
    Store
    → ℕ
    → AgentInstance
    → Result PolicyEngineError (ConsentRecord String)
    → Result OperatorError (Store × AgentInstance)
on_recorded db artifact_id row (err e) = err (consent_rejected e)
on_recorded db artifact_id row (ok consent) =
    let repaired = promoted artifact_id row in
    ok (
      record (write_row db repaired) {
        artifacts = db.artifacts ++ (artifact_id, consent_artifact consent) ∷ [];
      },
      repaired,
    )

-- `retry_consent`; `artifact_id` is the next key
unfoldable pub retry_consent :
    Outside → Store → ℕ → ℕ → RetryConsentBody → Result OperatorError (Store × AgentInstance)
unfolding record_consent
retry_consent o db artifact_id instance_id body = or_404 (get_instance db instance_id) >>= λ found.
    check_consent_failed found >>= λ row.
    on_recorded db artifact_id row (record_consent (consent_codec o) (model_dump body))

-- `InstanceHandle`; its fields are not checked
pub record InstanceHandle : Type 0 where
  pub instance_id : Json
  pub extra : Json

abbrev pub get_or : Option Json → Json → Json
get_or none d = d
get_or (some v) d = v

abbrev pub with_id : Option Json → Json → Option InstanceHandle
with_id none extra = none
with_id (some v) extra = some (record { instance_id = v; extra = extra })

-- `InstanceHandle(**data)`, none being the `TypeError`
abbrev pub handle_of : Option Json → Option InstanceHandle
handle_of (some (obj fs)) =
    if all (λ k. contains k ("instance_id" ∷ "extra" ∷ [])) (keys fs)
    then with_id (get "instance_id" fs) (get_or (get "extra" fs) (obj end))
    else none
handle_of _ = none

-- `_parse_handle`
unfoldable pub parse_handle : Loads → Option String → Option InstanceHandle
parse_handle loads none = none
parse_handle loads (some raw) = if nonempty raw then handle_of (loads raw) else none

-- `AgentOSRuntime.teardown`: nothing, or what it raises
abbrev pub Runtime : Type 0
Runtime = InstanceHandle → Result String (Unit {0})

pub record TeardownResponse : Type 0 where
  pub row : AgentInstance
  pub runtime_cleanup_ok : Bool
  pub runtime_cleanup_detail : Option String

abbrev pub is_torn_down : SagaStatus → Bool
is_torn_down SagaStatus.torn_down = true
is_torn_down _ = false

abbrev pub torn : AgentInstance → AgentInstance
torn row = record row { status = SagaStatus.torn_down; last_failure_reason = none }

-- the end of the handler
abbrev pub finish : Store → AgentInstance → Bool → Option String → Store × TeardownResponse
finish db row cleanup_ok detail = (
  write_row db (torn row),
  record { row = torn row; runtime_cleanup_ok = cleanup_ok; runtime_cleanup_detail = detail },
)

abbrev pub on_cleanup : Store → AgentInstance → Result String (Unit {0}) → Store × TeardownResponse
on_cleanup db row (ok done) = finish db row true none
on_cleanup db row (err message) = finish db row false (some message)

abbrev pub is_filled : Option String → Bool
is_filled none = false
is_filled (some s) = nonempty s

abbrev pub clean_up :
    Store
    → AgentInstance
    → Option Runtime
    → Option InstanceHandle
    → Result OperatorError (Store × TeardownResponse)
clean_up db row none (some handle) = err runtime_not_configured
clean_up db row (some runtime) (some handle) = ok (on_cleanup db row (runtime handle))
clean_up db row runtime none = ok (
    if is_filled row.runtime_handle_json
    then finish db row false (some "runtime_handle_json is not parseable")
    else finish db row true none)

-- `teardown_instance`
unfoldable pub teardown_instance :
    Loads → Option Runtime → Store → ℕ → Result OperatorError (Store × TeardownResponse)
unfolding parse_handle
teardown_instance loads runtime db instance_id = or_404 (get_instance db instance_id) >>= λ row.
    if is_torn_down row.status
    then ok (db, record { row = row; runtime_cleanup_ok = true; runtime_cleanup_detail = none })
    else clean_up db row runtime (parse_handle loads row.runtime_handle_json)
