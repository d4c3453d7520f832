-- ===== src/Instances/Update.antt =====
-- `update_instance_config` of backend/src/services/instance_service.py: a new configuration is a new
-- row, which the old one points to once the new one is live.
use proof_arena.Base.{
  ℕ, Bool, true, false, Option, none, some, List, [], ◌∷◌, if◌then◌else◌, ◌==◌, number_equality,
}
use proof_arena.Base.Json.{Json, Fields, obj}
use proof_arena.Base.PythonEquality.{same_json}
use proof_arena.Base.Result.{Result, ok, err, ◌>>=◌}
use proof_arena.Db.{AgentInstance, AgentTemplate, SagaStatus, Store, get_instance, get_template}
use proof_arena.Instances.{Outside, DeployError, DeployCall, deploy_instance}

pub data UpdateError : Type 0 where
  instance_not_found template_not_found bad_stored_config : UpdateError
  already_superseded : ℕ → UpdateError
  deploy_failed : DeployError → UpdateError

abbrev pub is_live : SagaStatus → Bool
is_live SagaStatus.live = true
is_live _ = false

-- the row with a key, as it is written back
abbrev pub replace : ℕ → AgentInstance → List AgentInstance → List AgentInstance
replace key row [] = []
replace key row (r ∷ rs) = if r.instance_id == key then row ∷ rs else r ∷ replace key row rs

abbrev pub write_row : Store → AgentInstance → Store
write_row db row = record db { instances = replace row.instance_id row db.instances }

pub record UpdateCall : Type 0 where
  pub instance_id : ℕ
  pub new_config : Fields
  pub consent : Fields
  -- the next keys, and the time
  pub new_instance_id : ℕ
  pub artifact_id : ℕ
  pub now : ℕ

abbrev pub or_raise : {A : Type 0} → UpdateError → Option A → Result UpdateError A
or_raise e none = err e
or_raise e (some a) = ok a

abbrev pub check_head : AgentInstance → Option ℕ → Result UpdateError AgentInstance
check_head old none = ok old
check_head old (some k) = err (already_superseded k)

abbrev pub deploy_call : UpdateCall → AgentInstance → AgentTemplate → DeployCall
deploy_call call old template = record {
  instance_id = call.new_instance_id;
  artifact_id = call.artifact_id;
  now = call.now;
  template_key = template.template_key;
  effective_config = call.new_config;
  consent = call.consent;
  owner_ref = old.instance_owner_ref;
}

abbrev pub superseded_by : ℕ → AgentInstance → AgentInstance
superseded_by k old = record old { superseded_by_instance_id = some k }

abbrev pub on_redeployed :
    AgentInstance
    → Result DeployError (Store × AgentInstance)
    → Result UpdateError (Store × AgentInstance)
on_redeployed old (err e) = err (deploy_failed e)
on_redeployed old (ok (db, new)) =
    if is_live new.status
    then ok (write_row db (superseded_by new.instance_id old), new)
    else ok (db, new)

abbrev pub redeploy :
    Outside → Store → UpdateCall → AgentInstance → Result UpdateError (Store × AgentInstance)
redeploy o db call old =
    or_raise template_not_found (get_template db old.template_id) >>= λ template.
    on_redeployed old (deploy_instance o db (deploy_call call old template))

-- the comparison with the stored configuration
abbrev pub unless_same :
    Outside → Store → UpdateCall → AgentInstance → Json → Result UpdateError (Store × AgentInstance)
unless_same o db call old old_config =
    if same_json (obj call.new_config) old_config then ok (db, old) else redeploy o db call old

unfoldable pub update_instance_config :
    Outside → Store → UpdateCall → Result UpdateError (Store × AgentInstance)
unfolding deploy_instance same_json
update_instance_config o db call =
    or_raise instance_not_found (get_instance db call.instance_id) >>= λ found.
    check_head found found.superseded_by_instance_id >>= λ old.
    or_raise bad_stored_config (o.loads old.effective_config_json) >>= λ old_config.
    unless_same o db call old old_config
