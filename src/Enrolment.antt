-- ===== src/Enrolment.antt =====
-- backend/src/services/challenge_service.py: how a challenge is started, and how runs are created for
-- agents and for hosted instances.
pub mod Hosted
pub mod Creation
pub mod Contested
pub mod Start
use proof_arena.Base.{
  ℕ, String, Bool, true, false, not, ◌&&◌, Option, none, some, List, [], ◌∷◌, ◌++◌, map,
  if◌then◌else◌, ◌==◌, number_equality, text_equality, any, find, is_some, nonempty, or_default,
}
use proof_arena.Base.Int.{ℤ, pos}
use proof_arena.Base.Json.{Json, Fields, obj, get}
use proof_arena.Base.Result.{Result, ok, err, ◌>>=◌}
use proof_arena.Db.{
  Run, Agent, AgentInstance, AgentTemplate, Challenge, RunStatus, ChallengeStatus, ProviderType,
  SubjectType, SagaStatus, Store, get_challenge, get_agent, get_instance, get_template,
}
use proof_arena.Events.{Loads}

-- what the operations raise
pub data EnrolError : Type 0 where
  no_program missing_challenge_id challenge_not_found agent_not_found not_pending : EnrolError
  instance_not_found instance_not_live instance_superseded run_exists bad_config : EnrolError
  onchain_failed : String → EnrolError

-- Python's `json.loads` and `int()`, and the texts that the f-strings make
pub record Texts : Type 0 where
  pub loads : Loads
  pub to_int : Json → Option ℤ
  pub synthetic_key : ℕ → String
  pub metadata_ref : ℕ → String
  pub submission_hash : ℕ → String → String

abbrev pub or_err : {A : Type 0} → EnrolError → Option A → Result EnrolError A
or_err e none = err e
or_err e (some a) = ok a

-- `int(json.loads(challenge.config_json).get("starting_usdc", 0))`
abbrev pub starting_usdc : Texts → Option Json → Result EnrolError ℤ
starting_usdc texts (some (obj fs)) =
    or_err bad_config (texts.to_int (or_default (get "starting_usdc" fs) (Json.int (pos 0))))
starting_usdc texts _ = err bad_config

abbrev pub starting_value : Texts → Challenge → Result EnrolError ℤ
starting_value texts challenge = starting_usdc texts (texts.loads challenge.config_json)

abbrev pub new_run :
    ℕ → Challenge → Agent → ProviderType → Option String → Option String → RunStatus → ℤ → Run
new_run run_id challenge agent provider address ref status value = record {
  run_id = run_id;
  challenge_id = challenge.challenge_id;
  agent_id = agent.agent_id;
  provider_type = provider;
  benchmark_wallet_address = address;
  benchmark_wallet_ref = ref;
  status = status;
  completion_status = none;
  invalid_reason = none;
  starting_value = value;
  ending_value = none;
  iterations_used = 0;
  score_inputs_json = none;
  run_log_hash = none;
  challenge_type = challenge.challenge_type;
  onchain_address = none;
  started_at = none;
  ended_at = none;
}

-- the program's `create_run`, after the addresses are read
abbrev pub Register : Type 0
Register = ℕ → ℕ → Option String → String → Result String String

abbrev pub registered : Result String String → Run → Run
registered (ok address) run = record run { onchain_address = some address }
registered (err message) run = record run { status = RunStatus.onchain_failed }

-- the on-chain part of `create_run`, for an agent that is on the chain
abbrev pub register_run : Option Register → Option String → Run → Run
register_run none agent_address run = run
register_run (some create) none run = run
register_run (some create) (some agent_address) run =
    registered (create run.challenge_id run.agent_id run.benchmark_wallet_address agent_address) run

abbrev pub initial_status : Option String → RunStatus
initial_status none = RunStatus.pending_onchain
initial_status (some address) = RunStatus.pending

-- `create_run`: the run that is committed
unfoldable pub create_run :
    Texts
    → Option Register
    → Store
    → ℕ
    → ℕ
    → ℕ
    → Option String
    → Option String
    → Result EnrolError Run
create_run texts program db run_id challenge_id agent_id address ref =
    or_err challenge_not_found (get_challenge db challenge_id) >>= λ challenge.
    or_err agent_not_found (get_agent db agent_id) >>= λ agent.
    starting_value texts challenge >>= λ value. ok (
      register_run program agent.onchain_address (
        new_run run_id challenge agent ProviderType.local address ref
          (initial_status agent.onchain_address) value))

abbrev pub is_pending : ChallengeStatus → Bool
is_pending ChallengeStatus.pending = true
is_pending _ = false

abbrev pub check_pending : Challenge → Result EnrolError Challenge
check_pending challenge = if is_pending challenge.status then ok challenge else err not_pending

abbrev pub on_started : ℕ → Challenge → Result String String → Result EnrolError Challenge
on_started now challenge (err message) = err (onchain_failed message)
on_started now challenge (ok tx) =
    ok (record challenge { status = ChallengeStatus.active; started_at = some now })

-- `start_challenge`
unfoldable pub start_challenge :
    Option (ℕ → Result String String) → Store → ℕ → ℕ → Result EnrolError Challenge
start_challenge none db now challenge_id = err no_program
start_challenge (some start) db now challenge_id =
    or_err challenge_not_found (get_challenge db challenge_id) >>= λ found.
    check_pending found >>= λ challenge. on_started now challenge (start challenge_id)

abbrev pub is_live : SagaStatus → Bool
is_live SagaStatus.live = true
is_live _ = false

abbrev pub check_live : AgentInstance → Result EnrolError AgentInstance
check_live inst =
    if not (is_live inst.status)
    then err instance_not_live
    else if is_some inst.superseded_by_instance_id
    then err instance_superseded
    else ok inst

-- `_get_instance`
unfoldable pub get_live_instance : Store → ℕ → Result EnrolError AgentInstance
get_live_instance db instance_id =
    or_err instance_not_found (get_instance db instance_id) >>= λ inst. check_live inst

abbrev pub is_customized : SubjectType → Bool
is_customized SubjectType.customized_instance = true
is_customized SubjectType.canonical_template = false

-- the agent with the synthetic key of an instance
abbrev pub instance_agent : Texts → Store → ℕ → Option Agent
instance_agent texts db instance_id =
    find (λ a. a.privy_user_id == texts.synthetic_key instance_id && is_customized a.subject_type)
      db.agents

abbrev pub prompt_of : Option AgentTemplate → String
prompt_of none = ""
prompt_of (some template) = template.system_prompt

abbrev pub config_of : String → String
config_of config = if nonempty config then config else "{}"

abbrev pub new_agent : Texts → Store → ℕ → AgentInstance → Agent
new_agent texts db agent_id inst = record {
  agent_id = agent_id;
  privy_user_id = texts.synthetic_key inst.instance_id;
  owner_wallet = or_default inst.wallet_address "";
  submission_hash = texts.submission_hash inst.instance_id (config_of inst.effective_config_json);
  system_prompt = prompt_of (get_template db inst.template_id);
  config_json = config_of inst.effective_config_json;
  metadata_ref = some (texts.metadata_ref inst.instance_id);
  provider_type = ProviderType.hosted_instance;
  provider_config_json = inst.runtime_handle_json;
  onchain_address = none;
  subject_type = SubjectType.customized_instance;
}

abbrev pub or_insert : Store → Agent → Option Agent → Store × Agent
or_insert db fresh (some existing) = (db, existing)
or_insert db fresh none = (record db { agents = db.agents ++ fresh ∷ [] }, fresh)

-- `_get_or_create_instance_agent`; the unique index makes a lost race end as the lookup does
unfoldable pub get_or_create_instance_agent : Texts → Store → ℕ → AgentInstance → Store × Agent
get_or_create_instance_agent texts db agent_id inst =
    or_insert db (new_agent texts db agent_id inst) (instance_agent texts db inst.instance_id)

-- the unique index on (challenge_id, agent_id)
abbrev pub insert_run : Store → Run → Result EnrolError (Store × Run)
insert_run db run =
    if any (λ r. r.challenge_id == run.challenge_id && r.agent_id == run.agent_id) db.runs
    then err run_exists
    else ok (record db { runs = db.runs ++ run ∷ [] }, run)

abbrev pub run_for :
    Texts → ℕ → AgentInstance → Challenge → Store × Agent → Result EnrolError (Store × Run)
run_for texts run_id inst challenge (db, agent) = starting_value texts challenge >>= λ value.
    insert_run db (
      new_run run_id challenge agent ProviderType.hosted_instance inst.wallet_address
        inst.hosted_wallet_ref RunStatus.pending value)

-- `create_run_for_instance`: the store after the commit, or an error after which it is unchanged.
-- `agent_id` and `run_id` are the next keys of the two tables.
unfoldable pub create_run_for_instance :
    Texts → Store → ℕ → ℕ → ℕ → Option ℕ → Result EnrolError (Store × Run)
unfolding get_live_instance get_or_create_instance_agent
create_run_for_instance texts db agent_id run_id instance_id challenge_id =
    or_err missing_challenge_id challenge_id >>= λ key. get_live_instance db instance_id >>= λ inst.
    or_err challenge_not_found (get_challenge db key) >>= λ challenge.
    run_for texts run_id inst challenge (get_or_create_instance_agent texts db agent_id inst)
