-- ===== src/Instances/Flagship.antt =====
-- backend/src/services/flagship_service.py: the platform's own agent and instance of a template.
use proof_arena.Base.{
  ℕ, ◌+◌, String, Bool, true, false, not, ◌&&◌, Option, none, some, List, [], ◌∷◌, ◌++◌,
  if◌then◌else◌, ◌==◌, number_equality, text_equality, is_some, filter, head?, map,
}
use proof_arena.Base.Sorting.{sorted}
use proof_arena.Base.Json.{Json, Fields, obj}
use proof_arena.Base.Result.{Result, ok, err, ◌>>=◌}
use proof_arena.Db.{
  Agent, AgentInstance, AgentTemplate, Run, RunStatus, CompletionStatus, TrustLabel, ProviderType,
  SubjectType, Store, get_agent,
}
use proof_arena.Policy.{required_consent_keys, consent_fields}
use proof_arena.Instances.{Outside, DeployError, DeployCall, template_by_key, deploy_instance}
use proof_arena.Instances.Update.{is_live, write_row}
use proof_arena.Instances.Reads.{newest_first}

pub data FlagshipError : Type 0 where
  no_instance_service template_not_found not_reserved stale_lineage bad_default_config :
      FlagshipError
  deploy_failed : DeployError → FlagshipError

abbrev pub or_fail : {A : Type 0} → FlagshipError → Option A → Result FlagshipError A
or_fail e none = err e
or_fail e (some a) = ok a

-- the agent that is reserved; `hash` is `_canonical_submission_hash`
abbrev pub flagship_agent : (String → String) → ℕ → AgentTemplate → String → Agent
flagship_agent hash agent_id template template_key = record {
  agent_id = agent_id;
  privy_user_id = "platform-authority";
  owner_wallet = "11111111111111111111111111111111111111111111";
  submission_hash = hash template_key;
  system_prompt = template.system_prompt;
  config_json = template.default_config_json;
  metadata_ref = none;
  provider_type = ProviderType.local;
  provider_config_json = none;
  onchain_address = none;
  subject_type = SubjectType.canonical_template;
}

-- the agent that a template's foreign key names, where it is set and the row is there
abbrev pub linked_agent : Store → Option ℕ → Option Agent
linked_agent db none = none
linked_agent db (some agent_id) = get_agent db agent_id

abbrev pub link_template : ℕ → ℕ → List AgentTemplate → List AgentTemplate
link_template template_id agent_id = map (λ row.
    if row.template_id == template_id
    then record row { benchmark_subject_agent_id = some agent_id }
    else row)

abbrev pub or_reserve :
    (String → String) → Store → ℕ → String → AgentTemplate → Option Agent → Store × Agent
or_reserve hash db agent_id template_key template (some existing) = (db, existing)
or_reserve hash db agent_id template_key template none =
    let agent = flagship_agent hash agent_id template template_key in
    (
      record db {
        agents = db.agents ++ agent ∷ [];
        templates = link_template template.template_id agent_id db.templates;
      },
      agent,
    )

-- `bootstrap_flagship`; `agent_id` is the next key
unfoldable pub bootstrap_flagship :
    (String → String) → Store → ℕ → String → Result FlagshipError (Store × Agent)
bootstrap_flagship hash db agent_id template_key =
    or_fail template_not_found (template_by_key db template_key) >>= λ template. ok (
      or_reserve hash db agent_id template_key template
        (linked_agent db template.benchmark_subject_agent_id))

abbrev pub agent_of_template : Store → Option AgentTemplate → Option Agent
agent_of_template db none = none
agent_of_template db (some template) = linked_agent db template.benchmark_subject_agent_id

-- `get_flagship_agent`
unfoldable pub get_flagship_agent : Store → String → Option Agent
get_flagship_agent db template_key = agent_of_template db (template_by_key db template_key)

abbrev pub or_bootstrap :
    (String → String) → Store → ℕ → String → Option Agent → Result FlagshipError (Store × Agent)
or_bootstrap hash db agent_id template_key (some existing) = ok (db, existing)
or_bootstrap hash db agent_id template_key none = bootstrap_flagship hash db agent_id template_key

-- `ensure_flagship_exists`
unfoldable pub ensure_flagship_exists :
    (String → String) → Store → ℕ → String → Result FlagshipError (Store × Agent)
unfolding bootstrap_flagship get_flagship_agent
ensure_flagship_exists hash db agent_id template_key =
    or_bootstrap hash db agent_id template_key (get_flagship_agent db template_key)

abbrev pub is_benchmarked : TrustLabel → Bool
is_benchmarked TrustLabel.benchmarked_canonical_template = true
is_benchmarked _ = false

-- the filter of `get_flagship_instance`
abbrev pub is_flagship : ℕ → AgentInstance → Bool
is_flagship template_id row =
    row.instance_owner_ref == "platform:flagship"
    && is_benchmarked row.trust_label
    && is_live row.status
    && not (is_some row.superseded_by_instance_id)
    && row.template_id == template_id

abbrev pub instance_of_template : Store → Option AgentTemplate → Option AgentInstance
instance_of_template db none = none
instance_of_template db (some template) =
    head? (sorted newest_first (filter (is_flagship template.template_id) db.instances))

-- `get_flagship_instance`
unfoldable pub get_flagship_instance : Store → String → Option AgentInstance
get_flagship_instance db template_key = instance_of_template db (template_by_key db template_key)

abbrev pub check_lineage : Store → AgentTemplate → Option ℕ → Result FlagshipError Agent
check_lineage db template none = err not_reserved
check_lineage db template (some agent_id) = or_fail stale_lineage (get_agent db agent_id)

abbrev pub as_config : Option Json → Result FlagshipError Fields
as_config (some (obj fs)) = ok fs
as_config _ = err bad_default_config

-- `_PLATFORM_CONSENT`
abbrev pub platform_consent : Fields
platform_consent = consent_fields required_consent_keys

-- the platform's deploy
abbrev pub platform_call : ℕ → ℕ → ℕ → String → Fields → DeployCall
platform_call instance_id artifact_id now template_key config = record {
  instance_id = instance_id;
  artifact_id = artifact_id;
  now = now;
  template_key = template_key;
  effective_config = config;
  consent = platform_consent;
  owner_ref = "platform:flagship";
}

abbrev pub promoted : AgentInstance → AgentInstance
promoted row = record row { trust_label = TrustLabel.benchmarked_canonical_template }

-- the promotion of a live instance
abbrev pub on_deployed :
    Result DeployError (Store × AgentInstance) → Result FlagshipError (Store × AgentInstance)
on_deployed (err e) = err (deploy_failed e)
on_deployed (ok (db, row)) =
    if is_live row.status then ok (write_row db (promoted row), promoted row) else ok (db, row)

abbrev pub unless_present :
    Outside
    → Store
    → ℕ
    → ℕ
    → ℕ
    → String
    → AgentTemplate
    → Option AgentInstance
    → Result FlagshipError (Store × AgentInstance)
unless_present o db instance_id artifact_id now template_key template (some existing) =
    ok (db, existing)
unless_present o db instance_id artifact_id now template_key template none =
    as_config (o.loads template.default_config_json) >>= λ config.
    on_deployed
      (deploy_instance o db (platform_call instance_id artifact_id now template_key config))

-- `deploy_flagship_instance`, with an instance service or without one
unfoldable pub deploy_flagship_instance :
    Option Outside → Store → ℕ → ℕ → ℕ → String → Result FlagshipError (Store × AgentInstance)
unfolding deploy_instance get_flagship_instance
deploy_flagship_instance none db instance_id artifact_id now template_key = err no_instance_service
deploy_flagship_instance (some o) db instance_id artifact_id now template_key =
    or_fail template_not_found (template_by_key db template_key) >>= λ template.
    check_lineage db template template.benchmark_subject_agent_id >>= λ canonical_agent.
    unless_present o db instance_id artifact_id now template_key template
      (get_flagship_instance db template_key)

-- the counts of `compute_outcome_distribution`
pub record Outcomes : Type 0 where
  pub complete : ℕ
  pub invalid : ℕ
  pub failed : ℕ
  pub pending : ℕ

abbrev pub none_yet : Outcomes
none_yet = record { complete = 0; invalid = 0; failed = 0; pending = 0 }

-- the buckets of a status, where no completion status decides
abbrev pub by_status : RunStatus → Outcomes → Outcomes
by_status RunStatus.failed n = record n { failed = n.failed + 1 }
by_status RunStatus.timeout n = record n { failed = n.failed + 1 }
by_status RunStatus.onchain_failed n = record n { failed = n.failed + 1 }
by_status RunStatus.pending n = record n { pending = n.pending + 1 }
by_status RunStatus.pending_onchain n = record n { pending = n.pending + 1 }
by_status RunStatus.running n = record n { pending = n.pending + 1 }
by_status RunStatus.completed n = n

abbrev pub count_run : Option CompletionStatus → RunStatus → Outcomes → Outcomes
count_run (some CompletionStatus.complete) status n = record n { complete = n.complete + 1 }
count_run (some CompletionStatus.invalid) status n = record n { invalid = n.invalid + 1 }
count_run (some CompletionStatus.incomplete) status n = record n { invalid = n.invalid + 1 }
count_run none status n = by_status status n

unfoldable pub count_outcomes : List Run → Outcomes → Outcomes
count_outcomes [] n = n
count_outcomes (r ∷ rs) n = count_outcomes rs (count_run r.completion_status r.status n)
