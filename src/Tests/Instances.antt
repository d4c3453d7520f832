-- ===== src/Tests/Instances.antt =====
-- A deploy whose consent fails, its repair, its replacement, its end, and the platform's own deploy.
use proof_arena.Base.{
  ℕ, ◌≡◌, ◌↔◌, ◌⊎◌, refl, arith, true, false, Option, none, some, List, [], ◌∷◌, ◌++◌,
}
use proof_arena.Base.Int.{pos}
use proof_arena.Base.Float.{add, lt_float, le_float, of_int}
use proof_arena.Base.Json.{Json, Fields, obj, text, bool, int, field, end}
use proof_arena.Base.PythonEquality.{same_json}
use proof_arena.Base.Result.{ok, err}
use proof_arena.Db.{
  AgentInstance, AgentTemplate, VerificationArtifact, SagaStatus, Store, get_instance,
}
use proof_arena.Events.{Loads}
use proof_arena.Policy.{required_consent_keys, consent_fields, record_consent}
use proof_arena.Wallets.{HostedWallet, created}
use proof_arena.Instances.{
  Outside, DeployCall, template_by_key, create_wallet, provision, deploy_instance,
}
use proof_arena.Instances.Update.{UpdateCall, write_row, superseded_by, update_instance_config}
use proof_arena.Instances.Operator.{
  wrong_status, RetryConsentBody, Runtime, TeardownResponse, promoted, torn, retry_consent,
  teardown_instance,
}
use proof_arena.Instances.Branches.{Ends, Names, deploy_instance-Ends}
use proof_arena.Instances.Standing.{AreSound}
use proof_arena.Instances.Lifecycle.{deploys, repairs, tears_down, here, next, Reach-AreSound}
use proof_arena.Instances.Superseding.{IsUnchanged, IsReplaced, update_instance_config-supersedes}
use proof_arena.Instances.Repairing.{
  CanRepair, IsRepaired, retry_consent_iff, deploy_instance-repairable,
}
use proof_arena.Instances.Teardown.{teardown_instance-final}
use proof_arena.Tests.Rebalancing.{spec_with, halves}

abbrev pub config : Fields
config = spec_with halves

abbrev pub reader : Loads
reader raw = some (obj config)

abbrev pub outside : Outside
outside = record {
  dumps = λ j. "config";
  loads = reader;
  canonical = λ j. "consent";
  sha256 = λ s. s;
  wallet_service = record {
    cluster = "devnet";
    caip2 = "solana:EtWTRABZaYq6iMfeYKouRu166VU2xqa1";
    has_signing_service = true;
  };
  post = λ request. created (some "wallet-1") (some "address-1");
  deploy = λ spec. ok "handle-1";
  hosted_wallet_policy_id = "policy-1";
  authorization_pubkey = "owner-1";
}

abbrev pub template : AgentTemplate
template = record {
  template_id = 2;
  template_key = "rebalance_executor_v1";
  template_version = "1";
  description = "";
  allowed_fields_json = "[]";
  default_config_json = "config";
  system_prompt = "";
  benchmark_subject_agent_id = none;
  is_deployable = 1;
  created_at = 0;
}

abbrev pub empty : Store
empty = record {
  agents = [];
  challenges = [];
  runs = [];
  artifacts = [];
  templates = template ∷ [];
  instances = [];
}

abbrev pub wallet : HostedWallet
wallet = record { wallet_id = "wallet-1"; address = "address-1" }

-- one checkbox is missing
abbrev call : DeployCall
call = record {
  instance_id = 1;
  artifact_id = 1;
  now = 5;
  template_key = "rebalance_executor_v1";
  effective_config = config;
  consent = field "devnet_only_acknowledged" (bool true) end;
  owner_ref = "wallet:1";
}

abbrev deployed : Store × AgentInstance
deployed = provision outside empty call wallet template

deploys_consent_failed : deploy_instance outside empty call ≡ ok deployed
unfolding deploy_instance lt_float add le_float
deploys_consent_failed = refl

deploy_instance-Ends_example :
    (made : HostedWallet) × (found : AgentTemplate) × (artifacts : List (ℕ × VerificationArtifact))
    × ((create_wallet outside).1 ≡ ok made)
    × (template_by_key empty "rebalance_executor_v1" ≡ some found)
    × (deployed.0.instances ≡ empty.instances ++ deployed.1 ∷ [])
    × (deployed.0.artifacts ≡ empty.artifacts ++ artifacts)
    × Names outside call made found deployed.1
    × Ends outside call found deployed.1 artifacts
deploy_instance-Ends_example = deploy_instance-Ends outside empty call deploys_consent_failed

-- the operator's repair of it
abbrev all_checked : RetryConsentBody
all_checked = record {
  devnet_only_acknowledged = some true;
  platform_managed_signing_acknowledged = some true;
  spend_caps_acknowledged = some true;
  no_indemnity_acknowledged = some true;
}

retry_consent_iff_example :
    (((out : Store × AgentInstance) × (retry_consent outside deployed.0 1 1 all_checked ≡ ok out))
      ↔ CanRepair deployed.0 1 all_checked)
    × (((out : Store × AgentInstance) × (retry_consent outside deployed.0 1 1 all_checked ≡ ok out)
          × IsRepaired deployed.0 1 1 out.0 out.1)
        ↔ CanRepair deployed.0 1 all_checked)
retry_consent_iff_example = retry_consent_iff outside deployed.0 1 1 all_checked

deploy_instance-repairable_example :
    (out : Store × AgentInstance) × (retry_consent outside deployed.0 1 1 all_checked ≡ ok out)
    × IsRepaired deployed.0 1 1 out.0 out.1
unfolding record_consent
deploy_instance-repairable_example =
    deploy_instance-repairable outside empty call 1 all_checked tt (refl, refl, refl, refl)
      deploys_consent_failed refl

abbrev repaired : AgentInstance
repaired = promoted 1 deployed.1

abbrev repaired_store : Store
repaired_store = record deployed.0 {
  instances = repaired ∷ [];
  artifacts =
      (
        1,
        record {
          run_id = none;
          artifact_type = "deployment_consent";
          uri_or_ref = "consent";
          content_hash = "consent";
        },
      )
      ∷ [];
}

repairs_it : retry_consent outside deployed.0 1 1 all_checked ≡ ok (repaired_store, repaired)
unfolding retry_consent
repairs_it = refl

-- its replacement by an instance with another configuration
abbrev update : UpdateCall
update = record {
  instance_id = 1;
  new_config = spec_with (field "A" (int (pos 1)) end);
  consent = consent_fields required_consent_keys;
  new_instance_id = 2;
  artifact_id = 2;
  now = 6;
}

abbrev redeployed : Store × AgentInstance
redeployed =
    provision outside repaired_store
      (record {
        instance_id = 2;
        artifact_id = 2;
        now = 6;
        template_key = "rebalance_executor_v1";
        effective_config = update.new_config;
        consent = update.consent;
        owner_ref = "wallet:1";
      })
      wallet template

abbrev updated_store : Store
updated_store = write_row redeployed.0 (superseded_by 2 repaired)

updates_it : update_instance_config outside repaired_store update ≡ ok (updated_store, redeployed.1)
unfolding update_instance_config le_float of_int lt_float add
updates_it = refl

update_instance_config-supersedes_example :
    (old : AgentInstance) × (old_config : Json) × (get_instance repaired_store 1 ≡ some old)
    × (old.superseded_by_instance_id ≡ none)
    × (reader old.effective_config_json ≡ some old_config)
    × (((same_json (obj update.new_config) old_config ≡ true)
          × IsUnchanged repaired_store old updated_store redeployed.1)
        ⊎ ((same_json (obj update.new_config) old_config ≡ false)
            × IsReplaced update old updated_store redeployed.1))
update_instance_config-supersedes_example =
    update_instance_config-supersedes outside repaired_store update (ground arith, tt) updates_it

-- its end, with a runtime that is out of reach
abbrev handle_reader : Loads
handle_reader raw = some (obj (field "instance_id" (text "i-1") end))

abbrev unreachable : Option Runtime
unreachable = some (λ handle. err "no answer")

abbrev gone : TeardownResponse
gone = record {
  row = torn repaired;
  runtime_cleanup_ok = false;
  runtime_cleanup_detail = some "no answer";
}

abbrev torn_store : Store
torn_store = write_row repaired_store (torn repaired)

tears_it_down : teardown_instance handle_reader unreachable repaired_store 1 ≡ ok (torn_store, gone)
unfolding teardown_instance record_consent
tears_it_down = refl

teardown_instance-final_example :
    (gone.row.status ≡ SagaStatus.torn_down)
    × (get_instance torn_store 1 ≡ some gone.row)
    × (teardown_instance handle_reader none torn_store 1
        ≡ ok (
          torn_store,
          record { row = gone.row; runtime_cleanup_ok = true; runtime_cleanup_detail = none },
        ))
    × (retry_consent outside torn_store 2 1 all_checked ≡ err (wrong_status SagaStatus.torn_down))
teardown_instance-final_example =
    teardown_instance-final handle_reader handle_reader unreachable none outside repaired_store 1 2
      all_checked tears_it_down

-- the three steps
Reach-AreSound_example : AreSound (λ s. s) torn_store
Reach-AreSound_example =
    Reach-AreSound (λ s. s) empty tt
      (next
        (next (next here (deploys outside call deployed.1 refl deploys_consent_failed))
          (repairs outside 1 1 all_checked repaired refl repairs_it))
        (tears_down handle_reader unreachable 1 gone tears_it_down))
