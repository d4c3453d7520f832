-- ===== src/Instances.antt =====
-- backend/src/services/instance_service.py: the deploy saga. What leaves for Privy and what its answer
-- makes is that of the wallet service; the calls of the database succeed.
pub mod Reads
pub mod Routes
pub mod Update
pub mod Operator
pub mod Flagship
pub mod Standing
pub mod Kept
pub mod Outcomes
pub mod Teardown
pub mod Found
pub mod Sound
pub mod Updated
pub mod Repaired
pub mod Platform
pub mod Lifecycle
pub mod Branches
pub mod Superseding
pub mod Repairing
pub mod Singleton
pub mod Deployed
use proof_arena.Base.{
  ℕ, suc, String, Bool, true, false, not, Option, none, some, List, [], ◌∷◌, ◌++◌, if◌then◌else◌,
  ◌==◌, text_equality, ltb, nat_beq, nonempty, find, map, is_some,
}
use proof_arena.Base.Json.{Json, Fields, Float, obj}
use proof_arena.Base.Result.{Result, ok, err, ◌>>=◌}
use proof_arena.Db.{
  AgentInstance, AgentTemplate, VerificationArtifact, SagaStatus, SagaFailureReason, TrustLabel,
  Store,
}
use proof_arena.Events.{Loads}
use proof_arena.Services.Serialization.{Codec}
use proof_arena.Policy.{
  SpecError, PolicyEngineError, WalletPolicy, ConsentRecord, validate_spec, build_wallet_policy,
  orca_devnet_allowlist, record_consent,
}
use proof_arena.Policy.Rebalance.{EnvelopeError, swap_error, Raised, validate_spec_for_template}
use proof_arena.Wallets.{
  WalletError, unknown_cluster, chain_mismatch, no_signing_service, privy_error, WalletService,
  HostedRequest, HostedAnswer, HostedWallet, create_hosted_wallet,
}

-- `runtime/base.py`
pub record InstanceSpec : Type 0 where
  pub template_key : String
  pub template_version : String
  pub effective_config : Fields
  pub instance_owner_ref : String

-- what the service is made of, and what the outside answers to one call of it
pub record Outside : Type 0 where
  -- `json.dumps(…, sort_keys=True)` and `json.loads`
  pub dumps : Json → String
  pub loads : Loads
  -- the canonical JSON of a consent, and SHA-256
  pub canonical : Json → String
  pub sha256 : String → String
  pub wallet_service : WalletService
  pub post : HostedRequest → HostedAnswer
  -- `runtime.deploy`: the handle as JSON, or what it raises
  pub deploy : InstanceSpec → Result String String
  pub hosted_wallet_policy_id : String
  pub authorization_pubkey : String

-- the constructor's two checks
unfoldable pub is_configured : Outside → Bool
is_configured o =
    if nonempty o.hosted_wallet_policy_id then nonempty o.authorization_pubkey else false

-- the details of an `InstanceDeployError`, whose status is always "provisioning_failed"; the last two
-- are the exceptions that the saga does not translate
pub data DeployError : Type 0 where
  owner_too_long : ℕ → DeployError
  spec_invalid : List EnvelopeError → DeployError
  policy_rejected : PolicyEngineError → DeployError
  wallet_failed : WalletError → DeployError
  unknown_template not_deployable : String → DeployError
  weight_overflow no_signer : DeployError

abbrev pub text_length : String → ℕ
text_length String.[] = 0
text_length (String.◌∷◌ c s) = suc (text_length s)

abbrev pub check_owner : String → Result DeployError (Unit {0})
check_owner owner_ref =
    if ltb 128 (text_length owner_ref) then err (owner_too_long (text_length owner_ref)) else ok tt

abbrev pub is_swap : String → Bool
is_swap template_key = template_key == "swap_executor_v1"

abbrev pub on_errors : List EnvelopeError → Result DeployError (Unit {0})
on_errors [] = ok tt
on_errors (e ∷ es) = err (spec_invalid (e ∷ es))

abbrev pub on_validated : Result Raised (List EnvelopeError) → Result DeployError (Unit {0})
on_validated (ok errors) = on_errors errors
on_validated (err raised) = err weight_overflow

-- step 1
unfoldable pub check_spec : String → Fields → Result DeployError (Unit {0})
unfolding validate_spec validate_spec_for_template
check_spec template_key effective_config = on_validated (
    if is_swap template_key
    then ok (map swap_error (validate_spec effective_config))
    else validate_spec_for_template template_key effective_config)

abbrev pub on_policy : Result PolicyEngineError WalletPolicy → Result DeployError (Unit {0})
on_policy (ok policy) = ok tt
on_policy (err e) = err (policy_rejected e)

-- step 2: the policy is built, and dropped
unfoldable pub check_policy : String → Fields → Result DeployError (Unit {0})
unfolding build_wallet_policy
check_policy template_key effective_config =
    if is_swap template_key
    then on_policy (build_wallet_policy effective_config orca_devnet_allowlist "devnet")
    else ok tt

-- the exceptions that are translated, and the `ValueError` that is not
abbrev pub on_wallet : Result WalletError HostedWallet → Result DeployError HostedWallet
on_wallet (ok wallet) = ok wallet
on_wallet (err no_signing_service) = err no_signer
on_wallet (err e) = err (wallet_failed e)

-- step 3: the requests that leave, and the wallet
unfoldable pub create_wallet : Outside → List HostedRequest × Result WalletError HostedWallet
unfolding create_hosted_wallet
create_wallet o =
    create_hosted_wallet o.wallet_service o.post o.hosted_wallet_policy_id o.authorization_pubkey
      "solana" "devnet"

abbrev pub template_by_key : Store → String → Option AgentTemplate
template_by_key db template_key = find (λ row. row.template_key == template_key) db.templates

abbrev pub deployable : String → Option AgentTemplate → Result DeployError AgentTemplate
deployable template_key none = err (unknown_template template_key)
deployable template_key (some template) =
    if nat_beq template.is_deployable 0 then err (not_deployable template_key) else ok template

-- `_resolve_template`
unfoldable pub resolve_template : Store → String → Result DeployError AgentTemplate
resolve_template db template_key = deployable template_key (template_by_key db template_key)

-- step 4: the row as it is inserted, with the defaults of its table
abbrev pub new_instance :
    Outside → ℕ → ℕ → AgentTemplate → Fields → String → HostedWallet → AgentInstance
new_instance o instance_id now template effective_config owner_ref wallet = record {
  instance_id = instance_id;
  template_id = template.template_id;
  template_version_at_deploy = template.template_version;
  instance_owner_ref = owner_ref;
  effective_config_json = o.dumps (obj effective_config);
  consent_artifact_id = none;
  runtime_handle_json = none;
  wallet_address = some wallet.address;
  hosted_wallet_ref = some wallet.wallet_id;
  wallet_provider = some "privy";
  trust_label = TrustLabel.benchmark_compatible_customized_instance;
  status = SagaStatus.provisioning;
  last_failure_reason = none;
  superseded_by_instance_id = none;
  created_at = now;
}

-- `_build_runtime_spec`
abbrev pub runtime_spec : AgentTemplate → Fields → String → InstanceSpec
runtime_spec template effective_config owner_ref = record {
  template_key = template.template_key;
  template_version = template.template_version;
  effective_config = effective_config;
  instance_owner_ref = owner_ref;
}

abbrev pub first_text : List String → String
first_text [] = ""
first_text (s ∷ rest) = s

-- the codec of the consent, which is hashed as one text
abbrev pub consent_codec : Outside → Codec
consent_codec o = record {
  Text = String;
  Byte = String;
  dumps = o.canonical;
  loads = o.loads;
  quoted = λ s. Json.text s;
  encode = λ s. s ∷ [];
  digest = λ texts. o.sha256 (first_text texts);
  isoformat = λ t. "";
}

abbrev pub consent_artifact : ConsentRecord String → VerificationArtifact
consent_artifact r = record {
  run_id = none;
  artifact_type = "deployment_consent";
  uri_or_ref = r.canonical_json;
  content_hash = r.content_hash;
}

-- the rows of one deploy: the instance, and the artifact that is added
abbrev pub Rows : Type 0
Rows = AgentInstance × List (ℕ × VerificationArtifact)

-- step 6
abbrev pub on_consent : ℕ → AgentInstance → Result PolicyEngineError (ConsentRecord String) → Rows
on_consent artifact_id instance' (err e) = (
  record instance' {
    status = SagaStatus.runtime_live_consent_failed;
    last_failure_reason = some SagaFailureReason.runtime_live_consent_failed;
  },
  [],
)
on_consent artifact_id instance' (ok consent) = (
  record instance' {
    consent_artifact_id = some artifact_id;
    status = SagaStatus.live;
    last_failure_reason = none;
  },
  (artifact_id, consent_artifact consent) ∷ [],
)

-- step 5, and what follows it
abbrev pub on_runtime : Outside → ℕ → Fields → AgentInstance → Result String String → Rows
on_runtime o artifact_id consent instance' (err message) = (
  record instance' {
    status = SagaStatus.wallet_created_runtime_failed;
    last_failure_reason = some SagaFailureReason.wallet_created_runtime_failed;
  },
  [],
)
on_runtime o artifact_id consent instance' (ok handle) =
    on_consent artifact_id (record instance' { runtime_handle_json = some handle })
      (record_consent (consent_codec o) consent)

abbrev pub commit : Store → Rows → Store × AgentInstance
commit db (row, artifacts) =
    (record db { instances = db.instances ++ row ∷ []; artifacts = db.artifacts ++ artifacts }, row)

-- what is given to one call: the next keys, the time, and the arguments
pub record DeployCall : Type 0 where
  pub instance_id : ℕ
  pub artifact_id : ℕ
  pub now : ℕ
  pub template_key : String
  pub effective_config : Fields
  pub consent : Fields
  pub owner_ref : String

-- from step 4 on
abbrev pub provision :
    Outside → Store → DeployCall → HostedWallet → AgentTemplate → Store × AgentInstance
provision o db call wallet template = commit db (
    on_runtime o call.artifact_id call.consent
      (new_instance o call.instance_id call.now template call.effective_config call.owner_ref
        wallet)
      (o.deploy (runtime_spec template call.effective_config call.owner_ref)))

-- `deploy_instance`: the store after the commit and the row, or an exception after which nothing is
-- stored
unfoldable pub deploy_instance :
    Outside → Store → DeployCall → Result DeployError (Store × AgentInstance)
unfolding check_spec check_policy create_wallet resolve_template record_consent
deploy_instance o db call = check_owner call.owner_ref >>= λ bounded.
    check_spec call.template_key call.effective_config >>= λ valid.
    check_policy call.template_key call.effective_config >>= λ allowed.
    on_wallet (create_wallet o).1 >>= λ wallet.
    resolve_template db call.template_key >>= λ template. ok (provision o db call wallet template)
