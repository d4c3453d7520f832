-- ===== src/Cats.antt =====
-- backend/src/integrity/cats/wallet_safety.py and the router of backend/src/api/cats.py: the verdict
-- on one completed run, and who may see it.
pub mod Verdict
pub mod Access
use proof_arena.Base.{
  ℕ, String, Bool, true, false, not, Option, none, some, List, [], ◌∷◌, map, if◌then◌else◌, ◌==◌,
  text_equality, contains, nonempty, is_some,
}
use proof_arena.Base.Result.{Result, ok, err, ◌>>=◌}
use proof_arena.Db.{
  Run, Agent, AgentInstance, RunStatus, CompletionStatus, RunInvalidReason, ProviderType,
  TrustLabel, SubjectType, SagaStatus, Store, get_run, get_agent, get_instance,
}

pub data CatError : Type 0 where
  run_not_found : CatError
  run_not_final : RunStatus → CatError
  unsupported_provider_type : ProviderType → CatError
  instance_unresolvable : CatError
  unsupported_trust_label : TrustLabel → CatError

-- The two regular expressions, as functions that give the digits as a number.
pub record Bridge : Type 0 where
  pub metadata_id : String → Option ℕ
  pub privy_id : String → Option ℕ

abbrev pub or_else : Option ℕ → Option ℕ → Option ℕ
or_else none b = b
or_else (some n) b = some n

abbrev pub metadata_of : Bridge → Option String → Option ℕ
metadata_of bridge none = none
metadata_of bridge (some ref) = if nonempty ref then bridge.metadata_id ref else none

abbrev pub privy_of : Bridge → String → Option ℕ
privy_of bridge ref = if nonempty ref then bridge.privy_id ref else none

-- the instance's id, from the metadata reference or else from the synthetic user id
abbrev pub bridged_id : Bridge → Agent → Option ℕ
bridged_id bridge agent =
    or_else (metadata_of bridge agent.metadata_ref) (privy_of bridge agent.privy_user_id)

abbrev pub or_unresolvable : {A : Type 0} → Option A → Result CatError A
or_unresolvable none = err instance_unresolvable
or_unresolvable (some a) = ok a

-- `_resolve_instance`
unfoldable pub resolve_instance : Bridge → Store → ℕ → Result CatError (Agent × AgentInstance)
resolve_instance bridge db agent_id = or_unresolvable (get_agent db agent_id) >>= λ agent.
    or_unresolvable (bridged_id bridge agent) >>= λ instance_id.
    or_unresolvable (get_instance db instance_id) >>= λ instance. ok (agent, instance)

abbrev pub is_hosted : ProviderType → Bool
is_hosted ProviderType.hosted_instance = true
is_hosted _ = false

abbrev pub is_external : TrustLabel → Bool
is_external TrustLabel.external_custom_runtime = true
is_external _ = false

abbrev pub is_live : SagaStatus → Bool
is_live SagaStatus.live = true
is_live _ = false

-- the gates on the run
abbrev pub check_run : Run → Result CatError Run
check_run run =
    if not (is_some run.completion_status)
    then err (run_not_final run.status)
    else if not (is_hosted run.provider_type)
    then err (unsupported_provider_type run.provider_type)
    else ok run

-- the gates on the instance
abbrev pub check_instance :
    Run → Agent × AgentInstance → Result CatError (Run × Agent × AgentInstance)
check_instance run (agent, instance) =
    if is_external instance.trust_label
    then err (unsupported_trust_label instance.trust_label)
    else if not (is_live instance.status)
    then err instance_unresolvable
    else ok (run, agent, instance)

abbrev pub or_not_found : Option Run → Result CatError Run
or_not_found none = err run_not_found
or_not_found (some run) = ok run

unfoldable pub resolve_run_and_instance :
    Bridge → Store → ℕ → Result CatError (Run × Agent × AgentInstance)
unfolding resolve_instance
resolve_run_and_instance bridge db run_id = or_not_found (get_run db run_id) >>= λ found.
    check_run found >>= λ run.
    resolve_instance bridge db run.agent_id >>= λ pair. check_instance run pair

-- `_REASON_TO_CHECK`, with none for what is not in `WALLET_SAFETY_REASONS`
abbrev pub reason_to_check : RunInvalidReason → Option String
reason_to_check RunInvalidReason.mainnet_guard_triggered = some "mainnet_guard_check"
reason_to_check RunInvalidReason.wallet_policy_rejected = some "wallet_policy_check"
reason_to_check RunInvalidReason.authorization_signature_rejected =
    some "authorization_signature_check"
reason_to_check RunInvalidReason.hosted_wallet_unavailable = some "hosted_wallet_available_check"
reason_to_check RunInvalidReason.invalid_action_attempts_exceeded =
    some "invalid_action_attempts_check"
reason_to_check _ = none

-- `_CHECK_IDS`
abbrev pub check_ids : List String
check_ids =
    "envelope_slippage_check" ∷ "envelope_token_universe_check" ∷ "envelope_position_size_check"
    ∷ "envelope_runtime_seconds_check" ∷ "envelope_iterations_check" ∷ "mainnet_guard_check"
    ∷ "wallet_policy_check" ∷ "authorization_signature_check" ∷ "hosted_wallet_available_check"
    ∷ "invalid_action_attempts_check" ∷ []

pub record WalletSafetyCheck : Type 0 where
  pub check_id : String
  pub passes : Bool

-- `WalletSafetyCatResponse`; `passes` is the result "pass", and the constant fields are left out
pub record WalletSafetyCatResponse : Type 0 where
  pub run_id : ℕ
  pub instance_id : ℕ
  pub subject_type : SubjectType
  pub trust_label : TrustLabel
  pub passes : Bool
  pub reason : Option RunInvalidReason
  pub critique : String
  pub run_completion_status : Option CompletionStatus
  pub off_scope_invalid_reason : Option RunInvalidReason
  pub has_scope_note : Bool
  pub run_log_hash : Option String
  pub checks : List WalletSafetyCheck

abbrev pub is_failing : Option String → String → Bool
is_failing none id = false
is_failing (some failing) id = id == failing

-- `_compose`
unfoldable pub compose :
    Run
    → Agent
    → AgentInstance
    → Option String
    → Option RunInvalidReason
    → String
    → Option RunInvalidReason
    → WalletSafetyCatResponse
compose run agent instance failing_check_id reason critique off_scope_invalid_reason = record {
  run_id = run.run_id;
  instance_id = instance.instance_id;
  subject_type = agent.subject_type;
  trust_label = instance.trust_label;
  passes = not (is_some reason);
  reason = reason;
  critique = critique;
  run_completion_status = run.completion_status;
  off_scope_invalid_reason = off_scope_invalid_reason;
  has_scope_note = is_some off_scope_invalid_reason;
  run_log_hash = run.run_log_hash;
  checks =
      map (λ id. record { check_id = id; passes = not (is_failing failing_check_id id) }) check_ids;
}

-- the three cases of `compute_wallet_safety_cat`; `critique_for` looks up the copy of a reason
abbrev pub judge_reason :
    (RunInvalidReason → String)
    → Run
    → Agent
    → AgentInstance
    → RunInvalidReason
    → Option String
    → WalletSafetyCatResponse
judge_reason critique_for run agent instance reason (some check) =
    compose run agent instance (some check) (some reason) (critique_for reason) none
judge_reason critique_for run agent instance reason none =
    compose run agent instance none none "" (some reason)

abbrev pub judge :
    (RunInvalidReason → String)
    → Run
    → Agent
    → AgentInstance
    → Option RunInvalidReason
    → WalletSafetyCatResponse
judge critique_for run agent instance none = compose run agent instance none none "" none
judge critique_for run agent instance (some reason) =
    judge_reason critique_for run agent instance reason (reason_to_check reason)

unfoldable pub compute_wallet_safety_cat :
    Bridge → (RunInvalidReason → String) → Store → ℕ → Result CatError WalletSafetyCatResponse
unfolding compose resolve_run_and_instance
compute_wallet_safety_cat bridge critique_for db run_id =
    resolve_run_and_instance bridge db run_id >>= λ (run, agent, instance).
    ok (judge critique_for run agent instance run.invalid_reason)

-- what the router answers: the verdict, an error body with its HTTP status, or the 401 of
-- `get_current_user`
pub data Response : Type 0 where
  verdict : WalletSafetyCatResponse → Response
  error_body : ℕ → CatError → Response
  not_instance_owner unauthorized : Response

-- `_map_domain_error`
abbrev pub status_code : CatError → ℕ
status_code run_not_found = 404
status_code instance_unresolvable = 404
status_code (run_not_final status) = 422
status_code (unsupported_provider_type provider) = 422
status_code (unsupported_trust_label label) = 422

abbrev pub needs_owner : TrustLabel → Bool
needs_owner TrustLabel.benchmark_compatible_customized_instance = true
needs_owner _ = false

abbrev pub answer : Result CatError WalletSafetyCatResponse → Response
answer (ok response) = verdict response
answer (err e) = error_body (status_code e) e

-- `user` is the identity that `get_current_user` derives from the credentials, or none if it raises
abbrev pub for_owner : Option String → String → Response → Response
for_owner none owner response = unauthorized
for_owner (some user) owner response = if not (user == owner) then not_instance_owner else response

abbrev pub guarded :
    Option String → Response → Result CatError (Run × Agent × AgentInstance) → Response
guarded user response (err e) = error_body (status_code e) e
guarded user response (ok (run, agent, instance)) =
    if needs_owner instance.trust_label
    then for_owner user instance.instance_owner_ref response
    else response

unfoldable pub get_wallet_safety_cat :
    Bridge → (RunInvalidReason → String) → Store → ℕ → Option String → Response
unfolding compute_wallet_safety_cat
get_wallet_safety_cat bridge critique_for db run_id user =
    guarded user (answer (compute_wallet_safety_cat bridge critique_for db run_id))
      (resolve_run_and_instance bridge db run_id)
