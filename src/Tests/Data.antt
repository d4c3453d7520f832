-- ===== src/Tests/Data.antt =====
-- A challenge, its runs and the outside world that the tests use.
use proof_arena.Base.{ℕ, refl, nat_beq, true, Option, none, some, List, [], ◌∷◌, if◌then◌else◌}
use proof_arena.Base.Int.{pos}
use proof_arena.Base.Json.{Json, text, null, field, end, zero_float}
use proof_arena.Base.Result.{ok, err}
use proof_arena.Db.{
  RunStatus, CompletionStatus, ProviderType, ChallengeStatus, SubjectType, TrustLabel, SagaStatus,
  Run, Agent, Challenge, AgentInstance, Store,
}
use proof_arena.Challenges.{ChallengeConfig, execute_swap, finish}
use proof_arena.Services.SwapProtocol.{QuoteOption}
use proof_arena.Services.Serialization.{Codec, RoundTrip, SelfDelimiting}
use proof_arena.Runner.World.{World, Decision, act}

-- texts that are the values they stand for
abbrev pub codec : Codec
codec = record {
  Text = Json;
  Byte = Json;
  dumps = λ v. v;
  loads = λ t. some t;
  quoted = λ t. t;
  encode = λ t. t ∷ [];
  digest = λ ts. "digest";
  isoformat = λ t. "time";
}

abbrev pub round_trip : RoundTrip codec
round_trip = record { loads_dumps = λ v. refl }

abbrev first : List Json → Option (Json × List Json)
first [] = none
first (t ∷ rest) = some (t, rest)

abbrev pub self_delimiting : SelfDelimiting codec
self_delimiting = record { first = first; first_end = refl; first_dumps = λ fields rest. refl }

abbrev pub quote : QuoteOption
quote = record {
  quote_id = "q1";
  input_mint = "USDC";
  output_mint = "SOL";
  in_amount = pos 50;
  out_amount = pos 2;
  slippage_bps = pos 10;
  fetched_at = 0;
  route_data = end;
}

abbrev pub swap_then_finish : ℕ → Decision
swap_then_finish seq =
    if nat_beq seq 1
    then act (record { type = execute_swap; params = field "quote_id" (text "q1") end })
    else act (record { type = finish; params = end })

-- a swap that works, then the end; the program does not answer
abbrev pub world : World
world = record {
  elapsed = λ seq. zero_float;
  started_at = 0;
  clock = λ seq. seq;
  finalized_at = 90;
  observe = λ seq. some (("USDC", pos 100) ∷ []);
  decide = λ seq s. swap_then_finish seq;
  quotes = λ seq. record { is_quote_fresh = λ id age. true; get_cached_quote = λ id. some quote };
  get_quotes = λ seq mint usdc balance. ok (quote ∷ []);
  prepare_swap_transaction = λ seq id address slippage. ok "tx";
  sign_and_send_transaction = λ seq wallet tx. ok "sig";
  cached_quote = λ seq id. some quote;
  type_error_text = "type error";
  reason_text = λ r. "reason";
  reason_details = λ r. null;
  flatten_balances = ok (("USDC", pos 50) ∷ ("SOL", pos 2) ∷ []);
  final_balances = some (("USDC", pos 101) ∷ []);
  score_inputs_text = λ start last used complete. "score";
  program = some (λ value hash variant used. err "timeout");
}

abbrev pub config : ChallengeConfig
config = record {
  starting_usdc = some (pos 100);
  swap_intents = some ("SOL" ∷ []);
  allowed_routes = none;
  iteration_budget = some 3;
  time_budget_secs = none;
  max_slippage_bps = none;
  quote_max_age_secs = none;
  usdc_mint = some "USDC";
  dry_run = none;
}

abbrev pub fresh_run : Run
fresh_run = record {
  run_id = 7;
  challenge_id = 1;
  agent_id = 4;
  provider_type = ProviderType.local;
  benchmark_wallet_address = some "wallet";
  benchmark_wallet_ref = some "ref";
  status = RunStatus.pending;
  completion_status = none;
  invalid_reason = none;
  starting_value = pos 100;
  ending_value = none;
  iterations_used = 0;
  score_inputs_json = none;
  run_log_hash = none;
  challenge_type = "swap_execution";
  onchain_address = some "pda";
  started_at = none;
  ended_at = none;
}

abbrev pub agent : Agent
agent = record {
  agent_id = 4;
  privy_user_id = "instance:9";
  owner_wallet = "owner";
  submission_hash = "hash";
  system_prompt = "prompt";
  config_json = "{}";
  metadata_ref = some "agent_instances/9";
  provider_type = ProviderType.local;
  provider_config_json = none;
  onchain_address = some "strategy";
  subject_type = SubjectType.customized_instance;
}

abbrev pub challenge : Challenge
challenge = record {
  challenge_id = 1;
  challenge_type = "swap_execution";
  config_json = "{}";
  status = ChallengeStatus.pending;
  num_contestants = 2;
  winner_agent_id = none;
  onchain_address = none;
  started_at = none;
  ended_at = none;
  created_at = 0;
}

abbrev pub live_instance : AgentInstance
live_instance = record {
  instance_id = 9;
  template_id = 3;
  template_version_at_deploy = "v1";
  instance_owner_ref = "owner";
  effective_config_json = "{}";
  consent_artifact_id = some 1;
  runtime_handle_json = some "{}";
  wallet_address = some "wallet";
  hosted_wallet_ref = some "ref";
  wallet_provider = some "privy";
  trust_label = TrustLabel.benchmark_compatible_customized_instance;
  status = SagaStatus.live;
  last_failure_reason = none;
  superseded_by_instance_id = none;
  created_at = 0;
}

abbrev pub completed_run : Run
completed_run = record fresh_run {
  status = RunStatus.completed;
  completion_status = some CompletionStatus.complete;
  ending_value = some (pos 120);
  run_log_hash = some "digest";
  ended_at = some 50;
}

abbrev pub other_run : Run
other_run = record completed_run { run_id = 8; agent_id = 5; ending_value = some (pos 110) }

abbrev pub store : Store
store = record {
  agents = agent ∷ record agent { agent_id = 5; onchain_address = none } ∷ [];
  challenges = challenge ∷ [];
  runs = other_run ∷ completed_run ∷ [];
  artifacts = [];
  templates = [];
  instances = live_instance ∷ [];
}
