-- ===== src/Tests/Enrolling.antt =====
-- Two runs of one hosted instance, and a challenge that is started.
use proof_arena.Base.{ℕ, ◌≡◌, refl, String, false, Option, none, some, [], ◌∷◌, ◌++◌, any}
use proof_arena.Base.Int.{pos}
use proof_arena.Base.Json.{obj, end}
use proof_arena.Base.Result.{Result, ok, err}
use proof_arena.Db.{
  Run, Agent, AgentInstance, Challenge, ChallengeStatus, RunStatus, ProviderType, SubjectType,
  SagaStatus, Store, get_instance,
}
use proof_arena.Enrolment.{Texts, EnrolError, instance_agent, create_run_for_instance}
use proof_arena.Enrolment.Hosted.{
  taken, create_run_for_instance-hosted, create_run_for_instance-reuses,
}
use proof_arena.Enrolment.Creation.{NewChallenge, config_of, Program, create_challenge}
use proof_arena.Enrolment.Contested.{IsContest, create_challenge-IsContest}
use proof_arena.Tests.Data.{challenge, fresh_run, store}

abbrev texts : Texts
texts = record {
  loads = λ s. some (obj end);
  to_int = λ v. some (pos 0);
  synthetic_key = λ n. "instance:9";
  metadata_ref = λ n. "agent_instances/9";
  submission_hash = λ n config. "hash";
}

-- two challenges and no agents and runs
abbrev opened : Store
opened = record store {
  challenges = challenge ∷ record challenge { challenge_id = 2 } ∷ [];
  agents = [];
  runs = [];
}

abbrev created : Store → ℕ → ℕ → Result EnrolError (Store × Run)
created db run_id challenge_id = create_run_for_instance texts db 1 run_id 9 (some challenge_id)

abbrev store_part : Result EnrolError (Store × Run) → Store
store_part (ok (db, run)) = db
store_part (err e) = opened

abbrev run_part : Result EnrolError (Store × Run) → Run
run_part (ok (db, run)) = run
run_part (err e) = fresh_run

abbrev first_store : Store
first_store = store_part (created opened 1 1)

abbrev first_run : Run
first_run = run_part (created opened 1 1)

abbrev second_store : Store
second_store = store_part (created first_store 2 2)

abbrev second_run : Run
second_run = run_part (created first_store 2 2)

first_created : create_run_for_instance texts opened 1 1 9 (some 1) ≡ ok (first_store, first_run)
unfolding create_run_for_instance
first_created = refl

second_created :
    create_run_for_instance texts first_store 1 2 9 (some 2) ≡ ok (second_store, second_run)
unfolding create_run_for_instance
second_created = refl

create_run_for_instance-hosted_example :
    (inst : AgentInstance) × (agent : Agent) × (get_instance opened 9 ≡ some inst)
    × (inst.status ≡ SagaStatus.live)
    × (inst.superseded_by_instance_id ≡ none)
    × (first_run.benchmark_wallet_address ≡ inst.wallet_address)
    × (first_run.benchmark_wallet_ref ≡ inst.hosted_wallet_ref)
    × (first_run.provider_type ≡ ProviderType.hosted_instance)
    × (first_run.status ≡ RunStatus.pending)
    × (first_run.onchain_address ≡ none)
    × (first_store.runs ≡ opened.runs ++ first_run ∷ [])
    × (instance_agent texts first_store inst.instance_id ≡ some agent)
    × (first_run.agent_id ≡ agent.agent_id)
    × (agent.subject_type ≡ SubjectType.customized_instance)
    × (any (taken first_run.challenge_id first_run.agent_id) opened.runs ≡ false)
create_run_for_instance-hosted_example =
    create_run_for_instance-hosted texts opened 1 1 9 (some 1) first_created

create_run_for_instance-reuses_example :
    (second_store.agents ≡ first_store.agents) × (second_run.agent_id ≡ first_run.agent_id)
create_run_for_instance-reuses_example =
    create_run_for_instance-reuses texts opened 1 1 1 2 9 (some 1) (some 2) first_created
      second_created

abbrev program : Option (ℕ → Result String String)
program = some (λ id. ok "tx")

abbrev started : Challenge
started = record challenge { status = ChallengeStatus.active; started_at = some 5 }

-- a new challenge with the two agents of the store
abbrev new : NewChallenge
new = record {
  challenge_type = "swap_execution";
  starting_usdc = pos 100;
  swap_intents = [];
  allowed_routes = [];
  max_slippage_bps = pos 100;
  iteration_budget = pos 20;
  time_budget_secs = pos 300;
  contestant_agent_ids = 4 ∷ 5 ∷ [];
}

abbrev reads_new : Texts
reads_new = record texts { loads = λ s. some (config_of new); to_int = λ v. some (pos 100) }

abbrev client : Program
client = record {
  create_challenge = λ key new. ok "challenge-address";
  create_run = λ key agent wallet address. ok "run-address";
}

abbrev contested : Store × Result EnrolError Challenge
contested = create_challenge reads_new (λ v. "{}") (some client) store 3 20 5 new

abbrev third : Challenge
third = record {
  challenge_id = 3;
  challenge_type = "swap_execution";
  config_json = "{}";
  status = ChallengeStatus.pending;
  num_contestants = 2;
  winner_agent_id = none;
  onchain_address = some "challenge-address";
  started_at = none;
  ended_at = none;
  created_at = 5;
}

creates_it :
    create_challenge reads_new (λ v. "{}") (some client) store 3 20 5 new ≡ (contested.0, ok third)
unfolding create_challenge
creates_it = refl

create_challenge-IsContest_example : IsContest store 3 new contested.0 third
create_challenge-IsContest_example =
    create_challenge-IsContest reads_new (λ v. "{}") (some client) store 3 20 5 new refl
      (refl, refl) creates_it
