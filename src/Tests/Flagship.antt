-- ===== src/Tests/Flagship.antt =====
-- The platform reserves its agent and deploys once, and runs are counted.
use proof_arena.Base.{◌+◌, ◌≤◌, length, ◌≡◌, refl, none, some, List, [], ◌∷◌}
use proof_arena.Base.Float.{add, lt_float, le_float}
use proof_arena.Base.Result.{ok}
use proof_arena.Db.{Run, RunStatus, CompletionStatus, AgentInstance, Store}
use proof_arena.Policy.{required_consent_keys, consent_fields, record_consent}
use proof_arena.Instances.{provision}
use proof_arena.Instances.Update.{write_row}
use proof_arena.Instances.Flagship.{
  flagship_agent, get_flagship_instance, deploy_flagship_instance, bootstrap_flagship,
}
use proof_arena.Instances.Flagship
use proof_arena.Instances.Singleton.{deploy_flagship_instance-once}
use proof_arena.Instances.Flagship.{count_outcomes, none_yet}
use proof_arena.Instances.Outcomes.{in_buckets, unjudged, count_outcomes-partition}
use proof_arena.Tests.Data.{completed_run, other_run}
use proof_arena.Tests.Instances.{config, outside, template, empty, wallet}

-- the platform reserves its agent, and deploys once
abbrev reserved : Store
reserved = record empty {
  agents = flagship_agent (λ key. key) 7 template "rebalance_executor_v1" ∷ [];
  templates = record template { benchmark_subject_agent_id = some 7 } ∷ [];
}

reserves_it :
    bootstrap_flagship (λ key. key) empty 7 "rebalance_executor_v1"
    ≡ ok (reserved, flagship_agent (λ key. key) 7 template "rebalance_executor_v1")
unfolding bootstrap_flagship
reserves_it = refl

abbrev pub flagship : Store × AgentInstance
flagship =
    provision outside reserved
      (record {
        instance_id = 1;
        artifact_id = 1;
        now = 5;
        template_key = "rebalance_executor_v1";
        effective_config = config;
        consent = consent_fields required_consent_keys;
        owner_ref = "platform:flagship";
      })
      wallet (record template { benchmark_subject_agent_id = some 7 })

abbrev pub flagship_store : Store
flagship_store = write_row flagship.0 (Flagship.promoted flagship.1)

deploys_flagship_once :
    deploy_flagship_instance (some outside) reserved 1 1 5 "rebalance_executor_v1"
    ≡ ok (flagship_store, Flagship.promoted flagship.1)
unfolding deploy_flagship_instance lt_float add le_float
deploys_flagship_once = refl

deploy_flagship_instance-once_example :
    (get_flagship_instance flagship_store "rebalance_executor_v1"
      ≡ some (Flagship.promoted flagship.1))
    × (deploy_flagship_instance (some outside) flagship_store 2 2 6 "rebalance_executor_v1"
        ≡ ok (flagship_store, Flagship.promoted flagship.1))
unfolding record_consent
deploy_flagship_instance-once_example =
    deploy_flagship_instance-once outside outside reserved 1 2 1 2 5 6 "rebalance_executor_v1" tt
      deploys_flagship_once refl

-- a judged run, one that is under way, and one that was not judged
abbrev some_runs : List Run
some_runs =
    record completed_run { completion_status = some CompletionStatus.complete }
    ∷ record other_run { completion_status = none; status = RunStatus.running }
    ∷ record other_run { completion_status = none; status = RunStatus.completed }
    ∷ []

count_outcomes-partition_example :
    (in_buckets (count_outcomes some_runs none_yet) + length (unjudged some_runs)
      ≡ length some_runs)
    × ((count_outcomes some_runs none_yet).complete ≤ length some_runs)
    × ((count_outcomes some_runs none_yet).invalid ≤ length some_runs)
    × ((count_outcomes some_runs none_yet).failed ≤ length some_runs)
    × ((count_outcomes some_runs none_yet).pending ≤ length some_runs)
count_outcomes-partition_example = count_outcomes-partition some_runs
