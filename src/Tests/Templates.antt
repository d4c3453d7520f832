-- ===== src/Tests/Templates.antt =====
-- The two seeds are registered, deployed with their defaults, and shown with their label.
use proof_arena.Base.{
  ◌≡◌, ◌↔◌, refl, arith, true, none, some, [], ◌∷◌, ◌++◌, if◌then◌else◌, ◌==◌, text_equality,
  is_some,
}
use proof_arena.Base.Float.{add, lt_float, le_float}
use proof_arena.Base.Json.{arr, obj, end}
use proof_arena.Base.Result.{ok}
use proof_arena.Db.{AgentInstance, AgentTemplate, TrustLabel, Store}
use proof_arena.Events.{Loads}
use proof_arena.Policy.{allowed_envelope_fields, record_consent}
use proof_arena.Policy.Rebalance.{rebalance_envelope_fields}
use proof_arena.Instances.{Outside, template_by_key, create_wallet, DeployCall, deploy_instance}
use proof_arena.Instances.Flagship.{get_flagship_instance}
use proof_arena.Templates.{
  Registration, new_template, flushed, register_template, TemplateInfo,
  get_template_with_flagship_info,
}
use proof_arena.Templates.Seeds.{texts, swap_executor_v1_seed, rebalance_executor_v1_seed}
use proof_arena.Templates.Registered.{
  IsRegistrable, register_template_iff, register_template-deployable,
}
use proof_arena.Templates.Labelled.{get_template_with_flagship_info-label}
use proof_arena.Tests.Instances.{outside, wallet}
use proof_arena.Tests.Flagship.{flagship_store, flagship}
use proof_arena.Instances.Flagship

-- the texts that the tests read
abbrev reader : Loads
reader raw =
    if raw == "swap fields"
    then some (arr (texts allowed_envelope_fields))
    else if raw == "swap config"
    then some (obj swap_executor_v1_seed)
    else if raw == "rebalance fields"
    then some (arr (texts rebalance_envelope_fields))
    else if raw == "rebalance config"
    then some (obj rebalance_executor_v1_seed)
    else none

abbrev o : Outside
o = record outside { loads = reader }

abbrev empty : Store
empty = record {
  agents = [];
  challenges = [];
  runs = [];
  artifacts = [];
  templates = [];
  instances = [];
}

abbrev swap : Registration
swap = record {
  template_key = "swap_executor_v1";
  template_version = "swap_executor_v1";
  description = "";
  allowed_fields_json = "swap fields";
  default_config_json = "swap config";
  system_prompt = "";
  is_deployable = true;
  benchmark_subject_agent_id = none;
  template_id = 1;
  now = 0;
}

abbrev rebalance : Registration
rebalance = record swap {
  template_key = "rebalance_executor_v1";
  allowed_fields_json = "rebalance fields";
  default_config_json = "rebalance config";
  template_id = 2;
}

abbrev with_swap : Store
with_swap = record empty { templates = new_template swap ∷ [] }

abbrev with_both : Store
with_both = record empty { templates = new_template swap ∷ new_template rebalance ∷ [] }

registers_swap : register_template reader empty flushed swap ≡ ok (with_swap, new_template swap)
unfolding register_template
registers_swap = refl

registers_rebalance :
    register_template reader with_swap flushed rebalance ≡ ok (with_both, new_template rebalance)
unfolding register_template add lt_float le_float
registers_rebalance = refl

register_template_iff_example :
    (((out : Store × AgentTemplate) × (register_template reader with_swap flushed rebalance
          ≡ ok out))
      ↔ IsRegistrable reader with_swap rebalance)
    × ((register_template reader with_swap flushed rebalance
          ≡ ok (
            record with_swap { templates = with_swap.templates ++ new_template rebalance ∷ [] },
            new_template rebalance,
          ))
        ↔ IsRegistrable reader with_swap rebalance)
register_template_iff_example = register_template_iff reader with_swap rebalance

abbrev call : DeployCall
call = record {
  instance_id = 1;
  artifact_id = 1;
  now = 5;
  template_key = "rebalance_executor_v1";
  effective_config = rebalance_executor_v1_seed;
  consent = end;
  owner_ref = "wallet:1";
}

register_template-deployable_example :
    (out : Store × AgentInstance) × (deploy_instance o with_both call ≡ ok out)
    × (out.1.template_id ≡ 2)
unfolding create_wallet
register_template-deployable_example =
    register_template-deployable o with_swap flushed rebalance call {wallet = wallet}
      registers_rebalance refl refl refl (ground arith) refl

-- the information on the template whose platform instance is live
abbrev any_text : Loads
any_text raw = some (obj rebalance_executor_v1_seed)

abbrev info : TemplateInfo
info = record {
  template_id = 2;
  template_key = "rebalance_executor_v1";
  template_version = "1";
  description = "";
  system_prompt = "";
  allowed_fields = obj rebalance_executor_v1_seed;
  default_config = obj rebalance_executor_v1_seed;
  is_deployable = true;
  benchmark_subject_agent_id = some 7;
  flagship_trust_label = some TrustLabel.benchmarked_canonical_template;
}

shows_the_label :
    get_template_with_flagship_info any_text flagship_store "rebalance_executor_v1" ≡ ok (some info)
unfolding get_template_with_flagship_info record_consent
shows_the_label = refl

reads_the_flagship :
    get_flagship_instance flagship_store "rebalance_executor_v1"
    ≡ some (Flagship.promoted flagship.1)
unfolding get_flagship_instance record_consent
reads_the_flagship = refl

get_template_with_flagship_info-label_example :
    (template : AgentTemplate) × (template_by_key flagship_store "rebalance_executor_v1"
      ≡ some template)
    × (info.flagship_trust_label ≡ (
        if is_some template.benchmark_subject_agent_id
        then some TrustLabel.benchmarked_canonical_template
        else none))
get_template_with_flagship_info-label_example =
    get_template_with_flagship_info-label any_text flagship_store "rebalance_executor_v1"
      shows_the_label reads_the_flagship
