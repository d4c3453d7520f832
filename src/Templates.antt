-- ===== src/Templates.antt =====
-- backend/src/services/template_service.py: the catalog of templates, whose registration checks what
-- the deploy saga will check.
pub mod Seeds
pub mod Routes
pub mod Registered
pub mod Labelled
use proof_arena.Base.{
  ℕ, String, Bool, true, false, not, ◌&&◌, Option, none, some, List, [], ◌∷◌, ◌++◌, if◌then◌else◌,
  ◌==◌, number_equality, text_equality, ltb, leb, nat_beq, contains, all, filter, head?, is_some,
  map,
}
use mathlib.Core.Option
use proof_arena.Base.Int.{pos, negsuc}
use proof_arena.Base.Float.{one}
use proof_arena.Base.Json.{
  Float, Json, Items, Fields, text, int, bool, float, arr, obj, cons, nil, field, end,
}
use proof_arena.Base.Result.{Result, ok, err, ◌>>=◌}
use proof_arena.Base.Sorting.{sorted}
use proof_arena.Db.{AgentInstance, AgentTemplate, TrustLabel, Store}
use proof_arena.Events.{Loads}
use proof_arena.Policy.{allowed_envelope_fields}
use proof_arena.Policy.Rebalance.{
  EnvelopeError, Raised, rebalance_envelope_fields, template_envelope_registry,
  validate_spec_for_template,
}
use proof_arena.Instances.{template_by_key}
use proof_arena.Instances.Update.{is_live}
use proof_arena.Instances.Flagship.{is_benchmarked}

-- the exceptions of a registration, by the code that raises them; the last two are the errors of
-- `float(w)` and of the database that it passes on
pub data TemplateError : Type 0 where
  unknown_template_key already_exists : String → TemplateError
  fields_not_json fields_not_array fields_not_strings fields_mismatch : TemplateError
  config_not_json config_not_object : TemplateError
  config_invalid : List EnvelopeError → TemplateError
  weight_overflow integrity_error : TemplateError

-- the elements, if each is a string
abbrev pub strings_of : Items → Option (List String)
strings_of nil = some []
strings_of (cons (text s) vs) = Option.map (λ ss. s ∷ ss) (strings_of vs)
strings_of (cons _ vs) = none

-- nothing of either is missing in the other
abbrev pub same_set : List String → List String → Bool
same_set expected provided =
    all (λ k. contains k provided) expected && all (λ k. contains k expected) provided

abbrev pub check_set : List String → Option (List String) → Result TemplateError (Unit {0})
check_set expected none = err fields_not_strings
check_set expected (some provided) =
    if same_set expected provided then ok tt else err fields_mismatch

abbrev pub check_decoded : List String → Option Json → Result TemplateError (Unit {0})
check_decoded expected none = err fields_not_json
check_decoded expected (some (arr vs)) = check_set expected (strings_of vs)
check_decoded expected (some _) = err fields_not_array

abbrev pub check_fields_of :
    Loads → String → String → Option (List String) → Result TemplateError (Unit {0})
check_fields_of loads template_key allowed_fields_json none =
    err (unknown_template_key template_key)
check_fields_of loads template_key allowed_fields_json (some expected) =
    check_decoded expected (loads allowed_fields_json)

-- `_validate_allowed_fields_for_template`
unfoldable pub validate_allowed_fields_for_template :
    Loads → String → String → Result TemplateError (Unit {0})
validate_allowed_fields_for_template loads template_key allowed_fields_json =
    check_fields_of loads template_key allowed_fields_json (template_envelope_registry template_key)

-- `_validate_allowed_fields`, the check at the key of the swap template
unfoldable pub validate_allowed_fields : Loads → String → Result TemplateError (Unit {0})
unfolding validate_allowed_fields_for_template
validate_allowed_fields loads allowed_fields_json =
    validate_allowed_fields_for_template loads "swap_executor_v1" allowed_fields_json

abbrev pub on_errors : List EnvelopeError → Result TemplateError (Unit {0})
on_errors [] = ok tt
on_errors (e ∷ es) = err (config_invalid (e ∷ es))

abbrev pub on_validated : Result Raised (List EnvelopeError) → Result TemplateError (Unit {0})
on_validated (ok errors) = on_errors errors
on_validated (err raised) = err weight_overflow

abbrev pub check_config : String → Option Json → Result TemplateError (Unit {0})
check_config template_key none = err config_not_json
check_config template_key (some (obj fs)) =
    on_validated (validate_spec_for_template template_key fs)
check_config template_key (some _) = err config_not_object

-- `_validate_default_config`
unfoldable pub validate_default_config : Loads → String → String → Result TemplateError (Unit {0})
unfolding validate_spec_for_template
validate_default_config loads template_key default_config_json =
    check_config template_key (loads default_config_json)

-- the arguments of a registration, with the next key and the time
pub record Registration : Type 0 where
  pub template_key : String
  pub template_version : String
  pub description : String
  pub allowed_fields_json : String
  pub default_config_json : String
  pub system_prompt : String
  pub is_deployable : Bool
  pub benchmark_subject_agent_id : Option ℕ
  pub template_id : ℕ
  pub now : ℕ

abbrev pub new_template : Registration → AgentTemplate
new_template r = record {
  template_id = r.template_id;
  template_key = r.template_key;
  template_version = r.template_version;
  description = r.description;
  allowed_fields_json = r.allowed_fields_json;
  default_config_json = r.default_config_json;
  system_prompt = r.system_prompt;
  benchmark_subject_agent_id = r.benchmark_subject_agent_id;
  is_deployable = if r.is_deployable then 1 else 0;
  created_at = r.now;
}

abbrev pub check_absent : String → Option AgentTemplate → Result TemplateError (Unit {0})
check_absent template_key none = ok tt
check_absent template_key (some existing) = err (already_exists template_key)

-- the flush: done, or an IntegrityError and the database as it is after the rollback
pub data Flush : Type 0 where
  flushed : Flush
  refused : Store → Flush

-- the reconciliation after a refused flush
abbrev pub on_refused : String → Option AgentTemplate → TemplateError
on_refused template_key (some existing) = already_exists template_key
on_refused template_key none = integrity_error

abbrev pub on_flush : Store → AgentTemplate → Flush → Result TemplateError (Store × AgentTemplate)
on_flush db template flushed =
    ok (record db { templates = db.templates ++ template ∷ [] }, template)
on_flush db template (refused now) =
    err (on_refused template.template_key (template_by_key now template.template_key))

-- `register_template`
unfoldable pub register_template :
    Loads → Store → Flush → Registration → Result TemplateError (Store × AgentTemplate)
unfolding validate_allowed_fields_for_template validate_default_config
register_template loads db flush r =
    validate_allowed_fields_for_template loads r.template_key r.allowed_fields_json >>= λ fields.
    validate_default_config loads r.template_key r.default_config_json >>= λ config.
    check_absent r.template_key (template_by_key db r.template_key) >>= λ absent.
    on_flush db (new_template r) flush

-- `order_by(created_at.desc(), template_id.desc())`
abbrev pub newest_template_first : AgentTemplate → AgentTemplate → Bool
newest_template_first a b =
    if ltb b.created_at a.created_at
    then true
    else if ltb a.created_at b.created_at
    then false
    else leb b.template_id a.template_id

-- `list_templates`
unfoldable pub list_templates : Store → Bool → List AgentTemplate
list_templates db deployable_only =
    sorted newest_template_first
      (if deployable_only then filter (λ t. t.is_deployable == 1) db.templates else db.templates)

-- the response of `get_template_with_flagship_info`
pub record TemplateInfo : Type 0 where
  pub template_id : ℕ
  pub template_key : String
  pub template_version : String
  pub description : String
  pub system_prompt : String
  pub allowed_fields : Json
  pub default_config : Json
  pub is_deployable : Bool
  pub benchmark_subject_agent_id : Option ℕ
  pub flagship_trust_label : Option TrustLabel

-- the filter of the lookup of the flagship's label
abbrev pub is_labelled : ℕ → AgentInstance → Bool
is_labelled template_id row =
    row.template_id == template_id && is_benchmarked row.trust_label && is_live row.status

abbrev pub label_of : Store → ℕ → Option ℕ → Option TrustLabel
label_of db template_id none = none
label_of db template_id (some agent_id) =
    Option.map (λ (r : AgentInstance). r.trust_label)
      (head? (filter (is_labelled template_id) db.instances))

abbrev pub info_of : Store → AgentTemplate → Option Json → Option Json → Option TemplateInfo
info_of db template (some allowed_fields) (some default_config) = some (record {
  template_id = template.template_id;
  template_key = template.template_key;
  template_version = template.template_version;
  description = template.description;
  system_prompt = template.system_prompt;
  allowed_fields = allowed_fields;
  default_config = default_config;
  is_deployable = not (nat_beq template.is_deployable 0);
  benchmark_subject_agent_id = template.benchmark_subject_agent_id;
  flagship_trust_label = label_of db template.template_id template.benchmark_subject_agent_id;
})
info_of db template _ _ = none

-- the exception of a stored text that is no JSON
pub data InfoError : Type 0 where
  bad_stored_json : InfoError

abbrev pub or_bad : Option TemplateInfo → Result InfoError (Option TemplateInfo)
or_bad none = err bad_stored_json
or_bad (some info) = ok (some info)

abbrev pub found_info :
    Loads → Store → Option AgentTemplate → Result InfoError (Option TemplateInfo)
found_info loads db none = ok none
found_info loads db (some template) =
    or_bad (
      info_of db template (loads template.allowed_fields_json) (loads template.default_config_json))

-- `get_template_with_flagship_info`
unfoldable pub get_template_with_flagship_info :
    Loads → Store → String → Result InfoError (Option TemplateInfo)
get_template_with_flagship_info loads db key = found_info loads db (template_by_key db key)
