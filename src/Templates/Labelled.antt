-- ===== src/Templates/Labelled.antt =====
-- The label that the catalog shows of the platform's instance.
use proof_arena.Base.{
  ℕ, ◌≡◌, refl, sym, ap, ◌∙◌, subst, String, true, false, ◌&&◌, Option, none, some, List, [], ◌∷◌,
  arith, any, filter, head?, is_some, if◌then◌else◌, Bool-cases, inl, inr, number_equality,
  text_equality,
}
use mathlib.Core.Option
use mathlib.Core.Option.{some-injective}
use proof_arena.Base.Json.{Json}
use proof_arena.Base.Result.{ok, ok-injective}
use proof_arena.Base.Sorting.{sorted}
use proof_arena.Db.{AgentInstance, AgentTemplate, TrustLabel, Store}
use proof_arena.Events.{Loads}
use proof_arena.Instances.{template_by_key}
use proof_arena.Instances.Reads.{newest_first}
use proof_arena.Instances.Flagship.{
  is_benchmarked, is_flagship, instance_of_template, get_flagship_instance,
}
use proof_arena.Templates.{
  TemplateInfo, is_labelled, label_of, info_of, or_bad, found_info, get_template_with_flagship_info,
}

is_benchmarked-label :
    (l : TrustLabel) → is_benchmarked l ≡ true → l ≡ TrustLabel.benchmarked_canonical_template
is_benchmarked-label TrustLabel.benchmarked_canonical_template h = refl
is_benchmarked-label TrustLabel.benchmark_compatible_customized_instance h = absurd (cc)
is_benchmarked-label TrustLabel.external_custom_runtime h = absurd (cc)

-- the label that the first row has which the filter keeps
first_label :
    (template_id : ℕ) (rows : List AgentInstance)
    → Option.map
        (λ (r : AgentInstance). r.trust_label)
        (head? (filter (is_labelled template_id) rows))
      ≡ (if any (is_labelled template_id) rows
          then some TrustLabel.benchmarked_canonical_template
          else none)
first_label template_id [] = refl
first_label template_id (r ∷ rs) = elim (Bool-cases (is_labelled template_id r)) [
  | inl e ↦ rw e (ap some (is_benchmarked-label r.trust_label (ground (arith, e))))
  | inr e ↦ rw e (first_label template_id rs)
]

-- the label is shown for a template with an agent and a labelled instance
abbrev pub shown_label : Store → AgentTemplate → Option TrustLabel
shown_label db template =
    if is_some template.benchmark_subject_agent_id
      && any (is_labelled template.template_id) db.instances
    then some TrustLabel.benchmarked_canonical_template
    else none

label_of-shown :
    (db : Store) (template_id : ℕ) (agent_id : Option ℕ)
    → label_of db template_id agent_id ≡ (
        if is_some agent_id && any (is_labelled template_id) db.instances
        then some TrustLabel.benchmarked_canonical_template
        else none)
label_of-shown db template_id none = refl
label_of-shown db template_id (some a) = first_label template_id db.instances

info_of-label :
    (db : Store) (template : AgentTemplate) (fields config : Option Json) {info : TemplateInfo}
    → info_of db template fields config ≡ some info
    → info.flagship_trust_label ≡ shown_label db template
info_of-label db template none config h = absurd (cc)
info_of-label db template (some f) none h = absurd (cc)
info_of-label db template (some f) (some c) h =
    sym (ap (λ (info : TemplateInfo). info.flagship_trust_label) (some-injective _ _ h))
    ∙ label_of-shown db template.template_id template.benchmark_subject_agent_id

or_bad-ok :
    (o : Option TemplateInfo) {info : TemplateInfo} → or_bad o ≡ ok (some info) → o ≡ some info
or_bad-ok none h = absurd (cc)
or_bad-ok (some i) h = ok-injective h

-- a platform instance that is read has the label
no_flagship :
    (template_id : ℕ) (rows : List AgentInstance)
    → any (is_labelled template_id) rows ≡ false
    → filter (is_flagship template_id) rows ≡ []
no_flagship template_id [] h = refl
no_flagship template_id (r ∷ rs) h = let ih = no_flagship template_id rs in ground (arith, h, ih)

flagship_labelled :
    (db : Store) (o : Option AgentTemplate) {template : AgentTemplate} {row : AgentInstance}
    → o ≡ some template
    → instance_of_template db o ≡ some row
    → any (is_labelled template.template_id) db.instances ≡ true
flagship_labelled db none same found = absurd (cc)
flagship_labelled db (some t) {template} {row} same found =
    elim (Bool-cases (any (is_labelled template.template_id) db.instances)) [
      | inl e ↦ e
      | inr e ↦
          let nothing = no_flagship template.template_id db.instances e in
          let found' =
            subst (λ (t : AgentTemplate). instance_of_template db (some t) ≡ some row)
              (some-injective _ _ same) found in
          let empty : ◌≡◌ {A = Option AgentInstance} none (some row) =
            sym (ap (λ rows. head? (sorted newest_first rows)) nothing) ∙ found' in
          absurd (cc)
    ]

found_info-label :
    (loads : Loads) (db : Store) (o : Option AgentTemplate) {info : TemplateInfo}
    → found_info loads db o ≡ ok (some info)
    → (template : AgentTemplate) × (o ≡ some template)
      × (info.flagship_trust_label ≡ shown_label db template)
found_info-label loads db none h = absurd (cc)
found_info-label loads db (some template) h =
    (template, refl, info_of-label db template _ _ (or_bad-ok _ h))

-- Where the platform's instance of a template is found, the information on the template shows the label
-- of a benchmarked template exactly if the template has its agent, and shows no label otherwise.
pub get_template_with_flagship_info-label :
    (loads : Loads) (db : Store) (key : String) {info : TemplateInfo} {row : AgentInstance}
    → get_template_with_flagship_info loads db key ≡ ok (some info)
    → get_flagship_instance db key ≡ some row
    → (template : AgentTemplate) × (template_by_key db key ≡ some template)
      × (info.flagship_trust_label ≡ (
          if is_some template.benchmark_subject_agent_id
          then some TrustLabel.benchmarked_canonical_template
          else none))
unfolding get_template_with_flagship_info get_flagship_instance
get_template_with_flagship_info-label loads db key h found =
    let (template, stored, label) = found_info-label loads db (template_by_key db key) h in
    let there = flagship_labelled db (template_by_key db key) stored found in
    (
      template,
      stored,
      label
          ∙ ap
              (λ b.
                if is_some template.benchmark_subject_agent_id && b
                then some TrustLabel.benchmarked_canonical_template
                else none)
              there
          ∙ ground arith,
    )
