-- ===== src/Templates/Registered.antt =====
-- When a template is registered, and that an instance of it can then be deployed.
use proof_arena.Base.{
  find-snoc, ◌≡◌, ◌↔◌, ◌≤◌, inl, inr, refl, sym, ap, ◌∙◌, subst, String, true, Option, none, some,
  List, [], ◌∷◌, ◌++◌, arith, In, All, all, contains, contains_iff, if◌then◌else◌, if_true,
  if_false, Bool-cases, ◌==◌, text_equality, nat_beq,
}
use mathlib.Core.Option.{some-injective}
use package.text.Mathlib.TextEquality.{eq_iff}
use proof_arena.Base.Json.{Json, Fields, arr, obj}
use proof_arena.Base.Result.{Result, ok, err, bind-ok, ok-injective}
use proof_arena.Db.{AgentInstance, AgentTemplate, Store}
use proof_arena.Events.{Loads}
use proof_arena.Policy.Rebalance.{
  EnvelopeError, Raised, template_envelope_registry, validate_spec_for_template,
}
use proof_arena.Policy.Rebalance.Accepted.{FitsTemplate, validate_spec_for_template_iff}
use proof_arena.Wallets.{HostedWallet}
use proof_arena.Instances.{
  Outside, text_length, create_wallet, template_by_key, DeployCall, deploy_instance,
}
use proof_arena.Instances.Deployed.{IsReady, deploy_instance_iff}
use proof_arena.Instances.Branches.{deploy_instance-Ends}
use proof_arena.Templates.{
  strings_of, same_set, check_set, check_decoded, check_fields_of,
  validate_allowed_fields_for_template, on_validated, check_config, validate_default_config,
  Registration, new_template, check_absent, Flush, flushed, refused, on_flush, register_template,
}

-- the same strings, whatever their order and however often
abbrev pub AreSame : List String → List String → Type 0
AreSame expected provided = All (λ k. In k provided) expected × All (λ k. In k expected) provided

all-contains_iff :
    (xs ks : List String) → (all (λ k. contains k xs) ks ≡ true) ↔ All (λ k. In k xs) ks
all-contains_iff xs [] = (λ h. tt, λ h. refl)
all-contains_iff xs (k ∷ ks) = ground (arith, contains_iff k xs, all-contains_iff xs ks)

same_set_iff :
    (expected provided : List String)
    → (same_set expected provided ≡ true) ↔ AreSame expected provided
same_set_iff expected provided =
    ground (arith, all-contains_iff provided expected, all-contains_iff expected provided)

abbrev pub AreFields : List String → Option (List String) → Type 0
AreFields expected none = ⊥
AreFields expected (some provided) = AreSame expected provided

-- a JSON array of the expected strings
abbrev pub IsFieldArray : List String → Option Json → Type 0
IsFieldArray expected (some (arr vs)) = AreFields expected (strings_of vs)
IsFieldArray expected _ = ⊥

-- the array of the fields of the template's envelope
abbrev pub HasFields : String → Option Json → Type 0
HasFields template_key decoded =
    (expected : List String) × (template_envelope_registry template_key ≡ some expected)
    × IsFieldArray expected decoded

-- a JSON object that the deploy of the template accepts
abbrev pub HasConfig : String → Option Json → Type 0
HasConfig template_key decoded =
    (config : Fields) × (decoded ≡ some (obj config)) × FitsTemplate template_key config

-- what a registration needs
abbrev pub IsRegistrable : Loads → Store → Registration → Type 0
IsRegistrable loads db r =
    HasFields r.template_key (loads r.allowed_fields_json)
    × HasConfig r.template_key (loads r.default_config_json)
    × (template_by_key db r.template_key ≡ none)

check_set_iff :
    (expected : List String) (o : Option (List String))
    → (check_set expected o ≡ ok tt) ↔ AreFields expected o
check_set_iff expected none = (λ h. absurd (cc), λ h. absurd h)
check_set_iff expected (some provided) =
    let same = same_set_iff expected provided in
    elim (Bool-cases (same_set expected provided)) [
      | inl e ↦ (λ h. same.0 e, λ h. if_true _ _ _ e)
      | inr e ↦ (
        λ h. absurd (cc (sym (if_false _ _ (same_set expected provided) e) ∙ h)),
        λ h. absurd (cc (same.1 h, e)),
      )
    ]

check_decoded_iff :
    (expected : List String) (decoded : Option Json)
    → (check_decoded expected decoded ≡ ok tt) ↔ IsFieldArray expected decoded
check_decoded_iff expected none = (λ h. absurd (cc), λ h. absurd h)
check_decoded_iff expected (some (arr vs)) = check_set_iff expected (strings_of vs)
check_decoded_iff expected (some v) = (λ h. absurd (cc), λ h. absurd h)

check_fields_of_iff :
    (loads : Loads) (template_key allowed_fields_json : String) (o : Option (List String))
    → (check_fields_of loads template_key allowed_fields_json o ≡ ok tt) ↔ (
        (expected : List String) × (o ≡ some expected)
        × IsFieldArray expected (loads allowed_fields_json))
check_fields_of_iff loads template_key allowed_fields_json none =
    (λ h. absurd (cc), λ (e, same, h). absurd (cc))
check_fields_of_iff loads template_key allowed_fields_json (some expected) =
    let checked = check_decoded_iff expected (loads allowed_fields_json) in
    (
      λ h. (expected, refl, checked.0 h),
      λ (e, same, h). checked.1 (
          subst (λ es. IsFieldArray es (loads allowed_fields_json)) (sym (some-injective _ _ same))
            h),
    )

on_validated_iff : (r : Result Raised (List EnvelopeError)) → (on_validated r ≡ ok tt) ↔ (r ≡ ok [])
on_validated_iff (ok []) = (λ h. refl, λ h. refl)
on_validated_iff (ok (e ∷ es)) = (λ h. absurd (cc), λ h. absurd (cc))
on_validated_iff (err raised) = (λ h. absurd (cc), λ h. absurd (cc))

obj-injective : {a b : Fields} → ◌≡◌ {A = Option Json} (some (obj a)) (some (obj b)) → a ≡ b
obj-injective h = cc

check_config_iff :
    (template_key : String) (decoded : Option Json)
    → (check_config template_key decoded ≡ ok tt) ↔ HasConfig template_key decoded
check_config_iff template_key none = (λ h. absurd (cc), λ (c, e, fits). absurd (cc))
check_config_iff template_key (some (obj fs)) =
    let passed = on_validated_iff (validate_spec_for_template template_key fs) in
    let fits = validate_spec_for_template_iff template_key fs in
    (
      λ h. (fs, refl, fits.0 (passed.0 h)),
      λ (c, same, h).
          passed.1 (fits.1 (subst (FitsTemplate template_key) (sym (obj-injective same)) h)),
    )
check_config_iff template_key (some v) = (λ h. absurd (cc), λ (c, e, fits). absurd (cc))

check_absent_iff :
    (template_key : String) (o : Option AgentTemplate)
    → (check_absent template_key o ≡ ok tt) ↔ (o ≡ none)
check_absent_iff template_key none = (λ h. refl, λ h. refl)
check_absent_iff template_key (some t) = (λ h. absurd (cc), λ h. absurd (cc))

module _ (loads : Loads) (db : Store) (r : Registration) where
  register_template-steps :
      (flush : Flush) {out : Store × AgentTemplate}
      → register_template loads db flush r ≡ ok out
      → IsRegistrable loads db r × (on_flush db (new_template r) flush ≡ ok out)
  unfolding register_template validate_allowed_fields_for_template validate_default_config
  register_template-steps flush h =
      let (_, fields, h1) =
        bind-ok
          (check_fields_of loads r.template_key r.allowed_fields_json
            (template_envelope_registry r.template_key))
          _ h in
      let (_, config, h2) =
        bind-ok (check_config r.template_key (loads r.default_config_json)) _ h1 in
      let (_, absent, h3) =
        bind-ok (check_absent r.template_key (template_by_key db r.template_key)) _ h2 in
      (
        (
          (check_fields_of_iff loads r.template_key r.allowed_fields_json
                (template_envelope_registry r.template_key)).0
              fields,
          (check_config_iff r.template_key (loads r.default_config_json)).0 config,
          (check_absent_iff r.template_key (template_by_key db r.template_key)).0 absent,
        ),
        h3,
      )

  register_template-returns :
      IsRegistrable loads db r
      → register_template loads db flushed r ≡ on_flush db (new_template r) flushed
  unfolding register_template validate_allowed_fields_for_template validate_default_config
  register_template-returns (fields, config, absent) =
      rw
        (
          (check_fields_of_iff loads r.template_key r.allowed_fields_json
                (template_envelope_registry r.template_key)).1
              fields,
          (check_config_iff r.template_key (loads r.default_config_json)).1 config,
          (check_absent_iff r.template_key (template_by_key db r.template_key)).1 absent,
        )
        refl

-- Where the database takes the row, a registration returns exactly if the key is one of the two and has
-- no template yet, the allowed fields are a JSON array of the envelope's fields and of no others, and
-- the default configuration is a JSON object that fits the template. Under the same conditions, and no
-- others, what is stored and returned is the new template, behind the others.
pub register_template_iff :
    (loads : Loads) (db : Store) (r : Registration)
    → (((out : Store × AgentTemplate) × (register_template loads db flushed r ≡ ok out))
        ↔ IsRegistrable loads db r)
      × ((register_template loads db flushed r
            ≡ ok (record db { templates = db.templates ++ new_template r ∷ [] }, new_template r))
          ↔ IsRegistrable loads db r)
register_template_iff loads db r = (
  (
    λ (out, h). (register_template-steps loads db r flushed h).0,
    λ can. (_, register_template-returns loads db r can),
  ),
  (
    λ h. (register_template-steps loads db r flushed h).0,
    λ can. register_template-returns loads db r can,
  ),
)

-- the end of a registration that returns
on_flush-ok :
    (db : Store) (template : AgentTemplate) (flush : Flush) {db' : Store} {t : AgentTemplate}
    → on_flush db template flush ≡ ok (db', t)
    → (db'.templates ≡ db.templates ++ template ∷ []) × (t ≡ template)
on_flush-ok db template flushed h = (
  sym (ap (λ (out : Store × AgentTemplate). out.0.templates) (ok-injective h)),
  sym (ap (λ (out : Store × AgentTemplate). out.1) (ok-injective h)),
)
on_flush-ok db template (refused now) h = absurd (cc)

-- The template that a registration returns can be deployed with its default configuration: for an owner
-- with a reference of at most 128 characters, and where the hosted wallet can be made, the deploy of a
-- deployable one returns an instance of this template.
pub register_template-deployable :
    (o : Outside) (db : Store) (flush : Flush) (r : Registration) (call : DeployCall) {db' : Store}
    {template : AgentTemplate} {wallet : HostedWallet}
    → register_template o.loads db flush r ≡ ok (db', template)
    → r.is_deployable ≡ true
    → call.template_key ≡ r.template_key
    → o.loads r.default_config_json ≡ some (obj call.effective_config)
    → text_length call.owner_ref ≤ 128
    → (create_wallet o).1 ≡ ok wallet
    → (out : Store × AgentInstance) × (deploy_instance o db' call ≡ ok out)
      × (out.1.template_id ≡ template.template_id)
register_template-deployable o db flush r call {db'} {template} {wallet} h can key config bounded
      made =
    let ((fields, (default_config, loaded, fits), absent), ended) =
      register_template-steps o.loads db r flush h in
    let (added, same) = on_flush-ok db (new_template r) flush ended in
    let same_config : default_config ≡ call.effective_config =
      obj-injective (sym loaded ∙ config) in
    let stored : template_by_key db' call.template_key ≡ some (new_template r) =
      rw (key, added)
        (find-snoc (λ (t : AgentTemplate). t.template_key == r.template_key) db.templates
          (new_template r) absent ((eq_iff r.template_key r.template_key).1 refl)) in
    let ready : IsReady o db' call = (
      bounded,
      rw (key, ← same_config) fits,
      (wallet, made),
      (new_template r, stored, ap (λ b. nat_beq (if b then 1 else 0) 0) can),
    ) in
    let (out, deployed) = (deploy_instance_iff o db' call).1 ready in
    let (made_wallet, found, artifacts, made', stored', added', more, names, ends) =
      deploy_instance-Ends o db' call deployed in
    (
      out,
      deployed,
      names.1
          ∙ ap (λ (t : AgentTemplate). t.template_id)
              (some-injective _ _ (sym stored' ∙ stored) ∙ sym same),
    )
