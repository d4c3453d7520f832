-- ===== src/Instances/Singleton.antt =====
-- The platform's instance of a template is deployed once.
use proof_arena.Base.{
  ℕ, ◌≡◌, refl, sym, ap, ◌∙◌, subst, String, Bool, true, Option, none, some, List, [], ◌∷◌, ◌++◌,
  arith, ◌==◌, number_equality, text_equality, nat_beq_iff, find, filter, head?, is_some, if_true,
  if_false, Bool-cases, inl, inr,
}
use mathlib.Core.Option.{some-injective}
use proof_arena.Base.Sorting.{insert_sorted, sorted}
use proof_arena.Base.Json.{Fields}
use proof_arena.Base.Result.{Result, ok, err, bind-ok, ok-injective}
use proof_arena.Db.{Agent, AgentInstance, AgentTemplate, SagaStatus, Store}
use proof_arena.Instances.{Outside, DeployError, DeployCall, deploy_instance, template_by_key}
use proof_arena.Instances.Reads.{newest_first}
use proof_arena.Instances.Update.{is_live, replace, write_row}
use proof_arena.Instances.Flagship.{
  FlagshipError, or_fail, is_flagship, instance_of_template, get_flagship_instance, check_lineage,
  as_config, platform_call, promoted, on_deployed, unless_present, deploy_flagship_instance,
}
use proof_arena.Instances.Standing.{IsFresh}
use proof_arena.Instances.Deployed.{deploy_instance-steps}
use proof_arena.Instances.Branches.{deploy_instance-Ends}
use proof_arena.Instances.Found.{is_live_iff, replace-last}

insert_sorted-some :
    {A : Type 0} (le : A → A → Bool) (x : A) (xs : List A)
    → ¬ (head? (insert_sorted le x xs) ≡ none)
insert_sorted-some le x [] h = absurd (cc)
insert_sorted-some le x (y ∷ ys) h = elim (Bool-cases (le x y)) [
  | inl e ↦ absurd (cc (e, h))
  | inr e ↦ absurd (cc (e, h))
]

-- no first element, no element
sorted-none : {A : Type 0} (le : A → A → Bool) (xs : List A) → head? (sorted le xs) ≡ none → xs ≡ []
sorted-none le [] h = refl
sorted-none le (x ∷ xs) h = absurd (insert_sorted-some le x (sorted le xs) h)

filter-append_last :
    {A : Type 0} (test : A → Bool) (xs : List A) (x : A)
    → filter test xs ≡ []
    → test x ≡ true
    → filter test (xs ++ x ∷ []) ≡ x ∷ []
filter-append_last test [] x h passes = rw passes refl
filter-append_last test (y ∷ ys) x h passes =
    ground (arith, h, passes, filter-append_last test ys x)

or_fail-ok :
    {A : Type 0} (e : FlagshipError) (r : Option A) {a : A} → or_fail e r ≡ ok a → r ≡ some a
or_fail-ok e none h = absurd (cc)
or_fail-ok e (some a) h = ap some (ok-injective h)

-- where the store has the template, its agent and the instance, a call returns the instance
present-returns :
    (o : Outside) (db : Store) (instance_id artifact_id now : ℕ) (template_key : String)
    (template : AgentTemplate) (agent : Agent) (row : AgentInstance)
    → template_by_key db template_key ≡ some template
    → check_lineage db template template.benchmark_subject_agent_id ≡ ok agent
    → get_flagship_instance db template_key ≡ some row
    → deploy_flagship_instance (some o) db instance_id artifact_id now template_key ≡ ok (db, row)
unfolding deploy_flagship_instance get_flagship_instance
present-returns o db instance_id artifact_id now template_key template agent row stored linked
      present =
    let found : instance_of_template db (some template) ≡ some row =
      subst (λ (t : Option AgentTemplate). instance_of_template db t ≡ some row) stored present in
    rw (stored, linked, found) refl

-- the platform's live row of a template
is_flagship-promoted :
    (template_id : ℕ) (row : AgentInstance)
    → row.instance_owner_ref ≡ "platform:flagship"
    → row.status ≡ SagaStatus.live
    → row.superseded_by_instance_id ≡ none
    → row.template_id ≡ template_id
    → is_flagship template_id (promoted row) ≡ true
is_flagship-promoted template_id row owner live last named =
    rw
      (owner, ap is_live live, ap is_some last, named, (nat_beq_iff template_id template_id).1 refl)
      refl

-- a store that has one row more, which is the platform's
get_flagship_instance-added :
    (db db' : Store) (template_key : String) (template : AgentTemplate) (row : AgentInstance)
    → template_by_key db template_key ≡ some template
    → get_flagship_instance db template_key ≡ none
    → db'.templates ≡ db.templates
    → db'.instances ≡ db.instances ++ row ∷ []
    → is_flagship template.template_id row ≡ true
    → get_flagship_instance db' template_key ≡ some row
unfolding get_flagship_instance
get_flagship_instance-added db db' template_key template row stored absent same added passes =
    let test = is_flagship template.template_id in
    let nothing : filter test db.instances ≡ [] =
      sorted-none newest_first _
        (subst (λ (t : Option AgentTemplate). instance_of_template db t ≡ none) stored absent) in
    ap
      (λ ts.
        instance_of_template db' (find (λ (t : AgentTemplate). t.template_key == template_key) ts))
      same
    ∙ ap (instance_of_template db') stored
    ∙ ap (λ rows. head? (sorted newest_first (filter test rows))) added
    ∙ ap (λ rows. head? (sorted newest_first rows))
        (filter-append_last test db.instances row nothing passes)

-- a deploy leaves the templates and the agents
deploy_instance-rest :
    (o : Outside) (db : Store) (call : DeployCall) {db' : Store} {row : AgentInstance}
    → deploy_instance o db call ≡ ok (db', row)
    → (db'.templates ≡ db.templates) × (db'.agents ≡ db.agents)
deploy_instance-rest o db call deployed =
    let (bounded, fits, (wallet, template, made, stored, can, same)) =
      deploy_instance-steps o db call deployed in
    (
      sym (ap (λ (out : Store × AgentInstance). out.0.templates) same),
      sym (ap (λ (out : Store × AgentInstance). out.0.agents) same),
    )

module _ (o o' : Outside) (db : Store)
    (instance_id instance_id' artifact_id artifact_id' now now' : ℕ) (template_key : String) where
  -- the instance is there, and a call finds it
  abbrev pub IsThere : Store × AgentInstance → Type 0
  IsThere (db', row) =
      (get_flagship_instance db' template_key ≡ some row)
      × (deploy_flagship_instance (some o') db' instance_id' artifact_id' now' template_key
          ≡ ok (db', row))

  module _ (fresh : IsFresh instance_id db) (template : AgentTemplate) (agent : Agent)
      (stored : template_by_key db template_key ≡ some template)
      (linked : check_lineage db template template.benchmark_subject_agent_id ≡ ok agent) where
    promoted-IsThere :
        (config : Fields) (db1 : Store) (row : AgentInstance)
        → get_flagship_instance db template_key ≡ none
        → deploy_instance o db (platform_call instance_id artifact_id now template_key config)
          ≡ ok (db1, row)
        → row.status ≡ SagaStatus.live
        → IsThere (write_row db1 (promoted row), promoted row)
    promoted-IsThere config db1 row absent deployed live =
        let call = platform_call instance_id artifact_id now template_key config in
        let (wallet, template', artifacts, made, stored', added, more, names, ends) =
          deploy_instance-Ends o db call deployed in
        let (key, named, version, owner, config', address, ref, label, last) = names in
        let (same_templates, same_agents) = deploy_instance-rest o db call deployed in
        let same_template = some-injective _ _ (sym stored' ∙ stored) in
        let db2 = write_row db1 (promoted row) in
        let grown : db2.instances ≡ db.instances ++ promoted row ∷ [] =
          ap (replace row.instance_id (promoted row)) added
          ∙ replace-last row (promoted row) db.instances
              (subst (λ (k : ℕ). IsFresh k db) (sym key) fresh) in
        let passes =
          is_flagship-promoted template.template_id row owner live last
            (named ∙ ap (λ (t : AgentTemplate). t.template_id) same_template) in
        let there =
          get_flagship_instance-added db db2 template_key template (promoted row) stored absent
            same_templates grown passes in
        (
          there,
          present-returns o' db2 instance_id' artifact_id' now' template_key template agent
              (promoted row)
              (ap (λ ts. find (λ (t : AgentTemplate). t.template_key == template_key) ts)
                  same_templates
                ∙ stored)
              (ap
                  (λ (agents : List Agent).
                    check_lineage (record db2 { agents = agents }) template
                      template.benchmark_subject_agent_id)
                  same_agents
                ∙ linked)
              there,
        )

    on_deployed-IsThere :
        (config : Fields) (r : Result DeployError (Store × AgentInstance))
        {out : Store × AgentInstance}
        → get_flagship_instance db template_key ≡ none
        → deploy_instance o db (platform_call instance_id artifact_id now template_key config) ≡ r
        → on_deployed r ≡ ok out
        → out.1.status ≡ SagaStatus.live
        → IsThere out
    on_deployed-IsThere config (err e) absent deployed h live = absurd (cc)
    on_deployed-IsThere config (ok (db1, row)) {out} absent deployed h live =
        elim (Bool-cases (is_live row.status)) [
          | inl is ↦
              subst IsThere (ok-injective (sym (if_true _ _ (is_live row.status) is) ∙ h))
                (promoted-IsThere config db1 row absent deployed ((is_live_iff row.status).0 is))
          | inr is_not ↦
              let same = ok-injective (sym (if_false _ _ (is_live row.status) is_not) ∙ h) in
              let is =
                (is_live_iff row.status).1
                  (ap (λ (out : Store × AgentInstance). out.1.status) same ∙ live) in
              absurd (cc (is, is_not))
        ]

    unless_present-IsThere :
        (existing : Option AgentInstance) {out : Store × AgentInstance}
        → get_flagship_instance db template_key ≡ existing
        → unless_present o db instance_id artifact_id now template_key template existing ≡ ok out
        → out.1.status ≡ SagaStatus.live
        → IsThere out
    unless_present-IsThere (some row) present h live = subst IsThere (ok-injective h) (
      present,
      present-returns o' db instance_id' artifact_id' now' template_key template agent row stored
          linked present,
    )
    unless_present-IsThere none absent h live =
        let (config, read, h1) = bind-ok (as_config (o.loads template.default_config_json)) _ h in
        on_deployed-IsThere config _ absent refl h1 live

-- A platform deploy that ends live is the only one: the read of the platform's instance finds it, and a
-- further deploy of the template, whatever the outside then answers, writes nothing and returns it.
pub deploy_flagship_instance-once :
    (o o' : Outside) (db : Store) (instance_id instance_id' artifact_id artifact_id' now now' : ℕ)
    (template_key : String) {db' : Store} {row : AgentInstance}
    → IsFresh instance_id db
    → deploy_flagship_instance (some o) db instance_id artifact_id now template_key ≡ ok (db', row)
    → row.status ≡ SagaStatus.live
    → (get_flagship_instance db' template_key ≡ some row)
      × (deploy_flagship_instance (some o') db' instance_id' artifact_id' now' template_key
          ≡ ok (db', row))
unfolding deploy_flagship_instance
deploy_flagship_instance-once o o' db instance_id instance_id' artifact_id artifact_id' now now'
      template_key fresh h live =
    let (template, read, h1) =
      bind-ok (or_fail FlagshipError.template_not_found (template_by_key db template_key)) _ h in
    let (agent, linked, h2) =
      bind-ok (check_lineage db template template.benchmark_subject_agent_id) _ h1 in
    unless_present-IsThere o o' db instance_id instance_id' artifact_id artifact_id' now now'
      template_key fresh template agent (or_fail-ok _ _ read) linked
      (get_flagship_instance db template_key) refl h2 live
