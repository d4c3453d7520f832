-- ===== src/Instances/Platform.antt =====
-- The platform's own deploys leave the stored instances sound.
use proof_arena.Base.{
  ℕ, ◌≡◌, ◌<◌, refl, sym, ap, ◌∙◌, subst, String, Option, none, some, List, [], ◌∷◌, ◌++◌, arith,
  All, ◌==◌, number_equality, find, if_true, if_false, Bool-cases, inl, inr,
}
use proof_arena.Base.Json.{Fields}
use proof_arena.Base.Result.{Result, ok, err, bind-ok, ok-injective}
use proof_arena.Db.{Agent, AgentInstance, AgentTemplate, Store, get_instance}
use proof_arena.Instances.{Outside, DeployError, deploy_instance, template_by_key}
use proof_arena.Instances.Update.{is_live}
use proof_arena.Instances.Flagship.{
  FlagshipError, or_fail, linked_agent, or_reserve, bootstrap_flagship, get_flagship_instance,
  check_lineage, as_config, platform_call, promoted, on_deployed, unless_present,
  deploy_flagship_instance,
}
use proof_arena.Instances.Standing.{AreSound, IsFresh}
use proof_arena.Instances.Sound.{deploy_instance-AreSound, deploy_instance-row}
use proof_arena.Instances.Repaired.{rewrite-AreSound_alone, stored-IsSound}

-- a fresh key is found at the end, where it was added
find-fresh :
    (key : ℕ) (rows : List AgentInstance) (row : AgentInstance)
    → All (λ (r : AgentInstance). r.instance_id < key) rows
    → row.instance_id ≡ key
    → find (λ (r : AgentInstance). r.instance_id == key) (rows ++ row ∷ []) ≡ some row
find-fresh key [] row fresh own = ground arith
find-fresh key (r ∷ rs) row fresh own = ground (arith, find-fresh key rs row fresh.1 own)

pub fresh_found :
    (db db' : Store) (row : AgentInstance)
    → IsFresh row.instance_id db
    → db'.instances ≡ db.instances ++ row ∷ []
    → get_instance db' row.instance_id ≡ some row
fresh_found db db' row fresh added =
    ap (find (λ (r : AgentInstance). r.instance_id == row.instance_id)) added
    ∙ find-fresh row.instance_id db.instances row fresh refl

module _ (o : Outside) (db : Store) (instance_id artifact_id now : ℕ) (template_key : String)
    (fresh : IsFresh instance_id db) (sound : AreSound o.sha256 db) where
  on_deployed-AreSound :
      (config : Fields) (r : Result DeployError (Store × AgentInstance))
      {out : Store × AgentInstance}
      → deploy_instance o db (platform_call instance_id artifact_id now template_key config) ≡ r
      → on_deployed r ≡ ok out
      → AreSound o.sha256 out.0
  on_deployed-AreSound config (err e) deployed h = absurd (cc)
  on_deployed-AreSound config (ok (db', row)) deployed h =
      let call = platform_call instance_id artifact_id now template_key config in
      let (added, key, owner) = deploy_instance-row o db call deployed in
      let sound' = deploy_instance-AreSound o db call deployed sound in
      let found = fresh_found db db' row (subst (λ (k : ℕ). IsFresh k db) (sym key) fresh) added in
      let was = stored-IsSound o.sha256 db' row.instance_id row sound' found in
      elim (Bool-cases (is_live row.status)) [
        | inl live ↦
            subst (λ (out : Store × AgentInstance). AreSound o.sha256 out.0)
              (ok-injective (sym (if_true _ _ _ live) ∙ h))
              (rewrite-AreSound_alone o.sha256 db' (promoted row) row found refl refl refl
                was.stands was.has_wallet owner sound')
        | inr dead ↦
            subst (λ (out : Store × AgentInstance). AreSound o.sha256 out.0)
              (ok-injective (sym (if_false _ _ _ dead) ∙ h)) sound'
      ]

  unless_present-AreSound :
      (template : AgentTemplate) (existing : Option AgentInstance) {out : Store × AgentInstance}
      → unless_present o db instance_id artifact_id now template_key template existing ≡ ok out
      → AreSound o.sha256 out.0
  unless_present-AreSound template (some row) h =
      subst (λ (out : Store × AgentInstance). AreSound o.sha256 out.0) (ok-injective h) sound
  unless_present-AreSound template none h =
      let (config, read, h1) = bind-ok (as_config (o.loads template.default_config_json)) _ h in
      on_deployed-AreSound config _ refl h1

  pub deploy_flagship_instance-AreSound :
      {db' : Store} {row : AgentInstance}
      → deploy_flagship_instance (some o) db instance_id artifact_id now template_key
        ≡ ok (db', row)
      → AreSound o.sha256 db'
  unfolding deploy_flagship_instance
  deploy_flagship_instance-AreSound h =
      let (template, read, h1) =
        bind-ok (or_fail FlagshipError.template_not_found (template_by_key db template_key)) _ h in
      let (agent, linked, h2) =
        bind-ok (check_lineage db template template.benchmark_subject_agent_id) _ h1 in
      unless_present-AreSound template (get_flagship_instance db template_key) h2

module _ (sha256 : String → String) (hash : String → String) (db : Store) (agent_id : ℕ)
    (template_key : String) (sound : AreSound sha256 db) where
  or_reserve-AreSound :
      (template : AgentTemplate) (existing : Option Agent)
      → AreSound sha256 (or_reserve hash db agent_id template_key template existing).0
  or_reserve-AreSound template none = sound
  or_reserve-AreSound template (some agent) = sound

  pub bootstrap_flagship-AreSound :
      {db' : Store} {agent : Agent}
      → bootstrap_flagship hash db agent_id template_key ≡ ok (db', agent)
      → AreSound sha256 db'
  unfolding bootstrap_flagship
  bootstrap_flagship-AreSound h =
      let (template, read, h1) =
        bind-ok (or_fail FlagshipError.template_not_found (template_by_key db template_key)) _ h in
      subst (λ (out : Store × Agent). AreSound sha256 out.0) (ok-injective h1)
        (or_reserve-AreSound template (linked_agent db template.benchmark_subject_agent_id))
