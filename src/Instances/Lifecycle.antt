-- ===== src/Instances/Lifecycle.antt =====
-- The steps that change instances: deploys, updates, the operator's repairs, and the platform's own.
use proof_arena.Base.{ℕ, ◌≡◌, sym, subst, String, Option, some}
use proof_arena.Base.Result.{ok}
use proof_arena.Db.{Agent, AgentInstance, Store}
use proof_arena.Events.{Loads}
use proof_arena.Instances.{Outside, DeployCall, deploy_instance}
use proof_arena.Instances.Update.{UpdateCall, update_instance_config}
use proof_arena.Instances.Operator.{
  RetryConsentBody, retry_consent, Runtime, TeardownResponse, teardown_instance,
}
use proof_arena.Instances.Flagship.{bootstrap_flagship, deploy_flagship_instance}
use proof_arena.Instances.Standing.{AreSound, IsFresh}
use proof_arena.Instances.Sound.{deploy_instance-AreSound}
use proof_arena.Instances.Updated.{update_instance_config-AreSound}
use proof_arena.Instances.Repaired.{retry_consent-AreSound, teardown_instance-AreSound}
use proof_arena.Instances.Platform.{deploy_flagship_instance-AreSound, bootstrap_flagship-AreSound}

-- One committed operation; the outside answers each anew, and only SHA-256 is the same in all. A call
-- that raises stores nothing, so it is no step. New keys lie above those that are stored.
pub data Step (sha256 : String → String) (db db' : Store) : Type 0 where
  deploys :
      (o : Outside) (call : DeployCall) (row : AgentInstance)
      → o.sha256 ≡ sha256
      → deploy_instance o db call ≡ ok (db', row)
      → Step sha256 db db'
  updates :
      (o : Outside) (call : UpdateCall) (row : AgentInstance)
      → o.sha256 ≡ sha256
      → IsFresh call.new_instance_id db
      → update_instance_config o db call ≡ ok (db', row)
      → Step sha256 db db'
  repairs :
      (o : Outside) (artifact_id instance_id : ℕ) (body : RetryConsentBody) (row : AgentInstance)
      → o.sha256 ≡ sha256
      → retry_consent o db artifact_id instance_id body ≡ ok (db', row)
      → Step sha256 db db'
  tears_down :
      (loads : Loads) (runtime : Option Runtime) (instance_id : ℕ) (response : TeardownResponse)
      → teardown_instance loads runtime db instance_id ≡ ok (db', response)
      → Step sha256 db db'
  reserves :
      (hash : String → String) (agent_id : ℕ) (template_key : String) (agent : Agent)
      → bootstrap_flagship hash db agent_id template_key ≡ ok (db', agent)
      → Step sha256 db db'
  deploys_flagship :
      (o : Outside) (instance_id artifact_id now : ℕ) (template_key : String) (row : AgentInstance)
      → o.sha256 ≡ sha256
      → IsFresh instance_id db
      → deploy_flagship_instance (some o) db instance_id artifact_id now template_key
        ≡ ok (db', row)
      → Step sha256 db db'

pub data Reach (sha256 : String → String) (start : Store) : Store → Type 0 where
  here : Reach sha256 start start
  next : {db db' : Store} → Reach sha256 start db → Step sha256 db db' → Reach sha256 start db'

Step-AreSound :
    (sha256 : String → String) {db db' : Store}
    → Step sha256 db db'
    → AreSound sha256 db
    → AreSound sha256 db'
Step-AreSound sha256 {db} {db'} (deploys o call row same h) sound =
    subst (λ sha. AreSound sha db') same
      (deploy_instance-AreSound o db call h (subst (λ sha. AreSound sha db) (sym same) sound))
Step-AreSound sha256 {db} {db'} (updates o call row same fresh h) sound =
    subst (λ sha. AreSound sha db') same
      (update_instance_config-AreSound o db call fresh
        (subst (λ sha. AreSound sha db) (sym same) sound) h)
Step-AreSound sha256 {db} {db'} (repairs o artifact_id instance_id body row same h) sound =
    subst (λ sha. AreSound sha db') same
      (retry_consent-AreSound o db artifact_id instance_id body
        (subst (λ sha. AreSound sha db) (sym same) sound) h)
Step-AreSound sha256 {db} {db'} (tears_down loads runtime instance_id response h) sound =
    teardown_instance-AreSound sha256 db sound loads runtime instance_id h
Step-AreSound sha256 {db} {db'} (reserves hash agent_id template_key agent h) sound =
    bootstrap_flagship-AreSound sha256 hash db agent_id template_key sound h
Step-AreSound sha256 {db} {db'}
      (deploys_flagship o instance_id artifact_id now template_key row same fresh h) sound =
    subst (λ sha. AreSound sha db') same
      (deploy_flagship_instance-AreSound o db instance_id artifact_id now template_key fresh
        (subst (λ sha. AreSound sha db) (sym same) sound) h)

-- Whatever deploys, updates, repairs, teardowns and platform deploys are committed, and whatever the
-- wallet service, the runtime and the JSON reader answer: if each stored instance was sound before,
-- each is afterwards. A sound instance is live with a handle, no failure reason and a stored consent
-- whose hash is that of its text; or its saga failed after the wallet or at the consent, and the reason
-- says which; or it is torn down with no reason left. It has a wallet; it has the flagship's label only
-- if the platform owns it; and what supersedes it is a later instance of its owner.
pub Reach-AreSound :
    (sha256 : String → String) (start : Store) {db : Store}
    → AreSound sha256 start
    → Reach sha256 start db
    → AreSound sha256 db
Reach-AreSound sha256 start sound here = sound
Reach-AreSound sha256 start sound (next r step) =
    Step-AreSound sha256 step (Reach-AreSound sha256 start sound r)
