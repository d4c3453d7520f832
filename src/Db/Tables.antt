-- ===== src/Db/Tables.antt =====
-- The database as the tables that the services read, each in the order in which it is returned; an
-- artifact stands behind its key.
use proof_arena.Base.{ℕ, Option, List, ◌==◌, number_equality, filter, find}
use proof_arena.Db.Rows.{Agent, Challenge, Run, VerificationArtifact, AgentTemplate, AgentInstance}

pub record Store : Type 0 where
  pub agents : List Agent
  pub challenges : List Challenge
  pub runs : List Run
  pub artifacts : List (ℕ × VerificationArtifact)
  pub templates : List AgentTemplate
  pub instances : List AgentInstance

-- `db.get(Table, key)`
abbrev pub get_challenge : Store → ℕ → Option Challenge
get_challenge db key = find (λ row. row.challenge_id == key) db.challenges

abbrev pub get_run : Store → ℕ → Option Run
get_run db key = find (λ row. row.run_id == key) db.runs

abbrev pub get_agent : Store → ℕ → Option Agent
get_agent db key = find (λ row. row.agent_id == key) db.agents

abbrev pub get_instance : Store → ℕ → Option AgentInstance
get_instance db key = find (λ row. row.instance_id == key) db.instances

abbrev pub get_template : Store → ℕ → Option AgentTemplate
get_template db key = find (λ row. row.template_id == key) db.templates

-- `select(Run).where(Run.challenge_id == challenge_id)`
abbrev pub runs_of_challenge : Store → ℕ → List Run
runs_of_challenge db key = filter (λ row. row.challenge_id == key) db.runs
