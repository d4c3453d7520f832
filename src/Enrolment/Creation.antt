-- ===== src/Enrolment/Creation.antt =====
-- `create_challenge` of backend/src/services/challenge_service.py, and its queries.
use proof_arena.Base.{
  ℕ, suc, String, Bool, true, false, Option, none, some, List, [], ◌∷◌, ◌++◌, number_equality, leb,
  filter, length,
}
use proof_arena.Base.Int.{ℤ}
use proof_arena.Base.Json.{Json, Items, text, int, arr, obj, nil, cons, field, end}
use proof_arena.Base.Result.{Result, ok, err, ◌>>=◌}
use proof_arena.Base.Sorting.{sorted}
use proof_arena.Db.{Run, Challenge, ChallengeStatus, Store, runs_of_challenge}
use proof_arena.Enrolment.{
  EnrolError, no_program, onchain_failed, Texts, Register, create_run, insert_run,
}

-- the arguments that the tables keep
pub record NewChallenge : Type 0 where
  pub challenge_type : String
  pub starting_usdc : ℤ
  pub swap_intents : List String
  pub allowed_routes : List (List String)
  pub max_slippage_bps : ℤ
  pub iteration_budget : ℤ
  pub time_budget_secs : ℤ
  pub contestant_agent_ids : List ℕ

abbrev pub texts_of : List String → Items
texts_of [] = nil
texts_of (s ∷ ss) = cons (text s) (texts_of ss)

abbrev pub routes_of : List (List String) → Items
routes_of [] = nil
routes_of (r ∷ rs) = cons (arr (texts_of r)) (routes_of rs)

-- `config`
abbrev pub config_of : NewChallenge → Json
config_of new = obj (
    field "allowed_routes" (arr (routes_of new.allowed_routes)) (
      field "iteration_budget" (int new.iteration_budget) (
        field "max_slippage_bps" (int new.max_slippage_bps) (
          field "starting_usdc" (int new.starting_usdc) (
            field "swap_intents" (arr (texts_of new.swap_intents))
              (field "time_budget_secs" (int new.time_budget_secs) end))))))

-- the program client: the address of the challenge, and that of a run
pub record Program : Type 0 where
  pub create_challenge : ℕ → NewChallenge → Result String String
  pub create_run : Register

-- the row, with what is known of the chain
abbrev pub new_challenge :
    (Json → String) → ℕ → ℕ → NewChallenge → ChallengeStatus → Option String → Challenge
new_challenge dumps challenge_id now new status address = record {
  challenge_id = challenge_id;
  challenge_type = new.challenge_type;
  config_json = dumps (config_of new);
  status = status;
  num_contestants = length new.contestant_agent_ids;
  winner_agent_id = none;
  onchain_address = address;
  started_at = none;
  ended_at = none;
  created_at = now;
}

abbrev pub add_challenge : Store → Challenge → Store
add_challenge db challenge = record db { challenges = db.challenges ++ challenge ∷ [] }

-- one `create_run`, which commits
abbrev pub add_run : Texts → Register → Store → ℕ → ℕ → ℕ → Result EnrolError (Store × Run)
add_run texts register db run_id challenge_id agent_id =
    create_run texts (some register) db run_id challenge_id agent_id none none >>= λ run.
    insert_run db run

-- an error leaves what was committed before
abbrev pub and_then :
    Store
    → Result EnrolError (Store × Run)
    → (Store → Store × Result EnrolError (Unit {0}))
    → Store × Result EnrolError (Unit {0})
and_then db (err e) next = (db, err e)
and_then db (ok (db', run)) next = next db'

-- the loop over the contestants; `run_id` is the next key
unfoldable pub create_runs :
    Texts → Register → Store → ℕ → ℕ → List ℕ → Store × Result EnrolError (Unit {0})
unfolding create_run
create_runs texts register db run_id challenge_id [] = (db, ok tt)
create_runs texts register db run_id challenge_id (agent_id ∷ rest) =
    and_then db (add_run texts register db run_id challenge_id agent_id)
      (λ db'. create_runs texts register db' (suc run_id) challenge_id rest)

abbrev pub with_runs :
    Challenge → Store × Result EnrolError (Unit {0}) → Store × Result EnrolError Challenge
with_runs challenge (db, err e) = (db, err e)
with_runs challenge (db, ok done) = (db, ok challenge)

-- what the chain answered
abbrev pub on_created :
    Texts
    → (Json → String)
    → Register
    → Store
    → ℕ
    → ℕ
    → ℕ
    → NewChallenge
    → Result String String
    → Store × Result EnrolError Challenge
on_created texts dumps register db challenge_id run_id now new (err message) = (
  add_challenge db (new_challenge dumps challenge_id now new ChallengeStatus.onchain_failed none),
  err (onchain_failed message),
)
on_created texts dumps register db challenge_id run_id now new (ok address) =
    let challenge =
      new_challenge dumps challenge_id now new ChallengeStatus.pending (some address) in
    with_runs challenge (
      create_runs texts register (add_challenge db challenge) run_id challenge_id
        new.contestant_agent_ids)

-- `create_challenge`: the store after what was committed, and the challenge or what is raised
unfoldable pub create_challenge :
    Texts
    → (Json → String)
    → Option Program
    → Store
    → ℕ
    → ℕ
    → ℕ
    → NewChallenge
    → Store × Result EnrolError Challenge
unfolding create_runs
create_challenge texts dumps none db challenge_id run_id now new = (db, err no_program)
create_challenge texts dumps (some program) db challenge_id run_id now new =
    on_created texts dumps program.create_run db challenge_id run_id now new
      (program.create_challenge challenge_id new)

-- `order_by(created_at.desc())`; ties stay in the order of the table
abbrev pub newest_challenge_first : Challenge → Challenge → Bool
newest_challenge_first a b = leb b.created_at a.created_at

abbrev pub same_status : ChallengeStatus → ChallengeStatus → Bool
same_status ChallengeStatus.pending ChallengeStatus.pending = true
same_status ChallengeStatus.active ChallengeStatus.active = true
same_status ChallengeStatus.completed ChallengeStatus.completed = true
same_status ChallengeStatus.onchain_failed ChallengeStatus.onchain_failed = true
same_status _ _ = false

-- `get_all`, for a status of the enumeration or for none
unfoldable pub get_all : Store → Option ChallengeStatus → List Challenge
get_all db none = sorted newest_challenge_first db.challenges
get_all db (some status) =
    sorted newest_challenge_first (filter (λ c. same_status c.status status) db.challenges)

-- `get_active`
unfoldable pub get_active : Store → List Challenge
get_active db =
    sorted newest_challenge_first
      (filter (λ c. same_status c.status ChallengeStatus.active) db.challenges)

-- `get_runs`
unfoldable pub get_runs : Store → ℕ → List Run
get_runs db challenge_id =
    sorted (λ a b. leb a.agent_id b.agent_id) (runs_of_challenge db challenge_id)
