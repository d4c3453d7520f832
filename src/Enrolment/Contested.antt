-- ===== src/Enrolment/Contested.antt =====
-- What a challenge that was created, with its contestants, has in the database.
use proof_arena.Base.{
  ℕ, suc, ◌≡◌, refl, sym, ap, ◌∙◌, subst, String, Option, none, some, List, [], ◌∷◌, ◌++◌, map,
  arith, All, find-snoc, find-passes, length, ◌==◌, number_equality, nat_beq_iff,
}
use mathlib.Core.Option.{some-injective}
use mathlib.Core.List.{append-nil, append_assoc}
use proof_arena.Base.Int.{ℤ}
use proof_arena.Base.Json.{Json, int}
use proof_arena.Base.Result.{Result, ok, err, bind-ok, ok-injective}
use proof_arena.Db.{Run, Agent, Challenge, ChallengeStatus, Store, get_challenge, get_agent}
use proof_arena.Enrolment.{
  EnrolError, challenge_not_found, agent_not_found, Texts, Register, or_err, starting_value,
  registered, register_run, create_run, insert_run,
}
use proof_arena.Enrolment.Start.{or_err_ok}
use proof_arena.Enrolment.Creation.{
  NewChallenge, config_of, Program, new_challenge, add_challenge, add_run, and_then, create_runs,
  with_runs, on_created, create_challenge,
}

-- a run of the challenge, with the money that it starts with
abbrev pub IsEntry : ℕ → ℤ → Run → Type 0
IsEntry challenge_id value run = (run.challenge_id ≡ challenge_id) × (run.starting_value ≡ value)

-- the runs that were added, one for each agent and in their order
abbrev pub AreEntries : Store → ℕ → ℤ → List ℕ → Store → List Run → Type 0
AreEntries db challenge_id value agent_ids db' runs =
    (db'.challenges ≡ db.challenges)
    × (db'.agents ≡ db.agents)
    × (db'.runs ≡ db.runs ++ runs)
    × (map (λ (r : Run). r.agent_id) runs ≡ agent_ids)
    × All (IsEntry challenge_id value) runs

registered-keys :
    (r : Result String String) (run : Run)
    → ((registered r run).challenge_id ≡ run.challenge_id)
      × ((registered r run).agent_id ≡ run.agent_id)
      × ((registered r run).starting_value ≡ run.starting_value)
registered-keys (ok address) run = (refl, refl, refl)
registered-keys (err message) run = (refl, refl, refl)

register_run-keys :
    (program : Option Register) (address : Option String) (run : Run)
    → ((register_run program address run).challenge_id ≡ run.challenge_id)
      × ((register_run program address run).agent_id ≡ run.agent_id)
      × ((register_run program address run).starting_value ≡ run.starting_value)
register_run-keys none address run = (refl, refl, refl)
register_run-keys (some create) none run = (refl, refl, refl)
register_run-keys (some create) (some a) run =
    registered-keys (create run.challenge_id run.agent_id run.benchmark_wallet_address a) run

insert_run-ok :
    (db : Store) (run : Run) {out : Store × Run}
    → insert_run db run ≡ ok out
    → out ≡ (record db { runs = db.runs ++ run ∷ [] }, run)
insert_run-ok db run h = ground arith

and_then-ok :
    (db : Store) (r : Result EnrolError (Store × Run))
    (next : Store → Store × Result EnrolError (Unit {0})) {db' : Store}
    → and_then db r next ≡ (db', ok tt)
    → (mid : Store) × (run : Run) × (r ≡ ok (mid, run)) × (next mid ≡ (db', ok tt))
and_then-ok db (ok (mid, run)) next h = (mid, run, refl, h)
and_then-ok db (err e) next h =
    absurd (cc (ap (λ (p : Store × Result EnrolError (Unit {0})). p.1) h))

module _ (texts : Texts) (register : Register) (challenge : Challenge) (value : ℤ)
    (starts : starting_value texts challenge ≡ ok value) where
  -- the run that is created, from the challenge and the agent that are found
  create_run-keys :
      (db : Store) (run_id agent_id : ℕ) {made : Run}
      → get_challenge db challenge.challenge_id ≡ some challenge
      → create_run texts (some register) db run_id challenge.challenge_id agent_id none none
        ≡ ok made
      → (made.agent_id ≡ agent_id) × IsEntry challenge.challenge_id value made
  unfolding create_run
  create_run-keys db run_id agent_id {made} stored h =
      let (found, read, h1) =
        bind-ok (or_err challenge_not_found (get_challenge db challenge.challenge_id)) _ h in
      let (agent, named, h2) = bind-ok (or_err agent_not_found (get_agent db agent_id)) _ h1 in
      let (v, worth, h3) = bind-ok (starting_value texts found) _ h2 in
      let same : found ≡ challenge = some-injective _ _ (sym (or_err_ok _ _ read) ∙ stored) in
      let same_value : v ≡ value =
        ok-injective (sym worth ∙ ap (starting_value texts) same ∙ starts) in
      let (key, owner, money) = register_run-keys (some register) agent.onchain_address _ in
      subst (λ (r : Run). (r.agent_id ≡ agent_id) × IsEntry challenge.challenge_id value r)
        (ok-injective h3)
        (
          owner
              ∙ (nat_beq_iff agent.agent_id agent_id).0 (
                  find-passes (λ (a : Agent). a.agent_id == agent_id) db.agents
                    (or_err_ok _ _ named)),
          (key ∙ ap (λ (c : Challenge). c.challenge_id) same, money ∙ same_value),
        )

  create_runs-AreEntries :
      (db : Store) (run_id : ℕ) (agent_ids : List ℕ) {db' : Store}
      → get_challenge db challenge.challenge_id ≡ some challenge
      → create_runs texts register db run_id challenge.challenge_id agent_ids ≡ (db', ok tt)
      → (runs : List Run) × AreEntries db challenge.challenge_id value agent_ids db' runs
  unfolding create_runs
  create_runs-AreEntries db run_id [] {db'} stored h =
      let same : db ≡ db' = ap (λ (p : Store × Result EnrolError (Unit {0})). p.0) h in
      (
        [],
        subst (λ (d : Store). AreEntries db challenge.challenge_id value [] d []) same
            (refl, refl, sym (append-nil db.runs), refl, tt),
      )
  create_runs-AreEntries db run_id (agent_id ∷ rest) {db'} stored h =
      let (mid, run, added, h') =
        and_then-ok db (add_run texts register db run_id challenge.challenge_id agent_id)
          (λ db'. create_runs texts register db' (suc run_id) challenge.challenge_id rest) h in
      let (made, created, inserted) =
        bind-ok
          (create_run texts (some register) db run_id challenge.challenge_id agent_id none none) _
          added in
      let grown = insert_run-ok db made inserted in
      let (own, entry) = create_run-keys db run_id agent_id stored created in
      let mid_is : mid ≡ record db { runs = db.runs ++ made ∷ [] } =
        ap (λ (p : Store × Run). p.0) grown in
      let (runs, (challenges, agents, more, ids, entries)) =
        create_runs-AreEntries mid (suc run_id) rest
          (subst (λ (d : Store). get_challenge d challenge.challenge_id ≡ some challenge)
            (sym mid_is) stored)
          h' in
      (
        made ∷ runs,
        (
          challenges ∙ ap (λ (d : Store). d.challenges) mid_is,
          agents ∙ ap (λ (d : Store). d.agents) mid_is,
          more ∙ ap (λ (d : Store). d.runs ++ runs) mid_is ∙ append_assoc db.runs (made ∷ []) runs,
          ap (λ k. k ∷ map (λ (r : Run). r.agent_id) runs) own ∙ ap (λ ks. agent_id ∷ ks) ids,
          (entry, entries),
        ),
      )

with_runs-ok :
    (challenge : Challenge) (out : Store × Result EnrolError (Unit {0})) {db' : Store}
    {c : Challenge}
    → with_runs challenge out ≡ (db', ok c)
    → (out ≡ (db', ok tt)) × (c ≡ challenge)
with_runs-ok challenge (db, ok done) {db'} h = (
  ap (λ (d : Store). (d, ok tt)) (ap (λ (p : Store × Result EnrolError Challenge). p.0) h),
  sym (ok-injective (ap (λ (p : Store × Result EnrolError Challenge). p.1) h)),
)
with_runs-ok challenge (db, err e) h =
    let raised = ap (λ (p : Store × Result EnrolError Challenge). p.1) h in absurd (cc)

-- the values that the code reads back are those that it wrote
abbrev pub ReadsBack : Texts → (Json → String) → NewChallenge → Type 0
ReadsBack texts dumps new =
    (texts.loads (dumps (config_of new)) ≡ some (config_of new))
    × (texts.to_int (int new.starting_usdc) ≡ some new.starting_usdc)

-- what is stored of a challenge that is returned
abbrev pub IsContest : Store → ℕ → NewChallenge → Store → Challenge → Type 0
IsContest db challenge_id new db' challenge =
    (challenge.challenge_id ≡ challenge_id)
    × (challenge.status ≡ ChallengeStatus.pending)
    × (challenge.num_contestants ≡ length new.contestant_agent_ids)
    × (db'.challenges ≡ db.challenges ++ challenge ∷ [])
    × ((runs : List Run) × (db'.runs ≡ db.runs ++ runs)
        × (map (λ (r : Run). r.agent_id) runs ≡ new.contestant_agent_ids)
        × All (IsEntry challenge_id new.starting_usdc) runs)

module _ (texts : Texts) (dumps : Json → String) (db : Store) (challenge_id run_id now : ℕ)
    (new : NewChallenge) (fresh : get_challenge db challenge_id ≡ none)
    (reads : ReadsBack texts dumps new) where
  on_created-IsContest :
      (register : Register) (r : Result String String) {db' : Store} {challenge : Challenge}
      → on_created texts dumps register db challenge_id run_id now new r ≡ (db', ok challenge)
      → IsContest db challenge_id new db' challenge
  on_created-IsContest register (err message) h =
      let raised = ap (λ (p : Store × Result EnrolError Challenge). p.1) h in absurd (cc)
  on_created-IsContest register (ok address) {db'} {challenge} h =
      let c = new_challenge dumps challenge_id now new ChallengeStatus.pending (some address) in
      let (ended, same) =
        with_runs-ok c
          (create_runs texts register (add_challenge db c) run_id challenge_id
            new.contestant_agent_ids)
          h in
      let stored =
        find-snoc (λ (c : Challenge). c.challenge_id == challenge_id) db.challenges c fresh
          ((nat_beq_iff challenge_id challenge_id).1 refl) in
      let starts : starting_value texts c ≡ ok new.starting_usdc = rw (reads.0, reads.1) refl in
      let (runs, (challenges, agents, more, ids, entries)) =
        create_runs-AreEntries texts register c new.starting_usdc starts (add_challenge db c) run_id
          new.contestant_agent_ids stored ended in
      subst (λ (k : Challenge). IsContest db challenge_id new db' k) (sym same)
        (refl, refl, refl, challenges, (runs, more, ids, entries))

-- A challenge that is returned is stored as pending under its key, with the number of its contestants;
-- and one run was added for each contestant, in their order, for the challenge and with the money that
-- the challenge starts with. The key is new, and what is written as JSON is read back.
pub create_challenge-IsContest :
    (texts : Texts) (dumps : Json → String) (program : Option Program) (db : Store)
    (challenge_id run_id now : ℕ) (new : NewChallenge) {db' : Store} {challenge : Challenge}
    → get_challenge db challenge_id ≡ none
    → ReadsBack texts dumps new
    → create_challenge texts dumps program db challenge_id run_id now new ≡ (db', ok challenge)
    → IsContest db challenge_id new db' challenge
unfolding create_challenge
create_challenge-IsContest texts dumps none db challenge_id run_id now new fresh reads h =
    let raised = ap (λ (p : Store × Result EnrolError Challenge). p.1) h in absurd (cc)
create_challenge-IsContest texts dumps (some program) db challenge_id run_id now new fresh reads h =
    on_created-IsContest texts dumps db challenge_id run_id now new fresh reads program.create_run
      (program.create_challenge challenge_id new) h
