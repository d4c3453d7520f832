-- ===== src/Settlement.antt =====
-- backend/src/services/settlement_service.py: the settlement of a challenge and the rank snapshots
-- of its participants. The scores, which are floats, are not modelled.
pub mod Settled
pub mod Outcome
pub mod Ranks
use proof_arena.Base.{
  ℕ, ◌+◌, String, Bool, true, false, not, ◌&&◌, ◌||◌, Option, none, some, List, [], ◌∷◌, ◌++◌, map,
  if◌then◌else◌, ◌==◌, number_equality, contains, nonempty, is_some, or_default, filter, length,
  find,
}
use proof_arena.Base.Int.{ℤ, pos, ◌-ℤ◌}
use proof_arena.Base.Result.{Result, ok, err, ◌>>=◌}
use proof_arena.Db.{
  Run, Agent, Challenge, ChallengeStatus, RunStatus, CompletionStatus, ProviderType, SubjectType,
  VerificationArtifact, Store, get_challenge, get_agent,
}
use proof_arena.Integrity.Settlement.{
  SettlementEligibility, SettlementRecord, VerifyError, verify_settlement_eligibility, can_settle,
  determine_winner, is_terminal, create_settlement_record,
}

-- the details of a `SettlementError`; the others are exceptions that pass through
pub data SettleError : Type 0 where
  no_program challenge_missing already_settled cannot_settle mixed_providers : SettleError
  missing_onchain_address : ℕ → SettleError
  bad_pubkey : String → SettleError
  onchain_failed : String → SettleError
  verify_failed : VerifyError → SettleError

-- the program client and the texts of the artifacts
pub record Chain : Type 1 where
  pub Pubkey : Type 0
  pub pubkey_of : String → Option Pubkey
  pub settle : ℕ → List Pubkey → Result String String
  pub update_rank : ℕ → Pubkey → Result String (Unit {0})
  pub onchain_ref : ℕ → String → ℕ → String
  pub settlement_payload : SettlementRecord → ℕ → String
  pub rank_error_ref : ℕ → String → String
  pub missing_address_ref : ℕ → String
  pub sha256 : String → String

abbrev pub is_hosted_run : Run → Bool
is_hosted_run run = elim run.provider_type [ ProviderType.hosted_instance ↦ true | _ ↦ false ]

abbrev pub is_completed_challenge : ChallengeStatus → Bool
is_completed_challenge ChallengeStatus.completed = true
is_completed_challenge _ = false

-- `challenge.status == "completed" or challenge.winner_agent_id is not None`
abbrev pub is_settled : Challenge → Bool
is_settled challenge = is_completed_challenge challenge.status || is_some challenge.winner_agent_id

abbrev pub check_challenge : Option Challenge → Result SettleError Challenge
check_challenge none = err challenge_missing
check_challenge (some challenge) =
    if is_settled challenge then err already_settled else ok challenge

abbrev pub check_eligible :
    Result VerifyError SettlementEligibility → Result SettleError SettlementEligibility
check_eligible (err e) = err (verify_failed e)
check_eligible (ok e) = if can_settle e then ok e else err cannot_settle

-- `eligibility.eligible + [r for r, _ in eligibility.ineligible]`
abbrev pub settled_runs : SettlementEligibility → List Run
settled_runs e = e.eligible ++ map (λ entry. entry.0) e.ineligible

abbrev pub local_runs : List Run → List Run
local_runs runs = filter (λ run. not (is_hosted_run run)) runs

abbrev pub hosted_runs : List Run → List Run
hosted_runs runs = filter is_hosted_run runs

abbrev pub is_nonempty : List Run → Bool
is_nonempty [] = false
is_nonempty (r ∷ rs) = true

abbrev pub single_kind : List Run → Result SettleError (List Run)
single_kind runs =
    if is_nonempty (local_runs runs) && is_nonempty (hosted_runs runs)
    then err mixed_providers
    else ok runs

-- `completed` and `invalid` of `_compute_rank`
abbrev pub count_status : (CompletionStatus → Bool) → List Run → ℕ
count_status test runs =
    length (filter (λ run. elim run.completion_status [ none ↦ false | some s ↦ test s ]) runs)

abbrev pub is_complete : CompletionStatus → Bool
is_complete CompletionStatus.complete = true
is_complete _ = false

abbrev pub is_invalid : CompletionStatus → Bool
is_invalid CompletionStatus.invalid = true
is_invalid _ = false

-- the whole-number columns of a `RankSnapshot`
pub record RankSnapshot : Type 0 where
  pub agent_id : ℕ
  pub wins : ℕ
  pub losses : ℤ
  pub completed_runs : ℕ
  pub invalid_runs : ℕ
  pub subject_type : SubjectType

abbrev pub subject_of : Bool → SubjectType
subject_of true = SubjectType.customized_instance
subject_of false = SubjectType.canonical_template

-- `_compute_rank` on the terminal runs of an agent
unfoldable pub compute_rank : ℕ → Bool → List Run → ℕ → SubjectType → RankSnapshot
compute_rank agent_id is_winner all_runs prev_wins subject =
    let wins = prev_wins + (if is_winner then 1 else 0) in
    record {
      agent_id = agent_id;
      wins = wins;
      losses = pos (length all_runs) -ℤ pos wins;
      completed_runs = count_status is_complete all_runs;
      invalid_runs = count_status is_invalid all_runs;
      subject_type = subject;
    }

-- The ids without repetition. The code takes them from a set, so their order is not fixed.
abbrev pub distinct : List ℕ → List ℕ
distinct [] = []
distinct (x ∷ xs) = if contains x xs then distinct xs else x ∷ distinct xs

-- The last run of the challenge of an agent: a dict that is filled in order keeps the last.
abbrev pub run_of : ℕ → List Run → Option Run
run_of agent_id [] = none
run_of agent_id (run ∷ runs) = elim (run_of agent_id runs) [
  | some later ↦ some later
  | none ↦ if run.agent_id == agent_id then some run else none
]

-- what a settlement writes
pub record Written : Type 0 where
  pub artifacts : List VerificationArtifact
  pub snapshots : List RankSnapshot
  -- the agents whose rank account the program was asked to update
  pub rank_calls : List ℕ

abbrev pub is_hosted_by : ℕ → List Run → Bool
is_hosted_by agent_id runs = elim (run_of agent_id runs) [
  | none ↦ false
  | some run ↦ is_hosted_run run
]

abbrev pub agent_of : Option Run → Option ℕ
agent_of none = none
agent_of (some run) = some run.agent_id

-- the challenge row of a settlement
abbrev pub close : ℕ → Option Run → Challenge → Challenge
close now winner challenge = record challenge {
  winner_agent_id = agent_of winner;
  status = ChallengeStatus.completed;
  ended_at = some now;
}

-- the terminal runs of an agent
abbrev pub history_of : Store → ℕ → List Run
history_of db agent_id = filter (λ run. run.agent_id == agent_id && is_terminal run.status) db.runs

abbrev pub is_agent : Option ℕ → ℕ → Bool
is_agent none agent_id = false
is_agent (some winner) agent_id = agent_id == winner

module _ (chain : Chain) where
  abbrev pub pubkeys : List Run → Result SettleError (List chain.Pubkey)
  pubkeys [] = ok []
  pubkeys (run ∷ runs) =
      let rest = pubkeys runs in
      elim run.onchain_address [
        | none ↦ err (missing_onchain_address run.run_id)
        | some address ↦
            if not (nonempty address)
            then err (missing_onchain_address run.run_id)
            else elim (chain.pubkey_of address) [
              | none ↦ err (bad_pubkey address)
              | some key ↦ rest >>= λ keys. ok (key ∷ keys)
            ]
      ]

  abbrev pub rank_artifact : Option Run → String → VerificationArtifact
  rank_artifact run ref = record {
    run_id = elim run [ none ↦ none | some r ↦ some r.run_id ];
    artifact_type = "rank_sync_failed";
    uri_or_ref = ref;
    content_hash = chain.sha256 ref;
  }

  abbrev pub add_artifact : VerificationArtifact → Written → Written
  add_artifact artifact out = record out { artifacts = out.artifacts ++ artifact ∷ [] }

  -- the program's answer to the call
  abbrev pub rank_answer : Option Run → ℕ → Result String (Unit {0}) → Written → Written
  rank_answer run agent_id (ok done) out = out
  rank_answer run agent_id (err message) out =
      add_artifact (rank_artifact run (chain.rank_error_ref agent_id message)) out

  -- the call for an agent with an address; a text that is no key raises before the call
  abbrev pub rank_call : Option Run → ℕ → String → Option chain.Pubkey → Written → Written
  rank_call run agent_id address none out =
      add_artifact (rank_artifact run (chain.rank_error_ref agent_id address)) out
  rank_call run agent_id address (some key) out =
      rank_answer run agent_id (chain.update_rank agent_id key)
        (record out { rank_calls = out.rank_calls ++ agent_id ∷ [] })

  -- the on-chain part for one agent of a local run
  abbrev pub sync_rank : Option Run → ℕ → Option String → Written → Written
  sync_rank run agent_id none out =
      add_artifact (rank_artifact run (chain.missing_address_ref agent_id)) out
  sync_rank run agent_id (some address) out =
      if nonempty address
      then rank_call run agent_id address (chain.pubkey_of address) out
      else add_artifact (rank_artifact run (chain.missing_address_ref agent_id)) out

  abbrev pub address_of : Option Agent → Option String
  address_of none = none
  address_of (some agent) = agent.onchain_address

  -- one round of the loop of `_update_ranks`
  unfoldable pub update_rank : Store → (ℕ → ℕ) → Option ℕ → List Run → ℕ → Written → Written
  update_rank db prev_wins winner_agent_id runs agent_id out =
      let hosted = is_hosted_by agent_id runs in
      let snapshot =
        compute_rank agent_id (is_agent winner_agent_id agent_id) (history_of db agent_id)
          (prev_wins agent_id) (subject_of hosted) in
      let ranked : Written = record out { snapshots = out.snapshots ++ snapshot ∷ [] } in
      if hosted
      then ranked
      else sync_rank (run_of agent_id runs) agent_id (address_of (get_agent db agent_id)) ranked

  unfoldable pub update_each : Store → (ℕ → ℕ) → Option ℕ → List Run → List ℕ → Written → Written
  unfolding update_rank
  update_each db prev_wins winner runs [] out = out
  update_each db prev_wins winner runs (agent_id ∷ ids) out =
      update_each db prev_wins winner runs ids (update_rank db prev_wins winner runs agent_id out)

  -- the artifact of the transaction
  abbrev pub onchain_artifact : ℕ → Run → String → VerificationArtifact
  onchain_artifact challenge_id winner tx = record {
    run_id = some winner.run_id;
    artifact_type = "onchain_settle";
    uri_or_ref = chain.onchain_ref challenge_id tx winner.agent_id;
    content_hash = chain.sha256 (chain.onchain_ref challenge_id tx winner.agent_id);
  }

  abbrev pub on_settled :
      ℕ → Run → Result String String → Result SettleError (List VerificationArtifact)
  on_settled challenge_id winner (err message) = err (onchain_failed message)
  on_settled challenge_id winner (ok tx) = ok (onchain_artifact challenge_id winner tx ∷ [])

  -- the on-chain settlement, which only a challenge of local runs has
  abbrev pub settle_onchain :
      ℕ → Option Run → List Run → Result SettleError (List VerificationArtifact)
  settle_onchain challenge_id none runs = ok []
  settle_onchain challenge_id (some winner) [] = ok []
  settle_onchain challenge_id (some winner) (run ∷ runs) = pubkeys (run ∷ runs) >>= λ keys.
      on_settled challenge_id winner (chain.settle challenge_id keys)

  abbrev pub record_of : ℕ → ℕ → Option Run → List Run → List VerificationArtifact
  record_of now challenge_id none eligible = []
  record_of now challenge_id (some winner) eligible =
      create_settlement_record chain.settlement_payload chain.sha256 now challenge_id winner
        eligible
      ∷ []

  -- `_update_ranks`
  abbrev pub update_ranks : Store → (ℕ → ℕ) → Option ℕ → List Run → Written → Written
  update_ranks db prev_wins winner runs out =
      update_each db prev_wins winner runs (distinct (map (λ run. run.agent_id) runs)) out

  -- from the chosen winner on
  abbrev pub settle_with :
      Store
      → (ℕ → ℕ)
      → ℕ
      → ℕ
      → Challenge
      → SettlementEligibility
      → Option Run
      → Result SettleError (Challenge × Written)
  settle_with db prev_wins now challenge_id challenge e winner =
      single_kind (settled_runs e) >>= λ runs.
      settle_onchain challenge_id winner (local_runs runs) >>= λ onchain. ok (
        close now winner challenge,
        update_ranks db prev_wins (agent_of winner) runs (record {
          artifacts = onchain ++ record_of now challenge_id winner e.eligible;
          snapshots = [];
          rank_calls = [];
        }),
      )

  -- `settle_challenge`: the challenge and the rows that are committed, or what is raised before
  unfoldable pub settle_challenge :
      Bool → Store → (ℕ → ℕ) → ℕ → ℕ → Result SettleError (Challenge × Written)
  settle_challenge has_program db prev_wins now challenge_id =
      if not has_program
      then err no_program
      else (check_challenge (get_challenge db challenge_id) >>= λ challenge.
          check_eligible (verify_settlement_eligibility db challenge_id) >>= λ e.
          settle_with db prev_wins now challenge_id challenge e (determine_winner e.eligible))

-- the row of the challenge as it is after the commit
abbrev pub put_challenge : Challenge → Store → Store
put_challenge challenge db = record db {
  challenges =
      map (λ row. if row.challenge_id == challenge.challenge_id then challenge else row)
        db.challenges;
}
