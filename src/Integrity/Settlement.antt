-- ===== src/Integrity/Settlement.antt =====
-- backend/src/integrity/settlement_verifier.py: which runs of a challenge may win it, and which
-- of them does.
pub mod Partition
pub mod Readiness
pub mod Winner
use proof_arena.Base.{
  ℕ, ◌+◌, String, Bool, true, false, not, ◌&&◌, ◌||◌, Option, none, some, List, [], ◌∷◌, ◌++◌, map,
  ltb, leb, ◌==◌, number_equality, if◌then◌else◌, length, all, any, contains, head?, nonempty,
}
use proof_arena.Base.Int.{ℤ, pos, ltb_ℤ}
use proof_arena.Base.Result.{Result, ok, err}
use proof_arena.Base.Sorting.{sorted}
use proof_arena.Db.{
  RunStatus, CompletionStatus, RunInvalidReason, Run, Challenge, VerificationArtifact, Store,
  get_challenge, runs_of_challenge,
}

-- The texts that `_check_eligibility` returns, with what they interpolate.
pub data Ineligibility : Type 0 where
  not_completed : RunStatus → Ineligibility
  not_valid : Option CompletionStatus → Option RunInvalidReason → Ineligibility
  missing_ending_value missing_run_log_hash : Ineligibility

abbrev pub is_completed : RunStatus → Bool
is_completed RunStatus.completed = true
is_completed _ = false

abbrev pub is_complete : Option CompletionStatus → Bool
is_complete (some CompletionStatus.complete) = true
is_complete _ = false

-- `not run.run_log_hash`: none, or the empty text
abbrev pub has_hash : Option String → Bool
has_hash none = false
has_hash (some h) = nonempty h

abbrev pub is_present : Option ℤ → Bool
is_present none = false
is_present (some v) = true

-- `_check_eligibility`
unfoldable pub check_eligibility : Run → Option Ineligibility
check_eligibility run =
    if not (is_completed run.status)
    then some (not_completed run.status)
    else if not (is_complete run.completion_status)
    then some (not_valid run.completion_status run.invalid_reason)
    else if not (is_present run.ending_value)
    then some missing_ending_value
    else if not (has_hash run.run_log_hash)
    then some missing_run_log_hash
    else none

pub record SettlementEligibility : Type 0 where
  pub eligible : List Run
  pub ineligible : List (Run × Ineligibility)
  pub expected_contestants : ℕ

unfoldable pub total_runs : SettlementEligibility → ℕ
total_runs e = length e.eligible + length e.ineligible

-- `run.status in {"completed", "failed", "timeout"}`
abbrev pub is_terminal : RunStatus → Bool
is_terminal RunStatus.completed = true
is_terminal RunStatus.failed = true
is_terminal RunStatus.timeout = true
is_terminal _ = false

unfoldable pub all_terminal : SettlementEligibility → Bool
all_terminal e = all (λ entry. is_terminal (entry.0).status) e.ineligible

unfoldable pub cardinality_met : SettlementEligibility → Bool
unfolding total_runs
cardinality_met e =
    if leb e.expected_contestants 0 then true else total_runs e == e.expected_contestants

unfoldable pub can_settle : SettlementEligibility → Bool
unfolding all_terminal cardinality_met
can_settle e = all_terminal e && cardinality_met e && ltb 0 (length e.eligible)

-- `len(agent_ids) != len(set(agent_ids))`: some id comes twice
abbrev pub has_duplicates : List ℕ → Bool
has_duplicates [] = false
has_duplicates (x ∷ xs) = contains x xs || has_duplicates xs

pub data VerifyError : Type 0 where
  challenge_not_found duplicate_agent_runs : VerifyError

-- one round of the loop over the runs
abbrev pub classify : SettlementEligibility → Run → Option Ineligibility → SettlementEligibility
classify e run none = record e { eligible = e.eligible ++ (run ∷ []) }
classify e run (some reason) = record e { ineligible = e.ineligible ++ ((run, reason) ∷ []) }

unfoldable pub classify_all : SettlementEligibility → List Run → SettlementEligibility
classify_all e [] = e
classify_all e (run ∷ runs) = classify_all (classify e run (check_eligibility run)) runs

abbrev pub start_eligibility : ℕ → SettlementEligibility
start_eligibility n = record { eligible = []; ineligible = []; expected_contestants = n }

abbrev verify_runs : List Run → Challenge → Result VerifyError SettlementEligibility
verify_runs runs challenge =
    if has_duplicates (map (λ run. run.agent_id) runs)
    then err duplicate_agent_runs
    else ok (classify_all (start_eligibility challenge.num_contestants) runs)

unfoldable pub verify_settlement_eligibility : Store → ℕ → Result VerifyError SettlementEligibility
unfolding classify_all
verify_settlement_eligibility db challenge_id = elim (get_challenge db challenge_id) [
  | none ↦ err challenge_not_found
  | some challenge ↦ verify_runs (runs_of_challenge db challenge_id) challenge
]

-- `sort_key` is (-ending_value, ended_at), with 0 and infinity for what is missing
abbrev pub ending : Run → ℤ
ending run = elim run.ending_value [ none ↦ pos 0 | some v ↦ v ]

-- `a <= b` of two times, none being `float("inf")`
abbrev pub no_later : Option ℕ → Option ℕ → Bool
no_later (some s) (some t) = leb s t
no_later (some s) none = true
no_later none (some t) = false
no_later none none = true

-- the order of the keys: the higher value first, then the earlier end
abbrev pub ranks_before : Run → Run → Bool
ranks_before a b =
    if ltb_ℤ (ending b) (ending a)
    then true
    else if ltb_ℤ (ending a) (ending b)
    then false
    else no_later a.ended_at b.ended_at

unfoldable pub determine_winner : List Run → Option Run
determine_winner runs = head? (sorted ranks_before runs)

-- `create_settlement_record`: the fields of the artifact's payload, its time left out
pub record SettlementRecord : Type 0 where
  pub challenge_id : ℕ
  pub winner_agent_id : ℕ
  pub winner_ending_value : Option ℤ
  pub total_eligible : ℕ

module _ (serialize_payload : SettlementRecord → ℕ → String) (sha256 : String → String) where
  unfoldable pub create_settlement_record : ℕ → ℕ → Run → List Run → VerificationArtifact
  create_settlement_record now challenge_id winner eligible_runs =
      let payload =
        serialize_payload
          (record {
            challenge_id = challenge_id;
            winner_agent_id = winner.agent_id;
            winner_ending_value = winner.ending_value;
            total_eligible = length eligible_runs;
          })
          now in
      record {
        run_id = some winner.run_id;
        artifact_type = "settlement_record";
        uri_or_ref = payload;
        content_hash = sha256 payload;
      }
