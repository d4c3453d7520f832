-- ===== src/Tests/Settlements.antt =====
-- A challenge of two complete runs, settled once.
use proof_arena.Base.{
  In, ℕ, ◌≡◌, ◌<◌, ◌⊎◌, ◌↔◌, refl, String, true, false, List, [], ◌∷◌, ◌++◌, some, All, length,
}
use mathlib.Core.List.{Perm}
use proof_arena.Base.Result.{Result, ok, err}
use proof_arena.Db.{Run, Challenge, ChallengeStatus, get_challenge, runs_of_challenge}
use proof_arena.Integrity.Settlement.{
  SettlementEligibility, verify_settlement_eligibility, can_settle, determine_winner,
}
use proof_arena.Integrity.Settlement.Partition.{IsEligible, all_runs, verify-partition}
use proof_arena.Integrity.Settlement.Readiness.{IsTerminal, can_settle_iff}
use proof_arena.Integrity.Settlement.Winner.{Beats, IsAsGood, determine_winner-best}
use proof_arena.Settlement.{
  Chain, Written, SettleError, already_settled, is_settled, settled_runs, settle_challenge,
  put_challenge,
}
use proof_arena.Settlement.Outcome.{settle_challenge-winner, settle_challenge-once}
use proof_arena.Settlement.Ranks.{AreRanked, settle_challenge-AreRanked}
use proof_arena.Tests.Data.{challenge, completed_run, other_run, store}

abbrev eligibility : SettlementEligibility
eligibility = record {
  eligible = other_run ∷ completed_run ∷ [];
  ineligible = [];
  expected_contestants = 2;
}

verified : verify_settlement_eligibility store 1 ≡ ok eligibility
unfolding verify_settlement_eligibility proof_arena.Integrity.Settlement.check_eligibility
verified = refl

verify-partition_example :
    All IsEligible eligibility.eligible
    × All (λ entry. ¬ IsEligible entry.0) eligibility.ineligible
    × Perm (all_runs eligibility) (runs_of_challenge store 1)
    × ((c : Challenge) × (get_challenge store 1 ≡ some c)
        × (eligibility.expected_contestants ≡ c.num_contestants))
verify-partition_example = verify-partition store 1 verified

can_settle_iff_example : (can_settle eligibility ≡ true) ↔ (
    All IsTerminal (runs_of_challenge store 1)
    × ((challenge.num_contestants ≡ 0)
        ⊎ (length (runs_of_challenge store 1) ≡ challenge.num_contestants))
    × (0 < length eligibility.eligible))
can_settle_iff_example = can_settle_iff store 1 verified refl

won : determine_winner eligibility.eligible ≡ some completed_run
unfolding determine_winner
won = refl

determine_winner-best_example :
    (before : List Run) × (after : List Run) × (eligibility.eligible
      ≡ before ++ completed_run ∷ after)
    × All (Beats completed_run) before
    × All (IsAsGood completed_run) after
determine_winner-best_example = determine_winner-best eligibility.eligible won

abbrev chain : Chain
chain = record {
  Pubkey = String;
  pubkey_of = λ s. some s;
  settle = λ id keys. ok "tx";
  update_rank = λ id key. err "timeout";
  onchain_ref = λ id tx agent. "ref";
  settlement_payload = λ r now. "record";
  rank_error_ref = λ id message. "rank";
  missing_address_ref = λ id. "missing";
  sha256 = λ s. s;
}

abbrev prev_wins : ℕ → ℕ
prev_wins id = 0

abbrev settled : Result SettleError (Challenge × Written)
settled = settle_challenge chain true store prev_wins 60 1

abbrev closed_part : Result SettleError (Challenge × Written) → Challenge
closed_part (ok (c, out)) = c
closed_part (err e) = challenge

abbrev written_part : Result SettleError (Challenge × Written) → Written
written_part (ok (c, out)) = out
written_part (err e) = record { artifacts = []; snapshots = []; rank_calls = [] }

abbrev closed : Challenge
closed = closed_part settled

abbrev written : Written
written = written_part settled

settles : settle_challenge chain true store prev_wins 60 1 ≡ ok (closed, written)
unfolding settle_challenge verify_settlement_eligibility can_settle
    proof_arena.Integrity.Settlement.check_eligibility determine_winner
settles = refl

settle_challenge-winner_example :
    (w : Run) × (e : SettlementEligibility) × (c : Challenge) × (verify_settlement_eligibility store
        1
      ≡ ok e)
    × (get_challenge store 1 ≡ some c)
    × (is_settled c ≡ false)
    × In w (runs_of_challenge store 1)
    × In w e.eligible
    × IsEligible w
    × All (IsAsGood w) e.eligible
    × (closed.winner_agent_id ≡ some w.agent_id)
    × (closed.status ≡ ChallengeStatus.completed)
settle_challenge-winner_example = settle_challenge-winner chain true store prev_wins 60 1 settles

settle_challenge-once_example :
    settle_challenge chain true (put_challenge closed store) prev_wins 70 1 ≡ err already_settled
settle_challenge-once_example =
    settle_challenge-once chain true store prev_wins prev_wins 60 70 1 settles

settle_challenge-AreRanked_example :
    (e : SettlementEligibility) × (verify_settlement_eligibility store 1 ≡ ok e)
    × AreRanked store (settled_runs e) written
settle_challenge-AreRanked_example =
    settle_challenge-AreRanked chain true store prev_wins 60 1 settles
