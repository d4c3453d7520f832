-- ===== src/Integrity/Settlement/Readiness.antt =====
-- When a challenge can be settled, said of its runs rather than of how they were classified.
use proof_arena.Base.{
  ℕ, ◌+◌, ◌<◌, ◌≡◌, refl, sym, ap, ◌∙◌, Bool, true, ◌&&◌, Option, none, some, List, [], ◌∷◌, ◌++◌,
  ◌⊎◌, ◌↔◌, arith, length, length-append, all, All, number_equality,
}
use native.Mathlib.Nat.{zero-add}
use mathlib.Core.Option.{some-injective}
use proof_arena.Base.Result.{ok}
use proof_arena.Db.{Run, Challenge, Store, get_challenge, runs_of_challenge}
use proof_arena.Integrity.Settlement.{
  Ineligibility, check_eligibility, SettlementEligibility, is_terminal, total_runs, all_terminal,
  can_settle, classify, classify_all, start_eligibility, verify_settlement_eligibility,
}
use proof_arena.Integrity.Settlement.Partition.{verify_inversion, classify_all-expected}

abbrev pub IsTerminal : Run → Type 0
IsTerminal run = is_terminal run.status ≡ true

all-append {ℓ} :
    {A : Type ℓ} (test : A → Bool) (xs ys : List A)
    → all test (xs ++ ys) ≡ (all test xs && all test ys)
all-append test [] ys = refl
all-append test (x ∷ xs) ys = ground (arith, all-append test xs ys)

All-of_all :
    (runs : List Run) → all (λ run. is_terminal run.status) runs ≡ true → All IsTerminal runs
All-of_all [] h = tt
All-of_all (run ∷ runs) h = (ground arith, All-of_all runs (ground arith))

all_of_All :
    (runs : List Run) → All IsTerminal runs → all (λ run. is_terminal run.status) runs ≡ true
all_of_All [] h = refl
all_of_All (run ∷ runs) h = ground (arith, all_of_All runs h.1)

-- A run that is eligible is completed, so it is terminal although only the others are tested.
terminal_of_check : (run : Run) → check_eligibility run ≡ none → is_terminal run.status ≡ true
unfolding check_eligibility
terminal_of_check run h = ground arith

all_terminal-classify :
    (e : SettlementEligibility) (run : Run) (o : Option Ineligibility)
    → check_eligibility run ≡ o
    → all_terminal (classify e run o) ≡ (all_terminal e && is_terminal run.status)
unfolding all_terminal
all_terminal-classify e run none h = ground (arith, terminal_of_check run h)
all_terminal-classify e run (some reason) h =
    ground
      (arith, all-append (λ entry. is_terminal (entry.0).status) e.ineligible ((run, reason) ∷ []))

all_terminal-classify_all :
    (runs : List Run) (e : SettlementEligibility)
    → all_terminal (classify_all e runs)
      ≡ (all_terminal e && all (λ run. is_terminal run.status) runs)
unfolding classify_all
all_terminal-classify_all [] e = ground arith
all_terminal-classify_all (run ∷ runs) e = ground (
  arith,
  all_terminal-classify e run (check_eligibility run) refl,
  all_terminal-classify_all runs (classify e run (check_eligibility run)),
)

total_runs-classify :
    (e : SettlementEligibility) (run : Run) (o : Option Ineligibility)
    → total_runs (classify e run o) ≡ total_runs e + 1
unfolding total_runs
total_runs-classify e run none = omega (arith, length-append e.eligible (run ∷ []))
total_runs-classify e run (some reason) =
    omega (arith, length-append e.ineligible ((run, reason) ∷ []))

total_runs-classify_all :
    (runs : List Run) (e : SettlementEligibility)
    → total_runs (classify_all e runs) ≡ total_runs e + length runs
unfolding classify_all
total_runs-classify_all [] e = omega arith
total_runs-classify_all (run ∷ runs) e = omega (
  arith,
  total_runs-classify e run (check_eligibility run),
  total_runs-classify_all runs (classify e run (check_eligibility run)),
)

-- What the tests of `can_settle` come to.
tests_of_verify :
    (db : Store) (challenge_id : ℕ) {e : SettlementEligibility} {c : Challenge}
    → verify_settlement_eligibility db challenge_id ≡ ok e
    → get_challenge db challenge_id ≡ some c
    → (all_terminal e ≡ all (λ run. is_terminal run.status) (runs_of_challenge db challenge_id))
      × (total_runs e ≡ length (runs_of_challenge db challenge_id))
      × (e.expected_contestants ≡ c.num_contestants)
unfolding all_terminal total_runs
tests_of_verify db challenge_id {e} {c} h found =
    let (d, found_d, same) = verify_inversion db challenge_id h in
    let runs = runs_of_challenge db challenge_id in
    let start = start_eligibility d.num_contestants in
    (
      ap all_terminal (sym same) ∙ all_terminal-classify_all runs start,
      ap total_runs (sym same) ∙ (total_runs-classify_all runs start ∙ zero-add (length runs)),
      ap (λ x. x.expected_contestants) (sym same)
          ∙ (classify_all-expected runs start
              ∙ ap (λ x. x.num_contestants) (some-injective _ _ (sym found_d ∙ found))),
    )

-- After a verification that succeeded, the challenge can be settled exactly if each of its runs is
-- terminal, there are as many of them as the challenge has contestants (any number, where that is
-- 0), and one of them is eligible.
pub can_settle_iff :
    (db : Store) (challenge_id : ℕ) {e : SettlementEligibility} {c : Challenge}
    → verify_settlement_eligibility db challenge_id ≡ ok e
    → get_challenge db challenge_id ≡ some c
    → (can_settle e ≡ true) ↔ (
        All IsTerminal (runs_of_challenge db challenge_id)
        × ((c.num_contestants ≡ 0)
            ⊎ (length (runs_of_challenge db challenge_id) ≡ c.num_contestants))
        × (0 < length e.eligible))
unfolding can_settle
can_settle_iff db challenge_id {e} {c} h found =
    let runs = runs_of_challenge db challenge_id in
    let (terminal, total, expected) = tests_of_verify db challenge_id h found in
    (
      λ yes_settle. (All-of_all runs (ground arith), ground arith, ground arith),
      λ ready. ground (arith, all_of_All runs ready.0),
    )
