-- ===== src/Integrity/Settlement/Partition.antt =====
-- Every run of the challenge is classified, and by its own columns.
use mathlib.Core.List.{
  Perm, perm_middle, perm_append_singleton, append_assoc, append-nil, map-append,
}
use mathlib.Core.List.Perm
use proof_arena.Base.{
  ℕ, String, ◌≡◌, refl, true, Option, none, some, List, [], ◌∷◌, ◌++◌, map, inl, inr, arith, All,
  All-append, All-imp, In, nonempty, Option-cases, ◌∙◌, sym, ap, subst,
}
use proof_arena.Base.Int.{ℤ}
use proof_arena.Base.Result.{ok}
use proof_arena.Db.{
  RunStatus, CompletionStatus, Run, Challenge, Store, get_challenge, runs_of_challenge,
}
use proof_arena.Integrity.Settlement.{
  Ineligibility, check_eligibility, is_present, has_hash, SettlementEligibility, classify,
  classify_all, start_eligibility, verify_settlement_eligibility,
}

-- What makes a run eligible, read off its columns.
abbrev pub IsEligible : Run → Type 0
IsEligible run =
    (run.status ≡ RunStatus.completed)
    × (run.completion_status ≡ some CompletionStatus.complete)
    × ((v : ℤ) × (run.ending_value ≡ some v))
    × ((h : String) × (run.run_log_hash ≡ some h) × (nonempty h ≡ true))

is_present-some : (o : Option ℤ) → is_present o ≡ true → (v : ℤ) × (o ≡ some v)
is_present-some (some v) h = (v, refl)
is_present-some none h = cc

has_hash-some :
    (o : Option String) → has_hash o ≡ true → (h : String) × (o ≡ some h) × (nonempty h ≡ true)
has_hash-some (some h) e = (h, refl, e)
has_hash-some none e = cc

IsEligible-of_check : (run : Run) → check_eligibility run ≡ none → IsEligible run
unfolding check_eligibility
IsEligible-of_check run h = (
  ground arith,
  ground arith,
  is_present-some run.ending_value (ground arith),
  has_hash-some run.run_log_hash (ground arith),
)

not-IsEligible_of_check :
    (run : Run) {reason : Ineligibility} → check_eligibility run ≡ some reason → ¬ IsEligible run
unfolding check_eligibility
not-IsEligible_of_check run h good = ground arith

abbrev pub IsSound : SettlementEligibility → Type 0
IsSound e = All IsEligible e.eligible × All (λ entry. ¬ IsEligible entry.0) e.ineligible

-- the runs that are classified so far
abbrev pub all_runs : SettlementEligibility → List Run
all_runs e = e.eligible ++ map (λ entry. entry.0) e.ineligible

-- One round files the run on its side, and changes nothing else.
classify-perm :
    (e : SettlementEligibility) (run : Run) (o : Option Ineligibility)
    → Perm (all_runs (classify e run o)) (all_runs e ++ run ∷ [])
classify-perm e run none = rw append_assoc (
    Perm.trans (perm_middle e.eligible (map (λ entry. entry.0) e.ineligible))
      (Perm.symm (perm_append_singleton run (all_runs e))))
classify-perm e run (some reason) = rw (map-append, ← append_assoc) (Perm.refl _)

classify-IsSound :
    (e : SettlementEligibility) (run : Run) (o : Option Ineligibility)
    → check_eligibility run ≡ o
    → IsSound e
    → IsSound (classify e run o)
classify-IsSound e run none h sound =
    (All-append _ e.eligible (run ∷ []) sound.0 (IsEligible-of_check run h, tt), sound.1)
classify-IsSound e run (some reason) h sound = (
  sound.0,
  All-append _ e.ineligible ((run, reason) ∷ []) sound.1 (not-IsEligible_of_check run h, tt),
)

classify_all-IsSound :
    (runs : List Run) (e : SettlementEligibility) → IsSound e → IsSound (classify_all e runs)
unfolding classify_all
classify_all-IsSound [] e sound = sound
classify_all-IsSound (run ∷ runs) e sound =
    classify_all-IsSound runs (classify e run (check_eligibility run))
      (classify-IsSound e run (check_eligibility run) refl sound)

classify_all-perm :
    (runs : List Run) (e : SettlementEligibility)
    → Perm (all_runs (classify_all e runs)) (all_runs e ++ runs)
unfolding classify_all
classify_all-perm [] e = rw append-nil (Perm.refl _)
classify_all-perm (run ∷ runs) e =
    Perm.trans (classify_all-perm runs (classify e run (check_eligibility run))) (
      rw (append_assoc (all_runs e) (run ∷ []) runs) at
        (Perm.append_right runs (classify-perm e run (check_eligibility run))))

pub classify_all-expected :
    (runs : List Run) (e : SettlementEligibility)
    → (classify_all e runs).expected_contestants ≡ e.expected_contestants
unfolding classify_all
classify_all-expected [] e = refl
classify_all-expected (run ∷ runs) e =
    classify_all-expected runs (classify e run (check_eligibility run))
    ∙ classify-expected e run (check_eligibility run)
  where
    classify-expected :
        (e : SettlementEligibility) (run : Run) (o : Option Ineligibility)
        → (classify e run o).expected_contestants ≡ e.expected_contestants
    classify-expected e run none = refl
    classify-expected e run (some reason) = refl

classify-All_eligible :
    (P : Run → Type 0) (e : SettlementEligibility) (run : Run) (o : Option Ineligibility)
    → All P e.eligible
    → P run
    → All P (classify e run o).eligible
classify-All_eligible P e run none old new = All-append P e.eligible (run ∷ []) old (new, tt)
classify-All_eligible P e run (some reason) old new = old

classify_all-All_eligible :
    (P : Run → Type 0) (runs : List Run) (e : SettlementEligibility)
    → All P e.eligible
    → All P runs
    → All P (classify_all e runs).eligible
unfolding classify_all
classify_all-All_eligible P [] e old new = old
classify_all-All_eligible P (run ∷ runs) e old new =
    classify_all-All_eligible P runs (classify e run (check_eligibility run))
      (classify-All_eligible P e run (check_eligibility run) old new.0) new.1

All-In : (runs : List Run) → All (λ run. In run runs) runs
All-In [] = tt
All-In (run ∷ runs) = (
  inl refl,
  All-imp (λ r. In r runs) (λ r. In r (run ∷ runs)) runs (λ r listed. inr listed) (All-In runs),
)

-- What a verification that succeeds has read.
pub verify_inversion :
    (db : Store) (challenge_id : ℕ) {e : SettlementEligibility}
    → verify_settlement_eligibility db challenge_id ≡ ok e
    → (c : Challenge) × (get_challenge db challenge_id ≡ some c)
      × (classify_all (start_eligibility c.num_contestants) (runs_of_challenge db challenge_id) ≡ e)
unfolding verify_settlement_eligibility
verify_inversion db challenge_id {e} h = elim (Option-cases (get_challenge db challenge_id)) [
  | inl missing ↦ ground arith
  | inr (c, found) ↦ (c, found, ground arith)
]

-- the eligible runs are runs of the challenge
pub verify-All_listed :
    (db : Store) (challenge_id : ℕ) {e : SettlementEligibility}
    → verify_settlement_eligibility db challenge_id ≡ ok e
    → All (λ run. In run (runs_of_challenge db challenge_id)) e.eligible
verify-All_listed db challenge_id {e} h =
    let (c, found, same) = verify_inversion db challenge_id h in
    let runs = runs_of_challenge db challenge_id in
    subst (λ (e : SettlementEligibility). All (λ run. In run runs) e.eligible) same
      (classify_all-All_eligible (λ run. In run runs) runs (start_eligibility c.num_contestants) tt
        (All-In runs))

-- A verification that succeeds classifies the runs of the challenge and no others, each once, and
-- files a run as eligible exactly if it is completed, complete, and has an ending value and a log
-- hash. It expects the challenge's number of contestants.
pub verify-partition :
    (db : Store) (challenge_id : ℕ) {e : SettlementEligibility}
    → verify_settlement_eligibility db challenge_id ≡ ok e
    → All IsEligible e.eligible
      × All (λ entry. ¬ IsEligible entry.0) e.ineligible
      × Perm (all_runs e) (runs_of_challenge db challenge_id)
      × ((c : Challenge) × (get_challenge db challenge_id ≡ some c)
          × (e.expected_contestants ≡ c.num_contestants))
verify-partition db challenge_id {e} h =
    let (c, found, same) = verify_inversion db challenge_id h in
    let runs = runs_of_challenge db challenge_id in
    let start = start_eligibility c.num_contestants in
    let (good, bad) = subst IsSound same (classify_all-IsSound runs start (tt, tt)) in
    (
      good,
      bad,
      subst (λ x. Perm (all_runs x) runs) same (classify_all-perm runs start),
      (c, found, ap (λ x. x.expected_contestants) (sym same) ∙ classify_all-expected runs start),
    )
