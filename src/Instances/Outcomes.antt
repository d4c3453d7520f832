-- ===== src/Instances/Outcomes.antt =====
-- The buckets of `compute_outcome_distribution` of backend/src/services/flagship_service.py.
use proof_arena.Base.{
  ℕ, ◌+◌, ◌≡◌, ◌≤◌, refl, Bool, true, false, Option, none, some, List, [], ◌∷◌, arith,
  if◌then◌else◌, filter, length,
}
use proof_arena.Db.{Run, RunStatus, CompletionStatus}
use proof_arena.Instances.Flagship.{Outcomes, none_yet, count_run, count_outcomes}

-- a run that completed and was not judged
abbrev pub is_unjudged : Option CompletionStatus → RunStatus → Bool
is_unjudged none RunStatus.completed = true
is_unjudged _ _ = false

abbrev pub in_buckets : Outcomes → ℕ
in_buckets n = n.complete + n.invalid + n.failed + n.pending

-- one run goes in one bucket, or is unjudged
count_run-one :
    (judged : Option CompletionStatus) (status : RunStatus) (n : Outcomes)
    → in_buckets (count_run judged status n) + (if is_unjudged judged status then 1 else 0)
      ≡ in_buckets n + 1
count_run-one (some CompletionStatus.complete) status n = omega arith
count_run-one (some CompletionStatus.invalid) status n = omega arith
count_run-one (some CompletionStatus.incomplete) status n = omega arith
count_run-one none RunStatus.failed n = omega arith
count_run-one none RunStatus.timeout n = omega arith
count_run-one none RunStatus.onchain_failed n = omega arith
count_run-one none RunStatus.pending n = omega arith
count_run-one none RunStatus.pending_onchain n = omega arith
count_run-one none RunStatus.running n = omega arith
count_run-one none RunStatus.completed n = omega arith

abbrev pub unjudged : List Run → List Run
unjudged = filter (λ r. is_unjudged r.completion_status r.status)

count_outcomes-sum :
    (runs : List Run) (n : Outcomes)
    → in_buckets (count_outcomes runs n) + length (unjudged runs) ≡ in_buckets n + length runs
unfolding count_outcomes
count_outcomes-sum [] n = refl
count_outcomes-sum (r ∷ rs) n =
    let ih = count_outcomes-sum rs (count_run r.completion_status r.status n) in
    let one = count_run-one r.completion_status r.status n in ground (arith, ih, one)

-- Each run is in one bucket at most: the four counts add up to the number of the runs, less those that
-- completed and were not judged. So no bucket holds more than there are runs.
pub count_outcomes-partition :
    (runs : List Run)
    → (in_buckets (count_outcomes runs none_yet) + length (unjudged runs) ≡ length runs)
      × ((count_outcomes runs none_yet).complete ≤ length runs)
      × ((count_outcomes runs none_yet).invalid ≤ length runs)
      × ((count_outcomes runs none_yet).failed ≤ length runs)
      × ((count_outcomes runs none_yet).pending ≤ length runs)
count_outcomes-partition runs =
    let sum = count_outcomes-sum runs none_yet in
    (
      omega (arith, sum),
      omega (arith, sum),
      omega (arith, sum),
      omega (arith, sum),
      omega (arith, sum),
    )
