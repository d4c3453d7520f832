-- ===== src/Integrity/Settlement/Winner.antt =====
-- The winner is the earliest of the best eligible runs.
use proof_arena.Base.{
  ℕ, ◌≤◌, ◌<◌, ◌≡◌, true, false, Option, none, some, List, [], ◌∷◌, ◌++◌, ◌⊎◌, arith, All, sym, ◌∙◌,
}
use proof_arena.Base.Int.{◌≤ℤ◌, eq_of_parts}
use proof_arena.Base.Sorting.{least?-IsFirstLeast, head?-sorted}
use proof_arena.Db.{Run}
use proof_arena.Integrity.Settlement.{ending, no_later, ranks_before, determine_winner}

-- An end strictly before another, and one no later than another; a run with no end ends last.
abbrev pub EndsBefore : Option ℕ → Option ℕ → Type 0
EndsBefore (some s) (some t) = s < t
EndsBefore (some s) none = Unit
EndsBefore none t = ⊥

abbrev pub EndsBy : Option ℕ → Option ℕ → Type 0
EndsBy (some s) (some t) = s ≤ t
EndsBy (some s) none = Unit
EndsBy none (some t) = ⊥
EndsBy none none = Unit

abbrev pub Beats : Run → Run → Type 0
Beats w r = (¬ (ending w ≤ℤ ending r)) ⊎ ((ending w ≡ ending r) × EndsBefore w.ended_at r.ended_at)

abbrev pub IsAsGood : Run → Run → Type 0
IsAsGood w r = (¬ (ending w ≤ℤ ending r)) ⊎ ((ending w ≡ ending r) × EndsBy w.ended_at r.ended_at)

EndsBefore-of_no_later : (s t : Option ℕ) → no_later t s ≡ false → EndsBefore s t
EndsBefore-of_no_later (some s) (some t) h = ground arith
EndsBefore-of_no_later (some s) none h = tt
EndsBefore-of_no_later none (some t) h = cc
EndsBefore-of_no_later none none h = cc

EndsBy-of_no_later : (s t : Option ℕ) → no_later s t ≡ true → EndsBy s t
EndsBy-of_no_later (some s) (some t) h = ground arith
EndsBy-of_no_later (some s) none h = tt
EndsBy-of_no_later none (some t) h = cc
EndsBy-of_no_later none none h = tt

no_later_total : (s t : Option ℕ) → no_later s t ≡ false → no_later t s ≡ true
no_later_total s t h = ground arith

no_later_trans :
    (s t u : Option ℕ) → no_later s t ≡ true → no_later t u ≡ true → no_later s u ≡ true
no_later_trans s t u h k = ground arith

ranks_before_total : (a b : Run) → ranks_before a b ≡ false → ranks_before b a ≡ true
ranks_before_total a b h = ground (arith, no_later_total a.ended_at b.ended_at)

ranks_before_trans :
    (a b c : Run) → ranks_before a b ≡ true → ranks_before b c ≡ true → ranks_before a c ≡ true
ranks_before_trans a b c h k = ground (arith, no_later_trans a.ended_at b.ended_at c.ended_at)

Beats-of_ranks_before : (w r : Run) → ranks_before r w ≡ false → Beats w r
Beats-of_ranks_before w r h =
    ground (arith, EndsBefore-of_no_later w.ended_at r.ended_at, eq_of_parts (ending w) (ending r))

IsAsGood-of_ranks_before : (w r : Run) → ranks_before w r ≡ true → IsAsGood w r
IsAsGood-of_ranks_before w r h =
    ground (arith, EndsBy-of_no_later w.ended_at r.ended_at, eq_of_parts (ending w) (ending r))

All-map {ℓ κ} :
    {A : Type 0} {P : A → Type ℓ} {Q : A → Type κ} (xs : List A)
    → ((a : A) → P a → Q a)
    → All P xs
    → All Q xs
All-map [] f h = tt
All-map (x ∷ xs) f h = (f x h.0, All-map xs f h.1)

-- The winner is one of the eligible runs. It beats every run that is listed before it, with a
-- higher ending value or with the same value and an earlier end, and no run that is listed after it
-- beats it.
pub determine_winner-best :
    (runs : List Run) {w : Run}
    → determine_winner runs ≡ some w
    → (before : List Run) × (after : List Run) × (runs ≡ before ++ w ∷ after)
      × All (Beats w) before
      × All (IsAsGood w) after
unfolding determine_winner
determine_winner-best runs {w} h =
    let (before, after, e, worse, no_better) =
      least?-IsFirstLeast ranks_before ranks_before_total ranks_before_trans runs
        (sym (head?-sorted ranks_before runs) ∙ h) in
    (
      before,
      after,
      e,
      All-map before (Beats-of_ranks_before w) worse,
      All-map after (IsAsGood-of_ranks_before w) no_better,
    )
