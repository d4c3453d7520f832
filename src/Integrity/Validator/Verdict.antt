-- ===== src/Integrity/Validator/Verdict.antt =====
-- What the validator's verdict says of a swap.
use proof_arena.Base.{
  ◌<◌, String, ◌≡◌, ◌↔◌, ◌⊎◌, inl, inr, true, false, some, List, [], ◌∷◌, arith, In, nonempty,
  or_default, Option-cases, text_equality, refl, ap,
}
use text.Mathlib.TextEquality.{eq_iff}
use proof_arena.Base.Int.{pos}
use proof_arena.Base.Json.{Json}
use proof_arena.Base.Result.{ok}
use proof_arena.Challenges.{execute_swap}
use proof_arena.Services.SwapProtocol.{QuoteOption, QuoteCache}
use proof_arena.Integrity.Validator.{
  ActionValidator, Action, Budget, ValidationResult, exceeds, same_route, route_listed, allows,
  route_and_budget, accept, action_type_of, validate_swap, validate,
}

same_route_iff : (r s : List String) → (same_route r s ≡ true) ↔ (r ≡ s)
same_route_iff [] [] = ground arith
same_route_iff [] (y ∷ ys) = ground arith
same_route_iff (x ∷ xs) [] = ground arith
same_route_iff (x ∷ xs) (y ∷ ys) = ground (arith, eq_iff x y, same_route_iff xs ys)

route_listed_iff :
    (route : List String) (routes : List (List String))
    → (route_listed route routes ≡ true) ↔ In route routes
route_listed_iff route [] = (λ h. cc, λ h. absurd h)
route_listed_iff route (r ∷ rs) = ground (arith, same_route_iff route r, route_listed_iff route rs)

abbrev pub route_of : QuoteOption → List String
route_of quote = quote.input_mint ∷ quote.output_mint ∷ []

-- The tests on a quote that was found.
abbrev pub IsAllowed : ActionValidator → Budget → QuoteOption → Type 0
IsAllowed v state quote =
    ((v.allowed_routes ≡ []) ⊎ In (route_of quote) v.allowed_routes)
    × ((state.iteration_budget ≡ 0) ⊎ (state.iterations_used < state.iteration_budget))

-- What a swap needs in order to be executed.
abbrev pub IsAdmitted : ActionValidator → QuoteCache → Action → Budget → Type 0
IsAdmitted v swap action state =
    (id : String) × (quote : QuoteOption) × (action.quote_id ≡ some id)
    × (nonempty id ≡ true)
    × (swap.is_quote_fresh id v.quote_max_age_secs ≡ true)
    × (swap.get_cached_quote id ≡ some quote)
    × (exceeds (or_default action.requested_slippage (Json.int (pos 0))) v.max_slippage_bps
        ≡ ok false)
    × IsAllowed v state quote

IsAllowed-iff :
    (v : ActionValidator) (state : Budget) (quote : QuoteOption)
    → ((route_and_budget v state quote).valid ≡ true) ↔ IsAllowed v state quote
IsAllowed-iff v state quote = ground (arith, route_listed_iff (route_of quote) v.allowed_routes)

IsAdmitted-of_valid :
    (v : ActionValidator) (swap : QuoteCache) (action : Action) (state : Budget)
    {r : ValidationResult}
    → validate_swap v swap action state ≡ ok r
    → r.valid ≡ true
    → IsAdmitted v swap action state
unfolding validate_swap
IsAdmitted-of_valid v swap action state {r} h valid = elim (Option-cases action.quote_id) [
  | inl missing ↦ absurd (ground arith)
  | inr (id, has_id) ↦ elim (Option-cases (swap.get_cached_quote id)) [
    | inl unknown ↦ absurd (ground arith)
    | inr (quote, cached) ↦ (
      id,
      quote,
      has_id,
      ground arith,
      ground arith,
      cached,
      ground arith,
      (IsAllowed-iff v state quote).0 (ground arith),
    )
  ]
]

validate_swap_of_IsAdmitted :
    (v : ActionValidator) (swap : QuoteCache) (action : Action) (state : Budget)
    → IsAdmitted v swap action state
    → validate_swap v swap action state ≡ ok accept
unfolding validate_swap
validate_swap_of_IsAdmitted v swap action state
      (id, quote, has_id, filled, fresh, cached, slow, allowed) =
    ground (arith, IsAllowed-iff v state quote)

-- The validation of a swap returns a result that is valid exactly if its type is allowed, its quote id
-- names a cached quote that is fresh, the slippage asked for is no more than the maximum, the quote's route is on the list
-- (where there is one), and the iteration budget is not used up (where there is one).
pub validate-swap_iff :
    (v : ActionValidator) (swap : QuoteCache) (action : Action) (state : Budget)
    → action.type ≡ "EXECUTE_SWAP"
    → ((r : ValidationResult) × (validate v swap action state ≡ ok r) × (r.valid ≡ true))
      ↔ ((allows execute_swap v.allowed_actions ≡ true) × IsAdmitted v swap action state)
unfolding validate
validate-swap_iff v swap action state e =
    let t : action_type_of action.type ≡ some execute_swap = ap action_type_of e in
    (
      λ (r, h, valid).
          (ground arith, IsAdmitted-of_valid v swap action state {r = r} (ground arith) valid),
      λ h. (accept, ground (arith, validate_swap_of_IsAdmitted v swap action state h.1), refl),
    )
