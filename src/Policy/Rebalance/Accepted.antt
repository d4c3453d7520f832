-- ===== src/Policy/Rebalance/Accepted.antt =====
-- Which specs pass `validate_spec_for_template`, for either template.
use proof_arena.Base.{
  ◌≡◌, ◌↔◌, ◌⊎◌, inl, inr, refl, ap, String, true, false, Option, none, some, List, [], ◌∷◌, ◌++◌,
  arith, In, All, contains_iff, append-eq-nil, map-eq-nil, or_default, is_some, ◌==◌, text_equality,
  if_cases,
}
use package.text.Mathlib.TextEquality.{eq_iff}
use proof_arena.Base.Int.{ℤ, pos}
use proof_arena.Base.Json.{Json, Items, Fields, arr, nil, get}
use proof_arena.Base.Result.{ok, ok-injective}
use proof_arena.Policy.{allowed_envelope_fields, keys, validate_spec}
use proof_arena.Policy.Envelope.{IsEnvelope, validate_spec-IsEnvelope, IsUniverse, IsIntIn}
use proof_arena.Policy.Rebalance.{
  items_of, rebalance_envelope_fields, EnvelopeError, extra_fields, absent_fields, check_shape,
  or_shape, within, validate_spec_for_template,
}
use proof_arena.Policy.Rebalance.Shape.{IsRebalanceShape, AreAllocations, IsPositionWeight, IsFlag}
use proof_arena.Policy.Rebalance.Limits.{validate_rebalance_envelope_shape_iff}

-- no field but the seven, and each of its shape
abbrev pub IsRebalanceEnvelope : Fields → Type 0
IsRebalanceEnvelope spec =
    All (λ k. In k rebalance_envelope_fields) (keys spec) × IsRebalanceShape spec

-- the spec of one of the two templates
abbrev pub FitsTemplate : String → Fields → Type 0
FitsTemplate template_key spec =
    ((template_key ≡ "swap_executor_v1") × IsEnvelope spec)
    ⊎ ((template_key ≡ "rebalance_executor_v1") × IsRebalanceEnvelope spec)

extra_fields_iff :
    (allowed ks : List String) → (extra_fields allowed ks ≡ []) ↔ All (λ k. In k allowed) ks
extra_fields_iff allowed [] = (λ h. tt, λ h. refl)
extra_fields_iff allowed (k ∷ ks) =
    ground (arith, contains_iff k allowed, extra_fields_iff allowed ks)

absent_fields_iff :
    (allowed : List String) (spec : Fields)
    → (absent_fields allowed spec ≡ []) ↔ All (λ k. is_some (get k spec) ≡ true) allowed
absent_fields_iff [] spec = (λ h. tt, λ h. refl)
absent_fields_iff (k ∷ ks) spec = ground (arith, absent_fields_iff ks spec)

or_shape_iff :
    (template_key : String) (spec : Fields) (es : List EnvelopeError)
    → (or_shape template_key spec es ≡ ok [])
      ↔ ((es ≡ []) × (check_shape template_key spec ≡ ok []))
or_shape_iff template_key spec [] = (λ h. (refl, h), λ h. h.1)
or_shape_iff template_key spec (e ∷ es) = (λ h. absurd (cc), λ h. absurd (cc))

-- the membership check of a template, and then its shape
within_iff :
    (template_key : String) (spec : Fields) (allowed : List String)
    → (within template_key spec (some allowed) ≡ ok []) ↔ (
        All (λ k. In k allowed) (keys spec)
        × All (λ k. is_some (get k spec) ≡ true) allowed
        × (check_shape template_key spec ≡ ok []))
within_iff template_key spec allowed = ground (
  arith,
  or_shape_iff template_key spec (extra_fields allowed (keys spec) ++ absent_fields allowed spec),
  append-eq-nil (extra_fields allowed (keys spec)) (absent_fields allowed spec),
  extra_fields_iff allowed (keys spec),
  absent_fields_iff allowed spec,
)

-- a field of a shape is there
IsUniverse-is_some : (o : Option Json) → IsUniverse o → is_some o ≡ true
IsUniverse-is_some none h = absurd h
IsUniverse-is_some (some v) h = refl

IsIntIn-is_some : (lo hi : ℤ) (o : Option Json) → IsIntIn lo hi o → is_some o ≡ true
IsIntIn-is_some lo hi none h = absurd h
IsIntIn-is_some lo hi (some v) h = refl

AreAllocations-is_some :
    (universe : Items) (o : Option Json) → AreAllocations universe o → is_some o ≡ true
AreAllocations-is_some universe none h = absurd h
AreAllocations-is_some universe (some v) h = refl

IsPositionWeight-is_some : (o : Option Json) → IsPositionWeight o → is_some o ≡ true
IsPositionWeight-is_some none h = absurd h
IsPositionWeight-is_some (some v) h = refl

IsFlag-is_some : (o : Option Json) → IsFlag o → is_some o ≡ true
IsFlag-is_some none h = absurd h
IsFlag-is_some (some v) h = refl

swap_present :
    (spec : Fields)
    → IsEnvelope spec
    → All (λ k. is_some (get k spec) ≡ true) allowed_envelope_fields
swap_present spec (known, u, sl, p, i, se) = (
  IsUniverse-is_some _ u,
  (
    IsIntIn-is_some (pos 0) (pos 500) _ sl,
    (
      IsIntIn-is_some (pos 1) (pos 10000000000) _ p,
      (IsIntIn-is_some (pos 1) (pos 200) _ i, (IsIntIn-is_some (pos 1) (pos 3600) _ se, tt)),
    ),
  ),
)

rebalance_present :
    (spec : Fields)
    → IsRebalanceShape spec
    → All (λ k. is_some (get k spec) ≡ true) rebalance_envelope_fields
rebalance_present spec (u, a, (th, sl, pw, tv, dr)) = (
  IsUniverse-is_some _ u,
  (
    AreAllocations-is_some (items_of (or_default (get "allowed_token_universe" spec) (arr nil))) _
        a,
    (
      IsIntIn-is_some (pos 1) (pos 5000) _ th,
      (
        IsIntIn-is_some (pos 0) (pos 500) _ sl,
        (
          IsPositionWeight-is_some _ pw,
          (IsIntIn-is_some (pos 1) (pos 10000000000) _ tv, (IsFlag-is_some _ dr, tt)),
        ),
      ),
    ),
  ),
)

swap_iff :
    (spec : Fields)
    → (within "swap_executor_v1" spec (some allowed_envelope_fields) ≡ ok []) ↔ IsEnvelope spec
swap_iff spec =
    let both = within_iff "swap_executor_v1" spec allowed_envelope_fields in
    let errors = map-eq-nil EnvelopeError.swap_error (validate_spec spec) in
    (
      λ h. (validate_spec-IsEnvelope spec).0 (errors.0 (ok-injective (both.0 h).2)),
      λ h.
          both.1 (h.0, swap_present spec h, ap ok (errors.1 ((validate_spec-IsEnvelope spec).1 h))),
    )

rebalance_iff :
    (spec : Fields)
    → (within "rebalance_executor_v1" spec (some rebalance_envelope_fields) ≡ ok [])
      ↔ IsRebalanceEnvelope spec
rebalance_iff spec =
    let both = within_iff "rebalance_executor_v1" spec rebalance_envelope_fields in
    let shape = validate_rebalance_envelope_shape_iff spec in
    (
      λ h. let (known, there, passes) = both.0 h in (known, shape.0 passes),
      λ (known, shaped). both.1 (known, rebalance_present spec shaped, shape.1 shaped),
    )

-- A spec passes for a template exactly if the template is the swap executor and the spec fits the swap
-- envelope, or it is the rebalance executor and the spec has the seven fields of the rebalance
-- envelope and no other, each of its shape: the mints are texts, the weights are of the universe's
-- mints, no weight is below 0 or above 1, their total as doubles is not off 1, the limits are within
-- their bounds and the flag is a bool. No exception is raised then.
pub validate_spec_for_template_iff :
    (template_key : String) (spec : Fields)
    → (validate_spec_for_template template_key spec ≡ ok []) ↔ FitsTemplate template_key spec
unfolding validate_spec_for_template
validate_spec_for_template_iff template_key spec =
    if_cases
      (λ (allowed : Option (List String)).
        (within template_key spec allowed ≡ ok []) ↔ FitsTemplate template_key spec)
      (template_key == "swap_executor_v1")
      (λ swap.
        let named = (eq_iff template_key "swap_executor_v1").0 swap in
        rw named (λ h. inl (refl, (swap_iff spec).0 h), λ h. by_swap spec h))
      (λ not_swap.
        if_cases
          (λ (allowed : Option (List String)).
            (within template_key spec allowed ≡ ok []) ↔ FitsTemplate template_key spec)
          (template_key == "rebalance_executor_v1")
          (λ rebalance.
            let named = (eq_iff template_key "rebalance_executor_v1").0 rebalance in
            rw named (λ h. inr (refl, (rebalance_iff spec).0 h), λ h. by_rebalance spec h))
          (λ neither. (λ h. absurd (cc), λ h. other_key template_key spec not_swap neither h)))
  where
    by_swap :
        (spec : Fields)
        → FitsTemplate "swap_executor_v1" spec
        → within "swap_executor_v1" spec (some allowed_envelope_fields) ≡ ok []
    by_swap spec (inl (named, fits)) = (swap_iff spec).1 fits
    by_swap spec (inr (named, fits)) =
        absurd (ground (arith, eq_iff "swap_executor_v1" "rebalance_executor_v1"))

    by_rebalance :
        (spec : Fields)
        → FitsTemplate "rebalance_executor_v1" spec
        → within "rebalance_executor_v1" spec (some rebalance_envelope_fields) ≡ ok []
    by_rebalance spec (inl (named, fits)) =
        absurd (ground (arith, eq_iff "rebalance_executor_v1" "swap_executor_v1"))
    by_rebalance spec (inr (named, fits)) = (rebalance_iff spec).1 fits

    other_key :
        (template_key : String) (spec : Fields)
        → (template_key == "swap_executor_v1") ≡ false
        → (template_key == "rebalance_executor_v1") ≡ false
        → FitsTemplate template_key spec
        → within template_key spec none ≡ ok []
    other_key template_key spec not_swap neither (inl (named, fits)) =
        absurd (ground (arith, eq_iff template_key "swap_executor_v1"))
    other_key template_key spec not_swap neither (inr (named, fits)) =
        absurd (ground (arith, eq_iff template_key "rebalance_executor_v1"))
