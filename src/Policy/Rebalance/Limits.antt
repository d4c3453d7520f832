-- ===== src/Policy/Rebalance/Limits.antt =====
-- The fields of a rebalance envelope that stand for themselves, and the whole envelope.
use proof_arena.Base.{
  ◌≡◌, ◌↔◌, refl, subst, Option, none, some, List, [], ◌++◌, arith, append-eq-nil, five-eq-nil,
  or_default, text_equality,
}
use proof_arena.Base.Int.{ℤ, pos}
use proof_arena.Base.Json.{Json, Fields, null, bool, int, float, arr, obj, nil, end, get}
use proof_arena.Base.Result.{ok, bind-ok, ok-injective}
use proof_arena.Policy.Envelope.{IsIntIn}
use proof_arena.Policy.Rebalance.{
  EnvelopeError, items_of, check_target, is_int_in, is_position_weight, is_bool, unless,
  check_limits, validate_rebalance_envelope_shape,
}
use proof_arena.Policy.Rebalance.Shape.{
  IsPositionWeight, IsFlag, HasLimits, IsRebalanceShape, check_universe_iff, check_target-accepts,
  check_target-accepted,
}

module _ (e : EnvelopeError) where
  IsIntIn-iff :
      (lo hi : ℤ) (o : Option Json)
      → (unless (is_int_in lo hi (or_default o null)) e ≡ []) ↔ IsIntIn lo hi o
  IsIntIn-iff lo hi none = ground arith
  IsIntIn-iff lo hi (some (int n)) = ground arith
  IsIntIn-iff lo hi (some v) = ground arith

  IsPositionWeight-iff :
      (o : Option Json)
      → (unless (is_position_weight (or_default o null)) e ≡ []) ↔ IsPositionWeight o
  IsPositionWeight-iff none = ground arith
  IsPositionWeight-iff (some (int n)) = ground arith
  IsPositionWeight-iff (some (float f)) = ground arith
  IsPositionWeight-iff (some v) = ground arith

  IsFlag-iff : (o : Option Json) → (unless (is_bool (or_default o null)) e ≡ []) ↔ IsFlag o
  IsFlag-iff none = ground arith
  IsFlag-iff (some (bool b)) = ground arith
  IsFlag-iff (some v) = ground arith

limits_iff : (spec : Fields) → (check_limits spec ≡ []) ↔ HasLimits spec
limits_iff spec =
    let th = λ (e : EnvelopeError).
      IsIntIn-iff e (pos 1) (pos 5000) (get "rebalance_threshold_bps" spec) in
    let sl = λ (e : EnvelopeError). IsIntIn-iff e (pos 0) (pos 500) (get "max_slippage_bps" spec) in
    let pw = λ (e : EnvelopeError). IsPositionWeight-iff e (get "max_position_weight" spec) in
    let tv =
      λ (e : EnvelopeError). IsIntIn-iff e (pos 1) (pos 10000000000) (get "max_trade_value" spec) in
    let dr = λ (e : EnvelopeError). IsFlag-iff e (get "dry_run" spec) in
    (
      λ h.
          let (a, b, c, d, f) = (five-eq-nil _ _ _ _ _).0 h in
          ((th _).0 a, (sl _).0 b, (pw _).0 c, (tv _).0 d, (dr _).0 f),
      λ (a, b, c, d, f).
          (five-eq-nil _ _ _ _ _).1 ((th _).1 a, (sl _).1 b, (pw _).1 c, (tv _).1 d, (dr _).1 f),
    )

three-eq-nil : {A : Type 0} (a b c : List A) → (a ++ b ++ c ≡ []) ↔ ((a ≡ []) × (b ≡ []) × (c ≡ []))
three-eq-nil a b c = ground (arith, append-eq-nil (a ++ b) c, append-eq-nil a b)

pub validate_rebalance_envelope_shape_iff :
    (spec : Fields) → (validate_rebalance_envelope_shape spec ≡ ok []) ↔ IsRebalanceShape spec
unfolding validate_rebalance_envelope_shape
validate_rebalance_envelope_shape_iff spec =
    let universe = or_default (get "allowed_token_universe" spec) (arr nil) in
    let target = get "target_allocations" spec in
    (
      λ h.
          let (errors, checked, h') =
            bind-ok (check_target (items_of universe) (or_default target (obj end))) _ h in
          let (u, t, l) = (three-eq-nil _ errors _).0 (ok-injective h') in
          (
            (check_universe_iff (get "allowed_token_universe" spec)).0 u,
            check_target-accepted (items_of universe) target (
                subst (λ es. check_target (items_of universe) (or_default target (obj end)) ≡ ok es)
                  t checked),
            (limits_iff spec).0 l,
          ),
      λ (u, t, l).
          rw
            (
              check_target-accepts (items_of universe) target t,
              (check_universe_iff (get "allowed_token_universe" spec)).1 u,
              (limits_iff spec).1 l,
            )
            refl,
    )
