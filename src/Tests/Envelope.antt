-- ===== src/Tests/Envelope.antt =====
-- A spec, its wallet policy and a consent.
use proof_arena.Base.{◌≡◌, refl, String, [], ◌∷◌}
use proof_arena.Base.Int.{pos}
use proof_arena.Base.Json.{Fields, text, int, arr, cons, nil, field, end}
use proof_arena.Base.Result.{ok}
use proof_arena.Policy.{
  validate_spec, WalletPolicy, policy_unless, build_wallet_policy, ConsentRecord,
  required_consent_keys, consent_fields, record_consent, orca_devnet_allowlist, envelope_of,
}
use proof_arena.Policy.Envelope.{Grants, build_wallet_policy-Grants}

abbrev spec : Fields
spec = field "allowed_token_universe" (arr (cons (text "mint") nil)) (
    field "max_iterations" (int (pos 20)) (
      field "max_position_size" (int (pos 1000)) (
        field "max_runtime_seconds" (int (pos 60)) (field "max_slippage_bps" (int (pos 100)) end))))

abbrev chain : String
chain = "devnet"

abbrev policy : WalletPolicy
policy = record {
  chain = "devnet";
  envelope = envelope_of spec;
  allowlist_profile = orca_devnet_allowlist;
  transfer_instruction = "TransferChecked";
  transfer_max_amount = int (pos 1000);
  default_action = "DENY";
  runner_enforced =
      "quote_freshness" ∷ "slippage_upper_bound_per_swap" ∷ "iteration_budget" ∷ "time_budget" ∷ [];
}

built : build_wallet_policy spec orca_devnet_allowlist "devnet" ≡ ok policy
unfolding build_wallet_policy validate_spec proof_arena.Policy.check_token_universe
    proof_arena.Policy.check_int_range
built = refl

build_wallet_policy-Grants_example : Grants spec orca_devnet_allowlist policy
build_wallet_policy-Grants_example =
    build_wallet_policy-Grants spec orca_devnet_allowlist "devnet" built

abbrev consent : Fields
consent = consent_fields required_consent_keys
