-- ===== src/Instances/Deployed.antt =====
-- When the saga writes a row, and which.
use proof_arena.Base.{
  ◌≡◌, ◌↔◌, ◌≤◌, inl, inr, refl, ap, String, false, Option, none, some, List, [], ◌∷◌, arith, map,
  map-eq-nil, text_equality, if_cases, nat_beq,
}
use package.text.Mathlib.TextEquality.{eq_iff}
use proof_arena.Base.Json.{Fields}
use proof_arena.Base.Result.{Result, ok, err, bind-ok, ok-injective}
use proof_arena.Db.{AgentInstance, AgentTemplate, Store}
use proof_arena.Policy.{
  PolicyEngineError, WalletPolicy, validate_spec, build_wallet_policy, orca_devnet_allowlist,
}
use proof_arena.Policy.Envelope.{IsEnvelope, validate_spec-IsEnvelope, build_wallet_policy_iff}
use proof_arena.Policy.Rebalance.{EnvelopeError, swap_error, Raised, validate_spec_for_template}
use proof_arena.Policy.Rebalance.Accepted.{FitsTemplate, validate_spec_for_template_iff}
use proof_arena.Wallets.{
  WalletError, unknown_cluster, chain_mismatch, no_signing_service, privy_error, HostedWallet,
}
use proof_arena.Instances.{
  Outside, text_length, check_owner, is_swap, on_validated, check_spec, on_policy, check_policy,
  on_wallet, create_wallet, template_by_key, deployable, resolve_template, DeployCall, provision,
  deploy_instance,
}

on_validated_iff : (r : Result Raised (List EnvelopeError)) → (on_validated r ≡ ok tt) ↔ (r ≡ ok [])
on_validated_iff (ok []) = (λ h. refl, λ h. refl)
on_validated_iff (ok (e ∷ es)) = (λ h. absurd (cc), λ h. absurd (cc))
on_validated_iff (err raised) = (λ h. absurd (cc), λ h. absurd (cc))

-- the spec of a swap instance is validated as the template's is
swap_checked :
    (spec : Fields)
    → (◌≡◌ {A = Result Raised (List EnvelopeError)}
        (ok (map swap_error (validate_spec spec)))
        (ok []))
      ↔ FitsTemplate "swap_executor_v1" spec
swap_checked spec = (
  λ h. inl (
    refl,
    (validate_spec-IsEnvelope spec).0
        ((map-eq-nil swap_error (validate_spec spec)).0 (ok-injective h)),
  ),
  λ h. ap ok (
      (map-eq-nil swap_error (validate_spec spec)).1
        ((validate_spec-IsEnvelope spec).1 (swap_of spec h))),
)
  where
    swap_of : (spec : Fields) → FitsTemplate "swap_executor_v1" spec → IsEnvelope spec
    swap_of spec (inl (named, fits)) = fits
    swap_of spec (inr (named, fits)) =
        absurd (ground (arith, eq_iff "swap_executor_v1" "rebalance_executor_v1"))

check_spec_iff :
    (template_key : String) (spec : Fields)
    → (check_spec template_key spec ≡ ok tt) ↔ FitsTemplate template_key spec
unfolding check_spec
check_spec_iff template_key spec =
    if_cases
      (λ (r : Result Raised (List EnvelopeError)).
        (on_validated r ≡ ok tt) ↔ FitsTemplate template_key spec)
      (is_swap template_key)
      (λ swap.
        let named = (eq_iff template_key "swap_executor_v1").0 swap in
        let checked = on_validated_iff (ok (map swap_error (validate_spec spec))) in
        rw named
          (λ h. (swap_checked spec).0 (checked.0 h), λ h. checked.1 ((swap_checked spec).1 h)))
      (λ other.
        let checked = on_validated_iff (validate_spec_for_template template_key spec) in
        let fits = validate_spec_for_template_iff template_key spec in
        (λ h. fits.0 (checked.0 h), λ h. checked.1 (fits.1 h)))

on_policy-ok :
    (r : Result PolicyEngineError WalletPolicy) {p : WalletPolicy} → r ≡ ok p → on_policy r ≡ ok tt
on_policy-ok (ok p) h = refl
on_policy-ok (err e) h = absurd (cc)

-- a spec that passed the first step passes the second
check_policy-FitsTemplate :
    (template_key : String) (spec : Fields)
    → FitsTemplate template_key spec
    → check_policy template_key spec ≡ ok tt
unfolding check_policy
check_policy-FitsTemplate template_key spec (inl (named, fits)) =
    let (p, built) = (build_wallet_policy_iff spec orca_devnet_allowlist "devnet").1 (refl, fits) in
    let passes = on_policy-ok (build_wallet_policy spec orca_devnet_allowlist "devnet") built in
    ground (arith, passes)
check_policy-FitsTemplate template_key spec (inr (named, fits)) = ground (
  arith,
  eq_iff template_key "swap_executor_v1",
  eq_iff "rebalance_executor_v1" "swap_executor_v1",
)

check_owner_iff :
    (owner_ref : String) → (check_owner owner_ref ≡ ok tt) ↔ (text_length owner_ref ≤ 128)
check_owner_iff owner_ref = ground arith

on_wallet_iff :
    (r : Result WalletError HostedWallet) (wallet : HostedWallet)
    → (on_wallet r ≡ ok wallet) ↔ (r ≡ ok wallet)
on_wallet_iff (ok w) wallet = (λ h. ap ok (ok-injective h), λ h. ap ok (ok-injective h))
on_wallet_iff (err no_signing_service) wallet = (λ h. absurd (cc), λ h. absurd (cc))
on_wallet_iff (err (unknown_cluster s)) wallet = (λ h. absurd (cc), λ h. absurd (cc))
on_wallet_iff (err (chain_mismatch s)) wallet = (λ h. absurd (cc), λ h. absurd (cc))
on_wallet_iff (err (privy_error n s)) wallet = (λ h. absurd (cc), λ h. absurd (cc))

deployable_iff :
    (template_key : String) (o : Option AgentTemplate) (template : AgentTemplate)
    → (deployable template_key o ≡ ok template)
      ↔ ((o ≡ some template) × (nat_beq template.is_deployable 0 ≡ false))
deployable_iff template_key none template = (λ h. absurd (cc), λ h. absurd (cc))
deployable_iff template_key (some t) template = ground arith

-- what a deploy needs before it writes a row
abbrev pub IsReady : Outside → Store → DeployCall → Type 0
IsReady o db call =
    (text_length call.owner_ref ≤ 128)
    × FitsTemplate call.template_key call.effective_config
    × ((wallet : HostedWallet) × ((create_wallet o).1 ≡ ok wallet))
    × ((template : AgentTemplate) × (template_by_key db call.template_key ≡ some template)
        × (nat_beq template.is_deployable 0 ≡ false))

-- the steps before the row, and what they found
pub deploy_instance-steps :
    (o : Outside) (db : Store) (call : DeployCall) {out : Store × AgentInstance}
    → deploy_instance o db call ≡ ok out
    → (text_length call.owner_ref ≤ 128)
      × FitsTemplate call.template_key call.effective_config
      × ((wallet : HostedWallet) × (template : AgentTemplate) × ((create_wallet o).1 ≡ ok wallet)
          × (template_by_key db call.template_key ≡ some template)
          × (nat_beq template.is_deployable 0 ≡ false)
          × (provision o db call wallet template ≡ out))
unfolding deploy_instance resolve_template
deploy_instance-steps o db call h =
    let (_, bounded, h1) = bind-ok (check_owner call.owner_ref) _ h in
    let (_, valid, h2) = bind-ok (check_spec call.template_key call.effective_config) _ h1 in
    let (_, allowed, h3) = bind-ok (check_policy call.template_key call.effective_config) _ h2 in
    let (wallet, made, h4) = bind-ok (on_wallet (create_wallet o).1) _ h3 in
    let (template, found, h5) =
      bind-ok (deployable call.template_key (template_by_key db call.template_key)) _ h4 in
    let (stored, can) = (deployable_iff call.template_key _ template).0 found in
    (
      (check_owner_iff call.owner_ref).0 bounded,
      (check_spec_iff call.template_key call.effective_config).0 valid,
      (wallet, template, (on_wallet_iff _ wallet).0 made, stored, can, ok-injective h5),
    )

pub deploy_instance_iff :
    (o : Outside) (db : Store) (call : DeployCall)
    → ((out : Store × AgentInstance) × (deploy_instance o db call ≡ ok out)) ↔ IsReady o db call
unfolding deploy_instance resolve_template
deploy_instance_iff o db call = (
  λ (out, h).
      let (bounded, fits, (wallet, template, made, stored, can, same)) =
        deploy_instance-steps o db call h in
      (bounded, fits, (wallet, made), (template, stored, can)),
  λ (bounded, fits, (wallet, made), (template, stored, can)). (
    provision o db call wallet template,
    rw
        (
          (check_owner_iff call.owner_ref).1 bounded,
          (check_spec_iff call.template_key call.effective_config).1 fits,
          check_policy-FitsTemplate call.template_key call.effective_config fits,
          (on_wallet_iff _ wallet).1 made,
          (deployable_iff call.template_key _ template).1 (stored, can),
        )
        refl,
  ),
)
