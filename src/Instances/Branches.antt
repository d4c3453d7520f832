-- ===== src/Instances/Branches.antt =====
-- Which row the saga writes, branch by branch.
use proof_arena.Base.{
  ℕ, ◌≡◌, ◌⊎◌, inl, inr, refl, sym, ap, ◌∙◌, subst, String, none, some, List, [], ◌∷◌, ◌++◌,
}
use proof_arena.Base.Json.{obj}
use proof_arena.Base.Result.{Result, ok, err}
use proof_arena.Db.{
  AgentInstance, AgentTemplate, VerificationArtifact, SagaStatus, SagaFailureReason, TrustLabel,
  Store,
}
use proof_arena.Policy.{
  PolicyEngineError, ConsentRecord, record_consent, required_consent_keys, consent_fields,
}
use proof_arena.Policy.Consent.{
  IsFullConsent, record_consent-IsFullConsent, record_consent-hash, record_consent-text,
}
use proof_arena.Wallets.{HostedWallet}
use proof_arena.Instances.{
  Outside, create_wallet, template_by_key, new_instance, runtime_spec, consent_codec,
  consent_artifact, on_consent, on_runtime, DeployCall, deploy_instance,
}
use proof_arena.Instances.Deployed.{deploy_instance-steps}

-- the branches behind the wallet: the runtime raises; it answers and the consent is not full; it
-- answers and the consent is full
abbrev pub Ends :
    Outside → DeployCall → AgentTemplate → AgentInstance → List (ℕ × VerificationArtifact) → Type 0
Ends o call template row artifacts =
    ((message : String) × (o.deploy (runtime_spec template call.effective_config call.owner_ref)
        ≡ err message)
      × (row.status ≡ SagaStatus.wallet_created_runtime_failed)
      × (row.last_failure_reason ≡ some SagaFailureReason.wallet_created_runtime_failed)
      × (row.runtime_handle_json ≡ none)
      × (row.consent_artifact_id ≡ none)
      × (artifacts ≡ []))
    ⊎ ((handle : String) × (o.deploy (runtime_spec template call.effective_config call.owner_ref)
          ≡ ok handle)
        × (row.runtime_handle_json ≡ some handle)
        × (((¬ IsFullConsent call.consent)
              × (row.status ≡ SagaStatus.runtime_live_consent_failed)
              × (row.last_failure_reason ≡ some SagaFailureReason.runtime_live_consent_failed)
              × (row.consent_artifact_id ≡ none)
              × (artifacts ≡ []))
            ⊎ (IsFullConsent call.consent
                × (row.status ≡ SagaStatus.live)
                × (row.last_failure_reason ≡ none)
                × (row.consent_artifact_id ≡ some call.artifact_id)
                × ((a : VerificationArtifact) × (artifacts ≡ (call.artifact_id, a) ∷ [])
                    × (a.run_id ≡ none)
                    × (a.uri_or_ref ≡ o.canonical (obj (consent_fields required_consent_keys)))
                    × (a.content_hash ≡ o.sha256 a.uri_or_ref)))))

module _ (o : Outside) (db : Store) (call : DeployCall) (wallet : HostedWallet)
    (template : AgentTemplate) where
  abbrev row_before : AgentInstance
  row_before =
      new_instance o call.instance_id call.now template call.effective_config call.owner_ref wallet

  on_consent-Ends :
      (handle : String) (r : Result PolicyEngineError (ConsentRecord String))
      → o.deploy (runtime_spec template call.effective_config call.owner_ref) ≡ ok handle
      → record_consent (consent_codec o) call.consent ≡ r
      → Ends o call template
          (on_consent call.artifact_id
            (record row_before { runtime_handle_json = some handle })
            r).0
          (on_consent call.artifact_id
            (record row_before { runtime_handle_json = some handle })
            r).1
  on_consent-Ends handle (err e) deployed refused = inr (
    handle,
    deployed,
    refl,
    inl (
      λ full.
          let (r, made, text, hash) =
            (record_consent-IsFullConsent (consent_codec o) call.consent).1 full in
          cc,
      refl,
      refl,
      refl,
      refl,
    ),
  )
  on_consent-Ends handle (ok consent) deployed made =
      let text = record_consent-text (consent_codec o) call.consent made in
      let hash = record_consent-hash (consent_codec o) call.consent made in
      inr (
        handle,
        deployed,
        refl,
        inr (
          (record_consent-IsFullConsent (consent_codec o) call.consent).0
              (consent, made, text, hash),
          refl,
          refl,
          refl,
          (consent_artifact consent, refl, refl, text, hash),
        ),
      )

  on_runtime-Ends :
      (r : Result String String)
      → o.deploy (runtime_spec template call.effective_config call.owner_ref) ≡ r
      → Ends o call template
          (on_runtime o call.artifact_id call.consent row_before r).0
          (on_runtime o call.artifact_id call.consent row_before r).1
  on_runtime-Ends (err message) deployed = inl (message, deployed, refl, refl, refl, refl, refl)
  on_runtime-Ends (ok handle) deployed =
      on_consent-Ends handle (record_consent (consent_codec o) call.consent) deployed refl

-- what does not depend on the branch
abbrev pub Names : Outside → DeployCall → HostedWallet → AgentTemplate → AgentInstance → Type 0
Names o call wallet template row =
    (row.instance_id ≡ call.instance_id)
    × (row.template_id ≡ template.template_id)
    × (row.template_version_at_deploy ≡ template.template_version)
    × (row.instance_owner_ref ≡ call.owner_ref)
    × (row.effective_config_json ≡ o.dumps (obj call.effective_config))
    × (row.wallet_address ≡ some wallet.address)
    × (row.hosted_wallet_ref ≡ some wallet.wallet_id)
    × (row.trust_label ≡ TrustLabel.benchmark_compatible_customized_instance)
    × (row.superseded_by_instance_id ≡ none)

module _ (o : Outside) (call : DeployCall) (wallet : HostedWallet) (template : AgentTemplate) where
  on_consent-Names :
      (artifact_id : ℕ) (inst : AgentInstance) (r : Result PolicyEngineError (ConsentRecord String))
      → Names o call wallet template inst
      → Names o call wallet template (on_consent artifact_id inst r).0
  on_consent-Names artifact_id inst (ok consent) h = h
  on_consent-Names artifact_id inst (err e) h = h

  on_runtime-Names :
      (inst : AgentInstance) (r : Result String String)
      → Names o call wallet template inst
      → Names o call wallet template (on_runtime o call.artifact_id call.consent inst r).0
  on_runtime-Names inst (err message) h = h
  on_runtime-Names inst (ok handle) h =
      on_consent-Names call.artifact_id (record inst { runtime_handle_json = some handle })
        (record_consent (consent_codec o) call.consent) h

-- A deploy that returns adds the one row that it returns, for the owner, the template and the
-- configuration that were given and the wallet that was made, and with the label of a customized
-- instance. Its status, reason, handle and consent are those of the branch: the runtime raised; or it
-- answered and an acknowledgment was not True; or all four were, and the row is live and the consent
-- that is stored is their canonical text with its hash.
pub deploy_instance-Ends :
    (o : Outside) (db : Store) (call : DeployCall) {db' : Store} {row : AgentInstance}
    → deploy_instance o db call ≡ ok (db', row)
    → (wallet : HostedWallet) × (template : AgentTemplate) × (artifacts : List
        (ℕ × VerificationArtifact))
      × ((create_wallet o).1 ≡ ok wallet)
      × (template_by_key db call.template_key ≡ some template)
      × (db'.instances ≡ db.instances ++ row ∷ [])
      × (db'.artifacts ≡ db.artifacts ++ artifacts)
      × Names o call wallet template row
      × Ends o call template row artifacts
deploy_instance-Ends o db call {db'} {row} h =
    let (bounded, fits, (wallet, template, made, stored, can, same)) =
      deploy_instance-steps o db call h in
    let inst =
      new_instance o call.instance_id call.now template call.effective_config call.owner_ref
        wallet in
    let answer = o.deploy (runtime_spec template call.effective_config call.owner_ref) in
    let rows = on_runtime o call.artifact_id call.consent inst answer in
    let row_is : rows.0 ≡ row = ap (λ (out : Store × AgentInstance). out.1) same in
    (
      wallet,
      template,
      rows.1,
      made,
      stored,
      ap (λ (out : Store × AgentInstance). out.0.instances) (sym same)
          ∙ ap (λ r. db.instances ++ r ∷ []) row_is,
      ap (λ (out : Store × AgentInstance). out.0.artifacts) (sym same),
      subst (Names o call wallet template) row_is (
          on_runtime-Names o call wallet template inst answer
            (refl, refl, refl, refl, refl, refl, refl, refl, refl)),
      subst (λ r. Ends o call template r rows.1) row_is
          (on_runtime-Ends o db call wallet template answer refl),
    )
