-- ===== src/Instances/Sound.antt =====
-- Each operation leaves the stored instances sound.
use proof_arena.Base.{
  find-passes, ℕ, ◌≡◌, refl, sym, subst, String, some, List, [], ◌∷◌, ◌++◌, ◌==◌, number_equality,
  nat_beq_iff,
}
use mathlib.Core.List.{append-nil}
use proof_arena.Base.Json.{Fields}
use proof_arena.Base.Result.{Result, ok, err}
use proof_arena.Db.{AgentInstance, AgentTemplate, Store, get_instance}
use proof_arena.Policy.{PolicyEngineError, ConsentRecord, record_consent}
use proof_arena.Policy.Consent.{record_consent-hash}
use proof_arena.Wallets.{HostedWallet}
use proof_arena.Instances.{
  Outside, new_instance, runtime_spec, consent_codec, consent_artifact, on_consent, on_runtime,
  DeployCall, provision, deploy_instance,
}
use proof_arena.Instances.Deployed.{deploy_instance-steps}
use proof_arena.Instances.Update.{replace, write_row}
use proof_arena.Instances.Standing.{IsSound, AreSound, IsConsent-last}
use proof_arena.Instances.Kept.{commit-AreSound, write_row-AreSound}

-- what a deploy writes has the key and the owner that it was given
on_consent-keys :
    (artifact_id : ℕ) (inst : AgentInstance) (r : Result PolicyEngineError (ConsentRecord String))
    → ((on_consent artifact_id inst r).0.instance_id ≡ inst.instance_id)
      × ((on_consent artifact_id inst r).0.instance_owner_ref ≡ inst.instance_owner_ref)
on_consent-keys artifact_id inst (ok consent) = (refl, refl)
on_consent-keys artifact_id inst (err e) = (refl, refl)

on_runtime-keys :
    (o : Outside) (artifact_id : ℕ) (consent : Fields) (inst : AgentInstance)
    (r : Result String String)
    → ((on_runtime o artifact_id consent inst r).0.instance_id ≡ inst.instance_id)
      × ((on_runtime o artifact_id consent inst r).0.instance_owner_ref ≡ inst.instance_owner_ref)
on_runtime-keys o artifact_id consent inst (ok handle) =
    on_consent-keys artifact_id (record inst { runtime_handle_json = some handle })
      (record_consent (consent_codec o) consent)
on_runtime-keys o artifact_id consent inst (err message) = (refl, refl)

module _ (o : Outside) (db : Store) (call : DeployCall) (wallet : HostedWallet)
    (template : AgentTemplate) where
  abbrev fresh_row : AgentInstance
  fresh_row =
      new_instance o call.instance_id call.now template call.effective_config call.owner_ref wallet

  on_consent-IsSound :
      (handle : String) (r : Result PolicyEngineError (ConsentRecord String))
      (rows : List AgentInstance)
      → record_consent (consent_codec o) call.consent ≡ r
      → IsSound o.sha256
          (db.artifacts
            ++ (on_consent call.artifact_id
                (record fresh_row { runtime_handle_json = some handle })
                r).1)
          rows
          (on_consent call.artifact_id (record fresh_row { runtime_handle_json = some handle }) r).0
  on_consent-IsSound handle (ok consent) rows made = record {
    stands = (
      refl,
      refl,
      IsConsent-last o.sha256 call.artifact_id (consent_artifact consent) db.artifacts refl refl
          (record_consent-hash (consent_codec o) call.consent made),
    );
    has_wallet = (refl, refl);
    labelled = tt;
    follows = tt;
  }
  on_consent-IsSound handle (err e) rows made = record {
    stands = (refl, refl, refl);
    has_wallet = (refl, refl);
    labelled = tt;
    follows = tt;
  }

  on_runtime-IsSound :
      (r : Result String String) (rows : List AgentInstance)
      → IsSound o.sha256
          (db.artifacts ++ (on_runtime o call.artifact_id call.consent fresh_row r).1)
          rows
          (on_runtime o call.artifact_id call.consent fresh_row r).0
  on_runtime-IsSound (ok handle) rows =
      on_consent-IsSound handle (record_consent (consent_codec o) call.consent) rows refl
  on_runtime-IsSound (err message) rows = record {
    stands = (refl, refl, refl);
    has_wallet = (refl, refl);
    labelled = tt;
    follows = tt;
  }

  provision-AreSound :
      AreSound o.sha256 db → AreSound o.sha256 (provision o db call wallet template).0
  provision-AreSound sound =
      commit-AreSound o.sha256 db _ sound (
        on_runtime-IsSound (o.deploy (runtime_spec template call.effective_config call.owner_ref))
          _)

module _ (o : Outside) (db : Store) (call : DeployCall) {db' : Store} {row : AgentInstance}
    (deployed : deploy_instance o db call ≡ ok (db', row)) where
  pub deploy_instance-AreSound : AreSound o.sha256 db → AreSound o.sha256 db'
  deploy_instance-AreSound sound =
      let (bounded, fits, (wallet, template, made, stored, can, same)) =
        deploy_instance-steps o db call deployed in
      subst (λ (out : Store × AgentInstance). AreSound o.sha256 out.0) same
        (provision-AreSound o db call wallet template sound)

  pub deploy_instance-row :
      (db'.instances ≡ db.instances ++ row ∷ [])
      × (row.instance_id ≡ call.instance_id)
      × (row.instance_owner_ref ≡ call.owner_ref)
  deploy_instance-row =
      let (bounded, fits, (wallet, template, made, stored, can, same)) =
        deploy_instance-steps o db call deployed in
      let (key, owner) =
        on_runtime-keys o call.artifact_id call.consent
          (new_instance o call.instance_id call.now template call.effective_config call.owner_ref
            wallet)
          (o.deploy (runtime_spec template call.effective_config call.owner_ref)) in
      subst
        (λ (out : Store × AgentInstance).
          (out.0.instances ≡ db.instances ++ out.1 ∷ [])
          × (out.1.instance_id ≡ call.instance_id)
          × (out.1.instance_owner_ref ≡ call.owner_ref))
        same (refl, key, owner)

-- a row that is written back, with no artifact more
pub write_row-AreSound_alone :
    (sha256 : String → String) (db : Store) (row old : AgentInstance)
    → get_instance db row.instance_id ≡ some old
    → row.instance_owner_ref ≡ old.instance_owner_ref
    → AreSound sha256 db
    → IsSound sha256 db.artifacts (replace row.instance_id row db.instances) row
    → AreSound sha256 (write_row db row)
write_row-AreSound_alone sha256 db row old found same sound new =
    subst (λ artifacts. AreSound sha256 (record (write_row db row) { artifacts = artifacts }))
      (append-nil db.artifacts)
      (write_row-AreSound sha256 db [] row old found same sound (
        subst (λ artifacts. IsSound sha256 artifacts (replace row.instance_id row db.instances) row)
          (sym (append-nil db.artifacts)) new))

-- an instance that is read stands under its own key
pub get_instance-own :
    (db : Store) (key : ℕ) {row : AgentInstance}
    → get_instance db key ≡ some row
    → (row.instance_id ≡ key) × (get_instance db row.instance_id ≡ some row)
get_instance-own db key {row} found =
    let own : row.instance_id ≡ key =
      (nat_beq_iff row.instance_id key).0
        (find-passes (λ (r : AgentInstance). r.instance_id == key) db.instances found) in
    (own, subst (λ (k : ℕ). get_instance db k ≡ some row) (sym own) found)
