-- ===== src/Instances/Repaired.antt =====
-- The operator's repairs and the platform's deploys leave the stored instances sound.
use proof_arena.Base.{
  ℕ, ◌≡◌, refl, sym, ap, ◌∙◌, subst, String, true, Option, none, some, List, [], ◌∷◌, arith, ◌==◌,
  number_equality, text_equality, is_some, if_true, if_false, Bool-cases, inl, inr,
}
use mathlib.Core.List.{append-nil}
use proof_arena.Base.Result.{Result, ok, err, bind-ok, ok-injective}
use proof_arena.Db.{
  AgentInstance, SagaStatus, SagaFailureReason, VerificationArtifact, Store, get_instance,
}
use proof_arena.Events.{Loads}
use proof_arena.Policy.{PolicyEngineError, ConsentRecord, record_consent}
use proof_arena.Policy.Consent.{record_consent-hash}
use proof_arena.Instances.{Outside, consent_codec, consent_artifact}
use proof_arena.Instances.Update.{write_row}
use proof_arena.Instances.Operator.{
  OperatorError, or_404, RetryConsentBody, model_dump, is_consent_failed, check_consent_failed,
  on_recorded, retry_consent, InstanceHandle, parse_handle, Runtime, TeardownResponse, is_torn_down,
  torn, finish, on_cleanup, is_filled, clean_up, teardown_instance,
}
use proof_arena.Instances.Operator
use proof_arena.Instances.Standing.{Stands, IsLabelled, IsSound, AreSound, IsConsent-last}
use proof_arena.Instances.Kept.{All-find, rewrite-AreSound}
use proof_arena.Instances.Sound.{get_instance-own}

pub or_404-ok : (o : Option AgentInstance) {row : AgentInstance} → or_404 o ≡ ok row → o ≡ some row
or_404-ok none h = absurd (cc)
or_404-ok (some r) h = ap some (ok-injective h)

-- only a row whose consent failed is let through
pub check_consent_failed-ok :
    (found : AgentInstance) {row : AgentInstance}
    → check_consent_failed found ≡ ok row
    → (found ≡ row) × (is_consent_failed found.status ≡ true)
check_consent_failed-ok found h = elim (Bool-cases (is_consent_failed found.status)) [
  | inl failed ↦ (ground (arith, failed, h), failed)
  | inr other ↦ absurd (ground (arith, other, h))
]

-- what is known of a row that is stored
pub stored-IsSound :
    (sha256 : String → String) (db : Store) (key : ℕ) (row : AgentInstance)
    → AreSound sha256 db
    → get_instance db key ≡ some row
    → IsSound sha256 db.artifacts db.instances row
stored-IsSound sha256 db key row sound found =
    (All-find (IsSound sha256 db.artifacts db.instances)
      (λ (r : AgentInstance). r.instance_id == key) db.instances sound found).0

handle_of_failed :
    (sha256 : String → String) (artifacts : List (ℕ × VerificationArtifact)) (status : SagaStatus)
    (reason : Option SagaFailureReason) (handle : Option String) (consent : Option ℕ)
    → is_consent_failed status ≡ true
    → Stands sha256 artifacts status reason handle consent
    → is_some handle ≡ true
handle_of_failed sha256 artifacts SagaStatus.runtime_live_consent_failed reason handle consent
      failed h =
    h.1
handle_of_failed sha256 artifacts SagaStatus.live reason handle consent failed h = absurd (cc)
handle_of_failed sha256 artifacts SagaStatus.wallet_created_runtime_failed reason handle consent
      failed h =
    absurd (cc)
handle_of_failed sha256 artifacts SagaStatus.torn_down reason handle consent failed h = absurd (cc)
handle_of_failed sha256 artifacts SagaStatus.provisioning reason handle consent failed h = absurd h
handle_of_failed sha256 artifacts SagaStatus.provisioning_failed reason handle consent failed h =
    absurd h
handle_of_failed sha256 artifacts SagaStatus.paused reason handle consent failed h = absurd h

module _ (o : Outside) (db : Store) (artifact_id instance_id : ℕ) (body : RetryConsentBody)
    (sound : AreSound o.sha256 db) where
  on_recorded-AreSound :
      (row : AgentInstance) (r : Result PolicyEngineError (ConsentRecord String))
      {out : Store × AgentInstance}
      → get_instance db row.instance_id ≡ some row
      → is_consent_failed row.status ≡ true
      → record_consent (consent_codec o) (model_dump body) ≡ r
      → on_recorded db artifact_id row r ≡ ok out
      → AreSound o.sha256 out.0
  on_recorded-AreSound row (err e) found failed made h = absurd (cc)
  on_recorded-AreSound row (ok consent) found failed made h =
      let was = stored-IsSound o.sha256 db row.instance_id row sound found in
      let repaired = Operator.promoted artifact_id row in
      subst (λ (out : Store × AgentInstance). AreSound o.sha256 out.0) (ok-injective h)
        (rewrite-AreSound o.sha256 db ((artifact_id, consent_artifact consent) ∷ []) repaired row
          found refl refl refl
          (
            refl,
            handle_of_failed o.sha256 db.artifacts row.status row.last_failure_reason
                row.runtime_handle_json row.consent_artifact_id failed was.stands,
            IsConsent-last o.sha256 artifact_id (consent_artifact consent) db.artifacts refl refl
                (record_consent-hash (consent_codec o) (model_dump body) made),
          )
          was.has_wallet was.labelled sound)

  pub retry_consent-AreSound :
      {db' : Store} {row : AgentInstance}
      → retry_consent o db artifact_id instance_id body ≡ ok (db', row)
      → AreSound o.sha256 db'
  unfolding retry_consent
  retry_consent-AreSound h =
      let (found, read, h1) = bind-ok (or_404 (get_instance db instance_id)) _ h in
      let (row, checked, h2) = bind-ok (check_consent_failed found) _ h1 in
      let (same, failed) = check_consent_failed-ok found checked in
      let stored =
        get_instance-own db instance_id
          (or_404-ok (get_instance db instance_id) read ∙ ap some same) in
      on_recorded-AreSound row _ stored.1
        (subst (λ (r : AgentInstance). is_consent_failed r.status ≡ true) same failed) refl h2

-- no artifact more
pub rewrite-AreSound_alone :
    (sha256 : String → String) (db : Store) (row old : AgentInstance)
    → get_instance db old.instance_id ≡ some old
    → row.instance_id ≡ old.instance_id
    → row.instance_owner_ref ≡ old.instance_owner_ref
    → row.superseded_by_instance_id ≡ old.superseded_by_instance_id
    → Stands sha256 db.artifacts row.status row.last_failure_reason row.runtime_handle_json
        row.consent_artifact_id
    → (is_some row.wallet_address ≡ true) × (is_some row.hosted_wallet_ref ≡ true)
    → IsLabelled row.trust_label row.instance_owner_ref
    → AreSound sha256 db
    → AreSound sha256 (write_row db row)
rewrite-AreSound_alone sha256 db row old found key owner successor stands wallet labelled sound =
    subst (λ artifacts. AreSound sha256 (record (write_row db row) { artifacts = artifacts }))
      (append-nil db.artifacts)
      (rewrite-AreSound sha256 db [] row old found key owner successor
        (subst
          (λ artifacts.
            Stands sha256 artifacts row.status row.last_failure_reason row.runtime_handle_json
              row.consent_artifact_id)
          (sym (append-nil db.artifacts)) stands)
        wallet labelled sound)

module _ (sha256 : String → String) (db : Store) (sound : AreSound sha256 db) where
  torn-AreSound :
      (row : AgentInstance)
      → get_instance db row.instance_id ≡ some row
      → AreSound sha256 (write_row db (torn row))
  torn-AreSound row found =
      let was = stored-IsSound sha256 db row.instance_id row sound found in
      rewrite-AreSound_alone sha256 db (torn row) row found refl refl refl refl was.has_wallet
        was.labelled sound

  on_cleanup-store :
      (row : AgentInstance) (r : Result String (Unit {0}))
      → (on_cleanup db row r).0 ≡ write_row db (torn row)
  on_cleanup-store row (ok done) = refl
  on_cleanup-store row (err message) = refl

  -- what a cleanup that is not refused stores
  pub clean_up-store :
      (row : AgentInstance) (runtime : Option Runtime) (handle : Option InstanceHandle)
      {out : Store × TeardownResponse}
      → clean_up db row runtime handle ≡ ok out
      → out.0 ≡ write_row db (torn row)
  clean_up-store row none (some handle) h = absurd (cc)
  clean_up-store row (some runtime) (some handle) h =
      sym (ap (λ (p : Store × TeardownResponse). p.0) (ok-injective h))
      ∙ on_cleanup-store row (runtime handle)
  clean_up-store row runtime none h = elim (Bool-cases (is_filled row.runtime_handle_json)) [
    | inl filled ↦
        sym
          (ap (λ (p : Store × TeardownResponse). p.0) (sym (if_true _ _ _ filled) ∙ ok-injective h))
    | inr empty ↦
        sym
          (ap (λ (p : Store × TeardownResponse). p.0) (sym (if_false _ _ _ empty) ∙ ok-injective h))
  ]

  pub teardown_instance-AreSound :
      (loads : Loads) (runtime : Option Runtime) (instance_id : ℕ) {db' : Store}
      {response : TeardownResponse}
      → teardown_instance loads runtime db instance_id ≡ ok (db', response)
      → AreSound sha256 db'
  unfolding teardown_instance
  teardown_instance-AreSound loads runtime instance_id {db'} {response} h =
      let (row, read, h1) = bind-ok (or_404 (get_instance db instance_id)) _ h in
      let stored = get_instance-own db instance_id (or_404-ok (get_instance db instance_id) read) in
      elim (Bool-cases (is_torn_down row.status)) [
        | inl already ↦
            subst (λ (out : Store × TeardownResponse). AreSound sha256 out.0)
              (ok-injective (sym (if_true _ _ _ already) ∙ h1)) sound
        | inr standing ↦
            subst (AreSound sha256)
              (sym (
                clean_up-store row runtime (parse_handle loads row.runtime_handle_json)
                  (sym (if_false _ _ _ standing) ∙ h1)))
              (torn-AreSound row stored.1)
      ]
