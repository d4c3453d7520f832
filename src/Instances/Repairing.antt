-- ===== src/Instances/Repairing.antt =====
-- When a consent can be retried, and what a teardown ends.
use proof_arena.Base.{
  ℕ, ◌≡◌, ◌↔◌, refl, sym, ap, ◌∙◌, subst, String, Bool, true, not, Option, none, some, arith,
  if_false,
}
use proof_arena.Base.Json.{bool}
use proof_arena.Base.Result.{Result, ok, err, bind-ok, ok-injective}
use proof_arena.Db.{AgentInstance, SagaStatus, Store, get_instance}
use proof_arena.Policy.{PolicyEngineError, ConsentRecord, record_consent}
use proof_arena.Policy.Consent.{
  IsFullConsent, record_consent-IsFullConsent, record_consent-text, record_consent-hash,
}
use proof_arena.Instances.{Outside, DeployCall, deploy_instance, consent_codec}
use proof_arena.Instances.Update.{write_row}
use proof_arena.Instances.Operator.{
  or_404, RetryConsentBody, bool_or_null, model_dump, is_consent_failed, check_consent_failed,
  promoted, on_recorded, retry_consent,
}
use proof_arena.Instances.Standing.{IsFresh}
use proof_arena.Instances.Sound.{get_instance-own, deploy_instance-row}
use proof_arena.Instances.Repaired.{or_404-ok, check_consent_failed-ok}
use proof_arena.Instances.Platform.{fresh_found}
use proof_arena.Instances.Found.{get_instance-write_row}

-- the four checkboxes are all sent, and true
abbrev pub IsFullBody : RetryConsentBody → Type 0
IsFullBody body =
    (body.devnet_only_acknowledged ≡ some true)
    × (body.no_indemnity_acknowledged ≡ some true)
    × (body.platform_managed_signing_acknowledged ≡ some true)
    × (body.spend_caps_acknowledged ≡ some true)

bool_or_null_iff : (o : Option Bool) → (some (bool_or_null o) ≡ some (bool true)) ↔ (o ≡ some true)
bool_or_null_iff none = ground arith
bool_or_null_iff (some b) = ground arith

model_dump-IsFullConsent :
    (body : RetryConsentBody) → IsFullConsent (model_dump body) ↔ IsFullBody body
model_dump-IsFullConsent body = (
  λ (a, (b, (c, (d, _)))). (
    (bool_or_null_iff body.devnet_only_acknowledged).0 a,
    (bool_or_null_iff body.no_indemnity_acknowledged).0 b,
    (bool_or_null_iff body.platform_managed_signing_acknowledged).0 c,
    (bool_or_null_iff body.spend_caps_acknowledged).0 d,
  ),
  λ (a, b, c, d). (
    (bool_or_null_iff body.devnet_only_acknowledged).1 a,
    (
      (bool_or_null_iff body.no_indemnity_acknowledged).1 b,
      (
        (bool_or_null_iff body.platform_managed_signing_acknowledged).1 c,
        ((bool_or_null_iff body.spend_caps_acknowledged).1 d, tt),
      ),
    ),
  ),
)

is_consent_failed_iff :
    (s : SagaStatus) → (is_consent_failed s ≡ true) ↔ (s ≡ SagaStatus.runtime_live_consent_failed)
is_consent_failed_iff s = (failed_of s, λ h. ap is_consent_failed h)
  where
    failed_of :
        (s : SagaStatus) → is_consent_failed s ≡ true → s ≡ SagaStatus.runtime_live_consent_failed
    failed_of SagaStatus.runtime_live_consent_failed h = refl
    failed_of SagaStatus.live h = absurd (cc)
    failed_of SagaStatus.provisioning h = absurd (cc)
    failed_of SagaStatus.wallet_created_runtime_failed h = absurd (cc)
    failed_of SagaStatus.provisioning_failed h = absurd (cc)
    failed_of SagaStatus.paused h = absurd (cc)
    failed_of SagaStatus.torn_down h = absurd (cc)

-- what a retry needs
abbrev pub CanRepair : Store → ℕ → RetryConsentBody → Type 0
CanRepair db instance_id body =
    ((row : AgentInstance) × (get_instance db instance_id ≡ some row)
      × (row.status ≡ SagaStatus.runtime_live_consent_failed))
    × IsFullBody body

-- what it makes of the row
abbrev pub IsRepaired : Store → ℕ → ℕ → Store → AgentInstance → Type 0
IsRepaired db artifact_id instance_id db' row =
    (row.status ≡ SagaStatus.live)
    × (row.last_failure_reason ≡ none)
    × (row.consent_artifact_id ≡ some artifact_id)
    × (get_instance db' instance_id ≡ some row)

module _ (o : Outside) (db : Store) (artifact_id instance_id : ℕ) (body : RetryConsentBody) where
  on_recorded-IsFullBody :
      (row : AgentInstance) (r : Result PolicyEngineError (ConsentRecord String))
      {out : Store × AgentInstance}
      → get_instance db row.instance_id ≡ some row
      → row.instance_id ≡ instance_id
      → record_consent (consent_codec o) (model_dump body) ≡ r
      → on_recorded db artifact_id row r ≡ ok out
      → IsFullBody body × IsRepaired db artifact_id instance_id out.0 out.1
  on_recorded-IsFullBody row (err e) found own made h = absurd (cc)
  on_recorded-IsFullBody row (ok consent) found own made h =
      let codec = consent_codec o in
      let sent = model_dump body in
      let full =
        (record_consent-IsFullConsent codec sent).0 (
          consent,
          made,
          record_consent-text codec sent made,
          record_consent-hash codec sent made,
        ) in
      (
        (model_dump-IsFullConsent body).0 full,
        subst (λ (out : Store × AgentInstance). IsRepaired db artifact_id instance_id out.0 out.1)
            (ok-injective h)
            (
              refl,
              refl,
              refl,
              subst
                  (λ (k : ℕ).
                    get_instance (write_row db (promoted artifact_id row)) k
                    ≡ some (promoted artifact_id row))
                  own (get_instance-write_row db (promoted artifact_id row) row found),
            ),
      )

  on_recorded-ok :
      (row : AgentInstance) (r : Result PolicyEngineError (ConsentRecord String))
      {consent : ConsentRecord String}
      → r ≡ ok consent
      → (out : Store × AgentInstance) × (on_recorded db artifact_id row r ≡ ok out)
  on_recorded-ok row (ok consent) made = (_, refl)
  on_recorded-ok row (err e) made = absurd (cc)

  retry_consent-steps :
      {out : Store × AgentInstance}
      → retry_consent o db artifact_id instance_id body ≡ ok out
      → CanRepair db instance_id body × IsRepaired db artifact_id instance_id out.0 out.1
  unfolding retry_consent
  retry_consent-steps {out} h =
      let (found, read, h1) = bind-ok (or_404 (get_instance db instance_id)) _ h in
      let (row, checked, h2) = bind-ok (check_consent_failed found) _ h1 in
      let (same, failed) = check_consent_failed-ok found checked in
      let stored : get_instance db instance_id ≡ some row =
        or_404-ok (get_instance db instance_id) read ∙ ap some same in
      let (own, again) = get_instance-own db instance_id stored in
      let (full, repaired) = on_recorded-IsFullBody row _ again own refl h2 in
      (
        (
          (
            row,
            stored,
            (is_consent_failed_iff row.status).0
                (subst (λ (r : AgentInstance). is_consent_failed r.status ≡ true) same failed),
          ),
          full,
        ),
        repaired,
      )

  check_consent_failed-passes :
      (row : AgentInstance)
      → row.status ≡ SagaStatus.runtime_live_consent_failed
      → check_consent_failed row ≡ ok row
  check_consent_failed-passes row failed =
      if_false _ _ _ (ap (λ s. not (is_consent_failed s)) failed)

  retry_consent-returns :
      CanRepair db instance_id body
      → (out : Store × AgentInstance) × (retry_consent o db artifact_id instance_id body ≡ ok out)
  unfolding retry_consent
  retry_consent-returns ((row, stored, failed), full) =
      let (consent, made, text, hash) =
        (record_consent-IsFullConsent (consent_codec o) (model_dump body)).1
          ((model_dump-IsFullConsent body).1 full) in
      rw (stored, check_consent_failed-passes row failed) (on_recorded-ok row _ made)

-- A retry of the consent returns exactly if the instance is stored, its consent had failed, and the four
-- checkboxes are sent and true. Whenever it returns, the row is live, with no failure reason and with the
-- new consent, and it is what a read of the instance finds.
pub retry_consent_iff :
    (o : Outside) (db : Store) (artifact_id instance_id : ℕ) (body : RetryConsentBody)
    → (((out : Store × AgentInstance) × (retry_consent o db artifact_id instance_id body ≡ ok out))
        ↔ CanRepair db instance_id body)
      × (((out : Store × AgentInstance) × (retry_consent o db artifact_id instance_id body ≡ ok out)
            × IsRepaired db artifact_id instance_id out.0 out.1)
          ↔ CanRepair db instance_id body)
retry_consent_iff o db artifact_id instance_id body = (
  (
    λ (out, h). (retry_consent-steps o db artifact_id instance_id body h).0,
    λ can. retry_consent-returns o db artifact_id instance_id body can,
  ),
  (
    λ (out, h, repaired). (retry_consent-steps o db artifact_id instance_id body h).0,
    λ can.
        let (out, h) = retry_consent-returns o db artifact_id instance_id body can in
        (out, h, (retry_consent-steps o db artifact_id instance_id body h).1),
  ),
)

-- A deploy whose consent failed can be brought to life: a retry with the four checkboxes returns, and the
-- instance that it deployed is then stored as a live one.
pub deploy_instance-repairable :
    (o : Outside) (db : Store) (call : DeployCall) (artifact_id : ℕ) (body : RetryConsentBody)
    {db' : Store} {row : AgentInstance}
    → IsFresh call.instance_id db
    → IsFullBody body
    → deploy_instance o db call ≡ ok (db', row)
    → row.status ≡ SagaStatus.runtime_live_consent_failed
    → (out : Store × AgentInstance) × (retry_consent o db' artifact_id call.instance_id body
        ≡ ok out)
      × IsRepaired db' artifact_id call.instance_id out.0 out.1
deploy_instance-repairable o db call artifact_id body {db'} {row} fresh full deployed failed =
    let (added, key, owner) = deploy_instance-row o db call deployed in
    let found : get_instance db' call.instance_id ≡ some row =
      subst (λ (k : ℕ). get_instance db' k ≡ some row) key
        (fresh_found db db' row (subst (λ (k : ℕ). IsFresh k db) (sym key) fresh) added) in
    (retry_consent_iff o db' artifact_id call.instance_id body).1.1 ((row, found, failed), full)
