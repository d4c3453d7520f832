-- ===== src/Instances/Teardown.antt =====
-- A teardown is final.
use proof_arena.Base.{
  ℕ, ◌≡◌, ◌↔◌, refl, sym, ap, ◌∙◌, subst, String, Bool, true, false, Option, none, some, if_true,
  if_false, Bool-cases, inl, inr,
}
use proof_arena.Base.Result.{Result, ok, err, bind-ok, ok-injective}
use proof_arena.Db.{AgentInstance, SagaStatus, Store, get_instance}
use proof_arena.Events.{Loads}
use proof_arena.Instances.{Outside}
use proof_arena.Instances.Update.{write_row}
use proof_arena.Instances.Operator.{
  wrong_status, or_404, RetryConsentBody, is_consent_failed, retry_consent, InstanceHandle,
  parse_handle, Runtime, TeardownResponse, is_torn_down, torn, on_cleanup, is_filled, clean_up,
  teardown_instance,
}
use proof_arena.Instances.Sound.{get_instance-own}
use proof_arena.Instances.Repaired.{or_404-ok}
use proof_arena.Instances.Found.{get_instance-write_row}

is_torn_down_iff : (s : SagaStatus) → (is_torn_down s ≡ true) ↔ (s ≡ SagaStatus.torn_down)
is_torn_down_iff s = (torn_of s, λ h. ap is_torn_down h)
  where
    torn_of : (s : SagaStatus) → is_torn_down s ≡ true → s ≡ SagaStatus.torn_down
    torn_of SagaStatus.torn_down h = refl
    torn_of SagaStatus.runtime_live_consent_failed h = absurd (cc)
    torn_of SagaStatus.live h = absurd (cc)
    torn_of SagaStatus.provisioning h = absurd (cc)
    torn_of SagaStatus.wallet_created_runtime_failed h = absurd (cc)
    torn_of SagaStatus.provisioning_failed h = absurd (cc)
    torn_of SagaStatus.paused h = absurd (cc)

-- the row is stored as torn down, and is what the answer has
abbrev pub IsTornDown : ℕ → Store → TeardownResponse → Type 0
IsTornDown instance_id db response =
    (response.row.status ≡ SagaStatus.torn_down) × (get_instance db instance_id ≡ some response.row)

module _ (db : Store) (instance_id : ℕ) (row : AgentInstance)
    (found : get_instance db row.instance_id ≡ some row) (own : row.instance_id ≡ instance_id) where
  write_row-IsTornDown :
      (cleanup_ok : Bool) (detail : Option String)
      → IsTornDown instance_id (write_row db (torn row)) (record {
        row = torn row;
        runtime_cleanup_ok = cleanup_ok;
        runtime_cleanup_detail = detail;
      })
  write_row-IsTornDown cleanup_ok detail = (
    refl,
    subst (λ (k : ℕ). get_instance (write_row db (torn row)) k ≡ some (torn row)) own
        (get_instance-write_row db (torn row) row found),
  )

  on_cleanup-IsTornDown :
      (r : Result String (Unit {0}))
      → IsTornDown instance_id (on_cleanup db row r).0 (on_cleanup db row r).1
  on_cleanup-IsTornDown (ok done) = write_row-IsTornDown true none
  on_cleanup-IsTornDown (err message) = write_row-IsTornDown false (some message)

  clean_up-IsTornDown :
      (runtime : Option Runtime) (handle : Option InstanceHandle) {out : Store × TeardownResponse}
      → clean_up db row runtime handle ≡ ok out
      → IsTornDown instance_id out.0 out.1
  clean_up-IsTornDown none (some handle) h = absurd (cc)
  clean_up-IsTornDown (some runtime) (some handle) h =
      subst (λ (out : Store × TeardownResponse). IsTornDown instance_id out.0 out.1)
        (ok-injective h) (on_cleanup-IsTornDown (runtime handle))
  clean_up-IsTornDown runtime none h =
      subst (λ (out : Store × TeardownResponse). IsTornDown instance_id out.0 out.1)
        (ok-injective h)
        (elim (Bool-cases (is_filled row.runtime_handle_json)) [
          | inl filled ↦
              rw filled (write_row-IsTornDown false (some "runtime_handle_json is not parseable"))
          | inr empty ↦ rw empty (write_row-IsTornDown true none)
        ])

teardown_instance-IsTornDown :
    (loads : Loads) (runtime : Option Runtime) (db : Store) (instance_id : ℕ)
    {out : Store × TeardownResponse}
    → teardown_instance loads runtime db instance_id ≡ ok out
    → IsTornDown instance_id out.0 out.1
unfolding teardown_instance
teardown_instance-IsTornDown loads runtime db instance_id {out} h =
    let (row, read, h1) = bind-ok (or_404 (get_instance db instance_id)) _ h in
    let stored = or_404-ok (get_instance db instance_id) read in
    let (own, again) = get_instance-own db instance_id stored in
    elim (Bool-cases (is_torn_down row.status)) [
      | inl already ↦
          subst (λ (out : Store × TeardownResponse). IsTornDown instance_id out.0 out.1)
            (ok-injective (sym (if_true _ _ _ already) ∙ h1))
            ((is_torn_down_iff row.status).0 already, stored)
      | inr standing ↦
          clean_up-IsTornDown db instance_id row again own runtime
            (parse_handle loads row.runtime_handle_json) (sym (if_false _ _ _ standing) ∙ h1)
    ]

module _ (db : Store) (instance_id : ℕ) (row : AgentInstance)
    (stored : get_instance db instance_id ≡ some row)
    (down : row.status ≡ SagaStatus.torn_down) where
  teardown_instance-again :
      (loads : Loads) (runtime : Option Runtime)
      → teardown_instance loads runtime db instance_id
        ≡ ok (db, record { row = row; runtime_cleanup_ok = true; runtime_cleanup_detail = none })
  unfolding teardown_instance
  teardown_instance-again loads runtime =
      rw stored (if_true _ _ _ ((is_torn_down_iff row.status).1 down))

  retry_consent-torn :
      (o : Outside) (artifact_id : ℕ) (body : RetryConsentBody)
      → retry_consent o db artifact_id instance_id body ≡ err (wrong_status SagaStatus.torn_down)
  unfolding retry_consent
  retry_consent-torn o artifact_id body = rw (stored, ap is_consent_failed down, down) refl

-- After a teardown that returns, whatever the runtime answered to the cleanup, the instance is stored as
-- torn down and is what the answer has. A second teardown, with any runtime, changes nothing and
-- reports a clean end; and a retry of the consent is refused for the status.
pub teardown_instance-final :
    (loads loads' : Loads) (runtime runtime' : Option Runtime) (o : Outside) (db : Store)
    (instance_id artifact_id : ℕ) (body : RetryConsentBody) {db' : Store}
    {response : TeardownResponse}
    → teardown_instance loads runtime db instance_id ≡ ok (db', response)
    → (response.row.status ≡ SagaStatus.torn_down)
      × (get_instance db' instance_id ≡ some response.row)
      × (teardown_instance loads' runtime' db' instance_id
          ≡ ok (
            db',
            record { row = response.row; runtime_cleanup_ok = true; runtime_cleanup_detail = none },
          ))
      × (retry_consent o db' artifact_id instance_id body ≡ err (wrong_status SagaStatus.torn_down))
teardown_instance-final loads loads' runtime runtime' o db instance_id artifact_id body {db'}
      {response} h =
    let (down, stored) = teardown_instance-IsTornDown loads runtime db instance_id h in
    (
      down,
      stored,
      teardown_instance-again db' instance_id response.row stored down loads' runtime',
      retry_consent-torn db' instance_id response.row stored down o artifact_id body,
    )
