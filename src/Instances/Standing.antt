-- ===== src/Instances/Standing.antt =====
-- What holds of each instance that is stored, and what keeps it.
use proof_arena.Base.{
  ℕ, ◌≡◌, ◌⊎◌, ◌<◌, inl, inr, refl, String, true, Option, none, some, List, [], ◌∷◌, ◌++◌, arith,
  All, ◌==◌, number_equality, nat_beq_iff, find, is_some,
}
use proof_arena.Db.{
  AgentInstance, VerificationArtifact, SagaStatus, SagaFailureReason, TrustLabel, Store,
}
use proof_arena.Instances.Update.{replace}

abbrev pub Artifacts : Type 0
Artifacts = List (ℕ × VerificationArtifact)

-- a consent under the key, whose hash is the one of its text and which belongs to no run
abbrev pub IsConsent : (String → String) → ℕ → Artifacts → Type 0
IsConsent sha256 key [] = ⊥
IsConsent sha256 key ((k, a) ∷ rest) =
    ((k ≡ key)
      × (a.run_id ≡ none)
      × (a.artifact_type ≡ "deployment_consent")
      × (a.content_hash ≡ sha256 a.uri_or_ref))
    ⊎ IsConsent sha256 key rest

abbrev pub HasConsent : (String → String) → Artifacts → Option ℕ → Type 0
HasConsent sha256 artifacts none = ⊥
HasConsent sha256 artifacts (some key) = IsConsent sha256 key artifacts

-- what a status says of the reason, the runtime's handle and the consent; the other statuses are never
-- stored
abbrev pub Stands :
    (String → String)
    → Artifacts
    → SagaStatus
    → Option SagaFailureReason
    → Option String
    → Option ℕ
    → Type 0
Stands sha256 artifacts SagaStatus.live reason handle consent =
    (reason ≡ none) × (is_some handle ≡ true) × HasConsent sha256 artifacts consent
Stands sha256 artifacts SagaStatus.wallet_created_runtime_failed reason handle consent =
    (reason ≡ some SagaFailureReason.wallet_created_runtime_failed)
    × (handle ≡ none)
    × (consent ≡ none)
Stands sha256 artifacts SagaStatus.runtime_live_consent_failed reason handle consent =
    (reason ≡ some SagaFailureReason.runtime_live_consent_failed)
    × (is_some handle ≡ true)
    × (consent ≡ none)
Stands sha256 artifacts SagaStatus.torn_down reason handle consent = reason ≡ none
Stands sha256 artifacts _ reason handle consent = ⊥

-- the flagship's label is for the platform's instances alone
abbrev pub IsLabelled : TrustLabel → String → Type 0
IsLabelled TrustLabel.benchmarked_canonical_template owner = owner ≡ "platform:flagship"
IsLabelled TrustLabel.benchmark_compatible_customized_instance owner = Unit
IsLabelled TrustLabel.external_custom_runtime owner = ⊥

-- a row with the key that has the owner
abbrev pub IsOwned : ℕ → String → List AgentInstance → Type 0
IsOwned key owner [] = ⊥
IsOwned key owner (r ∷ rs) =
    ((r.instance_id ≡ key) × (r.instance_owner_ref ≡ owner)) ⊎ IsOwned key owner rs

-- what replaces an instance is a later instance of the same owner
abbrev pub Follows : List AgentInstance → ℕ → String → Option ℕ → Type 0
Follows rows id owner none = Unit
Follows rows id owner (some key) = (id < key) × IsOwned key owner rows

pub record IsSound (sha256 : String → String) (artifacts : Artifacts) (rows : List AgentInstance)
    (row : AgentInstance) : Type 0 where
  pub stands :
      Stands sha256 artifacts row.status row.last_failure_reason row.runtime_handle_json
        row.consent_artifact_id
  pub has_wallet : (is_some row.wallet_address ≡ true) × (is_some row.hosted_wallet_ref ≡ true)
  pub labelled : IsLabelled row.trust_label row.instance_owner_ref
  pub follows : Follows rows row.instance_id row.instance_owner_ref row.superseded_by_instance_id

-- each stored instance is sound
abbrev pub AreSound : (String → String) → Store → Type 0
AreSound sha256 db = All (IsSound sha256 db.artifacts db.instances) db.instances

-- a key above all that are stored
abbrev pub IsFresh : ℕ → Store → Type 0
IsFresh key db = All (λ (r : AgentInstance). r.instance_id < key) db.instances

module _ (sha256 : String → String) (more : Artifacts) where
  IsConsent-append :
      (key : ℕ) (artifacts : Artifacts)
      → IsConsent sha256 key artifacts
      → IsConsent sha256 key (artifacts ++ more)
  IsConsent-append key [] h = absurd h
  IsConsent-append key ((k, a) ∷ rest) (inl here) = inl here
  IsConsent-append key ((k, a) ∷ rest) (inr later) = inr (IsConsent-append key rest later)

  HasConsent-append :
      (artifacts : Artifacts) (consent : Option ℕ)
      → HasConsent sha256 artifacts consent
      → HasConsent sha256 (artifacts ++ more) consent
  HasConsent-append artifacts none h = absurd h
  HasConsent-append artifacts (some key) h = IsConsent-append key artifacts h

  pub Stands-append :
      (artifacts : Artifacts) (status : SagaStatus) (reason : Option SagaFailureReason)
      (handle : Option String) (consent : Option ℕ)
      → Stands sha256 artifacts status reason handle consent
      → Stands sha256 (artifacts ++ more) status reason handle consent
  Stands-append artifacts SagaStatus.live reason handle consent h =
      (h.0, h.1, HasConsent-append artifacts consent h.2)
  Stands-append artifacts SagaStatus.wallet_created_runtime_failed reason handle consent h = h
  Stands-append artifacts SagaStatus.runtime_live_consent_failed reason handle consent h = h
  Stands-append artifacts SagaStatus.torn_down reason handle consent h = h
  Stands-append artifacts SagaStatus.provisioning reason handle consent h = absurd h
  Stands-append artifacts SagaStatus.provisioning_failed reason handle consent h = absurd h
  Stands-append artifacts SagaStatus.paused reason handle consent h = absurd h

-- the artifact that is added last
pub IsConsent-last :
    (sha256 : String → String) (key : ℕ) (a : VerificationArtifact) (artifacts : Artifacts)
    → a.run_id ≡ none
    → a.artifact_type ≡ "deployment_consent"
    → a.content_hash ≡ sha256 a.uri_or_ref
    → IsConsent sha256 key (artifacts ++ (key, a) ∷ [])
IsConsent-last sha256 key a [] run type hash = inl (refl, run, type, hash)
IsConsent-last sha256 key a (x ∷ rest) run type hash =
    inr (IsConsent-last sha256 key a rest run type hash)

pub IsOwned-append :
    (key : ℕ) (owner : String) (rows more : List AgentInstance)
    → IsOwned key owner rows
    → IsOwned key owner (rows ++ more)
IsOwned-append key owner [] more h = absurd h
IsOwned-append key owner (r ∷ rs) more (inl here) = inl here
IsOwned-append key owner (r ∷ rs) more (inr later) = inr (IsOwned-append key owner rs more later)

pub IsOwned-last :
    (row : AgentInstance) (rows : List AgentInstance)
    → IsOwned row.instance_id row.instance_owner_ref (rows ++ row ∷ [])
IsOwned-last row [] = inl (refl, refl)
IsOwned-last row (r ∷ rs) = inr (IsOwned-last row rs)

-- a row that is written back under its key and for its owner
pub IsOwned-replace :
    (key : ℕ) (owner : String) (row old : AgentInstance) (rows : List AgentInstance)
    → find (λ r. r.instance_id == row.instance_id) rows ≡ some old
    → row.instance_owner_ref ≡ old.instance_owner_ref
    → IsOwned key owner rows
    → IsOwned key owner (replace row.instance_id row rows)
IsOwned-replace key owner row old [] found same h = absurd h
IsOwned-replace key owner row old (r ∷ rs) found same (inl here) =
    ground (arith, found, nat_beq_iff r.instance_id row.instance_id)
IsOwned-replace key owner row old (r ∷ rs) found same (inr later) =
    let ih = λ (f : find (λ (r : AgentInstance). r.instance_id == row.instance_id) rs ≡ some old).
      IsOwned-replace key owner row old rs f same later in
    ground (arith, found, ih, later)
