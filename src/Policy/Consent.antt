-- ===== src/Policy/Consent.antt =====
-- When a consent record is made, and what it is.
use proof_arena.Base.{
  ◌≡◌, ◌↔◌, refl, true, not, Option, none, some, List, [], ◌∷◌, String, arith, All, filter, is_some,
  subst,
}
use proof_arena.Base.Json.{Json, Fields, bool, obj, get}
use proof_arena.Base.Result.{ok, ok-injective}
use proof_arena.Services.Serialization.{Codec, sha256}
use proof_arena.Policy.{
  ConsentRecord, required_consent_keys, is_true, consent_fields, consent_unless, record_consent,
}

-- each of the four acknowledgments is given and is the value True
abbrev pub IsFullConsent : Fields → Type 0
IsFullConsent acknowledgments =
    All (λ k. get k acknowledgments ≡ some (bool true)) required_consent_keys

is_true_iff : (o : Option Json) → (is_true o ≡ true) ↔ (o ≡ some (bool true))
is_true_iff none = ground arith
is_true_iff (some (bool true)) = (λ h. refl, λ h. refl)
is_true_iff (some v) = ground arith

missing_iff :
    (acks : Fields) (ks : List String)
    → All (λ k. get k acks ≡ some (bool true)) ks
    → filter (λ k. not (is_some (get k acks))) ks ≡ []
missing_iff acks [] h = refl
missing_iff acks (k ∷ ks) h = rw (h.0, missing_iff acks ks h.1) refl

not_truthy_iff :
    (acks : Fields) (ks : List String)
    → (filter (λ k. not (is_true (get k acks))) ks ≡ [])
      ↔ All (λ k. get k acks ≡ some (bool true)) ks
not_truthy_iff acks [] = (λ h. tt, λ h. refl)
not_truthy_iff acks (k ∷ ks) = ground (arith, is_true_iff (get k acks), not_truthy_iff acks ks)

module _ (c : Codec) where
  consent_unless_ok :
      (missing not_truthy : List String) {r : ConsentRecord c.Text}
      → consent_unless c missing not_truthy ≡ ok r
      → (not_truthy ≡ [])
        × (r.canonical_json ≡ c.dumps (obj (consent_fields required_consent_keys)))
        × (r.content_hash ≡ sha256 c (r.canonical_json ∷ []))
  consent_unless_ok (k ∷ ks) not_truthy h = absurd (cc)
  consent_unless_ok [] (k ∷ ks) h = absurd (cc)
  consent_unless_ok [] [] {r} h =
      subst
        (λ (r : ConsentRecord c.Text).
          (◌≡◌ {A = List String} [] [])
          × (r.canonical_json ≡ c.dumps (obj (consent_fields required_consent_keys)))
          × (r.content_hash ≡ sha256 c (r.canonical_json ∷ [])))
        (ok-injective h) (refl, refl, refl)

  pub record_consent-hash :
      (acknowledgments : Fields) {r : ConsentRecord c.Text}
      → record_consent c acknowledgments ≡ ok r
      → r.content_hash ≡ sha256 c (r.canonical_json ∷ [])
  unfolding record_consent
  record_consent-hash acks made = (consent_unless_ok _ _ made).2

  pub record_consent-text :
      (acknowledgments : Fields) {r : ConsentRecord c.Text}
      → record_consent c acknowledgments ≡ ok r
      → r.canonical_json ≡ c.dumps (obj (consent_fields required_consent_keys))
  unfolding record_consent
  record_consent-text acks made = (consent_unless_ok _ _ made).1

  -- A consent record is made exactly if each of the four acknowledgments is the value True. Its text
  -- is then the same whatever else the acknowledgments hold, and its hash is the one of that text.
  pub record_consent-IsFullConsent :
      (acknowledgments : Fields)
      → ((r : ConsentRecord c.Text) × (record_consent c acknowledgments ≡ ok r)
          × (r.canonical_json ≡ c.dumps (obj (consent_fields required_consent_keys)))
          × (r.content_hash ≡ sha256 c (r.canonical_json ∷ [])))
        ↔ IsFullConsent acknowledgments
  unfolding record_consent
  record_consent-IsFullConsent acks = (
    λ (r, made, text_is, hash_is).
        (not_truthy_iff acks required_consent_keys).0 (consent_unless_ok _ _ made).0,
    λ full. (
      record {
        canonical_json = c.dumps (obj (consent_fields required_consent_keys));
        content_hash = sha256 c (c.dumps (obj (consent_fields required_consent_keys)) ∷ []);
      },
      rw
          (
            missing_iff acks required_consent_keys full,
            (not_truthy_iff acks required_consent_keys).1 full,
          )
          refl,
      refl,
      refl,
    ),
  )
