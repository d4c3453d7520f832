-- ===== src/Policy/Envelope.antt =====
-- Which specs pass `validate_spec`, and what a wallet policy says.
use proof_arena.Base.{
  ◌≡◌, ◌↔◌, refl, true, Option, none, some, List, [], ◌∷◌, ◌++◌, String, arith, In, All,
  contains_iff, append-eq-nil, five-eq-nil, nonempty, text_equality, or_default, is_some, subst, ap,
  ◌==◌, if_cases, not,
}
use package.text.Mathlib.TextEquality.{eq_iff}
use proof_arena.Base.Int.{ℤ, pos, ◌≤ℤ◌}
use proof_arena.Base.Json.{Json, Items, Fields, null, nil, cons, arr, int, text, get}
use proof_arena.Base.Result.{ok, ok-injective}
use proof_arena.Policy.{
  allowed_envelope_fields, SpecError, keys, unknown_fields, missing_fields, check_entries,
  check_token_universe, check_int_range, check_ranges, or_ranges, validate_spec, WalletPolicy,
  policy_unless, build_wallet_policy,
}

-- every entry is a text that is not empty
abbrev pub AreMints : Items → Type 0
AreMints nil = Unit
AreMints (cons v vs) = ((s : String) × (v ≡ text s) × (nonempty s ≡ true)) × AreMints vs

abbrev pub IsUniverse : Option Json → Type 0
IsUniverse (some (arr (cons v vs))) = AreMints (cons v vs)
IsUniverse _ = ⊥

-- an int, not a bool, between the bounds
abbrev pub IsIntIn : ℤ → ℤ → Option Json → Type 0
IsIntIn lo hi (some (int n)) = (lo ≤ℤ n) × (n ≤ℤ hi)
IsIntIn lo hi _ = ⊥

-- the envelope of a swap instance: these five fields, each of its shape, and no other
abbrev pub IsEnvelope : Fields → Type 0
IsEnvelope spec =
    All (λ k. In k allowed_envelope_fields) (keys spec)
    × IsUniverse (get "allowed_token_universe" spec)
    × IsIntIn (pos 0) (pos 500) (get "max_slippage_bps" spec)
    × IsIntIn (pos 1) (pos 10000000000) (get "max_position_size" spec)
    × IsIntIn (pos 1) (pos 200) (get "max_iterations" spec)
    × IsIntIn (pos 1) (pos 3600) (get "max_runtime_seconds" spec)

unknown_fields_iff :
    (ks : List String) → (unknown_fields ks ≡ []) ↔ All (λ k. In k allowed_envelope_fields) ks
unknown_fields_iff [] = (λ h. tt, λ h. refl)
unknown_fields_iff (k ∷ ks) =
    ground (arith, contains_iff k allowed_envelope_fields, unknown_fields_iff ks)

check_entries_iff : (vs : Items) → (check_entries vs ≡ []) ↔ AreMints vs
check_entries_iff nil = (λ h. tt, λ h. refl)
check_entries_iff (cons (text s) vs) = ground (arith, check_entries_iff vs)
check_entries_iff (cons v vs) = ground (arith, check_entries_iff vs)

check_token_universe_iff :
    (o : Option Json) (v : Json) → o ≡ some v → (check_token_universe v ≡ []) ↔ IsUniverse o
unfolding check_token_universe
check_token_universe_iff o (arr nil) e = rw e (ground arith)
check_token_universe_iff o (arr (cons v vs)) e = rw e (check_entries_iff (cons v vs))
check_token_universe_iff o v e = rw e (ground arith)

check_int_range_iff :
    (name : String) (o : Option Json) (v : Json) (lo hi : ℤ)
    → o ≡ some v
    → (check_int_range name v lo hi ≡ []) ↔ IsIntIn lo hi o
unfolding check_int_range
check_int_range_iff name o (int n) lo hi e = rw e (ground arith)
check_int_range_iff name o v lo hi e = rw e (ground arith)

IsUniverse-iff :
    (o : Option Json)
    → ((is_some o ≡ true) × (check_token_universe (or_default o null) ≡ [])) ↔ IsUniverse o
IsUniverse-iff none = (λ h. cc, λ h. absurd h)
IsUniverse-iff (some v) = ground (arith, check_token_universe_iff (some v) v refl)

int_iff :
    (name : String) (o : Option Json) (lo hi : ℤ)
    → ((is_some o ≡ true) × (check_int_range name (or_default o null) lo hi ≡ [])) ↔ IsIntIn lo hi o
int_iff name none lo hi = (λ h. cc, λ h. absurd h)
int_iff name (some v) lo hi = ground (arith, check_int_range_iff name (some v) v lo hi refl)

missing_fields_iff :
    (spec : Fields) (ks : List String)
    → (missing_fields spec ks ≡ []) ↔ All (λ k. is_some (get k spec) ≡ true) ks
missing_fields_iff spec [] = (λ h. tt, λ h. refl)
missing_fields_iff spec (k ∷ ks) = ground (arith, missing_fields_iff spec ks)

or_ranges_iff :
    (spec : Fields) (es : List SpecError)
    → (or_ranges spec es ≡ []) ↔ ((es ≡ []) × (check_ranges spec ≡ []))
or_ranges_iff spec [] = (λ h. (refl, h), λ h. h.1)
or_ranges_iff spec (e ∷ es) = (λ h. cc, λ h. cc)

-- A spec passes exactly if its fields are the five of the envelope and no other, the universe is a
-- list of at least one text, none of them empty, and each limit is an int, not a bool, within its
-- bounds.
pub validate_spec-IsEnvelope : (spec : Fields) → (validate_spec spec ≡ []) ↔ IsEnvelope spec
unfolding validate_spec
validate_spec-IsEnvelope spec =
    let named = unknown_fields_iff (keys spec) in
    let errors = unknown_fields (keys spec) ++ missing_fields spec allowed_envelope_fields in
    let no_errors =
      append-eq-nil (unknown_fields (keys spec)) (missing_fields spec allowed_envelope_fields) in
    let present = missing_fields_iff spec allowed_envelope_fields in
    let universe = IsUniverse-iff (get "allowed_token_universe" spec) in
    let slippage = int_iff "max_slippage_bps" (get "max_slippage_bps" spec) (pos 0) (pos 500) in
    let size =
      int_iff "max_position_size" (get "max_position_size" spec) (pos 1) (pos 10000000000) in
    let iterations = int_iff "max_iterations" (get "max_iterations" spec) (pos 1) (pos 200) in
    let seconds =
      int_iff "max_runtime_seconds" (get "max_runtime_seconds" spec) (pos 1) (pos 3600) in
    (
      λ h.
          let (clean, ranges) = (or_ranges_iff spec errors).0 h in
          let (known, full) = no_errors.0 clean in
          let has = present.0 full in
          let (u, sl, p, i, se) = (five-eq-nil _ _ _ _ _).0 ranges in
          (
            named.0 known,
            universe.0 (has.0, u),
            slippage.0 (has.1.0, sl),
            size.0 (has.1.1.0, p),
            iterations.0 (has.1.1.1.0, i),
            seconds.0 (has.1.1.1.1.0, se),
          ),
      λ (known, u, sl, p, i, se).
          let u' = universe.1 u in
          let sl' = slippage.1 sl in
          let p' = size.1 p in
          let i' = iterations.1 i in
          let se' = seconds.1 se in
          (or_ranges_iff spec errors).1 (
            no_errors.1 (named.1 known, present.1 (u'.0, (sl'.0, (p'.0, (i'.0, (se'.0, tt)))))),
            (five-eq-nil _ _ _ _ _).1 (u'.1, sl'.1, p'.1, i'.1, se'.1),
          ),
    )

-- What a policy grants, for a spec and an allowlist profile.
abbrev pub Grants : Fields → Fields → WalletPolicy → Type 0
Grants spec profile p =
    (p.chain ≡ "devnet")
    × (p.default_action ≡ "DENY")
    × (p.allowlist_profile ≡ profile)
    × ((cap : ℤ) × (get "max_position_size" spec ≡ some (int cap))
        × (p.transfer_max_amount ≡ int cap)
        × (pos 1 ≤ℤ cap)
        × (cap ≤ℤ pos 10000000000))

int_of :
    (lo hi : ℤ) (o : Option Json)
    → IsIntIn lo hi o
    → (n : ℤ) × (o ≡ some (int n)) × (lo ≤ℤ n) × (n ≤ℤ hi)
int_of lo hi (some (int n)) h = (n, refl, h.0, h.1)
int_of lo hi none h = absurd h
int_of lo hi (some v) h = absurd h

policy_unless-Grants :
    (spec profile : Fields) (es : List SpecError) {p : WalletPolicy}
    → IsIntIn (pos 1) (pos 10000000000) (get "max_position_size" spec)
    → policy_unless spec profile "devnet" es ≡ ok p
    → Grants spec profile p
policy_unless-Grants spec profile (e ∷ es) size h = absurd (cc)
policy_unless-Grants spec profile [] {p} size h =
    let (cap, found, least, most) =
      int_of (pos 1) (pos 10000000000) (get "max_position_size" spec) size in
    subst (Grants spec profile) (ok-injective h)
      (refl, refl, refl, (cap, found, ap (λ o. or_default o null) found, least, most))

policy_unless_iff :
    (spec profile : Fields) (chain : String) (es : List SpecError)
    → ((p : WalletPolicy) × (policy_unless spec profile chain es ≡ ok p)) ↔ (es ≡ [])
policy_unless_iff spec profile chain [] = (λ h. refl, λ h. (_, refl))
policy_unless_iff spec profile chain (e ∷ es) = (λ h. absurd (cc), λ h. absurd (cc))

-- A wallet policy is built exactly for the chain "devnet" and a spec that fits the envelope.
pub build_wallet_policy_iff :
    (spec allowlist_profile : Fields) (chain : String)
    → ((p : WalletPolicy) × (build_wallet_policy spec allowlist_profile chain ≡ ok p))
      ↔ ((chain ≡ "devnet") × IsEnvelope spec)
unfolding build_wallet_policy
build_wallet_policy_iff spec profile chain =
    if_cases (λ r. ((p : WalletPolicy) × (r ≡ ok p)) ↔ ((chain ≡ "devnet") × IsEnvelope spec))
      (not (chain == "devnet"))
      (λ other. (λ h. absurd (cc), λ h. ground (arith, eq_iff chain "devnet")))
      (λ same.
        let devnet : chain ≡ "devnet" = ground (arith, eq_iff chain "devnet") in
        let unless = policy_unless_iff spec profile chain (validate_spec spec) in
        (
          λ h. (devnet, (validate_spec-IsEnvelope spec).0 (unless.0 h)),
          λ h. unless.1 ((validate_spec-IsEnvelope spec).1 h.1),
        ))

-- A wallet policy that is built is for devnet, denies by default, carries the given profile, and caps
-- a transfer at the spec's position size, which is between 1 and 10,000 USDC in base units.
pub build_wallet_policy-Grants :
    (spec allowlist_profile : Fields) (chain : String) {p : WalletPolicy}
    → build_wallet_policy spec allowlist_profile chain ≡ ok p
    → Grants spec allowlist_profile p
unfolding build_wallet_policy
build_wallet_policy-Grants spec profile chain {p} h =
    let (devnet, (known, universe, slippage, size, iterations, seconds)) =
      (build_wallet_policy_iff spec profile chain).0 (p, h) in
    policy_unless-Grants spec profile (validate_spec spec) size
      (subst (λ chain. build_wallet_policy spec profile chain ≡ ok p) devnet h)
