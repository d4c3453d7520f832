-- ===== src/Policy.antt =====
-- backend/src/policy: the customization envelope of a swap instance, the wallet policy that is built
-- from it, and the consent record (engine.py); the allowlist profiles (allowlists.py).
pub mod Envelope
pub mod Consent
pub mod Rebalance
use proof_arena.Base.{
  ℕ, String, Bool, true, false, not, ◌&&◌, ◌||◌, Option, none, some, List, [], ◌∷◌, ◌++◌, map,
  if◌then◌else◌, ◌==◌, text_equality, contains, nonempty, or_default, filter, is_some,
}
use proof_arena.Base.Int.{ℤ, pos, ltb_ℤ}
use proof_arena.Base.Json.{
  Json, Items, Fields, null, bool, int, text, arr, obj, nil, cons, end, field, get,
}
use proof_arena.Base.Result.{Result, ok, err}
use proof_arena.Services.Serialization.{Codec, sha256}

-- `_ALLOWED_ENVELOPE_FIELDS`
abbrev pub allowed_envelope_fields : List String
allowed_envelope_fields =
    "allowed_token_universe" ∷ "max_slippage_bps" ∷ "max_position_size" ∷ "max_iterations"
    ∷ "max_runtime_seconds" ∷ []

abbrev pub max_slippage_bps_limit : ℤ
max_slippage_bps_limit = pos 500

abbrev pub max_position_size_limit : ℤ
max_position_size_limit = pos 10000000000

abbrev pub max_iterations_limit : ℤ
max_iterations_limit = pos 200

abbrev pub max_runtime_seconds_limit : ℤ
max_runtime_seconds_limit = pos 3600

-- `_REQUIRED_CONSENT_KEYS`, sorted
abbrev pub required_consent_keys : List String
required_consent_keys =
    "devnet_only_acknowledged" ∷ "no_indemnity_acknowledged"
    ∷ "platform_managed_signing_acknowledged" ∷ "spend_caps_acknowledged" ∷ []

-- the error texts of `validate_spec`, by the code that writes them
pub data SpecError : Type 0 where
  unknown_field missing_field not_int : String → SpecError
  out_of_range : String → ℤ → ℤ → ℤ → SpecError
  universe_shape : SpecError
  universe_entry : Json → SpecError

pub data PolicyEngineError : Type 0 where
  chain_rejected : String → PolicyEngineError
  spec_invalid : List SpecError → PolicyEngineError
  missing_acknowledgments not_true : List String → PolicyEngineError

abbrev pub keys : Fields → List String
keys end = []
keys (field k v fs) = k ∷ keys fs

-- `key not in _ALLOWED_ENVELOPE_FIELDS`, key by key
abbrev pub unknown_fields : List String → List SpecError
unknown_fields [] = []
unknown_fields (k ∷ ks) =
    if contains k allowed_envelope_fields
    then unknown_fields ks
    else unknown_field k ∷ unknown_fields ks

-- `key not in spec`. The code walks over a set, so the order of these errors is not fixed.
abbrev pub missing_fields : Fields → List String → List SpecError
missing_fields spec [] = []
missing_fields spec (k ∷ ks) =
    if is_some (get k spec)
    then missing_fields spec ks
    else missing_field k ∷ missing_fields spec ks

abbrev pub is_filled_text : Json → Bool
is_filled_text (text s) = nonempty s
is_filled_text _ = false

abbrev pub check_entries : Items → List SpecError
check_entries nil = []
check_entries (cons v vs) =
    if is_filled_text v then check_entries vs else universe_entry v ∷ check_entries vs

-- `_check_token_universe`
unfoldable pub check_token_universe : Json → List SpecError
check_token_universe (arr nil) = universe_shape ∷ []
check_token_universe (arr (cons v vs)) = check_entries (cons v vs)
check_token_universe _ = universe_shape ∷ []

-- `_check_int_range`: a bool is no int here
unfoldable pub check_int_range : String → Json → ℤ → ℤ → List SpecError
check_int_range name (int value) lo hi =
    if ltb_ℤ value lo || ltb_ℤ hi value then out_of_range name lo hi value ∷ [] else []
check_int_range name value lo hi = not_int name ∷ []

-- `spec[key]`, for a key that is there
abbrev pub item : String → Fields → Json
item k spec = or_default (get k spec) null

-- the shape and range checks
abbrev pub check_ranges : Fields → List SpecError
check_ranges spec =
    check_token_universe (item "allowed_token_universe" spec)
    ++ check_int_range "max_slippage_bps" (item "max_slippage_bps" spec) (pos 0)
        max_slippage_bps_limit
    ++ check_int_range "max_position_size" (item "max_position_size" spec) (pos 1)
        max_position_size_limit
    ++ check_int_range "max_iterations" (item "max_iterations" spec) (pos 1) max_iterations_limit
    ++ check_int_range "max_runtime_seconds" (item "max_runtime_seconds" spec) (pos 1)
        max_runtime_seconds_limit

abbrev pub or_ranges : Fields → List SpecError → List SpecError
or_ranges spec [] = check_ranges spec
or_ranges spec (e ∷ es) = e ∷ es

-- `validate_spec`: the list of errors
unfoldable pub validate_spec : Fields → List SpecError
unfolding check_token_universe check_int_range
validate_spec spec =
    or_ranges spec (unknown_fields (keys spec) ++ missing_fields spec allowed_envelope_fields)

-- the dict that `build_wallet_policy` returns
pub record WalletPolicy : Type 0 where
  pub chain : String
  pub envelope : Fields
  pub allowlist_profile : Fields
  pub transfer_instruction : String
  pub transfer_max_amount : Json
  pub default_action : String
  pub runner_enforced : List String

abbrev pub envelope_of : Fields → Fields
envelope_of spec = field "allowed_token_universe" (item "allowed_token_universe" spec) (
    field "max_iterations" (item "max_iterations" spec) (
      field "max_position_size" (item "max_position_size" spec) (
        field "max_runtime_seconds" (item "max_runtime_seconds" spec)
          (field "max_slippage_bps" (item "max_slippage_bps" spec) end))))

abbrev pub policy_unless :
    Fields → Fields → String → List SpecError → Result PolicyEngineError WalletPolicy
policy_unless spec profile chain (e ∷ es) = err (spec_invalid (e ∷ es))
policy_unless spec profile chain [] = ok (record {
  chain = chain;
  envelope = envelope_of spec;
  allowlist_profile = profile;
  transfer_instruction = "TransferChecked";
  transfer_max_amount = item "max_position_size" spec;
  default_action = "DENY";
  runner_enforced =
      "quote_freshness" ∷ "slippage_upper_bound_per_swap" ∷ "iteration_budget" ∷ "time_budget" ∷ [];
})

unfoldable pub build_wallet_policy :
    Fields → Fields → String → Result PolicyEngineError WalletPolicy
unfolding validate_spec
build_wallet_policy spec allowlist_profile chain =
    if not (chain == "devnet")
    then err (chain_rejected chain)
    else policy_unless spec allowlist_profile chain (validate_spec spec)

pub record ConsentRecord (Text : Type 0) : Type 0 where
  pub canonical_json : Text
  pub content_hash : String

-- `is True`
abbrev pub is_true : Option Json → Bool
is_true (some (bool true)) = true
is_true _ = false

-- `bool(acknowledgments[k])` of the keys, all of which are true
abbrev pub consent_fields : List String → Fields
consent_fields [] = end
consent_fields (k ∷ ks) = field k (bool true) (consent_fields ks)

module _ (c : Codec) where
  abbrev pub consent_unless :
      List String → List String → Result PolicyEngineError (ConsentRecord c.Text)
  consent_unless (k ∷ ks) not_truthy = err (missing_acknowledgments (k ∷ ks))
  consent_unless [] (k ∷ ks) = err (not_true (k ∷ ks))
  consent_unless [] [] =
      let canonical = c.dumps (obj (consent_fields required_consent_keys)) in
      ok (record { canonical_json = canonical; content_hash = sha256 c (canonical ∷ []) })

  unfoldable pub record_consent : Fields → Result PolicyEngineError (ConsentRecord c.Text)
  record_consent acknowledgments =
      consent_unless (filter (λ k. not (is_some (get k acknowledgments))) required_consent_keys)
        (filter (λ k. not (is_true (get k acknowledgments))) required_consent_keys)

pub data ProfileError : Type 0 where
  file_not_found malformed_json not_an_object : String → ProfileError

-- what `open` and `json.load` make of a path
pub data FileRead : Type 0 where
  absent malformed : FileRead
  parsed : Json → FileRead

-- `ORCA_DEVNET_ALLOWLIST`
abbrev pub orca_devnet_allowlist : Fields
orca_devnet_allowlist =
    field "programs"
      (arr (
        cons (text "whirLbMiicVdio4qvUfM5KAg6Ct8VwpYzGff3uctyCc") (
          cons (text "TokenkegQfeZyiNwAJbNbGKPFXCWuBvf9Ss623VQ5DA") (
            cons (text "ATokenGPvbdGVxr1b2hvZbsiqW5xWH25efTNsLJA8knL") (
              cons (text "11111111111111111111111111111111") (
                cons (text "MemoSq4gqABAXKb96qnH8TysNcWxMyWCqXgDLGmfcHr")
                  (cons (text "ComputeBudget111111111111111111111111111111") nil)))))))
      end

abbrev pub profile_of : String → FileRead → Result ProfileError Fields
profile_of path absent = err (file_not_found path)
profile_of path malformed = err (malformed_json path)
profile_of path (parsed (obj fs)) = ok fs
profile_of path (parsed v) = err (not_an_object path)

unfoldable pub load_allowlist_profile :
    (String → FileRead) → Option String → Result ProfileError Fields
load_allowlist_profile read none = ok orca_devnet_allowlist
load_allowlist_profile read (some path) = profile_of path (read path)
