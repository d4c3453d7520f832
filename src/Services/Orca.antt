-- ===== src/Services/Orca.antt =====
-- backend/src/services/swap_service.py: the Orca service, which remembers what a quote was asked for
-- and hands it to the Node helper. What the helper does is an input.
pub mod Prepared
use proof_arena.Base.{
  ℕ, String, Bool, not, ◌||◌, Option, none, some, List, [], ◌∷◌, if◌then◌else◌, ◌==◌, text_equality,
  nonempty, or_default, is_some,
}
use package.text.Mathlib.Text.{find?}
use proof_arena.Base.Int.{ℤ, pos}
use proof_arena.Base.Json.{end, field, int, text}
use proof_arena.Base.Result.{Result, ok, err}
use proof_arena.Services.SwapProtocol.{QuoteOption}
use proof_arena.Services.Quotes.{Cache, lookup, store, new_quote, fresh_at, max_age_or}

pub data OrcaError : Type 0 where
  not_devnet : String → OrcaError
  invalid_pool : String → OrcaError
  orca_swap : String → OrcaError

pub record OrcaSwapService : Type 0 where
  pub rpc_url : String
  pub script_path : String
  pub pool_address : String
  pub max_age_secs : ℕ
  pub quote_cache : Cache

-- `__init__`; `default` is `settings.QUOTE_MAX_AGE_SECS`
unfoldable pub new :
    String → String → String → String → Option ℕ → ℕ → Result OrcaError OrcaSwapService
new rpc_url cluster script_path pool_address max_age_secs default =
    if not (cluster == "devnet")
    then err (not_devnet cluster)
    else ok (record {
      rpc_url = rpc_url;
      script_path = script_path;
      pool_address = pool_address;
      max_age_secs = max_age_or default max_age_secs;
      quote_cache = [];
    })

-- what becomes of a helper: there is no Node, the time is over, it fails with a text on stderr, or it
-- writes a text; the texts are stripped, and the last is decoded where it is base64
pub data HelperEnd (B : Type 0) : Type 0 where
  no_node : String → HelperEnd B
  timed_out : HelperEnd B
  exited : ℕ → String → HelperEnd B
  wrote : Option B → HelperEnd B

-- `_looks_like_pool_error` on the text in lower case
unfoldable pub looks_like_pool_error : String → Bool
looks_like_pool_error lowered =
    is_some (find? "whirlpool" lowered)
    || is_some (find? "pool" lowered)
    || is_some (find? "mint" lowered)

-- `argv`, with `str` of an int as a parameter
abbrev pub argv : (ℤ → String) → OrcaSwapService → String → String → ℤ → ℤ → String → List String
argv str s input_mint output_mint amount slippage_bps wallet_pubkey =
    "node"
    ∷ s.script_path
    ∷ "--input-mint"
    ∷ input_mint
    ∷ "--output-mint"
    ∷ output_mint
    ∷ "--amount"
    ∷ str amount
    ∷ "--slippage-bps"
    ∷ str slippage_bps
    ∷ "--wallet-pubkey"
    ∷ wallet_pubkey
    ∷ "--rpc-url"
    ∷ s.rpc_url
    ∷ "--pool"
    ∷ s.pool_address
    ∷ []

-- The messages about a timeout and a malformed text are cut before the f-string's values.
-- `lower` and `exit_text` (the f-string of an exit code) are parameters
abbrev pub read_helper :
    {B : Type 0} → (String → String) → (ℕ → String) → HelperEnd B → Result OrcaError B
read_helper lower exit_text (no_node message) = err (orca_swap message)
read_helper lower exit_text timed_out = err (orca_swap "orca_swap helper timed out")
read_helper lower exit_text (exited code stderr_text) =
    if looks_like_pool_error (lower stderr_text)
    then err (invalid_pool stderr_text)
    else err (orca_swap (if nonempty stderr_text then stderr_text else exit_text code))
read_helper lower exit_text (wrote none) =
    err (orca_swap "orca_swap helper returned malformed base64 stdout")
read_helper lower exit_text (wrote (some transaction)) = ok transaction

-- the Python functions and the helper that a service calls
pub record Node (B : Type 0) : Type 0 where
  pub str : ℤ → String
  pub lower : String → String
  pub exit_text : ℕ → String
  pub run : List String → HelperEnd B

-- `prepare_swap_tx`: the command lines that are run, and the result
unfoldable pub prepare_swap_tx :
    {B : Type 0}
    → Node B
    → OrcaSwapService
    → String
    → String
    → ℤ
    → ℤ
    → String
    → List (List String) × Result OrcaError B
prepare_swap_tx node s input_mint output_mint amount slippage_bps wallet_pubkey =
    let command = argv node.str s input_mint output_mint amount slippage_bps wallet_pubkey in
    if not (nonempty s.pool_address)
    then ([], err (invalid_pool "pool_address not configured"))
    else (command ∷ [], read_helper node.lower node.exit_text (node.run command))

-- `get_quotes`; `id` is the fresh uuid and `now` the time. No process is run.
unfoldable pub get_quotes :
    OrcaSwapService → String → ℕ → String → String → ℤ → ℤ → OrcaSwapService × List QuoteOption
get_quotes s id now input_mint output_mint amount slippage_bps =
    let data' = field "amount" (int amount) (
      field "input_mint" (text input_mint)
        (field "output_mint" (text output_mint) (field "slippage_bps" (int slippage_bps) end))) in
    let quote = new_quote id now input_mint output_mint amount slippage_bps data' (pos 0) in
    (record s { quote_cache = store id quote s.quote_cache }, quote ∷ [])

unfoldable pub get_cached_quote : OrcaSwapService → String → Option QuoteOption
get_cached_quote s id = lookup id s.quote_cache

unfoldable pub is_quote_fresh : OrcaSwapService → ℕ → String → Option ℕ → Bool
is_quote_fresh s now id max_age_secs =
    fresh_at now (max_age_or s.max_age_secs max_age_secs) (lookup id s.quote_cache)

abbrev pub prepare_cached :
    {B : Type 0}
    → Node B
    → OrcaSwapService
    → String
    → Option ℤ
    → Option QuoteOption
    → List (List String) × Result OrcaError B
prepare_cached node s user_public_key max_slippage_bps none =
    ([], err (orca_swap "unknown quote_id"))
prepare_cached node s user_public_key max_slippage_bps (some quote) =
    prepare_swap_tx node s quote.input_mint quote.output_mint quote.in_amount
      (or_default max_slippage_bps quote.slippage_bps) user_public_key

-- `prepare_swap_transaction`: the age of the quote is not looked at
unfoldable pub prepare_swap_transaction :
    {B : Type 0}
    → Node B
    → OrcaSwapService
    → String
    → String
    → Option ℤ
    → List (List String) × Result OrcaError B
prepare_swap_transaction node s quote_id user_public_key max_slippage_bps =
    prepare_cached node s user_public_key max_slippage_bps (lookup quote_id s.quote_cache)
