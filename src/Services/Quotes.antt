-- ===== src/Services/Quotes.antt =====
-- backend/src/services/jupiter_service.py: the quote cache and the age of its quotes. The HTTP answers
-- are inputs.
pub mod Fresh
pub mod Swapping
use proof_arena.Base.{
  ℕ, ◌+◌, ◌*◌, String, Bool, true, false, Option, none, some, List, [], ◌∷◌, if◌then◌else◌, ◌==◌,
  text_equality, ltb, leb, nat_beq, length, or_default, is_some,
}
use proof_arena.Base.Int.{ℤ}
use proof_arena.Base.Json.{Json, Fields, field, int}
use proof_arena.Base.Result.{Result, ok, err, ◌>>=◌}
use proof_arena.Services.SwapProtocol.{QuoteOption}

-- the dict from ids to quotes
abbrev pub Cache : Type 0
Cache = List (String × QuoteOption)

abbrev pub lookup : String → Cache → Option QuoteOption
lookup id [] = none
lookup id ((key, quote) ∷ rest) = if id == key then some quote else lookup id rest

-- `cache[id] = quote`
abbrev pub store : String → QuoteOption → Cache → Cache
store id quote [] = (id, quote) ∷ []
store id quote ((key, old) ∷ rest) =
    if id == key then (key, quote) ∷ rest else (key, old) ∷ store id quote rest

pub record JupiterService : Type 0 where
  pub max_age_secs : ℕ
  pub quote_cache : Cache

pub data QuoteError : Type 0 where
  stale_quote : String → QuoteError
  api_error : ℕ → String → QuoteError

-- the answer to a quote request: a status that is not 200, or the route and its "outAmount"
pub data QuoteAnswer : Type 0 where
  refused : ℕ → String → QuoteAnswer
  route : Fields → ℤ → QuoteAnswer

abbrev pub new_quote : String → ℕ → String → String → ℤ → ℤ → Fields → ℤ → QuoteOption
new_quote id now input_mint output_mint amount slippage_bps data' out_amount = record {
  quote_id = id;
  input_mint = input_mint;
  output_mint = output_mint;
  in_amount = amount;
  out_amount = out_amount;
  slippage_bps = slippage_bps;
  fetched_at = now;
  route_data = data';
}

-- `get_quotes`; `id` is the fresh uuid and `now` the time after the answer
unfoldable pub get_quotes :
    JupiterService
    → QuoteAnswer
    → String
    → ℕ
    → String
    → String
    → ℤ
    → ℤ
    → Result QuoteError (JupiterService × List QuoteOption)
get_quotes s (refused status body) id now input_mint output_mint amount slippage_bps =
    err (api_error status body)
get_quotes s (route data' out_amount) id now input_mint output_mint amount slippage_bps =
    let quote = new_quote id now input_mint output_mint amount slippage_bps data' out_amount in
    ok (record s { quote_cache = store id quote s.quote_cache }, quote ∷ [])

unfoldable pub get_cached_quote : JupiterService → String → Option QuoteOption
get_cached_quote s id = lookup id s.quote_cache

-- `max_age_secs or self.max_age_secs`: 0 is false, so it gives the default
abbrev pub max_age_or : ℕ → Option ℕ → ℕ
max_age_or default none = default
max_age_or default (some n) = if nat_beq n 0 then default else n

-- `(now - fetched).total_seconds() < max_age`, with times in microseconds
abbrev pub is_younger : ℕ → ℕ → QuoteOption → Bool
is_younger now max_age quote = ltb now (quote.fetched_at + max_age * 1000000)

abbrev pub fresh_at : ℕ → ℕ → Option QuoteOption → Bool
fresh_at now max_age none = false
fresh_at now max_age (some quote) = is_younger now max_age quote

unfoldable pub is_quote_fresh : JupiterService → ℕ → String → Option ℕ → Bool
is_quote_fresh s now id max_age_secs =
    fresh_at now (max_age_or s.max_age_secs max_age_secs) (lookup id s.quote_cache)

abbrev pub check_age : String → ℕ → ℕ → Option QuoteOption → Result QuoteError QuoteOption
check_age id now max_age none = err (stale_quote id)
check_age id now max_age (some quote) =
    if leb (quote.fetched_at + max_age * 1000000) now then err (stale_quote id) else ok quote

-- `validate_quote_freshness`, with the quote that the caller then looks up
unfoldable pub validate_quote_freshness :
    JupiterService → ℕ → String → Option ℕ → Result QuoteError QuoteOption
validate_quote_freshness s now id max_age_secs =
    check_age id now (max_age_or s.max_age_secs max_age_secs) (lookup id s.quote_cache)

abbrev pub keep_young : ℕ → ℕ → Cache → Cache
keep_young now max_age [] = []
keep_young now max_age ((key, quote) ∷ rest) =
    if leb (quote.fetched_at + max_age * 1000000) now
    then keep_young now max_age rest
    else (key, quote) ∷ keep_young now max_age rest

abbrev pub count_old : ℕ → ℕ → Cache → ℕ
count_old now max_age [] = 0
count_old now max_age ((key, quote) ∷ rest) =
    (if leb (quote.fetched_at + max_age * 1000000) now then 1 else 0) + count_old now max_age rest

-- `clear_stale_quotes`; here an age of 0 is an age
unfoldable pub clear_stale_quotes : JupiterService → ℕ → Option ℕ → JupiterService × ℕ
clear_stale_quotes s now max_age_secs =
    let max_age = or_default max_age_secs s.max_age_secs in
    (
      record s { quote_cache = keep_young now max_age s.quote_cache },
      count_old now max_age s.quote_cache,
    )
