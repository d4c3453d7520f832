-- ===== src/Services/Quotes/Swapping/Guarded.antt =====
-- For which quote a swap is asked for, and with which slippage.
use proof_arena.Base.{
  ℕ, ◌≡◌, ◌≢◌, ◌⊎◌, inl, inr, refl, String, true, Option, none, some, [], ◌∷◌, arith, eq_refl_true,
}
use package.text.Mathlib.TextEquality.{eq_iff}
use proof_arena.Base.Int.{ℤ}
use proof_arena.Base.Json.{Json, Fields, end, field, int, get}
use proof_arena.Base.Result.{Result, ok, err}
use proof_arena.Services.SwapProtocol.{QuoteOption}
use proof_arena.Services.Quotes.{
  JupiterService, QuoteError, get_cached_quote, is_quote_fresh, validate_quote_freshness,
}
use proof_arena.Services.Quotes.Fresh.{
  validate_quote_freshness_iff, validate_quote_freshness-cached,
}
use proof_arena.Services.Quotes.Swapping.{
  SwapRequest, SwapAnswer, set_field, with_slippage, swap_request, read_swap, request_swap,
  prepare_swap_transaction,
}

get-set :
    (key : String) (value : Json) (fs : Fields) → get key (set_field key value fs) ≡ some value
get-set key value end = rw (eq_refl_true key) refl
get-set key value (field k v rest) = ground (arith, get-set key value rest, eq_iff key k)

get-set_other :
    (key other : String) (value : Json) (fs : Fields)
    → other ≢ key
    → get other (set_field key value fs) ≡ get other fs
get-set_other key other value end ne = ground (arith, eq_iff other key)
get-set_other key other value (field k v rest) ne =
    ground
      (arith, get-set_other key other value rest ne, eq_iff key k, eq_iff other k, eq_iff other key)

get-with_slippage_other :
    (max_bps : Option ℤ) (other : String) (fs : Fields)
    → other ≢ "slippageBps"
    → get other (with_slippage max_bps fs) ≡ get other fs
get-with_slippage_other none other fs ne = refl
get-with_slippage_other (some bps) other fs ne = get-set_other "slippageBps" other (int bps) fs ne

-- what the slippage of a request may be: the given one, or the one of the route
abbrev pub slippage_of : Option ℤ → Fields → Option Json
slippage_of none route_data = get "slippageBps" route_data
slippage_of (some bps) route_data = some (int bps)

get-with_slippage :
    (max_bps : Option ℤ) (fs : Fields)
    → get "slippageBps" (with_slippage max_bps fs) ≡ slippage_of max_bps fs
get-with_slippage none fs = refl
get-with_slippage (some bps) fs = get-set "slippageBps" (int bps) fs

-- Either nothing leaves and the call raises, the quote being stale or unknown, or one request leaves
-- for the user that is given: then the quote is cached and fresh, the request carries its route with
-- the slippage that is given, where one is, and every other field as it was fetched, and the result is
-- read from the answer to it.
pub prepare_swap_transaction-fresh :
    {B : Type 0} (b64decode : String → B) (s : JupiterService) (post : SwapRequest → SwapAnswer)
    (now : ℕ) (quote_id user_public_key : String) (max_slippage_bps : Option ℤ) (other : String)
    → other ≢ "slippageBps"
    → (((prepare_swap_transaction b64decode s post now quote_id user_public_key max_slippage_bps).0
          ≡ [])
        × ((e : QuoteError) × ((prepare_swap_transaction b64decode s post now quote_id
                user_public_key max_slippage_bps).1
              ≡ err e))
        × (is_quote_fresh s now quote_id none ≢ true))
      ⊎ ((quote : QuoteOption) × (request : SwapRequest) × ((prepare_swap_transaction b64decode s
              post now quote_id user_public_key max_slippage_bps)
            ≡ (request ∷ [], read_swap b64decode (post request)))
          × (get_cached_quote s quote_id ≡ some quote)
          × (is_quote_fresh s now quote_id none ≡ true)
          × (request.user_public_key ≡ user_public_key)
          × (get "slippageBps" request.quote_response
              ≡ slippage_of max_slippage_bps quote.route_data)
          × (get other request.quote_response ≡ get other quote.route_data))
unfolding prepare_swap_transaction
prepare_swap_transaction-fresh b64decode s post now quote_id user max_bps other ne =
    by_check (validate_quote_freshness s now quote_id none) refl
  where
    by_check :
        (r : Result QuoteError QuoteOption)
        → validate_quote_freshness s now quote_id none ≡ r
        → (((request_swap b64decode post user max_bps r).0 ≡ [])
            × ((e : QuoteError) × ((request_swap b64decode post user max_bps r).1 ≡ err e))
            × (is_quote_fresh s now quote_id none ≢ true))
          ⊎ ((quote : QuoteOption) × (request : SwapRequest) × (request_swap b64decode post user
                  max_bps r
                ≡ (request ∷ [], read_swap b64decode (post request)))
              × (get_cached_quote s quote_id ≡ some quote)
              × (is_quote_fresh s now quote_id none ≡ true)
              × (request.user_public_key ≡ user)
              × (get "slippageBps" request.quote_response ≡ slippage_of max_bps quote.route_data)
              × (get other request.quote_response ≡ get other quote.route_data))
    by_check (err e) h = inl (
      refl,
      (e, refl),
      λ fresh. let passed = (validate_quote_freshness_iff s now quote_id none).1 fresh in cc,
    )
    by_check (ok quote) h = inr (
      quote,
      swap_request quote user max_bps,
      refl,
      validate_quote_freshness-cached s now quote_id none h,
      (validate_quote_freshness_iff s now quote_id none).0
          (quote, h, validate_quote_freshness-cached s now quote_id none h),
      refl,
      get-with_slippage max_bps quote.route_data,
      get-with_slippage_other max_bps other quote.route_data ne,
    )
