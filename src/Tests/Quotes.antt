-- ===== src/Tests/Quotes.antt =====
-- A quote that is fetched and swapped, and a cache that is cleared.
use proof_arena.Base.{
  List, ℕ, ◌+◌, ◌*◌, ◌<◌, ◌≡◌, ◌≢◌, ◌↔◌, ◌⊎◌, refl, String, true, none, some, [], ◌∷◌, arith,
}
use package.text.Mathlib.TextEquality.{eq_iff}
use proof_arena.Base.Int.{pos}
use proof_arena.Base.Json.{end, get}
use proof_arena.Base.Result.{Result, err}
use proof_arena.Services.SwapProtocol.{QuoteOption}
use proof_arena.Services.Quotes.{
  JupiterService, QuoteError, route, new_quote, max_age_or, get_quotes, get_cached_quote,
  is_quote_fresh,
}
use proof_arena.Services.Quotes.Fresh.{get_quotes-is_quote_fresh}
use proof_arena.Services.Quotes.Swapping.{
  SwapRequest, SwapAnswer, answered, read_swap, prepare_swap_transaction,
}
use proof_arena.Services.Quotes.Swapping.Guarded.{slippage_of, prepare_swap_transaction-fresh}

abbrev quote_at : String → ℕ → QuoteOption
quote_at id now = new_quote id now "USDC" "SOL" (pos 100) (pos 50) end (pos 7)

abbrev service : JupiterService
service = record { max_age_secs = 30; quote_cache = ("old", quote_at "old" 1000) ∷ [] }

abbrev fetched : JupiterService
fetched = record {
  max_age_secs = 30;
  quote_cache = ("old", quote_at "old" 1000) ∷ ("new", quote_at "new" 60000000) ∷ [];
}

get_quotes-is_quote_fresh_example :
    (quote : QuoteOption) × (quote_at "new" 60000000 ∷ [] ≡ quote ∷ [])
    × (quote.quote_id ≡ "new")
    × (get_cached_quote fetched "new" ≡ some quote)
    × ((is_quote_fresh fetched 61000000 "new" (some 5) ≡ true)
        ↔ (61000000 < 60000000 + max_age_or 30 (some 5) * 1000000))
    × (get_cached_quote fetched "old" ≡ get_cached_quote service "old")
unfolding get_quotes
get_quotes-is_quote_fresh_example =
    get_quotes-is_quote_fresh service (route end (pos 7)) "new" 60000000 "USDC" "SOL" (pos 100)
      (pos 50) 61000000 (some 5) "old" refl ((ground (arith, eq_iff "old" "new")))

abbrev decoded : String → String
decoded text = text

abbrev answer : SwapRequest → SwapAnswer
answer request = answered (some "AQID")

abbrev asked : List SwapRequest × Result QuoteError String
asked = prepare_swap_transaction decoded fetched answer 61000000 "new" "user-1" (some (pos 20))

prepare_swap_transaction-fresh_example :
    ((asked.0 ≡ [])
      × ((e : QuoteError) × (asked.1 ≡ err e))
      × (is_quote_fresh fetched 61000000 "new" none ≢ true))
    ⊎ ((quote : QuoteOption) × (request : SwapRequest) × (asked
          ≡ (request ∷ [], read_swap decoded (answer request)))
        × (get_cached_quote fetched "new" ≡ some quote)
        × (is_quote_fresh fetched 61000000 "new" none ≡ true)
        × (request.user_public_key ≡ "user-1")
        × (get "slippageBps" request.quote_response ≡ slippage_of (some (pos 20)) quote.route_data)
        × (get "outAmount" request.quote_response ≡ get "outAmount" quote.route_data))
prepare_swap_transaction-fresh_example =
    prepare_swap_transaction-fresh decoded fetched answer 61000000 "new" "user-1" (some (pos 20))
      "outAmount" (ground (arith, eq_iff "outAmount" "slippageBps"))
