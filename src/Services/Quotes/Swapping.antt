-- ===== src/Services/Quotes/Swapping.antt =====
-- backend/src/services/jupiter_service.py: the request for a swap transaction. Python's base64 is a
-- parameter, and the HTTP answer is an input.
pub mod Guarded
use proof_arena.Base.{
  ℕ, String, Bool, not, Option, none, some, List, [], ◌∷◌, if◌then◌else◌, ◌==◌, text_equality,
  nonempty, or_default,
}
use proof_arena.Base.Int.{ℤ}
use proof_arena.Base.Json.{Json, Fields, end, field, int}
use proof_arena.Base.Result.{Result, ok, err}
use proof_arena.Services.SwapProtocol.{QuoteOption}
use proof_arena.Services.Quotes.{JupiterService, QuoteError, api_error, validate_quote_freshness}

-- the body of the request; `max_bps` is in "dynamicSlippage"
pub record SwapRequest : Type 0 where
  pub quote_response : Fields
  pub user_public_key : String
  pub max_bps : Option ℤ

-- a status that is not 200, or the field "swapTransaction"
pub data SwapAnswer : Type 0 where
  refused : ℕ → String → SwapAnswer
  answered : Option String → SwapAnswer

-- `d[key] = value`
abbrev pub set_field : String → Json → Fields → Fields
set_field key value end = field key value end
set_field key value (field k v rest) =
    if key == k then field k value rest else field k v (set_field key value rest)

abbrev pub with_slippage : Option ℤ → Fields → Fields
with_slippage none route_data = route_data
with_slippage (some bps) route_data = set_field "slippageBps" (int bps) route_data

abbrev pub swap_request : QuoteOption → String → Option ℤ → SwapRequest
swap_request quote user_public_key max_slippage_bps = record {
  quote_response = with_slippage max_slippage_bps quote.route_data;
  user_public_key = user_public_key;
  max_bps = max_slippage_bps;
}

abbrev pub read_swap : {B : Type 0} → (String → B) → SwapAnswer → Result QuoteError B
read_swap b64decode (refused status body) = err (api_error status body)
read_swap b64decode (answered transaction) =
    let text = or_default transaction "" in
    if not (nonempty text)
    then err (api_error 200 "No swapTransaction in response")
    else ok (b64decode text)

abbrev pub request_swap :
    {B : Type 0}
    → (String → B)
    → (SwapRequest → SwapAnswer)
    → String
    → Option ℤ
    → Result QuoteError QuoteOption
    → List SwapRequest × Result QuoteError B
request_swap b64decode post user_public_key max_slippage_bps (err e) = ([], err e)
request_swap b64decode post user_public_key max_slippage_bps (ok quote) =
    let request = swap_request quote user_public_key max_slippage_bps in
    (request ∷ [], read_swap b64decode (post request))

-- `prepare_swap_transaction`: the requests that leave, and the result
unfoldable pub prepare_swap_transaction :
    {B : Type 0}
    → (String → B)
    → JupiterService
    → (SwapRequest → SwapAnswer)
    → ℕ
    → String
    → String
    → Option ℤ
    → List SwapRequest × Result QuoteError B
prepare_swap_transaction b64decode s post now quote_id user_public_key max_slippage_bps =
    request_swap b64decode post user_public_key max_slippage_bps
      (validate_quote_freshness s now quote_id none)
