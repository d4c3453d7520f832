-- ===== src/Services/SwapProtocol.antt =====
-- backend/src/services/swap_service_protocol.py: what the runner and the validator ask of a swap
-- service at one moment.
use proof_arena.Base.{ℕ, String, Bool, Option}
use proof_arena.Base.Int.{ℤ}
use proof_arena.Base.Json.{Fields}

-- `QuoteOption` of jupiter_service.py; `fetched_at` is a time in microseconds
pub record QuoteOption : Type 0 where
  pub quote_id : String
  pub input_mint : String
  pub output_mint : String
  pub in_amount : ℤ
  pub out_amount : ℤ
  pub slippage_bps : ℤ
  pub fetched_at : ℕ
  pub route_data : Fields

-- the two reads that the validator makes
pub record QuoteCache : Type 0 where
  pub is_quote_fresh : String → ℕ → Bool
  pub get_cached_quote : String → Option QuoteOption
