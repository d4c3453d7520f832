-- ===== src/Tests/Orca.antt =====
-- The helper for a quote with another slippage.
use proof_arena.Base.{ℕ, ◌≡◌, refl, some, [], ◌∷◌}
use proof_arena.Base.Int.{pos}
use proof_arena.Base.Result.{ok}
use proof_arena.Services.Orca.{
  OrcaSwapService, wrote, Node, argv, get_quotes, prepare_swap_transaction,
}
use proof_arena.Services.Orca.Prepared.{get_quotes-prepare_swap_transaction}

abbrev node : Node ℕ
node = record {
  str = λ n. "1";
  lower = λ s. s;
  exit_text = λ n. "exit=1";
  run = λ command. wrote (some 7);
}

abbrev service : OrcaSwapService
service = record {
  rpc_url = "https://api.devnet.solana.com";
  script_path = "scripts/orca_swap.js";
  pool_address = "pool-1";
  max_age_secs = 30;
  quote_cache = [];
}

get_quotes-prepare_swap_transaction_example :
    prepare_swap_transaction node
      (get_quotes service "q" 1000 "USDC" "SOL" (pos 100) (pos 50)).0
      "q"
      "user-1"
      (some (pos 20))
    ≡ (argv node.str service "USDC" "SOL" (pos 100) (pos 20) "user-1" ∷ [], ok 7)
get_quotes-prepare_swap_transaction_example =
    get_quotes-prepare_swap_transaction node service "q" 1000 "USDC" "SOL" (pos 100) (pos 50)
      "user-1" (some (pos 20)) refl
