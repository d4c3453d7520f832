-- ===== src/Services/Orca/Prepared.antt =====
-- What the helper is run for.
use proof_arena.Base.{ℕ, ◌≡◌, refl, ap, ◌∙◌, String, true, Option, [], ◌∷◌, nonempty, or_default}
use proof_arena.Base.Int.{ℤ}
use proof_arena.Services.SwapProtocol.{QuoteOption}
use proof_arena.Services.Quotes.Fresh.{lookup-store}
use proof_arena.Services.Orca.{
  OrcaSwapService, Node, argv, read_helper, get_quotes, prepare_cached, prepare_swap_tx,
  prepare_swap_transaction,
}

-- Preparing the swap of a quote that was fetched runs the helper once, where a pool is configured, for
-- the mints and the amount that the quote was asked for and with its slippage unless another one is
-- given; the time that has passed since does not matter. The result is read from how the helper ends.
pub get_quotes-prepare_swap_transaction :
    {B : Type 0} (node : Node B) (s : OrcaSwapService) (id : String) (now : ℕ)
    (input_mint output_mint : String) (amount slippage_bps : ℤ) (user_public_key : String)
    (max_slippage_bps : Option ℤ)
    → nonempty s.pool_address ≡ true
    → prepare_swap_transaction node
        (get_quotes s id now input_mint output_mint amount slippage_bps).0
        id
        user_public_key
        max_slippage_bps
      ≡ (
        argv node.str s input_mint output_mint amount
              (or_default max_slippage_bps slippage_bps)
              user_public_key
            ∷ [],
        read_helper node.lower node.exit_text (
            node.run (
              argv node.str s input_mint output_mint amount
                (or_default max_slippage_bps slippage_bps)
                user_public_key)),
      )
unfolding prepare_swap_transaction get_quotes prepare_swap_tx
get_quotes-prepare_swap_transaction node s id now input_mint output_mint amount slippage_bps user
      max_bps filled =
    let after = (get_quotes s id now input_mint output_mint amount slippage_bps).0 in
    ap (λ (o : Option QuoteOption). prepare_cached node after user max_bps o)
      (lookup-store id _ s.quote_cache)
    ∙ rw filled refl
