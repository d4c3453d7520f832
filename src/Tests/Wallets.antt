-- ===== src/Tests/Wallets.antt =====
-- A hosted wallet on devnet, and a wallet with two accounts of one mint that is drained.
use proof_arena.Base.{◌≡◌, refl, String, true, some, [], ◌∷◌}
use proof_arena.Base.Int.{ℤ, pos}
use proof_arena.Base.Result.{Result, err}
use proof_arena.Wallets.{
  WalletService, HostedRequest, HostedAnswer, created, create_hosted_wallet, Accounts, balance_in,
  get_token_balances,
}
use proof_arena.Wallets.Guards.{Answers, create_hosted_wallet-requests}
use proof_arena.Wallets.Draining.{last_amount, get_token_balances-last}

abbrev devnet : WalletService
devnet = record {
  cluster = "devnet";
  caip2 = "solana:EtWTRABZaYq6iMfeYKouRu166VU2xqa1";
  has_signing_service = true;
}

abbrev answer : HostedRequest → HostedAnswer
answer request = created (some "wallet-1") (some "address-1")

create_hosted_wallet-requests_example :
    Answers devnet answer "policy-1" "owner-1" "devnet"
      (create_hosted_wallet devnet answer "policy-1" "owner-1" "solana" "devnet")
create_hosted_wallet-requests_example =
    create_hosted_wallet-requests devnet answer "policy-1" "owner-1" "solana" "devnet"

abbrev several : Accounts
several = ("SOL", pos 5) ∷ ("USDC", pos 8) ∷ ("SOL", pos 3) ∷ ("BONK", pos 4) ∷ ("SOL", pos 0) ∷ []

get_token_balances-last_example :
    balance_in "SOL" (get_token_balances several) ≡ last_amount "SOL" several
get_token_balances-last_example = get_token_balances-last "SOL" several

reads_last : last_amount "SOL" several ≡ some (pos 3)
reads_last = refl

abbrev held : Accounts
held = ("SOL", pos 5) ∷ ("USDC", pos 0) ∷ ("BONK", pos 9) ∷ []

abbrev send : String → ℤ → Result String String
send mint balance = err "no blockhash"
