-- ===== src/Wallets.antt =====
-- backend/src/services/wallet_service.py: the guards on the network, hosted wallets, token balances and
-- draining. What Privy and the RPC node answer is an input; funding is not modelled.
pub mod Guards
pub mod Draining
use proof_arena.Base.{
  ℕ, String, Bool, true, false, not, ◌&&◌, ◌||◌, Option, none, some, List, [], ◌∷◌, map,
  if◌then◌else◌, ◌==◌, text_equality, nonempty, is_some, all, filter, or_default,
}
use package.text.Mathlib.Text.{find?}
use proof_arena.Base.Int.{ℤ, pos, ltb_ℤ}
use proof_arena.Base.Result.{Result, ok, err, ◌>>=◌}

pub data WalletError : Type 0 where
  unknown_cluster : String → WalletError
  chain_mismatch : String → WalletError
  no_signing_service : WalletError
  privy_error : ℕ → String → WalletError

-- `other in text`
abbrev pub is_in : String → String → Bool
is_in other whole = is_some (find? whole other)

-- `CLUSTER_TO_CAIP2`
abbrev pub caip2_of : String → Option String
caip2_of cluster =
    if cluster == "devnet"
    then some "solana:EtWTRABZaYq6iMfeYKouRu166VU2xqa1"
    else if cluster == "mainnet-beta"
    then some "solana:5eykt4UsFv8P8NJdTREpY1vzqKqZKvdp"
    else if cluster == "testnet"
    then some "solana:4uhcVJyU9pJkvQyS88uRDiswHXSCkY3z"
    else none

-- another network's marker in the URL, and not the network's own
abbrev pub names_other : String → String → String → Bool
names_other rpc own other = is_in other rpc && not (is_in own rpc)

-- `_validate_rpc_cluster_match` on the URL in lower case, for a known cluster
unfoldable pub rpc_mismatches : String → String → Bool
rpc_mismatches rpc cluster =
    if cluster == "mainnet-beta"
    then is_in "devnet" rpc || is_in "testnet" rpc
    else if cluster == "devnet"
    then names_other rpc "devnet" "mainnet" || names_other rpc "devnet" "testnet"
    else names_other rpc "testnet" "devnet" || names_other rpc "testnet" "mainnet"

pub record WalletService : Type 0 where
  pub cluster : String
  pub caip2 : String
  pub has_signing_service : Bool

abbrev pub with_caip2 : String → String → Bool → Option String → Result WalletError WalletService
with_caip2 rpc cluster signing none = err (unknown_cluster cluster)
with_caip2 rpc cluster signing (some caip2) =
    if rpc_mismatches rpc cluster
    then err (chain_mismatch cluster)
    else ok (record { cluster = cluster; caip2 = caip2; has_signing_service = signing })

-- `__init__`, as far as it raises; `rpc` is the URL in lower case
unfoldable pub new : String → String → Bool → Result WalletError WalletService
unfolding rpc_mismatches
new rpc cluster signing = with_caip2 rpc cluster signing (caip2_of cluster)

-- the request body, the header's signature being made over it
pub record HostedRequest : Type 0 where
  pub chain_type : String
  pub owner_public_key : String
  pub policy_ids : List String

-- the answer: a status that is not 200, or the fields "id" and "address"
pub data HostedAnswer : Type 0 where
  refused : ℕ → String → HostedAnswer
  created : Option String → Option String → HostedAnswer

pub record HostedWallet : Type 0 where
  pub wallet_id : String
  pub address : String

abbrev pub filled : Option String → Bool
filled none = false
filled (some s) = nonempty s

abbrev pub read_wallet : HostedAnswer → Result WalletError HostedWallet
read_wallet (refused status body) = err (privy_error status body)
read_wallet (created id address) =
    if filled id && filled address
    then ok (record { wallet_id = or_default id ""; address = or_default address "" })
    else err (privy_error 200 "Missing wallet fields")

-- `create_hosted_wallet`: the requests that leave, and the result
unfoldable pub create_hosted_wallet :
    WalletService
    → (HostedRequest → HostedAnswer)
    → String
    → String
    → String
    → String
    → List HostedRequest × Result WalletError HostedWallet
create_hosted_wallet s post policy_id authorization_pubkey chain_type cluster =
    let request : HostedRequest = record {
      chain_type = chain_type;
      owner_public_key = authorization_pubkey;
      policy_ids = policy_id ∷ [];
    } in
    if not (s.cluster == "devnet")
    then ([], err (chain_mismatch s.cluster))
    else if not (cluster == "devnet")
    then ([], err (chain_mismatch cluster))
    else if not s.has_signing_service
    then ([], err no_signing_service)
    else (request ∷ [], read_wallet (post request))

-- a token account of the answer: its mint and its amount
abbrev pub Accounts : Type 0
Accounts = List (String × ℤ)

-- `balances[mint] = amount`
abbrev pub set_balance : String → ℤ → Accounts → Accounts
set_balance mint amount [] = (mint, amount) ∷ []
set_balance mint amount ((m, old) ∷ rest) =
    if mint == m then (m, amount) ∷ rest else (m, old) ∷ set_balance mint amount rest

abbrev pub add_account : String × ℤ → Accounts → Accounts
add_account (mint, amount) balances =
    if nonempty mint && ltb_ℤ (pos 0) amount then set_balance mint amount balances else balances

abbrev pub add_accounts : Accounts → Accounts → Accounts
add_accounts [] balances = balances
add_accounts (account ∷ accounts) balances = add_accounts accounts (add_account account balances)

-- `get_token_balances` on the accounts of an answer
unfoldable pub get_token_balances : Accounts → Accounts
get_token_balances accounts = add_accounts accounts []

abbrev pub balance_in : String → Accounts → Option ℤ
balance_in mint [] = none
balance_in mint ((m, amount) ∷ rest) = if mint == m then some amount else balance_in mint rest

pub record DrainMintResult : Type 0 where
  pub mint : String
  pub balance : ℤ
  pub success : Bool
  pub signature : Option String
  pub error : Option String

abbrev pub drained : String → ℤ → Result String String → DrainMintResult
drained mint balance (ok sig) = record {
  mint = mint;
  balance = balance;
  success = true;
  signature = some sig;
  error = none;
}
drained mint balance (err message) = record {
  mint = mint;
  balance = balance;
  success = false;
  signature = none;
  error = some message;
}

abbrev pub is_zero : ℤ → Bool
is_zero n = not (ltb_ℤ (pos 0) n) && not (ltb_ℤ n (pos 0))

-- the loop over the balances: `send` signs and sends the transfer of a mint's balance. The mints are
-- keys, and the balances fit into eight bytes, so that nothing raises before the `try`.
abbrev pub drain_each : (String → ℤ → Result String String) → Accounts → List DrainMintResult
drain_each send [] = []
drain_each send ((mint, balance) ∷ rest) =
    let others = drain_each send rest in
    if is_zero balance then others else drained mint balance (send mint balance) ∷ others

-- `drain_wallet` on the accounts that the node answers
unfoldable pub drain_wallet : (String → ℤ → Result String String) → Accounts → List DrainMintResult
unfolding get_token_balances
drain_wallet send accounts = drain_each send (get_token_balances accounts)

unfoldable pub fully_drained : List DrainMintResult → Bool
fully_drained results = all (λ r. r.success) results

unfoldable pub failed_mints : List DrainMintResult → List String
failed_mints results = map (λ r. r.mint) (filter (λ r. not r.success) results)
