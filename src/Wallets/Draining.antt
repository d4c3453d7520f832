-- ===== src/Wallets/Draining.antt =====
-- What draining reports, and what the balances leave out.
use proof_arena.Base.{
  ◌≡◌, ◌↔◌, refl, ap, ◌∙◌, inl, inr, true, false, ◌&&◌, ◌==◌, Bool-cases, Option, none, some, List,
  [], ◌∷◌, String, arith, map, nonempty, text_equality, eq_refl_true, if◌then◌else◌,
}
use package.text.Mathlib.TextEquality.{eq_iff}
use proof_arena.Base.Int.{ℤ, pos, ltb_ℤ}
use proof_arena.Base.Result.{Result, ok, err}
use proof_arena.Wallets.{
  Accounts, set_balance, add_account, add_accounts, get_token_balances, balance_in, DrainMintResult,
  drained, is_zero, drain_each, drain_wallet, fully_drained, failed_mints,
}

balance_in-set :
    (mint : String) (amount : ℤ) (balances : Accounts)
    → balance_in mint (set_balance mint amount balances) ≡ some amount
balance_in-set mint amount [] = rw (eq_refl_true mint) refl
balance_in-set mint amount ((m, old) ∷ rest) =
    ground (arith, balance_in-set mint amount rest, eq_iff mint m)

balance_in-set_other :
    (mint other : String) (amount : ℤ) (balances : Accounts)
    → (mint == other) ≡ false
    → balance_in mint (set_balance other amount balances) ≡ balance_in mint balances
balance_in-set_other mint other amount [] differ = rw differ refl
balance_in-set_other mint other amount ((m, old) ∷ rest) differ =
    ground (arith, balance_in-set_other mint other amount rest differ, eq_iff other m)

abbrev pub or_else : Option ℤ → Option ℤ → Option ℤ
or_else (some amount) other = some amount
or_else none other = other

-- the amount of one account, where it is one of the mint's and holds something
abbrev pub amount_of : String → String × ℤ → Option ℤ
amount_of mint (m, amount) =
    if (mint == m) && (nonempty m && ltb_ℤ (pos 0) amount) then some amount else none

-- the amount of the last account of the mint that holds something
abbrev pub last_amount : String → Accounts → Option ℤ
last_amount mint [] = none
last_amount mint (account ∷ rest) = or_else (last_amount mint rest) (amount_of mint account)

balance_in-add_account :
    (mint : String) (account : String × ℤ) (balances : Accounts)
    → balance_in mint (add_account account balances)
      ≡ or_else (amount_of mint account) (balance_in mint balances)
balance_in-add_account mint (m, amount) balances = elim (Bool-cases (mint == m)) [
  | inl same ↦ ground (arith, eq_iff mint m, balance_in-set mint amount balances)
  | inr differ ↦ ground (arith, balance_in-set_other mint m amount balances differ)
]

or_else_assoc : (a b c : Option ℤ) → or_else a (or_else b c) ≡ or_else (or_else a b) c
or_else_assoc (some a) b c = refl
or_else_assoc none b c = refl

or_else-none : (a : Option ℤ) → or_else a none ≡ a
or_else-none (some a) = refl
or_else-none none = refl

balance_in-add_accounts :
    (mint : String) (accounts balances : Accounts)
    → balance_in mint (add_accounts accounts balances)
      ≡ or_else (last_amount mint accounts) (balance_in mint balances)
balance_in-add_accounts mint [] balances = refl
balance_in-add_accounts mint (account ∷ accounts) balances =
    balance_in-add_accounts mint accounts (add_account account balances)
    ∙ ap (or_else (last_amount mint accounts)) (balance_in-add_account mint account balances)
    ∙ or_else_assoc (last_amount mint accounts) (amount_of mint account) (balance_in mint balances)

-- The balance that is read of any mint, from any token accounts, is the amount of the last account of
-- that mint that holds something, whatever other accounts of the mint and of other mints there are; a
-- mint without such an account has no balance.
pub get_token_balances-last :
    (mint : String) (accounts : Accounts)
    → balance_in mint (get_token_balances accounts) ≡ last_amount mint accounts
unfolding get_token_balances
get_token_balances-last mint accounts =
    balance_in-add_accounts mint accounts [] ∙ or_else-none (last_amount mint accounts)

-- the mints of a wallet that hold something
abbrev pub held_mints : Accounts → List String
held_mints [] = []
held_mints ((mint, balance) ∷ rest) =
    if is_zero balance then held_mints rest else mint ∷ held_mints rest

drained-mint :
    (mint : String) (balance : ℤ) (r : Result String String) → (drained mint balance r).mint ≡ mint
drained-mint mint balance (ok sig) = refl
drained-mint mint balance (err message) = refl

drain_each-mints :
    (send : String → ℤ → Result String String) (balances : Accounts)
    → map (λ (r : DrainMintResult). r.mint) (drain_each send balances) ≡ held_mints balances
drain_each-mints send [] = refl
drain_each-mints send ((mint, balance) ∷ rest) =
    ground (arith, drain_each-mints send rest, drained-mint mint balance (send mint balance))

failed_mints-fully_drained :
    (results : List DrainMintResult) → (fully_drained results ≡ true) ↔ (failed_mints results ≡ [])
unfolding fully_drained failed_mints
failed_mints-fully_drained [] = (λ h. refl, λ h. refl)
failed_mints-fully_drained (r ∷ rs) = ground (arith, failed_mints-fully_drained rs)

-- Draining reports on each mint of which the wallet is read to hold something, in order and once, and
-- no other; the wallet counts as fully drained exactly if no mint is reported as failed.
pub drain_wallet-reports :
    (send : String → ℤ → Result String String) (accounts : Accounts)
    → (map (λ (r : DrainMintResult). r.mint) (drain_wallet send accounts)
        ≡ held_mints (get_token_balances accounts))
      × ((fully_drained (drain_wallet send accounts) ≡ true)
          ↔ (failed_mints (drain_wallet send accounts) ≡ []))
unfolding drain_wallet get_token_balances
drain_wallet-reports send accounts = (
  drain_each-mints send (get_token_balances accounts),
  failed_mints-fully_drained (drain_each send (get_token_balances accounts)),
)
