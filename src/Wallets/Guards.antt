-- ===== src/Wallets/Guards.antt =====
-- What leaves for Privy, and on which network.
use proof_arena.Base.{
  ◌≡◌, ◌⊎◌, inl, inr, refl, true, not, List, [], ◌∷◌, String, arith, ◌==◌, text_equality, if_cases,
}
use package.text.Mathlib.TextEquality.{eq_iff}
use proof_arena.Base.Result.{Result, err}
use proof_arena.Wallets.{
  WalletError, WalletService, HostedRequest, HostedAnswer, HostedWallet, read_wallet,
  create_hosted_wallet,
}

-- what a call may answer: it raises and nothing leaves, or one request leaves
abbrev pub Answers :
    WalletService
    → (HostedRequest → HostedAnswer)
    → String
    → String
    → String
    → List HostedRequest × Result WalletError HostedWallet
    → Type 0
Answers s post policy_id key cluster r =
    ((r.0 ≡ []) × ((e : WalletError) × (r.1 ≡ err e)))
    ⊎ ((request : HostedRequest) × (s.cluster ≡ "devnet")
        × (cluster ≡ "devnet")
        × (s.has_signing_service ≡ true)
        × (r.0 ≡ request ∷ [])
        × (r.1 ≡ read_wallet (post request))
        × (request.policy_ids ≡ policy_id ∷ [])
        × (request.owner_public_key ≡ key))

raises :
    (s : WalletService) (post : HostedRequest → HostedAnswer) (policy_id key cluster : String)
    (e : WalletError)
    → Answers s post policy_id key cluster ([], err e)
raises s post policy_id key cluster e = inl (refl, (e, refl))

-- No request for a hosted wallet leaves unless both the service and the call are for devnet and there
-- is a signing service; the one request that then leaves binds the wallet to the given policy alone
-- and to the given owner, and the result is read from its answer. Otherwise the call raises.
pub create_hosted_wallet-requests :
    (s : WalletService) (post : HostedRequest → HostedAnswer)
    (policy_id authorization_pubkey chain_type cluster : String)
    → Answers s post policy_id authorization_pubkey cluster
        (create_hosted_wallet s post policy_id authorization_pubkey chain_type cluster)
unfolding create_hosted_wallet
create_hosted_wallet-requests s post policy_id key chain_type cluster =
    if_cases
      (λ (r : List HostedRequest × Result WalletError HostedWallet).
        Answers s post policy_id key cluster r)
      (not (s.cluster == "devnet")) (λ other. raises s post policy_id key cluster _)
      (λ same.
        if_cases
          (λ (r : List HostedRequest × Result WalletError HostedWallet).
            Answers s post policy_id key cluster r)
          (not (cluster == "devnet")) (λ other. raises s post policy_id key cluster _)
          (λ call.
            if_cases
              (λ (r : List HostedRequest × Result WalletError HostedWallet).
                Answers s post policy_id key cluster r)
              (not s.has_signing_service) (λ missing. raises s post policy_id key cluster _)
              (λ there. inr (
                _,
                ground (arith, eq_iff s.cluster "devnet"),
                ground (arith, eq_iff cluster "devnet"),
                ground arith,
                refl,
                refl,
                refl,
                refl,
              ))))
