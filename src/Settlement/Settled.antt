-- ===== src/Settlement/Settled.antt =====
-- What a settlement that is committed has found and has written of the challenge.
use proof_arena.Base.{
  ℕ, ◌<◌, ◌≡◌, ◌⊎◌, refl, sym, ap, ◌∙◌, Bool, true, false, Option, none, some, List, [], ◌∷◌, arith,
  length, number_equality,
}
use proof_arena.Base.Sorting.{pick, least?, head?-sorted}
use proof_arena.Base.Result.{Result, ok, err, bind-ok, ok-injective}
use proof_arena.Db.{Run, Challenge, Store, get_challenge}
use proof_arena.Integrity.Settlement.{
  SettlementEligibility, VerifyError, verify_settlement_eligibility, can_settle, ranks_before,
  determine_winner,
}
use proof_arena.Settlement.{
  Chain, Written, is_settled, check_challenge, check_eligible, settled_runs, local_runs,
  hosted_runs, is_nonempty, single_kind, settle_onchain, close, settle_challenge,
}

pick-some : (x : Run) (o : Option Run) → (w : Run) × (pick ranks_before x o ≡ some w)
pick-some x none = (x, refl)
pick-some x (some y) = (_, refl)

determine_winner-some :
    (runs : List Run) → 0 < length runs → (w : Run) × (determine_winner runs ≡ some w)
unfolding determine_winner
determine_winner-some [] h = absurd (omega arith)
determine_winner-some (run ∷ runs) h =
    let (w, e) = pick-some run (least? ranks_before runs) in
    (w, head?-sorted ranks_before (run ∷ runs) ∙ e)

some_eligible : (e : SettlementEligibility) → can_settle e ≡ true → 0 < length e.eligible
unfolding can_settle
some_eligible e h = ground arith

check_challenge_ok :
    (o : Option Challenge) {c : Challenge}
    → check_challenge o ≡ ok c
    → (o ≡ some c) × (is_settled c ≡ false)
check_challenge_ok none h = absurd (cc)
check_challenge_ok (some c) h = ground arith

pub check_eligible_ok :
    (r : Result VerifyError SettlementEligibility) {e : SettlementEligibility}
    → check_eligible r ≡ ok e
    → (r ≡ ok e) × (can_settle e ≡ true)
check_eligible_ok (err x) h = absurd (cc)
check_eligible_ok (ok e) h = ground arith

is_nonempty-false : (runs : List Run) → is_nonempty runs ≡ false → runs ≡ []
is_nonempty-false [] h = refl
is_nonempty-false (r ∷ rs) h = absurd (cc)

pub single_kind_ok :
    (runs : List Run) {same : List Run}
    → single_kind runs ≡ ok same
    → (runs ≡ same) × ((local_runs runs ≡ []) ⊎ (hosted_runs runs ≡ []))
single_kind_ok runs h = (
  ground arith,
  ground (arith, is_nonempty-false (local_runs runs), is_nonempty-false (hosted_runs runs)),
)

-- what a settlement rests on, and the challenge that it leaves
pub record IsSettlement (db : Store) (now challenge_id : ℕ) (closed : Challenge) : Type 0 where
  pub challenge : Challenge
  pub eligibility : SettlementEligibility
  pub winner : Run
  pub found : get_challenge db challenge_id ≡ some challenge
  pub unsettled : is_settled challenge ≡ false
  pub verified : verify_settlement_eligibility db challenge_id ≡ ok eligibility
  pub settleable : can_settle eligibility ≡ true
  pub winner_is : determine_winner eligibility.eligible ≡ some winner
  pub closed_is : closed ≡ close now (some winner) challenge
  pub one_kind :
      (local_runs (settled_runs eligibility) ≡ []) ⊎ (hosted_runs (settled_runs eligibility) ≡ [])

module _ (chain : Chain) where
  pub IsSettlement-of_settled :
      (has_program : Bool) (db : Store) (prev_wins : ℕ → ℕ) (now challenge_id : ℕ)
      {closed : Challenge} {out : Written}
      → settle_challenge chain has_program db prev_wins now challenge_id ≡ ok (closed, out)
      → IsSettlement db now challenge_id closed
  unfolding settle_challenge
  IsSettlement-of_settled false db prev_wins now challenge_id h = absurd (cc)
  IsSettlement-of_settled true db prev_wins now challenge_id {closed} {out} h =
      let (challenge, open_challenge, h') =
        bind-ok (check_challenge (get_challenge db challenge_id)) _ h in
      let (e, eligible, h'') =
        bind-ok (check_eligible (verify_settlement_eligibility db challenge_id)) _ h' in
      let (runs, single, h''') = bind-ok (single_kind (settled_runs e)) _ h'' in
      let (onchain, settled, last) =
        bind-ok (settle_onchain chain challenge_id (determine_winner e.eligible) (local_runs runs))
          _ h''' in
      let (found, unsettled) = check_challenge_ok (get_challenge db challenge_id) open_challenge in
      let (verified, settleable) =
        check_eligible_ok (verify_settlement_eligibility db challenge_id) eligible in
      let (w, winner_is) = determine_winner-some e.eligible (some_eligible e settleable) in
      record {
        challenge = challenge;
        eligibility = e;
        winner = w;
        found = found;
        unsettled = unsettled;
        verified = verified;
        settleable = settleable;
        winner_is = winner_is;
        closed_is =
            ap (λ (r : Challenge × Written). r.0) (sym (ok-injective last))
            ∙ ap (λ o. close now o challenge) winner_is;
        one_kind = (single_kind_ok (settled_runs e) single).1;
      }
