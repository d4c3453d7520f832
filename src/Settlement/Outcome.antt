-- ===== src/Settlement/Outcome.antt =====
-- The winner that a settlement writes, and that it settles once.
use proof_arena.Base.{
  ℕ, ◌≡◌, inl, inr, refl, sym, ap, ◌∙◌, subst, Bool, true, false, Option, none, some, List, [], ◌∷◌,
  ◌++◌, map, arith, find, Bool-cases, ◌==◌, number_equality, if◌then◌else◌, eq_refl_true, All,
  All-append, All-imp, In,
}
use proof_arena.Base.Result.{ok, err}
use proof_arena.Db.{Run, Challenge, ChallengeStatus, Store, get_challenge, runs_of_challenge}
use proof_arena.Integrity.Settlement.{SettlementEligibility, verify_settlement_eligibility}
use proof_arena.Integrity.Settlement.Partition.{IsEligible, verify-partition, verify-All_listed}
use proof_arena.Integrity.Settlement.Winner.{
  Beats, IsAsGood, EndsBefore, EndsBy, determine_winner-best,
}
use proof_arena.Settlement.{
  already_settled, Chain, Written, is_settled, settle_challenge, put_challenge,
}
use proof_arena.Settlement.Settled.{IsSettlement-of_settled}

EndsBy-of_before : (s t : Option ℕ) → EndsBefore s t → EndsBy s t
EndsBy-of_before (some s) (some t) h = omega arith
EndsBy-of_before (some s) none h = tt
EndsBy-of_before none t h = absurd h

EndsBy-refl : (t : Option ℕ) → EndsBy t t
EndsBy-refl none = tt
EndsBy-refl (some t) = omega arith

IsAsGood-of_Beats : (w r : Run) → Beats w r → IsAsGood w r
IsAsGood-of_Beats w r (inl higher) = inl higher
IsAsGood-of_Beats w r (inr (same, earlier)) =
    inr (same, EndsBy-of_before w.ended_at r.ended_at earlier)

All-middle :
    {A : Type 0} (P : A → Type 0) (before after : List A) (a : A)
    → All P (before ++ a ∷ after)
    → P a
All-middle P [] after a h = h.0
All-middle P (b ∷ before) after a h = All-middle P before after a h.1

In-middle : {A : Type 0} (before after : List A) (a : A) → In a (before ++ a ∷ after)
In-middle [] after a = inl refl
In-middle (b ∷ before) after a = inr (In-middle before after a)

find_put :
    (closed : Challenge) (rows : List Challenge) {found : Challenge}
    → find (λ row. row.challenge_id == closed.challenge_id) rows ≡ some found
    → find
        (λ row. row.challenge_id == closed.challenge_id)
        (map (λ row. if row.challenge_id == closed.challenge_id then closed else row) rows)
      ≡ some closed
find_put closed [] h = absurd (cc)
find_put closed (row ∷ rows) h = elim (Bool-cases (row.challenge_id == closed.challenge_id)) [
  | inl same ↦ rw (same, eq_refl_true closed.challenge_id) refl
  | inr other ↦ rw (other, find_put closed rows (rw other at h)) (rw other refl)
]

find_key :
    (key : ℕ) (rows : List Challenge) {found : Challenge}
    → find (λ row. row.challenge_id == key) rows ≡ some found
    → found.challenge_id ≡ key
find_key key [] h = absurd (cc)
find_key key (row ∷ rows) {found} h = ground (arith, find_key key rows {found = found})

module _ (chain : Chain) where
  -- A settlement that is committed names the agent of a run of the challenge that stands among the
  -- eligible ones and is as good as each of them: none has a higher ending value, nor the same
  -- value with an earlier end. The challenge is then completed, and it was not settled before.
  pub settle_challenge-winner :
      (has_program : Bool) (db : Store) (prev_wins : ℕ → ℕ) (now challenge_id : ℕ)
      {closed : Challenge} {out : Written}
      → settle_challenge chain has_program db prev_wins now challenge_id ≡ ok (closed, out)
      → (w : Run) × (e : SettlementEligibility) × (c : Challenge) × (verify_settlement_eligibility
            db challenge_id
          ≡ ok e)
        × (get_challenge db challenge_id ≡ some c)
        × (is_settled c ≡ false)
        × In w (runs_of_challenge db challenge_id)
        × In w e.eligible
        × IsEligible w
        × All (IsAsGood w) e.eligible
        × (closed.winner_agent_id ≡ some w.agent_id)
        × (closed.status ≡ ChallengeStatus.completed)
  settle_challenge-winner has_program db prev_wins now challenge_id h =
      let s = IsSettlement-of_settled chain has_program db prev_wins now challenge_id h in
      let (before, after, split, worse, no_better) =
        determine_winner-best s.eligibility.eligible s.winner_is in
      let (good, bad, perm, expected) = verify-partition db challenge_id s.verified in
      (
        s.winner,
        s.eligibility,
        s.challenge,
        s.verified,
        s.found,
        s.unsettled,
        All-middle (λ run. In run (runs_of_challenge db challenge_id)) before after s.winner
            (subst (All (λ run. In run (runs_of_challenge db challenge_id))) split
              (verify-All_listed db challenge_id s.verified)),
        subst (In s.winner) (sym split) (In-middle before after s.winner),
        All-middle IsEligible before after s.winner (subst (All IsEligible) split good),
        subst (All (IsAsGood s.winner)) (sym split) (
            All-append (IsAsGood s.winner) before (s.winner ∷ after)
              (All-imp (Beats s.winner) _ before (IsAsGood-of_Beats s.winner) worse)
              (inr (refl, EndsBy-refl s.winner.ended_at), no_better)),
        ap (λ (c : Challenge). c.winner_agent_id) s.closed_is,
        ap (λ (c : Challenge). c.status) s.closed_is,
      )

  -- A challenge is settled once: with the committed row stored, settling it again is refused,
  -- whatever the ranks and the time are by then.
  pub settle_challenge-once :
      (has_program : Bool) (db : Store) (prev_wins later_wins : ℕ → ℕ) (now later challenge_id : ℕ)
      {closed : Challenge} {out : Written}
      → settle_challenge chain has_program db prev_wins now challenge_id ≡ ok (closed, out)
      → settle_challenge chain true (put_challenge closed db) later_wins later challenge_id
        ≡ err already_settled
  unfolding settle_challenge
  settle_challenge-once has_program db prev_wins later_wins now later challenge_id {closed} h =
      let s = IsSettlement-of_settled chain has_program db prev_wins now challenge_id h in
      let key : closed.challenge_id ≡ challenge_id =
        ap (λ (c : Challenge). c.challenge_id) s.closed_is
        ∙ find_key challenge_id db.challenges s.found in
      let stored : get_challenge (put_challenge closed db) challenge_id ≡ some closed =
        subst
          (λ key.
            find (λ row. row.challenge_id == key) (put_challenge closed db).challenges
            ≡ some closed)
          key
          (find_put closed db.challenges (
            subst (λ key. find (λ row. row.challenge_id == key) db.challenges ≡ some s.challenge)
              (sym key) s.found)) in
      rw (stored, s.closed_is) refl
