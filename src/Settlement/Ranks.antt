-- ===== src/Settlement/Ranks.antt =====
-- The rank snapshots that a settlement adds, and the rank accounts that it touches.
use proof_arena.Base.{
  ℕ, ◌≡◌, refl, sym, ap, ◌∙◌, subst, Bool, true, false, Option, none, some, List, [], ◌∷◌, ◌++◌,
  map, arith, length, if_cases, All, All-append, String, nonempty,
}
use mathlib.Core.List.{map-append, append_assoc, append-nil}
use proof_arena.Base.Int.{pos, ◌+ℤ◌, ◌-ℤ◌, +ℤ_parts, -ℤ_parts, eq_of_parts}
use proof_arena.Base.Result.{Result, ok, err, bind-ok, ok-injective}
use proof_arena.Db.{Run, Store, get_agent, Challenge, get_challenge}
use proof_arena.Integrity.Settlement.{
  SettlementEligibility, verify_settlement_eligibility, determine_winner,
}
use proof_arena.Settlement.{
  Chain, Written, RankSnapshot, check_challenge, check_eligible, settled_runs, single_kind,
  local_runs, settle_onchain, is_hosted_by, run_of, distinct, history_of, is_agent, compute_rank,
  subject_of, rank_answer, rank_call, sync_rank, address_of, update_rank, update_each, update_ranks,
  settle_challenge, agent_of, record_of,
}
use proof_arena.Settlement.Settled.{check_eligible_ok, single_kind_ok}

-- A snapshot files its agent under the kind of its run, and its wins and losses add up to the
-- agent's terminal runs.
abbrev pub IsRanked : Store → List Run → RankSnapshot → Type 0
IsRanked db runs s =
    (s.subject_type ≡ subject_of (is_hosted_by s.agent_id runs))
    × (s.losses +ℤ pos s.wins ≡ pos (length (history_of db s.agent_id)))

minus_plus : (a b : ℕ) → (pos a -ℤ pos b) +ℤ pos b ≡ pos a
minus_plus a b =
    eq_of_parts _ _ (omega (arith, +ℤ_parts (pos a -ℤ pos b) (pos b), -ℤ_parts (pos a) (pos b)))

module _ (chain : Chain) (db : Store) (prev_wins : ℕ → ℕ) (winner : Option ℕ)
    (runs : List Run) where
  -- what is true of the rows all along
  abbrev IsSound : Written → Type 0
  IsSound out =
      All (IsRanked db runs) out.snapshots × All (λ id. is_hosted_by id runs ≡ false) out.rank_calls

  rank_call-IsSound :
      (run : Option Run) (id : ℕ) (address : String) (key : Option chain.Pubkey) (out : Written)
      → is_hosted_by id runs ≡ false
      → IsSound out
      → IsSound (rank_call chain run id address key out)
        × ((rank_call chain run id address key out).snapshots ≡ out.snapshots)
  rank_call-IsSound run id address none out local sound = (sound, refl)
  rank_call-IsSound run id address (some key) out local sound = answered (chain.update_rank id key)
    where
      answered :
          (answer : Result String (Unit {0}))
          → IsSound (
              rank_answer chain run id answer
                (record out { rank_calls = out.rank_calls ++ id ∷ [] }))
            × ((rank_answer chain run id answer
                  (record out { rank_calls = out.rank_calls ++ id ∷ [] })).snapshots
                ≡ out.snapshots)
      answered (ok done) =
          ((sound.0, All-append _ out.rank_calls (id ∷ []) sound.1 (local, tt)), refl)
      answered (err m) =
          ((sound.0, All-append _ out.rank_calls (id ∷ []) sound.1 (local, tt)), refl)

  sync_rank-IsSound :
      (run : Option Run) (id : ℕ) (address : Option String) (out : Written)
      → is_hosted_by id runs ≡ false
      → IsSound out
      → IsSound (sync_rank chain run id address out)
        × ((sync_rank chain run id address out).snapshots ≡ out.snapshots)
  sync_rank-IsSound run id none out local sound = (sound, refl)
  sync_rank-IsSound run id (some address) out local sound =
      if_cases (λ (o : Written). IsSound o × (o.snapshots ≡ out.snapshots)) (nonempty address)
        (λ filled. rank_call-IsSound run id address (chain.pubkey_of address) out local sound)
        (λ empty. (sound, refl))

  abbrev ids_of : Written → List ℕ
  ids_of out = map (λ (s : RankSnapshot). s.agent_id) out.snapshots

  update_rank-IsSound :
      (id : ℕ) (out : Written)
      → IsSound out
      → IsSound (update_rank chain db prev_wins winner runs id out)
        × (ids_of (update_rank chain db prev_wins winner runs id out) ≡ ids_of out ++ id ∷ [])
  unfolding update_rank compute_rank
  update_rank-IsSound id out sound =
      let snapshot =
        compute_rank id (is_agent winner id) (history_of db id) (prev_wins id)
          (subject_of (is_hosted_by id runs)) in
      let added : Written = record out { snapshots = out.snapshots ++ snapshot ∷ [] } in
      let good : IsSound added = (
        All-append _ out.snapshots (snapshot ∷ []) sound.0
            ((refl, minus_plus (length (history_of db id)) snapshot.wins), tt),
        sound.1,
      ) in
      let named : ids_of added ≡ ids_of out ++ id ∷ [] =
        map-append (λ (s : RankSnapshot). s.agent_id) out.snapshots (snapshot ∷ []) in
      if_cases (λ (o : Written). IsSound o × (ids_of o ≡ ids_of out ++ id ∷ []))
        (is_hosted_by id runs) (λ hosted. (good, named))
        (λ local.
          let (kept, same) =
            sync_rank-IsSound (run_of id runs) id (address_of chain (get_agent db id)) added local
              good in
          (kept, ap (map (λ (s : RankSnapshot). s.agent_id)) same ∙ named))

  update_each-IsSound :
      (ids : List ℕ) (out : Written)
      → IsSound out
      → IsSound (update_each chain db prev_wins winner runs ids out)
        × (ids_of (update_each chain db prev_wins winner runs ids out) ≡ ids_of out ++ ids)
  unfolding update_each
  update_each-IsSound [] out sound = (sound, sym (append-nil (ids_of out)))
  update_each-IsSound (id ∷ ids) out sound =
      let (good, named) = update_rank-IsSound id out sound in
      let (last, all_named) =
        update_each-IsSound ids (update_rank chain db prev_wins winner runs id out) good in
      (last, all_named ∙ ap (λ xs. xs ++ ids) named ∙ append_assoc (ids_of out) (id ∷ []) ids)

-- what a settlement of these runs leaves in the rank tables
abbrev pub AreRanked : Store → List Run → Written → Type 0
AreRanked db runs out =
    (map (λ (s : RankSnapshot). s.agent_id) out.snapshots
      ≡ distinct (map (λ (run : Run). run.agent_id) runs))
    × All (IsRanked db runs) out.snapshots
    × All (λ id. is_hosted_by id runs ≡ false) out.rank_calls

-- A settlement that is committed adds one snapshot for each agent that has a run in the challenge.
-- It files the agent of a hosted run as a customized instance and any other as a canonical template;
-- wins and losses add up to the agent's terminal runs; and the program is never asked to update the
-- rank account of an agent whose run was hosted.
pub settle_challenge-AreRanked :
    (chain : Chain) (has_program : Bool) (db : Store) (prev_wins : ℕ → ℕ) (now challenge_id : ℕ)
    {closed : Challenge} {out : Written}
    → settle_challenge chain has_program db prev_wins now challenge_id ≡ ok (closed, out)
    → (e : SettlementEligibility) × (verify_settlement_eligibility db challenge_id ≡ ok e)
      × AreRanked db (settled_runs e) out
unfolding settle_challenge
settle_challenge-AreRanked chain false db prev_wins now challenge_id h = absurd (cc)
settle_challenge-AreRanked chain true db prev_wins now challenge_id {closed} {out} h =
    let (challenge, open_challenge, h') =
      bind-ok (check_challenge (get_challenge db challenge_id)) _ h in
    let (e, eligible, h'') =
      bind-ok (check_eligible (verify_settlement_eligibility db challenge_id)) _ h' in
    let winner = determine_winner e.eligible in
    let (runs, single, h''') = bind-ok (single_kind (settled_runs e)) _ h'' in
    let (onchain, settled, last) =
      bind-ok (settle_onchain chain challenge_id winner (local_runs runs)) _ h''' in
    let start : Written = record {
      artifacts = onchain ++ record_of chain now challenge_id winner e.eligible;
      snapshots = [];
      rank_calls = [];
    } in
    let ((ranked, local), named) =
      update_each-IsSound chain db prev_wins (agent_of winner) runs
        (distinct (map (λ (run : Run). run.agent_id) runs)) start (tt, tt) in
    let written : update_ranks chain db prev_wins (agent_of winner) runs start ≡ out =
      ap (λ (r : Challenge × Written). r.1) (ok-injective last) in
    (
      e,
      (check_eligible_ok (verify_settlement_eligibility db challenge_id) eligible).0,
      subst (λ runs. AreRanked db runs out) (sym (single_kind_ok (settled_runs e) single).0)
          (subst (AreRanked db runs) written (named, ranked, local)),
    )
