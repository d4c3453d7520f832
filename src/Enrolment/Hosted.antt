-- ===== src/Enrolment/Hosted.antt =====
-- Runs of hosted instances: which instance gets one, and under which agent.
use mathlib.Core.Option.{some-injective}
use proof_arena.Base.{
  find-passes, find-snoc, ℕ, ◌≡◌, refl, sym, ap, ◌∙◌, subst, Bool, true, false, ◌&&◌, Option, none,
  some, List, [], ◌∷◌, ◌++◌, arith, find, any, ◌==◌, number_equality, text_equality, eq_refl_true,
}
use proof_arena.Base.Int.{ℤ}
use proof_arena.Base.Result.{ok, bind-ok}
use proof_arena.Db.{
  Run, Agent, AgentInstance, Challenge, RunStatus, ProviderType, SubjectType, SagaStatus, Store,
  get_challenge, get_instance,
}
use proof_arena.Enrolment.{
  instance_not_found, challenge_not_found, missing_challenge_id, Texts, or_err, starting_value,
  new_run, check_live, get_live_instance, is_customized, instance_agent, new_agent, or_insert,
  get_or_create_instance_agent, insert_run, create_run_for_instance,
}
use proof_arena.Enrolment.Start.{or_err_ok}

any-snoc :
    {A : Type 0} (test : A → Bool) (xs : List A) (x : A)
    → test x ≡ true
    → any test (xs ++ x ∷ []) ≡ true
any-snoc test [] x passes = rw passes refl
any-snoc test (y ∷ ys) x passes = ground (arith, any-snoc test ys x passes)

is_customized_iff : (s : SubjectType) → is_customized s ≡ true → s ≡ SubjectType.customized_instance
is_customized_iff SubjectType.customized_instance h = refl
is_customized_iff SubjectType.canonical_template h = absurd (cc)

-- the test on the pair that the unique index covers
abbrev pub taken : ℕ → ℕ → Run → Bool
taken challenge_id agent_id r = r.challenge_id == challenge_id && r.agent_id == agent_id

pub record IsCreated (texts : Texts) (db : Store) (agent_id run_id instance_id : ℕ)
    (challenge_id : Option ℕ) (db' : Store) (run : Run) : Type 0 where
  pub key : ℕ
  pub inst : AgentInstance
  pub challenge : Challenge
  pub agent : Agent
  pub value : ℤ
  pub key_is : challenge_id ≡ some key
  pub live : get_live_instance db instance_id ≡ ok inst
  pub challenge_is : get_challenge db key ≡ some challenge
  pub value_is : starting_value texts challenge ≡ ok value
  pub agent_is : (get_or_create_instance_agent texts db agent_id inst).1 ≡ agent
  pub fresh : any (taken challenge.challenge_id agent.agent_id) db.runs ≡ false
  pub run_is :
      run
      ≡ new_run run_id challenge agent ProviderType.hosted_instance inst.wallet_address
          inst.hosted_wallet_ref RunStatus.pending value
  pub store_is : db' ≡ record (get_or_create_instance_agent texts db agent_id inst).0 {
    runs = db.runs ++ run ∷ [];
  }

module _ (texts : Texts) where
  runs_kept :
      (db : Store) (agent_id : ℕ) (inst : AgentInstance)
      → (get_or_create_instance_agent texts db agent_id inst).0.runs ≡ db.runs
  unfolding get_or_create_instance_agent
  runs_kept db agent_id inst = kept (instance_agent texts db inst.instance_id)
    where
      kept :
          (o : Option Agent) → (or_insert db (new_agent texts db agent_id inst) o).0.runs ≡ db.runs
      kept none = refl
      kept (some a) = refl

  -- the agent that is found or made is the one that the next lookup finds
  agent_found :
      (db : Store) (agent_id : ℕ) (inst : AgentInstance)
      → instance_agent texts
          (get_or_create_instance_agent texts db agent_id inst).0
          inst.instance_id
        ≡ some (get_or_create_instance_agent texts db agent_id inst).1
  unfolding get_or_create_instance_agent
  agent_found db agent_id inst = found (instance_agent texts db inst.instance_id) refl
    where
      found :
          (o : Option Agent)
          → instance_agent texts db inst.instance_id ≡ o
          → instance_agent texts
              (or_insert db (new_agent texts db agent_id inst) o).0
              inst.instance_id
            ≡ some (or_insert db (new_agent texts db agent_id inst) o).1
      found none missing =
          find-snoc _ db.agents (new_agent texts db agent_id inst) missing
            (rw (eq_refl_true (texts.synthetic_key inst.instance_id)) refl)
      found (some a) there = there

  insert_run_ok :
      (db : Store) (run : Run) {db' : Store} {run' : Run}
      → insert_run db run ≡ ok (db', run')
      → (any (taken run.challenge_id run.agent_id) db.runs ≡ false)
        × (run ≡ run')
        × (record db { runs = db.runs ++ run' ∷ [] } ≡ db')
  insert_run_ok db run h = ground arith

  IsCreated-of_ok :
      (db : Store) (agent_id run_id instance_id : ℕ) (challenge_id : Option ℕ) {db' : Store}
      {run : Run}
      → create_run_for_instance texts db agent_id run_id instance_id challenge_id ≡ ok (db', run)
      → IsCreated texts db agent_id run_id instance_id challenge_id db' run
  unfolding create_run_for_instance
  IsCreated-of_ok db agent_id run_id instance_id challenge_id {db'} {run} h =
      let (key, keyed, h1) = bind-ok (or_err missing_challenge_id challenge_id) _ h in
      let (inst, live, h2) = bind-ok (get_live_instance db instance_id) _ h1 in
      let (challenge, found, h3) =
        bind-ok (or_err challenge_not_found (get_challenge db key)) _ h2 in
      let (value, valued, h4) = bind-ok (starting_value texts challenge) _ h3 in
      let (fresh, run_is, store_is) =
        insert_run_ok (get_or_create_instance_agent texts db agent_id inst).0 _ h4 in
      let kept = runs_kept db agent_id inst in
      let agent : Agent = (get_or_create_instance_agent texts db agent_id inst).1 in
      record {
        key = key;
        inst = inst;
        challenge = challenge;
        agent = agent;
        value = value;
        key_is = or_err_ok missing_challenge_id challenge_id keyed;
        live = live;
        challenge_is = or_err_ok challenge_not_found (get_challenge db key) found;
        value_is = valued;
        agent_is = refl;
        fresh =
            subst (λ rows. any (taken challenge.challenge_id agent.agent_id) rows ≡ false) kept
              fresh;
        run_is = sym run_is;
        store_is =
            sym store_is
            ∙ ap
                (λ rows. record (get_or_create_instance_agent texts db agent_id inst).0 {
                  runs = rows ++ run ∷ [];
                })
                kept;
      }

  live_inversion :
      (db : Store) (instance_id : ℕ) {inst : AgentInstance}
      → get_live_instance db instance_id ≡ ok inst
      → (get_instance db instance_id ≡ some inst)
        × (inst.status ≡ SagaStatus.live)
        × (inst.superseded_by_instance_id ≡ none)
  unfolding get_live_instance
  live_inversion db instance_id {inst} h =
      let (found, got, checked) =
        bind-ok (or_err instance_not_found (get_instance db instance_id)) _ h in
      let (same, live, head) = check_live_ok found checked in
      (
        or_err_ok instance_not_found _ got ∙ ap some same,
        subst (λ i. i.status ≡ SagaStatus.live) same live,
        subst (λ i. i.superseded_by_instance_id ≡ none) same head,
      )
    where
      check_live_ok :
          (found : AgentInstance) {i : AgentInstance}
          → check_live found ≡ ok i
          → (found ≡ i)
            × (found.status ≡ SagaStatus.live)
            × (found.superseded_by_instance_id ≡ none)
      check_live_ok found h = ground arith

  customized :
      (db : Store) (id : ℕ) {a : Agent}
      → instance_agent texts db id ≡ some a
      → a.subject_type ≡ SubjectType.customized_instance
  customized db id {a} h =
      let passes =
        find-passes
          (λ (a : Agent). a.privy_user_id == texts.synthetic_key id && is_customized a.subject_type)
          db.agents {x = a} h in
      is_customized_iff a.subject_type (ground arith)

  -- A run that is created for an instance belongs to a stored instance that is live and is not
  -- superseded, takes over its wallet, and is hosted, pending and off the chain. It is the one row
  -- added to the runs, and its agent is the customized one with the key of the instance, which is
  -- stored and had no run in that challenge.
  pub create_run_for_instance-hosted :
      (db : Store) (agent_id run_id instance_id : ℕ) (challenge_id : Option ℕ) {db' : Store}
      {run : Run}
      → create_run_for_instance texts db agent_id run_id instance_id challenge_id ≡ ok (db', run)
      → (inst : AgentInstance) × (agent : Agent) × (get_instance db instance_id ≡ some inst)
        × (inst.status ≡ SagaStatus.live)
        × (inst.superseded_by_instance_id ≡ none)
        × (run.benchmark_wallet_address ≡ inst.wallet_address)
        × (run.benchmark_wallet_ref ≡ inst.hosted_wallet_ref)
        × (run.provider_type ≡ ProviderType.hosted_instance)
        × (run.status ≡ RunStatus.pending)
        × (run.onchain_address ≡ none)
        × (db'.runs ≡ db.runs ++ run ∷ [])
        × (instance_agent texts db' inst.instance_id ≡ some agent)
        × (run.agent_id ≡ agent.agent_id)
        × (agent.subject_type ≡ SubjectType.customized_instance)
        × (any (taken run.challenge_id run.agent_id) db.runs ≡ false)
  create_run_for_instance-hosted db agent_id run_id instance_id challenge_id {db'} {run} h =
      let c = IsCreated-of_ok db agent_id run_id instance_id challenge_id h in
      let (found, live, head) = live_inversion db instance_id c.live in
      let stored : instance_agent texts db' c.inst.instance_id ≡ some c.agent =
        ap (λ store. instance_agent texts store c.inst.instance_id) c.store_is
        ∙ agent_found db agent_id c.inst
        ∙ ap some c.agent_is in
      (
        c.inst,
        c.agent,
        found,
        live,
        head,
        ap (λ (r : Run). r.benchmark_wallet_address) c.run_is,
        ap (λ (r : Run). r.benchmark_wallet_ref) c.run_is,
        ap (λ (r : Run). r.provider_type) c.run_is,
        ap (λ (r : Run). r.status) c.run_is,
        ap (λ (r : Run). r.onchain_address) c.run_is,
        ap (λ (d : Store). d.runs) c.store_is,
        stored,
        ap (λ (r : Run). r.agent_id) c.run_is,
        customized db' c.inst.instance_id stored,
        subst (λ (r : Run). any (taken r.challenge_id r.agent_id) db.runs ≡ false) (sym c.run_is)
            c.fresh,
      )

  instances_kept :
      (db : Store) (agent_id : ℕ) (inst : AgentInstance)
      → (get_or_create_instance_agent texts db agent_id inst).0.instances ≡ db.instances
  unfolding get_or_create_instance_agent
  instances_kept db agent_id inst = kept (instance_agent texts db inst.instance_id)
    where
      kept :
          (o : Option Agent)
          → (or_insert db (new_agent texts db agent_id inst) o).0.instances ≡ db.instances
      kept none = refl
      kept (some a) = refl

  reused :
      (db : Store) (agent_id : ℕ) (inst : AgentInstance) {a : Agent}
      → instance_agent texts db inst.instance_id ≡ some a
      → get_or_create_instance_agent texts db agent_id inst ≡ (db, a)
  unfolding get_or_create_instance_agent
  reused db agent_id inst there = ap (or_insert db (new_agent texts db agent_id inst)) there

  -- An instance's second run reuses the agent of its first: with the first run stored, a run for any
  -- other challenge adds no agent and has the same agent id.
  pub create_run_for_instance-reuses :
      (db : Store) (agent_id run_id later_id later_run_id instance_id : ℕ)
      (first_id second_id : Option ℕ) {db' db'' : Store} {first second : Run}
      → create_run_for_instance texts db agent_id run_id instance_id first_id ≡ ok (db', first)
      → create_run_for_instance texts db' later_id later_run_id instance_id second_id
        ≡ ok (db'', second)
      → (db''.agents ≡ db'.agents) × (second.agent_id ≡ first.agent_id)
  create_run_for_instance-reuses db agent_id run_id later_id later_run_id instance_id first_id
        second_id {db'} {db''} h k =
      let c1 = IsCreated-of_ok db agent_id run_id instance_id first_id h in
      let c2 = IsCreated-of_ok db' later_id later_run_id instance_id second_id k in
      let (found1, live1, head1) = live_inversion db instance_id c1.live in
      let (found2, live2, head2) = live_inversion db' instance_id c2.live in
      let kept : db'.instances ≡ db.instances =
        ap (λ (d : Store). d.instances) c1.store_is ∙ instances_kept db agent_id c1.inst in
      let same : c1.inst ≡ c2.inst = some-injective _ _ (
        sym found1
        ∙ ap (find (λ (row : AgentInstance). row.instance_id == instance_id)) (sym kept)
        ∙ found2) in
      let stored : instance_agent texts db' c1.inst.instance_id ≡ some c1.agent =
        ap (λ store. instance_agent texts store c1.inst.instance_id) c1.store_is
        ∙ agent_found db agent_id c1.inst
        ∙ ap some c1.agent_is in
      let again : get_or_create_instance_agent texts db' later_id c2.inst ≡ (db', c1.agent) =
        reused db' later_id c2.inst (
          subst (λ (i : AgentInstance). instance_agent texts db' i.instance_id ≡ some c1.agent) same
            stored) in
      let same_agent : c2.agent ≡ c1.agent =
        sym c2.agent_is ∙ ap (λ (p : Store × Agent). p.1) again in
      (
        ap (λ (d : Store). d.agents) c2.store_is ∙ ap (λ (p : Store × Agent). p.0.agents) again,
        ap (λ (r : Run). r.agent_id) c2.run_is
            ∙ ap (λ (a : Agent). a.agent_id) same_agent
            ∙ ap (λ (r : Run). r.agent_id) (sym c1.run_is),
      )
