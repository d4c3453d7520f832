-- ===== src/Cats/Access.antt =====
-- Which runs get a verdict, and who gets to see it.
use proof_arena.Base.{
  if◌then◌else◌, ℕ, ◌≡◌, ◌≢◌, ◌↔◌, ◌⊎◌, inl, inr, refl, sym, ap, subst, ◌∙◌, true, Option, none,
  some, String, arith, is_some, text_equality,
}
use package.text.Mathlib.TextEquality.{eq_iff}
use proof_arena.Base.Result.{Result, ok, err, Result-cases, bind-ok}
use proof_arena.Db.{
  Run, Agent, AgentInstance, ProviderType, TrustLabel, SagaStatus, RunInvalidReason,
  CompletionStatus, Store, get_run, get_agent, get_instance,
}
use proof_arena.Cats.{
  Bridge, CatError, or_unresolvable, or_not_found, bridged_id, resolve_instance, check_run,
  check_instance, resolve_run_and_instance, WalletSafetyCatResponse, compute_wallet_safety_cat,
  Response, verdict, answer, needs_owner, for_owner, guarded, get_wallet_safety_cat,
}

-- The run is final and hosted, and its agent stands for an instance that is live and not external.
abbrev pub IsResolved : Bridge → Store → ℕ → Run → Agent → AgentInstance → Type 0
IsResolved bridge db run_id run agent inst =
    (get_run db run_id ≡ some run)
    × ((s : CompletionStatus) × (run.completion_status ≡ some s))
    × (run.provider_type ≡ ProviderType.hosted_instance)
    × (get_agent db run.agent_id ≡ some agent)
    × ((id : ℕ) × (bridged_id bridge agent ≡ some id) × (get_instance db id ≡ some inst))
    × (inst.trust_label ≢ TrustLabel.external_custom_runtime)
    × (inst.status ≡ SagaStatus.live)

or_unresolvable_ok : {A : Type 0} (o : Option A) {a : A} → or_unresolvable o ≡ ok a → o ≡ some a
or_unresolvable_ok none h = absurd (cc)
or_unresolvable_ok (some a) h = cc

or_not_found_ok : (o : Option Run) {run : Run} → or_not_found o ≡ ok run → o ≡ some run
or_not_found_ok none h = absurd (cc)
or_not_found_ok (some run) h = cc

final_status :
    (o : Option CompletionStatus) → is_some o ≡ true → (s : CompletionStatus) × (o ≡ some s)
final_status none h = absurd (cc)
final_status (some s) h = (s, refl)

-- what the gates on a run let through
check_run_ok :
    (found : Run) {run : Run}
    → check_run found ≡ ok run
    → (found ≡ run)
      × (is_some found.completion_status ≡ true)
      × (found.provider_type ≡ ProviderType.hosted_instance)
check_run_ok found {run} h = ground arith

check_instance_ok :
    (found run : Run) (a agent : Agent) (i inst : AgentInstance)
    → check_instance found (a, i) ≡ ok (run, agent, inst)
    → (found ≡ run)
      × (a ≡ agent)
      × (i ≡ inst)
      × (i.trust_label ≢ TrustLabel.external_custom_runtime)
      × (i.status ≡ SagaStatus.live)
check_instance_ok found run a agent i inst h = ground arith

resolve_instance_ok :
    (bridge : Bridge) (db : Store) (agent_id : ℕ) {agent : Agent} {inst : AgentInstance}
    → resolve_instance bridge db agent_id ≡ ok (agent, inst)
    → (get_agent db agent_id ≡ some agent)
      × ((id : ℕ) × (bridged_id bridge agent ≡ some id) × (get_instance db id ≡ some inst))
unfolding resolve_instance
resolve_instance_ok bridge db agent_id {agent} {inst} h =
    let (a, found_a, h') = bind-ok (or_unresolvable (get_agent db agent_id)) _ h in
    let (id, found_id, h'') = bind-ok (or_unresolvable (bridged_id bridge a)) _ h' in
    let (i, found_i, last) = bind-ok (or_unresolvable (get_instance db id)) _ h'' in
    let same_a : a ≡ agent = cc in
    let same_i : i ≡ inst = cc in
    (
      or_unresolvable_ok _ found_a ∙ ap some same_a,
      (
        id,
        ap (λ x. bridged_id bridge x) (sym same_a) ∙ or_unresolvable_ok _ found_id,
        or_unresolvable_ok _ found_i ∙ ap some same_i,
      ),
    )

pub IsResolved-of_ok :
    (bridge : Bridge) (db : Store) (run_id : ℕ) (run : Run) (agent : Agent) (inst : AgentInstance)
    → resolve_run_and_instance bridge db run_id ≡ ok (run, agent, inst)
    → IsResolved bridge db run_id run agent inst
unfolding resolve_run_and_instance
IsResolved-of_ok bridge db run_id run agent inst h =
    let (found, got, h') = bind-ok (or_not_found (get_run db run_id)) _ h in
    let (passed, gated, h'') = bind-ok (check_run found) _ h' in
    let ((a, i), bridged, last) = bind-ok (resolve_instance bridge db passed.agent_id) _ h'' in
    let (same_found, final, hosted) = check_run_ok found gated in
    let (same_run, same_a, same_i, label, live) =
      check_instance_ok passed run a agent i inst last in
    let (has_agent, has_instance) = resolve_instance_ok bridge db passed.agent_id bridged in
    let resolved : IsResolved bridge db run_id passed a i = (
      or_not_found_ok _ got ∙ ap some same_found,
      final_status passed.completion_status
          (subst (λ r. is_some r.completion_status ≡ true) same_found final),
      subst (λ r. r.provider_type ≡ ProviderType.hosted_instance) same_found hosted,
      has_agent,
      has_instance,
      label,
      live,
    ) in
    subst (λ r. IsResolved bridge db run_id r agent inst) same_run
      (subst (λ r. IsResolved bridge db run_id passed r inst) same_a
        (subst (λ r. IsResolved bridge db run_id passed a r) same_i resolved))

ok_of_IsResolved :
    (bridge : Bridge) (db : Store) (run_id : ℕ) (run : Run) (agent : Agent) (inst : AgentInstance)
    → IsResolved bridge db run_id run agent inst
    → resolve_run_and_instance bridge db run_id ≡ ok (run, agent, inst)
unfolding resolve_run_and_instance resolve_instance
ok_of_IsResolved bridge db run_id run agent inst
      (got, (s, final), hosted, has_agent, (id, named, has), label, live) =
    ground arith

-- who may see a verdict: anyone, unless the instance is a customized one; then its owner
abbrev pub MaySee : Option String → AgentInstance → Type 0
MaySee user inst =
    (inst.trust_label ≢ TrustLabel.benchmark_compatible_customized_instance)
    ⊎ (user ≡ some inst.instance_owner_ref)

for_owner_iff :
    (user : Option String) (owner : String) (response : Response) (r : WalletSafetyCatResponse)
    → (for_owner user owner response ≡ verdict r) ↔ ((user ≡ some owner) × (response ≡ verdict r))
for_owner_iff none owner response r = ground arith
for_owner_iff (some user) owner response r = ground (arith, eq_iff user owner)

guarded_by_label :
    (user : Option String) (owner : String) (response : Response) (r : WalletSafetyCatResponse)
    (label : TrustLabel)
    → ((if needs_owner label then for_owner user owner response else response) ≡ verdict r) ↔ (
        ((label ≢ TrustLabel.benchmark_compatible_customized_instance) ⊎ (user ≡ some owner))
        × (response ≡ verdict r))
guarded_by_label user owner response r TrustLabel.benchmark_compatible_customized_instance =
    let owned = for_owner_iff user owner response r in
    (λ h. (inr (owned.0 h).0, (owned.0 h).1), λ h. owned.1 (is_owner h.0, h.1))
  where
    is_owner :
        (TrustLabel.benchmark_compatible_customized_instance
            ≢ TrustLabel.benchmark_compatible_customized_instance)
          ⊎ (user ≡ some owner)
        → user ≡ some owner
    is_owner (inl other) = absurd (other refl)
    is_owner (inr same) = same
guarded_by_label user owner response r TrustLabel.benchmarked_canonical_template =
    (λ h. (inl (λ e. cc), h), λ h. h.1)
guarded_by_label user owner response r TrustLabel.external_custom_runtime =
    (λ h. (inl (λ e. cc), h), λ h. h.1)

-- The router returns a verdict exactly if the run is final and hosted, its agent stands for an
-- instance that is live and not external, the caller is the owner where the instance is a
-- customized one, and the verdict is the one that is computed.
pub get_wallet_safety_cat-verdict :
    (bridge : Bridge) (critique_for : RunInvalidReason → String) (db : Store) (run_id : ℕ)
    (user : Option String) (r : WalletSafetyCatResponse)
    → (get_wallet_safety_cat bridge critique_for db run_id user ≡ verdict r) ↔ (
        (run : Run) × (agent : Agent) × (inst : AgentInstance) × IsResolved bridge db run_id run
          agent inst
        × MaySee user inst
        × (compute_wallet_safety_cat bridge critique_for db run_id ≡ ok r))
unfolding get_wallet_safety_cat
get_wallet_safety_cat-verdict bridge critique_for db run_id user r = (
  λ h. elim (Result-cases (resolve_run_and_instance bridge db run_id)) [
    | inr (e, refused) ↦ absurd (ground arith)
    | inl ((run, agent, inst), resolved) ↦
        let seen = (guarded_by_label user inst.instance_owner_ref _ r inst.trust_label).0 (
          ap (guarded user (answer (compute_wallet_safety_cat bridge critique_for db run_id)))
            (sym resolved)
          ∙ h) in
        (
          run,
          agent,
          inst,
          IsResolved-of_ok bridge db run_id run agent inst resolved,
          seen.0,
          answer_verdict (compute_wallet_safety_cat bridge critique_for db run_id) seen.1,
        )
  ],
  λ (run, agent, inst, resolved, may_see, computed).
      ap (guarded user (answer (compute_wallet_safety_cat bridge critique_for db run_id)))
        (ok_of_IsResolved bridge db run_id run agent inst resolved)
      ∙ (guarded_by_label user inst.instance_owner_ref _ r inst.trust_label).1
          (may_see, ap answer computed),
)
  where
    answer_verdict :
        (result : Result CatError WalletSafetyCatResponse)
        → answer result ≡ verdict r
        → result ≡ ok r
    answer_verdict (ok response) h = ground arith
    answer_verdict (err e) h = absurd (cc)
