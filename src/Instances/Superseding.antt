-- ===== src/Instances/Superseding.antt =====
-- What an update of the configuration writes.
use proof_arena.Base.{
  find-append, ℕ, ◌≡◌, ◌≢◌, ◌<◌, ◌⊎◌, inl, inr, refl, sym, ap, ◌∙◌, subst, true, false, none, some,
  [], ◌∷◌, arith, ◌==◌, number_equality, nat_beq, nat_beq_iff, find, if_true, if_false, Bool-cases,
}
use proof_arena.Base.Json.{Json, obj}
use proof_arena.Base.PythonEquality.{same_json}
use proof_arena.Base.Result.{Result, ok, err, bind-ok, ok-injective}
use proof_arena.Db.{AgentInstance, AgentTemplate, SagaStatus, Store, get_instance, get_template}
use proof_arena.Instances.{Outside, DeployError, deploy_instance}
use proof_arena.Instances.Update.{
  UpdateError, UpdateCall, is_live, write_row, or_raise, check_head, deploy_call, superseded_by,
  on_redeployed, update_instance_config,
}
use proof_arena.Instances.Standing.{IsFresh}
use proof_arena.Instances.Kept.{All-find}
use proof_arena.Instances.Sound.{deploy_instance-row, get_instance-own}
use proof_arena.Instances.Updated.{check_head-ok, or_raise-ok}
use proof_arena.Instances.Platform.{fresh_found}
use proof_arena.Instances.Found.{is_live_iff, get_instance-write_row, get_instance-write_row_other}

-- the two ends of an update, where the configuration is the same and where it is another
abbrev pub IsUnchanged : Store → AgentInstance → Store → AgentInstance → Type 0
IsUnchanged db old db' row = (db' ≡ db) × (row ≡ old)

abbrev pub IsReplaced : UpdateCall → AgentInstance → Store → AgentInstance → Type 0
IsReplaced call old db' row =
    (row.instance_id ≡ call.new_instance_id)
    × (row.instance_owner_ref ≡ old.instance_owner_ref)
    × (get_instance db' call.new_instance_id ≡ some row)
    × (((row.status ≡ SagaStatus.live)
          × (get_instance db' call.instance_id ≡ some (superseded_by call.new_instance_id old)))
        ⊎ ((row.status ≢ SagaStatus.live) × (get_instance db' call.instance_id ≡ some old)))

module _ (o : Outside) (db : Store) (call : UpdateCall)
    (fresh : IsFresh call.new_instance_id db) where
  on_redeployed-IsReplaced :
      (old : AgentInstance) (template : AgentTemplate)
      (r : Result DeployError (Store × AgentInstance)) {db' : Store} {row : AgentInstance}
      → get_instance db call.instance_id ≡ some old
      → old.instance_id ≡ call.instance_id
      → deploy_instance o db (deploy_call call old template) ≡ r
      → on_redeployed old r ≡ ok (db', row)
      → IsReplaced call old db' row
  on_redeployed-IsReplaced old template (err e) found own deployed h = absurd (cc)
  on_redeployed-IsReplaced old template (ok (db1, new)) {db'} {row} found own deployed h =
      let (added, key, owner) = deploy_instance-row o db (deploy_call call old template) deployed in
      let before : call.instance_id < call.new_instance_id =
        subst (λ (k : ℕ). k < call.new_instance_id) own
          (All-find (λ (r : AgentInstance). r.instance_id < call.new_instance_id)
            (λ (r : AgentInstance). r.instance_id == call.instance_id) db.instances fresh
            found).0 in
      let old_found : get_instance db1 call.instance_id ≡ some old =
        ap (find (λ (r : AgentInstance). r.instance_id == call.instance_id)) added
        ∙ find-append _ db.instances (new ∷ []) found in
      let new_found : get_instance db1 call.new_instance_id ≡ some new =
        subst (λ (k : ℕ). get_instance db1 k ≡ some new) key
          (fresh_found db db1 new (subst (λ (k : ℕ). IsFresh k db) (sym key) fresh) added) in
      elim (Bool-cases (is_live new.status)) [
        | inl live ↦
            let same = ok-injective (sym (if_true _ _ (is_live new.status) live) ∙ h) in
            let older = superseded_by new.instance_id old in
            let apart : nat_beq older.instance_id call.new_instance_id ≡ false =
              ground (arith, nat_beq_iff old.instance_id call.new_instance_id, own, before) in
            subst (λ (out : Store × AgentInstance). IsReplaced call old out.0 out.1) same
              (
                key,
                owner,
                get_instance-write_row_other db1 call.new_instance_id older apart ∙ new_found,
                inl (
                  (is_live_iff new.status).0 live,
                  subst
                      (λ (k : ℕ).
                        get_instance (write_row db1 older) k
                        ≡ some (superseded_by call.new_instance_id old))
                      own
                      (get_instance-write_row db1 older old
                          (subst (λ (k : ℕ). get_instance db1 k ≡ some old) (sym own) old_found)
                        ∙ ap (λ k. some (superseded_by k old)) key),
                ),
              )
        | inr dead ↦
            subst (λ (out : Store × AgentInstance). IsReplaced call old out.0 out.1)
              (ok-injective (sym (if_false _ _ (is_live new.status) dead) ∙ h))
              (
                key,
                owner,
                new_found,
                inr (λ live. absurd (cc ((is_live_iff new.status).1 live)), old_found),
              )
      ]

-- An update that returns read an instance that nothing supersedes. Where the new configuration equals
-- the stored one, nothing is written and the instance is returned. Otherwise the instance that is
-- returned is stored under the new key, for the same owner; and the old one points to it exactly if it
-- is live, and is as it was otherwise.
pub update_instance_config-supersedes :
    (o : Outside) (db : Store) (call : UpdateCall) {db' : Store} {row : AgentInstance}
    → IsFresh call.new_instance_id db
    → update_instance_config o db call ≡ ok (db', row)
    → (old : AgentInstance) × (old_config : Json) × (get_instance db call.instance_id ≡ some old)
      × (old.superseded_by_instance_id ≡ none)
      × (o.loads old.effective_config_json ≡ some old_config)
      × (((same_json (obj call.new_config) old_config ≡ true) × IsUnchanged db old db' row)
          ⊎ ((same_json (obj call.new_config) old_config ≡ false) × IsReplaced call old db' row))
unfolding update_instance_config
update_instance_config-supersedes o db call {db'} {row} fresh h =
    let (found, read, h1) =
      bind-ok (or_raise UpdateError.instance_not_found (get_instance db call.instance_id)) _ h in
    let (old, head, h2) = bind-ok (check_head found found.superseded_by_instance_id) _ h1 in
    let (old_config, loaded, h3) =
      bind-ok (or_raise UpdateError.bad_stored_config (o.loads old.effective_config_json)) _ h2 in
    let (same, is_head) = check_head-ok found found.superseded_by_instance_id head in
    let stored : get_instance db call.instance_id ≡ some old =
      or_raise-ok _ _ read ∙ ap some same in
    let (own, found_again) = get_instance-own db call.instance_id stored in
    (
      old,
      old_config,
      stored,
      subst (λ (r : AgentInstance). r.superseded_by_instance_id ≡ none) same is_head,
      or_raise-ok _ _ loaded,
      elim (Bool-cases (same_json (obj call.new_config) old_config)) [
        | inl unchanged ↦
            let is_same =
              ok-injective
                (sym (if_true _ _ (same_json (obj call.new_config) old_config) unchanged) ∙ h3) in
            inl (
              unchanged,
              (
                sym (ap (λ (out : Store × AgentInstance). out.0) is_same),
                sym (ap (λ (out : Store × AgentInstance). out.1) is_same),
              ),
            )
        | inr changed ↦
            let h4 = sym (if_false _ _ (same_json (obj call.new_config) old_config) changed) ∙ h3 in
            let (template, resolved, h5) =
              bind-ok (or_raise UpdateError.template_not_found (get_template db old.template_id)) _
                h4 in
            inr (
              changed,
              on_redeployed-IsReplaced o db call fresh old template
                  (deploy_instance o db (deploy_call call old template)) stored own refl h5,
            )
      ],
    )
