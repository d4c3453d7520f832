-- ===== src/Instances/Updated.antt =====
-- An update of the configuration leaves the stored instances sound.
use proof_arena.Base.{
  find-append, ℕ, ◌≡◌, ◌<◌, refl, sym, ap, ◌∙◌, subst, String, Option, none, some, [], ◌∷◌, ◌++◌,
  arith, ◌==◌, number_equality, find, if_true, if_false, Bool-cases, inl, inr,
}
use proof_arena.Base.Json.{obj}
use proof_arena.Base.PythonEquality.{same_json}
use proof_arena.Base.Result.{Result, ok, err, bind-ok, ok-injective}
use proof_arena.Db.{AgentInstance, AgentTemplate, Store, get_instance, get_template}
use proof_arena.Instances.{Outside, DeployError, deploy_instance}
use proof_arena.Instances.Update.{
  UpdateError, UpdateCall, is_live, write_row, or_raise, check_head, deploy_call, superseded_by,
  on_redeployed, update_instance_config,
}
use proof_arena.Instances.Standing.{IsSound, AreSound, IsFresh, IsOwned-last, IsOwned-replace}
use proof_arena.Instances.Kept.{All-find}
use proof_arena.Instances.Sound.{
  deploy_instance-AreSound, deploy_instance-row, write_row-AreSound_alone, get_instance-own,
}

module _ (sha256 : String → String) (db db' : Store) (old row : AgentInstance)
    (found : get_instance db old.instance_id ≡ some old)
    (added : db'.instances ≡ db.instances ++ row ∷ [])
    (same_owner : row.instance_owner_ref ≡ old.instance_owner_ref)
    (later : old.instance_id < row.instance_id) where
  still_found : get_instance db' old.instance_id ≡ some old
  still_found =
      ap (find (λ (r : AgentInstance). r.instance_id == old.instance_id)) added
      ∙ find-append _ db.instances (row ∷ []) found

  supersede-AreSound :
      AreSound sha256 db' → AreSound sha256 (write_row db' (superseded_by row.instance_id old))
  supersede-AreSound sound =
      let was =
        (All-find (IsSound sha256 db'.artifacts db'.instances)
          (λ (r : AgentInstance). r.instance_id == old.instance_id) db'.instances sound
          still_found).0 in
      write_row-AreSound_alone sha256 db' (superseded_by row.instance_id old) old still_found refl
        sound
        (record {
          stands = was.stands;
          has_wallet = was.has_wallet;
          labelled = was.labelled;
          follows = (
            later,
            IsOwned-replace row.instance_id old.instance_owner_ref
                (superseded_by row.instance_id old) old db'.instances still_found refl
                (rw (added, ← same_owner) (IsOwned-last row db.instances)),
          );
        })

pub or_raise-ok :
    {A : Type 0} (e : UpdateError) (o : Option A) {a : A} → or_raise e o ≡ ok a → o ≡ some a
or_raise-ok e none h = absurd (cc)
or_raise-ok e (some a) h = ap some (ok-injective h)

pub check_head-ok :
    (found : AgentInstance) (o : Option ℕ) {old : AgentInstance}
    → check_head found o ≡ ok old
    → (found ≡ old) × (o ≡ none)
check_head-ok found none h = (ok-injective h, refl)
check_head-ok found (some k) h = absurd (cc)

module _ (o : Outside) (db : Store) (call : UpdateCall) (fresh : IsFresh call.new_instance_id db)
    (sound : AreSound o.sha256 db) where
  on_redeployed-AreSound :
      (old : AgentInstance) (template : AgentTemplate)
      (r : Result DeployError (Store × AgentInstance)) {out : Store × AgentInstance}
      → get_instance db old.instance_id ≡ some old
      → deploy_instance o db (deploy_call call old template) ≡ r
      → on_redeployed old r ≡ ok out
      → AreSound o.sha256 out.0
  on_redeployed-AreSound old template (err e) found deployed h = absurd (cc)
  on_redeployed-AreSound old template (ok (db', row)) found deployed h =
      let (added, key, owner) = deploy_instance-row o db (deploy_call call old template) deployed in
      let sound' = deploy_instance-AreSound o db (deploy_call call old template) deployed sound in
      let before : old.instance_id < call.new_instance_id =
        (All-find (λ (r : AgentInstance). r.instance_id < call.new_instance_id)
          (λ (r : AgentInstance). r.instance_id == old.instance_id) db.instances fresh found).0 in
      let later : old.instance_id < row.instance_id = omega (arith, key) in
      elim (Bool-cases (is_live row.status)) [
        | inl live ↦
            let same = ok-injective (sym (if_true _ _ (is_live row.status) live) ∙ h) in
            subst (λ (out : Store × AgentInstance). AreSound o.sha256 out.0) same
              (supersede-AreSound o.sha256 db db' old row found added owner later sound')
        | inr dead ↦
            let same = ok-injective (sym (if_false _ _ (is_live row.status) dead) ∙ h) in
            subst (λ (out : Store × AgentInstance). AreSound o.sha256 out.0) same sound'
      ]

  pub update_instance_config-AreSound :
      {db' : Store} {row : AgentInstance}
      → update_instance_config o db call ≡ ok (db', row)
      → AreSound o.sha256 db'
  unfolding update_instance_config
  update_instance_config-AreSound {db'} {row} h =
      let (found, read, h1) =
        bind-ok (or_raise UpdateError.instance_not_found (get_instance db call.instance_id)) _ h in
      let (old, head, h2) = bind-ok (check_head found found.superseded_by_instance_id) _ h1 in
      let (old_config, loaded, h3) =
        bind-ok (or_raise UpdateError.bad_stored_config (o.loads old.effective_config_json)) _ h2 in
      let (same, is_head) = check_head-ok found found.superseded_by_instance_id head in
      let stored : get_instance db call.instance_id ≡ some old =
        or_raise-ok _ _ read ∙ ap some same in
      let (own, found_again) = get_instance-own db call.instance_id stored in
      elim (Bool-cases (same_json (obj call.new_config) old_config)) [
        | inl unchanged ↦
            let is_same =
              ok-injective
                (sym (if_true _ _ (same_json (obj call.new_config) old_config) unchanged) ∙ h3) in
            subst (λ (out : Store × AgentInstance). AreSound o.sha256 out.0) is_same sound
        | inr changed ↦
            let h4 = sym (if_false _ _ (same_json (obj call.new_config) old_config) changed) ∙ h3 in
            let (template, resolved, h5) =
              bind-ok (or_raise UpdateError.template_not_found (get_template db old.template_id)) _
                h4 in
            on_redeployed-AreSound old template
              (deploy_instance o db (deploy_call call old template)) found_again refl h5
      ]
