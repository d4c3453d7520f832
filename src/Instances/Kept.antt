-- ===== src/Instances/Kept.antt =====
-- What a row that is added, and a row that is written back, leaves sound.
use proof_arena.Base.{
  ℕ, ◌≡◌, sym, subst, String, Bool, true, Option, none, some, List, [], ◌∷◌, ◌++◌, arith, All,
  All-append, All-imp, ◌==◌, number_equality, find, is_some, if_cases, inl, inr, Bool-cases,
}
use proof_arena.Db.{AgentInstance, Store, get_instance}
use proof_arena.Instances.{Rows, commit}
use proof_arena.Instances.Update.{replace, write_row}
use proof_arena.Instances.Standing.{
  Artifacts, Stands, IsLabelled, IsOwned, Follows, IsSound, AreSound, Stands-append, IsOwned-append,
  IsOwned-replace,
}

-- what is found passes the test, and what holds of all holds of it
pub All-find :
    {A : Type 0} (P : A → Type 0) (test : A → Bool) (xs : List A) {x : A}
    → All P xs
    → find test xs ≡ some x
    → P x × (test x ≡ true)
All-find P test [] h found = absurd (cc)
All-find P test (y ∷ ys) {x} h found = elim (Bool-cases (test y)) [
  | inl e ↦
      let same : y ≡ x = ground (arith, found) in subst (λ z. P z × (test z ≡ true)) same (h.0, e)
  | inr e ↦ All-find P test ys h.1 (ground (arith, found))
]

Follows-keep :
    (rows rows' : List AgentInstance)
    → ((key : ℕ) (owner : String) → IsOwned key owner rows → IsOwned key owner rows')
    → (id : ℕ) (owner : String) (o : Option ℕ) → Follows rows id owner o
    → Follows rows' id owner o
Follows-keep rows rows' keep id owner none f = tt
Follows-keep rows rows' keep id owner (some key) f = (f.0, keep key owner f.1)

Follows-at :
    (rows : List AgentInstance) (id id' : ℕ) (owner owner' : String) (o o' : Option ℕ)
    → id' ≡ id
    → owner' ≡ owner
    → o' ≡ o
    → Follows rows id owner o
    → Follows rows id' owner' o'
Follows-at rows id id' owner owner' o o' e f g h = rw (e, f, g) h

module _ (sha256 : String → String) where
  -- more artifacts, and rows among which nothing that is pointed at is lost
  IsSound-grow :
      (artifacts more : Artifacts) (rows rows' : List AgentInstance)
      → ((key : ℕ) (owner : String) → IsOwned key owner rows → IsOwned key owner rows')
      → (r : AgentInstance) → IsSound sha256 artifacts rows r
      → IsSound sha256 (artifacts ++ more) rows' r
  IsSound-grow artifacts more rows rows' keep r h = record {
    stands =
        Stands-append sha256 more artifacts r.status r.last_failure_reason r.runtime_handle_json
          r.consent_artifact_id h.stands;
    has_wallet = h.has_wallet;
    labelled = h.labelled;
    follows =
        Follows-keep rows rows' keep r.instance_id r.instance_owner_ref r.superseded_by_instance_id
          h.follows;
  }

  -- one row more
  pub commit-AreSound :
      (db : Store) (rows : Rows)
      → AreSound sha256 db
      → IsSound sha256 (db.artifacts ++ rows.1) (db.instances ++ rows.0 ∷ []) rows.0
      → AreSound sha256 (commit db rows).0
  commit-AreSound db (row, artifacts) sound new =
      All-append _ db.instances (row ∷ [])
        (All-imp _ _ db.instances
          (IsSound-grow db.artifacts artifacts db.instances (db.instances ++ row ∷ [])
            (λ key owner h. IsOwned-append key owner db.instances (row ∷ []) h))
          sound)
        (new, tt)

  All-replace :
      (P : AgentInstance → Type 0) (key : ℕ) (row : AgentInstance) (rows : List AgentInstance)
      → All P rows
      → P row
      → All P (replace key row rows)
  All-replace P key row [] h p = tt
  All-replace P key row (r ∷ rs) h p =
      if_cases (All P) (r.instance_id == key) (λ here. (p, h.1))
        (λ later. (h.0, All-replace P key row rs h.1 p))

  -- a row that is written back, with more artifacts
  pub write_row-AreSound :
      (db : Store) (more : Artifacts) (row old : AgentInstance)
      → get_instance db row.instance_id ≡ some old
      → row.instance_owner_ref ≡ old.instance_owner_ref
      → AreSound sha256 db
      → IsSound sha256 (db.artifacts ++ more) (replace row.instance_id row db.instances) row
      → AreSound sha256 (record (write_row db row) { artifacts = db.artifacts ++ more })
  write_row-AreSound db more row old found same sound new =
      All-replace (IsSound sha256 (db.artifacts ++ more) (replace row.instance_id row db.instances))
        row.instance_id row db.instances
        (All-imp _ _ db.instances
          (IsSound-grow db.artifacts more db.instances (replace row.instance_id row db.instances)
            (λ key owner h. IsOwned-replace key owner row old db.instances found same h))
          sound)
        new

  -- a row that is written back with the key, the owner and the successor that it had
  pub rewrite-AreSound :
      (db : Store) (more : Artifacts) (row old : AgentInstance)
      → get_instance db old.instance_id ≡ some old
      → row.instance_id ≡ old.instance_id
      → row.instance_owner_ref ≡ old.instance_owner_ref
      → row.superseded_by_instance_id ≡ old.superseded_by_instance_id
      → Stands sha256
          (db.artifacts ++ more)
          row.status
          row.last_failure_reason
          row.runtime_handle_json
          row.consent_artifact_id
      → (is_some row.wallet_address ≡ true) × (is_some row.hosted_wallet_ref ≡ true)
      → IsLabelled row.trust_label row.instance_owner_ref
      → AreSound sha256 db
      → AreSound sha256 (record (write_row db row) { artifacts = db.artifacts ++ more })
  rewrite-AreSound db more row old found key owner successor stands wallet labelled sound =
      let was =
        (All-find (IsSound sha256 db.artifacts db.instances)
          (λ (r : AgentInstance). r.instance_id == old.instance_id) db.instances sound found).0 in
      let found' = subst (λ (k : ℕ). get_instance db k ≡ some old) (sym key) found in
      let rows = replace row.instance_id row db.instances in
      write_row-AreSound db more row old found' owner sound (record {
        stands = stands;
        has_wallet = wallet;
        labelled = labelled;
        follows =
            Follows-at rows old.instance_id row.instance_id old.instance_owner_ref
              row.instance_owner_ref old.superseded_by_instance_id row.superseded_by_instance_id key
              owner successor
              (Follows-keep db.instances rows
                (λ k who h. IsOwned-replace k who row old db.instances found' owner h)
                old.instance_id old.instance_owner_ref old.superseded_by_instance_id was.follows);
      })
