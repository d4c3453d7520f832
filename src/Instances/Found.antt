-- ===== src/Instances/Found.antt =====
-- What a read finds after a row was written back.
use proof_arena.Base.{
  ℕ, ◌≡◌, ◌<◌, refl, ap, true, false, List, [], ◌∷◌, ◌++◌, arith, some, ◌==◌, number_equality,
  nat_beq, nat_beq_iff, find, All, ◌↔◌,
}
use proof_arena.Db.{AgentInstance, SagaStatus, Store, get_instance}
use proof_arena.Instances.Update.{is_live, replace, write_row}

pub is_live_iff : (s : SagaStatus) → (is_live s ≡ true) ↔ (s ≡ SagaStatus.live)
is_live_iff s = (live_of s, λ h. ap is_live h)
  where
    live_of : (s : SagaStatus) → is_live s ≡ true → s ≡ SagaStatus.live
    live_of SagaStatus.live h = refl
    live_of SagaStatus.provisioning h = absurd (cc)
    live_of SagaStatus.wallet_created_runtime_failed h = absurd (cc)
    live_of SagaStatus.runtime_live_consent_failed h = absurd (cc)
    live_of SagaStatus.provisioning_failed h = absurd (cc)
    live_of SagaStatus.paused h = absurd (cc)
    live_of SagaStatus.torn_down h = absurd (cc)

find-replace :
    (row old : AgentInstance) (rows : List AgentInstance)
    → find (λ (r : AgentInstance). r.instance_id == row.instance_id) rows ≡ some old
    → find
        (λ (r : AgentInstance). r.instance_id == row.instance_id)
        (replace row.instance_id row rows)
      ≡ some row
find-replace row old [] found = absurd (cc)
find-replace row old (r ∷ rs) found =
    let ih = find-replace row old rs in
    ground (
      arith,
      found,
      ih,
      nat_beq_iff row.instance_id row.instance_id,
      nat_beq_iff r.instance_id row.instance_id,
    )

-- the row that was written is found
pub get_instance-write_row :
    (db : Store) (row old : AgentInstance)
    → get_instance db row.instance_id ≡ some old
    → get_instance (write_row db row) row.instance_id ≡ some row
get_instance-write_row db row old found = find-replace row old db.instances found

find-replace_other :
    (key : ℕ) (row : AgentInstance) (rows : List AgentInstance)
    → nat_beq row.instance_id key ≡ false
    → find (λ (r : AgentInstance). r.instance_id == key) (replace row.instance_id row rows)
      ≡ find (λ (r : AgentInstance). r.instance_id == key) rows
find-replace_other key row [] other = refl
find-replace_other key row (r ∷ rs) other =
    let ih = find-replace_other key row rs other in
    ground (
      arith,
      other,
      ih,
      nat_beq_iff r.instance_id row.instance_id,
      nat_beq_iff r.instance_id key,
      nat_beq_iff row.instance_id key,
    )

-- the others are as before
pub get_instance-write_row_other :
    (db : Store) (key : ℕ) (row : AgentInstance)
    → nat_beq row.instance_id key ≡ false
    → get_instance (write_row db row) key ≡ get_instance db key
get_instance-write_row_other db key row other = find-replace_other key row db.instances other

-- the last row is replaced where its key is a new one
pub replace-last :
    (row new : AgentInstance) (rows : List AgentInstance)
    → All (λ (r : AgentInstance). r.instance_id < row.instance_id) rows
    → replace row.instance_id new (rows ++ row ∷ []) ≡ rows ++ new ∷ []
replace-last row new [] fresh = ground (arith, nat_beq_iff row.instance_id row.instance_id)
replace-last row new (r ∷ rs) fresh =
    let ih = replace-last row new rs fresh.1 in
    ground (arith, fresh.0, ih, nat_beq_iff r.instance_id row.instance_id)
