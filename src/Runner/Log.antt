-- ===== src/Runner/Log.antt =====
-- What holds of the log at every point inside the hash boundary: the rows mirror the events, the
-- events are numbered without a gap, and each of them is evidence that can be read back.
use proof_arena.Base.{
  ℕ, ◌+◌, ◌≡◌, ◌⊎◌, refl, Bool, true, false, Option, none, some, List, [], ◌∷◌, ◌++◌, map, arith,
  length, length-append, All, All-append,
}
use mathlib.Core.List.{map-append}
use proof_arena.Base.Sorting.{Ascending, Ascending-append}
use proof_arena.Base.Json.{Json, Fields, obj, get, bool, truthy}
use proof_arena.Db.{EventType}
use proof_arena.Events.{Event}
use proof_arena.Services.Serialization.{Codec, RoundTrip, row_of}
use proof_arena.Integrity.Audit.{is_evidence, is_error, is_evidence_event_type, is_post_chain_error}
use proof_arena.Runner.World.{World, Payload, Log, event_of, persist_at, persist}

-- A payload that is given is true, so that its column holds its text.
abbrev pub IsFull : Option Json → Type 0
IsFull none = Unit
IsFull (some v) = truthy v ≡ true

abbrev pub Numbered : {T : Type 0} → ℕ → List (Event T) → Type 0
Numbered n es = Ascending (λ e. e.sequence_no) n es

abbrev pub is_execute : EventType → Bool
is_execute EventType.execute = true
is_execute _ = false

-- The event before an execution is a validation that says "valid".
abbrev pub IsApproval : {T : Type 0} → Option (Event T) → Type 0
IsApproval none = ⊥
IsApproval (some e) =
    (e.event_type ≡ EventType.validate)
    × ((fs : Fields) × (e.validation_payload_json ≡ some (obj fs))
        × (get "valid" fs ≡ some (bool true)))

-- Every execution stands directly behind its approval; `before` is the event before the list.
abbrev pub Guarded : {T : Type 0} → Option (Event T) → List (Event T) → Type 0
Guarded before [] = Unit
Guarded before (e ∷ es) =
    ((is_execute e.event_type ≡ false) ⊎ IsApproval before) × Guarded (some e) es

abbrev pub last_from : {T : Type 0} → Option (Event T) → List (Event T) → Option (Event T)
last_from before [] = before
last_from before (e ∷ es) = last_from (some e) es

Guarded-snoc :
    {T : Type 0} (before : Option (Event T)) (es : List (Event T)) (e : Event T)
    → Guarded before es
    → ((is_execute e.event_type ≡ false) ⊎ IsApproval (last_from before es))
    → Guarded before (es ++ e ∷ [])
Guarded-snoc before [] e g h = (h, tt)
Guarded-snoc before (d ∷ es) e g h = (g.0, Guarded-snoc (some d) es e g.1 h)

pub last_from-snoc :
    {T : Type 0} (before : Option (Event T)) (es : List (Event T)) (e : Event T)
    → last_from before (es ++ e ∷ []) ≡ some e
last_from-snoc before [] e = refl
last_from-snoc before (d ∷ es) e = last_from-snoc (some d) es e

-- An execution may come next only if the last event is its approval.
abbrev pub MayFollow : {T : Type 0} → EventType → Log T → Type 0
MayFollow type log = (is_execute type ≡ false) ⊎ IsApproval (last_from none log.events)

module _ (c : Codec) where
  pub record IsReadable (e : Event c.Text) : Type 0 where
    pub state_full : IsFull e.state_snapshot_json
    pub action_full : IsFull e.action_payload_json
    pub validation_full : IsFull e.validation_payload_json
    pub execution_full : IsFull e.execution_payload_json
    pub result_full : IsFull e.result_payload_json
    pub kept : is_evidence c (row_of c e) ≡ true

  -- inside the hash boundary, with `n` the number of the next event
  abbrev pub IsLog : ℕ → Log c.Text → Type 0
  IsLog n log =
      (log.rows ≡ map (row_of c) log.events)
      × Numbered 0 log.events
      × (n ≡ length log.events)
      × All (IsReadable) log.events
      × Guarded none log.events

  pub persist_at-IsLog :
      (w : World) (run_id n next : ℕ) (type : EventType) (p : Payload c.Text) (log : Log c.Text)
      → next ≡ n + 1
      → IsReadable (event_of c w run_id n type p)
      → MayFollow type log
      → IsLog n log
      → IsLog next (persist_at c w run_id n type p log)
  unfolding persist_at
  persist_at-IsLog w run_id n next type p log step good follows
        (mirrored, numbered, counted, readable, guarded) =
      let e = event_of c w run_id n type p in
      (
        rw (mirrored, map-append),
        Ascending-append _ 0 log.events (e ∷ []) numbered (omega arith, tt),
        omega (arith, length-append log.events (e ∷ [])),
        All-append _ log.events (e ∷ []) readable (good, tt),
        Guarded-snoc none log.events e guarded follows,
      )

  pub persist-IsLog :
      (w : World) (run_id : ℕ) (type : EventType) (p : Payload c.Text) (log : Log c.Text)
      → IsReadable (event_of c w run_id log.sequence_no type p)
      → MayFollow type log
      → IsLog log.sequence_no log
      → IsLog (persist c w run_id type p log).sequence_no (persist c w run_id type p log)
  unfolding persist
  persist-IsLog w run_id type p log good follows h =
      persist_at-IsLog w run_id log.sequence_no (log.sequence_no + 1) type p log refl good follows h

  -- An event that is no error and not on-chain is evidence.
  pub kept_of_type :
      (e : Event c.Text)
      → is_error e.event_type ≡ false
      → is_evidence_event_type e.event_type ≡ true
      → is_evidence c (row_of c e) ≡ true
  unfolding row_of is_post_chain_error
  kept_of_type e no_error on_type = ground arith

  -- An error whose payload is not marked is evidence.
  pub kept_of_error :
      RoundTrip c
      → (e : Event c.Text) (fs : Fields) → e.event_type ≡ EventType.error
      → e.result_payload_json ≡ some (obj fs)
      → truthy (obj fs) ≡ true
      → get "onchain_finalize_failed" fs ≡ none
      → is_evidence c (row_of c e) ≡ true
  unfolding row_of is_post_chain_error
  kept_of_error rt e fs is_err payload full unmarked = ground (arith, rt.loads_dumps (obj fs))
