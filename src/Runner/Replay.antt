-- ===== src/Runner/Replay.antt =====
-- The auditor recomputes the hash of a completed run from its rows (run_auditor.py), and reads the
-- events back as the runner wrote them.
use proof_arena.Base.{
  subst, ℕ, suc, ◌+◌, ◌≡◌, refl, true, Option, none, some, List, [], ◌∷◌, map, arith, length,
  All-map, All-imp, filter, filter-append, filter-All, map-fixed, length-map,
}
use mathlib.Core.List.{append-nil, map-map}
use proof_arena.Base.Sorting.{Ascending, Ascending-append, sorted-Ascending, sorted}
use proof_arena.Base.Json.{Json}
use proof_arena.Db.{RunEvent, Run}
use proof_arena.Events.{Event}
use proof_arena.Services.Serialization.{Codec, RoundTrip, row_of, stored}
use proof_arena.Integrity.Audit.{
  is_evidence, parse_json, event_to_canonical_dict, compute_evidence_hash, generate_run_log_hash,
  row_order,
}
use proof_arena.Runner.World.{Log}
use proof_arena.Runner.Log.{IsReadable, IsFull, Numbered}
use proof_arena.Runner.Sealing.{IsTail, IsSealed}

module _ (c : Codec) (rt : RoundTrip c) where
  parse_json-stored : (v : Option Json) → IsFull v → parse_json c (stored c v) ≡ v
  parse_json-stored none h = refl
  parse_json-stored (some v) h = rw (h, rt.loads_dumps v) refl

  event_to_canonical_dict-row_of :
      (e : Event c.Text) → IsReadable c e → event_to_canonical_dict c (row_of c e) ≡ e
  unfolding event_to_canonical_dict row_of
  event_to_canonical_dict-row_of e h =
      rw
        (
          parse_json-stored e.state_snapshot_json h.state_full,
          parse_json-stored e.action_payload_json h.action_full,
          parse_json-stored e.validation_payload_json h.validation_full,
          parse_json-stored e.execution_payload_json h.execution_full,
          parse_json-stored e.result_payload_json h.result_full,
        )
        refl

  rows-Ascending :
      (n : ℕ) (es : List (Event c.Text))
      → Numbered n es
      → Ascending (λ (r : RunEvent c.Text). r.sequence_no) n (map (row_of c) es)
  unfolding row_of
  rows-Ascending n [] h = tt
  rows-Ascending n (e ∷ es) h = (h.0, rows-Ascending (suc n) es h.1)

  tail-Ascending :
      (n : ℕ) (tail : List (RunEvent c.Text))
      → IsTail c n tail
      → Ascending (λ (r : RunEvent c.Text). r.sequence_no) n tail
  tail-Ascending n [] h = tt
  tail-Ascending n (r ∷ []) h = (h.0, tt)
  tail-Ascending n (r ∷ s ∷ rs) h = absurd h

  tail_filtered :
      (n : ℕ) (tail : List (RunEvent c.Text)) → IsTail c n tail → filter (is_evidence c) tail ≡ []
  tail_filtered n [] h = refl
  tail_filtered n (r ∷ []) h = rw h.1 refl
  tail_filtered n (r ∷ s ∷ rs) h = absurd h

  -- The rows of a completed run are numbered 0, 1, 2, … in the order in which they were added.
  pub sealed_numbered :
      (run : Run) (log : Log c.Text)
      → IsSealed c run log
      → Ascending (λ (r : RunEvent c.Text). r.sequence_no) 0 log.rows
  sealed_numbered run log s = rw s.rows_are (
      Ascending-append _ 0 (map (row_of c) log.events) s.tail
        (rows-Ascending 0 log.events s.numbered)
        (tail-Ascending _ s.tail (subst (λ n. IsTail c n s.tail) counted s.tail_is)))
    where
      counted : length log.events ≡ 0 + length (map (row_of c) log.events)
      counted = omega (arith, length-map (row_of c) log.events)

  evidence_of_sealed :
      (run : Run) (log : Log c.Text)
      → IsSealed c run log
      → filter (is_evidence c) log.rows ≡ map (row_of c) log.events
  evidence_of_sealed run log s =
      rw
        (
          s.rows_are,
          filter-append (is_evidence c) (map (row_of c) log.events) s.tail,
          tail_filtered _ s.tail s.tail_is,
          filter-All (is_evidence c) (map (row_of c) log.events) (
              All-map (row_of c) (λ r. is_evidence c r ≡ true) log.events
                (All-imp (IsReadable c) _ log.events (λ e h. h.kept) s.readable)),
        )
        (append-nil (map (row_of c) log.events))

  -- The auditor reads the events of a completed run back from the rows: those that it hashes are the
  -- dicts that the runner hashed, in the same order.
  pub sealed_read_back :
      (run : Run) (log : Log c.Text)
      → IsSealed c run log
      → map (event_to_canonical_dict c) (filter (is_evidence c) (sorted (row_order c) log.rows))
        ≡ log.events
  sealed_read_back run log s =
      rw
        (
          sorted-Ascending (λ (r : RunEvent c.Text). r.sequence_no) 0 log.rows
              (sealed_numbered run log s),
          evidence_of_sealed run log s,
          map-map (event_to_canonical_dict c) (row_of c) log.events,
        )
        (map-fixed _ log.events
          (All-imp (IsReadable c) _ log.events event_to_canonical_dict-row_of s.readable))

  pub sealed_hash :
      (run : Run) (log : Log c.Text)
      → IsSealed c run log
      → run.run_log_hash ≡ some (generate_run_log_hash c log.rows)
  unfolding generate_run_log_hash compute_evidence_hash
  sealed_hash run log s = rw (sealed_read_back run log s) s.hash_is
