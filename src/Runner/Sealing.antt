-- ===== src/Runner/Sealing.antt =====
-- Flattening and finalizing: what the log and the run are when the run is completed.
use proof_arena.Base.{
  ℕ, ◌+◌, ◌≡◌, refl, sym, Bool, true, false, ◌||◌, Option, none, some, List, [], ◌∷◌, ◌++◌, map,
  arith, length, All, if_cases, ltb, if◌then◌else◌, String, ◌==◌, text_equality, or_default, inl,
  subst,
}
use mathlib.Core.List.{append-nil}
use proof_arena.Base.Int.{ℤ}
use proof_arena.Base.Json.{obj, truthy}
use proof_arena.Base.Result.{Result, ok, err}
use proof_arena.Db.{EventType, RunEvent, Run, RunStatus, CompletionStatus}
use proof_arena.Events.{Loads}
use proof_arena.Challenges.{Balances, ChallengeAdapter}
use proof_arena.Integrity.Completion.{max_invalid_attempts, evaluate}
use proof_arena.Services.Serialization.{Codec, RoundTrip, row_of, compute_run_log_hash}
use proof_arena.Integrity.Audit.{is_evidence, is_post_chain_error}
use proof_arena.Runner.World.{World, Log, persist_at, persist_outside}
use proof_arena.Runner.Pass.{Setting}
use proof_arena.Runner.Closing.{
  Flattened, no_quotes, swapped, failed, flatten_mint, flatten_fields, flatten_each,
  flatten_balances, flatten_to_usdc, is_zero, variant_text, finalize_payload, onchain_event,
  finalize_onchain, finalize_run,
}
use proof_arena.Runner.Execution.{flatten_stage}
use proof_arena.Runner.Log.{IsLog, IsReadable, Numbered, Guarded, persist_at-IsLog, kept_of_type}

flatten_fields_full :
    (mint : String) (balance : ℤ) (f : Flattened)
    → truthy (obj (flatten_fields mint balance f)) ≡ true
flatten_fields_full mint balance no_quotes = refl
flatten_fields_full mint balance (swapped sig) = refl
flatten_fields_full mint balance (failed message) = refl

counted_on : (n : ℕ) → (if ltb 0 n then (if ltb n 1 then 1 else n) else 0) ≡ n
counted_on n = ground arith

-- the rows behind the hash boundary: at most one, numbered next, which is no evidence
abbrev pub IsTail : (c : Codec) → ℕ → List (RunEvent c.Text) → Type 0
IsTail c n [] = Unit
IsTail c n (r ∷ []) = (r.sequence_no ≡ n) × (is_evidence c r ≡ false)
IsTail c n (r ∷ s ∷ rs) = ⊥

pub record IsSealed (c : Codec) (run : Run) (log : Log c.Text) : Type 0 where
  pub tail : List (RunEvent c.Text)
  pub rows_are : log.rows ≡ map (row_of c) log.events ++ tail
  pub tail_is : IsTail c (length log.events) tail
  pub numbered : Numbered 0 log.events
  pub readable : All (IsReadable c) log.events
  pub guarded : Guarded none log.events
  pub hash_is : run.run_log_hash ≡ some (compute_run_log_hash c log.events)
  pub status_is : run.status ≡ RunStatus.completed

module _ (c : Codec) (rt : RoundTrip c) (w : World) (set : Setting) where
  flatten_each-IsLog :
      (usdc : String) (start seq : ℕ) (balances : Balances) (log : Log c.Text)
      → IsLog c (start + seq) log
      → IsLog c
          (start + (flatten_each c w set usdc start seq balances log).1)
          (flatten_each c w set usdc start seq balances log).0
  unfolding flatten_each
  flatten_each-IsLog usdc start seq [] log h = h
  flatten_each-IsLog usdc start seq ((mint, balance) ∷ rest) log h =
      if_cases (λ (r : Log c.Text × ℕ). IsLog c (start + r.1) r.0) (mint == usdc || is_zero balance)
        (λ skipped. flatten_each-IsLog usdc start seq rest log h)
        (λ taken. flatten_each-IsLog usdc start (seq + 1) rest _ (
          persist_at-IsLog c w set.run_id (start + seq) _ EventType.flatten _ log (omega arith)
            (record {
              state_full = tt;
              action_full = tt;
              validation_full = tt;
              execution_full =
                  flatten_fields_full mint balance
                    (flatten_mint w set (start + seq) usdc mint balance);
              result_full = tt;
              kept = kept_of_type c _ refl refl;
            })
            (inl refl) h))

  flatten_balances-IsLog :
      (usdc : String) (start : ℕ) (log : Log c.Text) (r : Result String Balances)
      → IsLog c start log
      → IsLog c
          (start + (flatten_balances c w set usdc start log r).1)
          (flatten_balances c w set usdc start log r).0
  flatten_balances-IsLog usdc start log (ok balances) h =
      rw (counted_on (flatten_each c w set usdc start 0 balances log).1)
        (flatten_each-IsLog usdc start 0 balances log (subst (λ n. IsLog c n log) (omega arith) h))
  flatten_balances-IsLog usdc start log (err message) h =
      persist_at-IsLog c w set.run_id start _ EventType.flatten _ log refl
        (record {
          state_full = tt;
          action_full = tt;
          validation_full = tt;
          execution_full = tt;
          result_full = refl;
          kept = kept_of_type c _ refl refl;
        })
        (inl refl) h

  pub flatten_stage-IsLog :
      (should_flatten : Bool) (usdc : String) (log : Log c.Text)
      → IsLog c log.sequence_no log
      → IsLog c
          (flatten_stage c w set should_flatten usdc log).sequence_no
          (flatten_stage c w set should_flatten usdc log)
  unfolding flatten_stage flatten_to_usdc
  flatten_stage-IsLog true usdc log h =
      flatten_balances-IsLog usdc log.sequence_no log w.flatten_balances h
  flatten_stage-IsLog false usdc log h = h

  -- the row that stands behind the hash boundary
  HasTail : ℕ → Log c.Text → Log c.Text → Type 0
  HasTail next log closed =
      (tail : List (RunEvent c.Text)) × (closed.rows ≡ log.rows ++ tail)
      × IsTail c next tail
      × (closed.events ≡ log.events)

  onchain_event-HasTail :
      (hash : String) (next : ℕ) (log : Log c.Text) (r : Result String String)
      → HasTail next log (onchain_event c w set hash next log r)
  unfolding HasTail onchain_event persist_outside row_of is_post_chain_error
  onchain_event-HasTail hash next log (ok sig) = (_, refl, (refl, refl), refl)
  onchain_event-HasTail hash next log (err message) =
      (_, refl, (refl, rw rt.loads_dumps refl), refl)

  finalize_onchain-HasTail :
      (program : Option (ℤ → String → String → ℕ → Result String String)) (ending_value : ℤ)
      (hash : String) (status : CompletionStatus) (used next : ℕ) (log : Log c.Text)
      → HasTail next log (finalize_onchain c w set program ending_value hash status used next log)
  unfolding HasTail finalize_onchain
  finalize_onchain-HasTail none ending_value hash status used next log =
      ([], sym (append-nil log.rows), tt, refl)
  finalize_onchain-HasTail (some finalize) ending_value hash status used next log =
      onchain_event-HasTail hash next log (finalize ending_value hash (variant_text status) used)

  pub finalize_run-IsSealed :
      (loads : Loads) (adapter : ChallengeAdapter c.Text) (run : Run) (seq used : ℕ)
      (log : Log c.Text)
      → IsLog c seq log
      → IsSealed c
          (finalize_run c w set loads adapter run seq used log).0
          (finalize_run c w set loads adapter run seq used log).1
  unfolding finalize_run HasTail
  finalize_run-IsSealed loads adapter run seq used log h =
      let balances = or_default w.final_balances [] in
      let ending_value = adapter.compute_ending_value run balances in
      let completion = evaluate loads adapter max_invalid_attempts log.events balances run.status in
      let finalized =
        persist_at c w set.run_id seq EventType.finalize
          (finalize_payload c w set ending_value completion used) log in
      let (mirrored, numbered, counted, readable, guarded) =
        persist_at-IsLog c w set.run_id seq (seq + 1) EventType.finalize
          (finalize_payload c w set ending_value completion used) log refl
          (record {
            state_full = tt;
            action_full = tt;
            validation_full = tt;
            execution_full = tt;
            result_full = refl;
            kept = kept_of_type c _ refl refl;
          })
          (inl refl) h in
      let (tail, rows_are, tail_is, kept) =
        finalize_onchain-HasTail w.program ending_value (compute_run_log_hash c finalized.events)
          completion.status used (seq + 1) finalized in
      record {
        tail = tail;
        rows_are = rw (kept, sym mirrored) rows_are;
        tail_is = rw (kept, sym counted) tail_is;
        numbered = rw kept numbered;
        readable = rw kept readable;
        guarded = rw kept guarded;
        hash_is = rw kept refl;
        status_is = refl;
      }
