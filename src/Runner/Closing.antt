-- ===== src/Runner/Closing.antt =====
-- `_flatten_to_usdc` and `_finalize_run`.
use proof_arena.Base.{
  ℕ, zero, suc, ◌+◌, String, Bool, true, false, ◌||◌, Option, none, some, List, [], ◌∷◌, ◌==◌,
  text_equality, if◌then◌else◌, ltb, or_default,
}
use Prim.Native.String.{◌++◌ as join}
use proof_arena.Base.Int.{ℤ, pos, negsuc}
use proof_arena.Base.Json.{Json, Fields, null, bool, int, text, obj, field, end}
use proof_arena.Base.Result.{Result, ok, err}
use proof_arena.Db.{EventType, RunStatus, CompletionStatus, RunInvalidReason, Run}
use proof_arena.Events.{Loads}
use proof_arena.Challenges.{Balances, ChallengeAdapter, CompletionResult}
use proof_arena.Services.SwapProtocol.{QuoteOption}
use proof_arena.Integrity.Completion.{max_invalid_attempts, evaluate}
use proof_arena.Services.Serialization.{Codec, compute_run_log_hash}
use proof_arena.Runner.World.{
  World, Log, Payload, no_payload, result_of, persist_at, persist_outside,
}
use proof_arena.Runner.Pass.{Setting}

-- what became of one mint
pub data Flattened : Type 0 where
  no_quotes : Flattened
  swapped : String → Flattened
  failed : String → Flattened

-- the rest of the `try`, given the quotes
abbrev pub flatten_quote : World → Setting → ℕ → List QuoteOption → Flattened
flatten_quote w set seq [] = no_quotes
flatten_quote w set seq (quote ∷ quotes) =
    elim (w.prepare_swap_transaction seq quote.quote_id set.wallet_address (int (pos 100))) [
      | err message ↦ failed message
      | ok tx_bytes ↦ elim (w.sign_and_send_transaction seq set.wallet_id tx_bytes) [
        | err message ↦ failed message
        | ok sig ↦ swapped sig
      ]
    ]

unfoldable pub flatten_mint : World → Setting → ℕ → String → String → ℤ → Flattened
flatten_mint w set seq usdc mint balance = elim (w.get_quotes seq mint usdc balance) [
  | err message ↦ failed message
  | ok quotes ↦ flatten_quote w set seq quotes
]

-- the dict `result`, and `result.get("tx_signature")`
abbrev pub flatten_fields : String → ℤ → Flattened → Fields
flatten_fields mint balance no_quotes =
    field "amount" (int balance)
      (field "error" (text "No quotes available") (field "mint" (text mint) end))
flatten_fields mint balance (swapped sig) =
    field "amount" (int balance)
      (field "mint" (text mint) (field "success" (bool true) (field "tx_signature" (text sig) end)))
flatten_fields mint balance (failed message) =
    field "amount" (int balance)
      (field "error" (text message) (field "mint" (text mint) (field "success" (bool false) end)))

abbrev pub flatten_signature : Flattened → Option String
flatten_signature (swapped sig) = some sig
flatten_signature _ = none

abbrev pub is_zero : ℤ → Bool
is_zero (pos zero) = true
is_zero (pos (suc n)) = false
is_zero (negsuc n) = false

abbrev pub status_text : CompletionStatus → String
status_text CompletionStatus.complete = "complete"
status_text CompletionStatus.incomplete = "incomplete"
status_text CompletionStatus.invalid = "invalid"

-- the variant of the on-chain enum
abbrev pub variant_text : CompletionStatus → String
variant_text CompletionStatus.complete = "Complete"
variant_text CompletionStatus.incomplete = "Incomplete"
variant_text CompletionStatus.invalid = "Invalid"

abbrev pub is_complete : CompletionStatus → Bool
is_complete CompletionStatus.complete = true
is_complete _ = false

abbrev pub invalid_reason_text : RunInvalidReason → String
invalid_reason_text RunInvalidReason.incomplete_required_actions = "incomplete_required_actions"
invalid_reason_text RunInvalidReason.invalid_action_attempts_exceeded =
    "invalid_action_attempts_exceeded"
invalid_reason_text RunInvalidReason.stale_quote_execution_failed = "stale_quote_execution_failed"
invalid_reason_text RunInvalidReason.timeout_before_completion = "timeout_before_completion"
invalid_reason_text RunInvalidReason.flattening_failed = "flattening_failed"
invalid_reason_text RunInvalidReason.execution_error = "execution_error"
invalid_reason_text RunInvalidReason.mainnet_guard_triggered = "mainnet_guard_triggered"
invalid_reason_text RunInvalidReason.wallet_policy_rejected = "wallet_policy_rejected"
invalid_reason_text RunInvalidReason.runtime_invocation_failed = "runtime_invocation_failed"
invalid_reason_text RunInvalidReason.authorization_signature_rejected =
    "authorization_signature_rejected"
invalid_reason_text RunInvalidReason.hosted_wallet_unavailable = "hosted_wallet_unavailable"

abbrev pub reason_json : Option RunInvalidReason → Json
reason_json none = null
reason_json (some r) = text (invalid_reason_text r)

module _ (c : Codec) (w : World) (set : Setting) where
  -- the loop over the balances; `seq` counts the events that it has written
  unfoldable pub flatten_each : String → ℕ → ℕ → Balances → Log c.Text → Log c.Text × ℕ
  flatten_each usdc start seq [] log = (log, seq)
  flatten_each usdc start seq ((mint, balance) ∷ rest) log =
      let outcome = flatten_mint w set (start + seq) usdc mint balance in
      let written =
        persist_at c w set.run_id (start + seq) EventType.flatten
          (record no_payload {
            execution_payload = some (obj (flatten_fields mint balance outcome));
            tx_signature = flatten_signature outcome;
          })
          log in
      let skipped = flatten_each usdc start seq rest log in
      let taken = flatten_each usdc start (seq + 1) rest written in
      if mint == usdc || is_zero balance then skipped else taken

  abbrev pub flatten_balances : String → ℕ → Log c.Text → Result String Balances → Log c.Text × ℕ
  flatten_balances usdc start_seq log (err message) = (
    persist_at c w set.run_id start_seq EventType.flatten
        (result_of (field "error" (text (join "Failed to read balances: " message)) end)) log,
    1,
  )
  flatten_balances usdc start_seq log (ok balances) =
      let (log', seq) = flatten_each usdc start_seq 0 balances log in
      (log', if ltb 0 seq then (if ltb seq 1 then 1 else seq) else 0)

  -- `_flatten_to_usdc`, with the `next_sequence_no` that it returns
  unfoldable pub flatten_to_usdc : String → ℕ → Log c.Text → Log c.Text × ℕ
  unfolding flatten_each
  flatten_to_usdc usdc start_seq log = flatten_balances usdc start_seq log w.flatten_balances

  abbrev pub finalize_payload : ℤ → CompletionResult → ℕ → Payload c.Text
  finalize_payload ending_value completion iterations_used = result_of (
      field "completion_reason" (reason_json completion.reason) (
        field "completion_status" (text (status_text completion.status)) (
          field "ending_value" (int ending_value)
            (field "iterations_used" (int (pos iterations_used)) end))))

  -- the event that tells of the program's answer; only its row is added
  unfoldable pub onchain_event : String → ℕ → Log c.Text → Result String String → Log c.Text
  onchain_event run_log_hash next_seq log (ok tx_sig) =
      persist_outside c w set.run_id next_seq EventType.onchain_finalize
        (record no_payload {
          result_payload = some (
              obj (
                field "run_log_hash" (text run_log_hash) (field "tx_signature" (text tx_sig) end)));
          tx_signature = some tx_sig;
        })
        log
  onchain_event run_log_hash next_seq log (err message) =
      persist_outside c w set.run_id next_seq EventType.error
        (result_of (
          field "error" (text (join "On-chain finalize failed: " message))
            (field "onchain_finalize_failed" (bool true) end)))
        log

  -- the on-chain part of `_finalize_run`, after the hash boundary
  unfoldable pub finalize_onchain :
      Option (ℤ → String → String → ℕ → Result String String)
      → ℤ
      → String
      → CompletionStatus
      → ℕ
      → ℕ
      → Log c.Text
      → Log c.Text
  unfolding onchain_event
  finalize_onchain none ending_value run_log_hash status iterations_used next_seq log = log
  finalize_onchain (some finalize) ending_value run_log_hash status iterations_used next_seq log =
      onchain_event run_log_hash next_seq log
        (finalize ending_value run_log_hash (variant_text status) iterations_used)

  -- `_finalize_run`
  unfoldable pub finalize_run :
      Loads → ChallengeAdapter c.Text → Run → ℕ → ℕ → Log c.Text → Run × Log c.Text
  unfolding finalize_onchain
  finalize_run loads adapter run sequence_no iterations_used log =
      let final_balances = or_default w.final_balances [] in
      let ending_value = adapter.compute_ending_value run final_balances in
      let completion =
        evaluate loads adapter max_invalid_attempts log.events final_balances run.status in
      let finalized =
        persist_at c w set.run_id sequence_no EventType.finalize
          (finalize_payload ending_value completion iterations_used) log in
      let run_log_hash = compute_run_log_hash c finalized.events in
      let closed =
        finalize_onchain w.program ending_value run_log_hash completion.status iterations_used
          (sequence_no + 1) finalized in
      (
        record run {
          ending_value = some ending_value;
          completion_status = some completion.status;
          invalid_reason = completion.reason;
          score_inputs_json = some (
              w.score_inputs_text run.starting_value ending_value iterations_used
                (is_complete completion.status));
          run_log_hash = some run_log_hash;
          status = RunStatus.completed;
          ended_at = some w.finalized_at;
          iterations_used = iterations_used;
        },
        closed,
      )
