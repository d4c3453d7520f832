-- ===== src/Runner/World.antt =====
-- What the runner meets: the agent, the wallet, the swap service and the clock, as functions of the
-- sequence number of the event that is written next; and the state that the run builds up.
use proof_arena.Base.{ℕ, ◌+◌, String, Bool, Option, none, some, List, [], ◌∷◌, ◌++◌}
use proof_arena.Base.Int.{ℤ, pos}
use proof_arena.Base.Json.{
  Json, Float, Fields, Items, int, text, arr, obj, float, field, end, nil, cons, get,
}
use proof_arena.Base.Result.{Result}
use proof_arena.Db.{EventType, RunEvent}
use proof_arena.Events.{Event}
use proof_arena.Challenges.{Balances, ChallengeState, AgentActionType, execute_swap, wait, finish}
use proof_arena.Services.SwapProtocol.{QuoteOption, QuoteCache}
use proof_arena.Integrity.Validator.{Action, Reason}
use proof_arena.Services.Serialization.{Codec, row_of}

-- `AgentAction`
pub record AgentAction : Type 0 where
  pub type : AgentActionType
  pub params : Fields

-- what `provider.decide` returns or raises
pub data Decision : Type 0 where
  act : AgentAction → Decision
  parse_error : String → String → Decision
  failed : String → Decision

-- Texts that a call raises are the messages of its exceptions.
pub record World : Type 0 where
  pub elapsed : ℕ → Float
  pub started_at : ℕ
  pub clock : ℕ → ℕ
  pub finalized_at : ℕ
  pub observe : ℕ → Option Balances
  pub decide : ℕ → ChallengeState → Decision
  pub quotes : ℕ → QuoteCache
  pub get_quotes : ℕ → String → String → ℤ → Result String (List QuoteOption)
  pub prepare_swap_transaction : ℕ → String → String → Json → Result String String
  pub sign_and_send_transaction : ℕ → String → String → Result String String
  pub cached_quote : ℕ → String → Option QuoteOption
  pub type_error_text : String
  pub reason_text : Reason → String
  pub reason_details : Reason → Json
  pub flatten_balances : Result String Balances
  pub final_balances : Option Balances
  pub score_inputs_text : ℤ → ℤ → ℕ → Bool → String
  -- the program client, if there is one, and what its `finalize_run` returns
  pub program : Option (ℤ → String → String → ℕ → Result String String)

abbrev pub action_type_text : AgentActionType → String
action_type_text execute_swap = "EXECUTE_SWAP"
action_type_text wait = "WAIT"
action_type_text finish = "FINISH"

abbrev pub as_text : Option Json → Option String
as_text (some (text s)) = some s
as_text _ = none

-- `action.model_dump()` as the validator reads it
abbrev pub to_action : AgentAction → Action
to_action a = record {
  type = action_type_text a.type;
  quote_id = as_text (get "quote_id" a.params);
  requested_slippage = get "max_slippage_bps" a.params;
  seconds = get "seconds" a.params;
}

abbrev pub action_json : AgentAction → Json
action_json a =
    obj (field "params" (obj a.params) (field "type" (text (action_type_text a.type)) end))

abbrev pub balance_fields : Balances → Fields
balance_fields [] = end
balance_fields ((mint, balance) ∷ rest) = field mint (int balance) (balance_fields rest)

abbrev pub text_items : List String → Items
text_items [] = nil
text_items (s ∷ ss) = cons (text s) (text_items ss)

-- `asdict(state)`
abbrev pub state_json : ChallengeState → Json
state_json s = obj (
    field "completed_swaps" (arr (text_items s.completed_swaps)) (
      field "elapsed_secs" (float s.elapsed_secs) (
        field "extra" (obj s.extra) (
          field "iteration_budget" (int (pos s.iteration_budget)) (
            field "iterations_used" (int (pos s.iterations_used)) (
              field "portfolio" (obj (balance_fields s.portfolio)) (
                field "required_swaps" (arr (text_items s.required_swaps)) (
                  field "status" (text s.status)
                    (field "time_budget_secs" (int (pos s.time_budget_secs)) end)))))))))

-- the keyword arguments of `_persist_event`
pub record Payload (Text : Type 0) : Type 0 where
  pub state_snapshot : Option Json
  pub action_payload : Option Json
  pub validation_payload : Option Json
  pub execution_payload : Option Json
  pub result_payload : Option Json
  pub tx_signature : Option String
  pub quote_snapshot_ref : Option Text

abbrev pub no_payload : {T : Type 0} → Payload T
no_payload = record {
  state_snapshot = none;
  action_payload = none;
  validation_payload = none;
  execution_payload = none;
  result_payload = none;
  tx_signature = none;
  quote_snapshot_ref = none;
}

abbrev pub result_of : {T : Type 0} → Fields → Payload T
result_of fs = record no_payload { result_payload = some (obj fs) }

-- What a run has written so far. `events` are the dicts inside the hash boundary, `rows` all rows.
pub record Log (Text : Type 0) : Type 0 where
  pub sequence_no : ℕ
  pub events : List (Event Text)
  pub rows : List (RunEvent Text)

module _ (c : Codec) where
  abbrev pub event_of : World → ℕ → ℕ → EventType → Payload c.Text → Event c.Text
  event_of w run_id sequence_no type p = record {
    run_id = run_id;
    sequence_no = sequence_no;
    event_type = type;
    timestamp = w.clock sequence_no;
    state_snapshot_json = p.state_snapshot;
    action_payload_json = p.action_payload;
    validation_payload_json = p.validation_payload;
    execution_payload_json = p.execution_payload;
    result_payload_json = p.result_payload;
    tx_signature = p.tx_signature;
    quote_snapshot_ref = p.quote_snapshot_ref;
  }

  -- `_persist_event(run, seq, type, events, …)`; the caller counts on by itself
  unfoldable pub persist_at : World → ℕ → ℕ → EventType → Payload c.Text → Log c.Text → Log c.Text
  persist_at w run_id seq type p log =
      let e = event_of w run_id seq type p in
      record log { events = log.events ++ e ∷ []; rows = log.rows ++ row_of c e ∷ [] }

  -- `_persist_event(run, seq, type, [], …)`: the row alone
  unfoldable pub persist_outside :
      World → ℕ → ℕ → EventType → Payload c.Text → Log c.Text → Log c.Text
  persist_outside w run_id seq type p log = record log {
    rows = log.rows ++ row_of c (event_of w run_id seq type p) ∷ [];
  }

  -- `_persist_event(run, sequence_no, …); sequence_no += 1`
  unfoldable pub persist : World → ℕ → EventType → Payload c.Text → Log c.Text → Log c.Text
  unfolding persist_at
  persist w run_id type p log =
      let written = persist_at w run_id log.sequence_no type p log in
      record written { sequence_no = log.sequence_no + 1 }
