-- ===== src/Events.antt =====
-- The event dicts that backend/src/services/runner_service.py collects while a run lasts, and what
-- its readers take out of a payload.
use proof_arena.Base.{ℕ, String, Option, none, some}
use proof_arena.Base.Json.{Json, obj, text, Fields}
use proof_arena.Db.{EventType}

-- `event_dict` of `_persist_event`; a missing payload is None. A quote snapshot is kept as its
-- serialized text.
pub record Event (Text : Type 0) : Type 0 where
  pub run_id : ℕ
  pub sequence_no : ℕ
  pub event_type : EventType
  pub timestamp : ℕ
  pub state_snapshot_json : Option Json
  pub action_payload_json : Option Json
  pub validation_payload_json : Option Json
  pub execution_payload_json : Option Json
  pub result_payload_json : Option Json
  pub tx_signature : Option String
  pub quote_snapshot_ref : Option Text

-- `isinstance(payload, dict)`
abbrev pub as_dict : Json → Option Fields
as_dict (obj fs) = some fs
as_dict _ = none

-- `json.loads`, none being `JSONDecodeError`
abbrev pub Loads : Type 0
Loads = String → Option Json

-- A payload that is a dict, or a text that `json.loads` reads as one.
abbrev pub payload_dict : Loads → Option Json → Option Fields
payload_dict loads none = none
payload_dict loads (some (text s)) = elim (loads s) [ none ↦ none | some v ↦ as_dict v ]
payload_dict loads (some v) = as_dict v
