-- ===== src/Services/Serialization.antt =====
-- backend/src/services/serialization.py: canonical JSON, and the hash of a run's events. Python's
-- `json`, `hashlib` and `datetime` are the parameter.
use proof_arena.Base.{
  ℕ, String, ◌≡◌, Bool, Option, none, some, List, [], ◌∷◌, ◌++◌, map, leb, if◌then◌else◌,
}
use proof_arena.Base.Int.{pos}
use proof_arena.Base.Json.{Json, Fields, null, int, text, obj, field, end, truthy}
use proof_arena.Base.Sorting.{sorted}
use proof_arena.Db.{EventType, RunEvent}
use proof_arena.Events.{Event}

pub record Codec : Type 1 where
  pub Text : Type 0
  pub Byte : Type 0
  -- `json.dumps(…, sort_keys=True, separators=(",", ":"))` and `json.loads`
  pub dumps : Json → Text
  pub loads : Text → Option Json
  -- the text as the value of a field
  pub quoted : Text → Json
  -- `text.encode("utf-8")`
  pub encode : Text → List Byte
  -- the hex digest of SHA-256
  pub digest : List Byte → String
  pub isoformat : ℕ → String

-- `json.loads(json.dumps(v)) == v`
pub record RoundTrip (c : Codec) : Type 0 where
  pub loads_dumps : (v : Json) → c.loads (c.dumps v) ≡ some v

-- `json.JSONDecoder().raw_decode` on the bytes: the text of one JSON object is found at the start of
-- them, whatever follows, and there is none at their end.
pub record SelfDelimiting (c : Codec) : Type 0 where
  pub first : List c.Byte → Option (c.Text × List c.Byte)
  pub first_end : first [] ≡ none
  pub first_dumps :
      (fields : Fields) (rest : List c.Byte)
      → first (c.encode (c.dumps (obj fields)) ++ rest) ≡ some (c.dumps (obj fields), rest)

abbrev pub event_type_text : EventType → String
event_type_text EventType.observe = "observe"
event_type_text EventType.budget_exceeded = "budget_exceeded"
event_type_text EventType.error = "error"
event_type_text EventType.decide = "decide"
event_type_text EventType.finish = "finish"
event_type_text EventType.validate = "validate"
event_type_text EventType.execute = "execute"
event_type_text EventType.flatten = "flatten"
event_type_text EventType.finalize = "finalize"
event_type_text EventType.onchain_finalize = "onchain_finalize"

abbrev pub or_none : Option Json → Json
or_none none = null
or_none (some v) = v

abbrev pub text_or_none : Option String → Json
text_or_none none = null
text_or_none (some s) = text s

module _ (c : Codec) where
  -- what a hasher has read after `hasher.update(text.encode("utf-8"))` on each text
  abbrev pub updated : List c.Text → List c.Byte
  updated [] = []
  updated (t ∷ ts) = c.encode t ++ updated ts

  -- its `hexdigest()`
  abbrev pub sha256 : List c.Text → String
  sha256 ts = c.digest (updated ts)

  abbrev quoted_or_none : Option c.Text → Json
  quoted_or_none none = null
  quoted_or_none (some t) = c.quoted t

  -- an event dict as JSON
  unfoldable pub event_json : Event c.Text → Json
  event_json e = obj (
      field "action_payload_json" (or_none e.action_payload_json) (
        field "event_type" (text (event_type_text e.event_type)) (
          field "execution_payload_json" (or_none e.execution_payload_json) (
            field "quote_snapshot_ref" (quoted_or_none e.quote_snapshot_ref) (
              field "result_payload_json" (or_none e.result_payload_json) (
                field "run_id" (int (pos e.run_id)) (
                  field "sequence_no" (int (pos e.sequence_no)) (
                    field "state_snapshot_json" (or_none e.state_snapshot_json) (
                      field "timestamp" (text (c.isoformat e.timestamp)) (
                        field "tx_signature" (text_or_none e.tx_signature) (
                          field "validation_payload_json" (or_none e.validation_payload_json)
                            end)))))))))))

  abbrev pub by_sequence : Event c.Text → Event c.Text → Bool
  by_sequence d e = leb d.sequence_no e.sequence_no

  unfoldable pub compute_run_log_hash : List (Event c.Text) → String
  unfolding event_json
  compute_run_log_hash events =
      sha256 (map (λ e. c.dumps (event_json e)) (sorted by_sequence events))

  -- `_serialize_payload(payload) if payload else None`
  abbrev pub stored : Option Json → Option c.Text
  stored none = none
  stored (some v) = if truthy v then some (c.dumps v) else none

  -- the row that `_persist_event` adds for an event
  unfoldable pub row_of : Event c.Text → RunEvent c.Text
  row_of e = record {
    run_id = e.run_id;
    sequence_no = e.sequence_no;
    event_type = e.event_type;
    timestamp = e.timestamp;
    state_snapshot_json = stored e.state_snapshot_json;
    action_payload_json = stored e.action_payload_json;
    validation_payload_json = stored e.validation_payload_json;
    execution_payload_json = stored e.execution_payload_json;
    result_payload_json = stored e.result_payload_json;
    tx_signature = e.tx_signature;
    quote_snapshot_ref = e.quote_snapshot_ref;
  }
