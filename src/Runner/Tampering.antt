-- ===== src/Runner/Tampering.antt =====
-- What a matching hash says of rows that may have been changed since the run (run_auditor.py).
use proof_arena.Base.{◌≡◌, ◌≢◌, ◌⊎◌, inl, inr, sym, ap, ◌∙◌, some, List, [], ◌∷◌, ◌++◌, map, refl}
use mathlib.Core.Option.{some-injective}
use mathlib.Core.List.{List-discrete, map-map}
use mathlib.Core.HLevel.{Discrete}
use proof_arena.Base.Json.{Json, Fields, obj}
use proof_arena.Base.Result.{ok}
use proof_arena.Base.Sorting.{sorted, sorted-Ascending}
use proof_arena.Db.{Run, RunEvent}
use proof_arena.Events.{Event, Loads}
use proof_arena.Challenges.{ChallengeConfig}
use proof_arena.Services.SwapProtocol.{QuoteOption}
use proof_arena.Services.Serialization.{
  Codec, RoundTrip, SelfDelimiting, updated, event_json, compute_run_log_hash, by_sequence,
}
use proof_arena.Integrity.Audit.{compute_evidence_hash, generate_run_log_hash}
use proof_arena.Runner.World.{World, Log}
use proof_arena.Runner.Execution.{execute_run}
use proof_arena.Runner.Audited.{evidence, IsSealed-of_returned}

-- two different byte strings with one SHA-256 digest
abbrev pub IsCollision : (c : Codec) → List c.Byte → List c.Byte → Type 0
IsCollision c xs ys = (xs ≢ ys) × (c.digest xs ≡ c.digest ys)

-- the bytes of the event dicts, each as the text that `json.dumps` makes of it
abbrev pub event_bytes : (c : Codec) → List (Event c.Text) → List c.Byte
event_bytes c events = updated c (map (λ e. c.dumps (event_json c e)) events)

event_json-obj : (c : Codec) (e : Event c.Text) → (fields : Fields) × (event_json c e ≡ obj fields)
unfolding event_json
event_json-obj c e = (_, refl)

module _ (c : Codec) (split : SelfDelimiting c) where
  first-event :
      (e : Event c.Text) (rest : List c.Byte)
      → split.first (c.encode (c.dumps (event_json c e)) ++ rest)
        ≡ some (c.dumps (event_json c e), rest)
  first-event e rest =
      let (fields, same) = event_json-obj c e in rw same (split.first_dumps fields rest)

  same_texts :
      (ds es : List (Event c.Text))
      → event_bytes c ds ≡ event_bytes c es
      → map (λ e. c.dumps (event_json c e)) ds ≡ map (λ e. c.dumps (event_json c e)) es
  same_texts [] [] h = refl
  same_texts [] (e ∷ es) h =
      absurd (cc (sym split.first_end ∙ ap split.first h ∙ first-event e (event_bytes c es)))
  same_texts (d ∷ ds) [] h =
      absurd (cc (sym (first-event d (event_bytes c ds)) ∙ ap split.first h ∙ split.first_end))
  same_texts (d ∷ ds) (e ∷ es) h =
      let both = some-injective _ _ (
        sym (first-event d (event_bytes c ds))
        ∙ ap split.first h
        ∙ first-event e (event_bytes c es)) in
      let rest = same_texts ds es (ap (λ p. p.1) both) in cc (ap (λ p. p.0) both, rest)

module _ (c : Codec) (rt : RoundTrip c) (split : SelfDelimiting c) where
  dumps-injective : (v u : Json) → c.dumps v ≡ c.dumps u → v ≡ u
  dumps-injective v u e =
      some-injective _ _ (sym (rt.loads_dumps v) ∙ ap c.loads e ∙ rt.loads_dumps u)

  map_dumps-injective : (vs us : List Json) → map c.dumps vs ≡ map c.dumps us → vs ≡ us
  map_dumps-injective [] [] e = refl
  map_dumps-injective [] (u ∷ us) e = absurd (cc)
  map_dumps-injective (v ∷ vs) [] e = absurd (cc)
  map_dumps-injective (v ∷ vs) (u ∷ us) e =
      let first : v ≡ u = dumps-injective v u (cc) in
      let rest : vs ≡ us = map_dumps-injective vs us (cc) in cc

  same_json :
      (ds es : List (Event c.Text))
      → event_bytes c ds ≡ event_bytes c es
      → map (event_json c) ds ≡ map (event_json c) es
  same_json ds es e = map_dumps-injective _ _ (
      map-map c.dumps (event_json c) ds
      ∙ same_texts c split ds es e
      ∙ sym (map-map c.dumps (event_json c) es))

  same_or_IsCollision :
      Discrete c.Byte
      → (ds es : List (Event c.Text)) → c.digest (event_bytes c ds) ≡ c.digest (event_bytes c es)
      → (map (event_json c) ds ≡ map (event_json c) es)
        ⊎ IsCollision c (event_bytes c ds) (event_bytes c es)
  same_or_IsCollision discrete ds es e =
      elim (List-discrete discrete (event_bytes c ds) (event_bytes c es)) [
        | yes same ↦ inl (same_json ds es same)
        | no other ↦ inr (other, e)
      ]

  -- Where what dumps wrote is read back, the text of a JSON object is found at the start of any bytes,
  -- and bytes can be compared: whichever rows there are, if they hash to the stored hash of a run, then their event dicts in
  -- the order of their numbers are, as JSON, the events that the run wrote, or else the bytes of
  -- these dicts and the bytes of the run's events are a collision of SHA-256.
  pub generate_run_log_hash-tamper :
      Discrete c.Byte
      → (quote_json : QuoteOption → Json) (loads : Loads) (w : World) (config : ChallengeConfig)
        (run done : Run) (log : Log c.Text) (rows : List (RunEvent c.Text))
      → execute_run c quote_json loads w config run ≡ ok (done, log)
      → done.run_log_hash ≡ some (generate_run_log_hash c rows)
      → (map (event_json c) (sorted (by_sequence c) (evidence c rows))
          ≡ map (event_json c) log.events)
        ⊎ IsCollision c
            (event_bytes c (sorted (by_sequence c) (evidence c rows)))
            (event_bytes c log.events)
  unfolding generate_run_log_hash compute_evidence_hash compute_run_log_hash
  generate_run_log_hash-tamper discrete quote_json loads w config run done log rows h same =
      let sealed = IsSealed-of_returned c rt quote_json loads w config run done log h in
      let in_order : sorted (by_sequence c) log.events ≡ log.events =
        sorted-Ascending (λ (e : Event c.Text). e.sequence_no) 0 log.events sealed.numbered in
      same_or_IsCollision discrete (sorted (by_sequence c) (evidence c rows)) log.events (
        some-injective _ _ (sym same ∙ sealed.hash_is)
        ∙ ap (λ es. c.digest (event_bytes c es)) in_order)
