-- ===== src/Protocol/Events.antt =====
-- Event messages and the dispatcher over all messages (packages/vyne/src/vyne/protocol.py).
use vyne.Common.{
  Bool, List, Option, Result, String, [], false, if◌then◌else◌, none, not, ok, raise, raise_if,
  some, true, type_error, value_error, ◌==◌, ◌&&◌, ◌>>=◌, ◌>>◌, ◌∷◌,
}
use vyne.Common.Maps.{string_eq}
use vyne.Protocol.Checks.{
  EventSpec, Registry, check_int_field, non_negative_int, reject_unknown_fields,
}
use vyne.Protocol.Commits.{validate_commit}
use vyne.Protocol.Values.{
  Fields, Floats, Value, Values, cons, get, is_non_empty_text, is_null, is_positive_int, is_text,
  items, nil, null, object, text, text_among,
}

module _ {F : Type 0} where
  abbrev get_or_null : String → Fields F → Value F
  get_or_null name op = elim (get name op) [ none ↦ null | some v ↦ v ]

  -- `_validate_receipt_payload`
  unfoldable pub validate_receipt : Fields F → Result (Unit {0})
  unfolding reject_unknown_fields non_negative_int
  validate_receipt payload = do
    reject_unknown_fields ("type" ∷ "result" ∷ "revision" ∷ "session" ∷ []) payload
    raise_if (not (is_text "native_apply_result" (get_or_null "type" payload))) value_error
    is_known ←
        text_among ("ok" ∷ "rejected_known" ∷ "verified_rollback" ∷ "partial" ∷ "unknown" ∷ [])
          (get_or_null "result" payload)
    raise_if (not is_known) value_error
    revision ← non_negative_int false (get_or_null "revision" payload)
    raise_if (not (is_non_empty_text (get_or_null "session" payload))) type_error

  -- `_validate_app_state_payload`
  unfoldable pub validate_app_state : Fields F → Result (Unit {0})
  unfolding reject_unknown_fields
  validate_app_state payload = do
    reject_unknown_fields ("type" ∷ "state" ∷ []) payload
    raise_if (not (is_text "app_state" (get_or_null "type" payload))) value_error
    is_known ← text_among ("active" ∷ "inactive" ∷ "background" ∷ []) (get_or_null "state" payload)
    raise_if (not is_known) value_error

  -- `isinstance(value, str)`
  abbrev is_any_text : Value F → Bool
  is_any_text (text s) = true
  is_any_text _ = false

  -- `_validate_animation_lifecycle_payload`
  unfoldable pub validate_animation_lifecycle : Fields F → Result (Unit {0})
  unfolding reject_unknown_fields non_negative_int
  validate_animation_lifecycle payload = do
    reject_unknown_fields
        ("type" ∷ "animation_id" ∷ "status" ∷ "node_id" ∷ "property" ∷ "reason" ∷ []) payload
    raise_if (not (is_positive_int (get_or_null "animation_id" payload))) value_error
    node_id ← non_negative_int true (get_or_null "node_id" payload)
    raise_if (node_id == 0) value_error
    is_known ← text_among ("completed" ∷ "cancelled" ∷ []) (get_or_null "status" payload)
    raise_if (not is_known) value_error
    raise_if (not (is_non_empty_text (get_or_null "property" payload))) type_error
    let reason = get_or_null "reason" payload
    raise_if (not (is_null reason) && not (is_any_text reason)) type_error

  -- The branch for `__vyne_system__`.
  unfoldable pub validate_system : Fields F → Result (Unit {0})
  unfolding validate_receipt validate_animation_lifecycle validate_app_state
  validate_system payload =
      let kind = get_or_null "type" payload in
      if is_text "native_apply_result" kind
      then validate_receipt payload
      else (if is_text "animation_lifecycle" kind
          then validate_animation_lifecycle payload
          else (if is_text "app_state" kind then validate_app_state payload else raise value_error))

  -- The loop over the specified payload fields, and the one that rejects all others.
  unfoldable pub validate_payload_specs :
      List (String × (Value F → Result (Unit {0}))) → Fields F → Result (Unit {0})
  validate_payload_specs [] payload = ok tt
  validate_payload_specs ((name, validate) ∷ specs) payload = do
    elim (get name payload) [ none ↦ ok tt | some v ↦ validate v ]
    validate_payload_specs specs payload

  unfoldable pub validate_payload : EventSpec F → Fields F → Result (Unit {0})
  unfolding validate_payload_specs reject_unknown_fields
  validate_payload spec payload = if spec.open_payload then ok tt else (do
    validate_payload_specs spec.payload_specs payload
    reject_unknown_fields spec.payload_fields payload)

  abbrev text_or_raise : Option (Value F) → Result String
  text_or_raise (some (text s)) = ok s
  text_or_raise _ = raise type_error

  abbrev object_or_raise : Option (Value F) → Result (Fields F)
  object_or_raise (some (object fields)) = ok fields
  object_or_raise _ = raise type_error

module _ {F : Type 0} (floats : Floats F) (registry : Registry F) where
  -- The payload, by the event's type.
  unfoldable pub validate_event_payload : String → Fields F → Result (Unit {0})
  unfolding validate_system validate_payload
  validate_event_payload event_type payload =
      if string_eq.beq event_type "__vyne_system__"
      then validate_system payload
      else (elim (registry.event_spec event_type) [
        | none ↦ raise value_error
        | some spec ↦ validate_payload spec payload
      ])

  -- `_validate_event_message`
  unfoldable pub validate_event : Fields F → Result (Unit {0})
  unfolding reject_unknown_fields non_negative_int check_int_field validate_event_payload
  validate_event event = do
    reject_unknown_fields ("type" ∷ "seq" ∷ "target" ∷ "event" ∷ "handler" ∷ "payload" ∷ []) event
    raise_if (not (is_text "event" (get_or_null "type" event))) value_error
    event_type ← text_or_raise (get "event" event)
    target ← non_negative_int true (get_or_null "target" event)
    handler ← non_negative_int false (get_or_null "handler" event)
    check_int_field false event "seq"
    payload ← object_or_raise (get "payload" event)
    validate_event_payload event_type payload

  -- The loop over a batch of events.
  unfoldable pub validate_events : Values F → Result (Unit {0})
  unfolding validate_event
  validate_events nil = ok tt
  validate_events (cons (object event) events) = do validate_event event; validate_events events
  validate_events (cons v events) = raise type_error

  -- The branch for a batch.
  unfoldable pub validate_batch : Fields F → Result (Unit {0})
  unfolding validate_events reject_unknown_fields
  validate_batch message = elim (get "events" message) as (λ _. Result (Unit {0})) [
    | some (items events) ↦ do
      reject_unknown_fields ("type" ∷ "events" ∷ []) message
      validate_events events
    | _ ↦ raise type_error
  ]

  abbrev validate_by_type : String → Fields F → Result (Unit {0})
  unfolding validate_commit validate_event validate_batch
  validate_by_type kind message =
      if string_eq.beq kind "commit"
      then validate_commit floats registry message
      else (if string_eq.beq kind "event"
          then validate_event message
          else (if string_eq.beq kind "events" then validate_batch message else raise value_error))

  unfoldable pub validate_message : Fields F → Result (Unit {0})
  unfolding validate_by_type
  validate_message message = do
    kind ← text_or_raise (get "type" message)
    validate_by_type kind message
