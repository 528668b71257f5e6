-- ===== src/Protocol/Commits.antt =====
-- Commit messages (packages/vyne/src/vyne/protocol.py): the table of validators, the dispatcher and
-- the envelope.
use vyne.Common.{
  List, Option, Result, String, [], false, none, ok, raise, some, true, type_error, value_error,
  zero, ◌>>◌, ◌∷◌,
}
use vyne.Common.Ints.{negsuc, pos}
use vyne.Common.Maps.{lookup, string_eq}
use vyne.Protocol.Checks.{Registry, reject_unknown_fields, simple_op_validator}
use vyne.Protocol.Motion.{validate_cancel, validate_set_target}
use vyne.Protocol.Operations.{
  semantic_create, semantic_event, semantic_prop, semantic_scroll_to, semantic_set_props,
}
use vyne.Protocol.Values.{
  Fields, Floats, Value, Values, cons, get, integer, items, nil, object, text,
}

module _ {F : Type 0} (floats : Floats F) (registry : Registry F) where
  abbrev Validator : Type 0
  Validator = Fields F → Result (Unit {0})

  abbrev nothing_more : Validator
  nothing_more op = ok tt

  abbrev simple : List String → Validator → Validator
  simple required semantic = simple_op_validator required [] semantic

  -- `_OPERATION_VALIDATORS`
  unfoldable pub operation_validators : List (String × (Fields F → Result (Unit {0})))
  unfolding simple_op_validator semantic_create semantic_set_props semantic_prop semantic_event
      semantic_scroll_to validate_set_target validate_cancel
  operation_validators =
      ("clear", simple ("op" ∷ "id" ∷ []) nothing_more)
      ∷ ("create", simple ("op" ∷ "id" ∷ "kind" ∷ []) (semantic_create floats registry))
      ∷ ("set_props", simple ("op" ∷ "id" ∷ "props" ∷ []) (semantic_set_props floats registry))
      ∷ ("set_prop", simple ("op" ∷ "id" ∷ "name" ∷ "value" ∷ []) (semantic_prop floats registry))
      ∷ ("remove_prop", simple ("op" ∷ "id" ∷ "name" ∷ []) (semantic_prop floats registry))
      ∷ ("listen", simple ("op" ∷ "id" ∷ "event" ∷ "handler" ∷ []) (semantic_event floats registry))
      ∷ (
        "listen_latest",
        simple ("op" ∷ "id" ∷ "event" ∷ "handler" ∷ []) (semantic_event floats registry),
      )
      ∷ ("unlisten", simple ("op" ∷ "id" ∷ "event" ∷ []) (semantic_event floats registry))
      ∷ ("insert_child", simple ("op" ∷ "parent" ∷ "child" ∷ "index" ∷ []) nothing_more)
      ∷ ("move_child", simple ("op" ∷ "parent" ∷ "child" ∷ "index" ∷ []) nothing_more)
      ∷ ("remove_child", simple ("op" ∷ "parent" ∷ "child" ∷ []) nothing_more)
      ∷ ("remove", simple ("op" ∷ "id" ∷ []) nothing_more)
      ∷ (
        "scroll_to",
        simple ("op" ∷ "id" ∷ "offset_x" ∷ "offset_y" ∷ "animated" ∷ [])
            (semantic_scroll_to floats registry),
      )
      ∷ ("motion_set_target", validate_set_target floats registry false)
      ∷ ("motion_cancel", validate_cancel floats registry false)
      ∷ ("motion_driver_set_target", validate_set_target floats registry true)
      ∷ ("motion_driver_cancel", validate_cancel floats registry true)
      ∷ []

  -- `_validate_operation`
  unfoldable pub validate_operation : Fields F → Result (Unit {0})
  unfolding operation_validators lookup
  validate_operation op = elim (get "op" op) as (λ _. Result (Unit {0})) [
    | some (text name) ↦ elim (lookup name operation_validators) [
      | none ↦ raise value_error
      | some validator ↦ validator op
    ]
    | _ ↦ raise type_error
  ]

  -- The loop over the operations.
  unfoldable pub validate_operations : Values F → Result (Unit {0})
  unfolding validate_operation
  validate_operations nil = ok tt
  validate_operations (cons (object op) ops) = do validate_operation op; validate_operations ops
  validate_operations (cons v ops) = raise type_error

  abbrev check_revision : Option (Value F) → Result (Unit {0})
  check_revision (some (integer (pos n))) = ok tt
  check_revision (some (integer (negsuc zero))) = ok tt
  check_revision (some (integer (negsuc n))) = raise value_error
  check_revision _ = raise type_error

  abbrev check_origin : Option (Value F) → Result (Unit {0})
  check_origin none = ok tt
  check_origin (some (integer (pos n))) = ok tt
  check_origin (some _) = raise type_error

  -- `_validate_commit_message`
  unfoldable pub validate_commit : Fields F → Result (Unit {0})
  unfolding reject_unknown_fields validate_operations
  validate_commit message = do
    reject_unknown_fields ("type" ∷ "revision" ∷ "origin_event_seq" ∷ "ops" ∷ []) message
    check_revision (get "revision" message)
    check_origin (get "origin_event_seq" message)
    elim (get "ops" message) as (λ _. Result (Unit {0})) [
      | some (items ops) ↦ validate_operations ops
      | _ ↦ raise type_error
    ]
