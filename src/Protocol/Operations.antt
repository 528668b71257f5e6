-- ===== src/Protocol/Operations.antt =====
-- What the validators of packages/vyne/src/vyne/protocol.py check of an operation beyond its
-- envelope.
use vyne.Common.{
  Bool, Result, is_some, String, false, if◌then◌else◌, none, not, ok, raise, raise_if, some, true,
  type_error, value_error, ◌>>=◌, ◌>>◌, ◌==◌, ◌||◌,
}
use vyne.Common.Ints.{pos}
use vyne.Protocol.Checks.{Registry, known}
use vyne.Protocol.Values.{
  Fields, Floats, Value, below_zero, boolean, end, field, integer, is_finite, is_text, item, object,
  text,
}

module _ {F : Type 0} (floats : Floats F) (registry : Registry F) where
  unfoldable pub semantic_create : Fields F → Result (Unit {0})
  semantic_create op = do
    kind ← item "kind" op
    is_kind ← known registry.is_kind kind
    raise_if (not is_kind) value_error

  -- `isinstance(name, str) and is_known_prop(name)`
  abbrev pub is_known_name : Value F → Bool
  is_known_name (text s) = registry.is_known_prop s
  is_known_name _ = false

  -- `spec = resolve_prop(name)`, and its validation if there is one.
  abbrev pub validate_value : String → Value F → Result (Unit {0})
  validate_value name value = elim (registry.validate_prop name) [
    | none ↦ ok tt
    | some validate ↦ validate value
  ]

  abbrev pub validate_named : Value F → Value F → Result (Unit {0})
  validate_named (text name) value = validate_value name value
  validate_named _ value = ok tt

  unfoldable pub semantic_prop : Fields F → Result (Unit {0})
  semantic_prop op = do
    name ← item "name" op
    raise_if (not (is_known_name name)) value_error
    kind ← item "op" op
    if is_text "set_prop" kind then (item "value" op >>= validate_named name) else ok tt

  -- The loop over the properties.
  unfoldable pub validate_props : Fields F → Result (Unit {0})
  validate_props end = ok tt
  validate_props (field name value rest) = do
    raise_if (not (registry.is_known_prop name)) value_error
    validate_value name value
    validate_props rest

  unfoldable pub semantic_set_props : Fields F → Result (Unit {0})
  unfolding validate_props
  semantic_set_props op = do
    props ← item "props" op
    elim props as (λ _. Result (Unit {0})) [
      | object fields ↦ validate_props fields
      | _ ↦ raise type_error
    ]

  unfoldable pub semantic_event : Fields F → Result (Unit {0})
  semantic_event op = do
    event ← item "event" op
    is_event ← known (λ name. is_some (registry.event_spec name)) event
    raise_if (not is_event) value_error

  -- One round of the loop over the offsets.
  abbrev pub check_offset : Value F → Result (Unit {0})
  check_offset value = do
    finite ← is_finite floats value
    raise_if (not finite || below_zero floats value) value_error

  abbrev pub is_boolean : Value F → Bool
  is_boolean (boolean b) = true
  is_boolean _ = false

  abbrev pub is_zero : Value F → Bool
  is_zero (integer (pos n)) = n == 0
  is_zero _ = false

  unfoldable pub semantic_scroll_to : Fields F → Result (Unit {0})
  semantic_scroll_to op = do
    id ← item "id" op
    raise_if (is_zero id) value_error
    x ← item "offset_x" op
    check_offset x
    y ← item "offset_y" op
    check_offset y
    animated ← item "animated" op
    raise_if (not (is_boolean animated)) type_error
