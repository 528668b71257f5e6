-- ===== src/Protocol/Motion.antt =====
-- `_validate_motion_operation` of packages/vyne/src/vyne/protocol.py: the operations that control
-- animations.
use Prim.Native.String.{◌++◌ as join}
use vyne.Common.{
  Bool, List, Result, String, [], false, if◌then◌else◌, ltb, none, not, ok, raise, raise_if, some,
  suc, true, value_error, zero, ℕ, ◌%◌, ◌&&◌, ◌++◌, ◌/◌, ◌==◌, ◌>>=◌, ◌>>◌, ◌||◌, ◌∷◌,
}
use vyne.Common.Ints.{negsuc, pos, ℤ}
use vyne.Common.Maps.{string_eq}
use vyne.Protocol.Checks.{Registry, non_negative_int, reject_missing, reject_unknown_fields}
use vyne.Protocol.Values.{
  Fields, Floats, Value, Values, among, any_value, at_most_zero, below_zero, cons, get, integer,
  is_finite, is_non_empty_text, is_null, is_positive_int, is_text, item, items, nil, null,
  outside_unit, text, text_among,
}

abbrev digit : ℕ → String
digit n =
    if n == 0
    then "0"
    else if n == 1
    then "1"
    else if n == 2
    then "2"
    else if n == 3
    then "3"
    else if n == 4
    then "4"
    else if n == 5
    then "5"
    else if n == 6
    then "6"
    else if n == 7
    then "7"
    else if n == 8
    then "8"
    else "9"

digits : ℕ → ℕ → String
digits zero n = ""
digits (suc fuel) n =
    let rest = digits fuel (n / 10) in if ltb n 10 then digit n else join rest (digit (n % 10))

-- An int in an f-string. A number has no more digits than itself and one.
unfoldable pub decimal : ℤ → String
unfolding digits
decimal (pos n) = digits (suc n) n
decimal (negsuc n) = join "-" (digits (suc (suc n)) (suc n))

-- `f"driver:{driver_id}"`
unfoldable pub driver_slot : ℤ → String
unfolding decimal
driver_slot driver_id = join "driver:" (decimal driver_id)

module _ {F : Type 0} (floats : Floats F) (registry : Registry F) where
  -- The value of an int.
  abbrev int_of : Value F → ℤ
  int_of (integer i) = i
  int_of _ = pos 0

  -- The checks of a driver's id and of the slot that it names.
  unfoldable pub check_driver : Value F → Value F → Result (Unit {0})
  unfolding driver_slot
  check_driver driver_id slot_key = do
    raise_if (not (is_positive_int driver_id)) value_error
    raise_if (not (is_text (driver_slot (int_of driver_id)) slot_key)) value_error

  -- The branch for `motion_cancel` and `motion_driver_cancel`.
  unfoldable pub validate_cancel : Bool → Fields F → Result (Unit {0})
  unfolding reject_unknown_fields check_driver
  validate_cancel driver op = do
    let required = "op" ∷ "slot_key" ∷ "animation_id" ∷ (if driver then "driver_id" ∷ [] else [])
    reject_missing required op
    reject_unknown_fields required op
    animation_id ← item "animation_id" op
    raise_if (not (is_positive_int animation_id)) value_error
    slot_key ← item "slot_key" op
    raise_if (not (is_non_empty_text slot_key)) value_error
    if driver then (item "driver_id" op >>= λ id. check_driver id slot_key) else ok tt

  -- The fields of a set-target operation that must stand there, and the two that may.
  abbrev common : Bool → List String
  common driver =
      "op"
      ∷ "animation_id"
      ∷ "slot_key"
      ∷ "node_id"
      ∷ "property"
      ∷ "targets"
      ∷ "spec_type"
      ∷ "retarget"
      ∷ (if driver then "driver_id" ∷ [] else [])

  abbrev optional : Bool → List String
  optional driver = "from_value" ∷ (if driver then [] else "slot_id" ∷ [])

  abbrev spec_fields : Bool → List String
  spec_fields true = "duration_ms" ∷ "easing" ∷ []
  spec_fields false =
      "stiffness" ∷ "damping_ratio" ∷ "rest_value_threshold" ∷ "rest_velocity_threshold" ∷ []

  -- `op.get(name)`, where a missing key is None.
  abbrev pub get_or_null : String → Fields F → Value F
  get_or_null name op = elim (get name op) [ none ↦ null | some v ↦ v ]

  -- `True` for a tween, `False` for a spring.
  abbrev spec_of : Value F → Result Bool
  spec_of spec_type =
      if is_text "tween" spec_type
      then ok true
      else (if is_text "spring" spec_type then ok false else raise value_error)

  abbrev text_of : Value F → String
  text_of (text s) = s
  text_of _ = ""

  -- The slot key that the fields of an operation determine.
  unfoldable pub expected_slot : ℕ → Value F → String → String
  unfolding decimal
  expected_slot node_id (text slot_id) property =
      join "view:" (join (decimal (pos node_id)) (join ":slot:" (join slot_id (join ":" property))))
  expected_slot node_id _ property =
      join "view:" (join (decimal (pos node_id)) (join ":prop:" property))

  -- The checks of the slot of an operation without a driver.
  unfoldable pub check_slot : ℕ → Value F → String → Value F → Result (Unit {0})
  unfolding expected_slot
  check_slot node_id slot_id property slot_key = do
    raise_if (not (is_text (expected_slot node_id slot_id property) slot_key)) value_error
    raise_if
        (not (
          if is_null slot_id
          then registry.is_animatable property
          else registry.is_canvas_field property))
        value_error

  -- The loop over the targets.
  unfoldable pub check_all_finite : Values F → Result (Unit {0})
  check_all_finite nil = ok tt
  check_all_finite (cons v vs) = do
    finite ← is_finite floats v
    raise_if (not finite) value_error
    check_all_finite vs

  -- A list with something in it.
  abbrev non_empty_list : Value F → Result (Values F)
  non_empty_list (items (cons v vs)) = ok (cons v vs)
  non_empty_list _ = raise value_error

  abbrev pub in_unit : List String
  in_unit = "opacity" ∷ "trim_start" ∷ "trim_end" ∷ []

  abbrev pub non_negative : List String
  non_negative = "elevation" ∷ "width" ∷ "height" ∷ "radius" ∷ "r" ∷ "stroke_width" ∷ []

  -- The checks of values against the domain of the property, none for a driver.
  unfoldable pub check_domain : Bool → String → Values F → Result (Unit {0})
  check_domain driver property values = do
    raise_if (not driver && among property in_unit && any_value (outside_unit floats) values)
        value_error
    raise_if (not driver && among property non_negative && any_value (below_zero floats) values)
        value_error

  abbrev pub append_value : Values F → Value F → Values F
  append_value nil v = cons v nil
  append_value (cons w ws) v = cons w (append_value ws v)

  -- From `targets` to `from_value`.
  unfoldable pub check_values : Bool → String → Fields F → Result (Unit {0})
  unfolding check_all_finite check_domain
  check_values driver property op = do
    raw ← item "targets" op
    targets ← non_empty_list raw
    check_all_finite targets
    check_domain driver property targets
    let from_value = get_or_null "from_value" op
    finite ← (if is_null from_value then ok true else is_finite floats from_value)
    raise_if (not finite) value_error
    check_domain driver property
        (if is_null from_value then targets else append_value targets from_value)

  abbrev is_non_negative_int : Value F → Bool
  is_non_negative_int (integer (pos n)) = true
  is_non_negative_int _ = false

  unfoldable pub check_tween : Fields F → Result (Unit {0})
  check_tween op = do
    duration ← item "duration_ms" op
    raise_if (not (is_non_negative_int duration)) value_error
    easing ← item "easing" op
    is_known ←
        text_among ("linear" ∷ "ease_in" ∷ "ease_out" ∷ "ease_in_out" ∷ "overshoot" ∷ "bounce" ∷ [])
          easing
    raise_if (not is_known) value_error

  -- One round of the loops over the fields of a spring.
  abbrev pub check_spring_field : Fields F → (Value F → Bool) → String → Result (Unit {0})
  check_spring_field op refused name = do
    value ← item name op
    finite ← is_finite floats value
    raise_if (not finite || refused value) value_error

  unfoldable pub check_spring : Fields F → Result (Unit {0})
  check_spring op = do
    check_spring_field op (at_most_zero floats) "stiffness"
    check_spring_field op (at_most_zero floats) "damping_ratio"
    check_spring_field op (below_zero floats) "rest_value_threshold"
    check_spring_field op (below_zero floats) "rest_velocity_threshold"

  -- The checks between the envelope and the targets; answers with the property's name.
  unfoldable pub check_identity : Bool → Fields F → Result String
  unfolding non_negative_int check_driver check_slot
  check_identity driver op = do
    animation_id ← item "animation_id" op
    raise_if (not (is_positive_int animation_id)) value_error
    raw_id ← item "node_id" op
    node_id ← non_negative_int true raw_id
    raise_if (node_id == 0) value_error
    property ← item "property" op
    raise_if (not (is_non_empty_text property)) value_error
    slot_key ← item "slot_key" op
    (if driver then check_driver (get_or_null "driver_id" op) slot_key else ok tt)
    let slot_id = get_or_null "slot_id" op
    raise_if (not (is_null slot_id) && not (is_non_empty_text slot_id)) value_error
    (if driver then ok tt else check_slot node_id slot_id (text_of property) slot_key)
    ok (text_of property)

  -- The branch for `motion_set_target` and `motion_driver_set_target`.
  unfoldable pub validate_set_target : Bool → Fields F → Result (Unit {0})
  unfolding reject_unknown_fields check_identity check_values check_tween check_spring
  validate_set_target driver op = do
    tween ← spec_of (get_or_null "spec_type" op)
    let required = common driver ++ spec_fields tween
    reject_missing required op
    reject_unknown_fields (required ++ optional driver) op
    property ← check_identity driver op
    check_values driver property op
    retarget ← item "retarget" op
    is_known ← text_among ("restart" ∷ "maintain_velocity" ∷ "snap_to_end" ∷ "ignore" ∷ []) retarget
    raise_if (not is_known) value_error
    if tween then check_tween op else check_spring op
