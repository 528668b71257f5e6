-- ===== src/Motion/Commands.antt =====
-- The commands of packages/vyne/src/vyne/motion.py, and the operations that they are lowered to.
use Prim.Native.String.{◌++◌ as join}
use vyne.Common.{
  List, Option, Result, String, [], none, not, ok, raise_if, some, value_error, ◌>>=◌, ◌>>◌, ◌∷◌,
}
use vyne.Common.Ints
use vyne.Common.Ints.{negsuc, pos, ℤ}
use vyne.Motion.Specs.{
  MotionSpec, Number, PresentationSlot, float, is_negative, policy_name, slot_init, spec_init,
  spring, to_key, tween, value_of, whole,
}
use vyne.Protocol.Motion.{decimal}
use vyne.Protocol.Values.{
  Fields, Floats, Value, Values, cons, end, field, integer, is_finite, items, nil, real, text,
}

pub record SetTarget (F : Type 0) : Type 0 where
  pub slot : PresentationSlot
  pub spec : MotionSpec F
  pub target : Number F
  pub from_value : Option (Number F)
  pub animation_id : ℤ
  pub keyframes : List (Number F)

pub record Cancel : Type 0 where
  pub slot : PresentationSlot
  pub animation_id : ℤ

pub record DriverSetTarget (F : Type 0) : Type 0 where
  pub driver_id : ℤ
  pub anchor : PresentationSlot
  pub spec : MotionSpec F
  pub target : Number F
  pub from_value : Option (Number F)
  pub animation_id : ℤ
  pub keyframes : List (Number F)

pub record DriverCancel : Type 0 where
  pub driver_id : ℤ
  pub anchor : PresentationSlot
  pub animation_id : ℤ

pub data MotionCommand (F : Type 0) : Type 0 where
  set_target : SetTarget F → MotionCommand F
  cancel : Cancel → MotionCommand F
  driver_set_target : DriverSetTarget F → MotionCommand F
  driver_cancel : DriverCancel → MotionCommand F

-- `driver_key`
unfoldable pub driver_key : ℤ → String
unfolding decimal
driver_key driver_id = join "driver:" (decimal driver_id)

-- `Cancel.__post_init__`, after that of its slot
unfoldable pub cancel_init : Cancel → Result (Unit {0})
unfolding slot_init
cancel_init c = slot_init c.slot >> raise_if (is_negative c.animation_id) value_error

-- `DriverCancel.__post_init__`, after that of its anchor
unfoldable pub driver_cancel_init : DriverCancel → Result (Unit {0})
unfolding slot_init
driver_cancel_init c = do
  slot_init c.anchor
  raise_if (not (Ints.is_positive c.driver_id)) value_error
  raise_if (is_negative c.animation_id) value_error

module _ {F : Type 0} (floats : Floats F) where
  -- `isfinite(value)`, which every number must pass.
  abbrev pub check_finite : Number F → Result (Unit {0})
  check_finite number = do
    finite ← is_finite floats (value_of number)
    raise_if (not finite) value_error

  -- The loop over the keyframes.
  unfoldable pub check_keyframes : List (Number F) → Result (Unit {0})
  check_keyframes [] = ok tt
  check_keyframes (number ∷ numbers) = do check_finite number; check_keyframes numbers

  abbrev pub check_from : Option (Number F) → Result (Unit {0})
  check_from none = ok tt
  check_from (some number) = check_finite number

  -- `SetTarget.__post_init__`, after those of its slot and its specification
  unfoldable pub set_target_init : SetTarget F → Result (Unit {0})
  unfolding slot_init spec_init check_keyframes
  set_target_init c = do
    slot_init c.slot
    spec_init floats c.spec
    raise_if (is_negative c.animation_id) value_error
    check_finite c.target
    check_from c.from_value
    check_keyframes c.keyframes

  -- The SetTarget that a DriverSetTarget constructs to check itself.
  abbrev pub as_set_target : DriverSetTarget F → SetTarget F
  as_set_target c = record {
    slot = c.anchor;
    spec = c.spec;
    target = c.target;
    from_value = c.from_value;
    animation_id = c.animation_id;
    keyframes = c.keyframes;
  }

  -- `DriverSetTarget.__post_init__`, after those of its anchor and its specification
  unfoldable pub driver_set_target_init : DriverSetTarget F → Result (Unit {0})
  unfolding slot_init spec_init set_target_init
  driver_set_target_init c = do
    slot_init c.anchor
    spec_init floats c.spec
    raise_if (not (Ints.is_positive c.driver_id)) value_error
    set_target_init (as_set_target c)

  unfoldable pub command_init : MotionCommand F → Result (Unit {0})
  unfolding set_target_init cancel_init driver_set_target_init driver_cancel_init
  command_init (set_target c) = set_target_init c
  command_init (cancel c) = cancel_init c
  command_init (driver_set_target c) = driver_set_target_init c
  command_init (driver_cancel c) = driver_cancel_init c

-- `slot_id`, if it is there.
abbrev slot_dict : {F : Type 0} → Option String → Fields F → Fields F
slot_dict none rest = rest
slot_dict (some id) rest = field "slot_id" (text id) rest

module _ {F : Type 0} where
  abbrev pub spec_type : MotionSpec F → String
  spec_type (tween spec) = "tween"
  spec_type (spring spec) = "spring"

  abbrev spec_dict : MotionSpec F → Fields F
  spec_dict (tween spec) =
      field "duration_ms" (integer spec.duration_ms) (
        field "easing" (text spec.easing) (field "retarget" (text (policy_name spec.retarget)) end))
  spec_dict (spring spec) = field "stiffness" (value_of spec.stiffness) (
      field "damping_ratio" (value_of spec.damping_ratio) (
        field "rest_value_threshold" (value_of spec.rest_value_threshold) (
          field "rest_velocity_threshold" (value_of spec.rest_velocity_threshold)
            (field "retarget" (text (policy_name spec.retarget)) end))))

  -- `if from_value is not None`
  abbrev from_dict : Option (Number F) → Fields F → Fields F
  from_dict none rest = rest
  from_dict (some number) rest = field "from_value" (value_of number) rest

  -- The branch for the commands that set a target, up to the keys of a slot or a driver.
  abbrev target_dict :
      String → ℤ → String → PresentationSlot → MotionSpec F → Values F → Fields F → Fields F
  target_dict op animation_id slot_key slot spec values rest = field "op" (text op) (
      field "animation_id" (integer animation_id) (
        field "slot_key" (text slot_key) (
          field "node_id" (integer slot.node_id) (
            field "property" (text slot.property)
              (field "spec_type" (text (spec_type spec)) (field "targets" (items values) rest))))))

module _ {F : Type 0} (to_float : ℤ → F) where
  -- `float(value)`
  abbrev as_float : Number F → Value F
  as_float (whole i) = real (to_float i)
  as_float (float r) = real r

  abbrev pub floats_of : List (Number F) → Values F
  floats_of [] = nil
  floats_of (number ∷ numbers) = cons (as_float number) (floats_of numbers)

  -- `targets`
  unfoldable pub targets : Number F → List (Number F) → Values F
  targets target keyframes = floats_of (target ∷ keyframes)

  -- `motion_command_to_dict`
  unfoldable pub motion_command_to_dict : MotionCommand F → Fields F
  unfolding to_key driver_key targets
  motion_command_to_dict (set_target c) =
      target_dict "motion_set_target" c.animation_id (to_key c.slot) c.slot c.spec
        (targets c.target c.keyframes)
        (slot_dict c.slot.slot_id (from_dict c.from_value (spec_dict c.spec)))
  motion_command_to_dict (driver_set_target c) =
      target_dict "motion_driver_set_target" c.animation_id (driver_key c.driver_id) c.anchor c.spec
        (targets c.target c.keyframes)
        (field "driver_id" (integer c.driver_id) (from_dict c.from_value (spec_dict c.spec)))
  motion_command_to_dict (cancel c) =
      field "op" (text "motion_cancel") (
        field "slot_key" (text (to_key c.slot)) (field "animation_id" (integer c.animation_id) end))
  motion_command_to_dict (driver_cancel c) = field "op" (text "motion_driver_cancel") (
      field "slot_key" (text (driver_key c.driver_id)) (
        field "driver_id" (integer c.driver_id)
          (field "animation_id" (integer c.animation_id) end)))
