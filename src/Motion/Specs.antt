-- ===== src/Motion/Specs.antt =====
-- Slots and motion specifications of packages/vyne/src/vyne/motion.py, and what their construction
-- checks. Arguments have the types that the source annotates; a number may be an int or a float.
use Prim.Native.Char.{Char, code}
use Prim.Native.String.{[] as no_text, ◌++◌ as join, ◌∷◌ as char_then}
use vyne.Common.{
  Bool, Option, Result, String, [], false, leb, none, not, raise_if, some, true, value_error, ◌&&◌,
  ◌==◌, ◌>>=◌, ◌>>◌, ◌||◌, ◌∷◌,
}
use vyne.Common.Ints
use vyne.Common.Ints.{negsuc, pos, ℤ}
use vyne.Protocol.Motion.{decimal}
use vyne.Protocol.Values.{Floats, Value, among, at_most_zero, below_zero, integer, is_finite, real}

-- An int or a float.
pub data Number (F : Type 0) : Type 0 where
  whole : ℤ → Number F
  float : F → Number F

abbrev pub value_of : {F : Type 0} → Number F → Value F
value_of (whole i) = integer i
value_of (float r) = real r

-- `str.isspace` of one character.
abbrev is_space : Char → Bool
is_space c =
    let n = code c in
    (leb 9 n && leb n 13)
    || (leb 28 n && leb n 32)
    || (n == 133)
    || (n == 160)
    || (n == 5760)
    || (leb 8192 n && leb n 8202)
    || (n == 8232)
    || (n == 8233)
    || (n == 8239)
    || (n == 8287)
    || (n == 12288)

-- `not text.strip()`
unfoldable pub is_blank : String → Bool
is_blank no_text = true
is_blank (char_then c s) = is_space c && is_blank s

pub record PresentationSlot : Type 0 where
  pub node_id : ℤ
  pub property : String
  pub slot_id : Option String

-- `PresentationSlot.__post_init__`, for fields of the types that the class declares.
unfoldable pub slot_init : PresentationSlot → Result (Unit {0})
unfolding is_blank
slot_init slot = do
  raise_if (not (Ints.is_positive slot.node_id)) value_error
  raise_if (is_blank slot.property) value_error

-- `PresentationSlot.to_key`
unfoldable pub to_key : PresentationSlot → String
unfolding decimal
to_key slot = elim slot.slot_id [
  | some id ↦
      join "view:" (join (decimal slot.node_id) (join ":slot:" (join id (join ":" slot.property))))
  | none ↦ join "view:" (join (decimal slot.node_id) (join ":prop:" slot.property))
]

pub data RetargetPolicy : Type 0 where
  restart maintain_velocity snap_to_end ignore : RetargetPolicy

-- `policy.name.lower()`
abbrev pub policy_name : RetargetPolicy → String
policy_name restart = "restart"
policy_name maintain_velocity = "maintain_velocity"
policy_name snap_to_end = "snap_to_end"
policy_name ignore = "ignore"

pub record Tween : Type 0 where
  pub duration_ms : ℤ
  pub easing : String
  pub retarget : RetargetPolicy

abbrev pub is_negative : ℤ → Bool
is_negative (pos n) = false
is_negative (negsuc n) = true

-- `Tween.__post_init__`
unfoldable pub tween_init : Tween → Result (Unit {0})
tween_init spec = do
  raise_if (is_negative spec.duration_ms) value_error
  raise_if
      (not (
        among spec.easing
          ("linear" ∷ "ease_in" ∷ "ease_out" ∷ "ease_in_out" ∷ "overshoot" ∷ "bounce" ∷ [])))
      value_error

pub record Spring (F : Type 0) : Type 0 where
  pub stiffness : Number F
  pub damping_ratio : Number F
  pub rest_value_threshold : Number F
  pub rest_velocity_threshold : Number F
  pub retarget : RetargetPolicy

pub data MotionSpec (F : Type 0) : Type 0 where
  tween : Tween → MotionSpec F
  spring : Spring F → MotionSpec F

module _ {F : Type 0} (floats : Floats F) where
  -- `isfinite`, and one round of the loops over the fields of a spring.
  abbrev pub check_number : (Value F → Bool) → Number F → Result (Unit {0})
  check_number refused number = do
    finite ← is_finite floats (value_of number)
    raise_if (not finite || refused (value_of number)) value_error

  -- `Spring.__post_init__`
  unfoldable pub spring_init : Spring F → Result (Unit {0})
  spring_init spec = do
    check_number (at_most_zero floats) spec.stiffness
    check_number (at_most_zero floats) spec.damping_ratio
    check_number (below_zero floats) spec.rest_value_threshold
    check_number (below_zero floats) spec.rest_velocity_threshold

  unfoldable pub spec_init : MotionSpec F → Result (Unit {0})
  unfolding tween_init spring_init
  spec_init (tween spec) = tween_init spec
  spec_init (spring spec) = spring_init spec
