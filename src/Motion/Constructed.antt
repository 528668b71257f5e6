-- ===== src/Motion/Constructed.antt =====
-- What the construction of a motion command guarantees (packages/vyne/src/vyne/motion.py) and what is
-- left for _validate_motion_operation (protocol.py) to check.
use vyne.Common.{
  Bool, Bool-cases, Option-cases, List, Option, Result, String, [], arith, false, inl, inr, none,
  ok, refl, some, true, ℕ, ◌>>=◌, ◌∷◌, ◌≡◌, ◌↔◌, ◌≤◌, subst, sym,
}
use vyne.Common.Ints
use vyne.Common.Ints.{negsuc, pos, ℤ}
use vyne.Common.Maps.{string_eq}
use vyne.Motion.Commands.{check_finite, check_keyframes, driver_key, floats_of, targets}
use vyne.Motion.Specs.{
  Number, PresentationSlot, Spring, Tween, check_number, float, is_blank, slot_init, spring_init,
  to_key, tween_init, value_of, whole,
}
use vyne.Protocol.Checks.{Registry}
use vyne.Protocol.Motion.{
  check_all_finite, check_driver, check_identity, check_spring, check_spring_field, check_tween,
  driver_slot, expected_slot,
}
use vyne.Protocol.Values.{Fields, Floats, Value, at_most_zero, below_zero, get, integer, null, text}

abbrev pub slot_of : ℤ → String → Option String → PresentationSlot
slot_of node_id property slot_id = record {
  node_id = node_id;
  property = property;
  slot_id = slot_id;
}

module _ {F : Type 0} (floats : Floats F) (registry : Registry F) where
  pub check_tween_lem :
      (spec : Tween) (op : Fields F)
      → get "duration_ms" op ≡ some (integer spec.duration_ms)
      → get "easing" op ≡ some (text spec.easing)
      → tween_init spec ≡ ok tt
      → check_tween floats registry op ≡ ok tt
  unfolding check_tween tween_init
  check_tween_lem spec op d e h = ground arith

  spring_field_lem :
      (refused : Value F → Bool) (name : String) (number : Number F) (op : Fields F)
      → get name op ≡ some (value_of number)
      → check_spring_field floats registry op refused name ≡ check_number floats refused number
  spring_field_lem refused name number op h = ground arith

  pub check_spring_lem :
      (spec : Spring F) (op : Fields F)
      → get "stiffness" op ≡ some (value_of spec.stiffness)
      → get "damping_ratio" op ≡ some (value_of spec.damping_ratio)
      → get "rest_value_threshold" op ≡ some (value_of spec.rest_value_threshold)
      → get "rest_velocity_threshold" op ≡ some (value_of spec.rest_velocity_threshold)
      → spring_init floats spec ≡ ok tt
      → check_spring floats registry op ≡ ok tt
  unfolding check_spring spring_init
  check_spring_lem spec op s d v w h = ground (
    arith,
    spring_field_lem (at_most_zero floats) "stiffness" spec.stiffness op s,
    spring_field_lem (at_most_zero floats) "damping_ratio" spec.damping_ratio op d,
    spring_field_lem (below_zero floats) "rest_value_threshold" spec.rest_value_threshold op v,
    spring_field_lem (below_zero floats) "rest_velocity_threshold" spec.rest_velocity_threshold op
        w,
  )

  -- The conversion of an int to a float gives a finite one, where it does not raise.
  abbrev pub IsConversion : (ℤ → F) → Type 0
  IsConversion to_float = (i : ℤ) → floats.converts i ≡ true → floats.finite (to_float i) ≡ true

  floats_of-finite :
      (to_float : ℤ → F) (numbers : List (Number F))
      → IsConversion to_float
      → check_keyframes floats numbers ≡ ok tt
      → check_all_finite floats registry (floats_of to_float numbers) ≡ ok tt
  unfolding check_all_finite check_keyframes
  floats_of-finite to_float [] c h = refl
  floats_of-finite to_float (whole i ∷ numbers) c h =
      ground (arith, c i, floats_of-finite to_float numbers c)
  floats_of-finite to_float (float r ∷ numbers) c h =
      ground (arith, floats_of-finite to_float numbers c)

  pub targets-finite :
      (to_float : ℤ → F) (target : Number F) (keyframes : List (Number F))
      → IsConversion to_float
      → check_finite floats target ≡ ok tt
      → check_keyframes floats keyframes ≡ ok tt
      → check_all_finite floats registry (targets to_float target keyframes) ≡ ok tt
  unfolding targets check_keyframes
  targets-finite to_float target keyframes c h k =
      floats_of-finite to_float (target ∷ keyframes) c (rw h k)

  -- The node's id is in the host's range.
  abbrev pub IsInRange : ℤ → Type 0
  IsInRange (pos n) = n ≤ 2147483647
  IsInRange (negsuc n) = ⊥

  -- What the slot's own construction leaves open.
  abbrev pub IsKnownSlot : PresentationSlot → Type 0
  IsKnownSlot slot = IsInRange slot.node_id × elim slot.slot_id as (λ _. Type 0) [
    | none ↦ registry.is_animatable slot.property ≡ true
    | some id ↦ (string_eq.beq id "" ≡ false) × (registry.is_canvas_field slot.property ≡ true)
  ]

  abbrev slot_value : Option String → Value F
  slot_value none = null
  slot_value (some id) = text id

  not_blank : (property : String) → is_blank property ≡ false → string_eq.beq property "" ≡ false
  unfolding is_blank
  not_blank property h = elim (Bool-cases (string_eq.beq property "")) [
    | inl e ↦
        let b : is_blank property ≡ true =
          subst (λ s. is_blank s ≡ true) (sym ((string_eq.beq_iff property "").0 e)) refl in
        ground arith
    | inr e ↦ e
  ]

  -- The key of a slot is the one that the validation expects.
  expected_slot_lem :
      (slot : PresentationSlot) (n : ℕ)
      → slot.node_id ≡ pos n
      → expected_slot floats registry n (slot_value slot.slot_id) slot.property ≡ to_key slot
  unfolding expected_slot to_key
  expected_slot_lem slot n h = elim (Option-cases slot.slot_id) [
    | inl e ↦ rw (h, e) refl
    | inr (id, e) ↦ rw (h, e) refl
  ]

  -- The operation carries the slot.
  abbrev pub HasSlot : PresentationSlot → ℤ → Fields F → Type 0
  HasSlot slot animation_id op =
      (get "animation_id" op ≡ some (integer animation_id))
      × (get "node_id" op ≡ some (integer slot.node_id))
      × (get "property" op ≡ some (text slot.property))
      × (get "slot_key" op ≡ some (text (to_key slot)))
      × (get "slot_id" op ≡ elim slot.slot_id [ none ↦ none | some id ↦ some (text id) ])

  -- With a constructed slot, the checks go on exactly where the animation has an id and the slot is
  -- known.
  check_identity_fields :
      (node_id : ℤ) (slot_id : Option String) (property : String) (animation_id : ℤ) (op : Fields F)
      (k : String → Result (Unit {0}))
      → slot_init (slot_of node_id property slot_id) ≡ ok tt
      → HasSlot (slot_of node_id property slot_id) animation_id op
      → ((check_identity floats registry false op >>= k) ≡ ok tt) ↔ (
          (Ints.is_positive animation_id ≡ true)
          × IsKnownSlot (slot_of node_id property slot_id)
          × (k property ≡ ok tt))
  unfolding check_identity slot_init
  check_identity_fields (negsuc n) slot_id property animation_id op k h g = absurd (ground arith)
  check_identity_fields (pos n) none property animation_id op k h g =
      let slot = slot_of (pos n) property none in
      ground (
        arith,
        not_blank property,
        string_eq.beq_iff (to_key slot) (to_key slot),
        expected_slot_lem slot n refl,
      )
  check_identity_fields (pos n) (some id) property animation_id op k h g =
      let slot = slot_of (pos n) property (some id) in
      ground (
        arith,
        not_blank property,
        string_eq.beq_iff (to_key slot) (to_key slot),
        expected_slot_lem slot n refl,
      )

  pub check_identity_iff :
      (slot : PresentationSlot) (animation_id : ℤ) (op : Fields F) (k : String → Result (Unit {0}))
      → slot_init slot ≡ ok tt
      → HasSlot slot animation_id op
      → ((check_identity floats registry false op >>= k) ≡ ok tt)
        ↔ ((Ints.is_positive animation_id ≡ true) × IsKnownSlot slot × (k slot.property ≡ ok tt))
  check_identity_iff slot = check_identity_fields slot.node_id slot.slot_id slot.property

  -- The operation carries the driver.
  abbrev pub HasDriver : ℤ → PresentationSlot → ℤ → Fields F → Type 0
  HasDriver driver_id anchor animation_id op =
      (get "animation_id" op ≡ some (integer animation_id))
      × (get "node_id" op ≡ some (integer anchor.node_id))
      × (get "property" op ≡ some (text anchor.property))
      × (get "slot_key" op ≡ some (text (driver_key driver_id)))
      × (get "driver_id" op ≡ some (integer driver_id))
      × (get "slot_id" op ≡ none)

  -- For a driver the slot need not be known.
  pub check_identity-driver_iff :
      (driver_id : ℤ) (anchor : PresentationSlot) (animation_id : ℤ) (op : Fields F)
      (k : String → Result (Unit {0}))
      → slot_init anchor ≡ ok tt
      → Ints.is_positive driver_id ≡ true
      → HasDriver driver_id anchor animation_id op
      → ((check_identity floats registry true op >>= k) ≡ ok tt) ↔ (
          (Ints.is_positive animation_id ≡ true)
          × IsInRange anchor.node_id
          × (k anchor.property ≡ ok tt))
  unfolding check_identity slot_init check_driver driver_slot driver_key
  check_identity-driver_iff driver_id anchor animation_id op k h d g = ground (
    arith,
    not_blank anchor.property,
    string_eq.beq_iff (driver_key driver_id) (driver_key driver_id),
  )
