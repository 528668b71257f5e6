-- ===== src/Motion/DriverValidity.antt =====
-- The operations of constructed commands that set a driver's target
-- (packages/vyne/src/vyne/motion.py) against the validation of messages (protocol.py).
use vyne.Common.{List, Option, arith, none, ok, refl, some, true, ◌>>=◌, ◌≡◌, ◌↔◌, if◌then◌else◌}
use vyne.Common.Ints
use vyne.Common.Ints.{ℤ}
use vyne.Motion.Commands.{
  DriverSetTarget, as_set_target, driver_set_target, driver_set_target_init, motion_command_to_dict,
  set_target_init, targets,
}
use vyne.Motion.Constructed.{
  HasDriver, IsConversion, IsInRange, check_identity-driver_iff, check_spring_lem, check_tween_lem,
  targets-finite,
}
use vyne.Motion.Domains.{HasValues, check_values-driver}
use vyne.Motion.Specs.{MotionSpec, Number, PresentationSlot, policy_name, spec_init, spring, tween}
use vyne.Motion.Lowered.{finite_from, is_tween, policy_of, rest_iff, rest_of, set_target_parts}
use vyne.Protocol.Checks.{Registry}
use vyne.Protocol.Commits.{validate_operation}
use vyne.Protocol.Motion.{check_identity, check_spring, check_tween}
use vyne.Protocol.Values.{Fields, Floats, get, text}

module _ {F : Type 0} (floats : Floats F) (registry : Registry F) (to_float : ℤ → F) where
  -- What the construction of a driver's command leaves open.
  abbrev pub IsSendableDriver : DriverSetTarget F → Type 0
  IsSendableDriver c =
      (Ints.is_positive c.animation_id ≡ true) × IsInRange floats registry c.anchor.node_id

  abbrev dict_of :
      ℤ
      → ℤ
      → PresentationSlot
      → MotionSpec F
      → Number F
      → Option (Number F)
      → List (Number F)
      → Fields F
  dict_of driver_id animation_id anchor spec target from_value keyframes =
      motion_command_to_dict to_float (
        driver_set_target (record {
          driver_id = driver_id;
          anchor = anchor;
          spec = spec;
          target = target;
          from_value = from_value;
          animation_id = animation_id;
          keyframes = keyframes;
        }))

  envelope :
      (driver_id animation_id : ℤ) (anchor : PresentationSlot) (spec : MotionSpec F)
      (target : Number F) (from_value : Option (Number F)) (keyframes : List (Number F))
      → let op = dict_of driver_id animation_id anchor spec target from_value keyframes in
        validate_operation floats registry op ≡ (
          check_identity floats registry true op
          >>= rest_of floats registry to_float true (is_tween spec) op)
  unfolding validate_operation motion_command_to_dict
  envelope d a slot (tween s) t none ks = refl
  envelope d a slot (tween s) t (some f) ks = refl
  envelope d a slot (spring s) t none ks = refl
  envelope d a slot (spring s) t (some f) ks = refl

  driver_fields :
      (driver_id animation_id : ℤ) (anchor : PresentationSlot) (spec : MotionSpec F)
      (target : Number F) (from_value : Option (Number F)) (keyframes : List (Number F))
      → let op = dict_of driver_id animation_id anchor spec target from_value keyframes in
        HasDriver floats registry driver_id anchor animation_id op
        × HasValues floats registry (targets to_float target keyframes) from_value op
        × (get "retarget" op ≡ some (text (policy_name (policy_of spec))))
  unfolding motion_command_to_dict
  driver_fields d a slot (tween s) t none ks =
      ((refl, refl, refl, refl, refl, refl), (refl, refl), refl)
  driver_fields d a slot (tween s) t (some f) ks =
      ((refl, refl, refl, refl, refl, refl), (refl, refl), refl)
  driver_fields d a slot (spring s) t none ks =
      ((refl, refl, refl, refl, refl, refl), (refl, refl), refl)
  driver_fields d a slot (spring s) t (some f) ks =
      ((refl, refl, refl, refl, refl, refl), (refl, refl), refl)

  spec_fields_pass :
      (driver_id animation_id : ℤ) (anchor : PresentationSlot) (spec : MotionSpec F)
      (target : Number F) (from_value : Option (Number F)) (keyframes : List (Number F))
      → spec_init floats spec ≡ ok tt
      → let op = dict_of driver_id animation_id anchor spec target from_value keyframes in
        (if is_tween spec then check_tween floats registry op else check_spring floats registry op)
        ≡ ok tt
  unfolding motion_command_to_dict spec_init
  spec_fields_pass d a slot (tween s) t none ks h =
      check_tween_lem floats registry s (dict_of d a slot (tween s) t none ks) refl refl h
  spec_fields_pass d a slot (tween s) t (some f) ks h =
      check_tween_lem floats registry s (dict_of d a slot (tween s) t (some f) ks) refl refl h
  spec_fields_pass d a slot (spring s) t none ks h =
      check_spring_lem floats registry s (dict_of d a slot (spring s) t none ks) refl refl refl refl
        h
  spec_fields_pass d a slot (spring s) t (some f) ks h =
      check_spring_lem floats registry s (dict_of d a slot (spring s) t (some f) ks) refl refl refl
        refl h

  driver_parts :
      (c : DriverSetTarget F)
      → driver_set_target_init floats c ≡ ok tt
      → (Ints.is_positive c.driver_id ≡ true)
        × (set_target_init floats (as_set_target floats c) ≡ ok tt)
  unfolding driver_set_target_init
  driver_parts c h = ground arith

  pub driver_set_target_iff :
      (c : DriverSetTarget F)
      → IsConversion floats registry to_float
      → driver_set_target_init floats c ≡ ok tt
      → (validate_operation floats registry (motion_command_to_dict to_float (driver_set_target c))
          ≡ ok tt)
        ↔ IsSendableDriver c
  unfolding targets
  driver_set_target_iff c conversion h =
      let op = motion_command_to_dict to_float (driver_set_target c) in
      let (positive, inner) = driver_parts c h in
      let (s, i, t, f, k) =
        set_target_parts floats registry to_float (as_set_target floats c) inner in
      let e =
        envelope c.driver_id c.animation_id c.anchor c.spec c.target c.from_value c.keyframes in
      let (has_driver, has_values, retarget) =
        driver_fields c.driver_id c.animation_id c.anchor c.spec c.target c.from_value
          c.keyframes in
      let spec =
        spec_fields_pass c.driver_id c.animation_id c.anchor c.spec c.target c.from_value
          c.keyframes i in
      let identity =
        check_identity-driver_iff floats registry c.driver_id c.anchor c.animation_id op
          (rest_of floats registry to_float true (is_tween c.spec) op) s positive has_driver in
      let rest = rest_iff floats registry to_float true c.spec op c.anchor.property retarget spec in
      let values =
        check_values-driver floats registry c.anchor.property _ _ c.from_value op has_values
          (targets-finite floats registry to_float c.target c.keyframes conversion t k)
          (finite_from floats registry to_float c.from_value f) in
      rw e (λ v. let (p, r, x) = identity.0 v in (p, r), λ (p, r). identity.1 (p, r, rest.1 values))
