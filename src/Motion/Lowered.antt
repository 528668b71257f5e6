-- ===== src/Motion/Lowered.antt =====
-- The fields of the operation that a command with a target is lowered to
-- (packages/vyne/src/vyne/motion.py), and what is left of its validation (protocol.py).
use vyne.Common.{
  Bool, List, Option, Result, String, [], arith, false, none, not, ok, raise_if, refl, some, true,
  value_error, ◌>>=◌, ◌>>◌, ◌∷◌, ◌≡◌, ◌↔◌, if◌then◌else◌,
}
use vyne.Common.Ints.{ℤ}
use vyne.Common.Maps.{string_eq}
use vyne.Motion.Commands.{
  check_finite, check_from, check_keyframes, SetTarget, motion_command_to_dict, set_target,
  set_target_init, targets,
}
use vyne.Motion.Constructed.{HasSlot, check_spring_lem, check_tween_lem, slot_of}
use vyne.Motion.Domains.{HasValues, IsFiniteFrom, IsFinite-number}
use vyne.Motion.Specs.{
  RetargetPolicy, ignore, maintain_velocity, restart, snap_to_end, MotionSpec, Number,
  PresentationSlot, policy_name, slot_init, spec_init, spring, tween,
}
use vyne.Protocol.Checks.{Registry}
use vyne.Protocol.Commits.{validate_operation}
use vyne.Protocol.Motion.{check_identity, check_spring, check_tween, check_values}
use vyne.Protocol.Values.{Fields, Floats, get, item, text, text_among}

abbrev pub is_tween : {F : Type 0} → MotionSpec F → Bool
is_tween (tween s) = true
is_tween (spring s) = false

abbrev pub policy_of : {F : Type 0} → MotionSpec F → RetargetPolicy
policy_of (tween s) = s.retarget
policy_of (spring s) = s.retarget

module _ {F : Type 0} (floats : Floats F) (registry : Registry F) (to_float : ℤ → F) where
  retarget_lem :
      (policy : RetargetPolicy)
      → text_among {F = F}
          ("restart" ∷ "maintain_velocity" ∷ "snap_to_end" ∷ "ignore" ∷ [])
          (text (policy_name policy))
        ≡ ok true
  retarget_lem restart = refl
  retarget_lem maintain_velocity = refl
  retarget_lem snap_to_end = refl
  retarget_lem ignore = refl

  -- The checks past the identity.
  abbrev pub rest_of : Bool → Bool → Fields F → String → Result (Unit {0})
  rest_of driver is_tween op property = do
    check_values floats registry driver property op
    retarget ← item "retarget" op
    is_known ← text_among ("restart" ∷ "maintain_velocity" ∷ "snap_to_end" ∷ "ignore" ∷ []) retarget
    raise_if (not is_known) value_error
    if is_tween then check_tween floats registry op else check_spring floats registry op

  abbrev dict_of :
      ℤ
      → PresentationSlot
      → MotionSpec F
      → Number F
      → Option (Number F)
      → List (Number F)
      → Fields F
  dict_of animation_id slot spec target from_value keyframes = motion_command_to_dict to_float (
      set_target (record {
        slot = slot;
        spec = spec;
        target = target;
        from_value = from_value;
        animation_id = animation_id;
        keyframes = keyframes;
      }))

  -- The envelope of the operation is in order.
  envelope :
      (animation_id node_id : ℤ) (property : String) (slot_id : Option String) (spec : MotionSpec F)
      (target : Number F) (from_value : Option (Number F)) (keyframes : List (Number F))
      → let op =
          dict_of animation_id
            (slot_of node_id property slot_id)
            spec
            target
            from_value
            keyframes in
        validate_operation floats registry op
        ≡ (check_identity floats registry false op >>= rest_of false (is_tween spec) op)
  unfolding validate_operation motion_command_to_dict
  envelope a n p none (tween s) t none ks = refl
  envelope a n p none (tween s) t (some f) ks = refl
  envelope a n p none (spring s) t none ks = refl
  envelope a n p none (spring s) t (some f) ks = refl
  envelope a n p (some id) (tween s) t none ks = refl
  envelope a n p (some id) (tween s) t (some f) ks = refl
  envelope a n p (some id) (spring s) t none ks = refl
  envelope a n p (some id) (spring s) t (some f) ks = refl

  -- The fields of the operation.
  slot_fields :
      (animation_id node_id : ℤ) (property : String) (slot_id : Option String) (spec : MotionSpec F)
      (target : Number F) (from_value : Option (Number F)) (keyframes : List (Number F))
      → HasSlot floats registry
          (slot_of node_id property slot_id)
          animation_id
          (dict_of animation_id (slot_of node_id property slot_id) spec target from_value keyframes)
  unfolding motion_command_to_dict
  slot_fields a n p none (tween s) t none ks = (refl, refl, refl, refl, refl)
  slot_fields a n p none (tween s) t (some f) ks = (refl, refl, refl, refl, refl)
  slot_fields a n p none (spring s) t none ks = (refl, refl, refl, refl, refl)
  slot_fields a n p none (spring s) t (some f) ks = (refl, refl, refl, refl, refl)
  slot_fields a n p (some id) (tween s) t none ks = (refl, refl, refl, refl, refl)
  slot_fields a n p (some id) (tween s) t (some f) ks = (refl, refl, refl, refl, refl)
  slot_fields a n p (some id) (spring s) t none ks = (refl, refl, refl, refl, refl)
  slot_fields a n p (some id) (spring s) t (some f) ks = (refl, refl, refl, refl, refl)

  value_fields :
      (animation_id node_id : ℤ) (property : String) (slot_id : Option String) (spec : MotionSpec F)
      (target : Number F) (from_value : Option (Number F)) (keyframes : List (Number F))
      → let op =
          dict_of animation_id
            (slot_of node_id property slot_id)
            spec
            target
            from_value
            keyframes in
        HasValues floats registry (targets to_float target keyframes) from_value op
        × (get "retarget" op ≡ some (text (policy_name (policy_of spec))))
  unfolding motion_command_to_dict
  value_fields a n p none (tween s) t none ks = ((refl, refl), refl)
  value_fields a n p none (tween s) t (some f) ks = ((refl, refl), refl)
  value_fields a n p none (spring s) t none ks = ((refl, refl), refl)
  value_fields a n p none (spring s) t (some f) ks = ((refl, refl), refl)
  value_fields a n p (some id) (tween s) t none ks = ((refl, refl), refl)
  value_fields a n p (some id) (tween s) t (some f) ks = ((refl, refl), refl)
  value_fields a n p (some id) (spring s) t none ks = ((refl, refl), refl)
  value_fields a n p (some id) (spring s) t (some f) ks = ((refl, refl), refl)

  spec_fields_pass :
      (animation_id node_id : ℤ) (property : String) (slot_id : Option String) (spec : MotionSpec F)
      (target : Number F) (from_value : Option (Number F)) (keyframes : List (Number F))
      → spec_init floats spec ≡ ok tt
      → let op =
          dict_of animation_id
            (slot_of node_id property slot_id)
            spec
            target
            from_value
            keyframes in
        (if is_tween spec then check_tween floats registry op else check_spring floats registry op)
        ≡ ok tt
  unfolding motion_command_to_dict spec_init
  spec_fields_pass a n p none (tween s) t none ks h =
      check_tween_lem floats registry s (dict_of a (slot_of n p none) (tween s) t none ks) refl refl
        h
  spec_fields_pass a n p none (tween s) t (some f) ks h =
      check_tween_lem floats registry s (dict_of a (slot_of n p none) (tween s) t (some f) ks) refl
        refl h
  spec_fields_pass a n p none (spring s) t none ks h =
      check_spring_lem floats registry s (dict_of a (slot_of n p none) (spring s) t none ks) refl
        refl refl refl h
  spec_fields_pass a n p none (spring s) t (some f) ks h =
      check_spring_lem floats registry s (dict_of a (slot_of n p none) (spring s) t (some f) ks)
        refl refl refl refl h
  spec_fields_pass a n p (some id) (tween s) t none ks h =
      check_tween_lem floats registry s (dict_of a (slot_of n p (some id)) (tween s) t none ks) refl
        refl h
  spec_fields_pass a n p (some id) (tween s) t (some f) ks h =
      check_tween_lem floats registry s (dict_of a (slot_of n p (some id)) (tween s) t (some f) ks)
        refl refl h
  spec_fields_pass a n p (some id) (spring s) t none ks h =
      check_spring_lem floats registry s (dict_of a (slot_of n p (some id)) (spring s) t none ks)
        refl refl refl refl h
  spec_fields_pass a n p (some id) (spring s) t (some f) ks h =
      check_spring_lem floats registry s
        (dict_of a (slot_of n p (some id)) (spring s) t (some f) ks) refl refl refl refl h

  pub finite_from :
      (from : Option (Number F))
      → check_from floats from ≡ ok tt
      → IsFiniteFrom floats registry from
  finite_from none h = tt
  finite_from (some number) h = IsFinite-number floats registry number h

  -- What is left of the checks once the slot has passed.
  pub rest_iff :
      (driver : Bool) (spec : MotionSpec F) (op : Fields F) (property : String)
      → get "retarget" op ≡ some (text (policy_name (policy_of spec)))
      → (if is_tween spec then check_tween floats registry op else check_spring floats registry op)
        ≡ ok tt
      → (rest_of driver (is_tween spec) op property ≡ ok tt)
        ↔ (check_values floats registry driver property op ≡ ok tt)
  rest_iff driver spec op property r h = ground (arith, retarget_lem (policy_of spec))

  pub set_target_parts :
      (c : SetTarget F)
      → set_target_init floats c ≡ ok tt
      → (slot_init c.slot ≡ ok tt)
        × (spec_init floats c.spec ≡ ok tt)
        × (check_finite floats c.target ≡ ok tt)
        × (check_from floats c.from_value ≡ ok tt)
        × (check_keyframes floats c.keyframes ≡ ok tt)
  unfolding set_target_init
  set_target_parts c h = ground arith

  -- The whole operation of a command whose specification was constructed.
  pub lowered :
      (c : SetTarget F)
      → spec_init floats c.spec ≡ ok tt
      → let op = motion_command_to_dict to_float (set_target c) in
        (validate_operation floats registry op
          ≡ (check_identity floats registry false op >>= rest_of false (is_tween c.spec) op))
        × HasSlot floats registry c.slot c.animation_id op
        × HasValues floats registry (targets to_float c.target c.keyframes) c.from_value op
        × (get "retarget" op ≡ some (text (policy_name (policy_of c.spec))))
        × ((if is_tween c.spec
              then check_tween floats registry op
              else check_spring floats registry op)
            ≡ ok tt)
  lowered c h =
      let (values, retarget) =
        value_fields c.animation_id c.slot.node_id c.slot.property c.slot.slot_id c.spec c.target
          c.from_value c.keyframes in
      (
        envelope c.animation_id c.slot.node_id c.slot.property c.slot.slot_id c.spec c.target
            c.from_value c.keyframes,
        slot_fields c.animation_id c.slot.node_id c.slot.property c.slot.slot_id c.spec c.target
            c.from_value c.keyframes,
        values,
        retarget,
        spec_fields_pass c.animation_id c.slot.node_id c.slot.property c.slot.slot_id c.spec
            c.target c.from_value c.keyframes h,
      )
