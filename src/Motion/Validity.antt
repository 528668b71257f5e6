-- ===== src/Motion/Validity.antt =====
-- The operation of a constructed command that sets a target (packages/vyne/src/vyne/motion.py)
-- against the validation of messages (protocol.py).
use vyne.Common.{false, ok, true, ◌≡◌, ◌↔◌}
use vyne.Common.Ints
use vyne.Common.Ints.{negsuc, pos, ℤ}
use vyne.Common.Maps.{string_eq}
use vyne.Motion.Commands.{SetTarget, motion_command_to_dict, set_target, set_target_init, targets}
use vyne.Motion.Constructed.{IsConversion, IsKnownSlot, check_identity_iff, targets-finite}
use vyne.Motion.Domains.{IsInDomain, all_values, check_values_iff}
use vyne.Protocol.Checks.{Registry}
use vyne.Protocol.Commits.{validate_operation}
use vyne.Protocol.Values.{Floats}
use vyne.Motion.Lowered.{lowered, is_tween, rest_of, finite_from, rest_iff, set_target_parts}

module _ {F : Type 0} (floats : Floats F) (registry : Registry F) (to_float : ℤ → F) where
  -- What the construction of a command that sets a target leaves open.
  abbrev pub IsSendable : SetTarget F → Type 0
  IsSendable c =
      (Ints.is_positive c.animation_id ≡ true)
      × IsKnownSlot floats registry c.slot
      × IsInDomain floats registry c.slot.property
          (all_values floats registry (targets to_float c.target c.keyframes) c.from_value)

  pub set_target_iff :
      (c : SetTarget F)
      → IsConversion floats registry to_float
      → set_target_init floats c ≡ ok tt
      → (validate_operation floats registry (motion_command_to_dict to_float (set_target c))
          ≡ ok tt)
        ↔ IsSendable c
  unfolding set_target_init targets
  set_target_iff c conversion h =
      let op = motion_command_to_dict to_float (set_target c) in
      let (s, i, t, f, k) = set_target_parts floats registry to_float c h in
      let (e, has_slot, has_values, retarget, spec) = lowered floats registry to_float c i in
      let identity =
        check_identity_iff floats registry c.slot c.animation_id op
          (rest_of floats registry to_float false (is_tween c.spec) op) s has_slot in
      let rest = rest_iff floats registry to_float false c.spec op c.slot.property retarget spec in
      let values =
        check_values_iff floats registry c.slot.property _ _ c.from_value op has_values
          (targets-finite floats registry to_float c.target c.keyframes conversion t k)
          (finite_from floats registry to_float c.from_value f) in
      rw e (
        λ v. let (p, known, r) = identity.0 v in (p, known, values.0 (rest.0 r)),
        λ (p, known, d). identity.1 (p, known, rest.1 (values.1 d)),
      )
