-- ===== src/Motion/Sending.antt =====
-- Which constructed commands of packages/vyne/src/vyne/motion.py can be sent: the whole of
-- motion_command_to_dict against the validation of messages (protocol.py).
use vyne.Common.{ok, true, ◌≡◌, ◌↔◌}
use vyne.Common.Ints
use vyne.Common.Ints.{ℤ}
use vyne.Motion.Commands.{
  MotionCommand, cancel, command_init, driver_cancel, driver_set_target, motion_command_to_dict,
  set_target,
}
use vyne.Motion.Constructed.{IsConversion}
use vyne.Motion.DriverValidity.{IsSendableDriver, driver_set_target_iff}
use vyne.Motion.Cancelling.{cancel_iff, driver_cancel_iff}
use vyne.Motion.Validity.{IsSendable, set_target_iff}
use vyne.Protocol.Checks.{Registry}
use vyne.Protocol.Commits.{validate_operation}
use vyne.Protocol.Values.{Floats}

module _ {F : Type 0} (floats : Floats F) (registry : Registry F) (to_float : ℤ → F) where
  -- Every command needs an animation's id; one that sets a target a node in range, too, and, without
  -- a driver, a slot that can be animated and values in its domain.
  abbrev pub CanBeSent : MotionCommand F → Type 0
  CanBeSent (set_target c) = IsSendable floats registry to_float c
  CanBeSent (cancel c) = Ints.is_positive c.animation_id ≡ true
  CanBeSent (driver_set_target c) = IsSendableDriver floats registry to_float c
  CanBeSent (driver_cancel c) = Ints.is_positive c.animation_id ≡ true

  -- The operation of a constructed motion command passes the validation exactly when its animation id
  -- is positive and, if it sets a target, its node id is in the host's range and, without a driver,
  -- the slot is not the empty text, the property can be animated there, and every value is in its
  -- domain. The conversion of an int to a float is taken to give a finite float where it does not raise.
  pub motion_command-valid :
      (c : MotionCommand F)
      → IsConversion floats registry to_float
      → command_init floats c ≡ ok tt
      → (validate_operation floats registry (motion_command_to_dict to_float c) ≡ ok tt)
        ↔ CanBeSent c
  unfolding command_init
  motion_command-valid (set_target c) conversion h =
      set_target_iff floats registry to_float c conversion h
  motion_command-valid (cancel c) conversion h = cancel_iff floats registry to_float c
  motion_command-valid (driver_set_target c) conversion h =
      driver_set_target_iff floats registry to_float c conversion h
  motion_command-valid (driver_cancel c) conversion h =
      driver_cancel_iff floats registry to_float c h
