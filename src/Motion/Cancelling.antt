-- ===== src/Motion/Cancelling.antt =====
-- The operations of constructed commands that cancel (packages/vyne/src/vyne/motion.py) against the
-- validation of messages (protocol.py).
use Prim.Native.String.{◌++◌ as join}
use package.text.Mathlib.TextLemmas.{append-eq-nil_iff}
use vyne.Common.{Option-cases, String, arith, false, inl, inr, ok, refl, true, ◌≡◌, ◌↔◌}
use vyne.Common.Ints
use vyne.Common.Ints.{negsuc, pos, ℤ}
use vyne.Common.Maps.{string_eq}
use vyne.Motion.Commands.{
  Cancel, DriverCancel, cancel, driver_cancel, driver_cancel_init, driver_key,
  motion_command_to_dict,
}
use vyne.Motion.Specs.{PresentationSlot, to_key}
use vyne.Protocol.Checks.{Registry}
use vyne.Protocol.Commits.{validate_operation}
use vyne.Protocol.Motion.{decimal, driver_slot}
use vyne.Protocol.Values.{Floats, text}

join-not_empty : (s t : String) → string_eq.beq s "" ≡ false → string_eq.beq (join s t) "" ≡ false
join-not_empty s t h = ground (
  arith,
  string_eq.beq_iff (join s t) "",
  string_eq.beq_iff s "",
  append-eq-nil_iff {p = s} {q = t},
)

to_key-not_empty : (slot : PresentationSlot) → string_eq.beq (to_key slot) "" ≡ false
unfolding to_key
to_key-not_empty slot = elim (Option-cases slot.slot_id) [
  | inl e ↦ rw e (join-not_empty "view:" _ refl)
  | inr (id, e) ↦ rw e (join-not_empty "view:" _ refl)
]

driver_key-not_empty : (id : ℤ) → string_eq.beq (driver_key id) "" ≡ false
unfolding driver_key
driver_key-not_empty id = join-not_empty "driver:" (decimal id) refl

driver_key_lem : (id : ℤ) → driver_slot id ≡ driver_key id
unfolding driver_key driver_slot
driver_key_lem id = refl

module _ {F : Type 0} (floats : Floats F) (registry : Registry F) (to_float : ℤ → F) where
  pub cancel_iff :
      (c : Cancel)
      → (validate_operation floats registry (motion_command_to_dict to_float (cancel c)) ≡ ok tt)
        ↔ (Ints.is_positive c.animation_id ≡ true)
  unfolding validate_operation motion_command_to_dict
  cancel_iff c = ground (arith, to_key-not_empty c.slot)

  pub driver_cancel_iff :
      (c : DriverCancel)
      → driver_cancel_init c ≡ ok tt
      → (validate_operation floats registry (motion_command_to_dict to_float (driver_cancel c))
          ≡ ok tt)
        ↔ (Ints.is_positive c.animation_id ≡ true)
  unfolding validate_operation motion_command_to_dict driver_cancel_init
  driver_cancel_iff c h = ground (
    arith,
    driver_key-not_empty c.driver_id,
    driver_key_lem c.driver_id,
    string_eq.beq_iff (driver_key c.driver_id) (driver_key c.driver_id),
  )
