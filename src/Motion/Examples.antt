-- ===== src/Motion/Examples.antt =====
-- Motion commands of packages/vyne/src/vyne/motion.py on concrete inputs. A float is a number of
-- tenths.
use vyne.Common.{
  [], false, ltb, none, ok, raise, refl, some, true, value_error, ℕ, ◌*◌, ◌==◌, ◌∷◌, ◌≡◌, ◌↔◌,
}
use vyne.Common.Ints.{negsuc, pos, ℤ}
use vyne.Common.Maps.{string_eq}
use vyne.Motion.Commands.{SetTarget, command_init, motion_command_to_dict, set_target}
use vyne.Motion.Sending.{CanBeSent, motion_command-valid}
use vyne.Motion.Specs.{float, restart, slot_init, tween, whole}
use vyne.Protocol.Checks.{Registry}
use vyne.Protocol.Commits.{validate_operation}
use vyne.Protocol.Values.{Floats}

abbrev tenths : Floats ℕ
tenths = record {
  finite = λ r. true;
  below_zero = λ r. false;
  at_most_zero = λ r. r == 0;
  above_one = λ r. ltb 10 r;
  converts = λ i. true;
}

-- Zero for a negative number, which no example converts.
abbrev to_tenths : ℤ → ℕ
to_tenths (pos n) = 10 * n
to_tenths (negsuc n) = 0

abbrev opacity_only : Registry ℕ
opacity_only = record {
  is_kind = λ kind. true;
  is_known_prop = λ name. true;
  validate_prop = λ name. none;
  event_spec = λ name. none;
  is_animatable = λ name. string_eq.beq name "opacity";
  is_canvas_field = λ name. false;
}

-- Fades node 12 to half, then to nothing.
abbrev fade : ℤ → SetTarget ℕ
fade animation_id = record {
  slot = record { node_id = pos 12; property = "opacity"; slot_id = none };
  spec = tween (record { duration_ms = pos 300; easing = "linear"; retarget = restart });
  target = float 5;
  from_value = some (whole (pos 1));
  animation_id = animation_id;
  keyframes = whole (pos 0) ∷ [];
}

motion_command-valid_example :
    (validate_operation tenths opacity_only
        (motion_command_to_dict to_tenths (set_target (fade (pos 4))))
      ≡ ok tt)
    ↔ CanBeSent tenths opacity_only to_tenths (set_target (fade (pos 4)))
unfolding command_init
motion_command-valid_example =
    motion_command-valid tenths opacity_only to_tenths (set_target (fade (pos 4))) (λ i h. refl)
      refl

fade-passes :
    validate_operation tenths opacity_only
      (motion_command_to_dict to_tenths (set_target (fade (pos 4))))
    ≡ ok tt
unfolding validate_operation motion_command_to_dict
fade-passes = refl

-- The id that commands have when none is given is refused.
fade_without_id :
    validate_operation tenths opacity_only
      (motion_command_to_dict to_tenths (set_target (fade (pos 0))))
    ≡ raise value_error
unfolding validate_operation motion_command_to_dict
fade_without_id = refl

blank_property :
    slot_init (record { node_id = pos 1; property = " \t"; slot_id = none }) ≡ raise value_error
unfolding slot_init
blank_property = refl
