-- ===== src/Protocol/Examples.antt =====
-- Messages of packages/vyne/src/vyne/protocol.py on a small registry. A float is a number of tenths.
use vyne.Common.{
  List, Result, [], false, if◌then◌else◌, ltb, none, ok, raise, refl, some, true, type_error,
  value_error, ℕ, ◌==◌, ◌∷◌, ◌≡◌,
}
use vyne.Common.Ints.{pos}
use vyne.Common.Maps.{lookup, string_eq}
use vyne.Protocol.Checks.{Registry}
use vyne.Protocol.Commits.{operation_validators, validate_operation}
use vyne.Protocol.Encoding.{encode_commit, error_commit-valid, error_ops, fallback_ops}
use vyne.Protocol.Events.{validate_message}
use vyne.Protocol.Motion.{
  check_all_finite, check_domain, check_identity, check_slot, check_tween, check_values, decimal,
  expected_slot, validate_set_target,
}
use vyne.Protocol.Values.{
  Fields, Floats, Value, among, cons, end, field, integer, items, nil, object, real, text,
}
use vyne.Reconcile.Model.{Op, create, insert_child, set_prop}

abbrev tenths : Floats ℕ
tenths = record {
  finite = λ r. ltb r 1000000;
  below_zero = λ r. false;
  at_most_zero = λ r. r == 0;
  above_one = λ r. ltb 10 r;
  converts = λ i. true;
}

abbrev only_text : Value ℕ → Result (Unit {0})
only_text (text s) = ok tt
only_text _ = raise type_error

abbrev small : Registry ℕ
small = record {
  is_kind = λ kind. among kind ("Layout" ∷ "Text" ∷ []);
  is_known_prop = λ name. among name ("orientation" ∷ "text" ∷ "opacity" ∷ []);
  validate_prop = λ name. if string_eq.beq name "text" then some only_text else none;
  event_spec = λ name.
      if string_eq.beq name "click"
      then some (record {
        open_payload = false;
        payload_fields = "x" ∷ [];
        payload_specs = ("x", only_text) ∷ [];
      })
      else none;
  is_animatable = λ name. string_eq.beq name "opacity";
  is_canvas_field = λ name. false;
}

abbrev plan : List (Op (Value ℕ))
plan = create 1 "Text" ∷ set_prop 1 "text" (text "hi") ∷ insert_child 0 1 0 ∷ []

error_commit-valid_example :
    (validate_message tenths small (encode_commit (pos 3) none (error_ops "Error: no")) ≡ ok tt)
    × (validate_message tenths small (encode_commit (pos 3) none (fallback_ops "Error: no"))
        ≡ ok tt)
error_commit-valid_example =
    error_commit-valid tenths small (pos 3) "Error: no" tt refl refl (refl, refl) (refl, refl)

-- A fade of the node 12 to full opacity, in a tenth of a second.
abbrev fade : ℕ → Fields ℕ
fade target = field "op" (text "motion_set_target") (
    field "animation_id" (integer (pos 4)) (
      field "slot_key" (text "view:12:prop:opacity") (
        field "node_id" (integer (pos 12)) (
          field "property" (text "opacity") (
            field "targets" (items (cons (real target) nil)) (
              field "spec_type" (text "tween") (
                field "retarget" (text "restart") (
                  field "duration_ms" (integer (pos 100))
                    (field "easing" (text "linear") end)))))))))

fade_in : validate_operation tenths small (fade 10) ≡ ok tt
unfolding validate_operation operation_validators lookup validate_set_target check_identity
    check_slot expected_slot check_values check_all_finite check_domain check_tween decimal
fade_in = refl

-- An opacity above one.
fade_too_far : validate_operation tenths small (fade 11) ≡ raise value_error
unfolding validate_operation operation_validators lookup validate_set_target check_identity
    check_slot expected_slot check_values check_all_finite check_domain check_tween decimal
fade_too_far = refl

abbrev click : Fields ℕ → Fields ℕ
click payload = field "type" (text "event") (
    field "target" (integer (pos 3)) (
      field "event" (text "click")
        (field "handler" (integer (pos 9)) (field "payload" (object payload) end))))

clicked : validate_message tenths small (click (field "x" (text "7") end)) ≡ ok tt
unfolding validate_message
clicked = refl

clicked_elsewhere :
    validate_message tenths small (click (field "y" (text "7") end)) ≡ raise value_error
unfolding validate_message
clicked_elsewhere = refl
