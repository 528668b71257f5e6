-- ===== src/Motion/Domains.antt =====
-- The numbers of a constructed motion command (packages/vyne/src/vyne/motion.py) against the checks
-- of _validate_motion_operation (protocol.py).
use vyne.Common.{Bool, Option, String, arith, false, none, ok, some, true, ◌≡◌, ◌↔◌, ◌||◌}
use vyne.Common.Maps.{string_eq}
use vyne.Motion.Commands.{check_finite}
use vyne.Motion.Specs.{Number, float, value_of, whole}
use vyne.Protocol.Checks.{Registry}
use vyne.Protocol.Motion.{
  append_value, check_all_finite, check_domain, check_values, in_unit, non_negative,
}
use vyne.Protocol.Values.{
  Fields, Floats, Value, Values, among, any_value, below_zero, cons, get, is_finite, items, nil,
  outside_unit,
}

module _ {F : Type 0} (floats : Floats F) (registry : Registry F) where
  -- What the property asks of every value.
  abbrev pub IsInDomain : String → Values F → Type 0
  IsInDomain property values =
      (among property (in_unit floats registry) ≡ true
        → any_value (outside_unit floats) values ≡ false)
      × (among property (non_negative floats registry) ≡ true
          → any_value (below_zero floats) values ≡ false)

  check_domain_iff :
      (property : String) (values : Values F)
      → (check_domain floats registry false property values ≡ ok tt) ↔ IsInDomain property values
  unfolding check_domain
  check_domain_iff property values = ground arith

  any-append_value :
      (test : Value F → Bool) (values : Values F) (v : Value F)
      → any_value test (append_value floats registry values v) ≡ (any_value test values || test v)
  any-append_value test nil v = ground arith
  any-append_value test (cons w ws) v = ground (arith, any-append_value test ws v)

  -- Every value of a command, `from_value` included.
  abbrev pub all_values : Values F → Option (Number F) → Values F
  all_values values none = values
  all_values values (some number) = append_value floats registry values (value_of number)

  IsInDomain-all_values :
      (property : String) (values : Values F) (from : Option (Number F))
      → IsInDomain property (all_values values from)
      → IsInDomain property values
  IsInDomain-all_values property values none h = h
  IsInDomain-all_values property values (some number) h = ground (
    arith,
    any-append_value (outside_unit floats) values (value_of number),
    any-append_value (below_zero floats) values (value_of number),
  )

  -- A number that the construction has let pass.
  abbrev pub IsFinite : Number F → Type 0
  IsFinite number = is_finite floats (value_of number) ≡ ok true

  pub IsFinite-number : (number : Number F) → check_finite floats number ≡ ok tt → IsFinite number
  IsFinite-number (whole i) h = ground arith
  IsFinite-number (float r) h = ground arith

  abbrev pub IsFiniteFrom : Option (Number F) → Type 0
  IsFiniteFrom none = Unit
  IsFiniteFrom (some number) = IsFinite number

  -- The operation carries these values.
  abbrev pub HasValues : Values F → Option (Number F) → Fields F → Type 0
  HasValues values from op =
      (get "targets" op ≡ some (items values))
      × (get "from_value" op ≡ elim from [ none ↦ none | some number ↦ some (value_of number) ])

  -- The checks of the values, where the construction has found them finite.
  pub check_values_iff :
      (property : String) (v : Value F) (vs : Values F) (from : Option (Number F)) (op : Fields F)
      → HasValues (cons v vs) from op
      → check_all_finite floats registry (cons v vs) ≡ ok tt
      → IsFiniteFrom from
      → (check_values floats registry false property op ≡ ok tt)
        ↔ IsInDomain property (all_values (cons v vs) from)
  unfolding check_values
  check_values_iff property v vs none op (t, f) a u =
      ground (arith, check_domain_iff property (cons v vs))
  check_values_iff property v vs (some (whole i)) op (t, f) a u = ground (
    arith,
    check_domain_iff property (cons v vs),
    check_domain_iff property (all_values (cons v vs) (some (whole i))),
    IsInDomain-all_values property (cons v vs) (some (whole i)),
  )
  check_values_iff property v vs (some (float r)) op (t, f) a u = ground (
    arith,
    check_domain_iff property (cons v vs),
    check_domain_iff property (all_values (cons v vs) (some (float r))),
    IsInDomain-all_values property (cons v vs) (some (float r)),
  )

  -- A driver has no domain.
  pub check_values-driver :
      (property : String) (v : Value F) (vs : Values F) (from : Option (Number F)) (op : Fields F)
      → HasValues (cons v vs) from op
      → check_all_finite floats registry (cons v vs) ≡ ok tt
      → IsFiniteFrom from
      → check_values floats registry true property op ≡ ok tt
  unfolding check_values check_domain
  check_values-driver property v vs none op (t, f) a u = ground arith
  check_values-driver property v vs (some (whole i)) op (t, f) a u = ground arith
  check_values-driver property v vs (some (float r)) op (t, f) a u = ground arith
