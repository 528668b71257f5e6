-- ===== src/Protocol/Bridge/Examples.antt =====
-- Values that cross the bridge (packages/vyne/src/vyne/protocol.py), on small inputs.
use vyne.Common.{
  Bool-cases, inl, inr, [], arith, false, ok, raise, refl, some, true, value_error, ℕ, ◌∷◌, ◌≡◌,
  ◌≢◌, ◌↔◌, recursion_error, ◌==◌, if◌then◌else◌,
}
use vyne.Common.Ints.{negsuc, pos}
use vyne.Protocol.Bridge.{
  Container, mapping, py_float, py_int, py_str, reference, sequence, validate_bridge_value,
}
use vyne.Protocol.Bridge.Acceptance.{validate-bridge_iff}
use vyne.Protocol.Bridge.Termination.{IsClosed, validate-terminates}
use vyne.Protocol.Bridge.Unfolding.{Unfolds}
use vyne.Protocol.Values.{Floats}

abbrev finite_only : Floats (Unit {0})
finite_only = record {
  finite = λ r. true;
  below_zero = λ r. false;
  at_most_zero = λ r. true;
  above_one = λ r. false;
  converts = λ i. true;
}

-- A mapping that holds one list twice.
abbrev shared : ℕ → Container (Unit {0})
shared a =
    if a == 0
    then mapping ((some "left", reference 1) ∷ (some "right", reference 1) ∷ [])
    else sequence (py_int (negsuc 0) ∷ py_str "x" ∷ [])

-- A list in a mapping in the list.
abbrev looped : ℕ → Container (Unit {0})
looped a =
    if a == 0
    then mapping ((some "rest", reference 1) ∷ [])
    else sequence (py_float tt ∷ reference 0 ∷ [])

shared-IsClosed : IsClosed (0 ∷ 1 ∷ []) shared
shared-IsClosed a m = elim (Bool-cases (a == 0)) [
  | inl e ↦ rw e (refl, (refl, tt))
  | inr e ↦ rw e (tt, (tt, tt))
]

looped-IsClosed : IsClosed (0 ∷ 1 ∷ []) looped
looped-IsClosed a m = elim (Bool-cases (a == 0)) [
  | inl e ↦ rw e (refl, tt)
  | inr e ↦ rw e (tt, (refl, tt))
]

validate-bridge_iff_example :
    (validate_bridge_value finite_only shared 3 [] (reference 0) ≡ ok tt)
    ↔ ((d : ℕ) × Unfolds finite_only shared d (reference 0))
validate-bridge_iff_example =
    validate-bridge_iff finite_only shared (0 ∷ 1 ∷ []) shared-IsClosed 3 (reference 0) refl
      (omega arith)

validate-terminates_example :
    validate_bridge_value finite_only looped 3 [] (reference 0) ≢ raise recursion_error
validate-terminates_example =
    validate-terminates finite_only looped (0 ∷ 1 ∷ []) looped-IsClosed 3 (reference 0) refl
      (omega arith)

sharing : validate_bridge_value finite_only shared 3 [] (reference 0) ≡ ok tt
unfolding validate_bridge_value
sharing = refl

cycle : validate_bridge_value finite_only looped 3 [] (reference 0) ≡ raise value_error
unfolding validate_bridge_value
cycle = refl

too_large :
    validate_bridge_value finite_only shared 1 [] (py_int (pos 9223372036854775808))
    ≡ raise value_error
unfolding validate_bridge_value
too_large = refl

smallest :
    validate_bridge_value finite_only shared 1 [] (py_int (negsuc 9223372036854775807)) ≡ ok tt
unfolding validate_bridge_value
smallest = refl
