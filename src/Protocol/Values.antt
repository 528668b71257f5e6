-- ===== src/Protocol/Values.antt =====
-- The Python values that a message holds (packages/vyne/src/vyne/protocol.py): what the bridge and
-- JSON can carry. A dict has text keys, in order. Floats are a parameter, with the tests that the
-- validators make on them.
use vyne.Common.{
  Bool, List, Option, Result, String, [], false, if◌then◌else◌, is_some, none, not, ok,
  overflow_error, key_error, ltb, raise, some, true, type_error, ◌||◌, ◌∷◌,
}
use vyne.Common.Ints
use vyne.Common.Ints.{negsuc, pos, ℤ}
use vyne.Common.Maps.{string_eq}

-- `float`: the tests against 0 and 1, `math.isfinite`, and whether an int converts to a float.
pub record Floats (F : Type 0) : Type 0 where
  pub finite : F → Bool
  pub below_zero : F → Bool
  pub at_most_zero : F → Bool
  pub above_one : F → Bool
  pub converts : ℤ → Bool

mutual
  pub data Value (F : Type 0) : Type 0 where
    null : Value F
    boolean : Bool → Value F
    integer : ℤ → Value F
    real : F → Value F
    text : String → Value F
    items : Values F → Value F
    object : Fields F → Value F

  pub data Values (F : Type 0) : Type 0 where
    nil : Values F
    cons : Value F → Values F → Values F

  pub data Fields (F : Type 0) : Type 0 where
    end : Fields F
    field : String → Value F → Fields F → Fields F

-- `name in names`
abbrev pub among : String → List String → Bool
among name [] = false
among name (n ∷ ns) = string_eq.beq name n || among name ns

module _ {F : Type 0} where
  -- `d.get(name)`, where a missing key is told from None.
  abbrev pub get : String → Fields F → Option (Value F)
  get name end = none
  get name (field n v rest) = if string_eq.beq n name then some v else get name rest

  -- `d[name]`
  abbrev pub item : String → Fields F → Result (Value F)
  item name op = elim (get name op) [ none ↦ raise key_error | some v ↦ ok v ]

  -- `name in d`
  abbrev pub contains : String → Fields F → Bool
  contains name op = is_some (get name op)

  -- `value == "..."`
  abbrev pub is_text : String → Value F → Bool
  is_text name (text s) = string_eq.beq s name
  is_text name _ = false

  -- `isinstance(value, str) and value`
  abbrev pub is_non_empty_text : Value F → Bool
  is_non_empty_text (text s) = not (string_eq.beq s "")
  is_non_empty_text _ = false

  abbrev pub is_null : Value F → Bool
  is_null null = true
  is_null _ = false

  -- `value in {texts}`: a list or a dict cannot be hashed.
  abbrev pub text_among : List String → Value F → Result Bool
  text_among names (text s) = ok (among s names)
  text_among names (items vs) = raise type_error
  text_among names (object fs) = raise type_error
  text_among names _ = ok false

  -- `type(value) is int and value > 0`
  abbrev pub is_positive_int : Value F → Bool
  is_positive_int (integer i) = Ints.is_positive i
  is_positive_int _ = false

  -- `any(test(value) for value in values)`
  abbrev pub any_value : (Value F → Bool) → Values F → Bool
  any_value test nil = false
  any_value test (cons v vs) = test v || any_value test vs

-- The tests on numbers. A bool is none here.
module _ {F : Type 0} (floats : Floats F) where
  -- `isinstance(value, int | float) and not isinstance(value, bool) and math.isfinite(value)`
  abbrev pub is_finite : Value F → Result Bool
  is_finite (integer i) = if floats.converts i then ok true else raise overflow_error
  is_finite (real r) = ok (floats.finite r)
  is_finite _ = ok false

  -- `value < 0`, `value <= 0` and `not 0 <= value <= 1`, of a number.
  abbrev pub below_zero : Value F → Bool
  below_zero (integer (negsuc n)) = true
  below_zero (integer (pos n)) = false
  below_zero (real r) = floats.below_zero r
  below_zero _ = false

  abbrev pub at_most_zero : Value F → Bool
  at_most_zero (integer i) = not (Ints.is_positive i)
  at_most_zero (real r) = floats.at_most_zero r
  at_most_zero _ = false

  abbrev pub outside_unit : Value F → Bool
  outside_unit (integer (negsuc n)) = true
  outside_unit (integer (pos n)) = ltb 1 n
  outside_unit (real r) = floats.below_zero r || floats.above_one r
  outside_unit _ = false
