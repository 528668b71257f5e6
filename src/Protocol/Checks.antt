-- ===== src/Protocol/Checks.antt =====
-- The checks that the validators of packages/vyne/src/vyne/protocol.py share, and what they ask of
-- the registry of kinds, properties and events (extensions_registry.py).
use vyne.Common.{
  Bool, List, Option, Result, String, [], false, if◌then◌else◌, ltb, none, not, ok, raise, raise_if,
  some, true, type_error, value_error, ℕ, ◌++◌, ◌>>=◌, ◌>>◌, ◌∷◌, ◌&&◌,
}
use vyne.Common.Ints.{negsuc, pos}
use vyne.Protocol.Values.{
  Fields, Value, among, contains, end, field, get, integer, items, object, text,
}

-- `EventSpec` (spec/model.py), as far as messages are validated against it.
pub record EventSpec (F : Type 0) : Type 0 where
  pub open_payload : Bool
  pub payload_fields : List String
  pub payload_specs : List (String × (Value F → Result (Unit {0})))

-- The registry: which kinds, properties and events there are, how a property's value is validated,
-- and which properties can be animated. Extensions add to it while the program runs.
pub record Registry (F : Type 0) : Type 0 where
  pub is_kind : String → Bool
  pub is_known_prop : String → Bool
  pub validate_prop : String → Option (Value F → Result (Unit {0}))
  pub event_spec : String → Option (EventSpec F)
  pub is_animatable : String → Bool
  pub is_canvas_field : String → Bool

module _ {F : Type 0} where
  abbrev pub has_all : List String → Fields F → Bool
  has_all [] op = true
  has_all (name ∷ names) op = contains name op && has_all names op

  abbrev pub only : List String → Fields F → Bool
  only allowed end = true
  only allowed (field name v rest) = among name allowed && only allowed rest

  -- `missing = required - set(op)`
  abbrev pub reject_missing : List String → Fields F → Result (Unit {0})
  reject_missing required op = raise_if (not (has_all required op)) value_error

  -- `_reject_unknown_fields`
  unfoldable pub reject_unknown_fields : List String → Fields F → Result (Unit {0})
  reject_unknown_fields allowed op = raise_if (not (only allowed op)) value_error

  -- `_non_negative_int`, with the flag `node_id`.
  unfoldable pub non_negative_int : Bool → Value F → Result ℕ
  non_negative_int node_id (integer (pos n)) =
      if node_id && ltb 2147483647 n then raise value_error else ok n
  non_negative_int node_id (integer (negsuc n)) = raise value_error
  non_negative_int node_id _ = raise type_error

  -- `if name in op: _non_negative_int(op[name])`
  unfoldable pub check_int_field : Bool → Fields F → String → Result (Unit {0})
  unfolding non_negative_int
  check_int_field node_id op name = elim (get name op) [
    | none ↦ ok tt
    | some v ↦ non_negative_int node_id v >>= λ _. ok tt
  ]

  -- A lookup in a table with text keys: a list or a dict cannot be hashed.
  abbrev pub known : (String → Bool) → Value F → Result Bool
  known table (text s) = ok (table s)
  known table (items vs) = raise type_error
  known table (object fs) = raise type_error
  known table _ = ok false

  -- The closure that `_simple_op_validator` returns.
  unfoldable pub simple_op_validator :
      List String → List String → (Fields F → Result (Unit {0})) → Fields F → Result (Unit {0})
  unfolding reject_unknown_fields check_int_field
  simple_op_validator required optional semantic op = do
    reject_missing required op
    reject_unknown_fields (required ++ optional) op
    check_int_field true op "id"
    check_int_field true op "parent"
    check_int_field true op "child"
    check_int_field false op "index"
    check_int_field false op "handler"
    semantic op
