-- ===== src/Protocol/Bridge.antt =====
-- Values that cross the bridge (packages/vyne/src/vyne/protocol.py): containers are objects with an
-- identity, so they may share parts and contain themselves.
use vyne.Common.{
  Bool, List, Option, Result, String, [], ltb, none, ok, raise, raise_if, recursion_error, some,
  suc, type_error, value_error, zero, ℕ, ◌>>◌, ◌∷◌, not, if◌then◌else◌,
}
use vyne.Common.Ints.{negsuc, pos, ℤ}
use vyne.Common.Maps.{among, nat_eq}
use vyne.Protocol.Values.{Floats}
pub mod Unfolding
pub mod Termination
pub mod Acceptance
mod Examples

-- A Python object, where containers are references. What is neither a container nor of one of the
-- plain types (bytes too) is unsupported.
pub data Object (F : Type 0) : Type 0 where
  py_none : Object F
  py_bool : Bool → Object F
  py_str : String → Object F
  py_int : ℤ → Object F
  py_float : F → Object F
  reference : ℕ → Object F
  unsupported : Object F

-- What a reference leads to. A key that is no text stands as `none`.
pub data Container (F : Type 0) : Type 0 where
  mapping : List (Option String × Object F) → Container F
  sequence : List (Object F) → Container F

-- `-(1 << 63) <= value < (1 << 63)`
abbrev pub in_bridge_range : ℤ → Bool
in_bridge_range (pos n) = ltb n 9223372036854775808
in_bridge_range (negsuc n) = ltb n 9223372036854775808

abbrev pub check_key : Option String → Result (Unit {0})
check_key none = raise type_error
check_key (some name) = ok tt

module _ {F : Type 0} where
  -- The loops over the items of a container.
  unfoldable pub validate_all : (Object F → Result (Unit {0})) → List (Object F) → Result (Unit {0})
  validate_all validate [] = ok tt
  validate_all validate (o ∷ os) = do validate o; validate_all validate os

  unfoldable pub validate_items :
      (Object F → Result (Unit {0})) → List (Option String × Object F) → Result (Unit {0})
  validate_items validate [] = ok tt
  validate_items validate ((key, o) ∷ items) = do
    check_key key
    validate o
    validate_items validate items

  unfoldable pub validate_container :
      (Object F → Result (Unit {0})) → Container F → Result (Unit {0})
  unfolding validate_all validate_items
  validate_container validate (mapping items) = validate_items validate items
  validate_container validate (sequence os) = validate_all validate os

module _ {F : Type 0} (floats : Floats F) (heap : ℕ → Container F) where
  -- `_validate_bridge_value`, where the interpreter's stack has room for so many calls. `seen` holds
  -- the containers around the value; what Python adds on the way in and removes on the way out is
  -- handed to the inner calls alone.
  unfoldable pub validate_bridge_value : ℕ → List ℕ → Object F → Result (Unit {0})
  unfolding validate_container
  validate_bridge_value zero seen o = raise recursion_error
  validate_bridge_value (suc room) seen py_none = ok tt
  validate_bridge_value (suc room) seen (py_bool b) = ok tt
  validate_bridge_value (suc room) seen (py_str s) = ok tt
  validate_bridge_value (suc room) seen (py_int i) = raise_if (not (in_bridge_range i)) value_error
  validate_bridge_value (suc room) seen (py_float r) = raise_if (not (floats.finite r)) value_error
  validate_bridge_value (suc room) seen (reference a) =
      let inner = validate_bridge_value room (a ∷ seen) in
      raise_if (among a seen) value_error >> validate_container inner (heap a)
  validate_bridge_value (suc room) seen unsupported = raise type_error
