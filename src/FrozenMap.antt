-- ===== src/FrozenMap.antt =====
-- FrozenMap of packages/vyne/src/vyne/values.py: an immutable mapping with text keys. Its parallel
-- tuples of keys and values are one list of pairs.
use vyne.Common.{
  Bool, List, Option, Result, String, [], false, if◌then◌else◌, key_error, length, map, none, not,
  ok, raise, raise_if, some, true, value_error, ℕ, ◌&&◌, ◌++◌, ◌==◌, ◌>>◌, ◌∷◌,
}
use vyne.Common.Maps.{Eq, among, lookup, string_eq}
pub mod Equality
pub mod Construction
mod Examples

-- The loop of `_check_duplicate_keys`, from the keys it has seen.
unfoldable pub check_from : List String → List String → Result (Unit {0})
check_from seen [] = ok tt
check_from seen (k ∷ keys) = do raise_if (among k seen) value_error; check_from (k ∷ seen) keys

module _ {V : Type 0} where
  -- `FrozenMap(items)`
  unfoldable pub frozen : List (String × V) → Result (List (String × V))
  unfolding check_from
  frozen items = check_from [] (map (λ (i : String × V). i.0) items) >> ok items

  -- `__getitem__`
  unfoldable pub getitem : String → List (String × V) → Result V
  unfolding lookup
  getitem key m = elim (lookup key m) [ none ↦ raise key_error | some v ↦ ok v ]

  -- The items with other keys.
  unfoldable pub without : String → List (String × V) → List (String × V)
  without key [] = []
  without key ((k, v) ∷ m) =
      let rest = without key m in if string_eq.beq k key then rest else (k, v) ∷ rest

  -- `with_item`
  unfoldable pub with_item : String → V → List (String × V) → Result (List (String × V))
  unfolding frozen without
  with_item key value m = frozen (without key m ++ ((key, value) ∷ []))

module _ {V : Type 0} ⦃e : Eq V⦄ where
  -- One round of `__eq__`: the key is in the other map, with the value that it has here.
  abbrev pub same_at : Option V → Option V → Bool
  same_at (some v) (some w) = e.beq v w
  same_at _ _ = false

  -- The loop of `__eq__` over the keys.
  unfoldable pub all_same : List (String × V) → List (String × V) → List (String × V) → Bool
  unfolding lookup
  all_same [] m other = true
  all_same ((k, v) ∷ rest) m other = same_at (lookup k m) (lookup k other) && all_same rest m other

  -- `__eq__` of two FrozenMaps
  unfoldable pub equals : List (String × V) → List (String × V) → Bool
  unfolding all_same
  equals m other = (length m == length other) && all_same m m other
