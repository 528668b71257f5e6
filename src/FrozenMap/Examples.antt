-- ===== src/FrozenMap/Examples.antt =====
-- FrozenMaps (packages/vyne/src/vyne/values.py) of small numbers.
use vyne.Common.{
  List, String, [], false, ok, raise, refl, some, true, value_error, ℕ, ◌∷◌, ◌≡◌, ◌↔◌,
  if◌then◌else◌,
}
use vyne.Common.Maps.{Distinct, lookup, nat_eq, string_eq}
use vyne.FrozenMap.{equals, frozen, with_item}
use vyne.FrozenMap.Construction.{with_item_lem}
use vyne.FrozenMap.Equality.{SameItems, equals_iff}

abbrev sizes : List (String × ℕ)
sizes = ("width", 3) ∷ ("height", 4) ∷ []

abbrev turned : List (String × ℕ)
turned = ("height", 4) ∷ ("width", 3) ∷ []

sizes-Distinct : Distinct sizes
unfolding lookup
sizes-Distinct = (refl, (refl, tt))

turned-Distinct : Distinct turned
unfolding lookup
turned-Distinct = (refl, (refl, tt))

equals_iff_example : (equals sizes turned ≡ true) ↔ SameItems sizes turned
equals_iff_example = equals_iff sizes turned sizes-Distinct turned-Distinct

with_item_lem_example :
    (m' : List (String × ℕ)) × (with_item "width" 9 sizes ≡ ok m')
    × Distinct m'
    × ((j : String) → lookup j m' ≡ (if string_eq.beq "width" j then some 9 else lookup j sizes))
with_item_lem_example = with_item_lem "width" 9 sizes sizes-Distinct

equal : equals sizes turned ≡ true
unfolding equals
equal = refl

fewer : equals sizes (("width", 3) ∷ []) ≡ false
unfolding equals
fewer = refl

twice : frozen {V = ℕ} (("a", 1) ∷ ("a", 2) ∷ []) ≡ raise value_error
unfolding frozen
twice = refl
