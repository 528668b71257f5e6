-- ===== src/FrozenMap/Construction.antt =====
-- What the construction of a FrozenMap and `with_item` give (packages/vyne/src/vyne/values.py).
use vyne.Common.{
  All, Bool-cases, List, String, [], arith, false, if◌then◌else◌, inl, inr, map, none, ok, refl,
  some, ◌++◌, ◌∙◌, ◌∷◌, ◌≡◌, ◌↔◌,
}
use vyne.Common.Maps.{Distinct, among, lookup, string_eq}
use vyne.FrozenMap.{check_from, frozen, with_item, without}

module _ {V : Type 0} where
  -- No key is among these texts.
  abbrev Apart : List String → List (String × V) → Type 0
  Apart seen items = All (λ (p : String × V). among p.0 seen ≡ false) items

  Apart-cons :
      (k : String) (seen : List String) (items : List (String × V))
      → Apart (k ∷ seen) items ↔ ((lookup k items ≡ none) × Apart seen items)
  unfolding lookup
  Apart-cons k seen [] = (λ h. (refl, tt), λ h. tt)
  Apart-cons k seen ((j, v) ∷ items) =
      ground (arith, Apart-cons k seen items, string_eq.beq_iff k j, string_eq.beq_iff j k)

  check_from_iff :
      (seen : List String) (items : List (String × V))
      → (check_from seen (map (λ (p : String × V). p.0) items) ≡ ok tt)
        ↔ (Apart seen items × Distinct items)
  unfolding check_from
  check_from_iff seen [] = (λ h. (tt, tt), λ h. refl)
  check_from_iff seen ((k, v) ∷ items) =
      ground (arith, check_from_iff (k ∷ seen) items, Apart-cons k seen items)

  Apart-nil : (items : List (String × V)) → Apart [] items
  Apart-nil [] = tt
  Apart-nil (p ∷ items) = (refl, Apart-nil items)

  -- A FrozenMap can be made of items exactly if no key stands twice.
  frozen_iff : (items : List (String × V)) → (frozen items ≡ ok items) ↔ Distinct items
  unfolding frozen
  frozen_iff items = ground (arith, check_from_iff [] items, Apart-nil items)

  lookup-without :
      (k j : String) (m : List (String × V))
      → lookup j (without k m) ≡ (if string_eq.beq k j then none else lookup j m)
  unfolding lookup without
  lookup-without k j [] = ground arith
  lookup-without k j ((i, w) ∷ m) = ground (
    arith,
    string_eq.beq_iff k j,
    string_eq.beq_iff i k,
    string_eq.beq_iff i j,
    lookup-without k j m,
  )

  without-Distinct : (k : String) (m : List (String × V)) → Distinct m → Distinct (without k m)
  unfolding without
  without-Distinct k [] d = tt
  without-Distinct k ((j, w) ∷ m) (d, ds) = elim (Bool-cases (string_eq.beq j k)) [
    | inl e ↦ rw e (without-Distinct k m ds)
    | inr e ↦ rw e (ground (arith, lookup-without k j m), without-Distinct k m ds)
  ]

  lookup-append :
      (j k : String) (v : V) (m : List (String × V))
      → lookup k m ≡ none
      → lookup j (m ++ ((k, v) ∷ [])) ≡ (if string_eq.beq k j then some v else lookup j m)
  unfolding lookup
  lookup-append j k v [] n = refl
  lookup-append j k v ((i, w) ∷ m) n = ground (
    arith,
    lookup-append j k v m,
    string_eq.beq_iff k j,
    string_eq.beq_iff i k,
    string_eq.beq_iff i j,
  )

  append-Distinct :
      (k : String) (v : V) (m : List (String × V))
      → Distinct m
      → lookup k m ≡ none
      → Distinct (m ++ ((k, v) ∷ []))
  unfolding lookup
  append-Distinct k v [] d n = (refl, tt)
  append-Distinct k v ((i, w) ∷ m) (d, ds) n = (
    ground (arith, lookup-append i k v m, string_eq.beq_iff k i, string_eq.beq_iff i k),
    append-Distinct k v m ds (ground arith),
  )

  -- `with_item` on a FrozenMap never raises; the new map has no key twice, the new value at its key, and
  -- every other key as it was.
  pub with_item_lem :
      (k : String) (v : V) (m : List (String × V))
      → Distinct m
      → (m' : List (String × V)) × (with_item k v m ≡ ok m')
        × Distinct m'
        × ((j : String) → lookup j m' ≡ (if string_eq.beq k j then some v else lookup j m))
  unfolding with_item
  with_item_lem k v m d =
      let rest = without k m in
      let gone : lookup k rest ≡ none =
        ground (arith, lookup-without k k m, string_eq.beq_iff k k) in
      let whole = append-Distinct k v rest (without-Distinct k m d) gone in
      (
        rest ++ ((k, v) ∷ []),
        (frozen_iff (rest ++ ((k, v) ∷ []))).1 whole,
        whole,
        λ j. lookup-append j k v rest gone ∙ ground (arith, lookup-without k j m),
      )
