-- ===== src/VirtualLists/Source/Registry.antt =====
-- Duplicate keys (packages/vyne/src/vyne/_lists/generic.py, the key checks of the cell loop).
use vyne.Common.{
  ==_iff, Bool, List, Option, [], arith, if◌then◌else◌, none, not, ok, raise, refl, some, true,
  value_error, ℕ, ◌&&◌, ◌∷◌, ◌≡◌,
}
use vyne.Common.Maps.{Eq, insert, lookup, lookup-insert}
use vyne.VirtualLists.Source.{compose_keys, conflicts, seen}

module _ {K : Type 0} ⦃e : Eq K⦄ where
  -- No key of the window stands in it twice or among the given ones.
  abbrev pub fresh_keys : List K → List (ℕ × K) → Bool
  fresh_keys before [] = true
  fresh_keys before ((index, key) ∷ rest) = not (seen key before) && fresh_keys (key ∷ before) rest

  -- No key of the window is registered at another index.
  abbrev pub agrees : List (K × ℕ) → List (ℕ × K) → Bool
  agrees registry [] = true
  agrees registry ((index, key) ∷ rest) =
      not (conflicts (lookup key registry) index) && agrees registry rest

  abbrev pub insert_all : List (ℕ × K) → List (K × ℕ) → List (K × ℕ)
  insert_all [] registry = registry
  insert_all ((index, key) ∷ rest) registry = insert_all rest (insert key index registry)

  -- The index of a key in a window.
  abbrev pub index_in_window : K → List (ℕ × K) → Option ℕ
  index_in_window key [] = none
  index_in_window key ((i, k) ∷ rest) = elim (index_in_window key rest) [
    | some j ↦ some j
    | none ↦ if e.beq k key then some i else none
  ]

  agrees-insert :
      (key : K) (index : ℕ) (before : List K) (registry : List (K × ℕ)) (rest : List (ℕ × K))
      → seen key before ≡ true
      → fresh_keys before rest ≡ true
      → agrees (insert key index registry) rest ≡ agrees registry rest
  unfolding seen
  agrees-insert key index before registry [] s h = refl
  agrees-insert key index before registry ((i, k) ∷ rest) s h = ground (
    arith,
    agrees-insert key index (k ∷ before) registry rest,
    lookup-insert key k index registry,
    e.beq_iff key k,
  )

  compose_keys_run :
      (before : List K) (window : List (ℕ × K)) (registry : List (K × ℕ))
      → compose_keys before window (some registry) ≡ (
          if fresh_keys before window && agrees registry window
          then ok (some (insert_all window registry))
          else raise value_error)
  unfolding compose_keys seen
  compose_keys_run before [] registry = refl
  compose_keys_run before ((index, key) ∷ rest) registry = ground (
    arith,
    compose_keys_run (key ∷ before) rest (insert key index registry),
    agrees-insert key index (key ∷ before) registry rest,
    e.beq_iff key key,
  )

  lookup-insert_all :
      (key : K) (window : List (ℕ × K)) (registry : List (K × ℕ))
      → lookup key (insert_all window registry)
        ≡ elim (index_in_window key window) [ none ↦ lookup key registry | some i ↦ some i ]
  lookup-insert_all key [] registry = refl
  lookup-insert_all key ((index, k) ∷ rest) registry = ground (
    arith,
    lookup-insert_all key rest (insert k index registry),
    lookup-insert k key index registry,
  )

  -- Over a registry, the key checks of a window succeed exactly when its keys are distinct and none
  -- is registered at another index, and raise ValueError otherwise. The registry that success gives
  -- knows the window's keys at the window's indices and every other key as before.
  pub compose_keys_lem :
      (window : List (ℕ × K)) (registry : List (K × ℕ))
      → (compose_keys [] window (some registry) ≡ (
          if fresh_keys [] window && agrees registry window
          then ok (some (insert_all window registry))
          else raise value_error))
        × ((key : K)
            → lookup key (insert_all window registry)
              ≡ elim (index_in_window key window) [ none ↦ lookup key registry | some i ↦ some i ])
  compose_keys_lem window registry =
      (compose_keys_run [] window registry, λ key. lookup-insert_all key window registry)

  agreed :
      (key : K) (i j : ℕ) (window : List (ℕ × K)) (registry : List (K × ℕ))
      → agrees registry window ≡ true
      → lookup key registry ≡ some i
      → index_in_window key window ≡ some j
      → i ≡ j
  agreed key i j [] registry a h w = ground arith
  agreed key i j ((index, k) ∷ rest) registry a h w =
      ground (arith, agreed key i j rest registry, e.beq_iff k key, ==_iff i index)

  -- When two windows pass the key checks, one after the other over one registry, a key of both has
  -- one index.
  pub compose_keys-windows :
      (first second : List (ℕ × K)) (r r1 r2 : List (K × ℕ)) (key : K) (i j : ℕ)
      → compose_keys [] first (some r) ≡ ok (some r1)
      → compose_keys [] second (some r1) ≡ ok (some r2)
      → index_in_window key first ≡ some i
      → index_in_window key second ≡ some j
      → i ≡ j
  compose_keys-windows first second r r1 r2 key i j a b f s =
      agreed key i j second r1 (ground (arith, compose_keys_run [] second r1))
        (ground (arith, compose_keys_run [] first r, lookup-insert_all key first r)) s
