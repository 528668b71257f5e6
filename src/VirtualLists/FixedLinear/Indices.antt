-- ===== src/VirtualLists/FixedLinear/Indices.antt =====
-- The indices that `FixedLinearLayout.place` (packages/vyne/src/vyne/_lists/contracts.py) asks for.
use vyne.Common.{
  Option, Bool, Bool-cases, List, [], arith, false, inl, inr, ok, refl, some, none, suc, true, zero,
  ℕ, ◌+◌, ◌-◌, ◌<◌, ◌∷◌, ◌≡◌, ◌≤◌, ltb, ==_iff, if◌then◌else◌,
}
use vyne.VirtualLists.FixedLinear.{
  FixedLinearLayout, add_sorted, index_range, least, place_indices, place_range, range_of,
}
use vyne.VirtualLists.Geometry.{member}
use vyne.VirtualLists.Requests.{LayoutRequest, check_request}

-- A strictly ascending list between two bounds.
abbrev pub Rises : ℕ → ℕ → List ℕ → Type 0
Rises lo hi [] = Unit
Rises lo hi (j ∷ js) = (lo ≤ j) × (j < hi) × Rises (suc j) hi js

range_of-Rises :
    (count first lo hi : ℕ) → lo ≤ first → first + count ≤ hi → Rises lo hi (range_of first count)
range_of-Rises zero first lo hi l h = tt
range_of-Rises (suc count) first lo hi l h =
    (l, omega arith, range_of-Rises count (suc first) (suc first) hi (omega arith) (omega arith))

add_sorted-Rises :
    (i lo hi : ℕ) (js : List ℕ)
    → lo ≤ i
    → i < hi
    → member i js ≡ false
    → Rises lo hi js
    → Rises lo hi (add_sorted i js)
add_sorted-Rises i lo hi [] l h m r = (l, h, tt)
add_sorted-Rises i lo hi (j ∷ js) l h m (a, b, r) = elim (Bool-cases (ltb i j)) [
  | inl e ↦ rw e (l, h, (ground arith, b, r))
  | inr e ↦
      rw e (a, b, add_sorted-Rises i (suc j) hi js (ground (arith, ==_iff i j)) h (ground arith) r)
]

member-add_sorted : (i : ℕ) (js : List ℕ) → member i (add_sorted i js) ≡ true
member-add_sorted i [] = ground (arith, ==_iff i i)
member-add_sorted i (j ∷ js) = ground (arith, ==_iff i i, member-add_sorted i js)

module _ (layout : FixedLinearLayout) (request : LayoutRequest) where
  index_range-le : (e s t n : ℕ) → ((index_range e s t n).0 ≤ n) × ((index_range e s t n).1 ≤ n)
  unfolding index_range
  index_range-le e s t n = (ground arith, ground arith)

  window-le :
      (test : Bool) (n k : ℕ) (r : ℕ × ℕ)
      → (r.0 ≤ n) × (r.1 ≤ n)
      → let w = if test then (0, least n k) else r in (w.0 ≤ n) × (w.1 ≤ n)
  window-le true n k r h = (omega arith, ground arith)
  window-le false n k r h = h

  place_range-le :
      ((place_range layout request).0 ≤ request.item_count)
      × ((place_range layout request).1 ≤ request.item_count)
  unfolding place_range
  place_range-le =
      window-le _ request.item_count request.initial_item_count _
        (index_range-le layout.item_extent _ _ request.item_count)

  range-Rises : (n : ℕ) (r : ℕ × ℕ) → (r.0 ≤ n) × (r.1 ≤ n) → Rises 0 n (range_of r.0 (r.1 - r.0))
  range-Rises n r h = range_of-Rises (r.1 - r.0) r.0 0 n (omega arith) (omega arith)

  -- The target, if there is one, is in the list.
  abbrev pub HasTarget : List ℕ → Type 0
  HasTarget js = elim request.target_index [ none ↦ true | some t ↦ member t js ] ≡ true

  with_target-Rises :
      (n : ℕ) (js : List ℕ) (target : Option ℕ)
      → elim target [ none ↦ true | some t ↦ ltb t n ] ≡ true
      → Rises 0 n js
      → let all : List ℕ = elim target [
        | none ↦ js
        | some t ↦ if member t js then js else add_sorted t js
      ] in
        Rises 0 n all × (elim target [ none ↦ true | some t ↦ member t all ] ≡ true)
  with_target-Rises n js none h r = (r, refl)
  with_target-Rises n js (some t) h r = elim (Bool-cases (member t js)) [
    | inl m ↦ rw m (r, m)
    | inr m ↦
        rw m (add_sorted-Rises t 0 n js (omega arith) (ground arith) m r, member-add_sorted t js)
  ]

  target-lt :
      check_request request ≡ ok request
      → elim request.target_index [ none ↦ true | some t ↦ ltb t request.item_count ] ≡ true
  unfolding check_request
  target-lt c = ground arith

  pub place_indices-Rises :
      check_request request ≡ ok request
      → Rises 0 request.item_count (place_indices layout request)
        × HasTarget (place_indices layout request)
  unfolding place_indices
  place_indices-Rises c =
      with_target-Rises request.item_count _ request.target_index (target-lt c)
        (range-Rises request.item_count (place_range layout request) place_range-le)
