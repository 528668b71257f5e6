-- ===== src/VirtualLists/Selection.antt =====
-- `select_placements` of packages/vyne/src/vyne/_lists/contracts.py, the realization policy, and the
-- tests that it is made of.
pub mod Members
pub mod Sorted
pub mod Policy
use vyne.Common.{
  Bool, List, Option, Result, [], drop, false, if◌then◌else◌, is_some, leb, ltb, none, not, ok,
  raise, raise_if, some, suc, take, true, value_error, zero, ℕ, ◌&&◌, ◌*◌, ◌++◌, ◌+◌, ◌-◌, ◌==◌,
  ◌>>=◌, ◌>>◌, ◌||◌, ◌∷◌,
}
use vyne.VirtualLists.Geometry.{
  Axis, LayoutResult, StickyConstraint, ViewportRect, VirtualPlacement, horizontal, is_empty,
  placement_intersects, vertical,
}
use vyne.VirtualLists.Requests.{LayoutRequest}

abbrev pub main_start : Axis → ViewportRect → ℕ
main_start vertical r = r.y
main_start horizontal r = r.x

abbrev pub main_extent : Axis → ViewportRect → ℕ
main_extent vertical r = r.height
main_extent horizontal r = r.width

abbrev pub natural_start : Axis → VirtualPlacement → ℕ
natural_start vertical p = p.y
natural_start horizontal p = p.x

abbrev pub natural_stop : Axis → VirtualPlacement → ℕ
natural_stop vertical p = p.y + p.height
natural_stop horizontal p = p.x + p.width

-- `_validate_sticky`
unfoldable pub validate_sticky : VirtualPlacement → Axis → ℕ → Result (Unit {0})
validate_sticky p axis extent = elim p.sticky [
  | none ↦ ok tt
  | some sticky ↦ do
    raise_if (ltb extent sticky.boundary_end) value_error
    raise_if
        (ltb (natural_start axis p) sticky.boundary_start
          || ltb sticky.boundary_end (natural_stop axis p))
        value_error
]

-- `placement_relevant`
unfoldable pub placement_relevant : VirtualPlacement → ViewportRect → Axis → Bool
unfolding placement_intersects
placement_relevant p viewport axis =
    if placement_intersects p viewport then true else (elim p.sticky [
      | none ↦ false
      | some sticky ↦
          ltb sticky.boundary_start (main_start axis viewport + main_extent axis viewport)
          && ltb (main_start axis viewport) sticky.boundary_end
    ])

abbrev pub is_target : Option ℕ → VirtualPlacement → Bool
is_target none p = false
is_target (some target) p = p.index == target

-- `_is_mandatory`
unfoldable pub is_mandatory : VirtualPlacement → LayoutRequest → Axis → Bool
is_mandatory p request axis =
    is_target request.target_index p || placement_relevant p request.viewport axis

-- |a - b|
abbrev pub gap : ℕ → ℕ → ℕ
gap a b = (a - b) + (b - a)

-- `squared` of `_distance_key`, of centers in half units: four times the source's value.
unfoldable pub squared_distance : ViewportRect → VirtualPlacement → ℕ
squared_distance v p =
    let dx = gap (2 * p.x + p.width) (2 * v.x + v.width) in
    let dy = gap (2 * p.y + p.height) (2 * v.y + v.height) in dx * dx + dy * dy

-- The order of the keys `(squared, index)`.
unfoldable pub nearer : ViewportRect → VirtualPlacement → VirtualPlacement → Bool
nearer v p q =
    let a = squared_distance v p in
    let b = squared_distance v q in ltb a b || a == b && leb p.index q.index

abbrev pub by_index : VirtualPlacement → VirtualPlacement → Bool
by_index p q = leb p.index q.index

-- `sorted` by a key, which is stable: an element goes before those that it may precede.
module _ {ℓ} {A : Type ℓ} (le : A → A → Bool) where
  unfoldable pub insort : A → List A → List A
  insort x [] = x ∷ []
  insort x (y ∷ ys) = if le x y then x ∷ y ∷ ys else y ∷ insort x ys

  unfoldable pub sort : List A → List A
  unfolding insort
  sort [] = []
  sort (x ∷ xs) = insort x (sort xs)

module _ {ℓ} {A : Type ℓ} where
  -- `[p for p in xs if keep(p)]`
  unfoldable pub keep_if : (A → Bool) → List A → List A
  keep_if keep [] = []
  keep_if keep (x ∷ xs) = if keep x then x ∷ keep_if keep xs else keep_if keep xs

  abbrev pub any_of : (A → Bool) → List A → Bool
  any_of test [] = false
  any_of test (x ∷ xs) = test x || any_of test xs

  abbrev pub none_in : List A → Bool
  none_in [] = true
  none_in (x ∷ xs) = false

-- The first loop: every index in range, every sticky constraint consistent.
unfoldable pub check_candidates : ℕ → Axis → ℕ → List VirtualPlacement → Result (Unit {0})
unfolding validate_sticky
check_candidates item_count axis extent [] = ok tt
check_candidates item_count axis extent (p ∷ ps) = do
  raise_if (leb item_count p.index) value_error
  validate_sticky p axis extent
  check_candidates item_count axis extent ps

-- The two lists before the cap: the mandatory candidates and the others, or, where nothing is
-- mandatory and there are no metrics yet, the initial window and the rest.
unfoldable pub partition_candidates :
    LayoutRequest → List VirtualPlacement → Axis → List VirtualPlacement × List VirtualPlacement
partition_candidates request placements axis =
    let mandatory = keep_if (λ p. is_mandatory p request axis) placements in
    let optional = keep_if (λ p. not (is_mandatory p request axis)) placements in
    if none_in mandatory && not (is_some request.target_index) && is_empty request.viewport
    then (
      take request.initial_item_count (sort by_index placements),
      drop request.initial_item_count (sort by_index placements),
    )
    else (mandatory, optional)

-- The cap on what is off screen: the nearest ones.
unfoldable pub cap_optional : LayoutRequest → List VirtualPlacement → List VirtualPlacement
cap_optional request optional =
    if ltb 0 request.max_offscreen_items
    then take request.max_offscreen_items (sort (nearer request.viewport) optional)
    else optional

unfoldable pub select_placements :
    LayoutRequest → LayoutResult → Axis → Result (List VirtualPlacement)
select_placements request result axis = do
  let extent = elim axis as (λ _. ℕ) [
    | vertical ↦ result.content_height
    | horizontal ↦ result.content_width
  ]
  check_candidates request.item_count axis extent result.placements
  raise_if
      (is_some request.target_index
        && not (any_of (is_target request.target_index) result.placements))
      value_error
  let (mandatory, optional) = partition_candidates request result.placements axis
  let relevant = keep_if (λ p. placement_relevant p request.realization_viewport axis) optional
  ok (sort by_index (mandatory ++ cap_optional request relevant))
