-- ===== src/VirtualLists/FixedLinear.antt =====
-- `FixedLinearLayout` of packages/vyne/src/vyne/_lists/contracts.py, for an extent and offsets that
-- are whole numbers. Sums and products of them are taken as exact, which they are up to 2^53. Their
-- quotients are fractions, and are rounded as floats are.
pub mod Coverage
pub mod Indices
pub mod Placing
pub mod Quotients
use vyne.Common.{
  Bool, List, Option, Result, [], false, if◌then◌else◌, leb, ltb, map, none, not, ok, raise,
  raise_if, some, suc, true, value_error, zero, ℕ, ◌&&◌, ◌*◌, ◌+◌, ◌-◌, ◌/◌, ◌<◌, ◌==◌, ◌>>=◌, ◌>>◌,
  ◌||◌, ◌∷◌,
}
use vyne.VirtualLists.Geometry.{
  Axis, LayoutResult, ViewportRect, VirtualPlacement, horizontal, is_empty, make_result, member,
  vertical,
}
use vyne.VirtualLists.Requests.{LayoutRequest}

-- Whether a whole number and all below it are exact floats: it is less than 2^53.
abbrev pub IsExact : ℕ → Type 0
IsExact n = n < 9007199254740992

pub record FixedLinearLayout : Type 0 where
  pub item_extent : ℕ
  pub axis : Axis

-- `__post_init__`
unfoldable pub make_layout : ℕ → Axis → Result FixedLinearLayout
make_layout item_extent axis =
    if ltb item_extent 1
    then raise value_error
    else ok (record { item_extent = item_extent; axis = axis })

abbrev pub least : ℕ → ℕ → ℕ
least a b = if ltb b a then b else a

abbrev pub greatest : ℕ → ℕ → ℕ
greatest a b = if ltb a b then b else a

-- The scale of the float quotient of two whole numbers: doubled as long as the quotient in these
-- units is below 2^53. A quotient of positive numbers below 2^53 is above 2^-53, so that 106 rounds
-- are enough.
abbrev pub scale : ℕ → ℕ → ℕ → ℕ → ℕ
scale zero unit a e = unit
scale (suc rounds) unit a e =
    let rest = scale rounds (2 * unit) a e in
    if ltb (a * (2 * unit)) (9007199254740992 * e) then rest else unit

-- `a / e` in units of 1 / `unit`, rounded to the nearest, and to the even one of two.
abbrev pub nearest : ℕ → ℕ → ℕ → ℕ
nearest unit a e =
    let below = a * unit / e in
    let left = a * unit - below * e in
    if ltb e (2 * left) || (2 * left == e && not (2 * (below / 2) == below))
    then suc below
    else below

-- `math.floor(a / e)` and `math.ceil(a / e)` of floats.
unfoldable pub floor_quotient : ℕ → ℕ → ℕ
floor_quotient a e = let unit = scale 106 1 a e in nearest unit a e / unit

unfoldable pub ceil_quotient : ℕ → ℕ → ℕ
ceil_quotient a e = let unit = scale 106 1 a e in (nearest unit a e + (unit - 1)) / unit

-- `_index_range`
unfoldable pub index_range : ℕ → ℕ → ℕ → ℕ → ℕ × ℕ
index_range extent start stop item_count =
    if item_count == 0 || leb stop start
    then (0, 0)
    else (let total = item_count * extent in
        let bounded_start = least start total in
        let bounded_stop = least stop total in
        if leb bounded_stop bounded_start
        then (item_count, item_count)
        else (let first = least item_count (floor_quotient bounded_start extent) in
            let last = least item_count (ceil_quotient bounded_stop extent) in
            (first, greatest first last)))

-- `range(first, first + count)`
abbrev pub range_of : ℕ → ℕ → List ℕ
range_of first zero = []
range_of first (suc count) = first ∷ range_of (suc first) count

-- `sorted` of a set with one more element.
abbrev pub add_sorted : ℕ → List ℕ → List ℕ
add_sorted i [] = i ∷ []
add_sorted i (j ∷ js) = if ltb i j then i ∷ j ∷ js else j ∷ add_sorted i js

-- The rows or columns of the main axis that `place` asks for: the covered ones, or the initial
-- window before there are metrics; and the target.
unfoldable pub place_range : FixedLinearLayout → LayoutRequest → ℕ × ℕ
unfolding index_range is_empty
place_range layout request =
    let view = request.realization_viewport in
    let (main_start, main_extent) = elim layout.axis as (λ _. ℕ × ℕ) [
      | vertical ↦ (view.y, view.height)
      | horizontal ↦ (view.x, view.width)
    ] in
    let (first, last) =
      index_range layout.item_extent main_start (main_start + main_extent) request.item_count in
    if first == last && is_empty request.viewport && ltb 0 request.item_count
    then (0, least request.item_count request.initial_item_count)
    else (first, last)

unfoldable pub place_indices : FixedLinearLayout → LayoutRequest → List ℕ
unfolding place_range
place_indices layout request =
    let (first, last) = place_range layout request in
    let indices = range_of first (last - first) in
    elim request.target_index [
      | none ↦ indices
      | some target ↦ if member target indices then indices else add_sorted target indices
    ]

unfoldable pub placement_at : FixedLinearLayout → LayoutRequest → ℕ → VirtualPlacement
placement_at layout request index = elim layout.axis [
  | vertical ↦ record {
    index = index;
    x = 0;
    y = index * layout.item_extent;
    width = request.viewport.width;
    height = layout.item_extent;
    sticky = none;
  }
  | horizontal ↦ record {
    index = index;
    x = index * layout.item_extent;
    y = 0;
    width = layout.item_extent;
    height = request.viewport.height;
    sticky = none;
  }
]

unfoldable pub place : FixedLinearLayout → LayoutRequest → Result LayoutResult
unfolding place_indices placement_at make_result
place layout request =
    let content_extent = request.item_count * layout.item_extent in
    let placements = map (placement_at layout request) (place_indices layout request) in
    elim layout.axis [
      | vertical ↦ make_result request.viewport.width content_extent placements
      | horizontal ↦ make_result content_extent request.viewport.height placements
    ]

unfoldable pub offset_for_index : FixedLinearLayout → ℕ → ℕ × ℕ
offset_for_index layout index = elim layout.axis [
  | vertical ↦ (0, index * layout.item_extent)
  | horizontal ↦ (index * layout.item_extent, 0)
]
