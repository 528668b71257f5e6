-- ===== src/VirtualLists/Geometry.antt =====
-- The rectangles and constraints of packages/vyne/src/vyne/_lists/contracts.py. A coordinate is a
-- finite non-negative float there. Here it is a float that is a whole number, and the arithmetic is
-- that of whole numbers, which is the float arithmetic as long as the results are small enough to be
-- exact. A fractional coordinate, and the rounding of sums of such, is not modelled.
use vyne.Common.{
  Bool, List, Option, Result, [], false, if◌then◌else◌, leb, ltb, ok, raise, raise_if, value_error,
  ℕ, ◌&&◌, ◌+◌, ◌==◌, ◌>>◌, ◌||◌, ◌∷◌,
}

pub data Axis : Type 0 where
  vertical horizontal : Axis

-- `StickyConstraint.edge`
pub data Edge : Type 0 where
  start end : Edge

pub record ViewportRect : Type 0 where
  pub x : ℕ
  pub y : ℕ
  pub width : ℕ
  pub height : ℕ

-- `width <= 0 or height <= 0`
unfoldable pub is_empty : ViewportRect → Bool
is_empty r = r.width == 0 || r.height == 0

unfoldable pub intersects : ViewportRect → ViewportRect → Bool
unfolding is_empty
intersects a b =
    if is_empty a || is_empty b
    then false
    else (ltb a.x (b.x + b.width)
        && ltb b.x (a.x + a.width)
        && ltb a.y (b.y + b.height)
        && ltb b.y (a.y + a.height))

pub record CellMeasurement : Type 0 where
  pub width : ℕ
  pub height : ℕ

pub record StickyConstraint : Type 0 where
  pub edge : Edge
  pub boundary_start : ℕ
  pub boundary_end : ℕ

-- `StickyConstraint.__post_init__`
unfoldable pub make_sticky : Edge → ℕ → ℕ → Result StickyConstraint
make_sticky edge boundary_start boundary_end =
    if leb boundary_end boundary_start
    then raise value_error
    else ok (record { edge = edge; boundary_start = boundary_start; boundary_end = boundary_end })

pub record VirtualPlacement : Type 0 where
  pub index : ℕ
  pub x : ℕ
  pub y : ℕ
  pub width : ℕ
  pub height : ℕ
  pub sticky : Option StickyConstraint

-- `ViewportRect(self.x, self.y, self.width, self.height)`
abbrev pub rect_of : VirtualPlacement → ViewportRect
rect_of p = record { x = p.x; y = p.y; width = p.width; height = p.height }

-- `VirtualPlacement.intersects`
unfoldable pub placement_intersects : VirtualPlacement → ViewportRect → Bool
unfolding intersects
placement_intersects p viewport = intersects (rect_of p) viewport

pub record LayoutResult : Type 0 where
  pub content_width : ℕ
  pub content_height : ℕ
  pub placements : List VirtualPlacement

-- `i in seen`
abbrev pub member : ℕ → List ℕ → Bool
member i [] = false
member i (j ∷ js) = i == j || member i js

-- The loop of `LayoutResult.__post_init__`.
unfoldable pub check_placements : ℕ → ℕ → List ℕ → List VirtualPlacement → Result (Unit {0})
check_placements content_width content_height seen [] = ok tt
check_placements content_width content_height seen (p ∷ ps) = do
  raise_if (member p.index seen) value_error
  raise_if (ltb content_width (p.x + p.width)) value_error
  raise_if (ltb content_height (p.y + p.height)) value_error
  check_placements content_width content_height (p.index ∷ seen) ps

unfoldable pub make_result : ℕ → ℕ → List VirtualPlacement → Result LayoutResult
unfolding check_placements
make_result content_width content_height placements = do
  check_placements content_width content_height [] placements
  ok (record {
    content_width = content_width;
    content_height = content_height;
    placements = placements;
  })
