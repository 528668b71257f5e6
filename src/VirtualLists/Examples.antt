-- ===== src/VirtualLists/Examples.antt =====
-- Runs of the virtual list's layout, realization policy and key checks
-- (packages/vyne/src/vyne/_lists/contracts.py, source.py and generic.py).
use vyne.Common.{
  ℕ, ◌+◌, ◌*◌, ◌<◌, ◌≤◌, String, true, ◌&&◌, none, some, List, [], ◌∷◌, length, ok, raise,
  value_error, if◌then◌else◌, ◌≡◌, ◌⊎◌, ◌↔◌, inl, inr, refl, arith,
}
use vyne.Common.Ints.{pos}
use vyne.Common.Maps.{lookup, insert, string_eq}
use vyne.VirtualLists.Geometry.{
  vertical, is_empty, intersects, placement_intersects, ViewportRect, VirtualPlacement,
  LayoutResult,
}
use vyne.VirtualLists.Requests.{LayoutRequest}
use vyne.VirtualLists.FixedLinear.{
  FixedLinearLayout, ceil_quotient, floor_quotient, index_range, nearest, place, place_indices,
  place_range, placement_at, scale,
}
use vyne.VirtualLists.FixedLinear.Indices.{Rises}
use vyne.VirtualLists.FixedLinear.Placing.{select_placements-place}
use vyne.VirtualLists.Requests.{check_request}
use vyne.VirtualLists.FixedLinear.Coverage.{index_range_exact}
use vyne.VirtualLists.Selection.{
  placement_relevant, is_mandatory, select_placements, check_candidates, validate_sticky,
  partition_candidates, keep_if, cap_optional, sort, insort, nearer, squared_distance,
}
use vyne.VirtualLists.Selection.Members.{In}
use vyne.VirtualLists.Selection.Sorted.{IsSorted}
use vyne.VirtualLists.Selection.Policy.{
  acceptable, selection, mandatory, InWindow, select_placements-accepts,
  select_placements-mandatory, select_placements-justified, length-select_placements,
}
use vyne.VirtualLists.Source.{
  number, text, SequenceDataSource, item_count, key_at, index_for_key, is_canonical_key,
  validate_canonical_key, compose_keys, seen,
}
use vyne.VirtualLists.Source.Keys.{key_at-canonical, index_for_key-key_at}
use vyne.VirtualLists.Source.Registry.{
  fresh_keys, agrees, insert_all, index_in_window, compose_keys_lem, compose_keys-windows,
}

-- The float 1 / 3, in units of 2^-54.
third : nearest (scale 106 1 1 3) 1 3 ≡ 6004799503160661
third = refl

-- Cells of extent 10: the span from 15 to 40 meets the cell 3, from 30 to 40.
index_range_exact_example :
    ((index_range 10 15 40 9).0 ≤ 3) × (3 < (index_range 10 15 40 9).1)
    ↔ (15 < (3 + 1) * 10) × (3 * 10 < 40)
index_range_exact_example =
    index_range_exact 10 15 40 9 3 (omega arith) (omega arith) (omega arith) (omega arith)

abbrev cell : ℕ → ℕ → VirtualPlacement
cell index y = record { index = index; x = 0; y = y; width = 100; height = 10; sticky = none }

abbrev rect : ℕ → ℕ → ViewportRect
rect y height = record { x = 0; y = y; width = 100; height = height }

-- The viewport shows the cell 1; the realization viewport reaches the cells 0, 2 and 3.
abbrev request : LayoutRequest
request = record {
  item_count = 9;
  viewport = rect 10 10;
  realization_viewport = rect 0 40;
  measurement_for_index = λ i. none;
  target_index = none;
  initial_item_count = 2;
  max_offscreen_items = 1;
}

abbrev candidates : LayoutResult
candidates = record {
  content_width = 100;
  content_height = 90;
  placements = cell 3 30 ∷ cell 1 10 ∷ cell 2 20 ∷ cell 0 0 ∷ [];
}

-- Rows of extent 10 for the same list, with the target 7 outside the realization viewport.
abbrev rows : FixedLinearLayout
rows = record { item_extent = 10; axis = vertical }

abbrev jump : LayoutRequest
jump = record request { target_index = some 7 }

abbrev jump_result : LayoutResult
jump_result = record candidates {
  placements = cell 0 0 ∷ cell 1 10 ∷ cell 2 20 ∷ cell 3 30 ∷ cell 7 70 ∷ [];
}

select_placements-place_example :
    (place rows jump ≡ ok jump_result)
    × Rises 0 9 (0 ∷ 1 ∷ 2 ∷ 3 ∷ 7 ∷ [])
    × (true ≡ true)
    × (select_placements jump jump_result vertical ≡ ok (selection jump jump_result vertical))
unfolding placement_at place_indices place_range index_range floor_quotient ceil_quotient is_empty
    check_request
select_placements-place_example =
    select_placements-place rows jump
      (omega arith, omega arith, omega arith, omega arith, omega arith) refl

-- The mandatory cell 1 and, of the nearest, the cell 0.
chosen : select_placements request candidates vertical ≡ ok (cell 0 0 ∷ cell 1 10 ∷ [])
unfolding select_placements check_candidates validate_sticky partition_candidates keep_if
    cap_optional sort insort nearer squared_distance is_mandatory placement_relevant
    placement_intersects intersects is_empty
chosen = refl

select_placements-accepts_example :
    (select_placements request candidates vertical ≡ (
      if acceptable request candidates vertical
      then ok (selection request candidates vertical)
      else raise value_error))
    × IsSorted (selection request candidates vertical)
select_placements-accepts_example = select_placements-accepts request candidates vertical

select_placements-mandatory_example : In (cell 1 10) (cell 0 0 ∷ cell 1 10 ∷ [])
unfolding is_mandatory placement_relevant placement_intersects intersects is_empty
select_placements-mandatory_example =
    select_placements-mandatory request candidates vertical (cell 0 0 ∷ cell 1 10 ∷ []) (cell 1 10)
      chosen (inr (inl refl)) refl

select_placements-justified_example :
    In (cell 0 0) candidates.placements
    × ((is_mandatory (cell 0 0) request vertical ≡ true)
        ⊎ InWindow request candidates vertical (cell 0 0)
        ⊎ (placement_relevant (cell 0 0) request.realization_viewport vertical ≡ true))
select_placements-justified_example =
    select_placements-justified request candidates vertical (cell 0 0 ∷ cell 1 10 ∷ []) (cell 0 0)
      chosen (inl refl)

length-select_placements_example :
    length (cell 0 0 ∷ cell 1 10 ∷ []) ≤ length (mandatory request candidates vertical) + 1
length-select_placements_example =
    length-select_placements request candidates vertical (cell 0 0 ∷ cell 1 10 ∷ []) chosen
      (omega arith)

-- Items by their position, and items by a key of their own.
abbrev by_position : SequenceDataSource String
by_position = record { data_items = "a" ∷ "b" ∷ []; key_for_item = none }

abbrev by_name : SequenceDataSource String
by_name = record { data_items = "a" ∷ "b" ∷ []; key_for_item = some (λ item i. text item) }

key_at-canonical_example : is_canonical_key (text "b") ≡ true
unfolding key_at is_canonical_key validate_canonical_key
key_at-canonical_example = key_at-canonical by_name (pos 1) (text "b") refl

index_for_key-key_at_example :
    (index_for_key by_position (number (pos 1)) ≡ some 1)
    ↔ ((1 < item_count by_position) × (key_at by_position (pos 1) ≡ ok (number (pos 1))))
index_for_key-key_at_example = index_for_key-key_at by_position (number (pos 1)) 1 refl

abbrev first_window : List (ℕ × String)
first_window = (0, "a") ∷ (1, "b") ∷ []

abbrev second_window : List (ℕ × String)
second_window = (1, "b") ∷ (2, "c") ∷ []

-- The item "b" moved: a stale registry has it at 4.
abbrev registered : List (String × ℕ)
registered = ("b", 4) ∷ []

compose_keys_lem_example :
    (compose_keys [] first_window (some registered) ≡ (
      if fresh_keys [] first_window && agrees registered first_window
      then ok (some (insert_all first_window registered))
      else raise value_error))
    × ((key : String)
        → lookup key (insert_all first_window registered)
          ≡ elim (index_in_window key first_window) [
            | none ↦ lookup key registered
            | some i ↦ some i
          ])
compose_keys_lem_example = compose_keys_lem first_window registered

moved : compose_keys [] first_window (some registered) ≡ raise value_error
unfolding compose_keys seen lookup insert
moved = refl

abbrev index_of_b : ℕ
index_of_b = 1

-- Two windows that share the item "b".
compose_keys-windows_example : index_of_b ≡ index_of_b
unfolding compose_keys seen lookup insert
compose_keys-windows_example =
    compose_keys-windows first_window second_window [] (("a", 0) ∷ ("b", 1) ∷ [])
      (("a", 0) ∷ ("b", 1) ∷ ("c", 2) ∷ []) "b" index_of_b index_of_b refl refl refl refl
