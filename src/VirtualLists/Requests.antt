-- ===== src/VirtualLists/Requests.antt =====
-- `LayoutRequest` of packages/vyne/src/vyne/_lists/contracts.py, with the checks that depend on
-- values; the checks of Python types are the types here.
use vyne.Common.{Option, Result, if◌then◌else◌, leb, none, ok, raise, some, value_error, ℕ}
use vyne.VirtualLists.Geometry.{CellMeasurement, ViewportRect}

pub record LayoutRequest : Type 0 where
  pub item_count : ℕ
  pub viewport : ViewportRect
  pub realization_viewport : ViewportRect
  pub measurement_for_index : ℕ → Option CellMeasurement
  pub target_index : Option ℕ
  pub initial_item_count : ℕ
  pub max_offscreen_items : ℕ

-- `LayoutRequest.__post_init__`
unfoldable pub check_request : LayoutRequest → Result LayoutRequest
check_request request = elim request.target_index [
  | none ↦ ok request
  | some target ↦ if leb request.item_count target then raise value_error else ok request
]
