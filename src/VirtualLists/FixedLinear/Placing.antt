-- ===== src/VirtualLists/FixedLinear/Placing.antt =====
-- What `FixedLinearLayout.place` (packages/vyne/src/vyne/_lists/contracts.py) answers.
use native.Mathlib.Nat.{mul-le-mul_right}
use vyne.Common.{
  ◌∙◌, Option-cases, List, [], arith, false, inl, inr, map, ok, refl, some, suc, true, ℕ, ◌*◌, ◌+◌,
  ◌<◌, ◌∷◌, ◌≡◌, ◌≤◌, ==_iff,
}
use vyne.VirtualLists.FixedLinear.{FixedLinearLayout, place, place_indices, placement_at}
use vyne.VirtualLists.Selection.{any_of, is_target, select_placements}
use vyne.VirtualLists.Selection.Policy.{
  acceptable, content_extent, all_of, is_consistent, select_placements-accepts, selection,
}
use vyne.VirtualLists.Geometry.{
  Axis, VirtualPlacement, LayoutResult, check_placements, horizontal, make_result, member, vertical,
}
use vyne.VirtualLists.Requests.{LayoutRequest, check_request}
use vyne.VirtualLists.FixedLinear.Indices.{HasTarget, Rises, place_indices-Rises}

-- Placements of an ascending list of indices that lie within the content pass the checks.
check_placements-map :
    (w h n lo : ℕ) (at : ℕ → VirtualPlacement) (seen js : List ℕ)
    → ((i : ℕ)
        → i < n
        → ((at i).index ≡ i) × ((at i).x + (at i).width ≤ w) × ((at i).y + (at i).height ≤ h))
    → ((i : ℕ) → lo ≤ i → member i seen ≡ false)
    → Rises lo n js
    → check_placements w h seen (map at js) ≡ ok tt
unfolding check_placements
check_placements-map w h n lo at seen [] fits f r = refl
check_placements-map w h n lo at seen (j ∷ js) fits f (l, b, r) =
    let (same, x, y) = fits j b in
    let rest =
      check_placements-map w h n (suc j) at (j ∷ seen) js fits
        (λ i q. ground (arith, f i, ==_iff i j)) r in
    rw same (ground (arith, f j l, x, y, rest))

module _ (layout : FixedLinearLayout) (request : LayoutRequest) where
  abbrev pub placed : LayoutResult
  placed =
      let extent = request.item_count * layout.item_extent in
      record {
        content_width = elim layout.axis [
          | vertical ↦ request.viewport.width
          | horizontal ↦ extent
        ];
        content_height = elim layout.axis [
          | vertical ↦ extent
          | horizontal ↦ request.viewport.height
        ];
        placements = map (placement_at layout request) (place_indices layout request);
      }

  placement_at-fits :
      (i : ℕ)
      → i < request.item_count
      → let p = placement_at layout request i in
        (p.index ≡ i)
        × (p.x + p.width ≤ placed.content_width)
        × (p.y + p.height ≤ placed.content_height)
  unfolding placement_at
  placement_at-fits i h =
      let m : suc i * layout.item_extent ≤ request.item_count * layout.item_extent =
        mul-le-mul_right layout.item_extent h in
      let e : suc i * layout.item_extent ≡ i * layout.item_extent + layout.item_extent =
        omega arith in
      (ground arith, ground arith, ground arith)

  place-make_result :
      place layout request
      ≡ make_result placed.content_width placed.content_height placed.placements
  unfolding place
  place-make_result = ground arith

  place-ok : check_request request ≡ ok request → place layout request ≡ ok placed
  unfolding make_result
  place-ok c =
      let checks =
        check_placements-map placed.content_width placed.content_height request.item_count 0
          (placement_at layout request) [] (place_indices layout request) placement_at-fits
          (λ i h. refl) (place_indices-Rises layout request c).0 in
      place-make_result ∙ rw checks refl

  consistent :
      (axis : Axis) (extent lo : ℕ) (js : List ℕ)
      → Rises lo request.item_count js
      → all_of (is_consistent request.item_count axis extent) (map (placement_at layout request) js)
        ≡ true
  unfolding placement_at
  consistent axis extent lo [] r = refl
  consistent axis extent lo (j ∷ js) (l, b, r) = ground (arith, consistent axis extent (suc j) js r)

  targeted :
      (t : ℕ) (js : List ℕ)
      → any_of (is_target (some t)) (map (placement_at layout request) js) ≡ member t js
  unfolding placement_at
  targeted t [] = refl
  targeted t (j ∷ js) = ground (arith, targeted t js, ==_iff t j, ==_iff j t)

  place-acceptable :
      HasTarget layout request (place_indices layout request)
      → Rises 0 request.item_count (place_indices layout request)
      → acceptable request placed layout.axis ≡ true
  place-acceptable has r =
      let c =
        consistent layout.axis (content_extent request placed layout.axis) 0
          (place_indices layout request) r in
      elim (Option-cases request.target_index) [
        | inl e ↦ ground (arith, c)
        | inr (t, e) ↦ ground (arith, c, targeted t (place_indices layout request))
      ]

  -- The content and both viewports end below 2^24, so that in whole numbers all that the layout and
  -- the policy compute is exact, the squares of distances between centres included.
  abbrev pub IsSmall : Type 0
  IsSmall =
      (request.item_count * layout.item_extent < 16777216)
      × (request.viewport.x + request.viewport.width < 16777216)
      × (request.viewport.y + request.viewport.height < 16777216)
      × (request.realization_viewport.x + request.realization_viewport.width < 16777216)
      × (request.realization_viewport.y + request.realization_viewport.height < 16777216)

  -- For an extent and viewports in whole numbers that end below 2^24, as the content does, and a
  -- request whose target, if it has one, is an item's, a fixed layout does not raise. Its result has
  -- the viewport's size across, all the cells' extent along, and a placement at each index of a
  -- strictly ascending list of item indices with the target; and the realization policy accepts it.
  pub select_placements-place :
      IsSmall
      → check_request request ≡ ok request
      → (place layout request ≡ ok placed)
        × Rises 0 request.item_count (place_indices layout request)
        × HasTarget layout request (place_indices layout request)
        × (select_placements request placed layout.axis ≡ ok (selection request placed layout.axis))
  select_placements-place small c =
      let (rises, has) = place_indices-Rises layout request c in
      (
        place-ok c,
        rises,
        has,
        (select_placements-accepts request placed layout.axis).0
            ∙ rw (place-acceptable has rises) refl,
      )
