-- ===== src/VirtualLists/Selection/Policy.antt =====
-- What the realization policy keeps (packages/vyne/src/vyne/_lists/contracts.py).
use vyne.Common.{subst, sym}
use vyne.Common.{
  Bool, Bool-cases, List, Result, [], arith, drop, false, if◌then◌else◌, inl, inr, is_some, leb,
  length, length-append, length-take-le, ltb, lt→ltb, none, not, ok, raise, refl, some, take, true,
  value_error, ℕ, ◌&&◌, ◌++◌, ◌+◌, ◌<◌, ◌||◌, ◌∷◌, ◌≡◌, ◌≤◌, ◌⊎◌,
}
use vyne.VirtualLists.Geometry.{
  Axis, LayoutResult, VirtualPlacement, horizontal, is_empty, vertical,
}
use vyne.VirtualLists.Requests.{LayoutRequest}
use vyne.VirtualLists.Selection.{
  any_of, by_index, cap_optional, check_candidates, is_mandatory, is_target, keep_if, natural_start,
  natural_stop, nearer, none_in, partition_candidates, placement_relevant, select_placements, sort,
}
use vyne.VirtualLists.Selection.Members.{
  In, In-append, In-append_left, In-drop, In-keep_if, In-sort, In-take, keep_if-In, length-sort,
  sort-In,
}
use vyne.VirtualLists.Selection.Sorted.{IsSorted, sort-IsSorted}

-- A candidate that the first loop lets pass: its index is an item's, and a sticky section lies within
-- the content and around the placement.
abbrev pub is_consistent : ℕ → Axis → ℕ → VirtualPlacement → Bool
is_consistent item_count axis extent p = ltb p.index item_count && elim p.sticky [
  | none ↦ true
  | some sticky ↦
      leb sticky.boundary_end extent
      && leb sticky.boundary_start (natural_start axis p)
      && leb (natural_stop axis p) sticky.boundary_end
]

abbrev pub all_of : (VirtualPlacement → Bool) → List VirtualPlacement → Bool
all_of test [] = true
all_of test (p ∷ ps) = test p && all_of test ps

abbrev pub checked : Bool → Result (Unit {0})
checked true = ok tt
checked false = raise value_error

check_candidates_lem :
    (item_count : ℕ) (axis : Axis) (extent : ℕ) (ps : List VirtualPlacement)
    → check_candidates item_count axis extent ps
      ≡ checked (all_of (is_consistent item_count axis extent) ps)
unfolding check_candidates
check_candidates_lem item_count axis extent [] = refl
check_candidates_lem item_count axis extent (p ∷ ps) =
    ground (arith, check_candidates_lem item_count axis extent ps)

module _ (request : LayoutRequest) (result : LayoutResult) (axis : Axis) where
  abbrev pub mandatory : List VirtualPlacement
  mandatory = (partition_candidates request result.placements axis).0

  abbrev pub relevant : List VirtualPlacement
  relevant =
      keep_if (λ p. placement_relevant p request.realization_viewport axis)
        (partition_candidates request result.placements axis).1

  abbrev pub content_extent : ℕ
  content_extent = elim axis [
    | vertical ↦ result.content_height
    | horizontal ↦ result.content_width
  ]

  -- The candidates pass the checks, and the target is among them.
  abbrev pub acceptable : Bool
  acceptable =
      all_of (is_consistent request.item_count axis content_extent) result.placements
      && (not (is_some request.target_index)
          || any_of (is_target request.target_index) result.placements)

  abbrev pub selection : List VirtualPlacement
  selection = sort by_index (mandatory ++ cap_optional request relevant)

  select_acceptable :
      select_placements request result axis
      ≡ (if acceptable then ok selection else raise value_error)
  unfolding select_placements
  select_acceptable =
      ground (arith, check_candidates_lem request.item_count axis content_extent result.placements)

  -- Before there are metrics and with nothing mandatory, the first candidates by index count as
  -- mandatory.
  abbrev pub InWindow : VirtualPlacement → Type 0
  InWindow p =
      (is_empty request.viewport ≡ true)
      × In p (take request.initial_item_count (sort by_index result.placements))

  none_in-In : (p : VirtualPlacement) (ps : List VirtualPlacement) → In p ps → none_in ps ≡ false
  none_in-In p [] h = elim h [ ]
  none_in-In p (q ∷ ps) h = refl

  abbrev Split : Type 0
  Split = List VirtualPlacement × List VirtualPlacement

  -- The test for the initial window.
  abbrev in_window : Bool
  in_window =
      none_in (keep_if (λ q. is_mandatory q request axis) result.placements)
      && not (is_some request.target_index)
      && is_empty request.viewport

  partition-window :
      in_window ≡ true
      → partition_candidates request result.placements axis ≡ (
        take request.initial_item_count (sort by_index result.placements),
        drop request.initial_item_count (sort by_index result.placements),
      )
  unfolding partition_candidates
  partition-window e = rw e refl

  partition-mandatory :
      in_window ≡ false
      → partition_candidates request result.placements axis ≡ (
        keep_if (λ q. is_mandatory q request axis) result.placements,
        keep_if (λ q. not (is_mandatory q request axis)) result.placements,
      )
  unfolding partition_candidates
  partition-mandatory e = rw e refl

  mandatory-In :
      (p : VirtualPlacement)
      → In p result.placements
      → is_mandatory p request axis ≡ true
      → In p mandatory
  mandatory-In p h m =
      let kept = keep_if-In (λ q. is_mandatory q request axis) p result.placements h m in
      let e : in_window ≡ false = rw (none_in-In p _ kept) refl in
      subst (λ (s : Split). In p s.0) (sym (partition-mandatory e)) kept

  abbrev Justified : VirtualPlacement → Split → Type 0
  Justified p split =
      (In p split.0 → In p result.placements × ((is_mandatory p request axis ≡ true) ⊎ InWindow p))
      × (In p split.1 → In p result.placements)

  partition-In :
      (p : VirtualPlacement) → Justified p (partition_candidates request result.placements axis)
  partition-In p = elim (Bool-cases in_window) [
    | inl e ↦ subst (Justified p) (sym (partition-window e)) (
      λ h. (
        In-sort by_index p result.placements (In-take p request.initial_item_count _ h),
        inr (ground arith, h),
      ),
      λ h. In-sort by_index p result.placements (In-drop p request.initial_item_count _ h),
    )
    | inr e ↦ subst (Justified p) (sym (partition-mandatory e)) (
      λ h.
          let r = In-keep_if (λ q. is_mandatory q request axis) p result.placements h in
          (r.0, inl r.1),
      λ h. (In-keep_if (λ q. not (is_mandatory q request axis)) p result.placements h).0,
    )
  ]

  cap_optional-In :
      (p : VirtualPlacement) (ps : List VirtualPlacement) → In p (cap_optional request ps) → In p ps
  unfolding cap_optional
  cap_optional-In p ps h = elim (Bool-cases (ltb 0 request.max_offscreen_items)) [
    | inl e ↦
        In-sort (nearer request.viewport) p ps (In-take p request.max_offscreen_items _ (rw e at h))
    | inr e ↦ rw e at h
  ]

  length-cap_optional :
      (ps : List VirtualPlacement)
      → 0 < request.max_offscreen_items
      → length (cap_optional request ps) ≤ request.max_offscreen_items
  unfolding cap_optional
  length-cap_optional ps h =
      rw (lt→ltb 0 request.max_offscreen_items h)
        (length-take-le request.max_offscreen_items (sort (nearer request.viewport) ps))

  -- The selection succeeds exactly when the candidates pass the checks and the target is among
  -- them, and raises ValueError otherwise; what it selects is sorted by index.
  pub select_placements-accepts :
      (select_placements request result axis
        ≡ (if acceptable then ok selection else raise value_error))
      × IsSorted selection
  select_placements-accepts = (select_acceptable, sort-IsSorted _)

  selected :
      (placements : List VirtualPlacement)
      → select_placements request result axis ≡ ok placements
      → placements ≡ selection
  selected placements h = ground (arith, select_acceptable)

  -- A selection holds every mandatory candidate, whatever the cap.
  pub select_placements-mandatory :
      (placements : List VirtualPlacement) (p : VirtualPlacement)
      → select_placements request result axis ≡ ok placements
      → In p result.placements
      → is_mandatory p request axis ≡ true
      → In p placements
  select_placements-mandatory placements p r h m = subst (In p) (sym (selected placements r)) (
      sort-In by_index p _
        (In-append_left p mandatory (cap_optional request relevant) (mandatory-In p h m)))

  -- What a selection holds is a candidate that is mandatory, in the initial window, or relevant to
  -- the realization viewport.
  pub select_placements-justified :
      (placements : List VirtualPlacement) (p : VirtualPlacement)
      → select_placements request result axis ≡ ok placements
      → In p placements
      → In p result.placements
        × ((is_mandatory p request axis ≡ true)
            ⊎ InWindow p
            ⊎ (placement_relevant p request.realization_viewport axis ≡ true))
  select_placements-justified placements p r h =
      elim (In-append p mandatory _
        (In-sort by_index p _ (subst (In p) (selected placements r) h))) [
          | inl a ↦
              let (b, c) = (partition-In p).0 a in
              (b, elim c [ inl x ↦ inl x | inr y ↦ inr (inl y) ])
          | inr b ↦
              let s =
                In-keep_if (λ q. placement_relevant q request.realization_viewport axis) p _
                  (cap_optional-In p relevant b) in
              ((partition-In p).1 s.0, inr (inr s.1))
        ]

  -- Under a positive cap, a selection has at most that many placements besides the mandatory ones.
  pub length-select_placements :
      (placements : List VirtualPlacement)
      → select_placements request result axis ≡ ok placements
      → 0 < request.max_offscreen_items
      → length placements ≤ length mandatory + request.max_offscreen_items
  length-select_placements placements r h = rw (selected placements r) (
      omega (
        arith,
        length-sort by_index (mandatory ++ cap_optional request relevant),
        length-append mandatory (cap_optional request relevant),
        length-cap_optional relevant h,
      ))
