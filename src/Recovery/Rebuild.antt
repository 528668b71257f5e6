-- ===== src/Recovery/Rebuild.antt =====
-- The snapshot of a tree (packages/vyne/src/vyne/recovery.py) against the reference applier.
use vyne.Common.{
  ==_iff, List, [], append-nil, append_assoc, arith, length, none, ok, refl, some, subst, suc, sym,
  true, ℕ, ◌++◌, ◌<◌, ◌∙◌, ◌∷◌, ◌≡◌, ◌≢◌, ap, length-append,
}
use vyne.Common.Maps.{Distinct, nat_eq, string_eq}
use vyne.Common.Positions.{NoRepeat, append-NoRepeat_inv, none_of, position, position-append}
use vyne.Reconcile.Effects.{info, kids, live}
use vyne.Reconcile.Model.{
  Nodes, Op, RenderNode, clear, create, ids, insert_child, no_nodes, node, node_id, one_more,
  to_list,
}
use vyne.Reconcile.Native.{NativeModel, apply_op, apply_ops}
use vyne.Reconcile.Planner.{forest_ids, subtree_ids}
use vyne.Reconcile.Trees.{Agree, Holds, Holds-frame, HoldsAll}
use vyne.Recovery.Listening.{Runs, Runs-append, Runs-cons}
use vyne.Recovery.Snapshots.{build_snapshot, emit_children, emit_node, listen_ops, props_ops}
use vyne.Recovery.Sorting.{sort_items}
use vyne.Recovery.Placing.{AreBound, place, placing_ops}

module _ {K V : Type 0} where
  -- Every node of the tree has a positive id, properties and listeners that are dicts, and a listener
  -- for each of its latest events.
  unfoldable mutual
    pub IsRenderable : RenderNode K V → Type 0
    IsRenderable (node id kind key props b p e children) =
        (0 < id) × Distinct props × AreBound b × AllRenderable children

    pub AllRenderable : Nodes K V → Type 0
    AllRenderable no_nodes = Unit
    AllRenderable (one_more n ns) = IsRenderable n × AllRenderable ns

-- The ids of the nodes are new to the model, and none is the parent.
abbrev Fresh : {V : Type 0} → List ℕ → ℕ → NativeModel V → Type 0
Fresh xs parent m = (j : ℕ) → position j xs ≢ none → (info m j ≡ none) × (j ≢ parent)

module _ {K V : Type 0} (fuel : ℕ) where
  -- What a snapshot's operations for some siblings make.
  pub record Built (parent : ℕ) (ts : Nodes K V) (ops : List (Op V)) (m m' : NativeModel V)
      : Type 0 where
    pub runs : Runs fuel ops m m'
    pub holds : HoldsAll m' parent ts
    pub parent_info : info m' parent ≡ info m parent
    pub parent_kids : kids m' parent ≡ kids m parent ++ ids (to_list ts)
    pub others : (j : ℕ) → position j (forest_ids ts) ≡ none → j ≢ parent → Agree m m' j

  pub record BuiltOne (parent : ℕ) (t : RenderNode K V) (ops : List (Op V)) (m m' : NativeModel V)
      : Type 0 where
    pub runs : Runs fuel ops m m'
    pub holds : Holds m' (some parent) t
    pub parent_info : info m' parent ≡ info m parent
    pub parent_kids : kids m' parent ≡ kids m parent ++ node_id t ∷ []
    pub others : (j : ℕ) → position j (subtree_ids t) ≡ none → j ≢ parent → Agree m m' j

  mutual
    unfolding emit_node Holds IsRenderable subtree_ids apply_ops

    build_node :
        (t : RenderNode K V) (m : NativeModel V) (parent : ℕ)
        → IsRenderable t
        → NoRepeat (subtree_ids t)
        → Fresh (subtree_ids t) parent m
        → live m parent ≡ true
        → (m' : NativeModel V) × BuiltOne parent t
            (emit_node t parent (length (kids m parent)))
            m
            m'
    build_node (node id kind key props b p e children) m parent (z, d, bound, good) (f, n) fresh l =
        let here = fresh id (ground (arith, ==_iff id id)) in
        let (m1, s) = place fuel m id kind props b parent here.0 d bound l here.1 in
        let empty : kids m1 id ≡ [] = s.kids_after id ∙ ground (arith, here, ==_iff id parent) in
        let (m2, c) =
          build_children children m1 id 0 good n
            (λ j q.
              let ne : j ≢ id = λ r. q (rw r f) in
              let g = fresh j (λ r. q (ground arith)) in (s.others j ne ∙ g.0, ne))
            (ground (arith, s.info_here)) (ap length (sym empty)) in
        let not_below : position parent (forest_ids children) ≡ none =
          none_of _ (λ q. (fresh parent (λ r. q (ground arith))).1 refl) in
        let apart = c.others parent not_below (λ r. here.1 (sym r)) in
        (
          m2,
          record {
            runs =
                subst (λ ops. Runs fuel ops m m2)
                  (ap (λ ops. create id kind ∷ ops)
                    (append_assoc (props_ops id props) _ (emit_children children id 0)
                      ∙ ap (λ ops. props_ops id props ++ ops)
                          (append_assoc (listen_ops id b.latest_events (sort_items b.listeners))
                            (insert_child parent id (length (kids m parent)) ∷ [])
                            (emit_children children id 0))))
                  (Runs-append fuel (placing_ops id kind props b parent (length (kids m parent)))
                    (emit_children children id 0) m m1 m2 s.runs c.runs);
            holds = (
              s.here,
              c.parent_info ∙ s.info_here,
              s.kind_same,
              s.same_props,
              s.parent_same,
              s.hears,
              c.parent_kids ∙ ap (λ xs. xs ++ ids (to_list children)) empty,
              z,
              c.holds,
            );
            parent_info = apart.0 ∙ s.others parent (λ r. here.1 (sym r));
            parent_kids = apart.1 ∙ s.kids_after parent ∙ ground (arith, ==_iff parent parent);
            others = λ j q ne.
                let other : j ≢ id = λ r. ground (arith, ==_iff id j) in
                let o = c.others j (ground arith) other in
                (o.0 ∙ s.others j other, o.1 ∙ s.kids_after j ∙ ground (arith, ==_iff j parent));
          },
        )

    build_children :
        (ts : Nodes K V) (m : NativeModel V) (parent index : ℕ)
        → AllRenderable ts
        → NoRepeat (forest_ids ts)
        → Fresh (forest_ids ts) parent m
        → live m parent ≡ true
        → index ≡ length (kids m parent)
        → (m' : NativeModel V) × Built parent ts (emit_children ts parent index) m m'
    build_children no_nodes m parent index good n fresh l at = (
      m,
      record {
        runs = refl;
        holds = tt;
        parent_info = refl;
        parent_kids = sym (append-nil (kids m parent));
        others = λ j q ne. (refl, refl);
      },
    )
    build_children (one_more t ts) m parent index (g, gs) n fresh l at =
        let (n1, n2, apart) = append-NoRepeat_inv (subtree_ids t) (forest_ids ts) n in
        let both = position-append (subtree_ids t) (forest_ids ts) in
        let (m1, one) = build_node t m parent g n1 (λ j q. fresh j (λ r. q ((both j).0 r).0)) l in
        let (m2, rest) =
          build_children ts m1 parent (suc index) gs n2
            (λ j q.
              let new = fresh j (λ r. q ((both j).0 r).1) in
              let out : position j (subtree_ids t) ≡ none = none_of _ (λ r. q (apart j r)) in
              ((one.others j out new.1).0 ∙ new.0, new.1))
            (ground (arith, one.parent_info))
            (rw (one.parent_kids, length-append (kids m parent) (node_id t ∷ [])) (omega arith)) in
        (
          m2,
          record {
            runs =
                Runs-append fuel (emit_node t parent index) (emit_children ts parent (suc index)) m
                  m1 m2 (subst (λ i. Runs fuel (emit_node t parent i) m m1) (sym at) one.runs)
                  rest.runs;
            holds = (
              Holds-frame t m1 m2 (some parent)
                  (λ j q. rest.others j (apart j q) (fresh j (λ r. q ((both j).0 r).0)).1)
                  one.holds,
              rest.holds,
            );
            parent_info = rest.parent_info ∙ one.parent_info;
            parent_kids =
                rest.parent_kids
                ∙ ap (λ xs. xs ++ ids (to_list ts)) one.parent_kids
                ∙ append_assoc (kids m parent) (node_id t ∷ []) (ids (to_list ts));
            others = λ j q ne.
                let out = (both j).0 q in
                let a = rest.others j out.1 ne in
                let c = one.others j out.0 ne in (a.0 ∙ c.0, a.1 ∙ c.1);
          },
        )

cleared :
    {V : Type 0} (fuel : ℕ) (m m0 : NativeModel V)
    → apply_op fuel (clear 0) m ≡ ok m0
    → kids m0 0 ≡ []
unfolding apply_op
cleared fuel m m0 h = ground arith

module _ {K V : Type 0} (fuel : ℕ) where
  -- The snapshot of a tree with positive ids, none twice, with dicts for properties and listeners, and
  -- with a listener for each latest event, rebuilds the tree. From any native model that its `clear` empties of the tree's ids, the
  -- reference applier takes all the operations, and then shows exactly the tree: one root, below it
  -- every node with its kind, properties, listeners, latest events and ordered children; what else
  -- the cleared model holds is as it was.
  pub build_snapshot-Holds :
      (t : RenderNode K V) (m m0 : NativeModel V)
      → IsRenderable t
      → NoRepeat (subtree_ids t)
      → apply_op fuel (clear 0) m ≡ ok m0
      → ((j : ℕ) → position j (subtree_ids t) ≢ none → info m0 j ≡ none)
      → position 0 (subtree_ids t) ≡ none
      → (m' : NativeModel V) × (apply_ops fuel (build_snapshot t) m ≡ ok m')
        × (m'.root_children ≡ node_id t ∷ [])
        × Holds m' (some 0) t
        × ((j : ℕ) → position j (subtree_ids t) ≡ none → j ≢ 0 → Agree m0 m' j)
  unfolding build_snapshot
  build_snapshot-Holds t m m0 good n h fresh z =
      let none_before = cleared fuel m m0 h in
      let (m', built) =
        build_node fuel t m0 0 good n (λ j q. (fresh j q, λ e. q (rw e z))) (ground arith) in
      (
        m',
        Runs-cons fuel (clear 0) (emit_node t 0 0) m m0 m' h
            (subst (λ i. Runs fuel (emit_node t 0 i) m0 m') (ap length none_before) built.runs),
        built.parent_kids ∙ ap (λ xs. xs ++ node_id t ∷ []) none_before,
        built.holds,
        built.others,
      )
