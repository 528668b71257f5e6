-- ===== src/Reconcile/Created.antt =====
-- The runs of `_create_subtree` (packages/vyne/src/vyne/reconcile.py), against the native model.
use vyne.Common.{
  List, Option, String, [], ap, append-nil, arith, if◌then◌else◌, insert_at, length, none, ok, refl,
  some, suc, sym, true, ℕ, ◌++◌, ◌+◌, ◌<◌, ◌==◌, ◌∙◌, ◌∷◌, ◌≡◌,
}
use vyne.Common.Maps.{insert, nat_eq, string_eq}
use vyne.Common.Positions.{length-insert_at}
use vyne.Reconcile.Create.{Creates, CreatesAll, open_node, set_all, set_all_lem}
use vyne.Reconcile.Effects.{info, kids, live, with_parent}
use vyne.Reconcile.Model.{
  Element, Elements, Nodes, RenderNode, RenderSnapshot, cons, create, element, insert_child, nil,
  no_bindings, no_nodes, node, node_id, one_more,
}
use vyne.Reconcile.Native.{NativeModel}
use vyne.Reconcile.Planner.{
  Planner, allocate_node_id, create_children, create_subtree, emit, shadow_insert, subtree_ids,
  ◌>>◌,
}
use vyne.Reconcile.Simulation.{Sim, after_shadow_for, after_shadow_for-Reshadows, shadow_for_lem}
use vyne.Reconcile.Steps.{Stepped, after_shadow_for-Sim, insert_step}
use vyne.Reconcile.Trees.{AllHaveDicts, HasDicts, Holds, Matches}
use vyne.Reconcile.Growth.{close_node, grow, root_info}

module _ {K V : Type 0} (old : RenderSnapshot K V) (fuel : ℕ) (start : NativeModel V) where
  -- The calls of `_create_subtree`, in order.
  create_subtree_run :
      (p p2 p4 : Planner K V) (a : ℕ) (kind : String) (key : Option K) (props : List (String × V))
      (children : Elements K V) (ts : Nodes K V) (parent : ℕ)
      → set_all old fuel start p.next_node_id props (record p {
        next_node_id = p.next_node_id + 1;
        ops = p.ops ++ create p.next_node_id kind ∷ [];
      })
        ≡ ok (tt, p2)
      → create_children old children p.next_node_id 0 (after_shadow_for old p2 p.next_node_id)
        ≡ ok (ts, p4)
      → let made =
          node p.next_node_id kind key props no_bindings
            (some parent)
            (some (element a kind key props children))
            ts in
        create_subtree old (element a kind key props children) parent p
        ≡ ok (made, record p4 { nodes = insert p.next_node_id made p4.nodes })
  unfolding create_subtree allocate_node_id
  create_subtree_run p p2 p4 a kind key [] children ts parent h k =
      ground (arith, shadow_for_lem old p2 p.next_node_id)
  create_subtree_run p p2 p4 a kind key (prop ∷ rest) children ts parent h k =
      ground (arith, shadow_for_lem old p2 p.next_node_id)

  create_children_run :
      (p p1 p2 p3 : Planner K V) (e : Element K V) (es : Elements K V) (parent index : ℕ)
      (t : RenderNode K V) (ts : Nodes K V)
      → create_subtree old e parent p ≡ ok (t, p1)
      → (emit (insert_child parent (node_id t) index) >> shadow_insert old parent (node_id t) index)
          p1
        ≡ ok (tt, p2)
      → create_children old es parent (suc index) p2 ≡ ok (ts, p3)
      → create_children old (cons e es) parent index p ≡ ok (one_more t ts, p3)
  unfolding create_children
  create_children_run p p1 p2 p3 e es parent index t ts h k c = ground arith

  abbrev pub Creation : Planner K V → NativeModel V → Element K V → ℕ → Type 0
  Creation p m e parent =
      (t : RenderNode K V) × (p' : Planner K V) × (m' : NativeModel V) × (create_subtree old e
          parent p
        ≡ ok (t, p'))
      × Creates old fuel start p m e parent t p' m'

  abbrev Creations : Planner K V → NativeModel V → Elements K V → ℕ → ℕ → Type 0
  Creations p m es parent index =
      (ts : Nodes K V) × (p' : Planner K V) × (m' : NativeModel V) × (create_children old es parent
          index p
        ≡ ok (ts, p'))
      × CreatesAll old fuel start p m es parent ts p' m'

  -- The insertion of a created child behind the children that its parent has.
  pub insert_created :
      (p p1 : Planner K V) (m m1 : NativeModel V) (e : Element K V) (parent index : ℕ)
      (t : RenderNode K V)
      → Creates old fuel start p m e parent t p1 m1
      → Sim old fuel start p m
      → live m parent ≡ true
      → parent < p.next_node_id
      → index ≡ length (kids m parent)
      → (p2 : Planner K V) × (m2 : NativeModel V) × Stepped old fuel start p1 m1
          ((emit (insert_child parent (node_id t) index)
              >> shadow_insert old parent (node_id t) index)
            p1)
          (λ j. if j == node_id t then with_parent (some parent) (info m1 j) else info m1 j)
          parent
          (insert_at (length (kids m1 parent)) (node_id t) (kids m1 parent))
          p2
          m2
  insert_created p p1 m m1 e parent index t c s l lt h =
      let same = (c.others parent lt).1 in
      let at : index ≡ length (kids m1 parent) = h ∙ ap length (sym same) in
      rw at (
        insert_step old fuel start p1 m1 parent (node_id t) (length (kids m1 parent)) c.sim
          (ground (arith, (c.others parent lt).0)) (root_info old fuel start t m1 none c.holds)
          (ground (arith, c.root_id, c.grows)) (omega arith)
          (rw (same, c.root_id) (s.kids_known parent p.next_node_id (omega arith))))

  mutual
    unfolding create_children HasDicts Holds Matches subtree_ids

    creation :
        (e : Element K V) (p : Planner K V) (m : NativeModel V) (parent : ℕ)
        → HasDicts e
        → Sim old fuel start p m
        → Creation p m e parent
    creation (element a kind key props children) p m parent (d, ds) s =
        let id = p.next_node_id in
        let (m1, o) = open_node old fuel start p m kind s in
        let (p2, m2, dressed, dr) = set_all_lem old fuel start p _ m m1 kind props d o in
        let l : live m2 id ≡ true = ground (arith, dr.node_info) in
        let p3 = after_shadow_for old p2 id in
        let empty : kids m2 id ≡ [] =
          dr.kids_same id ∙ ground (arith, s.fresh_nodes id, s.positive) in
        let (ts, p4, m4, created, c) =
          creations children p3 m2 id 0 ds (after_shadow_for-Sim old fuel start p2 m2 id dr.sim l) l
            (ground (arith, (after_shadow_for-Reshadows old p2 id).next_same, dr.next))
            (ap length (sym empty)) in
        (
          _,
          _,
          m4,
          create_subtree_run p p2 p4 a kind key props children ts parent dressed created,
          close_node old fuel start p p2 p4 m m2 m4 a kind key props children ts parent _ s dr c,
        )

    creations :
        (es : Elements K V) (p : Planner K V) (m : NativeModel V) (parent index : ℕ)
        → AllHaveDicts es
        → Sim old fuel start p m
        → live m parent ≡ true
        → parent < p.next_node_id
        → index ≡ length (kids m parent)
        → Creations p m es parent index
    creations nil p m parent index ds s l lt h = (
      no_nodes,
      p,
      m,
      refl,
      record {
        sim = s;
        grows = omega arith;
        others = λ j q ne. (refl, refl);
        parent_info = refl;
        parent_kids = sym (append-nil (kids m parent));
        holds = tt;
        matches = tt;
        range = λ j q. absurd (q refl);
        no_repeat = tt;
      },
    )
    creations (cons e es) p m parent index (d, ds) s l lt h =
        let (t, p1, m1, made, c) = creation e p m parent d s in
        let (p2, m2, st) = insert_created p p1 m m1 e parent index t c s l lt h in
        let (ts, p3, m3, others, cs) =
          creations es p2 m2 parent (suc index) ds st.sim
            (ground (arith, st.data_after parent, (c.others parent lt).0, c.root_id))
            (ground (arith, st.next_same, c.grows))
            (ground (
              arith,
              st.kids_after parent,
              (c.others parent lt).1,
              length-insert_at (kids m1 parent) (length (kids m1 parent)) (node_id t),
            )) in
        (
          one_more t ts,
          p3,
          m3,
          create_children_run p p1 p2 p3 e es parent index t ts made st.runs others,
          grow old fuel start p p1 p2 p3 m m1 m2 m3 e es parent t ts lt c st cs,
        )

  -- From a planner in step with the native model, `_create_subtree` succeeds on every element whose
  -- properties are dicts. Its operations run on the native model, and then the new subtree stands
  -- there detached, under fresh ids without repetition, and was made for the element; every id from
  -- before looks as it did; and planner and model are in step.
  pub create_subtree-Creates :
      (e : Element K V) (p : Planner K V) (m : NativeModel V) (parent : ℕ)
      → HasDicts e
      → Sim old fuel start p m
      → Creation p m e parent
  create_subtree-Creates e p m parent d s = creation e p m parent d s
