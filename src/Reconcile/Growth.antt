-- ===== src/Reconcile/Growth.antt =====
-- What the parts of `_create_subtree` (packages/vyne/src/vyne/reconcile.py) have made, put together:
-- a node above its created children, and one more child behind the others.
use vyne.Common.{
  Bool-cases, List, Option, Result, String, [], ap, append_assoc, arith, if◌then◌else◌, inl, inr,
  insert_at, is_some, length, none, refl, some, true, ℕ, ◌++◌, ◌+◌, ◌<◌, ◌==◌, ◌∙◌, ◌∷◌, ◌≡◌,
}
use vyne.Common.Maps.{nat_eq, string_eq}
use vyne.Common.Positions.{append-NoRepeat, insert_at-length, none_of, position-append_ne}
use vyne.Common.Maps.{lookup}
use vyne.Reconcile.Create.{Creates, CreatesAll, Dressed}
use vyne.Reconcile.Effects.{fresh_info, info, kids, with_parent}
use vyne.Reconcile.Model.{
  Element, Elements, Nodes, RenderNode, RenderSnapshot, cons, element, ids, no_bindings, node,
  node_id, one_more, to_list,
}
use vyne.Reconcile.Native.{NativeModel}
use vyne.Reconcile.Planner.{Planner, forest_ids, subtree_ids}
use vyne.Reconcile.Simulation.{Sim, after_shadow_for, after_shadow_for-Reshadows}
use vyne.Reconcile.Steps.{Stepped, register-Sim}
use vyne.Reconcile.Trees.{Holds, Holds-frame, Holds-with_parent, Matches}

module _ {K V : Type 0} (old : RenderSnapshot K V) (fuel : ℕ) (start : NativeModel V) where
  -- The root of a held subtree is known to the model.
  pub root_info :
      (t : RenderNode K V) (m : NativeModel V) (parent : Option ℕ)
      → Holds m parent t
      → is_some (info m (node_id t)) ≡ true
  unfolding Holds
  root_info (node id kind key props b p e children) m parent (here, i, e1, sp, e2, hr, k, z, h) =
      ground arith

  -- A dressed node whose children have been created.
  pub close_node :
      (p p2 p4 : Planner K V) (m m2 m4 : NativeModel V) (a : ℕ) (kind : String) (key : Option K)
      (props : List (String × V)) (children : Elements K V) (ts : Nodes K V) (parent : ℕ)
      (nodes : List (ℕ × RenderNode K V))
      → Sim old fuel start p m
      → Dressed old fuel start p m kind props p2 m2
      → CreatesAll old fuel start
          (after_shadow_for old p2 p.next_node_id)
          m2
          children
          p.next_node_id
          ts
          p4
          m4
      → Creates old fuel start p m
          (element a kind key props children)
          parent
          (node p.next_node_id kind key props no_bindings
            (some parent)
            (some (element a kind key props children))
            ts)
          (record p4 { nodes = nodes })
          m4
  unfolding Holds Matches subtree_ids lookup
  close_node p p2 p4 m m2 m4 a kind key props children ts parent nodes s d c =
      let id = p.next_node_id in
      let r = after_shadow_for-Reshadows old p2 id in
      let next : (after_shadow_for old p2 id).next_node_id ≡ id + 1 = r.next_same ∙ d.next in
      let empty : kids m2 id ≡ [] = d.kids_same id ∙ ground (arith, s.fresh_nodes id, s.positive) in
      record {
        sim = register-Sim old fuel start p4 m4 nodes c.sim;
        grows = ground (arith, c.grows);
        root_id = refl;
        others = λ j h.
            let o = c.others j (ground arith) (omega arith) in
            (o.0 ∙ d.others j (omega arith), o.1 ∙ d.kids_same j);
        holds = (
          record (fresh_info kind) { props = d.props' },
          c.parent_info ∙ d.node_info,
          refl,
          d.same_props,
          refl,
          (λ event. refl, λ event. refl),
          c.parent_kids ∙ ap (λ xs. xs ++ ids (to_list ts)) empty,
          s.positive,
          c.holds,
        );
        matches = (refl, refl, refl, refl, refl, refl, c.matches);
        range = λ j h. elim (Bool-cases (id == j)) [
          | inl t ↦ ground (arith, c.grows)
          | inr t ↦ let q = c.range j (λ e. h (rw (t, e))) in (omega arith, q.1)
        ];
        no_repeat = (none_of _ (λ q. let b = c.range id q in omega arith), c.no_repeat);
      }

  -- One more child, inserted behind the others.
  pub grow :
      (p p1 p2 p3 : Planner K V) (m m1 m2 m3 : NativeModel V) (e : Element K V) (es : Elements K V)
      (parent : ℕ) (t : RenderNode K V) (ts : Nodes K V) {result : Result (Unit {0} × Planner K V)}
      → parent < p.next_node_id
      → Creates old fuel start p m e parent t p1 m1
      → Stepped old fuel start p1 m1 result
          (λ j. if j == node_id t then with_parent (some parent) (info m1 j) else info m1 j)
          parent
          (insert_at (length (kids m1 parent)) (node_id t) (kids m1 parent))
          p2
          m2
      → CreatesAll old fuel start p2 m2 es parent ts p3 m3
      → CreatesAll old fuel start p m (cons e es) parent (one_more t ts) p3 m3
  unfolding Holds Matches subtree_ids
  grow p p1 p2 p3 m m1 m2 m3 e es parent t ts lt c st cs = record {
    sim = cs.sim;
    grows = ground (arith, c.grows, st.next_same, cs.grows);
    others = λ j h ne.
        let o = cs.others j (ground (arith, c.grows, st.next_same)) ne in
        let b = c.others j h in
        (
          o.0 ∙ st.data_after j ∙ ground (arith, c.root_id, b.0),
          o.1 ∙ st.kids_after j ∙ ground (arith, b.1),
        );
    parent_info =
        cs.parent_info ∙ st.data_after parent ∙ ground (arith, c.root_id, (c.others parent lt).0);
    parent_kids =
        cs.parent_kids
        ∙ ap (λ xs. xs ++ ids (to_list ts))
            (st.kids_after parent ∙ ground (arith, insert_at-length (kids m1 parent) (node_id t)))
        ∙ append_assoc (kids m1 parent) (node_id t ∷ []) (ids (to_list ts))
        ∙ ap (λ xs. xs ++ node_id t ∷ ids (to_list ts)) (c.others parent lt).1;
    holds = (
      Holds-frame t m2 m3 (some parent)
          (λ j q.
            let b = c.range j q in cs.others j (ground (arith, st.next_same)) (λ f. omega arith))
          (Holds-with_parent t m1 m2 none (some parent) c.no_repeat
            (st.data_after (node_id t) ∙ ground arith)
            (st.kids_after (node_id t) ∙ ground (arith, c.root_id))
            (λ j q ne.
              let b = c.range j q in
              (st.data_after j ∙ ground arith, st.kids_after j ∙ ground arith))
            c.holds),
      cs.holds,
    );
    matches = (c.matches, cs.matches);
    range = λ j h. elim (position-append_ne (subtree_ids t) (forest_ids ts) j h) [
      | inl q ↦ let b = c.range j q in (b.0, ground (arith, st.next_same, cs.grows))
      | inr q ↦ let b = cs.range j q in (ground (arith, st.next_same, c.grows), b.1)
    ];
    no_repeat = append-NoRepeat (subtree_ids t) (forest_ids ts) c.no_repeat cs.no_repeat (λ j q.
        none_of _
          (λ f. let b = c.range j q in let d = cs.range j f in ground (arith, st.next_same)));
  }
