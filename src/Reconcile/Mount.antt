-- ===== src/Reconcile/Mount.antt =====
-- The first plan of a session (`plan_reconcile` of packages/vyne/src/vyne/reconcile.py, with no
-- accepted root) against the reference applier of tests/support/native_model.py.
use vyne.Common.Ints
use vyne.Common.{
  ==_iff, List, [], ap, arith, insert_at, length, none, ok, refl, some, subst, sym, ℕ, ◌<◌, ◌∙◌,
  ◌∷◌, ◌≡◌, ◌≢◌, ◌≤◌,
}
use vyne.Common.Maps.{Eq, lookup, nat_eq}
use vyne.Common.Positions.{NoRepeat, position}
use vyne.Reconcile.Created.{create_subtree-Creates, insert_created}
use vyne.Reconcile.Diff.{insert_new, plan_reconcile, plan_root}
use vyne.Reconcile.Effects.{kids}
use vyne.Reconcile.Model.{
  Element, ReconcileResult, RenderNode, RenderSnapshot, insert_child, node_id,
}
use vyne.Reconcile.Native.{NativeModel, apply_ops, empty}
use vyne.Reconcile.Planner.{
  Planner, create_subtree, emit, initial_shadow, shadow_insert, subtree_ids, ◌>>◌,
}
use vyne.Reconcile.Shadow.{shadow_of}
use vyne.Reconcile.Shadow.Indexing.{IsIndexed, shadow_of-IsIndexed}
use vyne.Reconcile.Simulation.{Sim, current}
use vyne.Reconcile.Trees.{HasDicts, Holds, Holds-with_parent, Matches}

module _ {K V : Type 0} (old : RenderSnapshot K V) where
  abbrev pub planner : ℕ → Planner K V
  planner next = record { next_node_id = next; ops = []; nodes = old.node_index; shadows = [] }

  shadow_of-children : (q : ℕ) (xs : List ℕ) → (shadow_of q xs).children ≡ xs
  unfolding shadow_of
  shadow_of-children q xs = refl

  first_shadow : (next : ℕ) → old.root ≡ none → current old (planner next) 0 ≡ shadow_of 0 []
  unfolding initial_shadow lookup
  first_shadow next e = ground arith

  -- Nothing is accepted and nothing is shown: the two are in step.
  pub start-Sim :
      (fuel next : ℕ)
      → old.root ≡ none
      → ((j : ℕ) → next ≤ j → lookup j old.node_index ≡ none)
      → 0 < next
      → Sim old fuel empty (planner next) empty
  unfolding empty apply_ops lookup
  start-Sim fuel next r f z = record {
    runs = refl;
    mirrors = λ q l.
        let at : q ≡ 0 = ground (arith, ==_iff q 0) in
        let c : current old (planner next) q ≡ shadow_of 0 [] =
          ap (current old (planner next)) at ∙ first_shadow next r in
        record {
          valid = subst IsIndexed (sym c) (shadow_of-IsIndexed 0 [] tt);
          order = ap (λ s. s.children) c ∙ shadow_of-children 0 [] ∙ ground arith;
        };
    fresh_nodes = λ j h. refl;
    fresh_shadows = λ j h. refl;
    fresh_old = f;
    positive = z;
    kids_known = λ q j h. ground arith;
  }

module _ {K V : Type 0} ⦃k : Eq K⦄ ⦃v : Eq V⦄ (old : RenderSnapshot K V) where
  plan_mount_run :
      (desired : Element K V) (next : ℕ) (t : RenderNode K V) (p1 p2 : Planner K V)
      → old.root ≡ none
      → create_subtree old desired 0 (planner old next) ≡ ok (t, p1)
      → (emit (insert_child 0 (node_id t) 0) >> shadow_insert old 0 (node_id t) 0) p1 ≡ ok (tt, p2)
      → plan_reconcile old desired next
        ≡ ok (record {
          ops = p2.ops;
          new_snapshot = record {
            root = some t;
            node_index = p2.nodes;
            revision = Ints.add_one old.revision;
          };
        })
  unfolding plan_reconcile plan_root insert_new
  plan_mount_run desired next t p1 p2 r c i = ground arith

  -- With no accepted root, fresh ids from a positive next id on and properties that are dicts,
  -- planning succeeds on every element. The reference applier takes all the operations from the
  -- empty model, and then shows exactly the planned tree: one root, the snapshot's, which stands in
  -- the model with kind, properties and ordered children at every node, under a snapshot one
  -- revision later. The planned tree is made for the element: each node has the element's kind, key,
  -- properties and children, nothing bound to it yet, and an id of its own from the next id on.
  pub plan_reconcile-mount :
      (fuel : ℕ) (desired : Element K V) (next : ℕ)
      → old.root ≡ none
      → ((j : ℕ) → next ≤ j → lookup j old.node_index ≡ none)
      → 0 < next
      → HasDicts desired
      → (result : ReconcileResult K V) × (t : RenderNode K V) × (m : NativeModel V)
        × (plan_reconcile old desired next ≡ ok result)
        × (result.new_snapshot.root ≡ some t)
        × (result.new_snapshot.revision ≡ Ints.add_one old.revision)
        × (apply_ops fuel result.ops empty ≡ ok m)
        × (m.root_children ≡ node_id t ∷ [])
        × Holds m (some 0) t
        × Matches 0 t desired
        × NoRepeat (subtree_ids t)
        × ((j : ℕ) → position j (subtree_ids t) ≢ none → next ≤ j)
  unfolding empty
  plan_reconcile-mount fuel desired next r f z d =
      let p = planner old next in
      let s = start-Sim old fuel next r f z in
      let (t, p1, m1, made, c) = create_subtree-Creates old fuel empty desired p empty 0 d s in
      let (p2, m2, st) =
        insert_created old fuel empty p p1 empty m1 desired 0 0 t c s refl z refl in
      let none_before : kids m1 0 ≡ [] = (c.others 0 z).1 in
      (
        _,
        t,
        m2,
        plan_mount_run desired next t p1 p2 r made st.runs,
        refl,
        refl,
        st.sim.runs,
        st.kids_after 0 ∙ ap (λ xs. insert_at (length xs) (node_id t) xs) none_before,
        Holds-with_parent t m1 m2 none (some 0) c.no_repeat
            (st.data_after (node_id t) ∙ ground arith)
            (st.kids_after (node_id t) ∙ ground (arith, c.root_id))
            (λ j q ne.
              let b = c.range j q in
              (st.data_after j ∙ ground arith, st.kids_after j ∙ ground arith))
            c.holds,
        c.matches,
        c.no_repeat,
        λ j q. (c.range j q).0,
      )
