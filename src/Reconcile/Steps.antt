-- ===== src/Reconcile/Steps.antt =====
-- The steps that the planner (packages/vyne/src/vyne/reconcile.py) makes of an operation and the
-- matching change of a shadow: each succeeds, and keeps planner and native model in step.
use vyne.Reconcile.Shadow
use vyne.Common.{
  ==_iff, List, Option, Result, [], ap, arith, if◌then◌else◌, insert_at, is_some, length, none, ok,
  refl, remove_at, some, subst, sym, true, ℕ, ◌++◌, ◌<◌, ◌==◌, ◌∙◌, ◌∷◌, ◌≡◌, ◌≤◌,
}
use vyne.Common.Maps.{nat_eq}
use vyne.Common.Positions.{
  NoRepeat, length-remove_at, position, position-insert_at, position-lt, position-remove_at,
}
use vyne.Reconcile.Effects.{
  Info, info, insert_child-Effect, kids, live, move_child-Effect, remove_child-Effect, with_parent,
}
use vyne.Reconcile.Model.{RenderNode, RenderSnapshot, insert_child, move_child, remove_child}
use vyne.Reconcile.Native.{NativeModel}
use vyne.Reconcile.Planner.{Planner, emit, shadow_insert, shadow_move, shadow_remove, ◌>>◌}
use vyne.Reconcile.Shadow.Indexing.{
  IsIndexed, insert_child-IsIndexed, insert_child-children, move-IsIndexed, remove-IsIndexed,
}
use vyne.Reconcile.Simulation.{
  Sim, after_shadow_for, after_shadow_for-Reshadows, current, emit-Reshadows-Sim, shadow_insert_lem,
  shadow_move_lem, shadow_remove_lem,
}

module _ {K V : Type 0} (old : RenderSnapshot K V) (fuel : ℕ) (start : NativeModel V) where
  pub register-Sim :
      (p : Planner K V) (m : NativeModel V) (nodes : List (ℕ × RenderNode K V))
      → Sim old fuel start p m
      → Sim old fuel start (record p { nodes = nodes }) m
  register-Sim p m nodes s = record {
    runs = s.runs;
    mirrors = λ q l. let at = s.mirrors q l in record { valid = at.valid; order = at.order };
    fresh_nodes = s.fresh_nodes;
    fresh_shadows = s.fresh_shadows;
    fresh_old = s.fresh_old;
    positive = s.positive;
    kids_known = s.kids_known;
  }

  pub after_shadow_for-Sim :
      (p : Planner K V) (m : NativeModel V) (parent : ℕ)
      → Sim old fuel start p m
      → live m parent ≡ true
      → Sim old fuel start (after_shadow_for old p parent) m
  after_shadow_for-Sim p m parent s l =
      let p' = after_shadow_for old p parent in
      let r = after_shadow_for-Reshadows old p parent in
      let same : (q : ℕ) → current old p' q ≡ current old p q =
        λ q. ground (arith, r.current_after q, ==_iff parent q) in
      record {
        runs = rw (r.ops_same) (s.runs);
        mirrors = λ q h.
            let at = s.mirrors q h in
            record {
              valid = subst IsIndexed (sym (same q)) at.valid;
              order = ap (λ s'. s'.children) (same q) ∙ at.order;
            };
        fresh_nodes = λ j h. s.fresh_nodes j (ground (arith, r.next_same));
        fresh_shadows = λ j h.
            r.fresh_after j (λ q. ground (arith, s.fresh_nodes j, s.positive, r.next_same))
              (s.fresh_shadows j (ground (arith, r.next_same)));
        fresh_old = λ j h. s.fresh_old j (ground (arith, r.next_same));
        positive = ground (arith, r.next_same);
        kids_known = λ q j h. s.kids_known q j (ground (arith, r.next_same));
      }

  -- What one step has done: the planner's result, and the model's new data and children.
  pub record Stepped (p : Planner K V) (m : NativeModel V)
      (result : Result (Unit {0} × Planner K V)) (info' : ℕ → Option (Info V)) (parent : ℕ)
      (after : List ℕ) (p' : Planner K V) (m' : NativeModel V) : Type 0 where
    pub runs : result ≡ ok (tt, p')
    pub sim : Sim old fuel start p' m'
    pub next_same : p'.next_node_id ≡ p.next_node_id
    pub nodes_same : p'.nodes ≡ p.nodes
    pub data_after : (j : ℕ) → info m' j ≡ info' j
    pub kids_after : (j : ℕ) → kids m' j ≡ (if j == parent then after else kids m j)

  -- `insert_child` and `shadow.insert` of a known node that is not yet among the children.
  pub insert_step :
      (p : Planner K V) (m : NativeModel V) (parent child index : ℕ)
      → Sim old fuel start p m
      → live m parent ≡ true
      → is_some (info m child) ≡ true
      → child < p.next_node_id
      → index ≤ length (kids m parent)
      → position child (kids m parent) ≡ none
      → (p' : Planner K V) × (m' : NativeModel V) × Stepped p m
          ((emit (insert_child parent child index) >> shadow_insert old parent child index) p)
          (λ j. if j == child then with_parent (some parent) (info m j) else info m j)
          parent
          (insert_at index child (kids m parent))
          p'
          m'
  insert_step p m parent child index s l h lt b e =
      let op = insert_child parent child index in
      let p1 = record p { ops = p.ops ++ op ∷ [] } in
      let at = s.mirrors parent l in
      let (p', run, r) = shadow_insert_lem old p1 parent child index in
      let (m', s', i, k) =
        emit-Reshadows-Sim old fuel start p m op _ parent (insert_at index child (kids m parent))
          (Shadow.insert_child child index (current old p1 parent)) p' s l
          (insert_child-Effect fuel m parent child index h l b) (λ j. ground arith)
          (insert_child-IsIndexed (current old p1 parent) child index at.valid (rw at.order b)
            (rw at.order e))
          (insert_child-children (current old p1 parent) child index
            ∙ ap (insert_at index child) at.order)
          (λ j g.
            ground (
              arith,
              position-insert_at (kids m parent) child index j b e,
              s.kids_known parent j g,
            ))
          r in
      (
        p',
        m',
        record {
          runs = run;
          sim = s';
          next_same = r.next_same;
          nodes_same = r.nodes_same;
          data_after = i;
          kids_after = k;
        },
      )

  -- `remove_child` and `shadow.remove` of a child.
  pub remove_step :
      (p : Planner K V) (m : NativeModel V) (parent child at : ℕ)
      → Sim old fuel start p m
      → live m parent ≡ true
      → is_some (info m child) ≡ true
      → position child (kids m parent) ≡ some at
      → (p' : Planner K V) × (m' : NativeModel V) × Stepped p m
          ((emit (remove_child parent child) >> shadow_remove old parent child) p)
          (λ j. if j == child then with_parent none (info m j) else info m j)
          parent
          (remove_at at (kids m parent))
          p'
          m'
  remove_step p m parent child i s l h e =
      let op = remove_child parent child in
      let p1 = record p { ops = p.ops ++ op ∷ [] } in
      let at = s.mirrors parent l in
      let (shadow, taken, order, valid) =
        remove-IsIndexed (current old p1 parent) child i at.valid (rw at.order e) in
      let (p', run, r) = shadow_remove_lem old p1 parent child shadow taken in
      let (m', s', info_after, k) =
        emit-Reshadows-Sim old fuel start p m op _ parent (remove_at i (kids m parent)) shadow p' s
          l (remove_child-Effect fuel m parent child i h l e) (λ j. ground arith) valid
          (order ∙ ap (remove_at i) at.order)
          (λ j g. ground (
            arith,
            position-remove_at (kids m parent) child i j
                (subst NoRepeat at.order at.valid.no_repeat) e,
            s.kids_known parent j g,
          ))
          r in
      (
        p',
        m',
        record {
          runs = run;
          sim = s';
          next_same = r.next_same;
          nodes_same = r.nodes_same;
          data_after = info_after;
          kids_after = k;
        },
      )

  -- `move_child` and `shadow.move` of a child to the left.
  pub move_step :
      (p : Planner K V) (m : NativeModel V) (parent child i index : ℕ)
      → Sim old fuel start p m
      → live m parent ≡ true
      → is_some (info m child) ≡ true
      → position child (kids m parent) ≡ some i
      → index ≤ i
      → (p' : Planner K V) × (m' : NativeModel V) × Stepped p m
          ((emit (move_child parent child index) >> shadow_move old parent child i index) p)
          (info m)
          parent
          (insert_at index child (remove_at i (kids m parent)))
          p'
          m'
  move_step p m parent child i index s l h e le =
      let op = move_child parent child index in
      let p1 = record p { ops = p.ops ++ op ∷ [] } in
      let at = s.mirrors parent l in
      let bound = position-lt (kids m parent) child i e in
      let short = length-remove_at (kids m parent) i bound in
      let distinct : NoRepeat (kids m parent) = subst NoRepeat at.order at.valid.no_repeat in
      let (shadow, moved, order, valid) =
        move-IsIndexed (current old p1 parent) child i index at.valid (rw at.order e)
          (rw at.order (omega arith)) in
      let (p', run, r) = shadow_move_lem old p1 parent child i index shadow moved in
      let (m', s', info_after, k) =
        emit-Reshadows-Sim old fuel start p m op _ parent
          (insert_at index child (remove_at i (kids m parent))) shadow p' s l
          (move_child-Effect fuel m parent child index i h l e le) (λ j. refl) valid
          (order ∙ ap (λ xs. insert_at index child (remove_at i xs)) at.order)
          (λ j g. ground (
            arith,
            position-insert_at (remove_at i (kids m parent)) child index j,
            position-remove_at (kids m parent) child i j distinct e,
            position-remove_at (kids m parent) child i child distinct e,
            s.kids_known parent j g,
          ))
          r in
      (
        p',
        m',
        record {
          runs = run;
          sim = s';
          next_same = r.next_same;
          nodes_same = r.nodes_same;
          data_after = info_after;
          kids_after = k;
        },
      )
