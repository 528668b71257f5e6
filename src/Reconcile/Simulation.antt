-- ===== src/Reconcile/Simulation.antt =====
-- The planner (packages/vyne/src/vyne/reconcile.py) beside the native model to which the operations
-- written so far have been applied: every parent's shadow is the native order of its children.
use vyne.Reconcile.Shadow
use vyne.Common.{
  ==_iff, Bool-cases, List, Option, Result, Result-cases, [], ap, arith, if◌then◌else◌, inl, inr,
  is_some, none, ok, raise, refl, some, subst, sym, true, ℕ, ◌++◌, ◌<◌, ◌==◌, ◌∙◌, ◌∷◌, ◌≡◌, ◌≢◌,
  ◌≤◌,
}
use vyne.Common.Maps.{insert, lookup, lookup-insert, nat_eq}
use vyne.Common.Positions.{position}
use vyne.Reconcile.Effects.{Effect, Info, info, kids, live}
use vyne.Reconcile.Model.{Op, RenderSnapshot}
use vyne.Reconcile.Native.{NativeModel, apply_op, apply_ops}
use vyne.Reconcile.Planner.{
  Planner, initial_shadow, shadow_for, shadow_index, shadow_insert, shadow_move, shadow_remove,
}
use vyne.Reconcile.Shadow.{ParentShadow}
use vyne.Reconcile.Shadow.Indexing.{IsIndexed, index_of_lem}

module _ {K V : Type 0} (old : RenderSnapshot K V) where
  -- The shadow that `_shadow_for` returns.
  abbrev pub current : Planner K V → ℕ → ParentShadow
  current p q = elim (lookup q p.shadows) [ none ↦ initial_shadow old q | some s ↦ s ]

  -- A step that only replaced one parent's shadow.
  pub record Reshadows (p : Planner K V) (parent : ℕ) (s : ParentShadow) (p' : Planner K V)
      : Type 0 where
    pub next_same : p'.next_node_id ≡ p.next_node_id
    pub ops_same : p'.ops ≡ p.ops
    pub nodes_same : p'.nodes ≡ p.nodes
    pub current_after : (q : ℕ) → current p' q ≡ (if parent == q then s else current p q)
    pub fresh_after : (q : ℕ) → parent ≢ q → lookup q p.shadows ≡ none → lookup q p'.shadows ≡ none

  -- The planner after `_shadow_for`, which may have added the parent's shadow.
  abbrev pub after_shadow_for : Planner K V → ℕ → Planner K V
  after_shadow_for p parent = elim (lookup parent p.shadows) [
    | none ↦ record p { shadows = insert parent (initial_shadow old parent) p.shadows }
    | some s ↦ p
  ]

  pub shadow_for_lem :
      (p : Planner K V) (parent : ℕ)
      → shadow_for old parent p ≡ ok (current p parent, after_shadow_for p parent)
  unfolding shadow_for
  shadow_for_lem p parent = ground arith

  pub after_shadow_for-Reshadows :
      (p : Planner K V) (parent : ℕ)
      → Reshadows p parent (current p parent) (after_shadow_for p parent)
  after_shadow_for-Reshadows p parent = record {
    next_same = ground arith;
    ops_same = ground arith;
    nodes_same = ground arith;
    current_after = λ q.
        ground
          (arith, lookup-insert parent q (initial_shadow old parent) p.shadows, ==_iff parent q);
    fresh_after = λ q h e.
        ground
          (arith, lookup-insert parent q (initial_shadow old parent) p.shadows, ==_iff parent q);
  }

  put-Reshadows :
      (p : Planner K V) (parent : ℕ) (s : ParentShadow)
      → Reshadows p parent s (record (after_shadow_for p parent) {
        shadows = insert parent s (after_shadow_for p parent).shadows;
      })
  put-Reshadows p parent s =
      let r = after_shadow_for-Reshadows p parent in
      let p' = after_shadow_for p parent in
      record {
        next_same = r.next_same;
        ops_same = r.ops_same;
        nodes_same = r.nodes_same;
        current_after = λ q. ground (arith, r.current_after q, lookup-insert parent q s p'.shadows);
        fresh_after = λ q h e.
            ground
              (arith, r.fresh_after q h e, lookup-insert parent q s p'.shadows, ==_iff parent q);
      }

  abbrev Reshadowed : Planner K V → ℕ → ParentShadow → Result (Unit {0} × Planner K V) → Type 0
  Reshadowed p parent s result =
      (p' : Planner K V) × (result ≡ ok (tt, p')) × Reshadows p parent s p'

  pub shadow_insert_lem :
      (p : Planner K V) (parent child index : ℕ)
      → Reshadowed p parent
          (Shadow.insert_child child index (current p parent))
          (shadow_insert old parent child index p)
  unfolding shadow_insert
  shadow_insert_lem p parent child index =
      (_, ground (arith, shadow_for_lem p parent), put-Reshadows p parent _)

  pub shadow_remove_lem :
      (p : Planner K V) (parent child : ℕ) (s : ParentShadow)
      → Shadow.remove child (current p parent) ≡ ok s
      → Reshadowed p parent s (shadow_remove old parent child p)
  unfolding shadow_remove
  shadow_remove_lem p parent child s e =
      (_, ground (arith, shadow_for_lem p parent), put-Reshadows p parent s)

  pub shadow_move_lem :
      (p : Planner K V) (parent child i j : ℕ) (s : ParentShadow)
      → Shadow.move child i j (current p parent) ≡ ok s
      → Reshadowed p parent s (shadow_move old parent child i j p)
  unfolding shadow_move
  shadow_move_lem p parent child i j s e =
      (_, ground (arith, shadow_for_lem p parent), put-Reshadows p parent s)

  pub shadow_index_lem :
      (p : Planner K V) (parent child i : ℕ)
      → IsIndexed (current p parent)
      → position child (current p parent).children ≡ some i
      → shadow_index old parent child p ≡ ok (i, after_shadow_for p parent)
  unfolding shadow_index
  shadow_index_lem p parent child i v e =
      ground (arith, shadow_for_lem p parent, index_of_lem (current p parent) child v)

module _ {K V : Type 0} (old : RenderSnapshot K V) (fuel : ℕ) (start : NativeModel V) where
  -- Shadow and native children of one parent agree.
  pub record Mirrors (p : Planner K V) (m : NativeModel V) (q : ℕ) : Type 0 where
    pub valid : IsIndexed (current old p q)
    pub order : (current old p q).children ≡ kids m q

  -- The planner and the native model that its operations so far have made of `start`.
  pub record Sim (p : Planner K V) (m : NativeModel V) : Type 0 where
    pub runs : apply_ops fuel p.ops start ≡ ok m
    pub mirrors : (q : ℕ) → live m q ≡ true → Mirrors p m q
    pub fresh_nodes : (j : ℕ) → p.next_node_id ≤ j → info m j ≡ none
    pub fresh_shadows : (j : ℕ) → p.next_node_id ≤ j → lookup j p.shadows ≡ none
    pub fresh_old : (j : ℕ) → p.next_node_id ≤ j → lookup j old.node_index ≡ none
    pub positive : 0 < p.next_node_id
    pub kids_known : (q j : ℕ) → p.next_node_id ≤ j → position j (kids m q) ≡ none

-- One more operation at the end of a run.
pub apply_ops-append :
    {V : Type 0} (fuel : ℕ) (ops : List (Op V)) (op : Op V) (m : NativeModel V)
    → apply_ops fuel (ops ++ op ∷ []) m
      ≡ elim (apply_ops fuel ops m) [ raise e ↦ raise e | ok m' ↦ apply_op fuel op m' ]
unfolding apply_ops
apply_ops-append fuel [] op m = ground arith
apply_ops-append fuel (o ∷ ops) op m = elim (Result-cases (apply_op fuel o m)) [
  | inl (m', e) ↦ ground (arith, apply_ops-append fuel ops op m')
  | inr (x, e) ↦ ground arith
]

module _ {K V : Type 0} (old : RenderSnapshot K V) (fuel : ℕ) (start : NativeModel V) where
  -- An operation is written that changes no parent's children and no id's liveness.
  pub emit-Sim :
      (p : Planner K V) (m : NativeModel V) (op : Op V) (info' : ℕ → Option (Info V))
      → Sim old fuel start p m
      → Effect fuel op m info' (kids m)
      → ((j : ℕ) → is_some (info' j) ≡ is_some (info m j))
      → (m' : NativeModel V) × Sim old fuel start (record p { ops = p.ops ++ op ∷ [] }) m'
        × ((j : ℕ) → info m' j ≡ info' j)
        × ((j : ℕ) → kids m' j ≡ kids m j)
  emit-Sim p m op info' s (m', run, i, k) same = (
    m',
    record {
      runs = rw (apply_ops-append fuel p.ops op start, s.runs) run;
      mirrors = λ q l.
          let at = s.mirrors q (ground (arith, i q, same q)) in
          record { valid = at.valid; order = at.order ∙ sym (k q) };
      fresh_nodes = λ j h. ground (arith, i j, same j, s.fresh_nodes j h);
      fresh_shadows = s.fresh_shadows;
      fresh_old = s.fresh_old;
      positive = s.positive;
      kids_known = λ q j h. rw (k q) (s.kids_known q j h);
    },
    i,
    k,
  )

  -- An operation is written that changes the children of one parent, whose shadow follows.
  pub emit-Reshadows-Sim :
      (p : Planner K V) (m : NativeModel V) (op : Op V) (info' : ℕ → Option (Info V)) (parent : ℕ)
      (after : List ℕ) (shadow : ParentShadow) (p' : Planner K V)
      → Sim old fuel start p m
      → live m parent ≡ true
      → Effect fuel op m info' (λ j. if j == parent then after else kids m j)
      → ((j : ℕ) → is_some (info' j) ≡ is_some (info m j))
      → IsIndexed shadow
      → shadow.children ≡ after
      → ((j : ℕ) → p.next_node_id ≤ j → position j after ≡ none)
      → Reshadows old (record p { ops = p.ops ++ op ∷ [] }) parent shadow p'
      → (m' : NativeModel V) × Sim old fuel start p' m'
        × ((j : ℕ) → info m' j ≡ info' j)
        × ((j : ℕ) → kids m' j ≡ (if j == parent then after else kids m j))
  emit-Reshadows-Sim p m op info' parent after shadow p' s l (m', run, i, k) same v e known r = (
    m',
    record {
      runs = rw (r.ops_same, apply_ops-append fuel p.ops op start, s.runs) run;
      mirrors = λ q h. elim (Bool-cases (parent == q)) [
        | inl t ↦
            let c : current old p' q ≡ shadow = r.current_after q ∙ rw t refl in
            record {
              valid = subst IsIndexed (sym c) v;
              order = ap (λ s'. s'.children) c ∙ e ∙ ground (arith, k q);
            }
        | inr t ↦
            let c : current old p' q ≡ current old p q = r.current_after q ∙ rw t refl in
            let at = s.mirrors q (ground (arith, i q, same q)) in
            record {
              valid = subst IsIndexed (sym c) at.valid;
              order = ap (λ s'. s'.children) c ∙ at.order ∙ ground (arith, k q);
            }
      ];
      fresh_nodes = λ j h. ground (arith, i j, same j, s.fresh_nodes j, r.next_same);
      fresh_shadows = λ j h.
          r.fresh_after j (λ q. ground (arith, s.fresh_nodes j, s.positive, r.next_same))
            (s.fresh_shadows j (ground (arith, r.next_same)));
      fresh_old = λ j h. s.fresh_old j (ground (arith, r.next_same));
      positive = ground (arith, r.next_same);
      kids_known = λ q j h.
          let h' : p.next_node_id ≤ j = ground (arith, r.next_same) in
          rw (k q) (ground (arith, s.kids_known q j h', known j h'));
    },
    i,
    k,
  )
