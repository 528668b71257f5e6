-- ===== src/Reconcile/Planner.antt =====
-- `_ReconcilePlanner` and `plan_reconcile` of packages/vyne/src/vyne/reconcile.py. The planner's
-- mutable fields are passed along; the accepted snapshot is a parameter that is only read. A raised
-- exception ends the whole plan.
use vyne.Reconcile.Shadow
use vyne.Common.{
  List, Result, [], if◌then◌else◌, none, ok, raise, some, suc, ℕ, ◌++◌, ◌+◌, ◌==◌, ◌∷◌,
}
use vyne.Common.Maps.{delete, insert, lookup, nat_eq, string_eq}
use vyne.Reconcile.Model.{
  Element, Elements, Nodes, Op, RenderNode, RenderSnapshot, cons, create, element, ids,
  insert_child, nil, no_bindings, no_nodes, node, node_children, node_id, one_more, remove,
  set_props, to_list,
}
use vyne.Reconcile.Shadow.{ParentShadow}

-- The fields that a pass changes: `_next_node_id`, `_ops`, `_next_snapshot_nodes`, `_shadows`.
pub record Planner (K V : Type 0) : Type 0 where
  pub next_node_id : ℕ
  pub ops : List (Op V)
  pub nodes : List (ℕ × RenderNode K V)
  pub shadows : List (ℕ × ParentShadow)

abbrev pub Plan : (K V : Type 0) → Type 0 → Type 0
Plan K V A = Planner K V → Result (A × Planner K V)

module _ {K V : Type 0} where
  abbrev pub pure : {A : Type 0} → A → Plan K V A
  pure a p = ok (a, p)

  infixl 5 ◌>>=◌ ◌>>◌
  abbrev pub ◌>>=◌ : {A B : Type 0} → Plan K V A → (A → Plan K V B) → Plan K V B
  ◌>>=◌ m f p = elim (m p) [ ok (a, p') ↦ f a p' | raise e ↦ raise e ]

  abbrev pub ◌>>◌ : {A B : Type 0} → Plan K V A → Plan K V B → Plan K V B
  m >> n = m >>= λ _. n

  -- `self._ops.append(op)`
  abbrev pub emit : Op V → Plan K V (Unit {0})
  emit op p = ok (tt, record p { ops = p.ops ++ op ∷ [] })

  -- A step that may raise and leaves the planner alone.
  abbrev pub lift : {A : Type 0} → Result A → Plan K V A
  lift (ok a) p = ok (a, p)
  lift (raise e) p = raise e

  -- `_allocate_node_id`
  unfoldable pub allocate_node_id : Plan K V ℕ
  allocate_node_id p = ok (p.next_node_id, record p { next_node_id = p.next_node_id + 1 })

  -- `self._next_snapshot_nodes[id] = node`
  abbrev pub register : ℕ → RenderNode K V → Plan K V (Unit {0})
  register id n p = ok (tt, record p { nodes = insert id n p.nodes })

  -- A change of the shadow that `_shadow_for` returned: the dict holds the same object.
  abbrev pub put_shadow : ℕ → ParentShadow → Plan K V (Unit {0})
  put_shadow parent s p = ok (tt, record p { shadows = insert parent s p.shadows })

  -- The ids that `_remove_subtree` collects. It only takes them out of a dict, so their order is
  -- not observable.
  unfoldable mutual
    pub subtree_ids : RenderNode K V → List ℕ
    subtree_ids (node id kind key props b parent e children) = id ∷ forest_ids children

    pub forest_ids : Nodes K V → List ℕ
    forest_ids no_nodes = []
    forest_ids (one_more n ns) = subtree_ids n ++ forest_ids ns

  -- `for nid in all_ids: self._next_snapshot_nodes.pop(nid, None)`
  unfoldable pub drop_all : List ℕ → List (ℕ × RenderNode K V) → List (ℕ × RenderNode K V)
  drop_all [] nodes = nodes
  drop_all (id ∷ rest) nodes = drop_all rest (delete id nodes)

  unfoldable pub remove_subtree : RenderNode K V → Plan K V (Unit {0})
  unfolding subtree_ids drop_all
  remove_subtree n = do
    emit (remove (node_id n))
    λ p. ok (tt, record p { nodes = drop_all (subtree_ids n) p.nodes })

-- The accepted snapshot: `_old_root` and `_old_index`.
module _ {K V : Type 0} (old : RenderSnapshot K V) where
  -- The shadow that `_shadow_for` makes for a parent that has none yet.
  unfoldable pub initial_shadow : ℕ → ParentShadow
  initial_shadow parent_id =
      if parent_id == 0
      then (Shadow.shadow_of 0 (elim old.root [ none ↦ [] | some root ↦ node_id root ∷ [] ]))
      else (elim (lookup parent_id old.node_index) [
        | none ↦ Shadow.shadow_of parent_id []
        | some old_parent ↦ Shadow.shadow_of parent_id (ids (to_list (node_children old_parent)))
      ])

  unfoldable pub shadow_for : ℕ → Plan K V ParentShadow
  unfolding initial_shadow
  shadow_for parent_id p = elim (lookup parent_id p.shadows) [
    | some shadow ↦ ok (shadow, p)
    | none ↦
        let shadow = initial_shadow parent_id in
        ok (shadow, record p { shadows = insert parent_id shadow p.shadows })
  ]

  -- `shadow.insert`, `shadow.remove`, `shadow.move` and `shadow.index_of` on a parent's shadow.
  unfoldable pub shadow_insert : ℕ → ℕ → ℕ → Plan K V (Unit {0})
  shadow_insert parent child index = do
    shadow ← shadow_for parent
    put_shadow parent (Shadow.insert_child child index shadow)

  unfoldable pub shadow_remove : ℕ → ℕ → Plan K V (Unit {0})
  shadow_remove parent child = do
    shadow ← shadow_for parent
    shadow' ← lift (Shadow.remove child shadow)
    put_shadow parent shadow'

  unfoldable pub shadow_move : ℕ → ℕ → ℕ → ℕ → Plan K V (Unit {0})
  shadow_move parent child from_index to_index = do
    shadow ← shadow_for parent
    shadow' ← lift (Shadow.move child from_index to_index shadow)
    put_shadow parent shadow'

  unfoldable pub shadow_index : ℕ → ℕ → Plan K V ℕ
  shadow_index parent child = do shadow ← shadow_for parent; lift (Shadow.index_of child shadow)

  -- `_create_subtree`, and the loop over its children.
  unfoldable mutual
    pub create_subtree : Element K V → ℕ → Plan K V (RenderNode K V)
    create_subtree (element a kind key props children) parent_id = do
      id ← allocate_node_id
      emit (create id kind)
      elim props [ [] ↦ pure tt | prop ∷ rest ↦ emit (set_props id (prop ∷ rest)) ]
      shadow_for id
      created ← create_children children id 0
      let made =
          node id kind key props no_bindings (some parent_id)
            (some (element a kind key props children)) created
      register id made
      pure made

    pub create_children : Elements K V → ℕ → ℕ → Plan K V (Nodes K V)
    create_children nil parent_id index = pure no_nodes
    create_children (cons child rest) parent_id index = do
      created ← create_subtree child parent_id
      emit (insert_child parent_id (node_id created) index)
      shadow_insert parent_id (node_id created) index
      others ← create_children rest parent_id (suc index)
      pure (one_more created others)
