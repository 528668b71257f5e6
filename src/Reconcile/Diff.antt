-- ===== src/Reconcile/Diff.antt =====
-- The diffing half of `_ReconcilePlanner`, and `plan_reconcile`
-- (packages/vyne/src/vyne/reconcile.py).
use vyne.Common.Ints
use vyne.Common.{
  Bool, List, Option, Result, String, [], false, get_elem?, if◌then◌else◌, index_error, length,
  none, not, ok, raise, replicate, set, some, suc, true, ℕ, ◌&&◌, ◌==◌, ◌∷◌,
}
use vyne.Common.Maps.{Eq, has, insert, lookup, nat_eq, string_eq}
use vyne.Reconcile.Model.{
  Element, Elements, Nodes, ReconcileResult, RenderNode, RenderSnapshot, address, cons, element,
  element_key, element_kind, insert_child, move_child, native_props, nil, no_nodes, node,
  node_bindings, node_children, node_element, node_id, node_key, node_kind, node_parent, node_props,
  one_more, remove_child, remove_prop, set_prop, to_list,
}
use vyne.Reconcile.Planner.{
  Plan, create_subtree, emit, lift, pure, register, remove_subtree, shadow_for, shadow_index,
  shadow_insert, shadow_move, shadow_remove, ◌>>=◌, ◌>>◌,
}

-- `==` of two optional values.
abbrev pub same_option {ℓ} : {A : Type ℓ} ⦃e : Eq A⦄ → Option A → Option A → Bool
same_option none none = true
same_option ⦃e⦄ (some a) (some b) = e.beq a b
same_option _ _ = false

-- `old_node.props.get(name) != value`: a missing property differs, as no value is None.
abbrev pub differs {ℓ} : {V : Type ℓ} ⦃v : Eq V⦄ → Option V → V → Bool
differs none value = true
differs ⦃v⦄ (some old) value = not (v.beq old value)

-- `not matched_old[i]`, for an index in range.
abbrev pub unmatched : List Bool → ℕ → Bool
unmatched matched i = elim (get_elem? matched i) [ none ↦ false | some m ↦ not m ]

module _ {K V : Type 0} where
  -- `old_node.element is desired and old_node.parent_id == parent_id`
  unfoldable pub reusable : RenderNode K V → Element K V → ℕ → Bool
  reusable old_node desired parent_id =
      elim (node_element old_node) [ none ↦ false | some e ↦ address e == address desired ]
      && same_option ⦃e = nat_eq⦄ (node_parent old_node) (some parent_id)

  unfoldable pub same_identity : ⦃k : Eq K⦄ → RenderNode K V → Element K V → Bool
  same_identity old_node desired =
      string_eq.beq (node_kind old_node) (element_kind desired)
      && same_option (node_key old_node) (element_key desired)

  -- The first loop of `_diff_props`.
  unfoldable pub set_changed :
      ⦃v : Eq V⦄ → ℕ → List (String × V) → List (String × V) → Plan K V (Unit {0})
  set_changed id old_props [] = pure tt
  set_changed id old_props ((name, value) ∷ props) = do
    elim (differs (lookup name old_props) value) [
      | true ↦ emit (set_prop id name value)
      | false ↦ pure tt
    ]
    set_changed id old_props props

  -- The second loop of `_diff_props`.
  unfoldable pub remove_missing : ℕ → List (String × V) → List (String × V) → Plan K V (Unit {0})
  remove_missing id props [] = pure tt
  remove_missing id props ((name, value) ∷ old_props) = do
    elim (has name props) [ true ↦ pure tt | false ↦ emit (remove_prop id name) ]
    remove_missing id props old_props

  unfoldable pub diff_props : ⦃v : Eq V⦄ → RenderNode K V → Element K V → Plan K V (Unit {0})
  unfolding set_changed remove_missing
  diff_props old_node desired = do
    set_changed (node_id old_node) (node_props old_node) (native_props desired)
    remove_missing (node_id old_node) (native_props desired) (node_props old_node)

module _ {K V : Type 0} ⦃k : Eq K⦄ where
  -- `keyed_old`: of two children with one key the later counts.
  unfoldable pub keyed_from : ℕ → List (RenderNode K V) → List (K × ℕ) → List (K × ℕ)
  keyed_from i [] keyed = keyed
  keyed_from i (child ∷ children) keyed =
      keyed_from (suc i) children
        (elim (node_key child) [ none ↦ keyed | some key ↦ insert key i keyed ])

  unfoldable pub match_keyed :
      K → String → List (RenderNode K V) → List (K × ℕ) → List Bool → Option ℕ
  match_keyed key kind old_children keyed matched = elim (lookup key keyed) [
    | none ↦ none
    | some i ↦ elim (unmatched matched i) [
      | false ↦ none
      | true ↦ elim (get_elem? old_children i) [
        | none ↦ none
        | some old_child ↦ if string_eq.beq (node_kind old_child) kind then some i else none
      ]
    ]
  ]

  unfoldable pub match_unkeyed : ℕ → List (RenderNode K V) → List Bool → Option ℕ
  match_unkeyed next_index old_children matched = elim (get_elem? old_children next_index) [
    | none ↦ none
    | some old_child ↦ elim (unmatched matched next_index) [
      | false ↦ none
      | true ↦ elim (node_key old_child) [ none ↦ some next_index | some key ↦ none ]
    ]
  ]

  -- `_match_old_child`
  unfoldable pub match_old_child :
      Element K V → ℕ → List (RenderNode K V) → List (K × ℕ) → List Bool → Option ℕ
  unfolding match_keyed match_unkeyed
  match_old_child desired next_index old_children keyed matched = elim (element_key desired) [
    | none ↦ match_unkeyed next_index old_children matched
    | some key ↦ match_keyed key (element_kind desired) old_children keyed matched
  ]

-- `old_children[i]`
abbrev pub child_at : {K V : Type 0} → List (RenderNode K V) → ℕ → Result (RenderNode K V)
child_at children i = elim (get_elem? children i) [ none ↦ raise index_error | some c ↦ ok c ]

module _ {K V : Type 0} ⦃k : Eq K⦄ ⦃v : Eq V⦄ (old : RenderSnapshot K V) where
  -- The branch of `_diff_node` for another identity.
  unfoldable pub replace_node : RenderNode K V → Element K V → ℕ → ℕ → Plan K V (RenderNode K V)
  replace_node old_node desired parent_id index = do
    emit (remove_child parent_id (node_id old_node))
    remove_subtree old_node
    shadow_remove old parent_id (node_id old_node)
    new_node ← create_subtree old desired parent_id
    emit (insert_child parent_id (node_id new_node) index)
    shadow_insert old parent_id (node_id new_node) index
    pure new_node

  -- The last loop of `_diff_children`, from the last old child to the first.
  unfoldable pub remove_unmatched : List (RenderNode K V) → List Bool → ℕ → Plan K V (Unit {0})
  remove_unmatched [] matched parent_id = pure tt
  remove_unmatched (old_child ∷ old_children) [] parent_id = lift (raise index_error)
  remove_unmatched (old_child ∷ old_children) (m ∷ matched) parent_id = do
    remove_unmatched old_children matched parent_id
    elim m [
      | true ↦ pure tt
      | false ↦ do
        emit (remove_child parent_id (node_id old_child))
        remove_subtree old_child
        shadow_remove old parent_id (node_id old_child)
    ]

  -- `if current_shadow_index != next_index`: the move of a matched child.
  unfoldable pub place_child : ℕ → ℕ → ℕ → Plan K V (Unit {0})
  place_child parent_id child next_index = do
    current ← shadow_index old parent_id child
    elim (current == next_index) [
      | true ↦ pure tt
      | false ↦ do
        emit (move_child parent_id child next_index)
        shadow_move old parent_id child current next_index
    ]

  -- The branch of the loop of `_diff_children` for an element without a match.
  unfoldable pub insert_new : Element K V → ℕ → ℕ → Plan K V (RenderNode K V)
  insert_new desired parent_id next_index = do
    new_child ← create_subtree old desired parent_id
    emit (insert_child parent_id (node_id new_child) next_index)
    shadow_insert old parent_id (node_id new_child) next_index
    pure new_child

  -- `_diff_node`, and the loop of `_diff_children`, which answers with the final `matched_old`
  -- and the new children.
  unfoldable mutual
    pub diff_node : Element K V → RenderNode K V → ℕ → ℕ → Plan K V (RenderNode K V)
    diff_node (element a kind key props children) old_node parent_id index =
        let desired = element a kind key props children in
        let old_children = to_list (node_children old_node) in
        elim (reusable old_node desired parent_id) [
          | true ↦ pure old_node
          | false ↦ elim (same_identity old_node desired) [
            | false ↦ replace_node old_node desired parent_id index
            | true ↦ do
              diff_props old_node desired
              shadow_for old (node_id old_node)
              (matched, new_children) ←
                  diff_children children old_children (keyed_from 0 old_children [])
                    (node_id old_node) 0 (replicate (length old_children) false)
              remove_unmatched old_children matched (node_id old_node)
              let new_node =
                  node (node_id old_node) kind key props (node_bindings old_node) (some parent_id)
                    (some desired) new_children
              register (node_id old_node) new_node
              pure new_node
          ]
        ]

    pub diff_children :
        Elements K V
        → List (RenderNode K V)
        → List (K × ℕ)
        → ℕ
        → ℕ
        → List Bool
        → Plan K V (List Bool × Nodes K V)
    diff_children nil old_children keyed parent_id next_index matched = pure (matched, no_nodes)
    diff_children (cons child rest) old_children keyed parent_id next_index matched =
        elim (match_old_child child next_index old_children keyed matched) [
          | none ↦ do
            new_child ← insert_new child parent_id next_index
            (matched', others) ←
                diff_children rest old_children keyed parent_id (suc next_index) matched
            pure (matched', one_more new_child others)
          | some old_index ↦ do
            old_child ← lift (child_at old_children old_index)
            place_child parent_id (node_id old_child) next_index
            new_child ← diff_node child old_child parent_id next_index
            (matched', others) ←
                diff_children rest old_children keyed parent_id (suc next_index)
                  (set matched old_index true)
            pure (matched', one_more new_child others)
        ]

  -- The body of `plan`, up to the snapshot.
  unfoldable pub plan_root : Element K V → Plan K V (RenderNode K V)
  plan_root desired = elim old.root [
    | none ↦ insert_new desired 0 0
    | some old_root ↦ diff_node desired old_root 0 0
  ]

  unfoldable pub plan_reconcile : Element K V → ℕ → Result (ReconcileResult K V)
  plan_reconcile desired next_node_id =
      elim (plan_root desired
        (record { next_node_id = next_node_id; ops = []; nodes = old.node_index; shadows = [] })) [
          | raise e ↦ raise e
          | ok (new_root, p) ↦ ok (record {
            ops = p.ops;
            new_snapshot = record {
              root = some new_root;
              node_index = p.nodes;
              revision = Ints.add_one old.revision;
            };
          })
        ]
