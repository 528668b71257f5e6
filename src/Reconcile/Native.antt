-- ===== src/Reconcile/Native.antt =====
-- The reference applier of the repository, tests/support/native_model.py: a strict model of the
-- native view tree, by which reconciliation is tested. Of its operations, all but
-- `scroll_to`, which leaves the tree alone. A child object is named by its id.
-- `NativeNode`. The set of latest events is a dict without values.
use vyne.Common.{
  List, Option, Result, String, [], if◌then◌else◌, insert_at, is_some, length, ltb, not, none, ok,
  raise, raise_if, remove_at, runtime_error, some, suc, value_error, zero, ℕ, ◌++◌, ◌-◌, ◌==◌,
  ◌>>=◌, ◌>>◌, ◌∷◌,
}
use vyne.Common.Maps.{delete, insert, nat_eq, string_eq}
use vyne.Common.Positions.{erase, position}
use vyne.Reconcile.Model.{
  Op, create, insert_child, move_child, remove, remove_child, remove_prop, set_prop, set_props,
  clear, listen, listen_latest, unlisten,
}

pub record NativeNode (V : Type 0) : Type 0 where
  pub kind : String
  pub props : List (String × V)
  pub children : List ℕ
  pub parent_id : Option ℕ
  pub listeners : List (String × ℕ)
  pub latest_events : List (String × Unit {0})

-- `NativeModel`: `_nodes` and `_root_children`.
pub record NativeModel (V : Type 0) : Type 0 where
  pub nodes : ℕ → Option (NativeNode V)
  pub root_children : List ℕ

module _ {V : Type 0} where
  unfoldable pub empty : NativeModel V
  empty = record { nodes = λ id. none; root_children = [] }

  -- `_require_node`
  abbrev pub require_node : ℕ → NativeModel V → Result (NativeNode V)
  require_node id m = elim (m.nodes id) [ none ↦ raise value_error | some n ↦ ok n ]

  -- `self._nodes[id] = n`
  abbrev pub put_node : ℕ → NativeNode V → NativeModel V → NativeModel V
  put_node id n m = record m { nodes = λ j. if j == id then some n else m.nodes j }

  abbrev pub del_node : ℕ → NativeModel V → NativeModel V
  del_node id m = record m { nodes = λ j. if j == id then none else m.nodes j }

  -- The list of siblings under a parent, 0 for the root, and a change of it.
  abbrev pub siblings : ℕ → NativeModel V → Result (List ℕ)
  siblings parent m =
      if parent == 0
      then ok m.root_children
      else (elim (m.nodes parent) [ none ↦ raise value_error | some n ↦ ok n.children ])

  abbrev pub put_siblings : ℕ → List ℕ → NativeModel V → NativeModel V
  put_siblings parent children m =
      if parent == 0 then record m { root_children = children } else (elim (m.nodes parent) [
        | none ↦ m
        | some n ↦ put_node parent (record n { children = children }) m
      ])

  -- `child.parent_id = parent`
  abbrev pub put_parent : ℕ → Option ℕ → NativeModel V → NativeModel V
  put_parent child parent m = elim (m.nodes child) [
    | none ↦ m
    | some n ↦ put_node child (record n { parent_id = parent }) m
  ]

  -- The loop of `_op_set_props`.
  unfoldable pub update_props : List (String × V) → List (String × V) → List (String × V)
  update_props props [] = props
  update_props props ((name, value) ∷ new) = update_props (insert name value props) new

  unfoldable pub op_create : ℕ → String → NativeModel V → Result (NativeModel V)
  op_create id kind m = elim (m.nodes id) [
    | some n ↦ raise value_error
    | none ↦ ok (
        put_node id
          (record {
            kind = kind;
            props = [];
            children = [];
            parent_id = none;
            listeners = [];
            latest_events = [];
          })
          m)
  ]

  unfoldable pub op_set_props : ℕ → List (String × V) → NativeModel V → Result (NativeModel V)
  unfolding update_props
  op_set_props id props m = do
    n ← require_node id m
    ok (put_node id (record n { props = update_props n.props props }) m)

  unfoldable pub op_set_prop : ℕ → String → V → NativeModel V → Result (NativeModel V)
  op_set_prop id name value m = do
    n ← require_node id m
    ok (put_node id (record n { props = insert name value n.props }) m)

  unfoldable pub op_remove_prop : ℕ → String → NativeModel V → Result (NativeModel V)
  op_remove_prop id name m = do
    n ← require_node id m
    ok (put_node id (record n { props = delete name n.props }) m)

  unfoldable pub op_insert_child : ℕ → ℕ → ℕ → NativeModel V → Result (NativeModel V)
  op_insert_child parent child index m = do
    n ← require_node child m
    children ← siblings parent m
    raise_if (ltb (length children) index) value_error
    ok (put_parent child (some parent) (put_siblings parent (insert_at index child children) m))

  unfoldable pub op_move_child : ℕ → ℕ → ℕ → NativeModel V → Result (NativeModel V)
  op_move_child parent child index m = do
    children ← siblings parent m
    n ← require_node child m
    elim (position child children) [
      | none ↦ raise value_error
      | some current ↦
          let rest = remove_at current children in
          let target = if ltb current index then index - 1 else index in
          do
            raise_if (ltb (length rest) target) value_error
            ok (put_siblings parent (insert_at target child rest) m)
    ]

  unfoldable pub op_remove_child : ℕ → ℕ → NativeModel V → Result (NativeModel V)
  op_remove_child parent child m = do
    children ← siblings parent m
    n ← require_node child m
    elim (position child children) [
      | none ↦ raise value_error
      | some current ↦
          ok (put_parent child none (put_siblings parent (remove_at current children) m))
    ]

  -- The stack loop of `_remove_subtree`, the top of the stack at the head of the list. The source
  -- takes the last child of a node first and this the first one; all that are visited are dropped.
  -- The source's loop ends because the objects form a tree; here `fuel` bounds the visits.
  unfoldable pub visit_all : ℕ → NativeModel V → List ℕ → Result (List ℕ)
  visit_all fuel m [] = ok []
  visit_all zero m (id ∷ stack) = raise runtime_error
  visit_all (suc fuel) m (id ∷ stack) = elim (m.nodes id) [
    | none ↦ raise value_error
    | some n ↦ elim (visit_all fuel m (n.children ++ stack)) [
      | raise e ↦ raise e
      | ok rest ↦ ok (id ∷ rest)
    ]
  ]

  -- The parent's children list loses the node, if it is still attached.
  abbrev pub detach : ℕ → Option ℕ → NativeModel V → NativeModel V
  detach id none m = m
  detach id (some parent) m = elim (m.nodes parent) [
    | none ↦ m
    | some n ↦ put_node parent (record n { children = erase id n.children }) m
  ]

  -- The body of the second loop of `_remove_subtree`.
  unfoldable pub drop_node : ℕ → NativeModel V → NativeModel V
  drop_node id m = elim (m.nodes id) [
    | none ↦ m
    | some n ↦
        let m' = detach id n.parent_id m in
        del_node id (record m' { root_children = erase id m'.root_children })
  ]

  -- `for n in reversed(postorder)`
  unfoldable pub drop_visited : List ℕ → NativeModel V → NativeModel V
  unfolding drop_node
  drop_visited [] m = m
  drop_visited (id ∷ rest) m = drop_node id (drop_visited rest m)

  unfoldable pub op_remove : ℕ → ℕ → NativeModel V → Result (NativeModel V)
  unfolding visit_all drop_visited
  op_remove fuel id m = do
    n ← require_node id m
    raise_if (is_some n.parent_id) value_error
    visited ← visit_all fuel m (id ∷ [])
    ok (drop_visited visited m)

  -- The loop of `_op_clear` over the root's children.
  unfoldable pub remove_all : ℕ → List ℕ → NativeModel V → Result (NativeModel V)
  unfolding visit_all drop_visited
  remove_all fuel [] m = ok m
  remove_all fuel (child ∷ children) m = do
    visited ← visit_all fuel m (child ∷ [])
    remove_all fuel children (drop_visited visited m)

  unfoldable pub op_clear : ℕ → ℕ → NativeModel V → Result (NativeModel V)
  unfolding remove_all
  op_clear fuel id m = do
    raise_if (not (id == 0)) value_error
    m' ← remove_all fuel m.root_children m
    ok (record m' { root_children = [] })

  unfoldable pub op_listen : ℕ → String → ℕ → NativeModel V → Result (NativeModel V)
  op_listen id event handler m = do
    n ← require_node id m
    ok (
        put_node id
          (record n {
            listeners = insert event handler n.listeners;
            latest_events = delete event n.latest_events;
          })
          m)

  unfoldable pub op_listen_latest : ℕ → String → ℕ → NativeModel V → Result (NativeModel V)
  op_listen_latest id event handler m = do
    n ← require_node id m
    ok (
        put_node id
          (record n {
            listeners = insert event handler n.listeners;
            latest_events = insert event tt n.latest_events;
          })
          m)

  unfoldable pub op_unlisten : ℕ → String → NativeModel V → Result (NativeModel V)
  op_unlisten id event m = do
    n ← require_node id m
    ok (
        put_node id
          (record n {
            listeners = delete event n.listeners;
            latest_events = delete event n.latest_events;
          })
          m)

  -- `_apply_one`
  unfoldable pub apply_op : ℕ → Op V → NativeModel V → Result (NativeModel V)
  unfolding op_create op_set_props op_set_prop op_remove_prop op_insert_child op_move_child
      op_remove_child op_remove op_clear op_listen op_listen_latest op_unlisten
  apply_op fuel (create id kind) m = op_create id kind m
  apply_op fuel (set_props id props) m = op_set_props id props m
  apply_op fuel (set_prop id name value) m = op_set_prop id name value m
  apply_op fuel (remove_prop id name) m = op_remove_prop id name m
  apply_op fuel (insert_child parent child index) m = op_insert_child parent child index m
  apply_op fuel (move_child parent child index) m = op_move_child parent child index m
  apply_op fuel (remove_child parent child) m = op_remove_child parent child m
  apply_op fuel (remove id) m = op_remove fuel id m
  apply_op fuel (clear id) m = op_clear fuel id m
  apply_op fuel (listen id event handler) m = op_listen id event handler m
  apply_op fuel (listen_latest id event handler) m = op_listen_latest id event handler m
  apply_op fuel (unlisten id event) m = op_unlisten id event m

  unfoldable pub apply_ops : ℕ → List (Op V) → NativeModel V → Result (NativeModel V)
  apply_ops fuel [] m = ok m
  apply_ops fuel (op ∷ ops) m = elim (apply_op fuel op m) [
    | raise e ↦ raise e
    | ok m' ↦ apply_ops fuel ops m'
  ]
