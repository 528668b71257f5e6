-- ===== src/Reconcile/Model.antt =====
-- The types of packages/vyne/src/vyne/render_model.py and `CanonicalElement` of lowering.py, over
-- the key type `K` and the type `V` of property values. Lowering drops properties that are None, so
-- `V` has no None. An element and a node hold lists of themselves.
-- The runtime state of a node that the planner copies and does not read.
use vyne.Common.{List, Option, String, [], none, ℕ, ◌∷◌}
use vyne.Common.Ints.{ℤ}

pub record Bindings : Type 0 where
  pub listeners : List (String × ℕ)
  pub latest_events : List String
  pub node_ref : Option ℕ
  pub intent_element : Option ℕ

abbrev pub no_bindings : Bindings
no_bindings = record { listeners = []; latest_events = []; node_ref = none; intent_element = none }

-- A canonical element. `address` stands for the identity of the Python object (`is`).
mutual
  pub data Element (K V : Type 0) : Type 0 where
    element : ℕ → String → Option K → List (String × V) → Elements K V → Element K V

  pub data Elements (K V : Type 0) : Type 0 where
    nil : Elements K V
    cons : Element K V → Elements K V → Elements K V

-- `RenderNode`: id, kind, key, props, bindings, parent_id, element, children.
mutual
  pub data RenderNode (K V : Type 0) : Type 0 where
    node :
        ℕ
        → String
        → Option K
        → List (String × V)
        → Bindings
        → Option ℕ
        → Option (Element K V)
        → Nodes K V
        → RenderNode K V

  pub data Nodes (K V : Type 0) : Type 0 where
    no_nodes : Nodes K V
    one_more : RenderNode K V → Nodes K V → Nodes K V

module _ {K V : Type 0} where
  abbrev pub address : Element K V → ℕ
  address (element a kind key props children) = a

  abbrev pub element_kind : Element K V → String
  element_kind (element a kind key props children) = kind

  abbrev pub element_key : Element K V → Option K
  element_key (element a kind key props children) = key

  abbrev pub native_props : Element K V → List (String × V)
  native_props (element a kind key props children) = props

  abbrev pub element_children : Element K V → Elements K V
  element_children (element a kind key props children) = children

  abbrev pub node_id : RenderNode K V → ℕ
  node_id (node id kind key props b parent e children) = id

  abbrev pub node_kind : RenderNode K V → String
  node_kind (node id kind key props b parent e children) = kind

  abbrev pub node_key : RenderNode K V → Option K
  node_key (node id kind key props b parent e children) = key

  abbrev pub node_props : RenderNode K V → List (String × V)
  node_props (node id kind key props b parent e children) = props

  abbrev pub node_bindings : RenderNode K V → Bindings
  node_bindings (node id kind key props b parent e children) = b

  abbrev pub node_parent : RenderNode K V → Option ℕ
  node_parent (node id kind key props b parent e children) = parent

  abbrev pub node_element : RenderNode K V → Option (Element K V)
  node_element (node id kind key props b parent e children) = e

  abbrev pub node_children : RenderNode K V → Nodes K V
  node_children (node id kind key props b parent e children) = children

  -- The Python list of a node's children.
  abbrev pub to_list : Nodes K V → List (RenderNode K V)
  to_list no_nodes = []
  to_list (one_more n ns) = n ∷ to_list ns

  abbrev pub ids : List (RenderNode K V) → List ℕ
  ids [] = []
  ids (n ∷ ns) = node_id n ∷ ids ns

-- `RenderSnapshot`
pub record RenderSnapshot (K V : Type 0) : Type 0 where
  pub root : Option (RenderNode K V)
  pub node_index : List (ℕ × RenderNode K V)
  pub revision : ℤ

-- A wire operation, as the planner, the event bindings and the recovery write it.
pub data Op (V : Type 0) : Type 0 where
  create : ℕ → String → Op V
  set_props : ℕ → List (String × V) → Op V
  set_prop : ℕ → String → V → Op V
  remove_prop : ℕ → String → Op V
  insert_child : (parent child index : ℕ) → Op V
  move_child : (parent child index : ℕ) → Op V
  remove_child : (parent child : ℕ) → Op V
  remove : ℕ → Op V
  clear : ℕ → Op V
  listen : ℕ → String → ℕ → Op V
  listen_latest : ℕ → String → ℕ → Op V
  unlisten : ℕ → String → Op V

-- `ReconcileResult`
pub record ReconcileResult (K V : Type 0) : Type 0 where
  pub ops : List (Op V)
  pub new_snapshot : RenderSnapshot K V
