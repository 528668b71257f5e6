-- ===== src/Reconcile/Trees.antt =====
-- Trees against the native model and against elements (packages/vyne/src/vyne/reconcile.py): a
-- subtree stands in the native model as it is, and a node carries what its element asks for.
-- Two dicts with the same entries.
use vyne.Common.{List, Option, String, [], arith, none, refl, some, ℕ, ◌<◌, ◌∙◌, ◌∷◌, ◌≡◌, ◌≢◌}
use vyne.Common.Maps.{among, has, Distinct, insert, lookup, lookup-insert, string_eq}
use vyne.Common.Positions.{NoRepeat, position, position-append}
use vyne.Reconcile.Effects.{Info, info, kids, with_parent}
use vyne.Reconcile.Model.{
  Bindings, Element, Elements, Nodes, RenderNode, cons, element, ids, nil, no_bindings, no_nodes,
  node, node_id, one_more, to_list,
}
use vyne.Reconcile.Native.{NativeModel, update_props}
use vyne.Reconcile.Planner.{forest_ids, subtree_ids}

abbrev pub SameProps : {V : Type 0} → List (String × V) → List (String × V) → Type 0
SameProps old new = (name : String) → lookup name old ≡ lookup name new

-- One id looks the same in two models.
abbrev pub Agree : {V : Type 0} → NativeModel V → NativeModel V → ℕ → Type 0
Agree m m' j = (info m' j ≡ info m j) × (kids m' j ≡ kids m j)

-- The node has the bindings' listeners, and its latest events are theirs.
abbrev pub Hears : {V : Type 0} → Info V → Bindings → Type 0
Hears here b =
    ((event : String) → lookup event here.listeners ≡ lookup event b.listeners)
    × ((event : String) → has event here.latest_events ≡ among event b.latest_events)

module _ {K V : Type 0} where
  -- The subtree stands in the native model under this parent: each node with its kind, with its
  -- properties and its listeners as dicts, and with exactly its children, in order.
  unfoldable mutual
    pub Holds : NativeModel V → Option ℕ → RenderNode K V → Type 0
    Holds m parent (node id kind key props b p e children) =
        (here : Info V) × (info m id ≡ some here)
        × (here.kind ≡ kind)
        × SameProps here.props props
        × (here.parent ≡ parent)
        × Hears here b
        × (kids m id ≡ ids (to_list children))
        × (0 < id)
        × HoldsAll m id children

    pub HoldsAll : NativeModel V → ℕ → Nodes K V → Type 0
    HoldsAll m parent no_nodes = Unit
    HoldsAll m parent (one_more n ns) = Holds m (some parent) n × HoldsAll m parent ns

  -- The node was made for the element: its kind, key, properties and children are the element's, and
  -- nothing is bound to it yet.
  unfoldable mutual
    pub Matches : ℕ → RenderNode K V → Element K V → Type 0
    Matches parent (node id kind key props b p e children) (element a kind' key' props' elements) =
        (kind ≡ kind')
        × (key ≡ key')
        × (props ≡ props')
        × (b ≡ no_bindings)
        × (p ≡ some parent)
        × (e ≡ some (element a kind' key' props' elements))
        × MatchesAll id children elements

    pub MatchesAll : ℕ → Nodes K V → Elements K V → Type 0
    MatchesAll parent no_nodes nil = Unit
    MatchesAll parent no_nodes (cons e es) = ⊥
    MatchesAll parent (one_more n ns) nil = ⊥
    MatchesAll parent (one_more n ns) (cons e es) = Matches parent n e × MatchesAll parent ns es

  -- Properties are a dict in every element of the tree.
  unfoldable mutual
    pub HasDicts : Element K V → Type 0
    HasDicts (element a kind key props children) = Distinct props × AllHaveDicts children

    pub AllHaveDicts : Elements K V → Type 0
    AllHaveDicts nil = Unit
    AllHaveDicts (cons e es) = HasDicts e × AllHaveDicts es

  mutual
    unfolding Holds subtree_ids

    frame :
        (t : RenderNode K V) (m m' : NativeModel V) (parent : Option ℕ)
        → ((j : ℕ) → position j (subtree_ids t) ≢ none → Agree m m' j)
        → Holds m parent t
        → Holds m' parent t
    frame (node id kind key props b p e children) m m' parent same
          (here', i, e1, sp, e2, hr, k, z, h) =
        let here = same id (ground arith) in
        (
          here',
          here.0 ∙ i,
          e1,
          sp,
          e2,
          hr,
          here.1 ∙ k,
          z,
          frame_all children m m' id (λ j q. same j (ground arith)) h,
        )

    frame_all :
        (ts : Nodes K V) (m m' : NativeModel V) (parent : ℕ)
        → ((j : ℕ) → position j (forest_ids ts) ≢ none → Agree m m' j)
        → HoldsAll m parent ts
        → HoldsAll m' parent ts
    frame_all no_nodes m m' parent same h = tt
    frame_all (one_more t ts) m m' parent same (h, hs) = (
      frame t m m' (some parent)
          (λ j q. same j (λ e. q ((position-append (subtree_ids t) (forest_ids ts) j).0 e).0)) h,
      frame_all ts m m' parent
          (λ j q. same j (λ e. q ((position-append (subtree_ids t) (forest_ids ts) j).0 e).1)) hs,
    )

  -- What happens elsewhere does not touch a subtree.
  pub Holds-frame :
      (t : RenderNode K V) (m m' : NativeModel V) (parent : Option ℕ)
      → ((j : ℕ) → position j (subtree_ids t) ≢ none → Agree m m' j)
      → Holds m parent t
      → Holds m' parent t
  Holds-frame t m m' parent same h = frame t m m' parent same h

  -- Attaching or detaching the root of a subtree changes nothing below.
  pub Holds-with_parent :
      (t : RenderNode K V) (m m' : NativeModel V) (before after : Option ℕ)
      → NoRepeat (subtree_ids t)
      → info m' (node_id t) ≡ with_parent after (info m (node_id t))
      → kids m' (node_id t) ≡ kids m (node_id t)
      → ((j : ℕ) → position j (subtree_ids t) ≢ none → j ≢ node_id t → Agree m m' j)
      → Holds m before t
      → Holds m' after t
  unfolding Holds subtree_ids
  Holds-with_parent (node id kind key props b p e children) m m' before after d i k same
        (here', i', e1, sp, e2, hr, k', z, h) =
      (
        record here' { parent = after },
        ground arith,
        e1,
        sp,
        refl,
        hr,
        k ∙ k',
        z,
        frame_all children m m' id (λ j q. same j (ground arith) (λ r. q (rw r d.0))) h,
      )

-- `update` of a dict by another.
pub lookup-update_props :
    {V : Type 0} (new old : List (String × V)) (name : String)
    → Distinct new
    → lookup name (update_props old new)
      ≡ elim (lookup name new) [ none ↦ lookup name old | some v ↦ some v ]
unfolding update_props lookup
lookup-update_props [] old name d = refl
lookup-update_props ((n, v) ∷ new) old name d = ground (
  arith,
  lookup-update_props new (insert n v old) name d.1,
  lookup-insert n name v old,
  string_eq.beq_iff n name,
)
