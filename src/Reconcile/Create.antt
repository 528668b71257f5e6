-- ===== src/Reconcile/Create.antt =====
-- `_create_subtree` (packages/vyne/src/vyne/reconcile.py) against the native model: what is asked of
-- the creation of a subtree.
use vyne.Common.{
  ==_iff, Bool-cases, List, Option-cases, String, [], ap, arith, inl, inr, none, ok, refl, some,
  subst, sym, ℕ, ◌++◌, ◌+◌, ◌<◌, ◌==◌, ◌∙◌, ◌∷◌, ◌≡◌, ◌≢◌, ◌≤◌,
}
use vyne.Common.Maps.{Distinct, lookup, nat_eq, string_eq}
use vyne.Common.Positions.{NoRepeat, position}
use vyne.Reconcile.Effects.{Info, fresh_info, create-Effect, info, kids, set_props-Effect}
use vyne.Reconcile.Model.{
  Element, Elements, Nodes, RenderNode, RenderSnapshot, create, ids, node_id, set_props, to_list,
}
use vyne.Reconcile.Native.{NativeModel, NativeNode, update_props}
use vyne.Reconcile.Planner.{Plan, Planner, emit, forest_ids, initial_shadow, pure, subtree_ids}
use vyne.Reconcile.Shadow.{shadow_of}
use vyne.Reconcile.Shadow.Indexing.{IsIndexed, shadow_of-IsIndexed}
use vyne.Reconcile.Simulation.{Sim, apply_ops-append, current, emit-Sim}
use vyne.Reconcile.Trees.{
  Agree, Holds, HoldsAll, Matches, MatchesAll, SameProps, lookup-update_props,
}

module _ {K V : Type 0} (old : RenderSnapshot K V) (fuel : ℕ) (start : NativeModel V) where
  -- What a creation from planner `p` and model `m` has made in `p'` and `m'`.
  pub record Creates (p : Planner K V) (m : NativeModel V) (e : Element K V) (parent : ℕ)
      (t : RenderNode K V) (p' : Planner K V) (m' : NativeModel V) : Type 0 where
    pub sim : Sim old fuel start p' m'
    pub grows : p.next_node_id < p'.next_node_id
    pub root_id : node_id t ≡ p.next_node_id
    pub others : (j : ℕ) → j < p.next_node_id → Agree m m' j
    pub holds : Holds m' none t
    pub matches : Matches parent t e
    pub range :
        (j : ℕ) → position j (subtree_ids t) ≢ none → (p.next_node_id ≤ j) × (j < p'.next_node_id)
    pub no_repeat : NoRepeat (subtree_ids t)

  pub record CreatesAll (p : Planner K V) (m : NativeModel V) (es : Elements K V) (parent : ℕ)
      (ts : Nodes K V) (p' : Planner K V) (m' : NativeModel V) : Type 0 where
    pub sim : Sim old fuel start p' m'
    pub grows : p.next_node_id ≤ p'.next_node_id
    pub others : (j : ℕ) → j < p.next_node_id → j ≢ parent → Agree m m' j
    pub parent_info : info m' parent ≡ info m parent
    pub parent_kids : kids m' parent ≡ kids m parent ++ ids (to_list ts)
    pub holds : HoldsAll m' parent ts
    pub matches : MatchesAll parent ts es
    pub range :
        (j : ℕ) → position j (forest_ids ts) ≢ none → (p.next_node_id ≤ j) × (j < p'.next_node_id)
    pub no_repeat : NoRepeat (forest_ids ts)

  -- A parent that was never seen has an empty shadow.
  fresh-current :
      (p : Planner K V) (m : NativeModel V)
      → Sim old fuel start p m
      → current old p p.next_node_id ≡ shadow_of p.next_node_id []
  unfolding initial_shadow
  fresh-current p m s =
      ground (arith, s.fresh_shadows p.next_node_id, s.fresh_old p.next_node_id, s.positive)

  shadow_of-nil : (q : ℕ) → (shadow_of q []).children ≡ []
  unfolding shadow_of
  shadow_of-nil q = refl

  -- The new id and its `create`: a live node without children whose shadow is empty.
  pub record Opened (p : Planner K V) (m : NativeModel V) (kind : String) (p' : Planner K V)
      (m' : NativeModel V) : Type 0 where
    pub sim : Sim old fuel start p' m'
    pub next : p'.next_node_id ≡ p.next_node_id + 1
    pub same_nodes : p'.nodes ≡ p.nodes
    pub node_info : info m' p.next_node_id ≡ some (fresh_info kind)
    pub others : (j : ℕ) → j ≢ p.next_node_id → info m' j ≡ info m j
    pub kids_same : (j : ℕ) → kids m' j ≡ kids m j

  pub open_node :
      (p : Planner K V) (m : NativeModel V) (kind : String)
      → Sim old fuel start p m
      → (m' : NativeModel V) × Opened p m kind
          (record p {
            next_node_id = p.next_node_id + 1;
            ops = p.ops ++ create p.next_node_id kind ∷ [];
          })
          m'
  open_node p m kind s =
      let id = p.next_node_id in
      let (m', run, i, k) = create-Effect fuel m id kind (s.fresh_nodes id (omega arith)) in
      (
        m',
        record {
          sim = record {
            runs = rw (apply_ops-append fuel p.ops (create id kind) start, s.runs) run;
            mirrors = λ q l. elim (Bool-cases (q == id)) [
              | inl t ↦
                  let c : current old p q ≡ shadow_of id [] =
                    ap (current old p) ((==_iff q id).0 t) ∙ fresh-current p m s in
                  record {
                    valid = subst IsIndexed (sym c) (shadow_of-IsIndexed id [] tt);
                    order =
                        ap (λ s'. s'.children) c
                        ∙ shadow_of-nil id
                        ∙ ground (arith, k q, s.fresh_nodes id, s.positive);
                  }
              | inr t ↦
                  let at = s.mirrors q (ground (arith, i q)) in
                  record { valid = at.valid; order = at.order ∙ sym (k q) }
            ];
            fresh_nodes = λ j h. ground (arith, i j, s.fresh_nodes j);
            fresh_shadows = λ j h. s.fresh_shadows j (omega arith);
            fresh_old = λ j h. s.fresh_old j (omega arith);
            positive = omega arith;
            kids_known = λ q j h. rw (k q) (s.kids_known q j (omega arith));
          };
          next = refl;
          same_nodes = refl;
          node_info = ground (arith, i id);
          others = λ j h. ground (arith, i j, ==_iff j id);
          kids_same = k;
        },
      )

  -- The `set_props` of a creation, if there are properties.
  abbrev pub set_all : ℕ → List (String × V) → Plan K V (Unit {0})
  set_all id props = elim props [ [] ↦ pure tt | prop ∷ rest ↦ emit (set_props id (prop ∷ rest)) ]

  -- An opened node that has its properties.
  pub record Dressed (p : Planner K V) (m : NativeModel V) (kind : String)
      (props : List (String × V)) (p' : Planner K V) (m' : NativeModel V) : Type 0 where
    pub sim : Sim old fuel start p' m'
    pub next : p'.next_node_id ≡ p.next_node_id + 1
    pub props' : List (String × V)
    pub node_info : info m' p.next_node_id ≡ some (record (fresh_info kind) { props = props' })
    pub same_props : SameProps props' props
    pub others : (j : ℕ) → j ≢ p.next_node_id → info m' j ≡ info m j
    pub kids_same : (j : ℕ) → kids m' j ≡ kids m j

  some_node :
      (m : NativeModel V) (id : ℕ) (i : Info V)
      → info m id ≡ some i
      → (n : NativeNode V) × (m.nodes id ≡ some n)
  some_node m id i h = elim (Option-cases (m.nodes id)) [
    | inl e ↦ ground arith
    | inr (n, e) ↦ (n, e)
  ]

  pub set_all_lem :
      (p0 p : Planner K V) (m0 m : NativeModel V) (kind : String) (props : List (String × V))
      → Distinct props
      → Opened p0 m0 kind p m
      → (p' : Planner K V) × (m' : NativeModel V) × (set_all p0.next_node_id props p ≡ ok (tt, p'))
        × Dressed p0 m0 kind props p' m'
  unfolding lookup update_props
  set_all_lem p0 p m0 m kind [] d o = (
    p,
    m,
    refl,
    record {
      sim = o.sim;
      next = o.next;
      props' = [];
      node_info = o.node_info;
      same_props = λ name. refl;
      others = o.others;
      kids_same = o.kids_same;
    },
  )
  set_all_lem p0 p m0 m kind (prop ∷ rest) d o =
      let id = p0.next_node_id in
      let props = prop ∷ rest in
      let (n, here) = some_node m id _ o.node_info in
      let (m', s, i, k) =
        emit-Sim old fuel start p m (set_props id props) _ o.sim
          (set_props-Effect fuel m id props n here) (λ j. ground arith) in
      (
        record p { ops = p.ops ++ set_props id props ∷ [] },
        m',
        refl,
        record {
          sim = s;
          next = o.next;
          props' = update_props [] props;
          node_info = i id ∙ ground (arith, o.node_info);
          same_props = λ name. lookup-update_props props [] name d ∙ ground arith;
          others = λ j h. ground (arith, i j, o.others j h, ==_iff j id);
          kids_same = λ j. k j ∙ o.kids_same j;
        },
      )
