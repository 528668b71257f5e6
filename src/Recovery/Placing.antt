-- ===== src/Recovery/Placing.antt =====
-- One node of a snapshot (packages/vyne/src/vyne/recovery.py) on the reference applier: its
-- operations put it, whole, behind the children that its parent has.
use vyne.Common.{
  ==_iff, List, Option-cases, String, [], false, arith, if◌then◌else◌, inl, inr, length, none, refl,
  some, true, ℕ, ◌++◌, ◌==◌, ◌∙◌, ◌∷◌, ◌≡◌, ◌≢◌, ap,
}
use vyne.Common.Maps.{Distinct, among, has, lookup, nat_eq, string_eq}
use vyne.Common.Positions.{insert_at-length}
use vyne.Reconcile.Effects.{
  Info, create-Effect, fresh_info, info, insert_child-Effect, kids, live, set_props-Effect,
}
use vyne.Reconcile.Model.{Bindings, Op, create, insert_child, set_props}
use vyne.Reconcile.Native.{NativeModel, NativeNode, apply_ops, update_props}
use vyne.Reconcile.Trees.{Hears, SameProps, lookup-update_props}
use vyne.Recovery.Listening.{Runs, Runs-append, Runs-cons, listen_ops_lem}
use vyne.Recovery.Snapshots.{listen_ops, props_ops}
use vyne.Recovery.Sorting.{lookup-sort_items, sort_items, sort_items-Distinct}

-- Bindings whose listeners are a dict, with a listener for each latest event.
abbrev pub AreBound : Bindings → Type 0
AreBound b =
    Distinct b.listeners
    × ((event : String) → among event b.latest_events ≡ true → has event b.listeners ≡ true)

module _ {V : Type 0} where
  -- The operations of one node, up to its children.
  abbrev pub placing_ops : ℕ → String → List (String × V) → Bindings → ℕ → ℕ → List (Op V)
  placing_ops id kind props b parent index =
      create id kind
      ∷ (props_ops id props
          ++ (listen_ops id b.latest_events (sort_items b.listeners)
              ++ (insert_child parent id index ∷ [])))

module _ {V : Type 0} (fuel : ℕ) where
  Runs-nil : (m : NativeModel V) → Runs fuel [] m m
  unfolding apply_ops
  Runs-nil m = refl

  live_info :
      (m : NativeModel V) (id : ℕ) (i : Info V)
      → info m id ≡ some i
      → (n : NativeNode V) × (m.nodes id ≡ some n)
  live_info m id i h = elim (Option-cases (m.nodes id)) [
    | inl e ↦ absurd (ground arith)
    | inr (n, e) ↦ (n, e)
  ]

  -- A node after its creation and its properties.
  pub record Clothed (id : ℕ) (kind : String) (props : List (String × V)) (m m' : NativeModel V)
      : Type 0 where
    pub runs : Runs fuel (create id kind ∷ props_ops id props) m m'
    pub props' : List (String × V)
    pub info_here : info m' id ≡ some (record (fresh_info kind) { props = props' })
    pub same_props : SameProps props' props
    pub others : (j : ℕ) → j ≢ id → info m' j ≡ info m j
    pub kids_same : (j : ℕ) → kids m' j ≡ kids m j

  clothe :
      (m : NativeModel V) (id : ℕ) (kind : String) (props : List (String × V))
      → info m id ≡ none
      → Distinct props
      → (m' : NativeModel V) × Clothed id kind props m m'
  unfolding props_ops apply_ops lookup
  clothe m id kind [] h d =
      let (m1, run, i, k) = create-Effect fuel m id kind h in
      (
        m1,
        record {
          runs = Runs-cons fuel _ [] m m1 m1 run refl;
          props' = [];
          info_here = i id ∙ ground (arith, ==_iff id id);
          same_props = λ name. refl;
          others = λ j n. i j ∙ ground (arith, ==_iff j id);
          kids_same = k;
        },
      )
  clothe m id kind (prop ∷ props) h d =
      let all = prop ∷ props in
      let (m1, run, i, k) = create-Effect fuel m id kind h in
      let here : info m1 id ≡ some (fresh_info kind) = i id ∙ ground (arith, ==_iff id id) in
      let (n, e) = live_info m1 id _ here in
      let (m2, run2, i2, k2) = set_props-Effect fuel m1 id (sort_items all) n e in
      (
        m2,
        record {
          runs =
              Runs-cons fuel _ (set_props id (sort_items all) ∷ []) m m1 m2 run
                (Runs-cons fuel (set_props id (sort_items all)) [] m1 m2 m2 run2 refl);
          props' = update_props [] (sort_items all);
          info_here = i2 id ∙ ground (arith, ==_iff id id, here);
          same_props = λ name.
              lookup-update_props (sort_items all) [] name (sort_items-Distinct all d)
              ∙ ground (arith, lookup-sort_items name all d);
          others = λ j ne. i2 j ∙ ground (arith, ==_iff j id, i j);
          kids_same = λ j. k2 j ∙ k j;
        },
      )

  -- A node as it stands once it is inserted: without children.
  pub record Placed (id : ℕ) (kind : String) (props : List (String × V)) (b : Bindings) (parent : ℕ)
      (m m' : NativeModel V) : Type 0 where
    pub runs : Runs fuel (placing_ops id kind props b parent (length (kids m parent))) m m'
    pub here : Info V
    pub info_here : info m' id ≡ some here
    pub kind_same : here.kind ≡ kind
    pub same_props : SameProps here.props props
    pub parent_same : here.parent ≡ some parent
    pub hears : Hears here b
    pub others : (j : ℕ) → j ≢ id → info m' j ≡ info m j
    pub kids_after :
        (j : ℕ) → kids m' j ≡ (if j == parent then kids m parent ++ id ∷ [] else kids m j)

  bound_after :
      (here : Info V) (b : Bindings)
      → AreBound b
      → ((event : String)
          → lookup event here.listeners
            ≡ elim (lookup event (sort_items b.listeners)) [ none ↦ none | some h ↦ some h ])
      → ((event : String)
          → has event here.latest_events ≡ elim (lookup event (sort_items b.listeners)) [
            | none ↦ false
            | some h ↦ among event b.latest_events
          ])
      → Hears here b
  bound_after here b (d, l) f g = (
    λ event. f event ∙ ground (arith, lookup-sort_items event b.listeners d),
    λ event. g event ∙ ground (arith, lookup-sort_items event b.listeners d, l event),
  )

  pub place :
      (m : NativeModel V) (id : ℕ) (kind : String) (props : List (String × V)) (b : Bindings)
      (parent : ℕ)
      → info m id ≡ none
      → Distinct props
      → AreBound b
      → live m parent ≡ true
      → id ≢ parent
      → (m' : NativeModel V) × Placed id kind props b parent m m'
  unfolding lookup
  place m id kind props b parent h d bound l ne =
      let (m1, c) = clothe m id kind props h d in
      let (m2, s) =
        listen_ops_lem fuel id b.latest_events (sort_items b.listeners) m1 _
          (sort_items-Distinct b.listeners bound.0) c.info_here in
      let alive : live m2 parent ≡ true = ground (arith, s.others parent, c.others parent) in
      let same : kids m2 parent ≡ kids m parent = s.kids_same parent ∙ c.kids_same parent in
      let (m3, run, i, k) =
        insert_child-Effect fuel m2 parent id (length (kids m2 parent))
          (ground (arith, s.info_here)) alive (omega arith) in
      (
        m3,
        record {
          runs = Runs-append fuel (create id kind ∷ props_ops id props) _ m m1 m3 c.runs (
              Runs-append fuel (listen_ops id b.latest_events (sort_items b.listeners)) _ m1 m2 m3
                s.runs
                (Runs-cons fuel (insert_child parent id (length (kids m parent))) [] m2 m3 m3
                  (rw same at run) (Runs-nil m3)));
          here = record s.here' { parent = some parent };
          info_here = i id ∙ ground (arith, ==_iff id id, s.info_here);
          kind_same = s.kind_same;
          same_props = λ name. ap (lookup name) s.props_same ∙ c.same_props name;
          parent_same = refl;
          hears = bound_after s.here' b bound s.listeners_after s.latest_after;
          others = λ j n. i j ∙ ground (arith, ==_iff j id, s.others j n, c.others j n);
          kids_after = λ j.
              k j
              ∙ ground (
                arith,
                ==_iff j parent,
                s.kids_same j,
                c.kids_same j,
                same,
                insert_at-length (kids m parent) id,
              );
        },
      )
