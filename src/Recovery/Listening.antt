-- ===== src/Recovery/Listening.antt =====
-- Runs of operations on the native model, and what the listener operations of a snapshot
-- (packages/vyne/src/vyne/recovery.py) leave there.
use vyne.Common.{
  ==_iff, Bool, Bool-cases, List, Option, Option-cases, Result-cases, String, [], arith,
  if◌then◌else◌, inl, inr, none, ok, refl, some, ℕ, ◌++◌, ◌==◌, ◌∙◌, ◌∷◌, ◌≡◌, ◌≢◌,
}
use vyne.Common.Maps.{
  Distinct, among, delete, has, insert, lookup, lookup-delete, lookup-insert, nat_eq, string_eq,
}
use vyne.Reconcile.Effects.{Effect, Info, info, kids}
use vyne.Reconcile.Model.{Op, listen, listen_latest}
use vyne.Reconcile.Native.{NativeModel, apply_op, apply_ops, put_node}
use vyne.Recovery.Snapshots.{listen_ops}

module _ {V : Type 0} (fuel : ℕ) where
  abbrev pub Runs : List (Op V) → NativeModel V → NativeModel V → Type 0
  Runs ops m m' = apply_ops fuel ops m ≡ ok m'

  pub Runs-cons :
      (op : Op V) (ops : List (Op V)) (m m1 m2 : NativeModel V)
      → apply_op fuel op m ≡ ok m1
      → Runs ops m1 m2
      → Runs (op ∷ ops) m m2
  unfolding apply_ops
  Runs-cons op ops m m1 m2 h r = ground arith

  pub Runs-append :
      (xs ys : List (Op V)) (m m1 m2 : NativeModel V)
      → Runs xs m m1
      → Runs ys m1 m2
      → Runs (xs ++ ys) m m2
  unfolding apply_ops
  Runs-append [] ys m m1 m2 h r = ground arith
  Runs-append (op ∷ xs) ys m m1 m2 h r = elim (Result-cases (apply_op fuel op m)) [
    | inl (m', e) ↦ ground (arith, Runs-append xs ys m' m1 m2)
    | inr (x, e) ↦ ground arith
  ]

  -- One listener more.
  abbrev heard : Bool → String → ℕ → Info V → Info V
  heard latest event handler here = record here {
    listeners = insert event handler here.listeners;
    latest_events =
        if latest then insert event tt here.latest_events else delete event here.latest_events;
  }

  abbrev at_id : (Info V → Info V) → Option (Info V) → Option (Info V)
  at_id f none = none
  at_id f (some i) = some (f i)

  listen-Effect :
      (m : NativeModel V) (id : ℕ) (event : String) (handler : ℕ) (latest : Bool) (here : Info V)
      → info m id ≡ some here
      → Effect fuel
          (if latest then listen_latest id event handler else listen id event handler)
          m
          (λ j. if j == id then at_id (heard latest event handler) (info m j) else info m j)
          (kids m)
  unfolding apply_op
  listen-Effect m id event handler latest here h = elim (Option-cases (m.nodes id)) [
    | inl e ↦ absurd (ground arith)
    | inr (n, e) ↦ elim (Bool-cases latest) [
      | inl t ↦ rw t (
        put_node id
            (record n {
              listeners = insert event handler n.listeners;
              latest_events = insert event tt n.latest_events;
            })
            m,
        ground arith,
        λ j. ground (arith, ==_iff j id),
        λ j. ground (arith, ==_iff j id),
      )
      | inr t ↦ rw t (
        put_node id
            (record n {
              listeners = insert event handler n.listeners;
              latest_events = delete event n.latest_events;
            })
            m,
        ground arith,
        λ j. ground (arith, ==_iff j id),
        λ j. ground (arith, ==_iff j id),
      )
    ]
  ]

  -- What the listener operations of one node change.
  pub record Listening (id : ℕ) (latest : List String) (rest : List (String × ℕ))
      (m : NativeModel V) (here : Info V) (m' : NativeModel V) : Type 0 where
    pub runs : Runs (listen_ops id latest rest) m m'
    pub here' : Info V
    pub info_here : info m' id ≡ some here'
    pub kind_same : here'.kind ≡ here.kind
    pub props_same : here'.props ≡ here.props
    pub parent_same : here'.parent ≡ here.parent
    pub listeners_after :
        (event : String)
        → lookup event here'.listeners
          ≡ elim (lookup event rest) [ none ↦ lookup event here.listeners | some h ↦ some h ]
    pub latest_after :
        (event : String)
        → has event here'.latest_events ≡ elim (lookup event rest) [
          | none ↦ has event here.latest_events
          | some h ↦ among event latest
        ]
    pub others : (j : ℕ) → j ≢ id → info m' j ≡ info m j
    pub kids_same : (j : ℕ) → kids m' j ≡ kids m j

  pub listen_ops_lem :
      (id : ℕ) (latest : List String) (rest : List (String × ℕ)) (m : NativeModel V) (here : Info V)
      → Distinct rest
      → info m id ≡ some here
      → (m' : NativeModel V) × Listening id latest rest m here m'
  unfolding listen_ops lookup apply_ops
  listen_ops_lem id latest [] m here d h = (
    m,
    record {
      runs = refl;
      here' = here;
      info_here = h;
      kind_same = refl;
      props_same = refl;
      parent_same = refl;
      listeners_after = λ event. refl;
      latest_after = λ event. refl;
      others = λ j n. refl;
      kids_same = λ j. refl;
    },
  )
  listen_ops_lem id latest ((event, handler) ∷ rest) m here (f, d) h =
      let (m1, run, i, k) = listen-Effect m id event handler (among event latest) here h in
      let here1 = heard (among event latest) event handler here in
      let (m2, l) =
        listen_ops_lem id latest rest m1 here1 d (i id ∙ ground (arith, ==_iff id id)) in
      (
        m2,
        record {
          runs = Runs-cons _ (listen_ops id latest rest) m m1 m2 run l.runs;
          here' = l.here';
          info_here = l.info_here;
          kind_same = l.kind_same;
          props_same = l.props_same;
          parent_same = l.parent_same;
          listeners_after = λ e.
              l.listeners_after e
              ∙ ground
                  (arith, lookup-insert event e handler here.listeners, string_eq.beq_iff event e);
          latest_after = λ e.
              l.latest_after e
              ∙ ground (
                arith,
                lookup-insert event e tt here.latest_events,
                lookup-delete event e here.latest_events,
                string_eq.beq_iff event e,
              );
          others = λ j n. l.others j n ∙ i j ∙ ground (arith, ==_iff j id);
          kids_same = λ j. l.kids_same j ∙ k j;
        },
      )
