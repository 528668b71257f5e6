-- ===== src/Reconcile/Effects.antt =====
-- The native model (tests/support/native_model.py) as it is observed: the data of a node, and the
-- children of a parent. Each operation of a plan is described by what it changes of these.
use vyne.Common.{arith, refl, ◌∙◌, ok}
use vyne.Common.{
  ==_iff, Bool, List, Option, String, [], if◌then◌else◌, insert_at, is_some, length, none,
  remove_at, some, true, ℕ, ◌==◌, ◌||◌, ◌≡◌, ◌≤◌,
}
use vyne.Common.Maps.{delete, insert, nat_eq, string_eq}
use vyne.Common.Positions.{length-remove_at, position, position-lt}
use vyne.Reconcile.Model.{
  Op, create, insert_child, move_child, remove_child, remove_prop, set_prop, set_props,
}
use vyne.Reconcile.Native.{
  NativeModel, NativeNode, apply_op, put_node, put_parent, put_siblings, siblings, update_props,
}

-- A node without its children.
pub record Info (V : Type 0) : Type 0 where
  pub kind : String
  pub props : List (String × V)
  pub parent : Option ℕ
  pub listeners : List (String × ℕ)
  pub latest_events : List (String × Unit {0})

module _ {V : Type 0} where
  -- The data of a node that was just created.
  abbrev pub fresh_info : String → Info V
  fresh_info kind = record {
    kind = kind;
    props = [];
    parent = none;
    listeners = [];
    latest_events = [];
  }

  abbrev pub info : NativeModel V → ℕ → Option (Info V)
  info m j = elim (m.nodes j) [
    | none ↦ none
    | some n ↦ some (record {
      kind = n.kind;
      props = n.props;
      parent = n.parent_id;
      listeners = n.listeners;
      latest_events = n.latest_events;
    })
  ]

  -- The children of a parent, none for an id that is not there.
  abbrev pub kids : NativeModel V → ℕ → List ℕ
  kids m q =
      if q == 0 then m.root_children else (elim (m.nodes q) [ none ↦ [] | some n ↦ n.children ])

  abbrev pub live : NativeModel V → ℕ → Bool
  live m q = q == 0 || is_some (info m q)

  abbrev pub with_parent : Option ℕ → Option (Info V) → Option (Info V)
  with_parent parent none = none
  with_parent parent (some n) = some (record n { parent = parent })

  abbrev pub with_props :
      (List (String × V) → List (String × V)) → Option (Info V) → Option (Info V)
  with_props f none = none
  with_props f (some n) = some (record n { props = f n.props })

  -- The operation succeeds, with this data and these children afterwards.
  abbrev pub Effect : ℕ → Op V → NativeModel V → (ℕ → Option (Info V)) → (ℕ → List ℕ) → Type 0
  Effect fuel op m info' kids' =
      (m' : NativeModel V) × (apply_op fuel op m ≡ ok m')
      × ((j : ℕ) → info m' j ≡ info' j)
      × ((j : ℕ) → kids m' j ≡ kids' j)

  module _ (m : NativeModel V) where
    siblings-eq-kids : (parent : ℕ) → live m parent ≡ true → siblings parent m ≡ ok (kids m parent)
    siblings-eq-kids parent l = ground arith

    info-put_siblings :
        (parent : ℕ) (xs : List ℕ) (j : ℕ) → info (put_siblings parent xs m) j ≡ info m j
    info-put_siblings parent xs j = ground (arith, ==_iff j parent)

    kids-put_siblings :
        (parent : ℕ) (xs : List ℕ) (j : ℕ)
        → live m parent ≡ true
        → kids (put_siblings parent xs m) j ≡ (if j == parent then xs else kids m j)
    kids-put_siblings parent xs j l = ground (arith, ==_iff j parent)

    info-put_parent :
        (child : ℕ) (parent : Option ℕ) (j : ℕ)
        → info (put_parent child parent m) j
          ≡ (if j == child then with_parent parent (info m j) else info m j)
    info-put_parent child parent j = ground (arith, ==_iff j child)

    kids-put_parent :
        (child : ℕ) (parent : Option ℕ) (j : ℕ) → kids (put_parent child parent m) j ≡ kids m j
    kids-put_parent child parent j = ground (arith, ==_iff j child)

  module _ (fuel : ℕ) (m : NativeModel V) where
    pub create-Effect :
        (id : ℕ) (kind : String)
        → info m id ≡ none
        → Effect fuel
            (create id kind)
            m
            (λ j. if j == id then some (fresh_info kind) else info m j)
            (kids m)
    unfolding apply_op
    create-Effect id kind h = (
      put_node id
          (record {
            kind = kind;
            props = [];
            children = [];
            parent_id = none;
            listeners = [];
            latest_events = [];
          })
          m,
      ground arith,
      λ j. ground arith,
      λ j. ground (arith, ==_iff j id),
    )

    -- Any change of a node's properties.
    props-Effect :
        (op : Op V) (id : ℕ) (f : List (String × V) → List (String × V)) (n : NativeNode V)
        → m.nodes id ≡ some n
        → apply_op fuel op m ≡ ok (put_node id (record n { props = f n.props }) m)
        → Effect fuel op m (λ j. if j == id then with_props f (info m j) else info m j) (kids m)
    props-Effect op id f n h run = (
      put_node id (record n { props = f n.props }) m,
      run,
      λ j. ground (arith, ==_iff j id),
      λ j. ground (arith, ==_iff j id),
    )

    pub set_props-Effect :
        (id : ℕ) (props : List (String × V)) (n : NativeNode V)
        → m.nodes id ≡ some n
        → Effect fuel
            (set_props id props)
            m
            (λ j.
              if j == id then with_props (λ old. update_props old props) (info m j) else info m j)
            (kids m)
    unfolding apply_op
    set_props-Effect id props n h =
        props-Effect (set_props id props) id (λ old. update_props old props) n h (ground arith)

    pub set_prop-Effect :
        (id : ℕ) (name : String) (value : V) (n : NativeNode V)
        → m.nodes id ≡ some n
        → Effect fuel
            (set_prop id name value)
            m
            (λ j. if j == id then with_props (insert name value) (info m j) else info m j)
            (kids m)
    unfolding apply_op
    set_prop-Effect id name value n h =
        props-Effect (set_prop id name value) id (insert name value) n h (ground arith)

    pub remove_prop-Effect :
        (id : ℕ) (name : String) (n : NativeNode V)
        → m.nodes id ≡ some n
        → Effect fuel
            (remove_prop id name)
            m
            (λ j. if j == id then with_props (delete name) (info m j) else info m j)
            (kids m)
    unfolding apply_op
    remove_prop-Effect id name n h =
        props-Effect (remove_prop id name) id (delete name) n h (ground arith)

    pub insert_child-Effect :
        (parent child index : ℕ)
        → is_some (info m child) ≡ true
        → live m parent ≡ true
        → index ≤ length (kids m parent)
        → Effect fuel
            (insert_child parent child index)
            m
            (λ j. if j == child then with_parent (some parent) (info m j) else info m j)
            (λ j. if j == parent then insert_at index child (kids m parent) else kids m j)
    unfolding apply_op
    insert_child-Effect parent child index h l b =
        let after = insert_at index child (kids m parent) in
        let m1 = put_siblings parent after m in
        (
          put_parent child (some parent) m1,
          rw (siblings-eq-kids m parent l) (ground arith),
          λ j.
              info-put_parent m1 child (some parent) j
              ∙ rw (info-put_siblings m parent after j) refl,
          λ j. kids-put_parent m1 child (some parent) j ∙ kids-put_siblings m parent after j l,
        )

    pub move_child-Effect :
        (parent child index current : ℕ)
        → is_some (info m child) ≡ true
        → live m parent ≡ true
        → position child (kids m parent) ≡ some current
        → index ≤ current
        → Effect fuel (move_child parent child index) m (info m) (λ j.
          if j == parent
          then insert_at index child (remove_at current (kids m parent))
          else kids m j)
    unfolding apply_op
    move_child-Effect parent child index current h l e b =
        let after = insert_at index child (remove_at current (kids m parent)) in
        let bound = position-lt (kids m parent) child current e in
        let short = length-remove_at (kids m parent) current bound in
        (
          put_siblings parent after m,
          rw (siblings-eq-kids m parent l) (ground arith),
          λ j. info-put_siblings m parent after j,
          λ j. kids-put_siblings m parent after j l,
        )

    pub remove_child-Effect :
        (parent child current : ℕ)
        → is_some (info m child) ≡ true
        → live m parent ≡ true
        → position child (kids m parent) ≡ some current
        → Effect fuel
            (remove_child parent child)
            m
            (λ j. if j == child then with_parent none (info m j) else info m j)
            (λ j. if j == parent then remove_at current (kids m parent) else kids m j)
    unfolding apply_op
    remove_child-Effect parent child current h l e =
        let after = remove_at current (kids m parent) in
        let m1 = put_siblings parent after m in
        (
          put_parent child none m1,
          rw (siblings-eq-kids m parent l) (ground arith),
          λ j. info-put_parent m1 child none j ∙ rw (info-put_siblings m parent after j) refl,
          λ j. kids-put_parent m1 child none j ∙ kids-put_siblings m parent after j l,
        )
