-- ===== src/Recovery/Validity.antt =====
-- The snapshot commit (packages/vyne/src/vyne/recovery.py) against the validation of protocol.py.
use vyne.Common.{
  All, Bool-cases, List, Option, String, [], arith, inl, inr, is_some, ok, suc, true, ℕ, ◌++◌, ◌≡◌,
  ◌≤◌, ◌∷◌,
}
use Prim.Native.String.{compare}
use text.Mathlib.Text.{is_lt}
use vyne.Common.Ints.{ℤ}
use vyne.Common.Maps.{among, string_eq}
use vyne.Protocol.Checks.{Registry}
use vyne.Protocol.Encoding.{IsOrigin, IsRevision, IsValidOp, IsValidProp, validate-encode_commit}
use vyne.Protocol.Events.{validate_message}
use vyne.Protocol.Values.{Floats, Value}
use vyne.Reconcile.Model.{Nodes, RenderNode, no_nodes, node, one_more}
use vyne.Recovery.Snapshots.{
  build_snapshot, build_snapshot_commit, emit_children, emit_node, listen_ops, props_ops,
}
use vyne.Recovery.Sorting.{insort, sort_items}

pub All-append {ℓ κ} :
    {A : Type ℓ} (P : A → Type κ) (xs ys : List A) → All P xs → All P ys → All P (xs ++ ys)
All-append P [] ys h k = k
All-append P (x ∷ xs) ys (a, h) k = (a, All-append P xs ys h k)

module _ {V : Type 0} (P : String × V → Type 0) where
  All-insort :
      (k : String) (v : V) (m : List (String × V)) → P (k, v) → All P m → All P (insort k v m)
  unfolding insort
  All-insort k v [] p h = (p, tt)
  All-insort k v ((j, w) ∷ m) p (q, h) = elim (Bool-cases (is_lt (compare k j))) [
    | inl e ↦ rw e (p, (q, h))
    | inr e ↦ rw e (q, All-insort k v m p h)
  ]

  All-sort_items : (m : List (String × V)) → All P m → All P (sort_items m)
  unfolding sort_items
  All-sort_items [] h = tt
  All-sort_items ((k, v) ∷ m) (p, h) = All-insort k v (sort_items m) p (All-sort_items m h)

module _ {F : Type 0} (floats : Floats F) (registry : Registry F) where
  props_valid :
      (id : ℕ) (props : List (String × Value F))
      → id ≤ 2147483647
      → All (IsValidProp floats registry) props
      → All (IsValidOp floats registry) (props_ops id props)
  unfolding props_ops
  props_valid id [] l h = tt
  props_valid id (prop ∷ props) l h =
      ((l, All-sort_items (IsValidProp floats registry) (prop ∷ props) h), tt)

  listen_valid :
      (id : ℕ) (latest : List String) (rest : List (String × ℕ))
      → id ≤ 2147483647
      → All (λ (l : String × ℕ). is_some (registry.event_spec l.0) ≡ true) rest
      → All (IsValidOp floats registry) (listen_ops id latest rest)
  unfolding listen_ops
  listen_valid id latest [] l h = tt
  listen_valid id latest ((event, handler) ∷ rest) l (k, h) =
      elim (Bool-cases (among event latest)) [
        | inl e ↦ rw e ((l, k), listen_valid id latest rest l h)
        | inr e ↦ rw e ((l, k), listen_valid id latest rest l h)
      ]

module _ {K F : Type 0} (floats : Floats F) (registry : Registry F) where
  -- The registry knows the tree: its kinds, properties with their values, and events; and its ids
  -- are in the host's range.
  unfoldable mutual
    pub IsKnown : RenderNode K (Value F) → Type 0
    IsKnown (node id kind key props b p e children) =
        (id ≤ 2147483647)
        × (registry.is_kind kind ≡ true)
        × All (IsValidProp floats registry) props
        × All (λ (l : String × ℕ). is_some (registry.event_spec l.0) ≡ true) b.listeners
        × AllKnown children

    pub AllKnown : Nodes K (Value F) → Type 0
    AllKnown no_nodes = Unit
    AllKnown (one_more n ns) = IsKnown n × AllKnown ns

  mutual
    unfolding emit_node IsKnown

    node_valid :
        (t : RenderNode K (Value F)) (parent index : ℕ)
        → IsKnown t
        → parent ≤ 2147483647
        → All (IsValidOp floats registry) (emit_node t parent index)
    node_valid (node id kind key props b p e children) parent index (i, k, ps, ls, cs) l =
        let Valid = IsValidOp floats registry in
        (
          (i, k),
          All-append Valid (props_ops id props) _ (props_valid floats registry id props i ps) (
              All-append Valid (listen_ops id b.latest_events (sort_items b.listeners)) _
                (listen_valid floats registry id b.latest_events (sort_items b.listeners) i
                  (All-sort_items _ b.listeners ls))
                ((l, i), children_valid children id 0 cs i)),
        )

    children_valid :
        (ts : Nodes K (Value F)) (parent index : ℕ)
        → AllKnown ts
        → parent ≤ 2147483647
        → All (IsValidOp floats registry) (emit_children ts parent index)
    children_valid no_nodes parent index h l = tt
    children_valid (one_more t ts) parent index (h, hs) l =
        All-append (IsValidOp floats registry) (emit_node t parent index)
          (emit_children ts parent (suc index)) (node_valid t parent index h l)
          (children_valid ts parent (suc index) hs l)

  -- The snapshot commit of a tree with ids in the host's range, kinds and events that the registry
  -- knows, and properties that it knows with values that it lets pass, passes the validation of
  -- messages, whatever revision not below -1 it has, with or without the sequence number of an event,
  -- not negative.
  pub build_snapshot-valid :
      (t : RenderNode K (Value F)) (revision : ℤ) (origin_event_seq : Option ℤ)
      → IsKnown t
      → IsRevision revision
      → IsOrigin origin_event_seq
      → validate_message floats registry (build_snapshot_commit t revision origin_event_seq) ≡ ok tt
  unfolding build_snapshot build_snapshot_commit
  build_snapshot-valid t revision origin_event_seq h v o =
      (validate-encode_commit floats registry revision origin_event_seq (build_snapshot t)).1
        (v, o, (omega arith, node_valid t 0 0 h (omega arith)))
