-- ===== src/Recovery/Snapshots.antt =====
-- `build_snapshot_commit` of packages/vyne/src/vyne/recovery.py: the operations of the complete
-- snapshot of a tree.
use vyne.Common.{List, Option, String, [], if◌then◌else◌, suc, ℕ, ◌++◌, ◌∷◌}
use vyne.Common.Maps.{among, string_eq}
use vyne.Reconcile.Model.{
  Nodes, Op, RenderNode, clear, create, insert_child, listen, listen_latest, no_nodes, node,
  one_more, set_props,
}
use vyne.Common.Ints.{ℤ}
use vyne.Protocol.Encoding.{encode_commit}
use vyne.Protocol.Values.{Fields, Value}
use vyne.Recovery.Sorting.{sort_items}

module _ {V : Type 0} where
  -- The properties, if there are any.
  unfoldable pub props_ops : ℕ → List (String × V) → List (Op V)
  unfolding sort_items
  props_ops id [] = []
  props_ops id (prop ∷ props) = set_props id (sort_items (prop ∷ props)) ∷ []

  -- The loop over the sorted listeners.
  unfoldable pub listen_ops : ℕ → List String → List (String × ℕ) → List (Op V)
  listen_ops id latest [] = []
  listen_ops id latest ((event, handler) ∷ rest) =
      (if among event latest then listen_latest id event handler else listen id event handler)
      ∷ listen_ops id latest rest

module _ {K V : Type 0} where
  -- `_emit_node`, and its loop over the children.
  unfoldable mutual
    pub emit_node : RenderNode K V → ℕ → ℕ → List (Op V)
    emit_node (node id kind key props b p e children) parent_id insert_index =
        create id kind
        ∷ (props_ops id props
            ++ (listen_ops id b.latest_events (sort_items b.listeners)
                ++ (insert_child parent_id id insert_index ∷ emit_children children id 0)))

    pub emit_children : Nodes K V → ℕ → ℕ → List (Op V)
    emit_children no_nodes parent_id index = []
    emit_children (one_more n ns) parent_id index =
        emit_node n parent_id index ++ emit_children ns parent_id (suc index)

  -- The operations that `build_snapshot_commit` gathers.
  unfoldable pub build_snapshot : RenderNode K V → List (Op V)
  unfolding emit_node
  build_snapshot root = clear 0 ∷ emit_node root 0 0

-- `build_snapshot_commit`: its `ops`, and the message around them.
module _ {K F : Type 0} where
  unfoldable pub build_snapshot_commit : RenderNode K (Value F) → ℤ → Option ℤ → Fields F
  unfolding build_snapshot encode_commit
  build_snapshot_commit root revision origin_event_seq =
      encode_commit revision origin_event_seq (build_snapshot root)
