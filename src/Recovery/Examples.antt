-- ===== src/Recovery/Examples.antt =====
-- Snapshots and recovery states (packages/vyne/src/vyne/recovery.py and runtime.py) on small inputs.
-- Property values are numbers in the rebuilt trees.
use vyne.Common.{
  List, Result, raise, recursion_error, runtime_error, type_error, [], arith, false, if◌then◌else◌,
  none, ok, refl, some, true, ℕ, ◌==◌, ◌≡◌, ◌∷◌, ◌≢◌, ◌≤◌,
}
use vyne.Common.Ints
use vyne.Common.Ints.{pos}
use vyne.Common.Maps.{lookup, nat_eq, string_eq}
use vyne.Common.Positions.{position}
use vyne.Protocol.Checks.{Registry}
use vyne.Protocol.Events.{validate_message}
use vyne.Protocol.Values.{Floats, integer}
use vyne.Reconcile.Model.{
  Element, RenderSnapshot, ReconcileResult, cons, element, nil, node_id, Bindings, RenderNode,
  no_bindings, no_nodes, node, one_more,
}
use vyne.Reconcile.Native.{
  NativeModel, apply_op, apply_ops, op_clear, remove_all, visit_all, drop_visited, drop_node,
}
use vyne.Reconcile.Effects.{info}
use vyne.Reconcile.Planner.{subtree_ids}
use vyne.Reconcile.Trees.{HasDicts, Matches, Agree, Holds}
use vyne.Recovery.Acks.{acknowledged}
use vyne.Recovery.Faults.{CanFail, send_errors_bound}
use vyne.Recovery.Rebuild.{IsRenderable, build_snapshot-Holds}
use vyne.Reconcile.Diff.{plan_reconcile}
use vyne.Recovery.Resync.{build_snapshot-plan_reconcile}
use vyne.Recovery.Snapshots.{build_snapshot, build_snapshot_commit}
use vyne.Recovery.States.{
  Runtime, acknowledge_all, awaiting_apply, faulted, same, send_commit, send_errors, synced,
}
use vyne.Recovery.Validity.{IsKnown, build_snapshot-valid}
use vyne.Scheduler.Coordinator
use vyne.Scheduler.Coordinator.{Coordinator, accepted_root}

-- A column with a button that listens for clicks, and for the latest drag.
abbrev button_bindings : Bindings
button_bindings = record {
  listeners = ("drag", 8) ∷ ("click", 7) ∷ [];
  latest_events = "drag" ∷ [];
  node_ref = none;
  intent_element = none;
}

module _ {V : Type 0} (width : V) where
  abbrev button : RenderNode ℕ V
  button =
      node 5 "Button" none (("width", width) ∷ ("height", width) ∷ []) button_bindings (some 2) none
        no_nodes

  abbrev column : RenderNode ℕ V
  column = node 2 "Column" none [] no_bindings (some 0) none (one_more button no_nodes)

abbrev column_40 : RenderNode ℕ ℕ
column_40 = column 40

column-IsRenderable : IsRenderable column_40
unfolding IsRenderable lookup
column-IsRenderable = (
  omega arith,
  tt,
  (tt, λ event h. ground arith),
  (
    (
      omega arith,
      (refl, (refl, tt)),
      ((refl, (refl, tt)), λ event h. ground (arith, string_eq.beq_iff "drag" event)),
      tt,
    ),
    tt,
  ),
)

-- The native side shows one stray node.
abbrev stray : NativeModel ℕ
stray = record {
  nodes = λ j.
      if j == 9
      then some (record {
        kind = "Text";
        props = [];
        children = [];
        parent_id = some 0;
        listeners = [];
        latest_events = [];
      })
      else none;
  root_children = 9 ∷ [];
}

abbrev bare : NativeModel ℕ
bare = record { nodes = λ j. if j == 9 then none else stray.nodes j; root_children = [] }

bare-info : (j : ℕ) → info bare j ≡ none
bare-info j = ground (arith)

build_snapshot-Holds_example :
    (m' : NativeModel ℕ) × (apply_ops 9 (build_snapshot column_40) stray ≡ ok m')
    × (m'.root_children ≡ 2 ∷ [])
    × Holds m' (some 0) column_40
    × ((j : ℕ) → position j (subtree_ids column_40) ≡ none → j ≢ 0 → Agree bare m' j)
unfolding apply_op op_clear remove_all visit_all drop_visited drop_node subtree_ids
build_snapshot-Holds_example =
    build_snapshot-Holds 9 column_40 stray bare column-IsRenderable (refl, (refl, tt)) refl
      (λ j h. bare-info j) refl

abbrev whole : Floats (Unit {0})
whole = record {
  finite = λ r. true;
  below_zero = λ r. false;
  at_most_zero = λ r. true;
  above_one = λ r. false;
  converts = λ i. true;
}

abbrev open_registry : Registry (Unit {0})
open_registry = record {
  is_kind = λ kind. true;
  is_known_prop = λ name. true;
  validate_prop = λ name. none;
  event_spec =
      λ name. some (record { open_payload = true; payload_fields = []; payload_specs = [] });
  is_animatable = λ name. true;
  is_canvas_field = λ name. true;
}

build_snapshot-valid_example :
    validate_message whole open_registry
      (build_snapshot_commit (column (integer (pos 40))) (pos 4) (some (pos 9)))
    ≡ ok tt
unfolding IsKnown
build_snapshot-valid_example =
    build_snapshot-valid whole open_registry (column (integer (pos 40))) (pos 4) (some (pos 9))
      (
        omega arith,
        refl,
        tt,
        tt,
        ((omega arith, refl, ((refl, refl), ((refl, refl), tt)), (refl, (refl, tt)), tt), tt),
      )
      tt tt

abbrev starting : Runtime ℕ ℕ ℕ ℕ
starting = record {
  coordinator = Coordinator.init;
  recovery_state = synced;
  revision = pos 0;
  consecutive_faults = 0;
}

-- Seven errors: the transport raises at the second, the validation at the third (by a TypeError, so
-- that the fallback is sent) and at the fourth.
abbrev seven_errors : List (Result (Unit {0}) × Result (Unit {0}))
seven_errors =
    (ok tt, ok tt)
    ∷ (ok tt, raise runtime_error)
    ∷ (raise type_error, ok tt)
    ∷ (raise recursion_error, ok tt)
    ∷ (ok tt, ok tt)
    ∷ (ok tt, raise runtime_error)
    ∷ (ok tt, ok tt)
    ∷ []

send_errors_bound_example :
    let (r', (count, results)) = send_errors seven_errors starting in
    (results
      ≡ ok tt ∷ raise runtime_error ∷ ok tt ∷ raise recursion_error ∷ ok tt ∷ ok tt ∷ ok tt ∷ [])
    × (count ≤ 5)
    × (5 ≤ 5)
    × (same r'.recovery_state faulted ≡ true)
    × CanFail r'
unfolding Coordinator.init accepted_root
send_errors_bound_example = send_errors_bound seven_errors starting (refl, refl)

-- Revision 3 was sent with the tree 8.
abbrev sent : Runtime ℕ ℕ ℕ ℕ
sent = record {
  coordinator = record Coordinator.init {
    candidate_root = some 8;
    candidate_index = some ((1, 8) ∷ []);
    next_node_id = 2;
    in_flight_revision = pos 3;
  };
  recovery_state = awaiting_apply;
  revision = pos 3;
  consecutive_faults = 0;
}

-- Acknowledgements of other revisions, then its own, twice.
own_among : acknowledge_all (pos 2 ∷ pos 3 ∷ pos 3 ∷ []) sent ≡ ok (acknowledged sent)
unfolding Coordinator.init acknowledge_all
own_among = refl

-- In step at revision 2, with the tree 8 staged.
abbrev staged : Runtime ℕ ℕ ℕ ℕ
staged = record {
  coordinator = record Coordinator.init {
    candidate_root = some 8;
    candidate_index = some ((1, 8) ∷ []);
    next_node_id = 2;
  };
  recovery_state = synced;
  revision = pos 2;
  consecutive_faults = 0;
}

-- The transport raises after the acknowledgement has arrived: nothing stays staged.
send_raises : send_commit false (ok tt) (pos 3 ∷ []) (raise runtime_error) staged ≡ (
  record staged {
    coordinator = record Coordinator.init {
      candidate_root = none;
      candidate_index = none;
      next_node_id = 1;
    };
  },
  raise runtime_error,
)
unfolding Coordinator.init send_commit Ints.add_one
send_raises = refl

-- An effect-only commit with nothing staged.
effect_sent : (send_commit true (ok tt) (pos 1 ∷ []) (ok tt) starting).1 ≡ ok tt
unfolding Coordinator.init send_commit Ints.add_one
effect_sent = refl

abbrev panel : Element ℕ ℕ
panel = element 1 "Panel" none (("gap", 4) ∷ []) (cons (element 2 "Text" (some 3) [] nil) nil)

panel-HasDicts : HasDicts panel
unfolding HasDicts lookup
panel-HasDicts = ((refl, tt), ((tt, tt), tt))

abbrev nothing : RenderSnapshot ℕ ℕ
nothing = record { root = none; node_index = []; revision = pos 0 }

build_snapshot-plan_reconcile_example :
    (result : ReconcileResult ℕ ℕ) × (t : RenderNode ℕ ℕ) × (m : NativeModel ℕ) × (plan_reconcile
        nothing panel 1
      ≡ ok result)
    × (result.new_snapshot.root ≡ some t)
    × (apply_ops 9 (build_snapshot t) stray ≡ ok m)
    × (m.root_children ≡ node_id t ∷ [])
    × Holds m (some 0) t
    × Matches 0 t panel
unfolding lookup apply_op op_clear remove_all visit_all drop_visited drop_node
build_snapshot-plan_reconcile_example =
    build_snapshot-plan_reconcile nothing 9 panel 1 stray bare refl (λ j h. refl) (omega arith)
      panel-HasDicts refl (λ j h. bare-info j)
