-- ===== src/Lib.antt =====
-- Vyne: a Python framework that renders element trees to native Android views. This library models
-- the part of it that decides what the native side shows, and proves it correct.
--
-- The parts and how they interact. A render lowers the authored elements to canonical ones.
-- Reconciliation (packages/vyne/src/vyne/reconcile.py) plans the native operations from the
-- accepted snapshot to the desired tree. The coordinator (packages/vyne/src/vyne/scheduler.py)
-- stages that candidate, reserves its revision, and makes it the accepted state when the native
-- side acknowledges it; a rejection or a failed send discards it. Beside it, the journal undoes
-- the state writes of a failed flush, the acknowledgement map suppresses writes that echo what the
-- user just did, and the pass guard bounds the passes of a flush. The protocol validates the
-- messages that cross to the native side and back; where the native state is unknown, recovery
-- sends a complete snapshot of the tree. A virtual list (packages/vyne/src/vyne/_lists) plans
-- which of its cells stand in the desired tree.
--
-- The files.
--   Common and below: Boolean tests, lists over the native numbers, dicts as association lists,
--     exceptions as values (Result), Python integers with a sign (ℤ).
--   Scheduler/Coordinator, Scheduler/Promotion: CommitCoordinator, one function per method, on a
--     record of its fields; Scheduler/Commands: every call as one step, and runs of calls;
--     Commands/Safety, Commands/Recovery and Commands/Lifecycle: the theorems, and the receipts as
--     Runtime.acknowledge_native_apply hands them on. Scheduler/Journal: StateJournal over a heap
--     of cells. Scheduler/Acks: AcknowledgementMap. Scheduler/Passes: PassGuard.
--   Reconcile/Model: the types of render_model.py and the canonical element. Reconcile/Shadow:
--     _ParentShadow; Shadow/Indexing and Shadow/Edits: its dict against its list.
--     Reconcile/Planner and Reconcile/Diff: _ReconcilePlanner, the planner's mutable fields passed
--     along by a small monad in which an exception ends the plan. Reconcile/Native: the reference
--     applier of tests/support/native_model.py. Reconcile/Effects: what each operation changes of
--     it. Reconcile/Simulation and Reconcile/Steps: planner and native model in step.
--     Reconcile/Trees: a tree stands in the native model. Reconcile/Create, Growth, Created and
--     Mount: creation of a subtree, and the first plan.
--   VirtualLists/Geometry, VirtualLists/Requests, VirtualLists/FixedLinear and
--     VirtualLists/Selection: _lists/contracts.py. VirtualLists/Source: _lists/source.py, the
--     canonical keys of values.py and the key checks of _lists/generic.py.
--   Protocol/Values: the JSON values of a message. Protocol/Checks, Operations, Motion, Commits
--     and Events: the validators of packages/vyne/src/vyne/protocol.py, one function each.
--     Protocol/Encoding: the dicts of planned operations and the error commits. Protocol/Bridge
--     and below: _validate_bridge_value, on containers with identity that may contain themselves.
--   Motion/Specs and Motion/Commands: motion.py, the constructors with their checks and
--     motion_command_to_dict. Motion/Domains, Constructed, Cancelling, Lowered, Validity,
--     DriverValidity and Sending: their operations against the validators.
--   Recovery/Sorting and Recovery/Snapshots: build_snapshot_commit of recovery.py.
--     Recovery/Listening, Placing and Rebuild: its operations run on the native model.
--     Recovery/Validity: against the validators. Recovery/States: RecoveryState,
--     _FrameworkTransaction.transition_to, and what Runtime.acknowledge_native_apply,
--     report_native_failure, _send_commit and _send_error_commit do to the state, the revision,
--     the fault counter and the coordinator, with the ends of _validate_commit and transport.send
--     as arguments and the state beside an exception. Recovery/Faults and Recovery/Acks: error
--     commits and acknowledgements one after the other. Recovery/Publishing: a commit from its
--     sending to its acknowledgement. Recovery/Resync: planning and recovery together.
--   PathData and below: compile_path_data of path_data.py, from the tokens on.
--   FrozenMap and below: FrozenMap of values.py.
--   The modules named Examples hold runs on concrete inputs.
--
-- Choices. Nodes, refs, registries and bindings that the coordinator only carries are type
-- parameters, and so are the keys and property values of a tree. Object identity is an address.
-- The coordinates of lists, finite non-negative floats in Python, are modelled where they are
-- whole numbers: sums and products are taken as exact, which they are below 2^53, and quotients
-- are rounded as floats are (VirtualLists/FixedLinear/Quotients); the theorems that depend on it
-- say so (2^53, or 2^24 where distances are squared), and fractional coordinates are not modelled.
-- In a message, floating-point numbers are a type parameter with the tests that the validators
-- make (Floats), and the registry of kinds, properties and events, which extensions fill at run
-- time, is a record of its answers (Registry).
--
-- Loops are structural recursion, or have fuel. The stack loop by which the reference applier
-- removes a subtree has fuel for its visits: each node is visited once, so the number of nodes is
-- enough; the theorems on it hold for any fuel, as their runs remove nothing or assume that the
-- clearing succeeds. The digits of a number in a slot key are found with one more than the number
-- as fuel. The validation of bridge values has the room on Python's stack as fuel, and raises
-- RecursionError without it; one call more than there are containers is enough. The loops over the
-- tokens of a path have fuel for two rounds a token.
--
-- Not modelled: lowering, the runtime's rendering, callbacks, threads and timers, the transports,
-- animation expressions, the planning of list windows, the schema, the command line, the Android
-- host, and messages of exceptions; the tokens of a path, which a regular expression over Unicode
-- text finds, and hashes. They are tables, I/O, or code that drives the parts above and is left
-- for later.
pub mod Common
pub mod FrozenMap
pub mod Motion
pub mod PathData
pub mod Protocol
pub mod Reconcile
pub mod Recovery
pub mod Scheduler
pub mod VirtualLists
