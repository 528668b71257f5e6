-- ===== src/Scheduler/Coordinator.antt =====
-- `CommitCoordinator` of packages/vyne/src/vyne/scheduler.py. The coordinator never looks into
-- the nodes, refs, registries and bindings that it carries, so their types are parameters; a
-- dict that is only copied is one value. A method that raises does so before it assigns.
use vyne.Common.Ints
use vyne.Common.{
  Bool, List, Option, Result, [], false, if◌then◌else◌, is_some, none, not, ok, raise,
  runtime_error, some, true, ℕ, ◌&&◌, ◌||◌,
}
use vyne.Common.Ints.{negsuc, pos, ℤ}

-- `_AcceptedState`
pub record AcceptedState (Node : Type 0) : Type 0 where
  pub root : Option Node
  pub node_index : List (ℕ × Node)
  pub revision : ℤ
  pub next_node_id : ℕ

-- The fields of `CommitCoordinator`. A ref map and the imperative bindings are dicts.
pub record Coordinator (Node Ref Registry Binding : Type 0) : Type 0 where
  pub accepted : Option (AcceptedState Node)
  pub next_node_id : ℕ
  pub in_flight_revision : ℤ
  pub candidate_root : Option Node
  pub candidate_index : Option (List (ℕ × Node))
  pub candidate_ref_map : Option (List (ℕ × Ref))
  pub candidate_event_registry : Option Registry
  pub candidate_imperative_bindings : Option (List (ℕ × Binding))
  pub ref_map : List (ℕ × Ref)
  pub accepted_event_registry : Option Registry
  pub imperative_bindings : List (ℕ × Binding)
  pub last_ref_transition : Option (List (ℕ × Ref) × List (ℕ × Ref))
  pub last_imperative_transition : Option (List (ℕ × Binding) × List (ℕ × Binding))
  pub provisional : Bool
  pub held_ack_revision : Option ℤ

-- `d or {}` and `d if d is not None else other`, of an optional dict.
abbrev pub or_else {ℓ} : {A : Type ℓ} → Option A → A → A
or_else none d = d
or_else (some a) d = a

abbrev pub held_is : Option ℤ → ℤ → Bool
held_is none revision = false
held_is (some held) revision = Ints.eq held revision

module _ {Node Ref Registry Binding : Type 0} where
  -- `__init__`
  unfoldable pub init : Coordinator Node Ref Registry Binding
  init = record {
    accepted = none;
    next_node_id = 1;
    in_flight_revision = pos 0;
    candidate_root = none;
    candidate_index = none;
    candidate_ref_map = none;
    candidate_event_registry = none;
    candidate_imperative_bindings = none;
    ref_map = [];
    accepted_event_registry = none;
    imperative_bindings = [];
    last_ref_transition = none;
    last_imperative_transition = none;
    provisional = false;
    held_ack_revision = none;
  }

module _ {Node Ref Registry Binding : Type 0} (c : Coordinator Node Ref Registry Binding) where
  unfoldable pub accepted_root : Option Node
  accepted_root = elim c.accepted [ none ↦ none | some a ↦ a.root ]

  unfoldable pub accepted_index : List (ℕ × Node)
  accepted_index = elim c.accepted [ none ↦ [] | some a ↦ a.node_index ]

  unfoldable pub accepted_revision : ℤ
  accepted_revision = elim c.accepted [ none ↦ pos 0 | some a ↦ a.revision ]

  -- `in_flight`
  unfoldable pub in_flight : Bool
  in_flight = Ints.is_positive c.in_flight_revision

  unfoldable pub desired_imperative_bindings : List (ℕ × Binding)
  desired_imperative_bindings = or_else c.candidate_imperative_bindings c.imperative_bindings

  -- `self._candidate_root or self.accepted_root`: a node is always true.
  unfoldable pub desired_root : Option Node
  unfolding accepted_root
  desired_root = elim c.candidate_root [ none ↦ accepted_root | some root ↦ some root ]

  -- `candidate_index`
  unfoldable pub staged_index : List (ℕ × Node)
  staged_index = or_else c.candidate_index []

  unfoldable pub has_candidate : Bool
  has_candidate = is_some c.candidate_root

  -- `stage_candidate`, its keyword arguments `none` where they are left out.
  unfoldable pub stage_candidate :
      Option Node
      → List (ℕ × Node)
      → ℕ
      → Option (List (ℕ × Ref))
      → Option Registry
      → Option (List (ℕ × Binding))
      → Result (Coordinator Node Ref Registry Binding)
  unfolding in_flight
  stage_candidate root node_index next_node_id ref_map event_registry imperative_bindings =
      if in_flight
      then raise runtime_error
      else (ok (record c {
        candidate_root = root;
        candidate_index = some node_index;
        next_node_id = next_node_id;
        candidate_ref_map = some (or_else ref_map c.ref_map);
        candidate_event_registry = event_registry;
        candidate_imperative_bindings = some (or_else imperative_bindings c.imperative_bindings);
      }))

  -- `_discard_candidate`
  unfoldable pub discard_candidate : Coordinator Node Ref Registry Binding
  discard_candidate = record c {
    candidate_root = none;
    candidate_index = none;
    candidate_ref_map = none;
    candidate_event_registry = none;
    candidate_imperative_bindings = none;
    next_node_id = elim c.accepted [ none ↦ 1 | some a ↦ a.next_node_id ];
  }

  unfoldable pub discard_staged : Coordinator Node Ref Registry Binding
  unfolding in_flight discard_candidate
  discard_staged = if in_flight then c else discard_candidate

  -- `_reserve_provisional`
  unfoldable pub reserve_provisional : ℤ → Coordinator Node Ref Registry Binding
  reserve_provisional revision = record c {
    in_flight_revision = revision;
    provisional = true;
    held_ack_revision = none;
  }

  unfoldable pub reserve_send : ℤ → Result (Coordinator Node Ref Registry Binding)
  unfolding in_flight has_candidate reserve_provisional
  reserve_send revision =
      if not has_candidate || in_flight
      then raise runtime_error
      else ok (reserve_provisional revision)

  unfoldable pub reserve_effect_send : ℤ → Result (Coordinator Node Ref Registry Binding)
  unfolding in_flight has_candidate reserve_provisional
  reserve_effect_send revision =
      if has_candidate || in_flight then raise runtime_error else ok (reserve_provisional revision)

  unfoldable pub hold_provisional_ack : ℤ → Coordinator Node Ref Registry Binding × Bool
  hold_provisional_ack revision =
      if c.provisional && Ints.eq revision c.in_flight_revision
      then (record c { held_ack_revision = some revision }, true)
      else (c, false)

  unfoldable pub finish_send : ℤ → Result (Coordinator Node Ref Registry Binding × Bool)
  finish_send revision =
      if not c.provisional || not (Ints.eq revision c.in_flight_revision)
      then raise runtime_error
      else (ok (
        record c { provisional = false; held_ack_revision = none },
        held_is c.held_ack_revision revision,
      ))

  -- The body that `abort_send` and `reject_known` share.
  unfoldable pub abort_send : ℤ → Coordinator Node Ref Registry Binding × Bool
  unfolding discard_candidate
  abort_send revision = if not (Ints.eq revision c.in_flight_revision) then (c, false) else (
    record discard_candidate {
      in_flight_revision = pos 0;
      provisional = false;
      held_ack_revision = none;
    },
    true,
  )

  unfoldable pub reject_known : ℤ → Coordinator Node Ref Registry Binding × Bool
  unfolding discard_candidate
  reject_known revision = if not (Ints.eq revision c.in_flight_revision) then (c, false) else (
    record discard_candidate {
      in_flight_revision = pos 0;
      provisional = false;
      held_ack_revision = none;
    },
    true,
  )
