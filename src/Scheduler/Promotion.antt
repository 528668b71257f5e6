-- ===== src/Scheduler/Promotion.antt =====
-- `CommitCoordinator` of packages/vyne/src/vyne/scheduler.py: promotion, reset and the cleanup of
-- refs and bindings.
use vyne.Common.Ints
use vyne.Common.{Bool, List, Option, [], false, if◌then◌else◌, map, none, not, some, true, ℕ, ◌||◌}
use vyne.Common.Ints.{negsuc, pos, ℤ}
use vyne.Scheduler.Coordinator.{
  Coordinator, accepted_revision, discard_candidate, has_candidate, in_flight, or_else,
}

module _ {Node Ref Registry Binding : Type 0} (c : Coordinator Node Ref Registry Binding) where
  -- The branch of `promote` for a staged candidate.
  unfoldable pub promote_candidate : ℤ → Coordinator Node Ref Registry Binding
  promote_candidate revision =
      let new_refs = or_else c.candidate_ref_map [] in
      let new_bindings = or_else c.candidate_imperative_bindings [] in
      record c {
        ref_map = new_refs;
        imperative_bindings = new_bindings;
        accepted_event_registry = c.candidate_event_registry;
        accepted = some (record {
          root = c.candidate_root;
          node_index = or_else c.candidate_index [];
          revision = revision;
          next_node_id = c.next_node_id;
        });
        last_ref_transition = some (c.ref_map, new_refs);
        last_imperative_transition = some (c.imperative_bindings, new_bindings);
        candidate_root = none;
        candidate_index = none;
        candidate_ref_map = none;
        candidate_event_registry = none;
        candidate_imperative_bindings = none;
      }

  -- The branch of `promote` for an effect-only commit.
  unfoldable pub promote_effect : ℤ → Coordinator Node Ref Registry Binding
  promote_effect revision = elim c.accepted [
    | none ↦ c
    | some a ↦ record c {
      accepted = some (record {
        root = a.root;
        node_index = a.node_index;
        revision = revision;
        next_node_id = c.next_node_id;
      });
    }
  ]

  unfoldable pub promote : ℤ → Coordinator Node Ref Registry Binding × Bool
  unfolding has_candidate promote_candidate promote_effect
  promote revision =
      if not (Ints.eq revision c.in_flight_revision) || c.provisional
      then (c, false)
      else let c' =
          if has_candidate c then promote_candidate revision else promote_effect revision in
        (record c' { in_flight_revision = pos 0 }, true)

module _ {Node Ref Registry Binding : Type 0} (c : Coordinator Node Ref Registry Binding) where
  unfoldable pub promote_local : Coordinator Node Ref Registry Binding × Bool
  unfolding has_candidate in_flight accepted_revision promote
  promote_local =
      if not (has_candidate c) || in_flight c
      then (c, false)
      else let revision = accepted_revision c in
        let reserved = if Ints.is_positive revision then revision else negsuc 0 in
        promote (record c { in_flight_revision = reserved }) reserved

  unfoldable pub take_ref_transition :
      Coordinator Node Ref Registry Binding × Option (List (ℕ × Ref) × List (ℕ × Ref))
  take_ref_transition = (record c { last_ref_transition = none }, c.last_ref_transition)

  unfoldable pub take_imperative_transition :
      Coordinator Node Ref Registry Binding × Option (List (ℕ × Binding) × List (ℕ × Binding))
  take_imperative_transition =
      (record c { last_imperative_transition = none }, c.last_imperative_transition)

  unfoldable pub report_unknown : Coordinator Node Ref Registry Binding
  report_unknown = record c { in_flight_revision = pos 0 }

  unfoldable pub reset_accepted : Coordinator Node Ref Registry Binding
  unfolding discard_candidate
  reset_accepted = record (discard_candidate (record c { accepted = none })) {
    accepted_event_registry = none;
    ref_map = [];
    imperative_bindings = [];
    last_ref_transition = none;
    last_imperative_transition = none;
    in_flight_revision = pos 0;
    provisional = false;
    held_ack_revision = none;
  }

  -- The dict of refs is emptied in place. It is the new one of the last transition, if there is one:
  -- `promote` alone sets both, and whatever else sets one of them drops the transition.
  unfoldable pub clear_all_refs : Coordinator Node Ref Registry Binding × List Ref
  clear_all_refs = (
    record c {
      ref_map = [];
      candidate_ref_map = none;
      last_ref_transition = elim c.last_ref_transition [
        | none ↦ none
        | some (old_refs, new_refs) ↦ some (old_refs, [])
      ];
    },
    map (λ entry. entry.1) c.ref_map,
  )

  -- The dict of bindings is emptied in place too; the transition that may share it is dropped.
  unfoldable pub clear_all_imperative_bindings : Coordinator Node Ref Registry Binding × List ℕ
  clear_all_imperative_bindings = (
    record c {
      imperative_bindings = [];
      candidate_imperative_bindings = none;
      last_imperative_transition = none;
    },
    map (λ entry. entry.0) c.imperative_bindings,
  )
