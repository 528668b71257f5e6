-- ===== src/Scheduler/Examples.antt =====
-- Runs of the coordinator, the journal, the acknowledgement map and the pass guard
-- (packages/vyne/src/vyne/scheduler.py). Nodes, refs, registries and bindings are numbers.
use vyne.Common.{
  ℕ, raise, runtime_error, ◌==◌, ◌≤◌, true, false, none, some, List, [], ◌∷◌, ok, ◌≡◌, ◌↔◌, refl,
  arith,
}
use vyne.Common.Ints.{ℤ, pos}
use vyne.Scheduler.Coordinator
use vyne.Scheduler.Coordinator.{
  Coordinator, abort_send, accepted_revision, finish_send, has_candidate, in_flight, reject_known,
  reserve_send, stage_candidate,
}
use vyne.Scheduler.Promotion.{promote, promote_local, report_unknown}
use vyne.Scheduler.Commands.{Command, stage, reserve, ack, abort, step, run}
use vyne.Scheduler.Commands.Safety.{IsValid, run-accepted, step-IsValid}
use vyne.Scheduler.Commands.Recovery.{finish_send-lost, promote-report_unknown}
use vyne.Scheduler.Commands.Lifecycle.{Renderer, publish, promote-stage, reject-stage}
use vyne.Scheduler.Journal.{StateJournal, begin, commit, rollback}
use vyne.Scheduler.Journal.Rollback.{set, set_from, apply_all, rollback_lem}
use vyne.Common.Maps.{lookup}
use vyne.Scheduler.Acks.{should_suppress, acknowledged_value, extract_acknowledgements}
use vyne.Scheduler.Acks.Suppression.{should_suppress-extract}
use vyne.Scheduler.Passes.{begin_flush, enter_passes, enter_passes-begin_flush}

abbrev Numbered : Type 0
Numbered = Coordinator ℕ ℕ ℕ ℕ

abbrev idle : Numbered
idle = Coordinator.init

-- The tree 7 of one node was accepted at revision 3.
abbrev accepted : Numbered
accepted = record idle {
  accepted =
      some (record { root = some 7; node_index = (1, 7) ∷ []; revision = pos 3; next_node_id = 2 });
  next_node_id = 2;
}

accepted-IsValid : IsValid accepted
unfolding Coordinator.init
accepted-IsValid = record {
  held_provisional = λ h. refl;
  index_empty = λ h. refl;
  ref_map_empty = λ h. refl;
  registry_empty = λ h. refl;
  bindings_empty = λ h. refl;
  next_accepted = λ h. refl;
}

abbrev renderer : Renderer
renderer = record { disposed = false; awaiting_apply = true; revision = pos 4 }

-- The receipts of the revisions 2 and 4 arrive while revision 4 is sent.
abbrev receipts : List (Renderer × ℤ)
receipts = (renderer, pos 2) ∷ (renderer, pos 4) ∷ []

promote-stage_example :
    publish accepted (pos 4) receipts 8 ((1, 8) ∷ []) 3 ((0, 5) ∷ []) none []
    ≡ ok (
      (
        record accepted {
          accepted = some (record {
            root = some 8;
            node_index = (1, 8) ∷ [];
            revision = pos 4;
            next_node_id = 3;
          });
          next_node_id = 3;
          ref_map = (0, 5) ∷ [];
          last_ref_transition = some ([], (0, 5) ∷ []);
          last_imperative_transition = some ([], []);
        },
        true,
      ),
      true,
    )
unfolding Coordinator.init Coordinator.in_flight
promote-stage_example =
    promote-stage accepted (pos 4) receipts 8 ((1, 8) ∷ []) 3 ((0, 5) ∷ []) none [] refl

reject-stage_example :
    (staged : Numbered) × (sent : Numbered) × (stage_candidate accepted
        (some 8)
        ((1, 8) ∷ [])
        3
        none
        none
        none
      ≡ ok staged)
    × (reserve_send staged (pos 4) ≡ ok sent)
    × (reject_known sent (pos 4) ≡ (accepted, true))
    × (abort_send sent (pos 4) ≡ (accepted, true))
unfolding Coordinator.init
reject-stage_example =
    reject-stage accepted (pos 4) 8 ((1, 8) ∷ []) 3 none none none accepted-IsValid refl refl refl

-- Revision 4 was sent with the tree 8, and the native side does not know what became of it.
abbrev unsure : Numbered
unsure = record accepted {
  candidate_root = some 8;
  candidate_index = some ((1, 8) ∷ []);
  next_node_id = 3;
  in_flight_revision = pos 4;
}

promote-report_unknown_example :
    let lost = report_unknown unsure in
    (promote lost (pos 4) ≡ (lost, false))
    × (reject_known lost (pos 4) ≡ (lost, false))
    × (sent : Numbered) × (finished : Numbered) × (final : Numbered) × (reserve_send lost (pos 5)
        ≡ ok sent)
    × (finish_send sent (pos 5) ≡ ok (finished, false))
    × (promote finished (pos 5) ≡ (final, true))
    × (final.accepted
        ≡ some (record {
          root = some 8;
          node_index = (1, 8) ∷ [];
          revision = pos 5;
          next_node_id = 3;
        }))
    × (final.ref_map ≡ [])
    × (final.imperative_bindings ≡ [])
    × (has_candidate final ≡ false)
    × (final.provisional ≡ false)
    × (in_flight final ≡ false)
unfolding Coordinator.init has_candidate in_flight
promote-report_unknown_example = promote-report_unknown unsure (pos 5) refl refl

-- The tree 8 is staged, and its send as revision 4 is reserved.
abbrev staged : Numbered
staged = record unsure { in_flight_revision = pos 0 }

abbrev reserved : Numbered
reserved = record unsure { provisional = true }

finish_send-lost_example :
    let rejected = (reject_known reserved (pos 4)).0 in
    let lost = report_unknown reserved in
    (finish_send rejected (pos 4) ≡ raise runtime_error)
    × (finish_send lost (pos 4) ≡ raise runtime_error)
    × (rejected.provisional ≡ false)
    × (lost.provisional ≡ true)
    × ((promote_local lost).1 ≡ false)
    × (in_flight (promote_local lost).0 ≡ true)
unfolding Coordinator.init has_candidate in_flight reserve_send accepted_revision
finish_send-lost_example = finish_send-lost staged reserved 3 refl

-- A stale receipt, and an abort of the send.
abbrev calls : List (Command ℕ ℕ ℕ ℕ)
calls =
    stage (some 8) ((1, 8) ∷ []) 3 none none none
    ∷ reserve (pos 4)
    ∷ ack (pos 3)
    ∷ abort (pos 4)
    ∷ []

run-accepted_example : (run calls accepted).accepted ≡ accepted.accepted
unfolding Coordinator.init step Coordinator.in_flight stage_candidate reserve_send abort_send
run-accepted_example = run-accepted calls accepted (λ h. h, (λ h. h, (ground arith, (λ h. h, tt))))

step-IsValid_example : IsValid (step (stage (some 8) ((1, 8) ∷ []) 3 none none none) accepted)
step-IsValid_example =
    step-IsValid (stage (some 8) ((1, 8) ∷ []) 3 none none none) accepted refl accepted-IsValid

abbrev cells : ℕ → ℕ
cells c = 10

abbrev stopped : StateJournal ℕ
stopped = record { entries = []; active = false }

-- Two writes of the cell 1, the first by an event, and one of the cell 2 with its own baseline.
rollback_lem_example :
    let (after, values) =
      apply_all (set 1 11 ∷ set_from 2 9 20 ∷ set 1 12 ∷ []) (begin stopped, cells) in
    (values 2 ≡ 20)
    × ((rollback after values).1 2 ≡ 9)
    × ((rollback after values).0 ≡ stopped)
    × (commit after ≡ stopped)
rollback_lem_example = rollback_lem stopped cells (set 1 11 ∷ set_from 2 9 20 ∷ set 1 12 ∷ []) 2

-- The user typed 5 into the field 3, whose `text` and `value` are controlled.
should_suppress-extract_example :
    should_suppress ◌==◌ 3 "value" 5 (
      extract_acknowledgements
        (("change", ("text", "value") ∷ []) ∷ [])
        "change"
        3
        (("text", some 5) ∷ [])
        [])
    ≡ true
unfolding lookup acknowledged_value
should_suppress-extract_example =
    should_suppress-extract ◌==◌ (("change", ("text", "value") ∷ []) ∷ []) "change" 3
      (("text", some 5) ∷ []) [] 3 "value" 5

enter_passes-begin_flush_example :
    (((enter_passes 6 (begin_flush (record { pass_count = 4 }))).1 ≡ ok tt) ↔ (6 ≤ 5))
    × ((enter_passes 6 (begin_flush (record { pass_count = 4 }))).0.pass_count ≤ 6)
enter_passes-begin_flush_example = enter_passes-begin_flush 6 (record { pass_count = 4 })
