-- ===== src/Scheduler/Commands/Recovery.antt =====
-- The coordinator (packages/vyne/src/vyne/scheduler.py) after a native failure of unknown outcome:
-- the candidate is kept and sent again under a new revision.
use vyne.Common.Ints
use vyne.Common.{[], arith, false, none, ok, raise, runtime_error, some, suc, true, ℕ, ◌≡◌}
use vyne.Common.Ints.{negsuc, pos, ℤ}
use vyne.Scheduler.Coordinator.{
  Coordinator, accepted_revision, finish_send, has_candidate, in_flight, or_else, reject_known,
  reserve_send,
}
use vyne.Scheduler.Promotion.{promote, promote_local, report_unknown}

module _ {Node Ref Registry Binding : Type 0} where
  -- A staged candidate is in flight and the native side reports an unknown outcome. Then an
  -- acknowledgement and a rejection of the lost revision answer False and change nothing. A new
  -- revision can be reserved, finished and acknowledged at once, and that accepts exactly the
  -- candidate that was lost: its tree, index and id counter under the new revision, its refs and
  -- its bindings, with nothing staged, provisional or in flight.
  pub promote-report_unknown :
      (c : Coordinator Node Ref Registry Binding) (new : ℤ)
      → has_candidate c ≡ true
      → in_flight c ≡ true
      → let lost = report_unknown c in
        (promote lost c.in_flight_revision ≡ (lost, false))
        × (reject_known lost c.in_flight_revision ≡ (lost, false))
        × (sent : Coordinator Node Ref Registry Binding) × (finished : Coordinator Node Ref Registry
            Binding)
        × (final : Coordinator Node Ref Registry Binding) × (reserve_send lost new ≡ ok sent)
        × (finish_send sent new ≡ ok (finished, false))
        × (promote finished new ≡ (final, true))
        × (final.accepted
            ≡ some (record {
              root = c.candidate_root;
              node_index = or_else c.candidate_index [];
              revision = new;
              next_node_id = c.next_node_id;
            }))
        × (final.ref_map ≡ or_else c.candidate_ref_map [])
        × (final.imperative_bindings ≡ or_else c.candidate_imperative_bindings [])
        × (has_candidate final ≡ false)
        × (final.provisional ≡ false)
        × (in_flight final ≡ false)
  unfolding has_candidate in_flight report_unknown reserve_send finish_send promote reject_known
  promote-report_unknown c new h f =
      let sent = record c {
        in_flight_revision = new;
        provisional = true;
        held_ack_revision = none;
      } in
      let finished = record sent { provisional = false } in
      let final = (promote finished new).0 in
      let accepts = Ints.eq_refl new in
      (
        ground arith,
        ground arith,
        sent,
        finished,
        final,
        ground arith,
        ground (arith, accepts),
        ground (arith, accepts),
        ground (arith, accepts),
        ground (arith, accepts),
        ground (arith, accepts),
        ground (arith, accepts),
        ground (arith, accepts),
        ground (arith, accepts),
      )

  -- A send of a positive revision is reserved, and before `send` returns the native side rejects
  -- the revision or reports an unknown outcome. Either way `finish_send` then raises RuntimeError.
  -- After the rejection the send is no longer provisional. After the unknown outcome it still is,
  -- so a local promotion of the kept candidate answers False, and where the accepted revision is
  -- positive it leaves that revision in flight.
  pub finish_send-lost :
      (c sent : Coordinator Node Ref Registry Binding) (n : ℕ)
      → reserve_send c (pos (suc n)) ≡ ok sent
      → let rejected = (reject_known sent (pos (suc n))).0 in
        let lost = report_unknown sent in
        (finish_send rejected (pos (suc n)) ≡ raise runtime_error)
        × (finish_send lost (pos (suc n)) ≡ raise runtime_error)
        × (rejected.provisional ≡ false)
        × (lost.provisional ≡ true)
        × ((promote_local lost).1 ≡ false)
        × (in_flight (promote_local lost).0 ≡ Ints.is_positive (accepted_revision c))
  unfolding has_candidate in_flight report_unknown reserve_send finish_send promote reject_known
      promote_local
  finish_send-lost c sent n h =
      let r = Ints.eq_refl (pos (suc n)) in
      (
        ground (arith, r),
        ground (arith, r),
        ground (arith, r),
        ground (arith, r),
        ground (arith, r),
        ground (arith, r),
      )
