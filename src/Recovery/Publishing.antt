-- ===== src/Recovery/Publishing.antt =====
-- A staged candidate from its sending to its acknowledgement (`_send_commit` and
-- `acknowledge_native_apply` of packages/vyne/src/vyne/runtime.py).
use vyne.Common.Ints
use vyne.Common.{
  Bool, List, Option, Result, not, raise, false, if◌then◌else◌, none, ok, true, ◌||◌, ◌≡◌,
}
use vyne.Common.Ints.{pos, ℤ}
use vyne.Recovery.Acks.{acknowledged, received}
use vyne.Recovery.States.{
  Runtime, acknowledge_all, awaiting_apply, is_revision, needs_reset, same, synced,
}
use vyne.Scheduler.Coordinator.{discard_candidate, has_candidate, in_flight}

module _ {Node Ref Registry Binding : Type 0} where
  -- Between commits: in step, or with a snapshot to send.
  abbrev pub IsBetween : Runtime Node Ref Registry Binding → Type 0
  IsBetween r =
      (is_revision r.revision ≡ true)
      × ((same r.recovery_state synced || same r.recovery_state needs_reset) ≡ true)

  abbrev with_held :
      Runtime Node Ref Registry Binding → Option ℤ → Runtime Node Ref Registry Binding
  with_held r held = record r { coordinator = record r.coordinator { held_ack_revision = held } }

  -- The runtime that has sent its candidate and waits for the acknowledgement.
  abbrev pub waiting : Runtime Node Ref Registry Binding → Runtime Node Ref Registry Binding
  waiting r = record r {
    coordinator = record r.coordinator {
      in_flight_revision = Ints.add_one r.revision;
      provisional = false;
      held_ack_revision = none;
    };
    recovery_state = awaiting_apply;
    revision = Ints.add_one r.revision;
  }

  -- The runtime whose send has failed: nothing staged, nothing in flight, and still between commits.
  abbrev pub dropped : Runtime Node Ref Registry Binding → Runtime Node Ref Registry Binding
  dropped r = record r {
    coordinator = record (discard_candidate r.coordinator) {
      in_flight_revision = pos 0;
      provisional = false;
      held_ack_revision = none;
    };
  }

  abbrev reserved : Runtime Node Ref Registry Binding → Runtime Node Ref Registry Binding
  reserved r = record r {
    coordinator = record r.coordinator {
      in_flight_revision = Ints.add_one r.revision;
      provisional = true;
      held_ack_revision = none;
    };
  }

  abbrev IsStaged : Bool → Runtime Node Ref Registry Binding → Type 0
  IsStaged effect_only r =
      (has_candidate r.coordinator ≡ not effect_only) × (in_flight r.coordinator ≡ false)

  -- What a send leaves behind, and what the acknowledgements after it do.
  abbrev pub Leaves :
      Result (Unit {0})
      → Result (Unit {0})
      → (during after : List ℤ) → (r r' : Runtime Node Ref Registry Binding) → Type 0
  Leaves (raise e) outcome during after r r' = r' ≡ r
  Leaves (ok done) (raise e) during after r r' =
      (r' ≡ dropped r) × (acknowledge_all after r' ≡ ok r')
  Leaves (ok done) (ok sent) during after r r' =
      acknowledge_all after r'
      ≡ ok (
          if received (Ints.add_one r.revision) during || received (Ints.add_one r.revision) after
          then acknowledged (waiting r)
          else waiting r)
