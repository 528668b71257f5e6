-- ===== src/Recovery/States.antt =====
-- The recovery states (packages/vyne/src/vyne/recovery.py) and what moves the runtime between them
-- (packages/vyne/src/vyne/runtime.py): sending a commit, the native outcomes, and error commits. Of
-- the runtime, the coordinator, the recovery state, the latest revision and the fault counter.
-- Journals and their rollback, checkpoints, animations and the renders that an outcome schedules
-- stand beside it. What `_validate_commit` and `transport.send` do is an argument: how they end.
use vyne.Common.Ints
use vyne.Common.{
  Bool, Exception, List, Result, [], false, if◌then◌else◌, is_some, ltb, not, ok, raise,
  runtime_error, suc, true, type_error, ℕ, ◌&&◌, ◌>>=◌, ◌>>◌, ◌||◌, ◌∷◌,
}
use vyne.Common.Ints.{negsuc, pos, ℤ}
use vyne.Scheduler.Coordinator.{
  Coordinator, abort_send, accepted_root, discard_staged, finish_send, hold_provisional_ack,
  reject_known, reserve_effect_send, reserve_send,
}
use vyne.Scheduler.Promotion.{clear_all_refs, promote, report_unknown, reset_accepted}

pub data RecoveryState : Type 0 where
  synced awaiting_apply needs_reset faulted disposed : RecoveryState

abbrev pub same : RecoveryState → RecoveryState → Bool
same synced synced = true
same awaiting_apply awaiting_apply = true
same needs_reset needs_reset = true
same faulted faulted = true
same disposed disposed = true
same _ _ = false

-- `_RECOVERY_TRANSITIONS`: whether the second may follow the first.
unfoldable pub may_follow : RecoveryState → RecoveryState → Bool
may_follow synced next = not (same next synced)
may_follow awaiting_apply next = not (same next awaiting_apply)
may_follow needs_reset next = not (same next needs_reset)
may_follow faulted next = same next needs_reset || same next disposed
may_follow disposed next = same next disposed

-- `transition_to`
unfoldable pub transition_to : RecoveryState → RecoveryState → Result RecoveryState
unfolding may_follow
transition_to next current =
    if same next current
    then ok current
    else (if may_follow current next then ok next else raise runtime_error)

-- `_max_consecutive_faults`
abbrev pub max_consecutive_faults : ℕ
max_consecutive_faults = 5

pub record Runtime (Node Ref Registry Binding : Type 0) : Type 0 where
  pub coordinator : Coordinator Node Ref Registry Binding
  pub recovery_state : RecoveryState
  pub revision : ℤ
  pub consecutive_faults : ℕ

-- `revision >= 0`
abbrev pub is_revision : ℤ → Bool
is_revision (pos n) = true
is_revision (negsuc n) = false

abbrev is_type_error : Exception → Bool
is_type_error type_error = true
is_type_error _ = false

-- The end of `_send_error_commit` below the bound: whether `transport.send` is called, and how it all
-- ends. A commit that `_validate_commit` refuses by a TypeError gives way to the fallback.
abbrev pub publish : Result (Unit {0}) × Result (Unit {0}) → Bool × Result (Unit {0})
publish (ok done, outcome) = (true, outcome)
publish (raise e, outcome) = if is_type_error e then (true, outcome) else (false, raise e)

module _ {Node Ref Registry Binding : Type 0} where
  abbrev pub moved :
      RecoveryState
      → Runtime Node Ref Registry Binding
      → Coordinator Node Ref Registry Binding
      → Result (Runtime Node Ref Registry Binding)
  moved next r c = do
    state ← transition_to next r.recovery_state
    ok (record r { recovery_state = state; coordinator = c })

  -- `acknowledge_native_apply`
  unfoldable pub acknowledge :
      ℤ → Runtime Node Ref Registry Binding → Result (Runtime Node Ref Registry Binding)
  unfolding transition_to hold_provisional_ack promote
  acknowledge revision r =
      if same r.recovery_state disposed || not (is_revision revision)
      then ok r
      else (let (c, held) = hold_provisional_ack r.coordinator revision in
          if held
          then ok (record r { coordinator = c })
          else (if not (Ints.eq revision r.revision) || not (same r.recovery_state awaiting_apply)
              then ok r
              else (let (c', promoted) = promote r.coordinator revision in
                  if promoted then moved synced r c' else ok r)))

  -- `report_native_failure`, with its flag `unknown`.
  unfoldable pub report_failure :
      ℤ → Bool → Runtime Node Ref Registry Binding → Result (Runtime Node Ref Registry Binding)
  unfolding transition_to report_unknown reject_known
  report_failure revision unknown r =
      if same r.recovery_state disposed
        || not (is_revision revision)
        || not (Ints.eq revision r.coordinator.in_flight_revision)
      then ok r
      else (if unknown
          then moved needs_reset r (report_unknown r.coordinator)
          else (let (c, rejected) = reject_known r.coordinator revision in
              if rejected then moved synced r c else ok r))

  -- Acknowledgements that arrive one after the other.
  unfoldable pub acknowledge_all :
      List ℤ → Runtime Node Ref Registry Binding → Result (Runtime Node Ref Registry Binding)
  unfolding acknowledge
  acknowledge_all [] r = ok r
  acknowledge_all (revision ∷ revisions) r = acknowledge revision r >>= acknowledge_all revisions

  -- `transition_to` for its state beside the exception: the runtime as it is when the change is
  -- refused.
  abbrev enter :
      RecoveryState
      → Runtime Node Ref Registry Binding
      → Runtime Node Ref Registry Binding × Result (Unit {0})
  enter next r = elim (transition_to next r.recovery_state) [
    | ok state ↦ (record r { recovery_state = state }, ok tt)
    | raise e ↦ (r, raise e)
  ]

  -- The `except` branch around `transport.send`: the reservation is aborted, and the exception
  -- raised again.
  unfoldable pub fail_commit :
      ℤ → Runtime Node Ref Registry Binding → Runtime Node Ref Registry Binding
  unfolding abort_send
  fail_commit next r = record r { coordinator = (abort_send r.coordinator next).0 }

  -- What follows a `transport.send` that returned.
  unfoldable pub finish_commit :
      ℤ → Runtime Node Ref Registry Binding → Runtime Node Ref Registry Binding × Result (Unit {0})
  unfolding transition_to finish_send promote
  finish_commit next r =
      let (waits, entered) = enter awaiting_apply (record r { revision = next }) in
      elim entered [
        | raise e ↦ (waits, raise e)
        | ok done ↦ elim (finish_send waits.coordinator next) [
          | raise e ↦ (waits, raise e)
          | ok (c, held) ↦
              let (c', promoted) = promote c next in
              if held && promoted
              then enter synced (record waits { coordinator = c' })
              else (record waits { coordinator = c }, ok tt)
        ]
      ]

  -- `_send_commit`. `valid` is what `_validate_commit` gives, `receipts` are the acknowledgements
  -- that arrive while `transport.send` runs, and `outcome` is how that call ends; an acknowledgement
  -- that raises ends it as well.
  unfoldable pub send_commit :
      Bool
      → Result (Unit {0})
      → List ℤ
      → Result (Unit {0})
      → Runtime Node Ref Registry Binding
      → Runtime Node Ref Registry Binding × Result (Unit {0})
  unfolding reserve_send reserve_effect_send acknowledge_all fail_commit finish_commit
  send_commit effect_only valid receipts outcome r =
      let next = Ints.add_one r.revision in
      elim (valid
        >> (if effect_only
            then reserve_effect_send r.coordinator next
            else reserve_send r.coordinator next)) [
              | raise e ↦ (r, raise e)
              | ok reserved ↦
                  let started = record r { coordinator = reserved } in
                  elim (acknowledge_all receipts started) [
                    | raise e ↦ (fail_commit next started, raise e)
                    | ok heard ↦ elim outcome [
                      | raise e ↦ (fail_commit next heard, raise e)
                      | ok done ↦ finish_commit next heard
                    ]
                  ]
            ]

  -- The reset to an error screen, and its sending.
  abbrev show_error :
      Result (Unit {0}) × Result (Unit {0})
      → Runtime Node Ref Registry Binding
      → Runtime Node Ref Registry Binding × (Bool × Result (Unit {0}))
  show_error ends r =
      let (r', entered) = enter needs_reset (record r {
        coordinator = reset_accepted (clear_all_refs r.coordinator).0;
        revision = Ints.add_one r.revision;
      }) in
      (r', elim entered [ raise e ↦ (false, raise e) | ok done ↦ publish ends ])

  -- `_send_error_commit`: the runtime, whether `transport.send` is called, and how the call ends.
  -- The pair is how `_validate_commit` and `transport.send` end where they are called.
  unfoldable pub send_error_commit :
      Result (Unit {0}) × Result (Unit {0})
      → Runtime Node Ref Registry Binding
      → Runtime Node Ref Registry Binding × (Bool × Result (Unit {0}))
  unfolding transition_to accepted_root discard_staged clear_all_refs reset_accepted
  send_error_commit ends r =
      let c = discard_staged r.coordinator in
      let counted = record r { coordinator = c; consecutive_faults = suc r.consecutive_faults } in
      if is_some (accepted_root r.coordinator)
      then (record r { coordinator = c; consecutive_faults = 0 }, (false, ok tt))
      else (if same r.recovery_state faulted
          then (record r { coordinator = c }, (false, ok tt))
          else (if ltb max_consecutive_faults (suc r.consecutive_faults)
              then (let (r', entered) = enter faulted counted in (r', (false, entered)))
              else show_error ends counted))

  -- Errors that follow one another, whatever each of them raises: how many commits they hand to the
  -- transport, and how each of them ends.
  unfoldable pub send_errors :
      List (Result (Unit {0}) × Result (Unit {0}))
      → Runtime Node Ref Registry Binding
      → Runtime Node Ref Registry Binding × (ℕ × List (Result (Unit {0})))
  unfolding send_error_commit
  send_errors [] r = (r, (0, []))
  send_errors (ends ∷ rest) r =
      let (r1, (sent, result)) = send_error_commit ends r in
      let (r2, (count, results)) = send_errors rest r1 in
      (r2, (if sent then suc count else count, result ∷ results))
