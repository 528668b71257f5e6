-- ===== src/Scheduler/Commands.antt =====
-- Every call of a `CommitCoordinator` (packages/vyne/src/vyne/scheduler.py) that changes its
-- state, as one step. A call that raises leaves the state as it is.
pub mod Safety
pub mod Lifecycle
pub mod Recovery
use vyne.Common.{Bool, List, Option, Result, [], ok, raise, ℕ, ◌∷◌}
use vyne.Common.Ints.{ℤ}
use vyne.Scheduler.Coordinator.{
  Coordinator, abort_send, discard_staged, finish_send, hold_provisional_ack, reject_known,
  reserve_effect_send, reserve_send, stage_candidate,
}
use vyne.Scheduler.Promotion.{
  clear_all_imperative_bindings, clear_all_refs, promote, promote_local, report_unknown,
  reset_accepted, take_imperative_transition, take_ref_transition,
}

pub data Command (Node Ref Registry Binding : Type 0) : Type 0 where
  stage :
      Option Node
      → List (ℕ × Node)
      → ℕ
      → Option (List (ℕ × Ref))
      → Option Registry
      → Option (List (ℕ × Binding))
      → Command Node Ref Registry Binding
  discard : Command Node Ref Registry Binding
  reserve : ℤ → Command Node Ref Registry Binding
  reserve_effect : ℤ → Command Node Ref Registry Binding
  hold_ack : ℤ → Command Node Ref Registry Binding
  finish : ℤ → Command Node Ref Registry Binding
  abort : ℤ → Command Node Ref Registry Binding
  ack : ℤ → Command Node Ref Registry Binding
  local : Command Node Ref Registry Binding
  reject : ℤ → Command Node Ref Registry Binding
  take_refs : Command Node Ref Registry Binding
  take_bindings : Command Node Ref Registry Binding
  unknown : Command Node Ref Registry Binding
  reset : Command Node Ref Registry Binding
  clear_refs : Command Node Ref Registry Binding
  clear_bindings : Command Node Ref Registry Binding

-- The state after a call that may raise.
abbrev pub settle {ℓ} : {A : Type ℓ} → A → Result A → A
settle old (ok new) = new
settle old (raise e) = old

abbrev pub settle_pair {ℓ κ} : {A : Type ℓ} {B : Type κ} → A → Result (A × B) → A
settle_pair old (ok (new, b)) = new
settle_pair old (raise e) = old

module _ {Node Ref Registry Binding : Type 0} where
  unfoldable pub step :
      Command Node Ref Registry Binding
      → Coordinator Node Ref Registry Binding
      → Coordinator Node Ref Registry Binding
  unfolding stage_candidate discard_staged reserve_send reserve_effect_send hold_provisional_ack
      finish_send abort_send reject_known promote promote_local take_ref_transition
      take_imperative_transition report_unknown reset_accepted clear_all_refs
      clear_all_imperative_bindings
  step (stage root index next refs registry bindings) c =
      settle c (stage_candidate c root index next refs registry bindings)
  step discard c = discard_staged c
  step (reserve revision) c = settle c (reserve_send c revision)
  step (reserve_effect revision) c = settle c (reserve_effect_send c revision)
  step (hold_ack revision) c = (hold_provisional_ack c revision).0
  step (finish revision) c = settle_pair c (finish_send c revision)
  step (abort revision) c = (abort_send c revision).0
  step (ack revision) c = (promote c revision).0
  step local c = (promote_local c).0
  step (reject revision) c = (reject_known c revision).0
  step take_refs c = (take_ref_transition c).0
  step take_bindings c = (take_imperative_transition c).0
  step unknown c = report_unknown c
  step reset c = reset_accepted c
  step clear_refs c = (clear_all_refs c).0
  step clear_bindings c = (clear_all_imperative_bindings c).0

  unfoldable pub run :
      List (Command Node Ref Registry Binding)
      → Coordinator Node Ref Registry Binding
      → Coordinator Node Ref Registry Binding
  run [] c = c
  run (command ∷ commands) c = run commands (step command c)
