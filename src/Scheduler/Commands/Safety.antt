-- ===== src/Scheduler/Commands/Safety.antt =====
-- What no call of the coordinator (packages/vyne/src/vyne/scheduler.py) can do.
use vyne.Common.Ints
use vyne.Common.{List, [], arith, false, is_some, none, refl, some, true, ℕ, ◌∙◌, ◌∷◌, ◌≡◌}
use vyne.Common.Ints.{negsuc, pos, ℤ}
use vyne.Scheduler.Commands.{
  Command, abort, ack, clear_bindings, clear_refs, discard, finish, hold_ack, local, reject,
  reserve, reserve_effect, reset, run, stage, step, take_bindings, take_refs, unknown,
}
use vyne.Scheduler.Coordinator.{Coordinator, has_candidate, in_flight}

module _ {Node Ref Registry Binding : Type 0} where
  -- The only calls that may replace the accepted state, and when they may. The in-flight field of a
  -- coordinator without a commit in flight is 0, which `promote` compares like any other.
  abbrev pub MayAccept :
      Command Node Ref Registry Binding → Coordinator Node Ref Registry Binding → Type 0
  MayAccept (ack revision) c = (revision ≡ c.in_flight_revision) × (c.provisional ≡ false)
  MayAccept local c = (has_candidate c ≡ true) × (in_flight c ≡ false) × (c.provisional ≡ false)
  MayAccept reset c = Unit
  MayAccept _ c = ⊥

  pub step-accepted :
      (command : Command Node Ref Registry Binding) (c : Coordinator Node Ref Registry Binding)
      → ¬ MayAccept command c
      → (step command c).accepted ≡ c.accepted
  unfolding step has_candidate in_flight
  step-accepted (stage root index next refs registry bindings) c h = ground arith
  step-accepted discard c h = ground arith
  step-accepted (reserve revision) c h = ground arith
  step-accepted (reserve_effect revision) c h = ground arith
  step-accepted (hold_ack revision) c h = ground arith
  step-accepted (finish revision) c h = ground arith
  step-accepted (abort revision) c h = ground arith
  step-accepted (ack revision) c h = ground (arith, Ints.eq_iff revision c.in_flight_revision)
  step-accepted local c h = ground arith
  step-accepted (reject revision) c h = ground arith
  step-accepted take_refs c h = refl
  step-accepted take_bindings c h = refl
  step-accepted unknown c h = refl
  step-accepted reset c h = absurd (h tt)
  step-accepted clear_refs c h = refl
  step-accepted clear_bindings c h = refl

  -- At no point of the run may the next call replace the accepted state.
  abbrev pub NeverAccepts :
      List (Command Node Ref Registry Binding) → Coordinator Node Ref Registry Binding → Type 0
  NeverAccepts [] c = Unit
  NeverAccepts (command ∷ commands) c =
      (¬ MayAccept command c) × NeverAccepts commands (step command c)

  -- Planning, staging, sending, failing and rejecting never touch the accepted state. Along any run
  -- of calls it is what it was, unless one of them is an acknowledgement that equals the in-flight
  -- field (0 where nothing is in flight) while no send is provisional, a local promotion of a
  -- candidate with nothing in flight or provisional, or a reset.
  pub run-accepted :
      (commands : List (Command Node Ref Registry Binding))
      (c : Coordinator Node Ref Registry Binding)
      → NeverAccepts commands c
      → (run commands c).accepted ≡ c.accepted
  unfolding run
  run-accepted [] c h = refl
  run-accepted (command ∷ commands) c h =
      run-accepted commands (step command c) h.1 ∙ step-accepted command c h.0

  -- The next node id that the accepted state gives: 1 before the first commit.
  abbrev pub accepted_next : Coordinator Node Ref Registry Binding → ℕ
  accepted_next c = elim c.accepted [ none ↦ 1 | some a ↦ a.next_node_id ]

  -- The invariant: a receipt is held only for a provisional send, and where nothing is staged the
  -- candidate's fields are empty and the id counter is the accepted one.
  pub record IsValid (c : Coordinator Node Ref Registry Binding) : Type 0 where
    pub held_provisional : c.provisional ≡ false → c.held_ack_revision ≡ none
    pub index_empty : c.candidate_root ≡ none → c.candidate_index ≡ none
    pub ref_map_empty : c.candidate_root ≡ none → c.candidate_ref_map ≡ none
    pub registry_empty : c.candidate_root ≡ none → c.candidate_event_registry ≡ none
    pub bindings_empty : c.candidate_root ≡ none → c.candidate_imperative_bindings ≡ none
    pub next_accepted : c.candidate_root ≡ none → c.next_node_id ≡ accepted_next c

  -- `stage_candidate` is called with a root, as the runtime does.
  abbrev pub StagesRoot : Command Node Ref Registry Binding → Type 0
  StagesRoot (stage root index next refs registry bindings) = is_some root ≡ true
  StagesRoot _ = Unit

  -- Every call, staging a root where it stages, keeps the invariant, on its branches that raise or
  -- return False too.
  pub step-IsValid :
      (command : Command Node Ref Registry Binding) (c : Coordinator Node Ref Registry Binding)
      → StagesRoot command
      → IsValid c
      → IsValid (step command c)
  unfolding step
  step-IsValid (stage root index next refs registry bindings) c h v = ground arith
  step-IsValid discard c h v = ground arith
  step-IsValid (reserve revision) c h v = ground arith
  step-IsValid (reserve_effect revision) c h v = ground arith
  step-IsValid (hold_ack revision) c h v = ground arith
  step-IsValid (finish revision) c h v = ground arith
  step-IsValid (abort revision) c h v = ground arith
  step-IsValid (ack revision) c h v = ground arith
  step-IsValid local c h v = ground arith
  step-IsValid (reject revision) c h v = ground arith
  step-IsValid take_refs c h v = ground arith
  step-IsValid take_bindings c h v = ground arith
  step-IsValid unknown c h v = ground arith
  step-IsValid reset c h v = ground arith
  step-IsValid clear_refs c h v = ground arith
  step-IsValid clear_bindings c h v = ground arith
