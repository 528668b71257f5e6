-- ===== src/Recovery/Acks.antt =====
-- The acknowledgements that arrive for a sent commit (`acknowledge_native_apply` of
-- packages/vyne/src/vyne/runtime.py).
use vyne.Common.Ints
use vyne.Common.{
  Bool, Bool-cases, List, [], arith, false, if◌then◌else◌, inl, inr, ok, refl, subst, sym, true,
  ◌||◌, ◌∷◌, ◌≡◌,
}
use vyne.Common.Ints.{negsuc, pos, ℤ}
use vyne.Recovery.States.{Runtime, acknowledge, acknowledge_all, awaiting_apply, synced}
use vyne.Scheduler.Promotion.{promote}

abbrev pub received : ℤ → List ℤ → Bool
received revision [] = false
received revision (r ∷ rs) = Ints.eq r revision || received revision rs

module _ {Node Ref Registry Binding : Type 0} where
  -- A commit of the latest revision is sent, and its acknowledgement is awaited.
  abbrev pub IsAwaiting : Runtime Node Ref Registry Binding → Type 0
  IsAwaiting r =
      (r.recovery_state ≡ awaiting_apply)
      × (r.coordinator.in_flight_revision ≡ r.revision)
      × (r.coordinator.provisional ≡ false)
      × (Ints.is_positive r.revision ≡ true)

  -- The runtime after the acknowledgement.
  abbrev pub acknowledged : Runtime Node Ref Registry Binding → Runtime Node Ref Registry Binding
  acknowledged r = record r {
    coordinator = (promote r.coordinator r.revision).0;
    recovery_state = synced;
  }

  -- In step: nothing is awaited, and nothing is provisional.
  pub settled :
      (rs : List ℤ) (r : Runtime Node Ref Registry Binding)
      → r.recovery_state ≡ synced
      → r.coordinator.provisional ≡ false
      → acknowledge_all rs r ≡ ok r
  unfolding acknowledge_all
  settled [] r s p = refl
  settled (x ∷ rs) r s p = ground (arith, settled rs r)

  pub still_final :
      (r : Runtime Node Ref Registry Binding)
      → r.coordinator.provisional ≡ false
      → (acknowledged r).coordinator.provisional ≡ false
  unfolding promote
  still_final r h = ground arith

  own :
      (r : Runtime Node Ref Registry Binding)
      → IsAwaiting r
      → acknowledge r.revision r ≡ ok (acknowledged r)
  unfolding acknowledge
  own r h = ground (arith, Ints.eq_refl r.revision, Ints.eq_refl r.coordinator.in_flight_revision)

  stale :
      (x : ℤ) (r : Runtime Node Ref Registry Binding)
      → IsAwaiting r
      → Ints.eq x r.revision ≡ false
      → acknowledge x r ≡ ok r
  unfolding acknowledge
  stale x r h e = ground arith

  -- Whatever acknowledgements arrive for a sent commit, in whatever order and however often: once
  -- its own is among them the runtime is in step, the commit is promoted, and nothing else has
  -- changed; and without its own the runtime is as it was.
  pub acknowledge_all_lem :
      (rs : List ℤ) (r : Runtime Node Ref Registry Binding)
      → IsAwaiting r
      → acknowledge_all rs r ≡ ok (if received r.revision rs then acknowledged r else r)
  unfolding acknowledge_all
  acknowledge_all_lem [] r h = refl
  acknowledge_all_lem (x ∷ rs) r h = elim (Bool-cases (Ints.eq x r.revision)) [
    | inl e ↦
        let s : acknowledge x r ≡ ok (acknowledged r) =
          subst (λ y. acknowledge y r ≡ ok (acknowledged r)) (sym ((Ints.eq_iff x r.revision).0 e))
            (own r h) in
        rw (s, e) (settled rs (acknowledged r) refl (still_final r h.2))
    | inr e ↦ rw (stale x r h e, e) (acknowledge_all_lem rs r h)
  ]
