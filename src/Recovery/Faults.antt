-- ===== src/Recovery/Faults.antt =====
-- Error commits one after the other (`_send_error_commit` of packages/vyne/src/vyne/runtime.py).
use vyne.Common.Ints
use vyne.Common.{
  Bool, Bool-cases, List, Result, [], length, ◌∷◌, if◌then◌else◌, ◌⊎◌, arith, false, inl, inr, ltb,
  ◌||◌, ◌∙◌, none, ok, refl, suc, sym, true, zero, ℕ, ◌-◌, ◌≡◌, ◌≤◌,
}
use vyne.Common.Ints.{ℤ}
use vyne.Recovery.States.{
  RecoveryState, Runtime, awaiting_apply, disposed, faulted, max_consecutive_faults, needs_reset,
  publish, same, send_error_commit, send_errors, synced, transition_to,
}
use vyne.Scheduler.Coordinator.{accepted_root, discard_staged}
use vyne.Scheduler.Promotion.{clear_all_refs, reset_accepted}

to_faulted : (s : RecoveryState) → same s disposed ≡ false → transition_to faulted s ≡ ok faulted
unfolding transition_to
to_faulted synced d = refl
to_faulted awaiting_apply d = refl
to_faulted needs_reset d = refl
to_faulted faulted d = refl
to_faulted disposed d = ground arith

to_needs_reset :
    (s : RecoveryState) → same s disposed ≡ false → transition_to needs_reset s ≡ ok needs_reset
unfolding transition_to
to_needs_reset synced d = refl
to_needs_reset awaiting_apply d = refl
to_needs_reset needs_reset d = refl
to_needs_reset faulted d = refl
to_needs_reset disposed d = ground arith

-- How errors end, of which as many as the budget try to publish.
abbrev pub answers : ℕ → List (Result (Unit {0}) × Result (Unit {0})) → List (Result (Unit {0}))
answers budget [] = []
answers zero (ends ∷ rest) = ok tt ∷ answers zero rest
answers (suc budget) (ends ∷ rest) = (publish ends).1 ∷ answers budget rest

module _ {Node Ref Registry Binding : Type 0} where
  abbrev pub CanFail : Runtime Node Ref Registry Binding → Type 0
  CanFail r = (accepted_root r.coordinator ≡ none) × (same r.recovery_state disposed ≡ false)

  -- How many error commits are still to come.
  abbrev pub budget : Runtime Node Ref Registry Binding → ℕ
  budget r =
      if same r.recovery_state faulted then 0 else max_consecutive_faults - r.consecutive_faults

  -- What one error does: nothing when the budget is spent, and the runtime is faulted then; or it
  -- takes one of the budget and tries to publish.
  abbrev Spent :
      Result (Unit {0}) × Result (Unit {0})
      → Runtime Node Ref Registry Binding
      → Runtime Node Ref Registry Binding
      → Bool × Result (Unit {0})
      → Type 0
  Spent ends r r' answer =
      ((same r'.recovery_state faulted ≡ true) × (budget r ≡ 0) × (answer ≡ (false, ok tt)))
      ⊎ ((same r'.recovery_state faulted ≡ false)
          × (same r.recovery_state faulted ≡ false)
          × (answer ≡ publish ends)
          × (suc (budget r') ≡ budget r))

  abbrev OneError :
      Result (Unit {0}) × Result (Unit {0}) → Runtime Node Ref Registry Binding → Type 0
  OneError ends r =
      (r' : Runtime Node Ref Registry Binding) × (answer : Bool × Result (Unit {0}))
      × (send_error_commit ends r ≡ (r', answer))
      × CanFail r'
      × Spent ends r r' answer

  one_error :
      (ends : Result (Unit {0}) × Result (Unit {0})) (r : Runtime Node Ref Registry Binding)
      → CanFail r
      → OneError ends r
  unfolding send_error_commit
  one_error ends r (a, d) =
      let c = discard_staged r.coordinator in
      let kept : accepted_root c ≡ none = ground arith in
      elim (Bool-cases (same r.recovery_state faulted)) [
        | inl f ↦ (
          record r { coordinator = c },
          (false, ok tt),
          ground arith,
          (kept, d),
          inl (f, ground arith, refl),
        )
        | inr f ↦ elim (Bool-cases (ltb max_consecutive_faults (suc r.consecutive_faults))) [
          | inl over ↦ (
            record r {
              coordinator = c;
              consecutive_faults = suc r.consecutive_faults;
              recovery_state = faulted;
            },
            (false, ok tt),
            ground (arith, to_faulted r.recovery_state),
            (kept, refl),
            inl (refl, ground arith, refl),
          )
          | inr below ↦ (
            record r {
              coordinator = reset_accepted (clear_all_refs c).0;
              consecutive_faults = suc r.consecutive_faults;
              recovery_state = needs_reset;
              revision = Ints.add_one r.revision;
            },
            publish ends,
            ground (arith, to_needs_reset r.recovery_state),
            (refl, refl),
            inr (refl, f, refl, ground arith),
          )
        ]
      ]

  answers_step :
      (ends : Result (Unit {0}) × Result (Unit {0}))
      (rest : List (Result (Unit {0}) × Result (Unit {0})))
      (r r' : Runtime Node Ref Registry Binding) (answer : Bool × Result (Unit {0}))
      → Spent ends r r' answer
      → {results : List (Result (Unit {0}))} → results ≡ answers (budget r') rest
      → (answer.1 ∷ results) ≡ answers (budget r) (ends ∷ rest)
  answers_step ends rest r r' answer (inl (f, z, q)) e =
      let none_left : budget r' ≡ 0 = ground arith in rw (q, z, e, none_left) refl
  answers_step ends rest r r' answer (inr (f, g, q, n)) e = rw (q, sym n, e) refl

  count_step :
      (ends : Result (Unit {0}) × Result (Unit {0})) (count : ℕ)
      (r r' : Runtime Node Ref Registry Binding) (answer : Bool × Result (Unit {0}))
      → Spent ends r r' answer
      → count ≤ budget r'
      → (if answer.0 then suc count else count) ≤ budget r
  count_step ends count r r' (true, result) (inl (f, z, q)) h = cc
  count_step ends count r r' (false, result) (inl (f, z, q)) h = ground arith
  count_step ends count r r' (true, result) (inr (f, g, q, n)) h = omega arith
  count_step ends count r r' (false, result) (inr (f, g, q, n)) h = omega arith

  faulted_step :
      (ends : Result (Unit {0}) × Result (Unit {0})) (n : ℕ)
      (r r' : Runtime Node Ref Registry Binding) (answer : Bool × Result (Unit {0}))
      → Spent ends r r' answer
      → (same r'.recovery_state faulted || ltb (budget r') n)
        ≡ (same r.recovery_state faulted || ltb (budget r) (suc n))
  faulted_step ends n r r' answer s = ground (arith, s)

  -- How errors end that begin with this one.
  abbrev Bounded :
      List (Result (Unit {0}) × Result (Unit {0}))
      → Runtime Node Ref Registry Binding
      → Runtime Node Ref Registry Binding × (ℕ × List (Result (Unit {0})))
      → Type 0
  Bounded errors r (r', (count, results)) =
      (results ≡ answers (budget r) errors)
      × (count ≤ budget r)
      × (budget r ≤ 5)
      × (same r'.recovery_state faulted
          ≡ (same r.recovery_state faulted || ltb (budget r) (length errors)))
      × CanFail r'

  bound_step :
      (ends : Result (Unit {0}) × Result (Unit {0}))
      (rest : List (Result (Unit {0}) × Result (Unit {0})))
      (r r1 r2 : Runtime Node Ref Registry Binding) (answer : Bool × Result (Unit {0})) (count : ℕ)
      (results : List (Result (Unit {0})))
      → Spent ends r r1 answer
      → Bounded rest r1 (r2, (count, results))
      → Bounded (ends ∷ rest) r (r2, (if answer.0 then suc count else count, answer.1 ∷ results))
  bound_step ends rest r r1 r2 answer count results s (a, b, five, f, k) = (
    answers_step ends rest r r1 answer s a,
    count_step ends count r r1 answer s b,
    ground arith,
    f ∙ faulted_step ends (length rest) r r1 answer s,
    k,
  )

  -- Without an accepted tree, and as long as the runtime is not disposed, errors follow one another,
  -- whatever the validation and the transport raise. As many as the budget, which is never more than
  -- five, try to publish a commit, and each of them ends as its attempt does; the others end
  -- without an exception. The transport is handed no more commits than the budget. The runtime is
  -- faulted afterwards exactly when it was before or there were more errors than the budget.
  pub send_errors_bound :
      (errors : List (Result (Unit {0}) × Result (Unit {0})))
      (r : Runtime Node Ref Registry Binding)
      → CanFail r
      → let (r', (count, results)) = send_errors errors r in
        (results ≡ answers (budget r) errors)
        × (count ≤ budget r)
        × (budget r ≤ 5)
        × (same r'.recovery_state faulted
            ≡ (same r.recovery_state faulted || ltb (budget r) (length errors)))
        × CanFail r'
  unfolding send_errors
  send_errors_bound [] r h = (refl, omega arith, ground arith, ground arith, h)
  send_errors_bound (ends ∷ rest) r h =
      let (r1, answer, e, h1, s) = one_error ends r h in
      let out = send_errors rest r1 in
      rw e (bound_step ends rest r r1 out.0 answer out.1.0 out.1.1 s (send_errors_bound rest r1 h1))
