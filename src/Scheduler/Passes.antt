-- ===== src/Scheduler/Passes.antt =====
-- `PassGuard` of packages/vyne/src/vyne/scheduler.py. The counter is kept when `enter_pass` raises.
use vyne.Common.{
  Result, arith, if◌then◌else◌, ltb, ok, raise, runtime_error, suc, zero, ℕ, ◌+◌, ◌↔◌, ◌≡◌, ◌≤◌,
}

abbrev pub max_passes_per_flush : ℕ
max_passes_per_flush = 5

pub record PassGuard : Type 0 where
  pub pass_count : ℕ

unfoldable pub begin_flush : PassGuard → PassGuard
begin_flush g = record { pass_count = 0 }

unfoldable pub enter_pass : PassGuard → PassGuard × Result (Unit {0})
enter_pass g =
    let count = g.pass_count + 1 in
    (
      record { pass_count = count },
      if ltb max_passes_per_flush count then raise runtime_error else ok tt,
    )

-- The render loop asks for `n` more passes, up to the first one that is refused.
unfoldable pub enter_passes : ℕ → PassGuard → PassGuard × Result (Unit {0})
enter_passes zero g = (g, ok tt)
enter_passes (suc n) g =
    let (g', result) = enter_pass g in
    let rest = enter_passes n g' in elim result [ ok _ ↦ rest | raise e ↦ (g', raise e) ]

enter_passes-from :
    (n : ℕ) (g : PassGuard)
    → g.pass_count ≤ 5
    → (((enter_passes n g).1 ≡ ok tt) ↔ (g.pass_count + n ≤ 5))
      × ((enter_passes n g).0.pass_count ≤ 6)
unfolding enter_passes enter_pass
enter_passes-from zero g h = ground arith
enter_passes-from (suc n) g h =
    ground (arith, enter_passes-from n (record { pass_count = g.pass_count + 1 }))

-- After `begin_flush`, whatever was counted before, a flush gets exactly the passes that the limit
-- allows: asking for `n` succeeds just when `n` is at most five, and no more than six are counted.
pub enter_passes-begin_flush :
    (n : ℕ) (g : PassGuard)
    → (((enter_passes n (begin_flush g)).1 ≡ ok tt) ↔ (n ≤ max_passes_per_flush))
      × ((enter_passes n (begin_flush g)).0.pass_count ≤ suc max_passes_per_flush)
unfolding begin_flush
enter_passes-begin_flush n g = ground (arith, enter_passes-from n (record { pass_count = 0 }))
