-- ===== src/Scheduler/Journal/Rollback.antt =====
-- What a flush can undo (`StateJournal` of packages/vyne/src/vyne/scheduler.py).
-- A write during a flush: through `record`, or through `record_from` with an accepted baseline.
use vyne.Common.{
  ==_iff, List, Option, [], arith, false, if◌then◌else◌, none, refl, some, true, ℕ, ◌==◌, ◌∷◌, ◌≡◌,
}
use vyne.Common.Maps.{Distinct, insert-Distinct, lookup, lookup-insert, nat_eq}
use vyne.Scheduler.Journal.{
  Heap, StateJournal, begin, commit, record_from, record_write, restore, rollback, write,
}

pub data Write (V : Type 0) : Type 0 where
  set : ℕ → V → Write V
  set_from : ℕ → V → V → Write V

module _ {V : Type 0} where
  unfoldable pub apply : Write V → StateJournal V × Heap V → StateJournal V × Heap V
  unfolding record_write record_from
  apply (set cell v) (j, heap) = record_write j cell v heap
  apply (set_from cell old v) (j, heap) = record_from j cell old v heap

  unfoldable pub apply_all : List (Write V) → StateJournal V × Heap V → StateJournal V × Heap V
  apply_all [] s = s
  apply_all (w ∷ ws) s = apply_all ws (apply w s)

  abbrev pub target : Write V → ℕ
  target (set cell v) = cell
  target (set_from cell old v) = cell

  abbrev pub value : Write V → V
  value (set cell v) = v
  value (set_from cell old v) = v

  -- What a cell held before the flush: its value at the start, unless its first write brings an
  -- accepted baseline.
  abbrev pub baseline : V → List (Write V) → ℕ → V
  baseline before [] c = before
  baseline before (set cell v ∷ ws) c = if cell == c then before else baseline before ws c
  baseline before (set_from cell old v ∷ ws) c = if cell == c then old else baseline before ws c

  -- The last value that the flush wrote to a cell, or the one before the flush.
  abbrev pub latest : V → List (Write V) → ℕ → V
  latest v [] c = v
  latest v (w ∷ ws) c = latest (if target w == c then value w else v) ws c

  abbrev saved : Option V → V → V
  saved none v = v
  saved (some old) v = old

  lookup-restore :
      (entries : List (ℕ × V)) (heap : Heap V) (c : ℕ)
      → Distinct entries
      → restore entries heap c ≡ saved (lookup c entries) (heap c)
  unfolding restore lookup
  lookup-restore [] heap c d = refl
  lookup-restore ((cell, old) ∷ entries) heap c d =
      ground (arith, lookup-restore entries (write cell old heap) c d.1)

  -- While the journal is active, the entries give the baseline and the heap the latest values.
  record Tracks (s : StateJournal V × Heap V) (entry : Option V) (v : V) (c : ℕ) : Type 0 where
    running : s.0.active ≡ true
    distinct : Distinct s.0.entries
    entry_at : lookup c s.0.entries ≡ entry
    value_at : s.1 c ≡ v

  -- The entry of a cell after a write.
  abbrev entry_after : Write V → Option V → V → ℕ → Option V
  entry_after (set cell v) entry now c = if cell == c then some (saved entry now) else entry
  entry_after (set_from cell old v) entry now c =
      if cell == c then some (saved entry old) else entry

  apply-Tracks :
      (w : Write V) (s : StateJournal V × Heap V) (entry : Option V) (v : V) (c : ℕ)
      → Tracks s entry v c
      → Tracks (apply w s) (entry_after w entry v c) (if target w == c then value w else v) c
  unfolding apply
  apply-Tracks (set cell new) (j, heap) entry v c t = record {
    running = ground arith;
    distinct = ground (arith, insert-Distinct cell (heap cell) j.entries);
    entry_at = ground (arith, lookup-insert cell c (heap cell) j.entries, ==_iff cell c);
    value_at = ground arith;
  }
  apply-Tracks (set_from cell old new) (j, heap) entry v c t = record {
    running = ground arith;
    distinct = ground (arith, insert-Distinct cell old j.entries);
    entry_at = ground (arith, lookup-insert cell c old j.entries);
    value_at = ground arith;
  }

  module _ (c : ℕ) where
    restore-apply_all :
        (ws : List (Write V)) (s : StateJournal V × Heap V) (entry : Option V) (v : V)
        → Tracks s entry v c
        → ((rollback (apply_all ws s).0 (apply_all ws s).1).1 c ≡ saved entry (baseline v ws c))
          × ((apply_all ws s).1 c ≡ latest v ws c)
    unfolding apply_all rollback
    restore-apply_all [] s entry v t =
        (ground (arith, lookup-restore s.0.entries s.1 c t.distinct), t.value_at)
    restore-apply_all (set cell new ∷ ws) s entry v t = ground (
      arith,
      restore-apply_all ws (apply (set cell new) s) _ _ (apply-Tracks (set cell new) s entry v c t),
    )
    restore-apply_all (set_from cell old new ∷ ws) s entry v t = ground (
      arith,
      restore-apply_all ws (apply (set_from cell old new) s) _ _
          (apply-Tracks (set_from cell old new) s entry v c t),
    )

-- After any writes of a flush, every cell holds what was written to it last and a commit leaves it
-- so; a rollback puts back, in every cell, what it held before the flush, or the accepted baseline
-- that its first write brought. Both leave the journal empty and inactive.
pub rollback_lem :
    {V : Type 0} (j : StateJournal V) (heap : Heap V) (ws : List (Write V)) (c : ℕ)
    → let (after, values) = apply_all ws (begin j, heap) in
      (values c ≡ latest (heap c) ws c)
      × ((rollback after values).1 c ≡ baseline (heap c) ws c)
      × ((rollback after values).0 ≡ record { entries = []; active = false })
      × (commit after ≡ record { entries = []; active = false })
unfolding rollback commit begin lookup
rollback_lem {V} j heap ws c =
    let t : Tracks (begin j, heap) none (heap c) c = record {
      running = refl;
      distinct = tt;
      entry_at = refl;
      value_at = refl;
    } in
    let both = restore-apply_all c ws (begin j, heap) none (heap c) t in
    (both.1, both.0, refl, refl)
