-- ===== src/Scheduler/Journal.antt =====
-- `StateJournal` of packages/vyne/src/vyne/scheduler.py. A State cell is an object that the journal
-- and the components share: it is an address, `id(state_cell)`, into a heap of cell values.
pub mod Rollback
use vyne.Common.{Bool, List, [], false, if◌then◌else◌, length, not, true, ℕ, ◌==◌, ◌∷◌}
use vyne.Common.Maps.{has, insert, nat_eq}

-- `cell._value` of every cell.
abbrev pub Heap : Type 0 → Type 0
Heap V = ℕ → V

-- `cell._value = v`
abbrev pub write {ℓ} : {V : Type ℓ} → ℕ → V → (ℕ → V) → ℕ → V
write cell v heap = λ c. if c == cell then v else heap c

-- `_entries` maps the cell's id to its `old_value`.
pub record StateJournal (V : Type 0) : Type 0 where
  pub entries : List (ℕ × V)
  pub active : Bool

module _ {V : Type 0} where
  -- `__init__`
  unfoldable pub init : StateJournal V
  init = record { entries = []; active = false }

module _ {V : Type 0} (j : StateJournal V) where
  unfoldable pub entry_count : ℕ
  entry_count = length j.entries

  unfoldable pub begin : StateJournal V
  begin = record { entries = []; active = true }

  unfoldable pub record_write : ℕ → V → Heap V → StateJournal V × Heap V
  record_write cell new_value heap = if not j.active then (j, heap) else (
    if has cell j.entries then j else record j { entries = insert cell (heap cell) j.entries },
    write cell new_value heap,
  )

  unfoldable pub record_from : ℕ → V → V → Heap V → StateJournal V × Heap V
  record_from cell old_value new_value heap = if not j.active then (j, heap) else (
    if has cell j.entries then j else record j { entries = insert cell old_value j.entries },
    write cell new_value heap,
  )

  unfoldable pub commit : StateJournal V
  commit = record { entries = []; active = false }

module _ {V : Type 0} where
  -- The loop of `rollback`.
  unfoldable pub restore : List (ℕ × V) → Heap V → Heap V
  restore [] heap = heap
  restore ((cell, old) ∷ entries) heap = restore entries (write cell old heap)

  unfoldable pub rollback : StateJournal V → Heap V → StateJournal V × Heap V
  unfolding restore
  rollback j heap = (record { entries = []; active = false }, restore j.entries heap)
