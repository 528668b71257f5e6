-- ===== src/Reconcile/Shadow.antt =====
-- `_ParentShadow` of packages/vyne/src/vyne/reconcile.py: a list of child ids beside a dict of their
-- positions, which every change brings up to date by reindexing only the range that it moved.
pub mod Edits
pub mod Indexing
use vyne.Common.{◌>>=◌, ◌>>◌, ok, raise, raise_if, key_error, index_error, leb, Result}
use vyne.Common.{
  Bool, List, Option, [], false, get_elem?, if◌then◌else◌, insert_at, length, ltb, none, remove_at,
  some, suc, true, zero, ℕ, ◌+◌, ◌-◌, ◌==◌, ◌∷◌,
}
use vyne.Common.Maps.{delete, insert, lookup, nat_eq}

pub record ParentShadow : Type 0 where
  pub parent_id : ℕ
  pub children : List ℕ
  pub positions : List (ℕ × ℕ)

-- The dict comprehension of `__post_init__`.
unfoldable pub enumerate_from : ℕ → List ℕ → List (ℕ × ℕ) → List (ℕ × ℕ)
enumerate_from index [] positions = positions
enumerate_from index (child ∷ children) positions =
    enumerate_from (suc index) children (insert child index positions)

unfoldable pub shadow_of : ℕ → List ℕ → ParentShadow
unfolding enumerate_from
shadow_of parent_id children = record {
  parent_id = parent_id;
  children = children;
  positions = enumerate_from 0 children [];
}

-- The loop of `_reindex`: `count` indices from `start`.
unfoldable pub reindex_range : ℕ → ℕ → List ℕ → List (ℕ × ℕ) → List (ℕ × ℕ)
reindex_range start zero children positions = positions
reindex_range start (suc count) children positions =
    reindex_range (suc start) count children (elim (get_elem? children start) [
      | none ↦ positions
      | some child ↦ insert child start positions
    ])

-- `_reindex(start, end)`; `none` where `end` is left out.
unfoldable pub reindex : ℕ → Option ℕ → ParentShadow → ParentShadow
unfolding reindex_range
reindex start none s = record s {
  positions = reindex_range start (length s.children - start) s.children s.positions;
}
reindex start (some stop) s = record s {
  positions = reindex_range start (stop - start) s.children s.positions;
}

-- `_positions.pop(child_id)` raises KeyError for an unknown child.
unfoldable pub index_of : ℕ → ParentShadow → Result ℕ
index_of child_id s = elim (lookup child_id s.positions) [
  | none ↦ raise key_error
  | some index ↦ ok index
]

unfoldable pub remove : ℕ → ParentShadow → Result ParentShadow
unfolding reindex index_of
remove child_id s = do
  index ← index_of child_id s
  raise_if (leb (length s.children) index) index_error
  ok (
      reindex index none (record s {
        children = remove_at index s.children;
        positions = delete child_id s.positions;
      }))

unfoldable pub insert_child : ℕ → ℕ → ParentShadow → ParentShadow
unfolding reindex
insert_child child_id index s =
    reindex index none (record s { children = insert_at index child_id s.children })

abbrev pub min_of : ℕ → ℕ → ℕ
min_of a b = if ltb b a then b else a

abbrev pub max_of : ℕ → ℕ → ℕ
max_of a b = if ltb a b then b else a

-- `children.pop` raises for an index out of range, and so does the reindexing of the moved range.
unfoldable pub move : ℕ → ℕ → ℕ → ParentShadow → Result ParentShadow
unfolding reindex
move child_id from_index to_index s = do
  raise_if (leb (length s.children) (max_of from_index to_index)) index_error
  ok (
      reindex (min_of from_index to_index) (some (max_of from_index to_index + 1))
        (record s { children = insert_at to_index child_id (remove_at from_index s.children) }))
