-- ===== src/Reconcile/Shadow/Indexing.antt =====
-- `_ParentShadow` (packages/vyne/src/vyne/reconcile.py): its dict of positions against its list.
use vyne.Common.{raise, ok}
use vyne.Common.{
  ==_iff, Bool-cases, List, Option, Option-cases, [], arith, get_elem?, if◌then◌else◌, inl, inr,
  insert_at, key_error, leb, length, ltb, none, refl, remove_at, some, suc, zero, ℕ, ◌&&◌, ◌+◌, ◌-◌,
  ◌<◌, ◌==◌, ◌∷◌, ◌≡◌, ◌≢◌, ◌≤◌,
}
use vyne.Common.Maps.{delete, insert, lookup, lookup-delete, lookup-insert, nat_eq}
use vyne.Common.Positions.{
  NoRepeat, get_elem?-position, insert_at-NoRepeat, length-remove_at, position, position-clip,
  position-get_elem?, position-insert_at, position-lt, position-remove_at, remove_at-NoRepeat,
  shift_down, shift_up,
}
use vyne.Reconcile.Shadow.{
  ParentShadow, enumerate_from, index_of, insert_child, max_of, min_of, move, reindex_range, remove,
  shadow_of,
}

-- The list has no child twice, and the dict has exactly its positions.
pub record IsIndexed (s : ParentShadow) : Type 0 where
  pub no_repeat : NoRepeat s.children
  pub indexed : (c : ℕ) → lookup c s.positions ≡ position c s.children

-- What a reindexing of `count` positions from `start` leaves in the dict.
abbrev reindexed : ℕ → ℕ → Option ℕ → Option ℕ → Option ℕ
reindexed start count none before = before
reindexed start count (some k) before =
    if leb start k && ltb k (start + count) then some k else before

lookup-reindex_range :
    (count start : ℕ) (children : List ℕ) (positions : List (ℕ × ℕ)) (c : ℕ)
    → NoRepeat children
    → lookup c (reindex_range start count children positions)
      ≡ reindexed start count (position c children) (lookup c positions)
unfolding reindex_range
lookup-reindex_range zero start children positions c d = ground arith
lookup-reindex_range (suc count) start children positions c d =
    elim (Option-cases (get_elem? children start)) [
      | inl e ↦ rw e (
          ground (
            arith,
            lookup-reindex_range count (suc start) children positions c d,
            get_elem?-position children c start,
          ))
      | inr (x, e) ↦ rw e (
          ground (
            arith,
            lookup-reindex_range count (suc start) children (insert x start positions) c d,
            lookup-insert x c start positions,
            ==_iff x c,
            get_elem?-position children c start,
            position-get_elem? children x start d e,
          ))
    ]

lookup-enumerate_from :
    (index : ℕ) (children : List ℕ) (positions : List (ℕ × ℕ)) (c : ℕ)
    → NoRepeat children
    → lookup c (enumerate_from index children positions)
      ≡ elim (position c children) [ none ↦ lookup c positions | some k ↦ some (index + k) ]
unfolding enumerate_from
lookup-enumerate_from index [] positions c d = ground arith
lookup-enumerate_from index (x ∷ xs) positions c d =
    let e = d.0 in
    ground (
      arith,
      lookup-enumerate_from (suc index) xs (insert x index positions) c d.1,
      lookup-insert x c index positions,
      ==_iff x c,
    )

pub shadow_of-IsIndexed :
    (parent_id : ℕ) (children : List ℕ)
    → NoRepeat children
    → IsIndexed (shadow_of parent_id children)
unfolding shadow_of lookup
shadow_of-IsIndexed parent_id children d = record {
  no_repeat = d;
  indexed = λ c. ground (arith, lookup-enumerate_from 0 children [] c d);
}

-- On a shadow whose dict is exact, the constant-time `index_of` answers as a search of the list
-- does, and raises KeyError exactly for a child that is not in it.
pub index_of_lem :
    (s : ParentShadow) (c : ℕ)
    → IsIndexed s
    → index_of c s ≡ elim (position c s.children) [ none ↦ raise key_error | some k ↦ ok k ]
unfolding index_of
index_of_lem s c v = ground (arith, v.indexed c)

-- Inserting a new child, at an index in range, keeps the dict exact.
pub insert_child-IsIndexed :
    (s : ParentShadow) (child index : ℕ)
    → IsIndexed s
    → index ≤ length s.children
    → position child s.children ≡ none
    → IsIndexed (insert_child child index s)
unfolding insert_child
insert_child-IsIndexed s child index v b h =
    let after = insert_at index child s.children in
    let distinct : NoRepeat after = insert_at-NoRepeat s.children child index b v.no_repeat h in
    record {
      no_repeat = distinct;
      indexed = λ c. ground (
        arith,
        lookup-reindex_range (length after - index) index after s.positions c distinct,
        position-insert_at s.children child index c b h,
        position-clip after c,
        v.indexed c,
      );
    }

pub insert_child-children :
    (s : ParentShadow) (child index : ℕ)
    → (insert_child child index s).children ≡ insert_at index child s.children
unfolding insert_child
insert_child-children s child index = refl

-- Removing a child succeeds, gives the list without it, and keeps the dict exact.
pub remove-IsIndexed :
    (s : ParentShadow) (child i : ℕ)
    → IsIndexed s
    → position child s.children ≡ some i
    → (s' : ParentShadow) × (remove child s ≡ ok s')
      × (s'.children ≡ remove_at i s.children)
      × IsIndexed s'
unfolding remove
remove-IsIndexed s child i v h =
    let after = remove_at i s.children in
    let distinct : NoRepeat after = remove_at-NoRepeat s.children child i v.no_repeat h in
    (
      record s {
        children = after;
        positions = reindex_range i (length after - i) after (delete child s.positions);
      },
      ground (arith, v.indexed child, position-lt s.children child i h),
      refl,
      record {
        no_repeat = distinct;
        indexed = λ c. ground (
          arith,
          lookup-reindex_range (length after - i) i after (delete child s.positions) c distinct,
          lookup-delete child c s.positions,
          position-remove_at s.children child i c v.no_repeat h,
          position-clip after c,
          v.indexed c,
        );
      },
    )

-- Outside the range that is reindexed, a move from `i` to `j` changes no position.
reindexed-shift :
    (i j : ℕ) (p : Option ℕ)
    → p ≢ some i
    → reindexed (min_of i j) (max_of i j + 1 - min_of i j) (shift_up j (shift_down i p)) p
      ≡ shift_up j (shift_down i p)
reindexed-shift i j none h = refl
reindexed-shift i j (some k) h = ground arith

reindexed-target :
    (i j : ℕ) (p : Option ℕ)
    → reindexed (min_of i j) (max_of i j + 1 - min_of i j) (some j) p ≡ some j
reindexed-target i j p = ground arith

position-injective :
    (xs : List ℕ) (x c i : ℕ) → position x xs ≡ some i → position c xs ≡ some i → x ≡ c
position-injective xs x c i h k =
    ground (arith, get_elem?-position xs x i h, get_elem?-position xs c i k)

-- Moving a child to an index in range succeeds, gives the list with the child moved, and keeps the
-- dict exact.
pub move-IsIndexed :
    (s : ParentShadow) (child from_index to_index : ℕ)
    → IsIndexed s
    → position child s.children ≡ some from_index
    → to_index < length s.children
    → (s' : ParentShadow) × (move child from_index to_index s ≡ ok s')
      × (s'.children ≡ insert_at to_index child (remove_at from_index s.children))
      × IsIndexed s'
unfolding move
move-IsIndexed s child i j v h b =
    let taken = remove_at i s.children in
    let after = insert_at j child taken in
    let short = length-remove_at s.children i (position-lt s.children child i h) in
    let there = position-remove_at s.children child i child v.no_repeat h in
    let gone : position child taken ≡ none = ground (arith, ==_iff child child) in
    let bound : j ≤ length taken = omega arith in
    let distinct : NoRepeat after =
      insert_at-NoRepeat taken child j bound (remove_at-NoRepeat s.children child i v.no_repeat h)
        gone in
    (
      record s {
        children = after;
        positions = reindex_range (min_of i j) (max_of i j + 1 - min_of i j) after s.positions;
      },
      ground (arith, position-lt s.children child i h),
      refl,
      record {
        no_repeat = distinct;
        indexed = λ c.
            let found =
              lookup-reindex_range (max_of i j + 1 - min_of i j) (min_of i j) after s.positions c
                distinct in
            let placed = position-insert_at taken child j c bound gone in
            let before = position-remove_at s.children child i c v.no_repeat h in
            elim (Bool-cases (child == c)) [
              | inl t ↦ rw (found, placed, t) (reindexed-target i j (lookup c s.positions))
              | inr t ↦
                  rw (found, placed, t, before, t, v.indexed c)
                    (reindexed-shift i j (position c s.children) (λ e.
                      let same = position-injective s.children child c i h e in
                      ground (arith, ==_iff child c)))
            ];
      },
    )
