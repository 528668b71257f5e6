-- ===== src/Reconcile/Shadow/Edits.antt =====
-- Edits of a `_ParentShadow` (packages/vyne/src/vyne/reconcile.py) one after the other, against the
-- same edits of a plain list, where a child is found by a search.
use vyne.Common.{
  List, Option, Option-cases, Result, [], arith, if◌then◌else◌, inl, inr, insert_at, key_error,
  length, leb, ltb, none, ok, raise, refl, remove_at, some, ℕ, ◌>>=◌, ◌∷◌, ◌≡◌, ◌≤◌, ◌<◌, ◌∙◌, sym,
}
use vyne.Common.Positions.{NoRepeat, position}
use vyne.Reconcile.Shadow.{ParentShadow, index_of, insert_child, move, remove, shadow_of}
use vyne.Reconcile.Shadow.Indexing.{
  IsIndexed, index_of_lem, insert_child-IsIndexed, move-IsIndexed, remove-IsIndexed,
  shadow_of-IsIndexed,
}

pub data Edit : Type 0 where
  insertion : ℕ → ℕ → Edit
  removal : ℕ → Edit
  moving : ℕ → ℕ → Edit

-- An edit of the shadow. As in the planner, a child that moves is looked up first.
unfoldable pub edit : Edit → ParentShadow → Result ParentShadow
unfolding insert_child remove move index_of
edit (insertion child index) s = ok (insert_child child index s)
edit (removal child) s = remove child s
edit (moving child to_index) s = do from_index ← index_of child s; move child from_index to_index s

unfoldable pub edit_all : List Edit → ParentShadow → Result ParentShadow
unfolding edit
edit_all [] s = ok s
edit_all (e ∷ edits) s = edit e s >>= edit_all edits

-- The same edit of a plain list; `none` where it makes no sense: the child is there already, or not
-- there, or the index is out of range.
abbrev pub edited : Edit → List ℕ → Option (List ℕ)
edited (insertion child index) xs = elim (position child xs) [
  | none ↦ if leb index (length xs) then some (insert_at index child xs) else none
  | some i ↦ none
]
edited (removal child) xs = elim (position child xs) [
  | none ↦ none
  | some i ↦ some (remove_at i xs)
]
edited (moving child to_index) xs = elim (position child xs) [
  | none ↦ none
  | some i ↦
      if ltb to_index (length xs) then some (insert_at to_index child (remove_at i xs)) else none
]

abbrev pub edited_all : List Edit → List ℕ → Option (List ℕ)
edited_all [] xs = some xs
edited_all (e ∷ edits) xs = elim (edited e xs) [ none ↦ none | some ys ↦ edited_all edits ys ]

abbrev Follows : Edit → ParentShadow → List ℕ → Type 0
Follows e s ys = (s' : ParentShadow) × (edit e s ≡ ok s') × (s'.children ≡ ys) × IsIndexed s'

insertion-Follows :
    (child index : ℕ) (s : ParentShadow) (ys : List ℕ)
    → IsIndexed s
    → edited (insertion child index) s.children ≡ some ys
    → Follows (insertion child index) s ys
unfolding edit insert_child
insertion-Follows child index s ys v h = elim (Option-cases (position child s.children)) [
  | inl e ↦
      let bound : index ≤ length s.children = ground (arith, h) in
      (
        insert_child child index s,
        refl,
        ground (arith, h),
        insert_child-IsIndexed s child index v bound e,
      )
  | inr (i, e) ↦ absurd (ground (arith, h))
]

removal-Follows :
    (child : ℕ) (s : ParentShadow) (ys : List ℕ)
    → IsIndexed s
    → edited (removal child) s.children ≡ some ys
    → Follows (removal child) s ys
unfolding edit
removal-Follows child s ys v h = elim (Option-cases (position child s.children)) [
  | inl e ↦ absurd (ground (arith, h))
  | inr (i, e) ↦
      let (s', done, kids, v') = remove-IsIndexed s child i v e in
      (s', done, kids ∙ ground (arith, h), v')
]

moving-Follows :
    (child to_index : ℕ) (s : ParentShadow) (ys : List ℕ)
    → IsIndexed s
    → edited (moving child to_index) s.children ≡ some ys
    → Follows (moving child to_index) s ys
unfolding edit
moving-Follows child to_index s ys v h = elim (Option-cases (position child s.children)) [
  | inl e ↦ absurd (ground (arith, h))
  | inr (i, e) ↦
      let bound : to_index < length s.children = ground (arith, h) in
      let (s', done, kids, v') = move-IsIndexed s child i to_index v e bound in
      (s', rw (index_of_lem s child v, e) done, kids ∙ ground (arith, h), v')
]

edit-Follows :
    (e : Edit) (s : ParentShadow) (ys : List ℕ)
    → IsIndexed s
    → edited e s.children ≡ some ys
    → Follows e s ys
edit-Follows (insertion child index) = insertion-Follows child index
edit-Follows (removal child) = removal-Follows child
edit-Follows (moving child to_index) = moving-Follows child to_index

edit_all_lem :
    (edits : List Edit) (s : ParentShadow) (ys : List ℕ)
    → IsIndexed s
    → edited_all edits s.children ≡ some ys
    → (s' : ParentShadow) × (edit_all edits s ≡ ok s') × (s'.children ≡ ys) × IsIndexed s'
unfolding edit_all
edit_all_lem [] s ys v h = (s, refl, ground (arith, h), v)
edit_all_lem (e ∷ edits) s ys v h = elim (Option-cases (edited e s.children)) [
  | inl n ↦ absurd (ground (arith, h, n))
  | inr (xs, n) ↦
      let (s1, done, kids, v1) = edit-Follows e s xs v n in
      let rest : edited_all edits s1.children ≡ some ys = rw kids (ground (arith, h, n)) in
      let (s2, done2, kids2, v2) = edit_all_lem edits s1 ys v1 rest in
      (s2, rw done done2, kids2, v2)
]

-- A shadow of a list without repetition, after insertions of new children, removals and moves of
-- known ones, with indices in range, in any number and order: none of them raises, the list is the
-- one that the same edits make of the plain list, and the constant-time `index_of` answers as a
-- search of it does, with a KeyError exactly for a child that is not in it.
pub edit_all-index_of :
    (edits : List Edit) (parent_id : ℕ) (children xs : List ℕ)
    → NoRepeat children
    → edited_all edits children ≡ some xs
    → (s : ParentShadow) × (edit_all edits (shadow_of parent_id children) ≡ ok s)
      × (s.children ≡ xs)
      × ((c : ℕ) → index_of c s ≡ elim (position c xs) [ none ↦ raise key_error | some k ↦ ok k ])
unfolding shadow_of
edit_all-index_of edits parent_id children xs d h =
    let (s, done, kids, v) =
      edit_all_lem edits (shadow_of parent_id children) xs
        (shadow_of-IsIndexed parent_id children d) h in
    (s, done, kids, λ c. rw (sym kids) (index_of_lem s c v))
