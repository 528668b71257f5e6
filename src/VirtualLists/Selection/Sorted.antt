-- ===== src/VirtualLists/Selection/Sorted.antt =====
-- `sorted` by index (packages/vyne/src/vyne/_lists/contracts.py).
use vyne.Common.{Bool-cases, List, [], arith, inl, inr, ℕ, ◌∷◌, ◌≤◌}
use vyne.VirtualLists.Geometry.{VirtualPlacement}
use vyne.VirtualLists.Selection.{by_index, insort, sort}

-- Every element of the list has at least this index.
abbrev From : ℕ → List VirtualPlacement → Type 0
From i [] = Unit
From i (p ∷ ps) = (i ≤ p.index) × From i ps

abbrev pub IsSorted : List VirtualPlacement → Type 0
IsSorted [] = Unit
IsSorted (p ∷ ps) = From p.index ps × IsSorted ps

From-le : (i j : ℕ) (ps : List VirtualPlacement) → i ≤ j → From j ps → From i ps
From-le i j [] h f = tt
From-le i j (p ∷ ps) h (a, f) = (omega arith, From-le i j ps h f)

insort-From :
    (i : ℕ) (p : VirtualPlacement) (ps : List VirtualPlacement)
    → i ≤ p.index
    → From i ps
    → From i (insort by_index p ps)
unfolding insort
insort-From i p [] h f = (h, tt)
insort-From i p (q ∷ ps) h (a, f) = elim (Bool-cases (by_index p q)) [
  | inl e ↦ rw e (h, (a, f))
  | inr e ↦ rw e (a, insort-From i p ps h f)
]

insort-IsSorted :
    (p : VirtualPlacement) (ps : List VirtualPlacement)
    → IsSorted ps
    → IsSorted (insort by_index p ps)
unfolding insort
insort-IsSorted p [] s = (tt, tt)
insort-IsSorted p (q ∷ ps) (f, s) = elim (Bool-cases (by_index p q)) [
  | inl e ↦ rw e ((ground arith, From-le p.index q.index ps (ground arith) f), (f, s))
  | inr e ↦ rw e (insort-From q.index p ps (ground arith) f, insort-IsSorted p ps s)
]

pub sort-IsSorted : (ps : List VirtualPlacement) → IsSorted (sort by_index ps)
unfolding sort
sort-IsSorted [] = tt
sort-IsSorted (p ∷ ps) = insort-IsSorted p (sort by_index ps) (sort-IsSorted ps)
