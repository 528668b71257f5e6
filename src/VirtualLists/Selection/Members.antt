-- ===== src/VirtualLists/Selection/Members.antt =====
-- What sorting, filtering and cutting keep of a list (for the realization policy of
-- packages/vyne/src/vyne/_lists/contracts.py).
use vyne.Common.{Bool-cases, true, arith, refl, sym, ◌≡◌, ◌⊎◌, inl, inr}
use vyne.Common.{Bool, List, [], drop, length, suc, take, zero, ℕ, ◌++◌, ◌∷◌}
use vyne.VirtualLists.Selection.{insort, keep_if, sort}

module _ {A : Type 0} where
  abbrev pub In : A → List A → Type 0
  In x [] = ⊥
  In x (y ∷ ys) = (x ≡ y) ⊎ In x ys

  pub In-append_left : (x : A) (xs ys : List A) → In x xs → In x (xs ++ ys)
  In-append_left x [] ys h = elim h [ ]
  In-append_left x (z ∷ zs) ys h = elim h [ inl e ↦ inl e | inr q ↦ inr (In-append_left x zs ys q) ]

  pub In-append : (x : A) (xs ys : List A) → In x (xs ++ ys) → In x xs ⊎ In x ys
  In-append x [] ys h = inr h
  In-append x (z ∷ zs) ys h = elim h [
    | inl e ↦ inl (inl e)
    | inr q ↦ elim (In-append x zs ys q) [ inl a ↦ inl (inr a) | inr b ↦ inr b ]
  ]

  pub In-take : (x : A) (n : ℕ) (xs : List A) → In x (take n xs) → In x xs
  In-take x zero xs h = elim h [ ]
  In-take x (suc n) [] h = h
  In-take x (suc n) (z ∷ zs) h = elim h [ inl e ↦ inl e | inr q ↦ inr (In-take x n zs q) ]

  pub In-drop : (x : A) (n : ℕ) (xs : List A) → In x (drop n xs) → In x xs
  In-drop x zero xs h = h
  In-drop x (suc n) [] h = h
  In-drop x (suc n) (z ∷ zs) h = inr (In-drop x n zs h)

  module _ (le : A → A → Bool) where
    In-insort : (x y : A) (xs : List A) → In x (insort le y xs) → (x ≡ y) ⊎ In x xs
    unfolding insort
    In-insort x y [] h = h
    In-insort x y (z ∷ zs) h = elim (Bool-cases (le y z)) [
      | inl t ↦ rw t at h
      | inr t ↦
          let h' : (x ≡ z) ⊎ In x (insort le y zs) = rw t at h in
          elim h' [
            | inl e ↦ inr (inl e)
            | inr q ↦ elim (In-insort x y zs q) [ inl e ↦ inl e | inr r ↦ inr (inr r) ]
          ]
    ]

    insort-In : (x y : A) (xs : List A) → (x ≡ y) ⊎ In x xs → In x (insort le y xs)
    unfolding insort
    insort-In x y [] h = h
    insort-In x y (z ∷ zs) h = elim (Bool-cases (le y z)) [
      | inl t ↦ rw t h
      | inr t ↦ rw t (elim h [
        | inl e ↦ inr (insort-In x y zs (inl e))
        | inr q ↦ elim q [ inl e ↦ inl e | inr r ↦ inr (insort-In x y zs (inr r)) ]
      ])
    ]

    pub In-sort : (x : A) (xs : List A) → In x (sort le xs) → In x xs
    unfolding sort
    In-sort x [] h = h
    In-sort x (z ∷ zs) h = elim (In-insort x z (sort le zs) h) [
      | inl e ↦ inl e
      | inr q ↦ inr (In-sort x zs q)
    ]

    pub sort-In : (x : A) (xs : List A) → In x xs → In x (sort le xs)
    unfolding sort
    sort-In x [] h = h
    sort-In x (z ∷ zs) h =
        insort-In x z (sort le zs) (elim h [ inl e ↦ inl e | inr q ↦ inr (sort-In x zs q) ])

    length-insort : (x : A) (xs : List A) → length (insort le x xs) ≡ suc (length xs)
    unfolding insort
    length-insort x [] = refl
    length-insort x (z ∷ zs) = ground (arith, length-insort x zs)

    pub length-sort : (xs : List A) → length (sort le xs) ≡ length xs
    unfolding sort
    length-sort [] = refl
    length-sort (z ∷ zs) = ground (arith, length-insort z (sort le zs), length-sort zs)

  pub In-keep_if :
      (keep : A → Bool) (x : A) (xs : List A) → In x (keep_if keep xs) → In x xs × (keep x ≡ true)
  unfolding keep_if
  In-keep_if keep x [] h = elim h [ ]
  In-keep_if keep x (z ∷ zs) h = elim (Bool-cases (keep z)) [
    | inl t ↦
        let h' : (x ≡ z) ⊎ In x (keep_if keep zs) = rw t at h in
        elim h' [
          | inl e ↦ (inl e, rw e t)
          | inr q ↦ let r = In-keep_if keep x zs q in (inr r.0, r.1)
        ]
    | inr t ↦
        let h' : In x (keep_if keep zs) = rw t at h in
        let r = In-keep_if keep x zs h' in (inr r.0, r.1)
  ]

  pub keep_if-In :
      (keep : A → Bool) (x : A) (xs : List A) → In x xs → keep x ≡ true → In x (keep_if keep xs)
  unfolding keep_if
  keep_if-In keep x [] h k = h
  keep_if-In keep x (z ∷ zs) h k = elim (Bool-cases (keep z)) [
    | inl t ↦ rw t (elim h [ inl e ↦ inl e | inr q ↦ inr (keep_if-In keep x zs q k) ])
    | inr t ↦ rw t (elim h [
      | inl e ↦ let f : keep z ≡ true = rw (sym e) k in ground arith
      | inr q ↦ keep_if-In keep x zs q k
    ])
  ]
