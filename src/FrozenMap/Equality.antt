-- ===== src/FrozenMap/Equality.antt =====
-- The equality of FrozenMaps (packages/vyne/src/vyne/values.py), against their items.
use vyne.Common.{
  All, Bool-cases, List, Option-cases, String, [], arith, inl, inr, length, none, refl, some, suc,
  true, ◌∙◌, ◌∷◌, ◌≡◌, ◌↔◌, sym,
}
use vyne.Common.Maps.{Distinct, Eq, delete, lookup, lookup-delete, string_eq}
use vyne.FrozenMap.{all_same, equals}

module _ {V : Type 0} where
  -- Two maps with the same items, in whatever order.
  abbrev pub SameItems : List (String × V) → List (String × V) → Type 0
  SameItems a b = (k : String) → lookup k a ≡ lookup k b

  delete-none : (k : String) (m : List (String × V)) → lookup k m ≡ none → delete k m ≡ m
  unfolding lookup delete
  delete-none k [] h = refl
  delete-none k ((j, v) ∷ m) h = ground (arith, delete-none k m)

  length-delete :
      (k : String) (v : V) (m : List (String × V))
      → Distinct m
      → lookup k m ≡ some v
      → length m ≡ suc (length (delete k m))
  unfolding lookup delete
  length-delete k v [] d h = absurd (ground arith)
  length-delete k v ((j, w) ∷ m) (d, ds) h = elim (Bool-cases (string_eq.beq j k)) [
    | inl e ↦ ground (arith, string_eq.beq_iff j k, delete-none k m)
    | inr e ↦ ground (arith, length-delete k v m)
  ]

  delete-Distinct : (k : String) (m : List (String × V)) → Distinct m → Distinct (delete k m)
  unfolding delete lookup
  delete-Distinct k [] d = tt
  delete-Distinct k ((j, w) ∷ m) (d, ds) = elim (Bool-cases (string_eq.beq j k)) [
    | inl e ↦ rw e (delete-Distinct k m ds)
    | inr e ↦ rw e (ground (arith, lookup-delete k j m), delete-Distinct k m ds)
  ]

  -- What is left of two maps without a key of both.
  SameItems-delete :
      (k : String) (v : V) (m other : List (String × V))
      → lookup k m ≡ none
      → SameItems ((k, v) ∷ m) other
      → SameItems m (delete k other)
  unfolding lookup
  SameItems-delete k v m other n h j =
      ground (arith, h j, lookup-delete k j other, string_eq.beq_iff k j)

  SameItems-cons :
      (k : String) (v : V) (m other : List (String × V))
      → lookup k other ≡ some v
      → SameItems m (delete k other)
      → SameItems ((k, v) ∷ m) other
  unfolding lookup
  SameItems-cons k v m other n h j =
      ground (arith, h j, lookup-delete k j other, string_eq.beq_iff k j)

  SameItems-length :
      (a b : List (String × V)) → Distinct a → Distinct b → SameItems a b → length a ≡ length b
  unfolding lookup
  SameItems-length [] [] d e h = refl
  SameItems-length [] ((k, v) ∷ b) d e h = absurd (ground (arith, h k, string_eq.beq_iff k k))
  SameItems-length ((k, v) ∷ a) b (d, ds) e h =
      let here : lookup k b ≡ some v = ground (arith, h k, string_eq.beq_iff k k) in
      let rest =
        SameItems-length a (delete k b) ds (delete-Distinct k b e) (SameItems-delete k v a b d h) in
      ground (arith, length-delete k v b)

  -- Every item of the first stands in the second.
  abbrev AllIn : List (String × V) → List (String × V) → Type 0
  AllIn items m = All (λ (p : String × V). lookup p.0 m ≡ some p.1) items

  AllIn-cons :
      (k : String) (v : V) (items m : List (String × V))
      → lookup k items ≡ none
      → AllIn items m
      → AllIn items ((k, v) ∷ m)
  unfolding lookup
  AllIn-cons k v [] m n h = tt
  AllIn-cons k v ((j, w) ∷ items) m n (h, hs) = (
    ground (arith, string_eq.beq_iff k j, string_eq.beq_iff j k),
    AllIn-cons k v items m (ground (arith)) hs,
  )

  AllIn-delete :
      (k : String) (items m : List (String × V))
      → lookup k items ≡ none
      → AllIn items m
      → AllIn items (delete k m)
  unfolding lookup
  AllIn-delete k [] m n h = tt
  AllIn-delete k ((j, w) ∷ items) m n (h, hs) = (
    ground (arith, lookup-delete k j m, string_eq.beq_iff k j, string_eq.beq_iff j k),
    AllIn-delete k items m (ground arith) hs,
  )

  AllIn-self : (m : List (String × V)) → Distinct m → AllIn m m
  unfolding lookup
  AllIn-self [] d = tt
  AllIn-self ((k, v) ∷ m) (d, ds) =
      (ground (arith, string_eq.beq_iff k k), AllIn-cons k v m m d (AllIn-self m ds))

  SameItems-AllIn :
      (items m other : List (String × V)) → SameItems m other → AllIn items m → AllIn items other
  SameItems-AllIn [] m other h a = tt
  SameItems-AllIn ((k, v) ∷ items) m other h (a, as') =
      (sym (h k) ∙ a, SameItems-AllIn items m other h as')

  AllIn-SameItems :
      (a b : List (String × V))
      → Distinct a
      → Distinct b
      → length a ≡ length b
      → AllIn a b
      → SameItems a b
  unfolding lookup
  AllIn-SameItems [] [] d e l h k = refl
  AllIn-SameItems [] ((j, w) ∷ b) d e l h k = absurd (omega arith)
  AllIn-SameItems ((j, v) ∷ a) b (d, ds) e l (h, hs) k =
      SameItems-cons j v a b h
        (AllIn-SameItems a (delete j b) ds (delete-Distinct j b e)
          (ground (arith, length-delete j v b)) (AllIn-delete j a b d hs))
        k

module _ {V : Type 0} ⦃e : Eq V⦄ where
  all_same_iff :
      (items m other : List (String × V))
      → AllIn items m
      → (all_same items m other ≡ true) ↔ AllIn items other
  unfolding all_same
  all_same_iff [] m other h = (λ x. tt, λ x. refl)
  all_same_iff ((k, v) ∷ items) m other (h, hs) = elim (Option-cases (lookup k other)) [
    | inl n ↦ ground (arith, all_same_iff items m other)
    | inr (w, s) ↦ ground (arith, e.beq_iff v w, all_same_iff items m other)
  ]

  -- Two FrozenMaps, no key twice in either, are equal exactly when they have the same items, in
  -- whatever order they were added.
  pub equals_iff :
      (a b : List (String × V)) → Distinct a → Distinct b → (equals a b ≡ true) ↔ SameItems a b
  unfolding equals
  equals_iff a b d d' = (
    λ h.
        AllIn-SameItems a b d d' (ground arith)
          ((all_same_iff a a b (AllIn-self a d)).0 (ground arith)),
    λ s.
        let l = SameItems-length a b d d' s in
        let t =
          (all_same_iff a a b (AllIn-self a d)).1 (SameItems-AllIn a a b s (AllIn-self a d)) in
        ground arith,
  )
