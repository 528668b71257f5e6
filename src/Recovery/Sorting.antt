-- ===== src/Recovery/Sorting.antt =====
-- `sorted(d.items())` of a dict with text keys, as packages/vyne/src/vyne/recovery.py uses it.
use Prim.Native.String.{compare}
use text.Mathlib.Text.{is_lt}
use vyne.Common.{
  Bool-cases, List, String, [], arith, if◌then◌else◌, inl, inr, none, refl, some, ◌∙◌, ◌∷◌, ◌≡◌,
}
use vyne.Common.Maps.{Distinct, lookup, string_eq}

module _ {V : Type 0} where
  -- Texts are ordered by their code points.
  unfoldable pub insort : String → V → List (String × V) → List (String × V)
  insort k v [] = (k, v) ∷ []
  insort k v ((j, w) ∷ m) =
      if is_lt (compare k j) then (k, v) ∷ (j, w) ∷ m else (j, w) ∷ insort k v m

  unfoldable pub sort_items : List (String × V) → List (String × V)
  unfolding insort
  sort_items [] = []
  sort_items ((k, v) ∷ m) = insort k v (sort_items m)

  lookup-insort :
      (k j : String) (v : V) (m : List (String × V))
      → lookup k m ≡ none
      → lookup j (insort k v m) ≡ (if string_eq.beq k j then some v else lookup j m)
  unfolding lookup insort
  lookup-insort k j v [] h = refl
  lookup-insort k j v ((i, w) ∷ m) h = elim (Bool-cases (is_lt (compare k i))) [
    | inl e ↦ rw e refl
    | inr e ↦ rw e (
        ground (
          arith,
          string_eq.beq_iff i j,
          string_eq.beq_iff k j,
          string_eq.beq_iff i k,
          lookup-insort k j v m,
        ))
  ]

  pub lookup-sort_items :
      (j : String) (m : List (String × V)) → Distinct m → lookup j (sort_items m) ≡ lookup j m
  unfolding lookup sort_items
  lookup-sort_items j [] d = refl
  lookup-sort_items j ((k, v) ∷ m) (f, d) =
      lookup-insort k j v (sort_items m) (lookup-sort_items k m d ∙ f)
      ∙ ground (arith, lookup-sort_items j m d)

  insort-Distinct :
      (k : String) (v : V) (m : List (String × V))
      → lookup k m ≡ none
      → Distinct m
      → Distinct (insort k v m)
  unfolding lookup insort
  insort-Distinct k v [] h d = (refl, tt)
  insort-Distinct k v ((i, w) ∷ m) h d = elim (Bool-cases (is_lt (compare k i))) [
    | inl e ↦ rw e (h, d)
    | inr e ↦ rw e (
      ground (arith, lookup-insort k i v m, string_eq.beq_iff i k, string_eq.beq_iff k i),
      insort-Distinct k v m (ground arith) d.1,
    )
  ]

  pub sort_items-Distinct : (m : List (String × V)) → Distinct m → Distinct (sort_items m)
  unfolding sort_items
  sort_items-Distinct [] d = tt
  sort_items-Distinct ((k, v) ∷ m) (f, d) =
      insort-Distinct k v (sort_items m) (lookup-sort_items k m d ∙ f) (sort_items-Distinct m d)
