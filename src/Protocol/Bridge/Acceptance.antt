-- ===== src/Protocol/Bridge/Acceptance.antt =====
-- Which values _validate_bridge_value accepts (packages/vyne/src/vyne/protocol.py), against their
-- unfolding to a tree.
use vyne.Common.{
  All, Bool-cases, List, [], arith, inl, inr, length, ok, refl, subst, suc, true, zero, ℕ, ◌<◌, ◌∷◌,
  ◌≡◌, ◌↔◌,
}
use vyne.Common.Maps.{among, nat_eq}
use vyne.Protocol.Bridge.{
  Container, Object, mapping, py_bool, py_float, py_int, py_none, py_str, reference, sequence,
  unsupported, validate_bridge_value,
}
use vyne.Protocol.Bridge.Termination.{Among, IsClosed, unseen, unseen-less, unseen-none}
use vyne.Protocol.Bridge.Unfolding.{
  All-map, Each, Each-both, Each-map, Unfolds, Unfolds-suc, validate-Unfolds,
  validate_container_iff,
}
use vyne.Protocol.Values.{Floats}

-- Each of some items is one of them.
All-inside :
    {A : Type 0} (P : ℕ → A → Type 0) (items : List A)
    → All (λ x. (d : ℕ) → All (P d) items → P d x) items
All-inside P [] = tt
All-inside P (x ∷ items) = (
  λ d h. h.0,
  All-map (λ y. (d : ℕ) → All (P d) items → P d y) (λ y. (d : ℕ) → All (P d) (x ∷ items) → P d y)
      (λ y f d h. f d h.1) items (All-inside P items),
)

Each-inside :
    {F : Type 0} (P : ℕ → Object F → Type 0) (c : Container F)
    → Each (λ o. (d : ℕ) → Each (P d) c → P d o) c
Each-inside P (mapping items) = All-inside (λ d i. P d i.1) items
Each-inside P (sequence os) = All-inside P os

All-among : (P : ℕ → Type 0) (a : ℕ) (seen : List ℕ) → All P seen → among a seen ≡ true → P a
All-among P a [] h m = absurd (ground arith)
All-among P a (b ∷ seen) (h, hs) m = elim (Bool-cases (nat_eq.beq b a)) [
  | inl e ↦ subst P ((nat_eq.beq_iff b a).0 e) h
  | inr e ↦ All-among P a seen hs (ground arith)
]

module _ {F : Type 0} (floats : Floats F) (heap : ℕ → Container F) where
  -- The object stands strictly inside the container.
  abbrev Below : Object F → ℕ → Type 0
  Below o a = (d : ℕ) → Unfolds floats heap (suc d) (reference a) → Unfolds floats heap d o

  -- No container that unfolds stands inside itself.
  no_cycle : (a : ℕ) → Below (reference a) a → (d : ℕ) → Unfolds floats heap d (reference a) → ⊥
  unfolding Unfolds
  no_cycle a inside zero u = absurd u
  no_cycle a inside (suc d) u = no_cycle a inside d (inside d u)

  -- What stands inside a container unfolds as high as the container does.
  inner-Unfolds :
      (a : ℕ) (o : Object F)
      → ((d : ℕ) → Each (Unfolds floats heap d) (heap a) → Unfolds floats heap d o)
      → (d : ℕ) → Unfolds floats heap d (reference a)
      → Unfolds floats heap d o
  unfolding Unfolds
  inner-Unfolds a o inside zero u = absurd u
  inner-Unfolds a o inside (suc d) (t, u) = Unfolds-suc floats heap d o (inside d u)

  Below-cons :
      (a : ℕ) (o : Object F) (seen : List ℕ)
      → ((d : ℕ) → Each (Unfolds floats heap d) (heap a) → Unfolds floats heap d o)
      → All (Below (reference a)) seen
      → All (Below o) (a ∷ seen)
  unfolding Unfolds
  Below-cons a o seen inside h = (
    λ d u. inside d u.1,
    All-map (Below (reference a)) (Below o) (λ s b d u. inner-Unfolds a o inside d (b d u)) seen h,
  )

module _ {F : Type 0} (floats : Floats F) (heap : ℕ → Container F) (addresses : List ℕ)
    (closed : IsClosed addresses heap) where
  accepts :
      (room : ℕ) (seen : List ℕ) (o : Object F) (d : ℕ)
      → Among addresses o
      → unseen seen addresses < room
      → All (Below floats heap o) seen
      → Unfolds floats heap d o
      → validate_bridge_value floats heap room seen o ≡ ok tt
  unfolding validate_bridge_value Unfolds
  accepts zero seen o d m l b u = absurd (omega arith)
  accepts (suc r) seen o zero m l b u = absurd u
  accepts (suc r) seen py_none (suc d) m l b u = refl
  accepts (suc r) seen (py_bool x) (suc d) m l b u = refl
  accepts (suc r) seen (py_str s) (suc d) m l b u = refl
  accepts (suc r) seen (py_int i) (suc d) m l b u = ground arith
  accepts (suc r) seen (py_float x) (suc d) m l b u = ground arith
  accepts (suc r) seen unsupported (suc d) m l b u = absurd u
  accepts (suc r) seen (reference a) (suc d) m l b (t, u) = elim (Bool-cases (among a seen)) [
    | inl e ↦ absurd (
        no_cycle floats heap a (All-among (Below floats heap (reference a)) a seen b e) (suc d)
          (t, u))
    | inr e ↦
        let inner = validate_bridge_value floats heap r (a ∷ seen) in
        let less = unseen-less a seen addresses m e in
        let U = Unfolds floats heap in
        let Inside : Object F → Type 0 = λ o. (d : ℕ) → Each (U d) (heap a) → U d o in
        let parts =
          Each-both (Among addresses) (λ o. U d o × Inside o) (heap a) (closed a m)
            (Each-both (U d) Inside (heap a) u (Each-inside U (heap a))) in
        let each =
          Each-map (λ o. Among addresses o × (U d o × Inside o)) (λ o. inner o ≡ ok tt)
            (λ o (k, (v, i)).
              accepts r (a ∷ seen) o d k (omega arith) (Below-cons floats heap a o seen i b) v)
            (heap a) parts in
        let whole = (validate_container_iff inner (heap a)).1 (t, each) in ground arith
  ]

  -- With room for one call more than there are containers, a value made of them passes exactly when
  -- it unfolds to a tree of some height: with text keys, integers within 64 bits, finite floats and
  -- nothing of another type. A container that stands several times in it does no harm.
  pub validate-bridge_iff :
      (room : ℕ) (o : Object F)
      → Among addresses o
      → length addresses < room
      → (validate_bridge_value floats heap room [] o ≡ ok tt) ↔ ((d : ℕ) × Unfolds floats heap d o)
  validate-bridge_iff room o m l = (
    λ h. (room, validate-Unfolds floats heap room [] o h),
    λ (d, u). accepts room [] o d m (rw (unseen-none addresses) l) tt u,
  )
