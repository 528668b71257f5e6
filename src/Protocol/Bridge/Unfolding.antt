-- ===== src/Protocol/Bridge/Unfolding.antt =====
-- The unfolding of a value that crosses the bridge to a tree with plain leaves
-- (packages/vyne/src/vyne/protocol.py).
use vyne.Common.{
  All, List, Option, Result, String, [], arith, ok, refl, suc, true, zero, ℕ, ◌∷◌, ◌≡◌, ◌↔◌,
  is_some,
}
use vyne.Common.Maps.{nat_eq}
use vyne.Protocol.Bridge.{
  Container, Object, in_bridge_range, mapping, py_bool, py_float, py_int, py_none, py_str,
  reference, sequence, unsupported, validate_all, validate_bridge_value, validate_container,
  validate_items,
}
use vyne.Protocol.Values.{Floats}

module _ {A : Type 0} (P Q : A → Type 0) where
  pub All-map : ((a : A) → P a → Q a) → (as' : List A) → All P as' → All Q as'
  All-map f [] h = tt
  All-map f (a ∷ as') (h, hs) = (f a h, All-map f as' hs)

  All-both : (as' : List A) → All P as' → All Q as' → All (λ a. P a × Q a) as'
  All-both [] h k = tt
  All-both (a ∷ as') (h, hs) (k, ks) = ((h, k), All-both as' hs ks)

module _ {F : Type 0} (f : Object F → Result (Unit {0})) where
  validate_all_iff :
      (os : List (Object F)) → (validate_all f os ≡ ok tt) ↔ (Unit {0} × All (λ o. f o ≡ ok tt) os)
  unfolding validate_all
  validate_all_iff [] = (λ h. (tt, tt), λ h. refl)
  validate_all_iff (o ∷ os) = ground (arith, validate_all_iff os)

  validate_items_iff :
      (items : List (Option String × Object F))
      → (validate_items f items ≡ ok tt) ↔ (
          All (λ (i : Option String × Object F). is_some i.0 ≡ true) items
          × All (λ (i : Option String × Object F). f i.1 ≡ ok tt) items)
  unfolding validate_items
  validate_items_iff [] = (λ h. (tt, tt), λ h. refl)
  validate_items_iff ((key, o) ∷ items) = ground (arith, validate_items_iff items)

module _ {F : Type 0} where
  -- Every item satisfies the predicate.
  abbrev pub Each : (Object F → Type 0) → Container F → Type 0
  Each P (mapping items) = All (λ (i : Option String × Object F). P i.1) items
  Each P (sequence os) = All P os

  -- Every key is a text.
  abbrev pub HasTextKeys : Container F → Type 0
  HasTextKeys (mapping items) = All (λ (i : Option String × Object F). is_some i.0 ≡ true) items
  HasTextKeys (sequence os) = Unit

  pub Each-map :
      (P Q : Object F → Type 0) (f : (o : Object F) → P o → Q o) (c : Container F)
      → Each P c
      → Each Q c
  Each-map P Q f (mapping items) h = All-map (λ i. P i.1) (λ i. Q i.1) (λ i. f i.1) items h
  Each-map P Q f (sequence os) h = All-map P Q f os h

  pub Each-both :
      (P Q : Object F → Type 0) (c : Container F) → Each P c → Each Q c → Each (λ o. P o × Q o) c
  Each-both P Q (mapping items) h k = All-both (λ i. P i.1) (λ i. Q i.1) items h k
  Each-both P Q (sequence os) h k = All-both P Q os h k

  -- The validation of a container accepts it if the keys are texts and every item is accepted.
  pub validate_container_iff :
      (f : Object F → Result (Unit {0})) (c : Container F)
      → (validate_container f c ≡ ok tt) ↔ (HasTextKeys c × Each (λ o. f o ≡ ok tt) c)
  unfolding validate_container
  validate_container_iff f (mapping items) = validate_items_iff f items
  validate_container_iff f (sequence os) = validate_all_iff f os

module _ {F : Type 0} (floats : Floats F) (heap : ℕ → Container F) where
  -- The value unfolds to a tree of at most that height: its containers have text keys, its integers
  -- are within 64 bits, its floats are finite, and nothing in it is of another type.
  unfoldable pub Unfolds : ℕ → Object F → Type 0
  Unfolds zero o = ⊥
  Unfolds (suc d) py_none = Unit
  Unfolds (suc d) (py_bool b) = Unit
  Unfolds (suc d) (py_str s) = Unit
  Unfolds (suc d) (py_int i) = in_bridge_range i ≡ true
  Unfolds (suc d) (py_float r) = floats.finite r ≡ true
  Unfolds (suc d) (reference a) = HasTextKeys (heap a) × Each (Unfolds d) (heap a)
  Unfolds (suc d) unsupported = ⊥

  pub Unfolds-suc : (d : ℕ) (o : Object F) → Unfolds d o → Unfolds (suc d) o
  unfolding Unfolds
  Unfolds-suc zero o h = absurd h
  Unfolds-suc (suc d) py_none h = tt
  Unfolds-suc (suc d) (py_bool b) h = tt
  Unfolds-suc (suc d) (py_str s) h = tt
  Unfolds-suc (suc d) (py_int i) h = h
  Unfolds-suc (suc d) (py_float r) h = h
  Unfolds-suc (suc d) (reference a) (t, h) =
      (t, Each-map (Unfolds d) (Unfolds (suc d)) (Unfolds-suc d) (heap a) h)
  Unfolds-suc (suc d) unsupported h = absurd h

  -- A value that passes unfolds.
  pub validate-Unfolds :
      (room : ℕ) (seen : List ℕ) (o : Object F)
      → validate_bridge_value floats heap room seen o ≡ ok tt
      → Unfolds room o
  unfolding Unfolds validate_bridge_value
  validate-Unfolds zero seen o h = absurd (ground arith)
  validate-Unfolds (suc d) seen py_none h = tt
  validate-Unfolds (suc d) seen (py_bool b) h = tt
  validate-Unfolds (suc d) seen (py_str s) h = tt
  validate-Unfolds (suc d) seen (py_int i) h = ground arith
  validate-Unfolds (suc d) seen (py_float r) h = ground arith
  validate-Unfolds (suc d) seen (reference a) h =
      let inner = validate_bridge_value floats heap d (a ∷ seen) in
      let passed : validate_container inner (heap a) ≡ ok tt = ground arith in
      let (t, e) = (validate_container_iff inner (heap a)).0 passed in
      (t, Each-map (λ o. inner o ≡ ok tt) (Unfolds d) (validate-Unfolds d (a ∷ seen)) (heap a) e)
  validate-Unfolds (suc d) seen unsupported h = absurd (ground arith)
