-- ===== src/Protocol/Bridge/Termination.antt =====
-- The stack that _validate_bridge_value needs (packages/vyne/src/vyne/protocol.py), by the number of
-- containers.
use vyne.Common.{
  ==_iff, All, Bool-cases, List, Option, Result, String, [], arith, false, inl, inr, length, none,
  raise, recursion_error, refl, some, suc, true, zero, ℕ, ◌+◌, ◌<◌, ◌∷◌, ◌≡◌, ◌≢◌, ◌≤◌,
  if◌then◌else◌,
}
use vyne.Common.Maps.{among, nat_eq}
use vyne.Protocol.Bridge.{
  Container, Object, mapping, py_bool, py_float, py_int, py_none, py_str, reference, sequence,
  unsupported, validate_all, validate_bridge_value, validate_container, validate_items,
}
use vyne.Protocol.Bridge.Unfolding.{Each, Each-map}
use vyne.Protocol.Values.{Floats}

-- How many of the containers are not seen.
abbrev pub unseen : List ℕ → List ℕ → ℕ
unseen seen [] = 0
unseen seen (a ∷ addresses) = (if among a seen then 0 else 1) + unseen seen addresses

unseen-more :
    (a : ℕ) (seen addresses : List ℕ) → unseen (a ∷ seen) addresses ≤ unseen seen addresses
unseen-more a seen [] = omega arith
unseen-more a seen (b ∷ addresses) = ground (arith, unseen-more a seen addresses)

pub unseen-less :
    (a : ℕ) (seen addresses : List ℕ)
    → among a addresses ≡ true
    → among a seen ≡ false
    → unseen (a ∷ seen) addresses < unseen seen addresses
unseen-less a seen [] h n = absurd (ground arith)
unseen-less a seen (b ∷ addresses) h n = elim (Bool-cases (nat_eq.beq b a)) [
  | inl e ↦ ground (arith, nat_eq.beq_iff b a, ==_iff a a, unseen-more a seen addresses)
  | inr e ↦ ground (arith, unseen-less a seen addresses)
]

pub unseen-none : (addresses : List ℕ) → unseen [] addresses ≡ length addresses
unseen-none [] = refl
unseen-none (a ∷ addresses) = ground (arith, unseen-none addresses)

module _ {F : Type 0} (f : Object F → Result (Unit {0})) where
  -- Where no item runs out of stack, the container does not.
  validate_all-bounded :
      (os : List (Object F))
      → All (λ o. f o ≢ raise recursion_error) os
      → validate_all f os ≢ raise recursion_error
  unfolding validate_all
  validate_all-bounded [] h = ground arith
  validate_all-bounded (o ∷ os) (h, hs) = ground (arith, validate_all-bounded os hs)

  validate_items-bounded :
      (items : List (Option String × Object F))
      → All (λ (i : Option String × Object F). f i.1 ≢ raise recursion_error) items
      → validate_items f items ≢ raise recursion_error
  unfolding validate_items
  validate_items-bounded [] h = ground arith
  validate_items-bounded ((none, o) ∷ items) (h, hs) = ground arith
  validate_items-bounded ((some key, o) ∷ items) (h, hs) =
      ground (arith, validate_items-bounded items hs)

  validate_container-bounded :
      (c : Container F)
      → Each (λ o. f o ≢ raise recursion_error) c
      → validate_container f c ≢ raise recursion_error
  unfolding validate_container
  validate_container-bounded (mapping items) h = validate_items-bounded items h
  validate_container-bounded (sequence os) h = validate_all-bounded os h

module _ {F : Type 0} (addresses : List ℕ) where
  -- The object is no container but one of these.
  abbrev pub Among : Object F → Type 0
  Among (reference a) = among a addresses ≡ true
  Among _ = Unit

  -- These containers hold no other ones.
  abbrev pub IsClosed : (ℕ → Container F) → Type 0
  IsClosed heap = (a : ℕ) → among a addresses ≡ true → Each Among (heap a)

module _ {F : Type 0} (floats : Floats F) (heap : ℕ → Container F) (addresses : List ℕ)
    (closed : IsClosed addresses heap) where
  bounded :
      (room : ℕ) (seen : List ℕ) (o : Object F)
      → Among addresses o
      → unseen seen addresses < room
      → validate_bridge_value floats heap room seen o ≢ raise recursion_error
  unfolding validate_bridge_value
  bounded zero seen o m l = absurd (omega arith)
  bounded (suc d) seen py_none m l = ground arith
  bounded (suc d) seen (py_bool b) m l = ground arith
  bounded (suc d) seen (py_str s) m l = ground arith
  bounded (suc d) seen (py_int i) m l = ground arith
  bounded (suc d) seen (py_float r) m l = ground arith
  bounded (suc d) seen unsupported m l = ground arith
  bounded (suc d) seen (reference a) m l = elim (Bool-cases (among a seen)) [
    | inl e ↦ ground arith
    | inr e ↦
        let inner = validate_bridge_value floats heap d (a ∷ seen) in
        let less = unseen-less a seen addresses m e in
        let each =
          Each-map (Among addresses) (λ o. inner o ≢ raise recursion_error)
            (λ o k. bounded d (a ∷ seen) o k (omega arith)) (heap a) (closed a m) in
        let whole = validate_container-bounded inner (heap a) each in ground arith
  ]

  -- However the containers refer to one another, in a cycle too: with room for one call more than
  -- there are containers, the validation of any value made of them ends without running out of stack.
  pub validate-terminates :
      (room : ℕ) (o : Object F)
      → Among addresses o
      → length addresses < room
      → validate_bridge_value floats heap room [] o ≢ raise recursion_error
  validate-terminates room o m l = bounded room [] o m (rw (unseen-none addresses) l)
