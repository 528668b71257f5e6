-- ===== src/Protocol/Encoding.antt =====
-- The operations of a plan as the dicts that reconcile.py and recovery.py write, and the commit
-- messages around them, against the validation of protocol.py (packages/vyne/src/vyne).
use vyne.Common.{
  is_some, All, List, Option, String, [], arith, none, ok, refl, some, true, ℕ, ◌∷◌, ◌≡◌, ◌≤◌, ◌↔◌,
}
use vyne.Common.Ints.{negsuc, pos, ℤ}
use vyne.Common.Maps.{string_eq}
use vyne.Protocol.Checks.{Registry}
use vyne.Protocol.Commits.{validate_operation, validate_operations}
use vyne.Protocol.Events.{validate_message}
use vyne.Protocol.Operations.{validate_props, validate_value}
use vyne.Protocol.Values.{
  Fields, Floats, Value, Values, cons, end, field, integer, items, nil, object, text,
}
use vyne.Reconcile.Model.{
  Op, clear, listen, listen_latest, unlisten, create, insert_child, move_child, remove,
  remove_child, remove_prop, set_prop, set_props,
}

module _ {F : Type 0} where
  abbrev number : ℕ → Value F
  number n = integer (pos n)

  abbrev pub encode_props : List (String × Value F) → Fields F
  encode_props [] = end
  encode_props ((name, value) ∷ props) = field name value (encode_props props)

  abbrev named : String → Fields F → Fields F
  named op rest = field "op" (text op) rest

  -- The dict of an operation: those of a snapshot, and those that the planner writes in the same way.
  unfoldable pub encode : Op (Value F) → Fields F
  encode (create id kind) = named "create" (field "id" (number id) (field "kind" (text kind) end))
  encode (set_props id props) =
      named "set_props" (field "id" (number id) (field "props" (object (encode_props props)) end))
  encode (set_prop id name value) =
      named "set_prop" (field "id" (number id) (field "name" (text name) (field "value" value end)))
  encode (remove_prop id name) =
      named "remove_prop" (field "id" (number id) (field "name" (text name) end))
  encode (insert_child parent child index) = named "insert_child" (
      field "parent" (number parent)
        (field "child" (number child) (field "index" (number index) end)))
  encode (move_child parent child index) = named "move_child" (
      field "parent" (number parent)
        (field "child" (number child) (field "index" (number index) end)))
  encode (remove_child parent child) =
      named "remove_child" (field "parent" (number parent) (field "child" (number child) end))
  encode (remove id) = named "remove" (field "id" (number id) end)
  encode (clear id) = named "clear" (field "id" (number id) end)
  encode (listen id event handler) =
      named "listen"
        (field "id" (number id) (field "event" (text event) (field "handler" (number handler) end)))
  encode (listen_latest id event handler) =
      named "listen_latest"
        (field "id" (number id) (field "event" (text event) (field "handler" (number handler) end)))
  encode (unlisten id event) =
      named "unlisten" (field "id" (number id) (field "event" (text event) end))

  unfoldable pub encode_all : List (Op (Value F)) → Values F
  unfolding encode
  encode_all [] = nil
  encode_all (op ∷ ops) = cons (object (encode op)) (encode_all ops)

  -- The dict of a commit, with `origin_event_seq` where one is given.
  unfoldable pub encode_commit : ℤ → Option ℤ → List (Op (Value F)) → Fields F
  unfolding encode_all
  encode_commit revision origin_event_seq ops = field "type" (text "commit") (
      field "revision" (integer revision) (
        field "ops" (items (encode_all ops)) (elim origin_event_seq [
          | none ↦ end
          | some sequence ↦ field "origin_event_seq" (integer sequence) end
        ])))

  -- `error_commit`, with the prefix put before the message.
  unfoldable pub error_ops : String → List (Op (Value F))
  error_ops text' =
      clear 0
      ∷ create 1 "Layout"
      ∷ set_props 1 (("orientation", text "vertical") ∷ [])
      ∷ insert_child 0 1 0
      ∷ create 2 "Text"
      ∷ set_props 2 (("text", text text') ∷ [])
      ∷ insert_child 1 2 0
      ∷ []

  -- What `_send_error_commit` (runtime.py) falls back to.
  unfoldable pub fallback_ops : String → List (Op (Value F))
  fallback_ops text' =
      clear 0 ∷ create 1 "Text" ∷ set_props 1 (("text", text text') ∷ []) ∷ insert_child 0 1 0 ∷ []

-- What the validation asks of the revision: it is not below -1.
abbrev pub IsRevision : ℤ → Type 0
IsRevision (pos n) = Unit
IsRevision (negsuc n) = n ≡ 0

-- And of the sequence number of the event that the commit answers, if there is one.
abbrev pub IsOrigin : Option ℤ → Type 0
IsOrigin none = Unit
IsOrigin (some (pos n)) = Unit
IsOrigin (some (negsuc n)) = ⊥

module _ {F : Type 0} (floats : Floats F) (registry : Registry F) where
  -- The largest node id of the host.
  abbrev pub IsNodeId : ℕ → Type 0
  IsNodeId id = id ≤ 2147483647

  abbrev pub IsKnownProp : String → Type 0
  IsKnownProp name = registry.is_known_prop name ≡ true

  abbrev pub IsKnownEvent : String → Type 0
  IsKnownEvent name = is_some (registry.event_spec name) ≡ true

  -- A property that the registry knows, with a value that it lets pass.
  abbrev pub IsValidProp : String × Value F → Type 0
  IsValidProp (name, value) = IsKnownProp name × (validate_value floats registry name value ≡ ok tt)

  -- What the validation asks of each operation.
  abbrev pub IsValidOp : Op (Value F) → Type 0
  IsValidOp (create id kind) = IsNodeId id × (registry.is_kind kind ≡ true)
  IsValidOp (set_props id props) = IsNodeId id × All IsValidProp props
  IsValidOp (set_prop id name value) = IsNodeId id × IsValidProp (name, value)
  IsValidOp (remove_prop id name) = IsNodeId id × IsKnownProp name
  IsValidOp (insert_child parent child index) = IsNodeId parent × IsNodeId child
  IsValidOp (move_child parent child index) = IsNodeId parent × IsNodeId child
  IsValidOp (remove_child parent child) = IsNodeId parent × IsNodeId child
  IsValidOp (remove id) = IsNodeId id
  IsValidOp (clear id) = IsNodeId id
  IsValidOp (listen id event handler) = IsNodeId id × IsKnownEvent event
  IsValidOp (listen_latest id event handler) = IsNodeId id × IsKnownEvent event
  IsValidOp (unlisten id event) = IsNodeId id × IsKnownEvent event

  validate_props_iff :
      (props : List (String × Value F))
      → (validate_props floats registry (encode_props props) ≡ ok tt) ↔ All IsValidProp props
  unfolding validate_props
  validate_props_iff [] = (λ h. tt, λ h. refl)
  validate_props_iff ((name, value) ∷ props) = ground (arith, validate_props_iff props)

  pub validate-encode_iff :
      (op : Op (Value F)) → (validate_operation floats registry (encode op) ≡ ok tt) ↔ IsValidOp op
  unfolding validate_operation encode
  validate-encode_iff (create id kind) = ground arith
  validate-encode_iff (set_props id props) = ground (arith, validate_props_iff props)
  validate-encode_iff (set_prop id name value) = ground arith
  validate-encode_iff (remove_prop id name) = ground arith
  validate-encode_iff (insert_child parent child index) = ground arith
  validate-encode_iff (move_child parent child index) = ground arith
  validate-encode_iff (remove_child parent child) = ground arith
  validate-encode_iff (remove id) = ground arith
  validate-encode_iff (clear id) = ground arith
  validate-encode_iff (listen id event handler) = ground arith
  validate-encode_iff (listen_latest id event handler) = ground arith
  validate-encode_iff (unlisten id event) = ground arith

  validate_operations_iff :
      (ops : List (Op (Value F)))
      → (validate_operations floats registry (encode_all ops) ≡ ok tt) ↔ All IsValidOp ops
  unfolding validate_operations encode_all
  validate_operations_iff [] = (λ h. tt, λ h. refl)
  validate_operations_iff (op ∷ ops) =
      ground (arith, validate-encode_iff op, validate_operations_iff ops)

  pub validate-encode_commit :
      (revision : ℤ) (origin_event_seq : Option ℤ) (ops : List (Op (Value F)))
      → (validate_message floats registry (encode_commit revision origin_event_seq ops) ≡ ok tt)
        ↔ (IsRevision revision × IsOrigin origin_event_seq × All IsValidOp ops)
  unfolding validate_message encode_commit
  validate-encode_commit (pos n) none ops = ground (arith, validate_operations_iff ops)
  validate-encode_commit (pos n) (some (pos m)) ops = ground (arith, validate_operations_iff ops)
  validate-encode_commit (pos n) (some (negsuc m)) ops = ground (arith, validate_operations_iff ops)
  validate-encode_commit (negsuc n) none ops = ground (arith, validate_operations_iff ops)
  validate-encode_commit (negsuc n) (some (pos m)) ops = ground (arith, validate_operations_iff ops)
  validate-encode_commit (negsuc n) (some (negsuc m)) ops =
      ground (arith, validate_operations_iff ops)

  -- The error screen passes the validation in every registry that knows the two kinds and lets the
  -- layout's orientation and the text pass, and so does the plainer screen that is the fallback; the
  -- revision is not below -1.
  pub error_commit-valid :
      (revision : ℤ) (message : String)
      → IsRevision revision
      → registry.is_kind "Layout" ≡ true
      → registry.is_kind "Text" ≡ true
      → IsValidProp ("orientation", text "vertical")
      → IsValidProp ("text", text message)
      → (validate_message floats registry (encode_commit revision none (error_ops message)) ≡ ok tt)
        × (validate_message floats registry (encode_commit revision none (fallback_ops message))
            ≡ ok tt)
  unfolding error_ops fallback_ops
  error_commit-valid revision message v l t o x = (
    (validate-encode_commit revision none (error_ops message)).1 (v, tt, ground arith),
    (validate-encode_commit revision none (fallback_ops message)).1 (v, tt, ground arith),
  )
