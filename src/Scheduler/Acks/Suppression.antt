-- ===== src/Scheduler/Acks/Suppression.antt =====
-- Which property writes an event suppresses (packages/vyne/src/vyne/scheduler.py).
-- The controlled fields of an event, none for an event that has none.
use vyne.Common.{
  Bool, Bool-cases, List, Option, Option-cases, String, [], arith, false, if◌then◌else◌, inl, inr,
  none, some, ℕ, ◌&&◌, ◌==◌, ◌∙◌, ◌∷◌, ◌≡◌,
}
use vyne.Common.Maps.{lookup, lookup-insert, nat_eq, pair_eq, string_eq}
use vyne.Scheduler.Acks.{
  AcknowledgementMap, Extractors, acknowledge, acknowledged_value, extract_acknowledgements, get,
  record_fields, should_suppress,
}

abbrev pub extractors_of : String → List (String × Extractors) → Extractors
extractors_of event_name ack_extractors = elim (lookup event_name ack_extractors) [
  | none ↦ []
  | some extractors ↦ extractors
]

module _ {V : Type 0} where
  -- What an event reports for a property: the last of its fields that the payload carries.
  abbrev pub reported : Extractors → List (String × Option V) → String → Option V → Option V
  reported [] payload prop before = before
  reported ((field, prop_name) ∷ rest) payload prop before =
      reported rest payload prop (elim (get field payload) [
        | none ↦ before
        | some value ↦ if string_eq.beq prop_name prop then some value else before
      ])

  -- Only the controlled properties of the event's own node change.
  abbrev pub entry_after :
      Extractors → ℕ → List (String × Option V) → ℕ → String → Option V → Option V
  entry_after extractors target payload node prop before =
      if target == node then reported extractors payload prop before else before

  abbrev pub matches : (same : V → V → Bool) → V → Option V → Bool
  matches same desired none = false
  matches same desired (some value) = same value desired

  acknowledge_lem :
      (target : ℕ) (prop_name : String) (value : V) (entries : AcknowledgementMap V) (node : ℕ)
      (prop : String)
      → lookup (node, prop) (acknowledge target prop_name value entries) ≡ (
          if target == node && string_eq.beq prop_name prop
          then some value
          else lookup (node, prop) entries)
  unfolding acknowledge
  acknowledge_lem target prop_name value entries node prop =
      lookup-insert (target, prop_name) (node, prop) value entries

  record_fields_lem :
      (extractors : Extractors) (target : ℕ) (payload : List (String × Option V))
      (entries : AcknowledgementMap V) (node : ℕ) (prop : String)
      → lookup (node, prop) (record_fields extractors target payload entries)
        ≡ entry_after extractors target payload node prop (lookup (node, prop) entries)
  unfolding record_fields
  record_fields_lem [] target payload entries node prop = ground arith
  record_fields_lem ((field, prop_name) ∷ rest) target payload entries node prop =
      elim (Option-cases (get field payload)) [
        | inl e ↦ rw (e) (record_fields_lem rest target payload entries node prop)
        | inr (value, e) ↦ rw (e) (
            record_fields_lem rest target payload (acknowledge target prop_name value entries) node
              prop
            ∙ rw (acknowledge_lem target prop_name value entries node prop)
                (elim (Bool-cases (target == node)) [ inl t ↦ rw t | inr t ↦ rw t ]))
      ]

  -- After an event, a write of a property is suppressed exactly when its value equals what the
  -- event reports for that property of its own node (the last controlled field that the payload
  -- carries), or, where the event reports nothing, exactly when it was suppressed before. An event
  -- without controlled properties changes nothing, and no other node is affected.
  pub should_suppress-extract :
      (same : V → V → Bool) (ack_extractors : List (String × Extractors)) (event_name : String)
      (target : ℕ) (payload : List (String × Option V)) (entries : AcknowledgementMap V) (node : ℕ)
      (prop : String) (desired : V)
      → should_suppress same node prop desired
          (extract_acknowledgements ack_extractors event_name target payload entries)
        ≡ matches same desired (
            entry_after
              (extractors_of event_name ack_extractors)
              target
              payload
              node
              prop
              (acknowledged_value node prop entries))
  unfolding should_suppress extract_acknowledgements acknowledged_value
  should_suppress-extract same ack_extractors event_name target payload entries node prop desired =
      elim (Option-cases (lookup event_name ack_extractors)) [
        | inl e ↦ rw (e, extract_acknowledgements, should_suppress) (ground arith)
        | inr (extractors, e) ↦
            rw
              (
                e,
                extract_acknowledgements,
                should_suppress,
                record_fields_lem extractors target payload entries node prop,
              )
              (ground arith)
      ]
