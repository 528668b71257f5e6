-- ===== src/Scheduler/Acks.antt =====
-- `AcknowledgementMap` and `extract_acknowledgements` of packages/vyne/src/vyne/scheduler.py. The
-- values that a native event carries are a parameter with the `==` by which Python compares them.
pub mod Suppression
use vyne.Common.{
  Bool, List, Option, String, [], false, if◌then◌else◌, is_some, length, none, not, some, ℕ, ◌&&◌,
  ◌∷◌,
}
use vyne.Common.Maps.{insert, lookup, nat_eq, pair_eq, string_eq}

-- `_entries`, keyed by (node_id, prop_name).
abbrev pub AcknowledgementMap : Type 0 → Type 0
AcknowledgementMap V = List ((ℕ × String) × V)

-- `spec.controlled_props` of an event: pairs of a payload field and a property name.
abbrev pub Extractors : Type 0
Extractors = List (String × String)

abbrev non_empty {ℓ} : {A : Type ℓ} → List A → Bool
non_empty [] = false
non_empty (x ∷ xs) = Bool.true

-- The loop of `_build_ack_extractors`, over the controlled properties of each event of the schema.
unfoldable pub build_from :
    List (String × Extractors) → List (String × Extractors) → List (String × Extractors)
build_from extractors [] = extractors
build_from extractors ((event_name, controlled) ∷ specs) =
    build_from
      (if non_empty controlled then insert event_name controlled extractors else extractors) specs

unfoldable pub build_ack_extractors : List (String × Extractors) → List (String × Extractors)
unfolding build_from
build_ack_extractors specs = build_from [] specs

module _ {V : Type 0} where
  unfoldable pub acknowledge : ℕ → String → V → AcknowledgementMap V → AcknowledgementMap V
  acknowledge node_id prop_name value entries = insert (node_id, prop_name) value entries

  unfoldable pub clear : AcknowledgementMap V → AcknowledgementMap V
  clear entries = []

  unfoldable pub acknowledged_value : ℕ → String → AcknowledgementMap V → Option V
  acknowledged_value node_id prop_name entries = lookup (node_id, prop_name) entries

  unfoldable pub should_suppress :
      (same : V → V → Bool) → ℕ → String → V → AcknowledgementMap V → Bool
  should_suppress same node_id prop_name desired entries =
      elim (lookup (node_id, prop_name) entries) [ none ↦ false | some value ↦ same value desired ]

  -- `payload.get(field)`, where a value may be None: `none` for both.
  abbrev pub get : String → List (String × Option V) → Option V
  get field payload = elim (lookup field payload) [ none ↦ none | some value ↦ value ]

  -- The loop of `extract_acknowledgements`.
  unfoldable pub record_fields :
      Extractors → ℕ → List (String × Option V) → AcknowledgementMap V → AcknowledgementMap V
  unfolding acknowledge
  record_fields [] target payload entries = entries
  record_fields ((payload_field, prop_name) ∷ rest) target payload entries =
      record_fields rest target payload (elim (get payload_field payload) [
        | none ↦ entries
        | some value ↦ acknowledge target prop_name value entries
      ])

  unfoldable pub extract_acknowledgements :
      List (String × Extractors)
      → String
      → ℕ
      → List (String × Option V)
      → AcknowledgementMap V
      → AcknowledgementMap V
  unfolding record_fields
  extract_acknowledgements ack_extractors event_name target payload entries =
      elim (lookup event_name ack_extractors) [
        | none ↦ entries
        | some extractors ↦ record_fields extractors target payload entries
      ]
