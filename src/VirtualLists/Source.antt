-- ===== src/VirtualLists/Source.antt =====
-- packages/vyne/src/vyne/_lists/source.py, the canonical keys of values.py, and the key registry's
-- part in _lists/generic.py (`derive_candidate_key_registry` and the key checks of the cell loop).
-- A data object and a key callback are compared by identity: each is an address.
pub mod Keys
pub mod Registry
use vyne.Common.{◌>>=◌, ◌>>◌, ok, raise, raise_if}
use vyne.Common.{
  Bool, List, Option, Result, String, [], false, get_elem?, if◌then◌else◌, index_error, is_some,
  leb, length, ltb, none, not, some, suc, true, type_error, value_error, zero, ℕ, ◌&&◌, ◌-◌, ◌==◌,
  ◌||◌, ◌∷◌,
}
use vyne.Common.Ints.{negsuc, pos, ℤ}
use vyne.Common.Maps.{Eq, insert, lookup, nat_eq}

-- What Python can hand over as a key, of these exact types. `other` is an object of any other type; a
-- number of a subclass of int, which `index_for_key` would take for its value, is left out.
mutual
  pub data Value : Type 0 where
    text : String → Value
    number : ℤ → Value
    boolean : Bool → Value
    tuple : Values → Value
    other : ℕ → Value

  pub data Values : Type 0 where
    no_values : Values
    one_more : Value → Values → Values

-- `is_canonical_key`: the test is for the exact types.
unfoldable mutual
  pub is_canonical_key : Value → Bool
  is_canonical_key (text s) = true
  is_canonical_key (number n) = true
  is_canonical_key (boolean b) = false
  is_canonical_key (tuple items) = all_canonical items
  is_canonical_key (other a) = false

  pub all_canonical : Values → Bool
  all_canonical no_values = true
  all_canonical (one_more item items) = is_canonical_key item && all_canonical items

unfoldable pub validate_canonical_key : Value → Result (Unit {0})
unfolding is_canonical_key
validate_canonical_key key = raise_if (not (is_canonical_key key)) type_error

-- `SequenceDataSource`, over items of type `A`.
pub record SequenceDataSource (A : Type 0) : Type 0 where
  pub data_items : List A
  pub key_for_item : Option (A → ℤ → Value)

-- `sequence[index]`: a negative index counts from the end.
abbrev pub at : {A : Type 0} → List A → ℤ → Result A
at items (pos i) = elim (get_elem? items i) [ none ↦ raise index_error | some a ↦ ok a ]
at items (negsuc i) =
    if ltb i (length items)
    then (elim (get_elem? items (length items - suc i)) [
      | none ↦ raise index_error
      | some a ↦ ok a
    ])
    else raise index_error

-- `0 <= key < len(self._data)`, of an int that is no bool.
abbrev pub index_in : ℕ → Value → Option ℕ
index_in count (number (pos i)) = if ltb i count then some i else none
index_in count (number (negsuc i)) = none
index_in count (text s) = none
index_in count (boolean b) = none
index_in count (tuple items) = none
index_in count (other a) = none

module _ {A : Type 0} where
  unfoldable pub item_count : SequenceDataSource A → ℕ
  item_count source = length source.data_items

  unfoldable pub uses_index_keys : SequenceDataSource A → Bool
  uses_index_keys source = not (is_some source.key_for_item)

  unfoldable pub item_at : SequenceDataSource A → ℤ → Result A
  item_at source index = at source.data_items index

  unfoldable pub key_at : SequenceDataSource A → ℤ → Result Value
  unfolding validate_canonical_key
  key_at source index = elim source.key_for_item [
    | none ↦ ok (number index)
    | some key_for_item ↦ do
      item ← at source.data_items index
      let key = key_for_item item index
      validate_canonical_key key
      ok key
  ]

  unfoldable pub index_for_key : SequenceDataSource A → Value → Option ℕ
  index_for_key source key = elim source.key_for_item [
    | some key_for_item ↦ none
    | none ↦ index_in (length source.data_items) key
  ]

pub record KeyRegistry (K : Type 0) : Type 0 where
  pub data_object : Option ℕ
  pub key_for_item : Option ℕ
  pub item_count : Option ℕ
  pub key_to_index : List (K × ℕ)

abbrev pub same : Option ℕ → Option ℕ → Bool
same none none = true
same (some a) (some b) = a == b
same _ _ = false

-- `previous_index is not None and previous_index != placement.index`
abbrev pub conflicts : Option ℕ → ℕ → Bool
conflicts none index = false
conflicts (some previous) index = not (previous == index)

module _ {K : Type 0} where
  -- `__init__`
  unfoldable pub init : KeyRegistry K
  init = record { data_object = none; key_for_item = none; item_count = none; key_to_index = [] }

  unfoldable pub copy : KeyRegistry K → KeyRegistry K
  copy r = record {
    data_object = r.data_object;
    key_for_item = r.key_for_item;
    item_count = r.item_count;
    key_to_index = r.key_to_index;
  }

  unfoldable pub stale : KeyRegistry K → Option ℕ → Option ℕ → ℕ → Bool
  stale r data_object key_for_item item_count =
      not (same r.data_object data_object)
      || not (same r.key_for_item key_for_item)
      || not (same r.item_count (some item_count))

  unfoldable pub reset : KeyRegistry K → Option ℕ → Option ℕ → ℕ → KeyRegistry K
  reset r data_object key_for_item item_count = record {
    data_object = data_object;
    key_for_item = key_for_item;
    item_count = some item_count;
    key_to_index = [];
  }

  -- The source as `derive_candidate_key_registry` sees it: `uses_index_keys`, `data`, `item_count`.
  unfoldable pub derive_candidate_key_registry :
      Option (KeyRegistry K)
      → Option (KeyRegistry K)
      → Bool
      → Option ℕ
      → ℕ
      → Option ℕ
      → Option (KeyRegistry K)
  unfolding stale copy init
  derive_candidate_key_registry accepted (some seed) index_keys data_object count key_for_item =
      some seed
  derive_candidate_key_registry accepted none true data_object count key_for_item = none
  derive_candidate_key_registry none none false data_object count key_for_item = some (record init {
    data_object = data_object;
    key_for_item = key_for_item;
    item_count = some count;
  })
  derive_candidate_key_registry (some r) none false data_object count key_for_item =
      if not (stale r data_object key_for_item count)
      then some (copy r)
      else some (record init {
        data_object = data_object;
        key_for_item = key_for_item;
        item_count = some count;
      })

  module _ ⦃e : Eq K⦄ where
    -- `key in seen_keys`
    unfoldable pub seen : K → List K → Bool
    seen key [] = false
    seen key (k ∷ keys) = e.beq k key || seen key keys

    -- The key checks of the cell loop, on the indices and keys of the placements, with the
    -- registry's `key_to_index` if the loop uses one.
    unfoldable pub compose_keys :
        List K → List (ℕ × K) → Option (List (K × ℕ)) → Result (Option (List (K × ℕ)))
    unfolding seen
    compose_keys seen_keys [] registry = ok registry
    compose_keys seen_keys ((index, key) ∷ rest) none = do
      raise_if (seen key seen_keys) value_error
      compose_keys (key ∷ seen_keys) rest none
    compose_keys seen_keys ((index, key) ∷ rest) (some registry) = do
      raise_if (seen key seen_keys) value_error
      raise_if (conflicts (lookup key registry) index) value_error
      compose_keys (key ∷ seen_keys) rest (some (insert key index registry))
