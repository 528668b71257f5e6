-- ===== src/VirtualLists/Source/Keys.antt =====
-- `SequenceDataSource` of packages/vyne/src/vyne/_lists/source.py: keys and indices.
use vyne.Common.{arith, none, ok, some, true, ℕ, ◌<◌, ◌↔◌, ◌≡◌}
use vyne.Common.Ints.{negsuc, pos, ℤ}
use vyne.VirtualLists.Source.{
  SequenceDataSource, Value, boolean, index_for_key, is_canonical_key, item_count, key_at, number,
  other, text, tuple, validate_canonical_key,
}

module _ {A : Type 0} (source : SequenceDataSource A) where
  -- Every key that `key_at` returns from a key callback is canonical, and so is a default one.
  pub key_at-canonical :
      (index : ℤ) (key : Value) → key_at source index ≡ ok key → is_canonical_key key ≡ true
  unfolding key_at is_canonical_key validate_canonical_key
  key_at-canonical index key h = ground arith

  -- Without a key callback, `index_for_key` finds an index for exactly the keys that `key_at`
  -- gives out at an index of an item, and finds that index.
  pub index_for_key-key_at :
      (key : Value) (index : ℕ)
      → source.key_for_item ≡ none
      → (index_for_key source key ≡ some index)
        ↔ ((index < item_count source) × (key_at source (pos index) ≡ ok key))
  unfolding key_at index_for_key item_count
  index_for_key-key_at (text s) index h = ground arith
  index_for_key-key_at (number (pos i)) index h = ground arith
  index_for_key-key_at (number (negsuc i)) index h = ground arith
  index_for_key-key_at (boolean b) index h = ground arith
  index_for_key-key_at (tuple items) index h = ground arith
  index_for_key-key_at (other a) index h = ground arith
