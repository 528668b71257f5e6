-- ===== src/VirtualLists/FixedLinear/Coverage.antt =====
-- Which cells a fixed-extent layout returns (packages/vyne/src/vyne/_lists/contracts.py).
use native.Mathlib.Nat.{mul-le-mul_right}
use vyne.Common.{arith, ℕ, ◌*◌, ◌+◌, ◌<◌, ◌↔◌, ◌≡◌, ◌≤◌}
use vyne.VirtualLists.FixedLinear.{IsExact, index_range, least}
use vyne.VirtualLists.FixedLinear.Quotients.{floor_quotient-le, lt-ceil_quotient}

one_le : (i n : ℕ) → i < n → 1 ≤ n
one_le i n b = omega arith

least-IsExact : (s total : ℕ) → IsExact total → IsExact (least s total)
least-IsExact s total h = ground arith

step_up : (i e : ℕ) → (i + 1) * e ≡ i * e + e
step_up i e = omega arith

-- For a positive extent and a non-empty interval in whole numbers, and a content that is shorter than
-- 2^53, the index range is exact, though its quotients are rounded: a cell of the list is in it just
-- when its interval along the main axis, `[i * extent, (i + 1) * extent)`, meets the interval that
-- was asked for.
pub index_range_exact :
    (extent start stop item_count i : ℕ)
    → 0 < extent
    → start < stop
    → i < item_count
    → IsExact (item_count * extent)
    → ((index_range extent start stop item_count).0 ≤ i)
        × (i < (index_range extent start stop item_count).1)
      ↔ (start < (i + 1) * extent) × (i * extent < stop)
unfolding index_range
index_range_exact extent start stop item_count i p h b content_exact =
    let total = item_count * extent in
    let wide : extent ≤ item_count * extent =
      omega (arith, mul-le-mul_right extent (one_le i item_count b)) in
    let within : (i + 1) * extent ≤ total = omega (arith, mul-le-mul_right extent b) in
    ground (
      arith,
      floor_quotient-le extent (least start total) i (least-IsExact start total content_exact)
          (omega arith) p,
      lt-ceil_quotient extent (least stop total) i (least-IsExact stop total content_exact)
          (omega arith) p,
      step_up i extent,
    )
