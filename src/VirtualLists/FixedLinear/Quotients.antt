-- ===== src/VirtualLists/FixedLinear/Quotients.antt =====
-- Floor and ceiling of a float quotient (`_index_range` of
-- packages/vyne/src/vyne/_lists/contracts.py): for whole numbers below 2^53 the rounding of the
-- quotient does not show.
use native.Mathlib.Nat.{mul-le-mul_right}
use vyne.Common.{
  Bool-cases, arith, inl, inr, ltb, suc, zero, ℕ, ◌*◌, ◌+◌, ◌-◌, ◌/◌, ◌<◌, ◌↔◌, ◌≡◌, ◌≤◌,
}
use vyne.VirtualLists.FixedLinear.{IsExact, ceil_quotient, floor_quotient, nearest, scale}

-- The largest unit that the rounds can reach.
abbrev doubled : ℕ → ℕ → ℕ
doubled zero unit = unit
doubled (suc rounds) unit = doubled rounds (2 * unit)

below_unit :
    (a e unit : ℕ) → a < 9007199254740992 → 0 < e → 9007199254740992 * e ≤ a * unit → e < unit
below_unit a e unit l p h =
    let m : a * unit ≤ 9007199254740991 * unit = mul-le-mul_right unit (omega arith) in omega arith

scale-lt :
    (rounds unit a e : ℕ)
    → a < 9007199254740992
    → 0 < e
    → e < 2 * doubled rounds unit
    → e < 2 * scale rounds unit a e
scale-lt zero unit a e l p h = h
scale-lt (suc rounds) unit a e l p h =
    elim (Bool-cases (ltb (a * (2 * unit)) (9007199254740992 * e))) [
      | inl t ↦ rw t (scale-lt rounds (2 * unit) a e l p h)
      | inr t ↦ rw t (below_unit a e (2 * unit) l p (ground arith))
    ]

-- The rounded quotient is within half a unit.
nearest_lem :
    (unit a e : ℕ)
    → 0 < e
    → (2 * (nearest unit a e * e) ≤ 2 * (a * unit) + e)
      × (2 * (a * unit) ≤ 2 * (nearest unit a e * e) + e)
nearest_lem unit a e p =
    let below = a * unit / e in
    let low : below * e ≤ a * unit = grind arith in
    let high : a * unit < (below + 1) * e = grind arith in
    let up : (below + 1) * e ≡ below * e + e = omega arith in ground (arith, low, high, up)

swap : (n unit e : ℕ) → n * e * unit ≡ n * unit * e
swap n unit e = grind arith

by_cases_lt : (a b : ℕ) → (b ≤ a → ⊥) → a < b
by_cases_lt a b h = elim (Bool-cases (ltb a b)) [
  | inl t ↦ ground arith
  | inr t ↦ absurd (ground (arith, h (ground arith)))
]

nearest-lt_iff :
    (n unit a e : ℕ) → 0 < e → e < 2 * unit → (nearest unit a e < n * unit) ↔ (a < n * e)
nearest-lt_iff n unit a e p u =
    let m = nearest unit a e in
    let (low, high) = nearest_lem unit a e p in
    let w = swap n unit e in
    (
      λ h. by_cases_lt a (n * e) (λ (k : n * e ≤ a).
          let x : n * e * unit ≤ a * unit = mul-le-mul_right unit k in
          let y : suc m * e ≤ n * unit * e = mul-le-mul_right e h in
          let z : suc m * e ≡ m * e + e = omega arith in omega arith),
      λ h. by_cases_lt m (n * unit) (λ (k : n * unit ≤ m).
          let x : suc a * unit ≤ n * e * unit = mul-le-mul_right unit h in
          let z : suc a * unit ≡ a * unit + unit = omega arith in
          let y : n * unit * e ≤ m * e = mul-le-mul_right e k in omega arith),
    )

lt-nearest_iff :
    (n unit a e : ℕ) → 0 < e → e < 2 * unit → (n * unit < nearest unit a e) ↔ (n * e < a)
lt-nearest_iff n unit a e p u =
    let m = nearest unit a e in
    let (low, high) = nearest_lem unit a e p in
    let w = swap n unit e in
    (
      λ h. by_cases_lt (n * e) a (λ (k : a ≤ n * e).
          let x : a * unit ≤ n * e * unit = mul-le-mul_right unit k in
          let y : suc (n * unit) * e ≤ m * e = mul-le-mul_right e h in
          let z : suc (n * unit) * e ≡ n * unit * e + e = omega arith in omega arith),
      λ h. by_cases_lt (n * unit) m (λ (k : m ≤ n * unit).
          let x : suc (n * e) * unit ≤ a * unit = mul-le-mul_right unit h in
          let z : suc (n * e) * unit ≡ n * e * unit + unit = omega arith in
          let y : m * e ≤ n * unit * e = mul-le-mul_right e k in omega arith),
    )

floor_le : (e s i : ℕ) → 0 < e → (s / e ≤ i) ↔ (s < (i + 1) * e)
floor_le e s i p = (λ h. grind arith, λ h. grind arith)

lt_ceil : (e s i : ℕ) → 0 < e → (i < (s + (e - 1)) / e) ↔ (i * e < s)
lt_ceil e s i p = (λ h. grind arith, λ h. grind arith)

unit-lt : (a e : ℕ) → IsExact a → IsExact e → 0 < e → e < 2 * scale 106 1 a e
unit-lt a e l k p = scale-lt 106 1 a e l p (omega arith)

pub floor_quotient-le :
    (e s i : ℕ) → IsExact s → IsExact e → 0 < e → (floor_quotient s e ≤ i) ↔ (s < (i + 1) * e)
unfolding floor_quotient
floor_quotient-le e s i l k p =
    let unit = scale 106 1 s e in
    let u = unit-lt s e l k p in
    let f = floor_le unit (nearest unit s e) i (omega arith) in
    let g = nearest-lt_iff (i + 1) unit s e p u in (λ h. g.0 (f.0 h), λ h. f.1 (g.1 h))

pub lt-ceil_quotient :
    (e s i : ℕ) → IsExact s → IsExact e → 0 < e → (i < ceil_quotient s e) ↔ (i * e < s)
unfolding ceil_quotient
lt-ceil_quotient e s i l k p =
    let unit = scale 106 1 s e in
    let u = unit-lt s e l k p in
    let f = lt_ceil unit (nearest unit s e) i (omega arith) in
    let g = lt-nearest_iff i unit s e p u in (λ h. g.0 (f.0 h), λ h. f.1 (g.1 h))
