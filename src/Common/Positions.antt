-- ===== src/Common/Positions.antt =====
-- Where a number stands in a list, and what insertion and removal at an index change of it.
use vyne.Common.Tests.{◌==◌, ltb, leb, if◌then◌else◌, Bool-cases, Option-cases, ==_iff}
use Prim.Native.Nat.{suc, zero, ℕ, ◌+◌, ◌-◌, ◌<◌, ◌≤◌}
use mathlib.Core.List.{List, [], ◌++◌, ◌∷◌}
use mathlib.Core.Logic.{inl, inr, ◌↔◌, ◌≢◌, ◌⊎◌}
use mathlib.Core.Option.{Option, none, some}
use mathlib.Core.Path.{ap, refl, ◌≡◌}
use native.Mathlib.Omega.{arith}
use vyne.Common.Lists.{get_elem?, insert_at, length, remove_at}

abbrev shift : Option ℕ → Option ℕ
shift none = none
shift (some k) = some (suc k)

-- The first index of a number.
abbrev pub position : ℕ → List ℕ → Option ℕ
position c [] = none
position c (x ∷ xs) = if x == c then some 0 else shift (position c xs)

-- No number stands twice.
abbrev pub NoRepeat : List ℕ → Type 0
NoRepeat [] = Unit
NoRepeat (x ∷ xs) = (position x xs ≡ none) × NoRepeat xs

-- The index of another element after a removal at `i`, and after an insertion at `i`.
abbrev pub shift_down : ℕ → Option ℕ → Option ℕ
shift_down i none = none
shift_down i (some k) = if ltb i k then some (k - 1) else some k

abbrev pub shift_up : ℕ → Option ℕ → Option ℕ
shift_up i none = none
shift_up i (some k) = if leb i k then some (suc k) else some k

-- The list without a number.
abbrev pub erase : ℕ → List ℕ → List ℕ
erase c [] = []
erase c (x ∷ xs) = if x == c then erase c xs else x ∷ erase c xs

pub get_elem?-position : (xs : List ℕ) (c k : ℕ) → position c xs ≡ some k → get_elem? xs k ≡ some c
get_elem?-position [] c k h = ground arith
get_elem?-position (x ∷ xs) c zero h = ground (arith, ==_iff x c)
get_elem?-position (x ∷ xs) c (suc k) h = ground (arith, get_elem?-position xs c k)

pub position-lt : (xs : List ℕ) (c k : ℕ) → position c xs ≡ some k → k < length xs
position-lt [] c k h = ground arith
position-lt (x ∷ xs) c zero h = omega arith
position-lt (x ∷ xs) c (suc k) h = ground (arith, position-lt xs c k)

pub position-get_elem? :
    (xs : List ℕ) (c k : ℕ) → NoRepeat xs → get_elem? xs k ≡ some c → position c xs ≡ some k
position-get_elem? [] c k d h = ground arith
position-get_elem? (x ∷ xs) c zero d h = ground (arith, ==_iff x c)
position-get_elem? (x ∷ xs) c (suc k) d h =
    let e = position-get_elem? xs c k d.1 h in
    elim (Bool-cases (x == c)) [
      | inl t ↦ let s = (==_iff x c).0 t in let f = d.0 in ground arith
      | inr t ↦ ground arith
    ]

pub position-remove_at :
    (xs : List ℕ) (x i c : ℕ)
    → NoRepeat xs
    → position x xs ≡ some i
    → position c (remove_at i xs) ≡ (if x == c then none else shift_down i (position c xs))
position-remove_at [] x i c d h = ground arith
position-remove_at (y ∷ xs) x zero c d h =
    let e = d.0 in ground (arith, ==_iff y x, ==_iff x c, ==_iff y c)
position-remove_at (y ∷ xs) x (suc i) c d h =
    ground (arith, position-remove_at xs x i c d.1, ==_iff y x, ==_iff x c, ==_iff y c)

pub position-insert_at :
    (xs : List ℕ) (x i c : ℕ)
    → i ≤ length xs
    → position x xs ≡ none
    → position c (insert_at i x xs) ≡ (if x == c then some i else shift_up i (position c xs))
position-insert_at xs x zero c b h = ground (arith, ==_iff x c)
position-insert_at [] x (suc i) c b h = ground arith
position-insert_at (y ∷ xs) x (suc i) c b h =
    ground (arith, position-insert_at xs x i c, ==_iff y x, ==_iff x c, ==_iff y c)

pub length-remove_at :
    (xs : List ℕ) (i : ℕ) → i < length xs → length (remove_at i xs) + 1 ≡ length xs
length-remove_at [] i h = omega arith
length-remove_at (x ∷ xs) zero h = omega arith
length-remove_at (x ∷ xs) (suc i) h = omega (arith, length-remove_at xs i)

pub length-insert_at : (xs : List ℕ) (i x : ℕ) → length (insert_at i x xs) ≡ length xs + 1
length-insert_at xs zero x = omega arith
length-insert_at [] (suc i) x = omega arith
length-insert_at (y ∷ xs) (suc i) x = omega (arith, length-insert_at xs i x)

pub remove_at-NoRepeat :
    (xs : List ℕ) (x i : ℕ) → NoRepeat xs → position x xs ≡ some i → NoRepeat (remove_at i xs)
remove_at-NoRepeat [] x i d h = tt
remove_at-NoRepeat (y ∷ xs) x zero d h = d.1
remove_at-NoRepeat (y ∷ xs) x (suc i) d h =
    let e : position x xs ≡ some i = ground arith in
    (
      let f = d.0 in ground (arith, position-remove_at xs x i y d.1 e, ==_iff x y),
      remove_at-NoRepeat xs x i d.1 e,
    )

pub insert_at-NoRepeat :
    (xs : List ℕ) (x i : ℕ)
    → i ≤ length xs
    → NoRepeat xs
    → position x xs ≡ none
    → NoRepeat (insert_at i x xs)
insert_at-NoRepeat xs x zero b d h = (h, d)
insert_at-NoRepeat [] x (suc i) b d h = (refl, tt)
insert_at-NoRepeat (y ∷ xs) x (suc i) b d h =
    let e : position x xs ≡ none = ground arith in
    (
      let f = d.0 in
          ground (arith, position-insert_at xs x i y (omega arith) e, ==_iff x y, ==_iff y x),
      insert_at-NoRepeat xs x i (omega arith) d.1 e,
    )

-- A position is below the length, so a bound by the length changes nothing.
abbrev clip : ℕ → Option ℕ → Option ℕ
clip n none = none
clip n (some k) = if ltb k n then some k else none

pub position-clip : (xs : List ℕ) (c : ℕ) → clip (length xs) (position c xs) ≡ position c xs
position-clip xs c = elim (Option-cases (position c xs)) [
  | inl e ↦ rw e refl
  | inr (k, e) ↦ let b = position-lt xs c k e in rw e (ground arith)
]

pub position-append :
    (xs ys : List ℕ) (c : ℕ)
    → (position c (xs ++ ys) ≡ none) ↔ ((position c xs ≡ none) × (position c ys ≡ none))
position-append [] ys c = ground arith
position-append (x ∷ xs) ys c = ground (arith, position-append xs ys c)

pub append-NoRepeat :
    (xs ys : List ℕ)
    → NoRepeat xs
    → NoRepeat ys
    → ((c : ℕ) → position c xs ≢ none → position c ys ≡ none)
    → NoRepeat (xs ++ ys)
append-NoRepeat [] ys d e h = e
append-NoRepeat (x ∷ xs) ys d e h = (
  (position-append xs ys x).1 (d.0, h x (ground (arith, ==_iff x x))),
  append-NoRepeat xs ys d.1 e (λ c q. h c (ground arith)),
)

pub insert_at-length : (xs : List ℕ) (x : ℕ) → insert_at (length xs) x xs ≡ xs ++ x ∷ []
insert_at-length [] x = refl
insert_at-length (y ∷ xs) x = ap (λ zs. y ∷ zs) (insert_at-length xs x)

pub none_of : (o : Option ℕ) → ¬ (o ≢ none) → o ≡ none
none_of none h = refl
none_of (some k) h = absurd (h (λ e. ground arith))

pub position-append_ne :
    (xs ys : List ℕ) (c : ℕ)
    → position c (xs ++ ys) ≢ none
    → (position c xs ≢ none) ⊎ (position c ys ≢ none)
position-append_ne xs ys c h = elim (Option-cases (position c xs)) [
  | inl e ↦ inr (λ f. h ((position-append xs ys c).1 (e, f)))
  | inr (k, e) ↦ inl (λ f. ground arith)
]

pub append-NoRepeat_inv :
    (xs ys : List ℕ)
    → NoRepeat (xs ++ ys)
    → NoRepeat xs × NoRepeat ys × ((c : ℕ) → position c xs ≢ none → position c ys ≡ none)
append-NoRepeat_inv [] ys d = (tt, d, λ c h. absurd (h refl))
append-NoRepeat_inv (x ∷ xs) ys (f, d) =
    let (a, b, c) = append-NoRepeat_inv xs ys d in
    let g = (position-append xs ys x).0 f in
    (
      (g.0, a),
      b,
      λ j h. elim (Bool-cases (x == j)) [
        | inl t ↦ let e = (==_iff x j).0 t in rw (← e) g.1
        | inr t ↦ c j (λ q. h (ground arith))
      ],
    )
