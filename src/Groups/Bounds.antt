-- ===== src/Groups/Bounds.antt =====
-- The orders of rows as i32 that are not negative, where a comparison is that of the numbers and 1 more does not wrap.
use snapemu_workflow.Base.{
  ℕ, ◌+◌, ◌^◌, ◌%◌, ◌≤◌, ◌<◌, ◌≡◌, ◌⊎◌, refl, inl, inr, Bool, true, Bool-cases, Option, none, some,
  List, [], ◌∷◌, ltb, arith,
}
use snapemu_workflow.Groups.{MapRow, lower, higher_order, first_order, or_zero, is_of}

abbrev pub In : MapRow → List MapRow → Type 0
In r [] = ⊥
In r (x ∷ rows) = (r ≡ x) ⊎ In r rows

-- All orders are numbers below a bound.
abbrev pub IsLow : ℕ → List MapRow → Type 0
IsLow bound rows = (r : MapRow) → In r rows → r.dev_order < bound

pub lower_low : (a b : ℕ) → a < 2 ^ 31 → b < 2 ^ 31 → lower a b ≡ ltb a b
unfolding lower
lower_low a b ha hb =
    let ea : (a + 2 ^ 31) % 2 ^ 32 ≡ a + 2 ^ 31 = omega arith in
    let eb : (b + 2 ^ 31) % 2 ^ 32 ≡ b + 2 ^ 31 = omega arith in rw (ea, eb) (ground arith)

pub lower-true : (a b : ℕ) → a < b → b < 2 ^ 31 → lower a b ≡ true
lower-true a b lt hb = rw (lower_low a b (omega arith) hb) (ground arith)

pub next_low : (m : ℕ) → m < 2 ^ 31 → (m + 1) % 2 ^ 32 ≡ m + 1
next_low m h = omega arith

abbrev IsUnder : ℕ → Option ℕ → Type 0
IsUnder bound none = Unit
IsUnder bound (some order) = order < bound

higher_order-IsUnder :
    (bound : ℕ) (top : Option ℕ) (order : ℕ)
    → IsUnder bound top
    → order < bound
    → IsUnder bound (higher_order top order)
higher_order-IsUnder bound none order under lt = lt
higher_order-IsUnder bound (some top) order under lt = elim (Bool-cases (lower top order)) [
  | inl e ↦ rw e lt
  | inr e ↦ rw e under
]

first_order-IsUnder :
    (p : MapRow → Bool) (rows : List MapRow) (bound : ℕ)
    → IsLow bound rows
    → IsUnder bound (first_order p rows)
unfolding first_order
first_order-IsUnder p [] bound low = tt
first_order-IsUnder p (x ∷ rows) bound low =
    let rest = first_order-IsUnder p rows bound (λ r h. low r (inr h)) in
    elim (Bool-cases (p x)) [
      | inl e ↦
          rw e (higher_order-IsUnder bound (first_order p rows) x.dev_order rest (low x (inl refl)))
      | inr e ↦ rw e rest
    ]

or_zero-IsUnder : (bound : ℕ) (top : Option ℕ) → IsUnder bound top → 0 < bound → or_zero top < bound
or_zero-IsUnder bound none under pos = pos
or_zero-IsUnder bound (some order) under pos = under

abbrev pub max_order : MapRow → List MapRow → ℕ
max_order row rows = or_zero (first_order (is_of row.user_id row.group_id) rows)

pub first_order_low :
    (p : MapRow → Bool) (rows : List MapRow) (bound : ℕ)
    → IsLow bound rows
    → 0 < bound
    → or_zero (first_order p rows) < bound
first_order_low p rows bound low pos =
    or_zero-IsUnder bound (first_order p rows) (first_order-IsUnder p rows bound low) pos

higher_order_le :
    (top : Option ℕ) (order : ℕ)
    → IsUnder (2 ^ 31) top
    → order < 2 ^ 31
    → (or_zero top ≤ or_zero (higher_order top order)) × (order ≤ or_zero (higher_order top order))
higher_order_le none order under lt = (omega arith, omega arith)
higher_order_le (some top) order under lt =
    rw (lower_low top order under lt) (ground arith, ground arith)

pub first_order-In :
    (p : MapRow → Bool) (rows : List MapRow) (r : MapRow)
    → IsLow (2 ^ 31) rows
    → In r rows
    → p r ≡ true
    → r.dev_order ≤ or_zero (first_order p rows)
unfolding first_order
first_order-In p [] r low h e = absurd h
first_order-In p (x ∷ rows) r low (inl same) e =
    let under = first_order-IsUnder p rows (2 ^ 31) (λ q k. low q (inr k)) in
    rw (← same, e) (higher_order_le (first_order p rows) r.dev_order under (low r (inl same))).1
first_order-In p (x ∷ rows) r low (inr later) e =
    let low1 : IsLow (2 ^ 31) rows = λ q k. low q (inr k) in
    let le = first_order-In p rows r low1 later e in
    let under = first_order-IsUnder p rows (2 ^ 31) low1 in
    elim (Bool-cases (p x)) [
      | inl holds ↦
          let keeps =
            (higher_order_le (first_order p rows) x.dev_order under (low x (inl refl))).0 in
          rw holds (omega (arith, le, keeps))
      | inr fails ↦ rw fails le
    ]
