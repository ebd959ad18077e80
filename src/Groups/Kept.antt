-- ===== src/Groups/Kept.antt =====
-- Ranked rows stay ranked when rows are left out, added with order 0, or raised above all of their user's group.
use snapemu_workflow.Base.{
  ℕ, ◌+◌, ◌^◌, ◌≤◌, ◌<◌, ◌≡◌, ◌≢◌, ◌⊎◌, sym, ap, ◌∙◌, inl, inr, Bool, Bool-cases, List, [], ◌∷◌,
  map, All, arith,
}
use snapemu_workflow.Groups.{MapRow, filter, set_order, is_of}
use snapemu_workflow.Groups.Bounds.{In, IsLow, max_order, first_order_low, first_order-In}
use snapemu_workflow.Groups.Order.{IsRanked, In-map, set_order-cases, is_of_same}

filter-In : (p : MapRow → Bool) (rows : List MapRow) (r : MapRow) → In r (filter p rows) → In r rows
unfolding filter
filter-In p [] r h = h
filter-In p (x ∷ rows) r h = elim (Bool-cases (p x)) [
  | inl holds ↦ elim (rw holds at h) [ inl e ↦ inl e | inr there ↦ inr (filter-In p rows r there) ]
  | inr fails ↦ inr (filter-In p rows r (rw fails at h))
]

IsRanked-filter :
    (p : MapRow → Bool) (rows : List MapRow) → IsRanked rows → IsRanked (filter p rows)
IsRanked-filter p rows (own, ranks) = (
  λ r q h k. own r q (filter-In p rows r h) (filter-In p rows q k),
  λ r q h k. ranks r q (filter-In p rows r h) (filter-In p rows q k),
)

All-In : (P : MapRow → Type 0) (rows : List MapRow) (r : MapRow) → All P rows → In r rows → P r
All-In P [] r all h = absurd h
All-In P (x ∷ rows) r (holds, all) (inl e) = rw e holds
All-In P (x ∷ rows) r (holds, all) (inr h) = All-In P rows r all h

IsRanked-insert :
    (x : MapRow) (rows : List MapRow)
    → x.dev_order ≡ 0
    → All (λ r. r.id ≢ x.id) rows
    → IsRanked rows
    → IsRanked (x ∷ rows)
IsRanked-insert x rows zero_order fresh (own, ranks) = (owns, ranked)
  where
    owns : (r q : MapRow) → In r (x ∷ rows) → In q (x ∷ rows) → r.id ≡ q.id → r ≡ q
    owns r q (inl e) (inl f) same = e ∙ sym f
    owns r q (inl e) (inr k) same =
        absurd (All-In (λ y. y.id ≢ x.id) rows q fresh k (sym same ∙ ap (λ y. y.id) e))
    owns r q (inr h) (inl f) same =
        absurd (All-In (λ y. y.id ≢ x.id) rows r fresh h (same ∙ ap (λ y. y.id) f))
    owns r q (inr h) (inr k) same = own r q h k same

    ranked :
        (r q : MapRow)
        → In r (x ∷ rows)
        → In q (x ∷ rows)
        → r.user_id ≡ q.user_id
        → r.group_id ≡ q.group_id
        → r.dev_order ≡ q.dev_order
        → r.dev_order ≢ 0
        → r.id ≡ q.id
    ranked r q (inl e) k u g o nonzero = absurd (nonzero (ap (λ y. y.dev_order) e ∙ zero_order))
    ranked r q (inr h) (inl f) u g o nonzero =
        absurd (nonzero (o ∙ ap (λ y. y.dev_order) f ∙ zero_order))
    ranked r q (inr h) (inr k) u g o nonzero = ranks r q h k u g o nonzero

-- Raising one row above all of its user's group.
module _ (row : MapRow) (rows : List MapRow) where
  abbrev top_order : ℕ
  top_order = max_order row rows + 1

  abbrev at_top : MapRow → MapRow
  at_top y = record y { dev_order = top_order }

  abbrev raised : MapRow
  raised = at_top row

  -- A row of the new table is the raised one or another of the old table.
  abbrev Origin : MapRow → Type 0
  Origin r = (r ≡ raised) ⊎ ((r.id ≢ row.id) × In r rows)

  Origin-In :
      (r : MapRow)
      → IsRanked rows
      → In row rows
      → In r (map (set_order row.id top_order) rows)
      → Origin r
  Origin-In r (own, ranks) there h =
      let (x, hx, is_x) = In-map (set_order row.id top_order) rows r h in
      elim (set_order-cases row.id top_order x) [
        | inl (same, is) ↦ inl (is_x ∙ is ∙ ap at_top (own x row hx there same))
        | inr (other, is) ↦
            let r_x = is_x ∙ is in inr ((λ e. other (ap (λ y. y.id) (sym r_x) ∙ e)), rw r_x hx)
      ]

  below_top :
      (r : MapRow)
      → IsLow (2 ^ 31) rows
      → In r rows
      → r.user_id ≡ row.user_id
      → r.group_id ≡ row.group_id
      → r.dev_order < top_order
  below_top r low h u g = omega (
    arith,
    first_order-In (is_of row.user_id row.group_id) rows r low h
        (is_of_same r row.user_id row.group_id u g),
  )

  Origin-own_row : (r q : MapRow) → IsRanked rows → Origin r → Origin q → r.id ≡ q.id → r ≡ q
  Origin-own_row r q ranked (inl e) (inl f) same = e ∙ sym f
  Origin-own_row r q ranked (inl e) (inr (ne, k)) same = absurd (ne (sym same ∙ ap (λ y. y.id) e))
  Origin-own_row r q ranked (inr (ne, h)) (inl f) same = absurd (ne (same ∙ ap (λ y. y.id) f))
  Origin-own_row r q (own, ranks) (inr (ne, h)) (inr (nf, k)) same = own r q h k same

  Origin-apart :
      (r q : MapRow)
      → IsRanked rows
      → IsLow (2 ^ 31) rows
      → Origin r
      → Origin q
      → r.user_id ≡ q.user_id
      → r.group_id ≡ q.group_id
      → r.dev_order ≡ q.dev_order
      → r.dev_order ≢ 0
      → r.id ≡ q.id
  Origin-apart r q ranked low (inl e) (inl f) u g o nonzero =
      ap (λ y. y.id) e ∙ sym (ap (λ y. y.id) f)
  Origin-apart r q ranked low (inl e) (inr (ne, k)) u g o nonzero =
      let lt = below_top q low k (sym u ∙ ap (λ y. y.user_id) e) (sym g ∙ ap (λ y. y.group_id) e) in
      let order = ap (λ y. y.dev_order) e in absurd (omega arith)
  Origin-apart r q ranked low (inr (ne, h)) (inl f) u g o nonzero =
      let lt = below_top r low h (u ∙ ap (λ y. y.user_id) f) (g ∙ ap (λ y. y.group_id) f) in
      let order = ap (λ y. y.dev_order) f in absurd (omega arith)
  Origin-apart r q (own, ranks) low (inr (ne, h)) (inr (nf, k)) u g o nonzero =
      ranks r q h k u g o nonzero

  pub IsRanked-raised :
      IsRanked rows
      → IsLow (2 ^ 31) rows
      → In row rows
      → IsRanked (map (set_order row.id top_order) rows)
  IsRanked-raised ranked low there = (
    λ r q h k. Origin-own_row r q ranked (Origin-In r ranked there h) (Origin-In q ranked there k),
    λ r q h k.
        Origin-apart r q ranked low (Origin-In r ranked there h) (Origin-In q ranked there k),
  )

  pub IsLow-raised :
      (bound : ℕ)
      → IsRanked rows
      → IsLow bound rows
      → In row rows
      → IsLow (bound + 1) (map (set_order row.id top_order) rows)
  IsLow-raised bound ranked low there r h =
      let least = low row there in
      let lt =
        first_order_low (is_of row.user_id row.group_id) rows bound low (omega (arith, least)) in
      elim (Origin-In r ranked there h) [
        | inl e ↦ let order = ap (λ y. y.dev_order) e in omega (arith, order, lt)
        | inr (ne, k) ↦ let old = low r k in omega (arith, old)
      ]

-- The rows are ranked and have orders from 0 to below a bound.
abbrev pub IsKept : ℕ → List MapRow → Type 0
IsKept bound rows = IsRanked rows × IsLow bound rows

pub IsKept-more :
    (bound more : ℕ) (rows : List MapRow) → bound ≤ more → IsKept bound rows → IsKept more rows
IsKept-more bound more rows le (ranked, low) =
    (ranked, λ r h. let old = low r h in omega (arith, old, le))

pub IsKept-filter :
    (p : MapRow → Bool) (bound : ℕ) (rows : List MapRow)
    → IsKept bound rows
    → IsKept (bound + 1) (filter p rows)
IsKept-filter p bound rows (ranked, low) = (
  IsRanked-filter p rows ranked,
  λ r h. let old = low r (filter-In p rows r h) in omega (arith, old),
)

pub IsKept-insert :
    (x : MapRow) (bound : ℕ) (rows : List MapRow)
    → x.dev_order ≡ 0
    → All (λ r. r.id ≢ x.id) rows
    → IsKept bound rows
    → IsKept (bound + 1) (x ∷ rows)
IsKept-insert x bound rows zero_order fresh (ranked, low) =
    (IsRanked-insert x rows zero_order fresh ranked, lows)
  where
    lows : IsLow (bound + 1) (x ∷ rows)
    lows r (inl e) = let order = ap (λ y. y.dev_order) e in omega (arith, order, zero_order)
    lows r (inr h) = let old = low r h in omega (arith, old)
