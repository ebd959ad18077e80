-- ===== src/Tables/Rows.antt =====
-- Rows that a filter keeps and rows that a query finds.
use snapemu_workflow.Base.{
  ℕ, ◌≡◌, refl, sym, ap, inl, inr, Bool, true, false, not, Bool-cases, none, some, List, [], ◌∷◌,
  ◌∙◌, All, map, ◌==◌, ==_iff,
}
use snapemu_workflow.Groups.{filter, find}
use snapemu_workflow.Tables.{is_in, replaced}

module _ {Row : Type 0} where
  pub All-filter :
      (P : Row → Type 0) (p : Row → Bool) (rows : List Row) → All P rows → All P (filter p rows)
  unfolding filter
  All-filter P p [] all = tt
  All-filter P p (r ∷ rows) (holds, all) = elim (Bool-cases (p r)) [
    | inl kept ↦ rw kept (holds, All-filter P p rows all)
    | inr gone ↦ rw gone (All-filter P p rows all)
  ]

  pub All-map :
      (P Q : Row → Type 0) (rows : List Row) → ((r : Row) → P r → Q r) → All P rows → All Q rows
  All-map P Q [] f all = tt
  All-map P Q (r ∷ rows) f (holds, all) = (f r holds, All-map P Q rows f all)

  -- Nothing that was deleted is left.
  pub All-deleted :
      (p : Row → Bool) (rows : List Row) → All (λ r. p r ≡ false) (filter (λ r. not (p r)) rows)
  unfolding filter
  All-deleted p [] = tt
  All-deleted p (r ∷ rows) = elim (Bool-cases (p r)) [
    | inl gone ↦ rw gone (All-deleted p rows)
    | inr kept ↦ rw kept (kept, All-deleted p rows)
  ]

  pub find-none :
      (p : Row → Bool) (rows : List Row) → All (λ r. p r ≡ false) rows → find p rows ≡ none
  unfolding find
  find-none p [] all = refl
  find-none p (r ∷ rows) (fails, all) = rw (fails, find-none p rows all) refl

  pub find-passes : (p : Row → Bool) (rows : List Row) (r : Row) → find p rows ≡ some r → p r ≡ true
  unfolding find
  find-passes p [] r h = cc
  find-passes p (x ∷ rows) r h = elim (Bool-cases (p x)) [
    | inl yes_ ↦ let e = rw yes_ at h in cc
    | inr no_ ↦ find-passes p rows r (rw no_ at h)
  ]

  pub find-All :
      (P : Row → Type 0) (p : Row → Bool) (rows : List Row) (r : Row)
      → All P rows
      → find p rows ≡ some r
      → P r
  unfolding find
  find-All P p [] r all h = absurd cc
  find-All P p (x ∷ rows) r (holds, all) h = elim (Bool-cases (p x)) [
    | inl first ↦ let e : x ≡ r = let f = rw first at h in cc in rw (sym e) holds
    | inr later ↦ find-All P p rows r all (rw later at h)
  ]

  pub filter-all :
      (p : Row → Bool) (rows : List Row) → All (λ r. p r ≡ true) rows → filter p rows ≡ rows
  unfolding filter
  filter-all p [] all = refl
  filter-all p (r ∷ rows) (holds, all) = rw (holds, filter-all p rows all) refl

  pub filter-swap :
      (p q : Row → Bool) (rows : List Row) → filter p (filter q rows) ≡ filter q (filter p rows)
  unfolding filter
  filter-swap p q [] = refl
  filter-swap p q (r ∷ rows) = elim (Bool-cases (p r)) [
    | inl a ↦ elim (Bool-cases (q r)) [
      | inl b ↦ rw (b, a, b) (ap (λ l. r ∷ l) (filter-swap p q rows))
      | inr b ↦ rw (b, a, b) (filter-swap p q rows)
    ]
    | inr a ↦ elim (Bool-cases (q r)) [
      | inl b ↦ rw (b, a) (filter-swap p q rows)
      | inr b ↦ rw (b, a) (filter-swap p q rows)
    ]
  ]

pub is_in_tail : (i : ℕ) (ids : List ℕ) (x : ℕ) → is_in ids x ≡ true → is_in (i ∷ ids) x ≡ true
unfolding is_in
is_in_tail i ids x h = elim (Bool-cases (i == x)) [ inl e ↦ rw e refl | inr n ↦ rw n h ]

pub is_in_head : (i : ℕ) (ids : List ℕ) → is_in (i ∷ ids) i ≡ true
unfolding is_in
is_in_head i ids = rw ((==_iff i i).1 refl) refl

module _ {Row : Type 0} (key : Row → ℕ) (p : Row → Bool) where
  -- A row that a query found is found in its new form, if the query finds this one too.
  pub find-replaced :
      (rows : List Row) (r new : Row)
      → key new ≡ key r
      → p new ≡ true
      → find p rows ≡ some r
      → find p (map (replaced key new) rows) ≡ some new
  unfolding find
  find-replaced [] r new k h e = absurd cc
  find-replaced (x ∷ rows) r new k h e = elim (Bool-cases (key x == key new)) [
    | inl same_key ↦ rw (same_key, h) refl
    | inr other ↦ elim (Bool-cases (p x)) [
      | inl first ↦
          let is : x ≡ r = let f = rw first at e in cc in
          let same_key = (==_iff (key x) (key new)).1 (ap key is ∙ sym k) in absurd cc
      | inr later ↦ rw (other, later) (find-replaced rows r new k h (rw later at e))
    ]
  ]
