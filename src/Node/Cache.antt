-- ===== src/Node/Cache.antt =====
-- Of the copies of a message that come by several gateways the best is kept.
use snapemu_workflow.Base.{
  ℕ, ◌≡◌, refl, ap, ◌∙◌, Bool, true, false, Option, none, some, List, [], ◌∷◌, All, arith, inl, inr,
  ◌⊎◌, ◌<◌, ◌&&◌, ◌||◌, ◌==◌, ltb, Bool-cases, map,
}
use snapemu_workflow.Base.Int.{ltb_ℤ}
use snapemu_workflow.Base.Dict.{
  Eq, HashMap, nat_eq, insert as put, lookup-insert_self, lookup-remove_self,
}
use snapemu_workflow.Node.{
  keep, DataItem, data_better, data_insert, data_get, JoinItem, join_better, request_insert,
  request_get,
}

-- What a comparison must be like for the kept value to be a best one.
pub record IsStrictOrder {V : Type 0} (better : V → V → Bool) : Type 0 where
  pub irreflexive : (v : V) → better v v ≡ false
  pub asymmetric : (v w : V) → better v w ≡ true → better w v ≡ false
  pub negative_transitive :
      (u v w : V) → better u v ≡ false → better v w ≡ false → better u w ≡ false

-- Values offered one after the other: the answers, and what is kept.
abbrev pub offers : {V : Type 0} → (V → V → Bool) → List V → Option V → List Bool × Option V
offers better [] o = ([], o)
offers better (v ∷ vs) o =
    let (first, kept) = keep better v o in
    let (answers, end) = offers better vs (some kept) in (first ∷ answers, end)

pub data Among {V : Type 0} (v : V) : List V → Type 0 where
  here : (vs : List V) → Among v (v ∷ vs)
  there : (w : V) (vs : List V) → Among v vs → Among v (w ∷ vs)

pub record IsBest {V : Type 0} (better : V → V → Bool) (vs : List V) (kept : V) : Type 0 where
  pub among : Among kept vs
  pub best : All (λ v. better v kept ≡ false) vs

Among-there : {V : Type 0} {k q v : V} {vs : List V} → Among k (q ∷ vs) → Among k (q ∷ v ∷ vs)
Among-there (here vs) = here _
Among-there (there w vs a) = there _ _ (there _ _ a)

module _ {V : Type 0} (better : V → V → Bool) (order : IsStrictOrder better) where
  later :
      (vs : List V) (q : V)
      → (kept : V) × (offers better vs (some q) ≡ (map (λ v. false) vs, some kept))
        × (better q kept ≡ false)
        × (Among kept (q ∷ vs))
        × All (λ v. better v kept ≡ false) vs
  unfolding keep
  later [] q = (q, refl, order.irreflexive q, here [], tt)
  later (v ∷ vs) q = elim (Bool-cases (better v q)) [
    | inl b ↦
        let (kept, run, ge, am, bs) = later vs v in
        (
          kept,
          rw (b, run) refl,
          order.negative_transitive q v kept (order.asymmetric v q b) ge,
          there q (v ∷ vs) am,
          (ge, bs),
        )
    | inr b ↦
        let (kept, run, ge, am, bs) = later vs q in
        (kept, rw (b, run) refl, ge, Among-there am, (order.negative_transitive v q kept b ge, bs))
  ]

  -- Of values offered to an empty place the first is answered with true and the others with false, and
  -- a best one is kept.
  pub offers-IsBest :
      (v : V) (vs : List V)
      → (kept : V) × (offers better (v ∷ vs) none ≡ (true ∷ map (λ w. false) vs, some kept))
        × IsBest better (v ∷ vs) kept
  unfolding keep
  offers-IsBest v vs =
      let (kept, run, ge, am, bs) = later vs v in
      (kept, rw run refl, record { among = am; best = (ge, bs) })

-- Signal strengths, and counters with signal strengths.
join_better-IsStrictOrder : {R : Type 0} → IsStrictOrder (join_better {R = R})
join_better-IsStrictOrder {R} = record {
  irreflexive = λ v. ground arith;
  asymmetric = λ v w h. ground arith;
  negative_transitive = λ u v w h k. ground arith;
}

data_better-IsStrictOrder : {R : Type 0} → IsStrictOrder (data_better {R = R})
data_better-IsStrictOrder {R} = record {
  irreflexive = λ v. ground arith;
  asymmetric = λ v w h. ground arith;
  negative_transitive = λ u v w h k. ground arith;
}

-- Insertions under one key, one after the other.
abbrev pub data_inserts :
    {R : Type 0}
    → ℕ
    → List (DataItem R)
    → HashMap ℕ (DataItem R)
    → List Bool × HashMap ℕ (DataItem R)
data_inserts addr [] m = ([], m)
data_inserts addr (v ∷ vs) m =
    let (first, m') = data_insert addr v m in
    let (answers, end) = data_inserts addr vs m' in (first ∷ answers, end)

abbrev pub request_inserts :
    {K R : Type 0} ⦃e : Eq K⦄
    → K
    → List (JoinItem R)
    → HashMap K (JoinItem R)
    → List Bool × HashMap K (JoinItem R)
request_inserts key [] m = ([], m)
request_inserts key (v ∷ vs) m =
    let (first, m') = request_insert key v m in
    let (answers, end) = request_inserts key vs m' in (first ∷ answers, end)

data_inserts-offers :
    {R : Type 0} (addr : ℕ) (vs : List (DataItem R)) (m : HashMap ℕ (DataItem R))
    → ((data_inserts addr vs m).0 ≡ (offers data_better vs (m addr)).0)
      × ((data_inserts addr vs m).1 addr ≡ (offers data_better vs (m addr)).1)
unfolding data_insert
data_inserts-offers addr [] m = (refl, refl)
data_inserts-offers addr (v ∷ vs) m =
    let kept = (keep data_better v (m addr)).1 in
    let (answers, end) = data_inserts-offers addr vs (put addr kept m) in
    let stored = lookup-insert_self addr kept m in
    (
      ap (λ l. (keep data_better v (m addr)).0 ∷ l)
          (answers ∙ ap (λ o. (offers data_better vs o).0) stored),
      end ∙ ap (λ o. (offers data_better vs o).1) stored,
    )

request_inserts-offers :
    {K R : Type 0} ⦃e : Eq K⦄ (key : K) (vs : List (JoinItem R)) (m : HashMap K (JoinItem R))
    → ((request_inserts key vs m).0 ≡ (offers join_better vs (m key)).0)
      × ((request_inserts key vs m).1 key ≡ (offers join_better vs (m key)).1)
unfolding request_insert
request_inserts-offers key [] m = (refl, refl)
request_inserts-offers key (v ∷ vs) m =
    let kept = (keep join_better v (m key)).1 in
    let (answers, end) = request_inserts-offers key vs (put key kept m) in
    let stored = lookup-insert_self key kept m in
    (
      ap (λ l. (keep join_better v (m key)).0 ∷ l)
          (answers ∙ ap (λ o. (offers join_better vs o).0) stored),
      end ∙ ap (λ o. (offers join_better vs o).1) stored,
    )

-- No message of a list has a higher counter than the kept one, or the same counter and a stronger signal.
abbrev pub IsStrongest : {R : Type 0} → List (DataItem R) → DataItem R → Type 0
IsStrongest vs kept =
    All (λ w. (w.fcnt < kept.fcnt) ⊎ (w.fcnt ≡ kept.fcnt) × (ltb_ℤ kept.rssi w.rssi ≡ false)) vs

IsStrongest-best :
    {R : Type 0} (vs : List (DataItem R)) (kept : DataItem R)
    → All (λ w. data_better w kept ≡ false) vs
    → IsStrongest vs kept
IsStrongest-best [] kept best = tt
IsStrongest-best (w ∷ vs) kept (one, best) =
    (is_below w.fcnt kept.fcnt (ltb_ℤ kept.rssi w.rssi) one, IsStrongest-best vs kept best)
  where
    is_below :
        (a b : ℕ) (stronger : Bool)
        → (ltb b a || ((b == a) && stronger)) ≡ false
        → (a < b) ⊎ (a ≡ b) × (stronger ≡ false)
    is_below a b true h = inl (ground arith)
    is_below a b false h = elim (Bool-cases (ltb a b)) [
      | inl less ↦ inl (ground arith)
      | inr other ↦ inr (ground arith, refl)
    ]

-- Of messages inserted for an address that has none, only the first insertion answers true; what the
-- cache then gives is one of them, than which none has a higher counter, or the same one and a
-- stronger signal; and it gives it once.
pub data_get-IsBest :
    {R : Type 0} (addr : ℕ) (v : DataItem R) (vs : List (DataItem R)) (m : HashMap ℕ (DataItem R))
    → m addr ≡ none
    → (kept : DataItem R) × ((data_inserts addr (v ∷ vs) m).0 ≡ true ∷ map (λ w. false) vs)
      × ((data_get addr (data_inserts addr (v ∷ vs) m).1).0 ≡ some kept)
      × Among kept (v ∷ vs)
      × IsStrongest (v ∷ vs) kept
      × ((data_get addr (data_get addr (data_inserts addr (v ∷ vs) m).1).1).0 ≡ none)
unfolding data_get
data_get-IsBest addr v vs m e =
    let (kept, run, best) = offers-IsBest data_better data_better-IsStrictOrder v vs in
    let (answers, end) = data_inserts-offers addr (v ∷ vs) m in
    (
      kept,
      answers ∙ ap (λ o. (offers data_better (v ∷ vs) o).0) e ∙ ap (λ p. p.0) run,
      end ∙ ap (λ o. (offers data_better (v ∷ vs) o).1) e ∙ ap (λ p. p.1) run,
      best.among,
      IsStrongest-best (v ∷ vs) kept best.best,
      lookup-remove_self addr (data_inserts addr (v ∷ vs) m).1,
    )

-- Of join requests inserted under a key that has none, only the first insertion answers true; what the
-- cache then gives is one of them, than which none has a stronger signal; and it gives it once.
pub request_get-IsBest :
    {K R : Type 0} ⦃e : Eq K⦄ (key : K) (v : JoinItem R) (vs : List (JoinItem R))
    (m : HashMap K (JoinItem R))
    → m key ≡ none
    → (kept : JoinItem R) × ((request_inserts key (v ∷ vs) m).0 ≡ true ∷ map (λ w. false) vs)
      × ((request_get key (request_inserts key (v ∷ vs) m).1).0 ≡ some kept)
      × IsBest join_better (v ∷ vs) kept
      × ((request_get key (request_get key (request_inserts key (v ∷ vs) m).1).1).0 ≡ none)
unfolding request_get
request_get-IsBest key v vs m n =
    let (kept, run, best) = offers-IsBest join_better join_better-IsStrictOrder v vs in
    let (answers, end) = request_inserts-offers key (v ∷ vs) m in
    (
      kept,
      answers ∙ ap (λ o. (offers join_better (v ∷ vs) o).0) n ∙ ap (λ p. p.0) run,
      end ∙ ap (λ o. (offers join_better (v ∷ vs) o).1) n ∙ ap (λ p. p.1) run,
      best,
      lookup-remove_self key (request_inserts key (v ∷ vs) m).1,
    )
