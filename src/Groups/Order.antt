-- ===== src/Groups/Order.antt =====
-- A device that is put on top is the first of its group.
use snapemu_workflow.Base.{
  ℕ, ◌+◌, ◌-◌, ◌^◌, ◌≤◌, ◌<◌, ◌≡◌, ◌≢◌, ◌⊎◌, refl, sym, ap, ◌∙◌, inl, inr, Bool, true, false, not,
  ◌||◌, Bool-cases, some, List, [], ◌∷◌, map, ◌==◌, ==_iff, ok, arith,
}
use snapemu_workflow.Groups.{
  MapRow, lower, find, set_order, Tables, IsTables, is_of, is_device, device_group_max_order, raise,
  device_group, device_default_group,
}
use snapemu_workflow.Groups.Bounds.{
  In, IsLow, max_order, lower-true, next_low, first_order_low, first_order-In,
}

-- The id of a row is its own, and two rows of a user's group with an order other than 0 have different
-- orders.
abbrev pub IsRanked : List MapRow → Type 0
IsRanked rows =
    ((r q : MapRow) → In r rows → In q rows → r.id ≡ q.id → r ≡ q)
    × ((r q : MapRow)
        → In r rows
        → In q rows
        → r.user_id ≡ q.user_id
        → r.group_id ≡ q.group_id
        → r.dev_order ≡ q.dev_order
        → r.dev_order ≢ 0
        → r.id ≡ q.id)

pub find-In :
    (p : MapRow → Bool) (rows : List MapRow) (r : MapRow)
    → find p rows ≡ some r
    → In r rows × (p r ≡ true)
unfolding find
find-In p [] r e = cc
find-In p (x ∷ rows) r e = elim (Bool-cases (p x)) [
  | inl holds ↦ let same : x ≡ r = cc (rw holds at e) in (inl (sym same), rw same at holds)
  | inr fails ↦ let (there, holds) = find-In p rows r (rw fails at e) in (inr there, holds)
]

pub In-map :
    (f : MapRow → MapRow) (rows : List MapRow) (r : MapRow)
    → In r (map f rows)
    → (x : MapRow) × In x rows × (r ≡ f x)
In-map f [] r h = absurd h
In-map f (x ∷ rows) r (inl e) = (x, inl refl, e)
In-map f (x ∷ rows) r (inr h) = let (y, there, e) = In-map f rows r h in (y, inr there, e)

pub map-In :
    (f : MapRow → MapRow) (rows : List MapRow) (x : MapRow) → In x rows → In (f x) (map f rows)
map-In f [] x h = absurd h
map-In f (y ∷ rows) x (inl e) = inl (ap f e)
map-In f (y ∷ rows) x (inr h) = inr (map-In f rows x h)

-- What `set_order` does to a row.
pub set_order-cases :
    (id order : ℕ) (r : MapRow)
    → ((r.id ≡ id) × (set_order id order r ≡ record r { dev_order = order }))
      ⊎ ((r.id ≢ id) × (set_order id order r ≡ r))
unfolding set_order
set_order-cases id order r = elim (Bool-cases (r.id == id)) [
  | inl same ↦ inl ((==_iff r.id id).0 same, rw same refl)
  | inr other ↦ inr (λ e. ground arith, rw other refl)
]

-- The order of a row, as an i32, is above those of all other rows of its user's group.
abbrev pub IsFirst : MapRow → List MapRow → Type 0
IsFirst top rows =
    In top rows
    × ((r : MapRow)
        → In r rows
        → r.user_id ≡ top.user_id
        → r.group_id ≡ top.group_id
        → r.id ≢ top.id
        → lower r.dev_order top.dev_order ≡ true)

pub is_of_same :
    (r : MapRow) (user group : ℕ)
    → r.user_id ≡ user
    → r.group_id ≡ group
    → is_of user group r ≡ true
is_of_same r user group e f = ground arith

pub device_fields :
    (r : MapRow) (user device group : ℕ)
    → is_device user device group r ≡ true
    → (r.group_id ≡ group) × (r.user_id ≡ user) × (r.device_id ≡ device)
device_fields r user device group e = ground arith

-- The rows after the order of one is set above all orders of its user's group.
set_order-IsFirst :
    (row : MapRow) (rows : List MapRow)
    → IsLow (2 ^ 31 - 1) rows
    → In row rows
    → (top : MapRow) × (top.id ≡ row.id)
      × (top.user_id ≡ row.user_id)
      × (top.group_id ≡ row.group_id)
      × (top.device_id ≡ row.device_id)
      × IsFirst top (map (set_order row.id (max_order row rows + 1)) rows)
set_order-IsFirst row rows low there =
    let m = max_order row rows in
    let lt : m < 2 ^ 31 - 1 =
      first_order_low (is_of row.user_id row.group_id) rows (2 ^ 31 - 1) low (omega arith) in
    let top : MapRow = record row { dev_order = m + 1 } in
    let changed : set_order row.id (m + 1) row ≡ top = elim (set_order-cases row.id (m + 1) row) [
      | inl (e, is) ↦ is
      | inr (ne, is) ↦ absurd (ne refl)
    ] in
    (
      top,
      refl,
      refl,
      refl,
      refl,
      (
        rw changed at (map-In (set_order row.id (m + 1)) rows row there),
        λ r h e f ne.
            let (x, hx, is_x) = In-map (set_order row.id (m + 1)) rows r h in
            elim (set_order-cases row.id (m + 1) x) [
              | inl (same, is) ↦ absurd (ne (ap (λ y. y.id) (is_x ∙ is) ∙ same))
              | inr (other, is) ↦
                  let r_x = is_x ∙ is in
                  let le : x.dev_order ≤ m =
                    first_order-In (is_of row.user_id row.group_id) rows x
                      (λ q k. omega (arith, low q k)) hx
                      (is_of_same x row.user_id row.group_id (ap (λ y. y.user_id) (sym r_x) ∙ e)
                        (ap (λ y. y.group_id) (sym r_x) ∙ f)) in
                  rw r_x (lower-true x.dev_order (m + 1) (omega (arith, le)) (omega (arith, lt)))
            ],
      ),
    )

-- A row that has the greatest order already.
ranked-IsFirst :
    (row : MapRow) (rows : List MapRow)
    → IsRanked rows
    → IsLow (2 ^ 31 - 1) rows
    → In row rows
    → row.dev_order ≡ max_order row rows
    → row.dev_order ≢ 0
    → IsFirst row rows
ranked-IsFirst row rows (own, ranks) low there max nonzero = (
  there,
  λ r h e f ne.
      let le =
        first_order-In (is_of row.user_id row.group_id) rows r (λ q k. omega (arith, low q k)) h
          (is_of_same r row.user_id row.group_id e f) in
      elim (Bool-cases (r.dev_order == row.dev_order)) [
        | inl same ↦
            let tie = (==_iff r.dev_order row.dev_order).0 same in
            absurd (ne (ranks r row h there e f tie (λ z. nonzero (sym tie ∙ z))))
        | inr other ↦
            let lt : r.dev_order < row.dev_order = ground arith in
            lower-true r.dev_order row.dev_order lt (omega (arith, low row there))
      ],
)

pub raise_test :
    (o m : ℕ)
    → ((not (o == m) || (m == 0)) ≡ true)
      ⊎ (((not (o == m) || (m == 0)) ≡ false) × (o ≡ m) × (o ≢ 0))
raise_test o m = elim (Bool-cases (not (o == m) || (m == 0))) [
  | inl e ↦ inl e
  | inr e ↦ inr (e, ground arith, λ z. ground arith)
]

module _ (T : Tables) (laws : IsTables T) where
  raise-IsFirst :
      (row : MapRow) (s : T.State)
      → IsRanked (T.maps s)
      → IsLow (2 ^ 31 - 1) (T.maps s)
      → In row (T.maps s)
      → (top : MapRow) × (top.id ≡ row.id)
        × (top.user_id ≡ row.user_id)
        × (top.group_id ≡ row.group_id)
        × (top.device_id ≡ row.device_id)
        × IsFirst top (T.maps (raise T row (device_group_max_order T row.user_id row.group_id s) s))
  unfolding raise device_group_max_order
  raise-IsFirst row s ranked low there =
      let m = max_order row (T.maps s) in
      let lt : m < 2 ^ 31 - 1 =
        first_order_low (is_of row.user_id row.group_id) (T.maps s) (2 ^ 31 - 1) low
          (omega arith) in
      elim (raise_test row.dev_order m) [
        | inl e ↦
            rw (e, next_low m (omega (arith, lt)), laws.maps-update_order row.id (m + 1) s)
              (set_order-IsFirst row (T.maps s) low there)
        | inr (e, max, nonzero) ↦ rw e (
          row,
          refl,
          refl,
          refl,
          refl,
          ranked-IsFirst row (T.maps s) ranked low there max nonzero,
        )
      ]

  -- Where rows are ranked, with orders from 0 to below the greatest i32, putting a device on top in a group that has it
  -- ends well, and the order of its row is then, as an i32, above those of all other rows of the user's group.
  pub device_group-IsFirst :
      (user device group : ℕ) (row : MapRow) (s : T.State)
      → IsRanked (T.maps s)
      → IsLow (2 ^ 31 - 1) (T.maps s)
      → find (is_device user device group) (T.maps s) ≡ some row
      → (t : T.State) × (device_group T user device group s ≡ ok t)
        × (device_default_group T user device group s ≡ t)
        × ((top : MapRow) × (top.user_id ≡ user)
            × (top.group_id ≡ group)
            × (top.device_id ≡ device)
            × IsFirst top (T.maps t))
  unfolding device_group device_default_group
  device_group-IsFirst user device group row s ranked low found =
      let (there, holds) = find-In (is_device user device group) (T.maps s) row found in
      let (is_group, is_user, is_dev) = device_fields row user device group holds in
      let (top, id, user_eq, group_eq, device_eq, first) = raise-IsFirst row s ranked low there in
      let same : device_group_max_order T row.user_id row.group_id s
          ≡ device_group_max_order T user group s =
        ap (λ u. device_group_max_order T u row.group_id s) is_user
        ∙ ap (λ g. device_group_max_order T user g s) is_group in
      (
        raise T row (device_group_max_order T user group s) s,
        rw found refl,
        rw found refl,
        (top, user_eq ∙ is_user, group_eq ∙ is_group, device_eq ∙ is_dev, rw same at first),
      )
