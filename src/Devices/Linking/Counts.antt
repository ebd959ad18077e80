-- ===== src/Devices/Linking/Counts.antt =====
-- How often a device is in a group.
use mathlib.Core.Path.{subst}
use snapemu_workflow.Base.{
  ℕ, suc, ◌+◌, ◌≡◌, ◌≢◌, refl, sym, ap, ◌∙◌, inl, inr, Bool, true, false, not, ◌&&◌, Bool-cases,
  ==_iff, some, List, [], ◌∷◌, All, ◌==◌, if◌then◌else◌, ok, arith,
}
use snapemu_workflow.Groups.{
  Group, MapRow, filter, find, is_device, Tables, IsTables, Cache, link, unlink,
}
use snapemu_workflow.Tables.{is_in}
use snapemu_workflow.Devices.Linking.{link_each, unlink_each, link_groups}

unfoldable pub count : {A : Type 0} → (A → Bool) → List A → ℕ
count p [] = 0
count p (x ∷ xs) = let rest = count p xs in if p x then suc rest else rest

module _ {A : Type 0} (p : A → Bool) where
  pub count-deleted : (xs : List A) → count p (filter (λ x. not (p x)) xs) ≡ 0
  unfolding count filter
  count-deleted [] = refl
  count-deleted (x ∷ xs) = elim (Bool-cases (p x)) [
    | inl gone ↦ rw gone (count-deleted xs)
    | inr kept ↦ rw (kept, kept) (count-deleted xs)
  ]

  pub count-kept :
      (q : A → Bool) (xs : List A)
      → ((x : A) → p x ≡ true → q x ≡ false)
      → count p (filter (λ x. not (q x)) xs) ≡ count p xs
  unfolding count filter
  count-kept q [] h = refl
  count-kept q (x ∷ xs) h = elim (Bool-cases (q x)) [
    | inl gone ↦ elim (Bool-cases (p x)) [
      | inl here ↦ let e = h x here in absurd cc
      | inr other ↦ rw (gone, other) (count-kept q xs h)
    ]
    | inr kept ↦ elim (Bool-cases (p x)) [
      | inl here ↦ rw (kept, here) (ap suc (count-kept q xs h))
      | inr other ↦ rw (kept, other) (count-kept q xs h)
    ]
  ]

-- How many rows link a user's device to a group.
abbrev pub links : (T : Tables) → ℕ → ℕ → ℕ → T.State → ℕ
links T user device group s = count (is_device user device group) (T.maps s)

-- The groups that the table has.
abbrev pub Known : (T : Tables) → T.State → ℕ → Type 0
Known T s group = (g : Group) × (find (λ h. h.id == group) (T.groups s) ≡ some g)

-- One more in a list or in a table.
pub one_more :
    (b : Bool) (n k : ℕ) → n + (if b && true then suc k else k) ≡ (if b then suc n else n) + k
one_more true n k = omega arith
one_more false n k = refl

module _ (T : Tables) (laws : IsTables T) where
  pub links-insert_map :
      (user device group u d g : ℕ) (s : T.State)
      → links T u d g (T.insert_map user device group s).1 ≡ (
          if (group == g) && ((user == u) && (device == d))
          then suc (links T u d g s)
          else links T u d g s)
  unfolding count
  links-insert_map user device group u d g s =
      let (id, fresh, is) = laws.maps-insert_map user device group s in rw is refl

module _ (T : Tables) (laws : IsTables T) (C : Cache) where
  -- The loop of `new_device` links the device once to each group of the list, for each time that it is there.
  pub link_groups-links :
      (row : MapRow) (groups : List ℕ) (user device : ℕ) (s : T.State) (c : C.State)
      → row.group_id ≢ row.id
      → All (Known T s) groups
      → (t : T.State) × (d : C.State) × (link_groups T C row groups user device s c ≡ ok (t, d))
        × ((g : ℕ) → links T user device g t ≡ count (λ x. x == g) groups + links T user device g s)
  unfolding count link
  link_groups-links row [] user device s c other known = (s, c, refl, λ g. omega arith)
  link_groups-links row (group ∷ groups) user device s c other ((found, is), known) =
      let s1 = (T.insert_map user device group s).1 in
      let same_groups = laws.groups-insert_map user device group s in
      let (t, d, runs, counts) =
        link_groups-links row groups user device s1 (C.delete_by_user_id user c) other (
          subst (λ gs. All (λ x. (g : Group) × (find (λ h. h.id == x) gs ≡ some g)) groups)
            (sym same_groups) known) in
      (
        t,
        d,
        rw (differs row.group_id row.id other, is) runs,
        λ g.
            counts g
            ∙ rw
                (
                  links-insert_map T laws user device group user device g s,
                  (==_iff user user).1 refl,
                  (==_iff device device).1 refl,
                )
                (one_more (group == g) (count (λ x. x == g) groups) (links T user device g s)),
      )
    where
      differs : (a b : ℕ) → a ≢ b → (a == b) ≡ false
      differs a b h = elim (Bool-cases (a == b)) [
        | inl e ↦ absurd (h ((==_iff a b).0 e))
        | inr n ↦ n
      ]

  -- The links of `update_group` to the devices of a list.
  pub link_each-links :
      (group user : ℕ) (ids : List ℕ) (s : T.State) (c : C.State)
      → Known T s group
      → (t : T.State) × (d : C.State) × (link_each T C group user ids s c ≡ ok (t, d))
        × (T.groups t ≡ T.groups s)
        × ((device : ℕ)
            → links T user device group t
              ≡ count (λ x. x == device) ids + links T user device group s)
  unfolding count link
  link_each-links group user [] s c known = (s, c, refl, refl, λ device. omega arith)
  link_each-links group user (id ∷ ids) s c (found, is) =
      let s1 = (T.insert_map user id group s).1 in
      let same_groups = laws.groups-insert_map user id group s in
      let (t, d, runs, groups, counts) =
        link_each-links group user ids s1 (C.delete_by_user_id user c) (found, rw same_groups is) in
      (
        t,
        d,
        rw is runs,
        groups ∙ same_groups,
        λ device.
            counts device
            ∙ rw
                (
                  links-insert_map T laws user id group user device group s,
                  (==_iff user user).1 refl,
                  (==_iff group group).1 refl,
                )
                (added (id == device) (count (λ x. x == device) ids) (links T user device group s)),
      )
    where
      added :
          (b : Bool) (n k : ℕ)
          → n + (if true && (true && b) then suc k else k) ≡ (if b then suc n else n) + k
      added true n k = omega arith
      added false n k = refl

  -- The removals of `update_group`.
  pub unlink_each-links :
      (group user : ℕ) (ids : List ℕ) (s : T.State) (c : C.State) (device : ℕ)
      → (T.groups (unlink_each T C group user ids s c).0 ≡ T.groups s)
        × (links T user device group (unlink_each T C group user ids s c).0
            ≡ (if is_in ids device then 0 else links T user device group s))
  unfolding unlink is_in
  unlink_each-links group user [] s c device = (refl, refl)
  unlink_each-links group user (id ∷ ids) s c device =
      let s1 = T.delete_maps (is_device user id group) s in
      let (groups, rest) =
        unlink_each-links group user ids s1 (C.delete_by_user_id user c) device in
      (
        groups ∙ laws.groups-delete_maps (is_device user id group) s,
        elim (Bool-cases (id == device)) [
          | inl same_id ↦
              let e : id ≡ device = (==_iff id device).0 same_id in
              let gone : links T user device group s1 ≡ 0 =
                rw (e, laws.maps-delete_maps (is_device user device group) s)
                  (count-deleted (is_device user device group) (T.maps s)) in
              rest ∙ rw (same_id, gone) (nothing (is_in ids device))
          | inr other ↦
              let left : links T user device group s1 ≡ links T user device group s =
                rw (laws.maps-delete_maps (is_device user id group) s) (
                  count-kept (is_device user device group) (is_device user id group) (T.maps s)
                    (λ r here. not_both r other here)) in
              rest ∙ rw (other, left) refl
        ],
      )
    where
      nothing : (b : Bool) → ◌≡◌ {A = ℕ} (if b then 0 else 0) 0
      nothing true = refl
      nothing false = refl

      last : (a b c : Bool) → (a && (b && c)) ≡ true → c ≡ true
      last a b c h = ground arith

      never : (a b : Bool) → (a && (b && false)) ≡ false
      never a b = ground arith

      not_both :
          (r : MapRow)
          → (id == device) ≡ false
          → is_device user device group r ≡ true
          → is_device user id group r ≡ false
      not_both r other here =
          let e : r.device_id ≡ device =
            (==_iff r.device_id device).0
              (last (r.group_id == group) (r.user_id == user) (r.device_id == device) here) in
          rw (e, swap other) (never (r.group_id == group) (r.user_id == user))
        where
          swap : (id == device) ≡ false → (device == id) ≡ false
          swap h = elim (Bool-cases (device == id)) [
            | inl e ↦ let f = (==_iff id device).1 (sym ((==_iff device id).0 e)) in absurd cc
            | inr n ↦ n
          ]
