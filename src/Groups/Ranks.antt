-- ===== src/Groups/Ranks.antt =====
-- The operations on groups keep the ranks of devices apart.
use snapemu_workflow.Base.{
  ℕ, ◌+◌, ◌^◌, ◌≤◌, ◌<◌, ◌≡◌, refl, ap, ◌∙◌, inl, inr, Bool, not, Option, none, some, ◌==◌, ok,
  ◌>>=◌, ok_or, arith,
}
use snapemu_workflow.Groups.{
  Group, MapRow, order_invalid, group_invalid, find, Tables, IsTables, Cache, is_of, is_device,
  device_group_max_order, raise, device_group, raise_found, device_default_group, link, unlink,
  unlink_device_all, delete_by_user,
}
use snapemu_workflow.Groups.Bounds.{In, IsLow, max_order, next_low, first_order_low}
use snapemu_workflow.Groups.Order.{IsRanked, find-In, raise_test, device_fields}
use snapemu_workflow.Groups.Kept.{
  IsKept, IsKept-more, IsKept-filter, IsKept-insert, IsRanked-raised, IsLow-raised,
}

module _ (T : Tables) (laws : IsTables T) (bound : ℕ) (room : bound < 2 ^ 31) where
  IsKept-raise :
      (row : MapRow) (s : T.State)
      → IsKept bound (T.maps s)
      → In row (T.maps s)
      → IsKept
          (bound + 1)
          (T.maps (raise T row (device_group_max_order T row.user_id row.group_id s) s))
  unfolding raise device_group_max_order
  IsKept-raise row s (ranked, low) there =
      let m = max_order row (T.maps s) in
      let least = low row there in
      let lt : m < bound =
        first_order_low (is_of row.user_id row.group_id) (T.maps s) bound low
          (omega (arith, least)) in
      let low31 : IsLow (2 ^ 31) (T.maps s) =
        λ q k. let old = low q k in omega (arith, old, room) in
      elim (raise_test row.dev_order m) [
        | inl e ↦
            rw (e, next_low m (omega (arith, lt, room)), laws.maps-update_order row.id (m + 1) s)
              (
                IsRanked-raised row (T.maps s) ranked low31 there,
                IsLow-raised row (T.maps s) bound ranked low there,
              )
        | inr (e, max, nonzero) ↦
            rw e (IsKept-more bound (bound + 1) (T.maps s) (omega arith) (ranked, low))
      ]

  IsKept-found :
      (user device group : ℕ) (found : Option MapRow) (s : T.State)
      → find (is_device user device group) (T.maps s) ≡ found
      → IsKept bound (T.maps s)
      → IsKept (bound + 1) (T.maps (raise_found T found (device_group_max_order T user group s) s))
  IsKept-found user device group none s e kept =
      IsKept-more bound (bound + 1) (T.maps s) (omega arith) kept
  IsKept-found user device group (some row) s e kept =
      let (there, holds) = find-In (is_device user device group) (T.maps s) row e in
      let (is_group, is_user, is_dev) = device_fields row user device group holds in
      let same : device_group_max_order T row.user_id row.group_id s
          ≡ device_group_max_order T user group s =
        ap (λ u. device_group_max_order T u row.group_id s) is_user
        ∙ ap (λ g. device_group_max_order T user g s) is_group in
      rw same at (IsKept-raise row s kept there)

-- One operation on the rows of groups; the cache may hold anything.
module _ (T : Tables) (C : Cache) where
  pub data Step (s t : T.State) : Type 0 where
    tops : (user device group : ℕ) → device_group T user device group s ≡ ok t → Step s t
    tops_default :
        (user device group : ℕ) → device_default_group T user device group s ≡ t → Step s t
    links :
        (group user device : ℕ) (c : C.State) (row : MapRow) (d : C.State)
        → link T C group user device s c ≡ ok (row, t, d)
        → Step s t
    unlinks :
        (device user group : ℕ) (c : C.State) → (unlink T C device user group s c).0 ≡ t → Step s t
    unlinks_device : (device : ℕ) → unlink_device_all T C device s ≡ t → Step s t
    deletes_user : (user : ℕ) (c : C.State) → (delete_by_user T C user s c).0 ≡ t → Step s t

  pub data Reach (s : T.State) : T.State → Type 0 where
    start : Reach s s
    next : {t u : T.State} → Reach s t → Step t u → Reach s u

  -- The number of the operations.
  abbrev pub steps : {s t : T.State} → Reach s t → ℕ
  steps start = 0
  steps (next run step) = steps run + 1

module _ (T : Tables) (laws : IsTables T) (C : Cache) (bound : ℕ) (room : bound < 2 ^ 31) where
  IsKept-tops :
      (user device group : ℕ) (found : Option MapRow) (s t : T.State)
      → find (is_device user device group) (T.maps s) ≡ found
      → IsKept bound (T.maps s)
      → (ok_or found order_invalid >>= λ order.
          ok (raise T order (device_group_max_order T user group s) s))
        ≡ ok t
      → IsKept (bound + 1) (T.maps t)
  IsKept-tops user device group none s t e kept h = cc
  IsKept-tops user device group (some row) s t e kept h =
      let same : raise T row (device_group_max_order T user group s) s ≡ t = cc in
      rw same at (IsKept-found T laws bound room user device group (some row) s e kept)

  IsKept-delete_maps :
      (p : MapRow → Bool) (s : T.State)
      → IsKept bound (T.maps s)
      → IsKept (bound + 1) (T.maps (T.delete_maps p s))
  IsKept-delete_maps p s kept =
      rw (laws.maps-delete_maps p s) (IsKept-filter (λ r. not (p r)) bound (T.maps s) kept)

  IsKept-insert_map :
      (user device group : ℕ) (s : T.State)
      → IsKept bound (T.maps s)
      → IsKept (bound + 1) (T.maps (T.insert_map user device group s).1)
  IsKept-insert_map user device group s kept =
      let (id, fresh, is) = laws.maps-insert_map user device group s in
      rw is (IsKept-insert _ bound (T.maps s) refl fresh kept)

  IsKept-links :
      (group user device : ℕ) (c d : C.State) (row : MapRow) (s t : T.State) (found : Option Group)
      → IsKept bound (T.maps s)
      → ◌>>=◌ {B = MapRow × T.State × C.State} (ok_or found group_invalid) (λ g. ok (
        (T.insert_map user device group s).0,
        (T.insert_map user device group s).1,
        C.delete_by_user_id user c,
      ))
        ≡ ok (row, t, d)
      → IsKept (bound + 1) (T.maps t)
  IsKept-links group user device c d row s t none kept h = cc
  IsKept-links group user device c d row s t (some g) kept h =
      let same : (T.insert_map user device group s).1 ≡ t = cc in
      rw same at (IsKept-insert_map user device group s kept)

  pub Step-IsKept :
      (s t : T.State) → Step T C s t → IsKept bound (T.maps s) → IsKept (bound + 1) (T.maps t)
  unfolding device_group device_default_group link unlink unlink_device_all delete_by_user
  Step-IsKept s t (tops user device group e) kept =
      IsKept-tops user device group (find (is_device user device group) (T.maps s)) s t refl kept e
  Step-IsKept s t (tops_default user device group e) kept = rw e at (
      IsKept-found T laws bound room user device group
        (find (is_device user device group) (T.maps s)) s refl kept)
  Step-IsKept s t (links group user device c row d e) kept =
      IsKept-links group user device c d row s t _ kept e
  Step-IsKept s t (unlinks device user group c e) kept =
      rw e at (IsKept-delete_maps (is_device user device group) s kept)
  Step-IsKept s t (unlinks_device device e) kept =
      rw e at (IsKept-delete_maps (λ r. r.device_id == device) s kept)
  Step-IsKept s t (deletes_user user c e) kept = rw e at (
      IsKept-delete_maps (λ r. r.user_id == user) (T.delete_groups (λ g. g.owner == user) s)
        (rw (laws.maps-delete_groups (λ g. g.owner == user) s) kept))

module _ (T : Tables) (laws : IsTables T) (C : Cache) where
  Reach-IsKept :
      (bound : ℕ) (s t : T.State) (run : Reach T C s t)
      → bound + steps T C run ≤ 2 ^ 31
      → IsKept bound (T.maps s)
      → IsKept (bound + steps T C run) (T.maps t)
  Reach-IsKept bound s t start room kept =
      IsKept-more bound (bound + 0) (T.maps s) (omega arith) kept
  Reach-IsKept bound s t (next run step) room kept =
      IsKept-more (bound + steps T C run + 1) (bound + steps T C (next run step)) (T.maps t)
        (omega arith)
        (Step-IsKept T laws C (bound + steps T C run) (omega (arith, room)) _ t step
          (Reach-IsKept bound s _ run (omega (arith, room)) kept))

  -- Whatever is linked, unlinked, deleted and put on top, from tables on with ranked rows and orders from 0 to below a
  -- bound, in so few operations that the bound and their number are at most 2 ^ 31: the id of a row is its own, no two
  -- devices of a user's group have the same order, but for 0, and the orders are from 0 to below the bound and the
  -- number of the operations.
  pub Reach-IsRanked :
      (bound : ℕ) (s t : T.State) (run : Reach T C s t)
      → bound + steps T C run ≤ 2 ^ 31
      → IsRanked (T.maps s)
      → IsLow bound (T.maps s)
      → IsRanked (T.maps t) × IsLow (bound + steps T C run) (T.maps t)
  Reach-IsRanked bound s t run room ranked low = Reach-IsKept bound s t run room (ranked, low)
