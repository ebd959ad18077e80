-- ===== src/Groups.antt =====
-- The groups of devices and the order of devices in them (snap_api/src/service/device/group.rs and
-- order.rs), with the cache of a user's groups (snap_api/src/cache/device_group_cache.rs). The tables
-- and the cache are interfaces.
pub mod Bounds
pub mod Order
pub mod Kept
pub mod Ranks
pub mod Stale
pub mod Memory
mod Tests
use snapemu_workflow.Base.{
  ℕ, ◌+◌, ◌^◌, ◌%◌, ◌≡◌, ◌≢◌, Bool, true, false, not, ◌&&◌, ◌||◌, Option, none, some, List, [], ◌∷◌,
  map, ltb, ◌==◌, if◌then◌else◌, Outcome, ok, err, panic, stuck, ◌>>=◌, ◌>>◌, ensure, ok_or, All,
}

-- `DeviceGroupModel`, without its time of creation.
pub record Group : Type 0 where
  pub id : ℕ
  pub name : List ℕ
  pub description : List ℕ
  pub default_group : Bool
  pub owner : ℕ

-- `DeviceMapGroupModel`, without its time of creation. `dev_order` is the 32 bits of an i32, so a negative order is
-- a number from 2 ^ 31 on.
pub record MapRow : Type 0 where
  pub id : ℕ
  pub user_id : ℕ
  pub device_id : ℕ
  pub group_id : ℕ
  pub dev_order : ℕ

pub data GroupError : Type 0 where
  group_invalid order_invalid not_found default_delete group_not_found default_edit invalid_device :
      GroupError

unfoldable pub filter : {A : Type 0} → (A → Bool) → List A → List A
filter p [] = []
filter p (x ∷ xs) = let rest = filter p xs in if p x then x ∷ rest else rest

unfoldable pub find : {A : Type 0} → (A → Bool) → List A → Option A
find p [] = none
find p (x ∷ xs) = let rest = find p xs in if p x then some x else rest

unfoldable pub set_order : ℕ → ℕ → MapRow → MapRow
set_order id order r = if r.id == id then record r { dev_order = order } else r

-- The two tables; a query gives rows in some order of the table.
pub record Tables : Type 1 where
  pub State : Type 0
  pub groups : State → List Group
  pub maps : State → List MapRow
  pub insert_group : List ℕ → List ℕ → Bool → ℕ → State → Group × State
  pub delete_groups : (Group → Bool) → State → State
  -- Of a user, a device and a group, with order 0.
  pub insert_map : ℕ → ℕ → ℕ → State → MapRow × State
  pub update_order : ℕ → ℕ → State → State
  pub update_group : Group → State → State
  pub delete_maps : (MapRow → Bool) → State → State

pub record IsTables (T : Tables) : Type 0 where
  pub groups-delete_groups :
      (p : Group → Bool) (s : T.State)
      → T.groups (T.delete_groups p s) ≡ filter (λ g. not (p g)) (T.groups s)
  -- A row that is inserted has a new id.
  pub maps-insert_map :
      (user device group : ℕ) (s : T.State)
      → (id : ℕ) × (All (λ r. r.id ≢ id) (T.maps s))
        × (T.maps (T.insert_map user device group s).1
            ≡ record {
              id = id;
              user_id = user;
              device_id = device;
              group_id = group;
              dev_order = 0;
            }
              ∷ T.maps s)
  pub maps-update_order :
      (id order : ℕ) (s : T.State)
      → T.maps (T.update_order id order s) ≡ map (set_order id order) (T.maps s)
  pub maps-delete_maps :
      (p : MapRow → Bool) (s : T.State)
      → T.maps (T.delete_maps p s) ≡ filter (λ r. not (p r)) (T.maps s)
  pub maps-delete_groups :
      (p : Group → Bool) (s : T.State) → T.maps (T.delete_groups p s) ≡ T.maps s
  pub groups-delete_maps :
      (p : MapRow → Bool) (s : T.State) → T.groups (T.delete_maps p s) ≡ T.groups s
  pub groups-insert_map :
      (user device group : ℕ) (s : T.State)
      → T.groups (T.insert_map user device group s).1 ≡ T.groups s
  pub maps-insert_group :
      (name description : List ℕ) (default : Bool) (owner : ℕ) (s : T.State)
      → T.maps (T.insert_group name description default owner s).1 ≡ T.maps s
  pub groups-update_group :
      (g : Group) (s : T.State)
      → T.groups (T.update_group g s) ≡ map (λ h. if h.id == g.id then g else h) (T.groups s)
  pub maps-update_group : (g : Group) (s : T.State) → T.maps (T.update_group g s) ≡ T.maps s

-- `DeviceGroupCache`: the groups of a user, with the number of their devices.
pub record Cache : Type 1 where
  pub State : Type 0
  pub load_by_user_id : ℕ → State → Option (List (Group × ℕ))
  pub save_by_user_id : ℕ → List (Group × ℕ) → State → State
  pub delete_by_user_id : ℕ → State → State

-- `<` of two i32 that are given by their bits.
unfoldable pub lower : ℕ → ℕ → Bool
lower a b = ltb ((a + 2 ^ 31) % 2 ^ 32) ((b + 2 ^ 31) % 2 ^ 32)

abbrev pub higher_order : Option ℕ → ℕ → Option ℕ
higher_order none order = some order
higher_order (some top) order = some (if lower top order then order else top)

-- The order of the first row of a test when the rows are sorted by falling order.
unfoldable pub first_order : (MapRow → Bool) → List MapRow → Option ℕ
first_order p [] = none
first_order p (r ∷ rows) =
    let rest = first_order p rows in if p r then higher_order rest r.dev_order else rest

abbrev pub or_zero : Option ℕ → ℕ
or_zero none = 0
or_zero (some order) = order

abbrev pub is_of : ℕ → ℕ → MapRow → Bool
is_of user group r = (r.group_id == group) && (r.user_id == user)

abbrev pub is_device : ℕ → ℕ → ℕ → MapRow → Bool
is_device user device group r =
    (r.group_id == group) && ((r.user_id == user) && (r.device_id == device))

module _ (T : Tables) where
  unfoldable pub device_group_max_order : ℕ → ℕ → T.State → ℕ
  device_group_max_order user group s = or_zero (first_order (is_of user group) (T.maps s))

  -- The sum wraps around, as it does without the checks of a debug build.
  unfoldable pub raise : MapRow → ℕ → T.State → T.State
  raise order dev_order s =
      if not (order.dev_order == dev_order) || (dev_order == 0)
      then T.update_order order.id ((dev_order + 1) % 2 ^ 32) s
      else s

  unfoldable pub device_group : ℕ → ℕ → ℕ → T.State → Outcome GroupError T.State
  device_group user device group s = do
    order ← ok_or (find (is_device user device group) (T.maps s)) order_invalid
    ok (raise order (device_group_max_order user group s) s)

  abbrev pub raise_found : Option MapRow → ℕ → T.State → T.State
  raise_found none dev_order s = s
  raise_found (some order) dev_order s = raise order dev_order s

  -- `group` is the user's default group.
  unfoldable pub device_default_group : ℕ → ℕ → ℕ → T.State → T.State
  device_default_group user device group s =
      raise_found (find (is_device user device group) (T.maps s))
        (device_group_max_order user group s) s

module _ (T : Tables) (C : Cache) where
  unfoldable pub link :
      ℕ → ℕ → ℕ → T.State → C.State → Outcome GroupError (MapRow × T.State × C.State)
  link group user device s c = do
    found ← ok_or (find (λ g. g.id == group) (T.groups s)) group_invalid
    let c1 = C.delete_by_user_id user c in
        let (row, s1) = T.insert_map user device group s in ok (row, s1, c1)

  unfoldable pub unlink : ℕ → ℕ → ℕ → T.State → C.State → T.State × C.State
  unlink device user group s c =
      (T.delete_maps (is_device user device group) s, C.delete_by_user_id user c)

  unfoldable pub unlink_device_all : ℕ → T.State → T.State
  unlink_device_all device s = T.delete_maps (λ r. r.device_id == device) s

  unfoldable pub delete_by_user : ℕ → T.State → C.State → T.State × C.State
  delete_by_user user s c =
      let s1 = T.delete_groups (λ g. g.owner == user) s in
      (T.delete_maps (λ r. r.user_id == user) s1, C.delete_by_user_id user c)

  abbrev pub deletable : ℕ → T.State → Group → Outcome GroupError T.State
  deletable user s g =
      if not (g.owner == user)
      then err not_found
      else if g.default_group
      then err default_delete
      else ok (T.delete_groups (λ h. h.id == g.id) s)

  unfoldable pub delete_one : ℕ → ℕ → T.State → Outcome GroupError T.State
  delete_one user id s = ok_or (find (λ g. g.id == id) (T.groups s)) not_found >>= deletable user s

  abbrev pub cached : ℕ → Option (List (Group × ℕ)) → Option (Group × ℕ)
  cached id none = none
  cached id (some v) = find (λ item. item.0.id == id) v

  -- `select_by_group_id`; `count` is the number of devices of a group.
  abbrev pub from_tables :
      (Group → ℕ)
      → ℕ
      → ℕ
      → T.State
      → C.State
      → Option (Group × ℕ)
      → Outcome GroupError (Group × ℕ) × C.State
  from_tables count user id s c (some item) = (ok item, c)
  from_tables count user id s c none =
      let caches = map (λ g. (g, count g)) (filter (λ g. g.owner == user) (T.groups s)) in
      (
        ok_or (find (λ item. item.0.id == id) caches) group_not_found,
        C.save_by_user_id user caches c,
      )

  unfoldable pub select_by_group_id :
      (Group → ℕ) → ℕ → ℕ → T.State → C.State → Outcome GroupError (Group × ℕ) × C.State
  select_by_group_id count user id s c =
      from_tables count user id s c (cached id (C.load_by_user_id user c))
