-- ===== src/Devices/Linking.antt =====
-- The devices in the groups of a user: the change of a group and the choice of the default group in
-- snap_api/src/service/device/group.rs, and what `new_device` of device.rs does after a device was created.
pub mod Counts
pub mod Change
pub mod Creator
mod Tests
use snapemu_workflow.Base.{
  ℕ, Bool, true, false, not, ◌&&◌, ◌||◌, Option, none, some, List, [], ◌∷◌, map, ◌==◌,
  if◌then◌else◌, Outcome, ok, err, panic, stuck, ◌>>=◌, ◌>>◌, ensure, ok_or,
}
use snapemu_workflow.Base.Texts.{same}
use snapemu_workflow.Groups.{
  Group, MapRow, GroupError, group_invalid, not_found, default_edit, invalid_device, filter, find,
  Tables, Cache, link, unlink,
}
use snapemu_workflow.Redis.{Str, codes}
use snapemu_workflow.Tables.{is_in}
use snapemu_workflow.Devices.{
  DevicesModel, DeviceAuthorityModel, share_user, also_related, keep_related, shared_with, Stores,
  World,
}

-- `load_default_by_user_id`, of what the cache has of a user.
unfoldable pub load_default : Option (List (Group × ℕ)) → Option (Group × ℕ)
load_default none = none
load_default (some caches) = find (λ item. item.0.default_group) caches

abbrev pub all_in : List ℕ → List ℕ → Bool
all_in [] ys = true
all_in (x ∷ xs) ys = is_in ys x && all_in xs ys

-- The equality of the sets of two lists.
unfoldable pub same_set : List ℕ → List ℕ → Bool
same_set xs ys = all_in xs ys && all_in ys xs

unfoldable pub query_all_with_ids :
    ℕ → List ℕ → List DeviceAuthorityModel → List DevicesModel → List DevicesModel
query_all_with_ids user devices auths rows =
    map (λ it. it.device)
      (keep_related
        (also_related rows (filter (λ a. shared_with user a && is_in devices a.device_id) auths)))

pub record ReqPutDeviceGroup : Type 0 where
  pub devices : Option (List ℕ)
  pub remove : Option (List ℕ)
  pub name : Option Str
  pub description : Option Str

-- Whether a text is set, and the text that the row then has.
abbrev pub changes : Option Str → Str → Bool
changes none old = false
changes (some new) old = not (same new old)

abbrev pub changed : Option Str → Str → Str
changed none old = old
changed (some new) old = if same new old then old else new

-- The group as it is written back.
unfoldable pub edited : ReqPutDeviceGroup → Group → Group
edited req g = record g {
  name = changed req.name g.name;
  description = changed req.description g.description;
}

module _ (T : Tables) (C : Cache) where
  abbrev pub default_or_new : ℕ → Option Group → T.State → Group × T.State
  default_or_new user (some group) s = (group, s)
  default_or_new user none s = T.insert_group (codes "All") (codes "All") true user s

  abbrev pub default_or_query : ℕ → Option (Group × ℕ) → T.State → Group × T.State
  default_or_query user (some item) s = (item.0, s)
  default_or_query user none s =
      default_or_new user (find (λ g. (g.owner == user) && g.default_group) (T.groups s)) s

  unfoldable pub query_user_default_group : ℕ → T.State → C.State → Group × T.State
  query_user_default_group user s c =
      default_or_query user (load_default (C.load_by_user_id user c)) s

  unfoldable pub link_to_default_group : ℕ → ℕ → T.State → C.State → MapRow × T.State × C.State
  link_to_default_group user device s c =
      let (group, s1) = query_user_default_group user s c in
      let c1 = C.delete_by_user_id user c in
      let (row, s2) = T.insert_map user device group.id s1 in (row, s2, c1)

  -- The links and the removals of `update_group`, one after the other.
  abbrev pub link_each : ℕ → ℕ → List ℕ → T.State → C.State → Outcome GroupError (T.State × C.State)
  link_each group user [] s c = ok (s, c)
  link_each group user (id ∷ devices) s c =
      link T C group user id s c >>= λ r. link_each group user devices r.1 r.2

  abbrev pub unlink_each : ℕ → ℕ → List ℕ → T.State → C.State → T.State × C.State
  unlink_each group user [] s c = (s, c)
  unlink_each group user (id ∷ devices) s c =
      let r = unlink T C id user group s c in unlink_each group user devices r.0 r.1

  -- `known` are the devices among those of the list that the user may use.
  abbrev pub link_some :
      (List ℕ → List ℕ)
      → ℕ
      → ℕ
      → Option (List ℕ)
      → T.State
      → C.State
      → Outcome GroupError (T.State × C.State)
  link_some known group user none s c = ok (s, c)
  link_some known group user (some devices) s c = do
    ensure (same_set devices (known devices)) invalid_device
    link_each group user devices s c

  abbrev pub unlink_some :
      (List ℕ → List ℕ)
      → ℕ
      → ℕ
      → Option (List ℕ)
      → T.State
      → C.State
      → Outcome GroupError (T.State × C.State)
  unlink_some known group user none s c = ok (s, c)
  unlink_some known group user (some devices) s c = do
    ensure (same_set devices (known devices)) invalid_device
    ok (unlink_each group user devices s c)

  unfoldable pub edit : ReqPutDeviceGroup → Group → T.State → T.State
  edit req g s =
      if changes req.name g.name || changes req.description g.description
      then T.update_group (edited req g) s
      else s

  unfoldable pub update_group :
      (List ℕ → List ℕ)
      → ℕ
      → ℕ
      → ReqPutDeviceGroup
      → T.State
      → C.State
      → Outcome GroupError (T.State × C.State)
  update_group known group_id user req s c = do
    group ← ok_or (find (λ g. g.id == group_id) (T.groups s)) not_found
    ensure (group.owner == user) not_found
    ensure (not group.default_group) default_edit
    linked ← link_some known group.id user req.devices s c
    left ← unlink_some known group.id user req.remove linked.0 linked.1
    ok (edit req group left.0, left.1)

  -- The loop over the groups of a request, where `default_group` is the row of the link to the default group.
  abbrev pub link_unless :
      MapRow → ℕ → ℕ → ℕ → T.State → C.State → Outcome GroupError (T.State × C.State)
  link_unless default_group group user device s c =
      if default_group.group_id == default_group.id
      then ok (s, c)
      else (link T C group user device s c >>= λ r. ok (r.1, r.2))

  abbrev pub link_groups :
      MapRow → List ℕ → ℕ → ℕ → T.State → C.State → Outcome GroupError (T.State × C.State)
  link_groups default_group [] user device s c = ok (s, c)
  link_groups default_group (group ∷ groups) user device s c =
      link_unless default_group group user device s c >>= λ r.
      link_groups default_group groups user device r.0 r.1

-- The right of the creator of a device.
abbrev pub owner_right : ℕ → ℕ → ℕ → ℕ → DeviceAuthorityModel
owner_right user device now id = record {
  id = id;
  auth_creator = user;
  device_id = device;
  share_type = share_user;
  share_id = user;
  owner = true;
  manager = true;
  modify = true;
  delete = true;
  share = true;
  create_time = now;
}

module _ (S : Stores) where
  -- Those of some devices that a user has a right on.
  abbrev pub usable : ℕ → World S → List ℕ → List ℕ
  usable user w ids =
      map (λ d. d.id)
        (query_all_with_ids user ids (S.auths.rows w.auths) (S.devices.rows w.devices))

  -- `update_group` with the devices of the tables.
  unfoldable pub put_group : ℕ → ℕ → ReqPutDeviceGroup → World S → Outcome GroupError (World S)
  put_group group_id user req w = do
    r ← update_group S.groups S.caches (usable user w) group_id user req w.groups w.caches
    ok (record w { groups = r.0; caches = r.1 })

  -- `new_device` from the link to the default group on.
  unfoldable pub own_device : ℕ → ℕ → ℕ → List ℕ → World S → Outcome GroupError (World S)
  own_device now user device groups w = do
    let first = link_to_default_group S.groups S.caches user device w.groups w.caches
    r ← link_groups S.groups S.caches first.0 groups user device first.1 first.2
    ok (record w {
      groups = r.0;
      caches = r.1;
      auths = (S.auths.insert (owner_right user device now) w.auths).1;
    })
