-- ===== src/Devices/Linking/Tests.antt =====
-- The theorems on the groups of devices at concrete tables.
use snapemu_workflow.Base.{
  ℕ, ◌+◌, ◌≡◌, refl, true, false, none, some, List, [], ◌∷◌, ◌==◌, if◌then◌else◌, ok, arith,
}
use snapemu_workflow.Groups.{Group, filter, find}
use snapemu_workflow.Groups.Memory.{memory, cache}
use snapemu_workflow.Redis.{codes}
use snapemu_workflow.Tables.{is_in}
use snapemu_workflow.Devices.{World, also_related, keep_related}
use snapemu_workflow.Devices.Memory.{stores, stores-IsStores}
use snapemu_workflow.Devices.Tests as DevicesTests
use snapemu_workflow.Devices.Linking.{
  ReqPutDeviceGroup, same_set, query_all_with_ids, put_group, own_device, owner_right,
  link_to_default_group, query_user_default_group, load_default,
}
use snapemu_workflow.Devices.Linking.Counts.{count, links}
use snapemu_workflow.Devices.Linking.Change.{put_group-links}
use snapemu_workflow.Devices.Linking.Creator.{own_device-links}

abbrev garden : Group
garden = record {
  id = 4;
  name = codes "garden";
  description = [];
  default_group = false;
  owner = 9;
}

abbrev everything : Group
everything = record {
  id = 7;
  name = codes "All";
  description = codes "All";
  default_group = true;
  owner = 9;
}

abbrev tables : List Group
tables = garden ∷ everything ∷ []

abbrev world : World stores
world = record DevicesTests.world { groups = (tables, []) }

abbrev add_sensor : ReqPutDeviceGroup
add_sensor = record {
  devices = some (3 ∷ []);
  remove = some [];
  name = some (codes "roof");
  description = none;
}

put_group-links_example :
    (v : World stores) × (put_group stores 4 9 add_sensor world ≡ ok v)
    × (find (λ h. h.id == 4) (stores.groups.groups v.groups)
        ≡ some (record garden { name = codes "roof" }))
    × ((device : ℕ)
        → links memory 9 device 4 v.groups ≡ (
            if is_in [] device
            then 0
            else count (λ x. x == device) (3 ∷ []) + links memory 9 device 4 (tables, [])))
unfolding find same_set query_all_with_ids also_related keep_related is_in filter
put_group-links_example =
    put_group-links stores stores-IsStores 4 9 add_sensor world garden refl refl refl refl refl

own_device-links_example :
    (v : World stores) × (own_device stores 0 9 3 (7 ∷ []) world ≡ ok v)
    × ((g : ℕ)
        → links memory 9 3 g v.groups
          ≡ count
              (λ x. x == g)
              ((query_user_default_group memory cache 9 (tables, []) world.caches).0.id ∷ 7 ∷ [])
            + links memory 9 3 g (tables, []))
    × ((id : ℕ) × (stores.auths.rows v.auths ≡ owner_right 9 3 0 id ∷ world.auths))
unfolding find link_to_default_group query_user_default_group load_default
own_device-links_example =
    own_device-links stores stores-IsStores 0 9 3 (7 ∷ []) world (λ e. ground arith)
      ((everything, refl), tt)
