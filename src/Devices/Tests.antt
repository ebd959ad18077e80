-- ===== src/Devices/Tests.antt =====
-- The theorems on devices at concrete rows.
use Prim.Native.String.{String}
use snapemu_workflow.Base.{
  ℕ, ◌≡◌, refl, true, false, Option, none, some, [], ◌∷◌, All, ◌==◌, if◌then◌else◌, ok, err,
}
use snapemu_workflow.Base.Dict.{empty}
use snapemu_workflow.Base.Texts.{same}
use snapemu_workflow.Base.Bytes.{to_be_bytes, to_le_bytes}
use snapemu_workflow.Ids.{eui_to_string, addr_to_string}
use snapemu_workflow.Ids.Digits.{hex}
use snapemu_workflow.Groups.{filter, find}
use snapemu_workflow.Redis.{Str, Fields, Entry, absent, string, hash, codes, text_eq}
use snapemu_workflow.Register.{NodeRow, eui_key, addr_key}
use snapemu_workflow.Devices.{
  DevicesModel, DeviceAuthorityModel, DeviceWithAuth, NodeModel, SnapModel, lora_node, snap,
  share_user, device_missing, shared_with, query_one_with_auth, query_all_with_auth, also_related,
  World,
}
use snapemu_workflow.Tables.{delete_row}
use snapemu_workflow.Groups.{unlink_device_all}
use snapemu_workflow.Register.Others.{snap_key, snap_unregister}
use snapemu_workflow.Devices.Memory.{stores, stores-IsStores}
use snapemu_workflow.Devices.Modify.{DeviceModify, or_old, update_node}
use snapemu_workflow.Devices.Modify.Asked.{asked, given}
use snapemu_workflow.Devices.Modify.Settings.{Leads, update_node-Agrees}
use snapemu_workflow.Devices.Deletion.{
  delete_device, delete_owned, delete_typed, delete_snap_device, delete_by_device_id,
}
use snapemu_workflow.Devices.Deletion.Left.{delete_device_found}

abbrev sensor : DevicesModel
sensor = record {
  id = 3;
  eui = 17;
  name = codes "sensor";
  description = [];
  creator = 9;
  enable = true;
  period = 60;
  script = none;
  data_id = none;
  product_id = none;
  device_type = lora_node;
  active_time = none;
  create_time = 0;
}

abbrev right : DeviceAuthorityModel
right = record {
  id = 1;
  auth_creator = 9;
  device_id = 3;
  share_type = share_user;
  share_id = 9;
  owner = true;
  manager = true;
  modify = true;
  delete = true;
  share = true;
  create_time = 0;
}

abbrev columns : String → Option Str
columns c = some (codes "00")

abbrev row : NodeModel
row = record {
  id = 5;
  device_id = 3;
  node = record { dev_eui = 17; dev_addr = 18; column = columns };
}

abbrev fields : Fields
fields = columns

abbrev registered : Str → Entry
registered k =
    if same k (eui_key hex 17)
    then string (addr_key hex 18)
    else if same k (addr_key hex 18)
    then hash fields
    else absent

abbrev pub world : World stores
world = record {
  devices = sensor ∷ [];
  auths = right ∷ [];
  nodes = row ∷ [];
  gates = [];
  snaps = [];
  mqtts = [];
  samples = [];
  tokens = [];
  functions = [];
  groups = ([], []);
  caches = empty;
  redis = registered;
}

abbrev no_change : DeviceModify
no_change = record {
  name = none;
  description = none;
  period = none;
  script = none;
  reset_script = none;
  region = none;
  join_type = none;
  app_eui = none;
  app_key = none;
  nwk_skey = none;
  app_skey = none;
  class_c = none;
  product_id = none;
}

abbrev class_c_on : DeviceModify
class_c_on = record no_change { class_c = some (codes "true") }

sensor-Leads : Leads hex stores.redis 17 18 fields registered
unfolding eui_key addr_key eui_to_string to_be_bytes to_le_bytes addr_to_string
sensor-Leads = (refl, refl)

update_node-Agrees_example :
    (d : DevicesModel) × (t : Str → Entry) × (node : NodeRow) × (g : Fields) × (update_node hex
        stores sensor class_c_on world
      ≡ ok (
        d,
        record world {
          nodes = stores.nodes.update (record row { node = node }) (row ∷ []);
          redis = t;
        },
      ))
    × Leads hex stores.redis 17 18 g t
    × (g "class_c" ≡ given (asked class_c_on "class_c") (fields "class_c"))
    × (node.column "class_c" ≡ given (asked class_c_on "class_c") (row.node.column "class_c"))
    × (d.name ≡ or_old class_c_on.name sensor.name)
    × (d.description ≡ or_old class_c_on.description sensor.description)
unfolding find
update_node-Agrees_example =
    update_node-Agrees hex stores stores-IsStores.redis sensor class_c_on world row 18 fields
      "class_c" refl refl refl sensor-Leads

abbrev button : DevicesModel
button = record sensor { device_type = snap }

abbrev snap_row : SnapModel
snap_row = record { id = 1; device_id = 3; eui = 17; key = []; battery = none; charge = false }

abbrev with_button : World stores
with_button = record world { devices = button ∷ []; snaps = snap_row ∷ [] }

abbrev without_button : World stores
without_button = record with_button {
  devices = [];
  auths = [];
  redis = stores.redis.del (snap_key hex 17) registered;
}

button_deleted : delete_device hex stores 3 9 with_button ≡ ok without_button
unfolding delete_device query_one_with_auth also_related find filter delete_owned delete_typed
    delete_snap_device delete_by_device_id delete_row unlink_device_all snap_unregister
button_deleted = refl

delete_device_found_example :
    ((d : DeviceWithAuth) × (shared_with 9 d.auth ≡ true)
      × (d.auth.owner ≡ true)
      × (query_one_with_auth 9 3 (right ∷ []) (button ∷ []) ≡ ok d))
    × ((other : ℕ)
        → (query_one_with_auth other 3 [] [] ≡ err device_missing)
          × All (λ d. (d.device.id == 3) ≡ false) (query_all_with_auth other [] []))
    × All (λ m. (m.device_id == 3) ≡ false) (stores.groups.maps ([], []))
    × (without_button.snaps ≡ with_button.snaps)
delete_device_found_example =
    delete_device_found hex stores stores-IsStores 3 9 with_button without_button button_deleted
