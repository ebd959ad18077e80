-- ===== src/Devices/Creation/Tests.antt =====
-- The theorems on the creation of nodes at concrete requests.
use snapemu_workflow.Base.{
  ℕ, ◌≡◌, refl, Bool, true, false, Option, none, some, [], ◌∷◌, if◌then◌else◌, Outcome, ok, err,
  panic, stuck, arith,
}
use snapemu_workflow.Base.Int.{pos}
use snapemu_workflow.Base.Dict.{empty, insert as put}
use snapemu_workflow.Base.Bytes.{to_be_bytes, to_le_bytes}
use snapemu_workflow.Base.Texts.{same}
use snapemu_workflow.Ids.{
  to_uppercase, eui_try_from, key_try_from, addr_try_from, key_to_string, eui_to_string,
  addr_to_string,
}
use snapemu_workflow.Ids.Digits.{hex}
use snapemu_workflow.Groups.{find}
use snapemu_workflow.Radio.{eu868}
use snapemu_workflow.Redis.{Str, hset_args, text_eq, Entry, absent, codes}
use snapemu_workflow.Redis.Hash.{to_redis_args}
use snapemu_workflow.Register.{
  eui_key, addr_key, node_info_of, check_addr, register_to_redis, register, load_by_eui,
  load_by_addr,
}
use snapemu_workflow.Devices.{NodeModel, World}
use snapemu_workflow.Devices.Memory.{stores, stores-IsStores}
use snapemu_workflow.Devices.Creation.{
  check_hex, slice_include, abp_join, otaa_join, NodeError, ReqLoraNode, LoRaNode, DeviceParameter,
  device_parameter, LoraNodeDeviceDefault, fill_predefine, otaa, abp,
}
use snapemu_workflow.Devices.Creation.Insert.{
  with_default, inserted, register_device, not_used, create_addr, default_of, insert_node,
  create_default,
}
use snapemu_workflow.Devices.Creation.Columns.{node_columns, device_columns, Texts}
use snapemu_workflow.Devices.Creation.Keys.{own_keys, otaa-to_string, predefined-keys}
use snapemu_workflow.Devices.Creation.Addresses.{IsDistinct, create_default-IsDistinct}
use snapemu_workflow.Devices.Creation.Served.{served, create_addr-free, insert_node-load}

abbrev texts : Texts
texts = record {
  int = λ i. codes "0";
  bool = λ b. codes "true";
  region = λ r. codes "EU868";
  join_type = λ t. codes "ABP";
  product_type = λ p. codes "Monitor";
}

abbrev nothing : Str → Entry
nothing k = absent

abbrev world : World stores
world = record {
  devices = [];
  auths = [];
  nodes = [];
  gates = [];
  snaps = [];
  mqtts = [];
  samples = [];
  tokens = [];
  functions = [];
  groups = ([], []);
  caches = empty;
  redis = nothing;
}

abbrev unknown : Str → Outcome NodeError (Option DeviceParameter)
unknown s = ok none

abbrev key_text : Str
key_text = codes "000102030405060708090a0b0c0d0e0f"

abbrev eui_text : Str
eui_text = codes "00000000000000ab"

abbrev request : ReqLoraNode
request = record {
  device = none;
  name = codes "n";
  eui = 7;
  description = [];
  region = eu868;
  join_type = abp_join;
  join_parameter = record {
    app_skey = some key_text;
    nwk_skey = some key_text;
    dev_addr = some (codes "0000000a");
    app_key = some key_text;
    app_eui = some eui_text;
    dev_eui = some eui_text;
  };
  blue_name = none;
  blue_parm = none;
  extra_parm = none;
}

abbrev start : LoraNodeDeviceDefault
start = default_of hex unknown stores request

abbrev world_of : Outcome NodeError (ℕ × World stores) → World stores
world_of (ok (id, w)) = w
world_of (err e) = world
world_of panic = world
world_of stuck = world

abbrev id_of : Outcome NodeError (ℕ × World stores) → ℕ
id_of (ok (id, w)) = id
id_of (err e) = 0
id_of panic = 0
id_of stuck = 0

abbrev is_ok : Outcome NodeError (ℕ × World stores) → Bool
is_ok (ok r) = true
is_ok (err e) = false
is_ok panic = false
is_ok stuck = false

is_ok_result :
    (o : Outcome NodeError (ℕ × World stores)) → is_ok o ≡ true → o ≡ ok (id_of o, world_of o)
is_ok_result (ok (id, w)) h = refl
is_ok_result (err e) h = cc
is_ok_result panic h = cc
is_ok_result stuck h = cc

abbrev node_of : Outcome NodeError LoraNodeDeviceDefault → LoraNodeDeviceDefault
node_of (ok n) = n
node_of (err e) = start
node_of panic = start
node_of stuck = start

abbrev creation : Outcome NodeError (ℕ × World stores)
creation = create_default hex unknown texts stores 5 9 [] request world

creation_ok : is_ok creation ≡ true
unfolding create_default with_default abp check_hex slice_include key_try_from to_uppercase
    addr_try_from insert_node inserted register_device not_used default_of check_addr find
    register_to_redis register hset_args to_redis_args node_info_of node_columns device_columns put
    eui_key addr_key
creation_ok = refl

abbrev created : World stores
created = world_of creation

create_default-IsDistinct_example : IsDistinct (stores.nodes.rows created.nodes)
create_default-IsDistinct_example =
    create_default-IsDistinct hex unknown texts stores stores-IsStores (λ d n l q. absurd cc) 5 9
      (id_of creation) [] request world created tt (is_ok_result creation creation_ok)

abbrev joined : LoraNodeDeviceDefault
joined = node_of (otaa hex unknown (some key_text) (some eui_text) (some eui_text) start)

is_joined : otaa hex unknown (some key_text) (some eui_text) (some eui_text) start ≡ ok joined
unfolding otaa check_hex slice_include eui_try_from to_uppercase key_try_from
is_joined = refl

otaa-to_string_example :
    (key_to_string hex joined.app_key ≡ to_uppercase key_text)
    × (eui_to_string hex joined.app_eui ≡ to_uppercase eui_text)
    × (eui_to_string hex joined.dev_eui ≡ to_uppercase eui_text)
otaa-to_string_example =
    otaa-to_string hex unknown key_text eui_text eui_text start joined refl is_joined

abbrev sold : LoRaNode
sold = record {
  join_type = otaa_join;
  blue_name = none;
  join_parameter = record {
    app_skey = key_text;
    nwk_skey = key_text;
    dev_addr = codes "0000000A";
    app_key = to_uppercase key_text;
    app_eui = to_uppercase eui_text;
    dev_eui = to_uppercase eui_text;
    adr = true;
    rx1_delay = pos 1;
    rx1_dro = pos 0;
    rx2_dr = pos 0;
    rx2_freq = pos 8695250;
  };
}

abbrev known : Str → Outcome NodeError (Option DeviceParameter)
known s = ok (some (device_parameter sold))

abbrev handed_out : LoraNodeDeviceDefault
handed_out = fill_predefine hex sold start

is_handed_out : otaa hex known (some key_text) (some eui_text) (some eui_text) start ≡ ok handed_out
unfolding otaa check_hex slice_include to_uppercase
is_handed_out = refl

predefined-keys_example :
    (own_keys otaa_join sold.join_parameter ≡ (to_uppercase key_text, to_uppercase eui_text))
    × (fill_predefine hex sold start ≡ handed_out)
predefined-keys_example =
    predefined-keys hex known otaa_join key_text eui_text eui_text sold start handed_out refl
      is_handed_out

-- The server knows the address 3 only.
abbrev knows_three : Str → Outcome NodeError (Option DeviceParameter)
knows_three s = ok (if same s (addr_to_string hex 3) then some (device_parameter sold) else none)

three_known : knows_three (addr_to_string hex 3) ≡ ok (some (device_parameter sold))
unfolding addr_to_string to_be_bytes to_le_bytes
three_known = refl

four_unknown : knows_three (addr_to_string hex 4) ≡ ok none
unfolding addr_to_string to_be_bytes to_le_bytes
four_unknown = refl

create_addr-free_example : create_addr hex knows_three stores (3 ∷ 4 ∷ 5 ∷ []) world ≡ ok 4
unfolding find
create_addr-free_example =
    create_addr-free hex knows_three stores (3 ∷ []) (5 ∷ []) 4 world
      ((refl, (device_parameter sold, three_known)), tt) refl four_unknown

abbrev taken : NodeModel
taken = record {
  id = 1;
  device_id = 1;
  node = record { dev_eui = 1; dev_addr = 4; column = empty };
}

abbrev sensor : LoraNodeDeviceDefault
sensor = record start { dev_eui = 7; dev_addr = 8 }

abbrev insertion : Outcome NodeError (ℕ × World stores)
insertion = insert_node hex texts stores 5 9 sensor world

insertion_ok : is_ok insertion ≡ true
unfolding insert_node inserted register_device not_used check_addr find register_to_redis register
    hset_args to_redis_args node_info_of node_columns device_columns put default_of eui_key addr_key
insertion_ok = refl

abbrev inserted_world : World stores
inserted_world = world_of insertion

insert_node-load_example :
    (load_by_eui hex stores.redis 7 inserted_world.redis
      ≡ ok (some (served hex texts stores stores-IsStores 9 (id_of insertion) sensor empty)))
    × (load_by_addr hex stores.redis 8 inserted_world.redis
        ≡ ok (some (served hex texts stores stores-IsStores 9 (id_of insertion) sensor empty)))
insert_node-load_example =
    insert_node-load hex texts stores stores-IsStores 5 9 (id_of insertion) sensor world
      inserted_world empty (omega arith) (omega arith) refl (is_ok_result insertion insertion_ok)
