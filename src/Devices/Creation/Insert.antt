-- ===== src/Devices/Creation/Insert.antt =====
-- The creation of a LoRa node in its tables and in the register: the functions of `LoRaNodeService` in
-- snap_api/src/service/lorawan/node.rs, `register_device` of service/device/device.rs and `new_func_blue`
-- of service/device/function.rs. Random addresses are a list of draws that is long enough, a time is the
-- argument `now`, and what the tables and redis keep of a value is its text.
use Prim.Native.String.{String}
use snapemu_workflow.Base.{
  ℕ, Bool, true, false, not, ◌&&◌, Option, none, some, List, [], ◌∷◌, ◌==◌, if◌then◌else◌, Outcome,
  ok, err, panic, stuck, ◌>>=◌, ◌>>◌, ensure, ok_or,
}
use snapemu_workflow.Base.Int.{pos}
use snapemu_workflow.Base.Dict.{insert as put}
use snapemu_workflow.Base.Texts.{same}
use snapemu_workflow.Groups.{find}
use snapemu_workflow.Ids.{Hex, eui_to_string, addr_to_string, key_to_string}
use snapemu_workflow.Redis.{Str, codes, RedisError, text_eq}
use snapemu_workflow.Register.{NodeRow, check_eui, check_addr, register_to_redis}
use snapemu_workflow.Register.Services.{reregister}
use snapemu_workflow.Devices.{
  DeviceType, lora_node, DevicesModel, NodeModel, query_one_with_auth, FunctionModel, Stores, World,
}
use snapemu_workflow.Devices.Creation.{
  LoRaJoinType, otaa_join, abp_join, monitor, NodeError, join_type_missing, dev_eui_already,
  dev_addr_already, redis_failed, not_found_device, BluetoothNode, ReqLoraNode, DeviceParameter,
  LoraNodeDeviceDefault, as_i16, is_int, nil_key, or_else, rx2_of, classes, abp, otaa,
}
use snapemu_workflow.Devices.Creation.Columns.{Texts, device_columns, node_columns, new_device_row}
use snapemu_workflow.Devices.Creation.Bluetooth.{same_text, found, with_bluetooth}

abbrev pub try_redis : {A : Type 0} → Outcome RedisError A → Outcome NodeError A
try_redis (ok a) = ok a
try_redis (err e) = err (redis_failed e)
try_redis panic = panic
try_redis stuck = stuck

abbrev pub is_there : {A : Type 0} → Option A → Bool
is_there none = false
is_there (some a) = true

abbrev pub has_eui : ℕ → NodeModel → Bool
has_eui dev_eui r = r.node.dev_eui == dev_eui

abbrev pub has_addr : ℕ → NodeModel → Bool
has_addr dev_addr r = r.node.dev_addr == dev_addr

abbrev pub none_found : {A : Type 0} → NodeError → Option A → Outcome NodeError Unit
none_found e none = ok tt
none_found e (some a) = err e

module _ (S : Stores) where
  unfoldable pub register_device :
      ℕ → ℕ → ℕ → Str → Str → DeviceType → World S → DevicesModel × World S
  register_device now user eui name description device_type w =
      let (device, devices) =
        S.devices.insert (new_device_row now user eui name description device_type) w.devices in
      (device, record w { devices = devices })

  abbrev pub set_blue : ℕ → Str → Option FunctionModel → World S → World S
  set_blue device_id blue_name (some func) w =
      if same func.func_value blue_name then w else record w {
        functions = S.functions.update (record func { func_value = blue_name }) w.functions;
      }
  set_blue device_id blue_name none w =
      let (func, functions) =
        S.functions.insert
          (λ id. record {
            id = id;
            device = device_id;
            func_name = codes "blue";
            func_value = blue_name;
          })
          w.functions in
      record w { functions = functions }

  unfoldable pub new_func_blue : ℕ → Str → World S → World S
  new_func_blue device_id blue_name w =
      set_blue device_id blue_name
        (find (λ f. (f.device == device_id) && same f.func_name (codes "blue"))
          (S.functions.rows w.functions))
        w

  abbrev pub name_blue : ℕ → Option Str → World S → World S
  name_blue device_id none w = w
  name_blue device_id (some blue_name) w = new_func_blue device_id blue_name w

module _ (hex : Hex) (query_eui : Str → Outcome NodeError (Option DeviceParameter))
    (S : Stores) where
  unfoldable pub valid_addr : ℕ → World S → Outcome NodeError Bool
  valid_addr dev_addr w = do
    none_found dev_addr_already (find (has_addr dev_addr) (S.nodes.rows w.nodes))
    r ← query_eui (addr_to_string hex dev_addr)
    ok (is_there r)

  unfoldable pub create_addr : List ℕ → World S → Outcome NodeError ℕ
  create_addr [] w = stuck
  create_addr (addr ∷ draws) w =
      let rest = create_addr draws w in
      valid_addr addr w >>= λ known. if known then rest else ok addr

  abbrev pub with_join :
      ReqLoraNode
      → List ℕ
      → World S
      → LoRaJoinType
      → LoraNodeDeviceDefault
      → Outcome NodeError LoraNodeDeviceDefault
  with_join req draws w otaa_join this = do
    let p = req.join_parameter
    t ← otaa hex query_eui p.app_key p.app_eui p.dev_eui this
    addr ← create_addr draws w
    ok (record t { dev_addr = addr })
  with_join req draws w abp_join this = do
    let p = req.join_parameter
    t ← abp hex query_eui p.app_skey p.nwk_skey p.dev_addr this
    ok (record t { dev_eui = req.eui })

  unfoldable pub default_of : ReqLoraNode → LoraNodeDeviceDefault
  default_of req =
      let (rx2_freq, rx2_dr) = rx2_of req.region in
      let (class_b, class_c) = classes req.extra_parm in
      record {
        name = req.name;
        eui = req.eui;
        description = req.description;
        region = req.region;
        join_type = req.join_type;
        app_eui = 0;
        blue_name = req.blue_name;
        dev_eui = 0;
        app_key = nil_key;
        dev_addr = 0;
        nwk_skey = nil_key;
        app_skey = nil_key;
        class_b = class_b;
        class_c = class_c;
        adr = true;
        rx1_delay = pos 5;
        des_rx1_delay = pos 5;
        rx1_dro = pos 0;
        des_rx1_dro = pos 0;
        rx2_dr = pos rx2_dr;
        des_rx2_dr = pos rx2_dr;
        rx2_freq = pos rx2_freq;
        des_rx2_freq = pos rx2_freq;
        d_retry = pos 0;
        c_retry = pos 0;
        dutycyle = pos 30;
        product_type = monitor;
      }

  unfoldable pub with_default :
      ReqLoraNode → List ℕ → World S → Outcome NodeError LoraNodeDeviceDefault
  with_default req draws w = with_join req draws w req.join_type (default_of req)

module _ (hex : Hex) (texts : Texts) (S : Stores) where
  unfoldable pub not_used : LoraNodeDeviceDefault → LoRaJoinType → World S → Outcome NodeError Unit
  not_used node otaa_join w = do
    ensure (not (check_eui hex S.redis node.dev_eui w.redis)) dev_eui_already
    none_found dev_eui_already (find (has_eui node.dev_eui) (S.nodes.rows w.nodes))
  not_used node abp_join w = do
    ensure (not (check_addr hex S.redis node.dev_addr w.redis)) dev_addr_already
    none_found dev_addr_already (find (has_addr node.dev_addr) (S.nodes.rows w.nodes))

  abbrev pub row_of : LoraNodeDeviceDefault → ℕ → ℕ → NodeModel
  row_of node device_id id = record {
    id = id;
    device_id = device_id;
    node = record {
      dev_eui = node.dev_eui;
      dev_addr = node.dev_addr;
      column = node_columns hex texts device_id node;
    };
  }

  -- The rows that are inserted, and the tables with them.
  unfoldable pub inserted :
      ℕ → ℕ → LoraNodeDeviceDefault → World S → DevicesModel × NodeModel × World S
  inserted now user node w =
      let (device, w1) =
        register_device S now user node.eui node.name node.description lora_node w in
      let (model, nodes) = S.nodes.insert (row_of node device.id) w1.nodes in
      (device, model, name_blue S device.id node.blue_name (record w1 { nodes = nodes }))

  abbrev pub register_inserted :
      DevicesModel × NodeModel × World S → Outcome NodeError (ℕ × World S)
  register_inserted (device, model, w) = do
    r ← try_redis (register_to_redis hex S.redis model.node (device_columns texts device) w.redis)
    ok (device.id, record w { redis = r.1 })

  unfoldable pub insert_node :
      ℕ → ℕ → LoraNodeDeviceDefault → World S → Outcome NodeError (ℕ × World S)
  insert_node now user node w = do
    not_used node node.join_type w
    register_inserted (inserted now user node w)

module _ (hex : Hex) (query_eui : Str → Outcome NodeError (Option DeviceParameter)) (texts : Texts)
    (S : Stores) where
  -- `create_node` of a request without what was read over Bluetooth.
  unfoldable pub create_default :
      ℕ → ℕ → List ℕ → ReqLoraNode → World S → Outcome NodeError (ℕ × World S)
  create_default now user draws req w = do
    node ← with_default hex query_eui S req draws w
    insert_node hex texts S now user node w

  unfoldable pub valid_eui : ℕ → World S → Outcome NodeError Unit
  valid_eui eui w = none_found dev_eui_already (find (λ d. d.eui == eui) (S.devices.rows w.devices))

  unfoldable pub valid_dev_eui : ℕ → World S → Outcome NodeError Bool
  valid_dev_eui dev_eui w = do
    none_found dev_addr_already (find (has_eui dev_eui) (S.nodes.rows w.nodes))
    r ← query_eui (eui_to_string hex dev_eui)
    ok (is_there r)

  -- A column that is set where it has another value.
  abbrev pub set_other : String → Str → NodeRow → NodeRow
  set_other column v node =
      if same_text (node.column column) v
      then node
      else record node { column = put column v node.column }

  -- The EUI and the address that a node gets from the one that was read, unless they are in use.
  unfoldable pub blue_eui : BluetoothNode → NodeRow → World S → Outcome NodeError NodeRow
  blue_eui blue node w = if node.dev_eui == blue.dev_eui then ok node else (do
    none_found dev_eui_already (find (has_eui blue.dev_eui) (S.nodes.rows w.nodes))
    known ← valid_dev_eui blue.dev_eui w
    ok (record node {
      dev_eui = blue.dev_eui;
      column = put "dev_eui" (eui_to_string hex blue.dev_eui) node.column;
    }))

  unfoldable pub blue_addr : BluetoothNode → NodeRow → World S → Outcome NodeError NodeRow
  blue_addr blue node w = if node.dev_addr == blue.dev_addr then ok node else (do
    none_found dev_addr_already (find (has_addr blue.dev_addr) (S.nodes.rows w.nodes))
    known ← valid_addr hex query_eui S blue.dev_addr w
    ok (record node {
      dev_addr = blue.dev_addr;
      column = put "dev_addr" (addr_to_string hex blue.dev_addr) (
          put "nwk_skey" (key_to_string hex blue.nwk_skey) (
            put "app_skey" (key_to_string hex blue.app_skey)
              (put "rx1_delay" (texts.int (as_i16 blue.rx1_delay)) node.column)));
    }))

  unfoldable pub blue_row : BluetoothNode → NodeRow → World S → Outcome NodeError NodeRow
  blue_row blue node w = do
    t ← ok_or (or_else blue.join_type blue.jion_type) join_type_missing
    n1 ← blue_eui blue node w
    let n2 = set_other "app_eui" (eui_to_string hex blue.app_eui) n1
    let n3 = set_other "app_key" (key_to_string hex blue.app_key) n2
    n4 ← blue_addr blue n3 w
    ok (set_other "join_type" (texts.join_type (if is_int 1 t then otaa_join else abp_join)) n4)

  abbrev pub update_with :
      DevicesModel → NodeModel → Option BluetoothNode → World S → Outcome NodeError (World S)
  update_with device row none w = ok w
  update_with device row (some blue) w = do
    node ← blue_row blue row.node w
    r ← try_redis (reregister hex S.redis node (device_columns texts device) w.redis)
    ok (record w { nodes = S.nodes.update (record row { node = node }) w.nodes; redis = r.1 })

  abbrev pub blue_of : ℕ → ℕ → ReqLoraNode → Option ℕ → World S → Outcome NodeError (ℕ × World S)
  blue_of now user req none w = do
    valid_eui req.eui w
    node ← with_bluetooth req
    insert_node hex texts S now user node w
  blue_of now user req (some device_id) w = do
    d ← found (query_one_with_auth user device_id (S.auths.rows w.auths) (S.devices.rows w.devices))
    row ← ok_or (find (λ r. r.device_id == device_id) (S.nodes.rows w.nodes)) not_found_device
    w1 ← update_with d.device row req.blue_parm w
    ok (device_id, w1)

  unfoldable pub update_blue : ℕ → ℕ → ReqLoraNode → World S → Outcome NodeError (ℕ × World S)
  update_blue now user req w = blue_of now user req req.device w

  unfoldable pub create_node :
      ℕ → ℕ → List ℕ → ReqLoraNode → World S → Outcome NodeError (ℕ × World S)
  create_node now user draws req w =
      if is_there req.blue_parm
      then update_blue now user req w
      else create_default now user draws req w
