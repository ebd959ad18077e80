-- ===== src/Devices/Modify.antt =====
-- The change of a device's settings: `update_info` of snap_api/src/service/device/device.rs. Where nothing
-- is to be changed, the code skips an update that here writes the row as it is.
pub mod Asked
pub mod Settings
use Prim.Native.String.{String}
use snapemu_workflow.Base.{
  ℕ, ◌≡◌, Bool, true, false, not, ◌&&◌, ◌||◌, Option, none, some, List, [], ◌∷◌, map, ◌==◌,
  if◌then◌else◌, Outcome, ok, err, panic, stuck, ◌>>=◌, ok_or, ensure, ◌>>◌,
}
use snapemu_workflow.Base.Dict.{insert as put}
use snapemu_workflow.Groups.{find}
use snapemu_workflow.Ids.{Hex}
use snapemu_workflow.Redis.{Str, Redis, text_eq}
use snapemu_workflow.Register.{NodeRow, update_by_eui, reset_by_eui}
use snapemu_workflow.Tables.{Table}
use snapemu_workflow.Devices.{
  DevicesModel, NodeModel, GateModel, DeviceError, invalid_device, invalid_script, try_redis,
  is_lora_node, is_lora_gate, Stores, World,
}

-- What is asked for; the values of a node are the texts that redis and the table take.
pub record DeviceModify : Type 0 where
  pub name : Option Str
  pub description : Option Str
  pub period : Option ℕ
  pub script : Option ℕ
  pub reset_script : Option Bool
  pub region : Option Str
  pub join_type : Option Str
  pub app_eui : Option Str
  pub app_key : Option Str
  pub nwk_skey : Option Str
  pub app_skey : Option Str
  pub class_c : Option Str
  pub product_id : Option ℕ

-- The settings of a node in the order of the code: the column of the table that is set, the field of the
-- register that is written, and the value.
abbrev pub Change : Type 0
Change = String × String × Option Str

unfoldable pub node_changes : DeviceModify → List Change
node_changes info =
    ("region", "region", info.region)
    ∷ ("class_c", "class_c", info.class_c)
    ∷ ("join_type", "join_type", info.join_type)
    ∷ ("app_eui", "app_eui", info.app_eui)
    ∷ ("app_key", "app_key", info.app_key)
    ∷ ("nwk_skey", "nwk_skey", info.nwk_skey)
    ∷ ("app_skey", "app_key", info.app_skey)
    ∷ []

unfoldable pub set_column : String → Str → NodeRow → NodeRow
set_column column v node = record node { column = put column v node.column }

-- A setting that may be left as it is.
abbrev pub or_old : {A : Type 0} → Option A → A → A
or_old none old = old
or_old (some new) old = new

abbrev pub same_id : Option ℕ → Option ℕ → Bool
same_id none none = true
same_id none (some b) = false
same_id (some a) none = false
same_id (some a) (some b) = a == b

abbrev pub or_kept : Option ℕ → Option ℕ → Option ℕ
or_kept none old = old
or_kept (some new) old = some new

module _ (hex : Hex) (R : Redis) where
  unfoldable pub apply_changes :
      ℕ → List Change → NodeRow → R.State → Outcome DeviceError (NodeRow × R.State)
  apply_changes eui [] node s = ok (node, s)
  apply_changes eui ((column, field, none) ∷ changes) node s = apply_changes eui changes node s
  apply_changes eui ((column, field, some v) ∷ changes) node s =
      try_redis (update_by_eui hex R eui field v s) >>= λ t.
      apply_changes eui changes (set_column column v node) t

  -- `number` is the text of an id in redis, `scripts` says which scripts are in their table.
  abbrev pub set_script :
      (ℕ → Str)
      → (ℕ → Bool)
      → DevicesModel
      → Option ℕ
      → R.State
      → Outcome DeviceError (DevicesModel × R.State)
  set_script number scripts device none s = ok (device, s)
  set_script number scripts device (some script) s =
      if is_lora_node device.device_type && not (same_id device.script (some script))
      then (do
        ensure (scripts script) invalid_script
        t ← try_redis (update_by_eui hex R device.eui "script" (number script) s)
        ok (record device { script = some script }, t))
      else ok (device, s)

  abbrev pub reset_script_of :
      DevicesModel → Option Bool → R.State → Outcome DeviceError (DevicesModel × R.State)
  reset_script_of device none s = ok (device, s)
  reset_script_of device (some b) s = do
    t ← try_redis (reset_by_eui hex R device.eui "script" s)
    ok (record device { script = none }, t)

module _ (hex : Hex) (S : Stores) where
  unfoldable pub update_gate : DevicesModel → DeviceModify → World S → Outcome DeviceError (World S)
  update_gate device info w =
      if is_lora_gate device.device_type
      then (do
        gate ← ok_or (find (λ g. g.device_id == device.id) (S.gates.rows w.gates)) invalid_device
        ok (record w {
          gates = S.gates.update (record gate { region = or_old info.region gate.region }) w.gates;
        }))
      else ok w

  -- The device is given with the changes so far, its row in the table has none of them yet.
  unfoldable pub update_node :
      DevicesModel → DeviceModify → World S → Outcome DeviceError (DevicesModel × World S)
  update_node device info w =
      if is_lora_node device.device_type
      then (do
        row ← ok_or (find (λ n. n.device_id == device.id) (S.nodes.rows w.nodes)) invalid_device
        (node, t) ← apply_changes hex S.redis device.eui (node_changes info) row.node w.redis
        ok (
          record device {
            name = or_old info.name device.name;
            description = or_old info.description device.description;
          },
          record w { nodes = S.nodes.update (record row { node = node }) w.nodes; redis = t },
        ))
      else ok (device, w)

  unfoldable pub update_info :
      (ℕ → Str) → (ℕ → Bool) → DevicesModel → DeviceModify → World S → Outcome DeviceError (World S)
  update_info number scripts device info w = do
    let d1 : DevicesModel = record device {
      product_id = or_kept info.product_id device.product_id;
      period = or_old info.period device.period;
    }
    (d2, s1) ← set_script hex S.redis number scripts d1 info.script w.redis
    (d3, s2) ← reset_script_of hex S.redis d2 info.reset_script s1
    w1 ← update_gate d3 info (record w { redis = s2 })
    (d4, w2) ← update_node d3 info w1
    ok (record w2 { devices = S.devices.update d4 w2.devices })
