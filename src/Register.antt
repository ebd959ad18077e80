-- ===== src/Register.antt =====
-- The registers of devices in redis (device_info/src): the hash of a LoRa node, which is found by its
-- address and, through a second key, by its EUI (lorawan/node.rs), and in the children those of gateways
-- and of snap devices.
pub mod Keys
pub mod Nodes
pub mod Updates
pub mod States
pub mod Others
pub mod Managers
pub mod Services
mod Tests
use Prim.Native.String.{String}
use snapemu_workflow.Base.{
  ℕ, Bool, true, false, Option, none, some, List, [], ◌∷◌, ◌++◌, if◌then◌else◌, Outcome, ok, err,
  ◌>>=◌,
}
use snapemu_workflow.Ids.{Hex, eui_to_string, addr_to_string}
use snapemu_workflow.Redis.{Str, codes, Redis, RedisError, get, hget, exists, hset_args, hdel_arg}
use snapemu_workflow.Redis.Hash.{Field, Schema, Struct, to_redis_args, from_redis_value}

abbrev pub required : String → Field
required n = record { name = n; required = true }

abbrev pub optional : String → Field
optional n = record { name = n; required = false }

-- The fields of `NodeInfo`.
abbrev pub node_info : Schema
node_info =
    optional "user_id"
    ∷ required "device_id"
    ∷ required "region"
    ∷ required "join_type"
    ∷ required "app_eui"
    ∷ required "dev_eui"
    ∷ required "app_key"
    ∷ required "dev_addr"
    ∷ required "nwk_skey"
    ∷ required "app_skey"
    ∷ required "class_b"
    ∷ required "class_c"
    ∷ required "adr"
    ∷ required "rx1_delay"
    ∷ required "des_rx1_delay"
    ∷ required "rx1_dro"
    ∷ required "des_rx1_dro"
    ∷ required "rx2_dr"
    ∷ required "des_rx2_dr"
    ∷ required "rx2_freq"
    ∷ required "des_rx2_freq"
    ∷ required "d_retry"
    ∷ required "c_retry"
    ∷ required "product_type"
    ∷ required "dutycyle"
    ∷ required "up_confirm"
    ∷ required "up_dr"
    ∷ required "up_count"
    ∷ required "down_count"
    ∷ required "power"
    ∷ optional "battery"
    ∷ required "charge"
    ∷ required "time_zone"
    ∷ required "firmware"
    ∷ required "dev_non"
    ∷ required "app_non"
    ∷ required "net_id"
    ∷ required "enable"
    ∷ required "period"
    ∷ optional "script"
    ∷ optional "active_time"
    ∷ optional "gateway"
    ∷ []

-- A row of `DeviceLoraNodeModel`, its text by column.
pub record NodeRow : Type 0 where
  pub dev_eui : ℕ
  pub dev_addr : ℕ
  pub column : String → Option Str

-- What `register_to_redis` makes of a row of the node and one of its device.
unfoldable pub node_info_of : (String → Option Str) → (String → Option Str) → Struct
node_info_of node device =
    ("user_id", device "creator")
    ∷ ("device_id", node "device_id")
    ∷ ("region", node "region")
    ∷ ("join_type", node "join_type")
    ∷ ("app_eui", node "app_eui")
    ∷ ("dev_eui", node "dev_eui")
    ∷ ("app_key", node "app_key")
    ∷ ("dev_addr", node "dev_addr")
    ∷ ("nwk_skey", node "nwk_skey")
    ∷ ("app_skey", node "app_skey")
    ∷ ("class_b", node "class_b")
    ∷ ("class_c", node "class_c")
    ∷ ("adr", node "adr")
    ∷ ("rx1_delay", node "rx1_delay")
    ∷ ("des_rx1_delay", node "des_rx1_delay")
    ∷ ("rx1_dro", node "rx1_dro")
    ∷ ("des_rx1_dro", node "des_rx1_dro")
    ∷ ("rx2_dr", node "rx2_dr")
    ∷ ("des_rx2_dr", node "des_rx2_dr")
    ∷ ("rx2_freq", node "rx2_freq")
    ∷ ("des_rx2_freq", node "des_rx2_freq")
    ∷ ("d_retry", node "d_retry")
    ∷ ("c_retry", node "c_retry")
    ∷ ("product_type", node "product_type")
    ∷ ("dutycyle", node "dutycyle")
    ∷ ("up_confirm", node "up_confirm")
    ∷ ("up_dr", node "up_dr")
    ∷ ("up_count", some (codes "0"))
    ∷ ("down_count", some (codes "0"))
    ∷ ("power", node "power")
    ∷ ("battery", node "battery")
    ∷ ("charge", node "charge")
    ∷ ("time_zone", node "time_zone")
    ∷ ("firmware", node "firmware")
    ∷ ("dev_non", node "dev_non")
    ∷ ("app_non", node "app_non")
    ∷ ("net_id", node "net_id")
    ∷ ("enable", device "enable")
    ∷ ("period", device "period")
    ∷ ("script", device "script")
    ∷ ("active_time", device "active_time")
    ∷ ("gateway", none)
    ∷ []

module _ (hex : Hex) where
  unfoldable pub eui_key : ℕ → Str
  eui_key dev_eui = codes "info:eui:node:" ++ eui_to_string hex dev_eui

  unfoldable pub addr_key : ℕ → Str
  addr_key addr = codes "info:node:" ++ addr_to_string hex addr

module _ (hex : Hex) (R : Redis) where
  unfoldable pub update_by_addr : ℕ → String → Str → R.State → Outcome RedisError R.State
  update_by_addr addr key v s = hset_args R (addr_key hex addr) ((key, v) ∷ []) s

  unfoldable pub load_addr_key : Str → R.State → Outcome RedisError (Option Str)
  load_addr_key key s = get R key s

  -- The step on the hash that the second key names, if both are there.
  abbrev pub on_existing :
      (Str → R.State → Outcome RedisError R.State)
      → R.State
      → Option Str
      → Outcome RedisError R.State
  on_existing step s none = ok s
  on_existing step s (some k) = if exists R k s then step k s else ok s

  unfoldable pub reset_by_eui : ℕ → String → R.State → Outcome RedisError R.State
  reset_by_eui eui key s =
      load_addr_key (eui_key hex eui) s >>= on_existing (λ k. hdel_arg R k key) s

  unfoldable pub update_by_eui : ℕ → String → Str → R.State → Outcome RedisError R.State
  update_by_eui eui key v s =
      load_addr_key (eui_key hex eui) s >>= on_existing (λ k. hset_args R k ((key, v) ∷ [])) s

  unfoldable pub register : Struct → ℕ → ℕ → R.State → Outcome RedisError R.State
  register info dev_eui addr s =
      let s1 = R.set (eui_key hex dev_eui) (addr_key hex addr) s in
      hset_args R (addr_key hex addr) (to_redis_args info) s1

  unfoldable pub check_eui : ℕ → R.State → Bool
  check_eui dev_eui s = exists R (eui_key hex dev_eui) s

  unfoldable pub check_addr : ℕ → R.State → Bool
  check_addr addr s = exists R (addr_key hex addr) s

  unfoldable pub unregister : ℕ → ℕ → R.State → R.State
  unregister dev_eui addr s = R.del (addr_key hex addr) (R.del (eui_key hex dev_eui) s)

  abbrev pub load_key : R.State → Option Str → Outcome RedisError (Option Struct)
  load_key s none = ok none
  load_key s (some k) = from_redis_value node_info (R.look s k)

  unfoldable pub load_by_eui : ℕ → R.State → Outcome RedisError (Option Struct)
  load_by_eui dev_eui s = load_addr_key (eui_key hex dev_eui) s >>= load_key s

  unfoldable pub load_by_addr : ℕ → R.State → Outcome RedisError (Option Struct)
  load_by_addr addr s = from_redis_value node_info (R.look s (addr_key hex addr))

  unfoldable pub load_active_time : ℕ → R.State → Outcome RedisError (Option Str)
  load_active_time addr s = hget R (addr_key hex addr) "active_time" s

  unfoldable pub load_battery : ℕ → R.State → Outcome RedisError (Option Str)
  load_battery addr s = hget R (addr_key hex addr) "battery" s

  unfoldable pub load_charge : ℕ → R.State → Outcome RedisError (Option Str)
  load_charge addr s = hget R (addr_key hex addr) "charge" s

  unfoldable pub register_to_redis :
      NodeRow → (String → Option Str) → R.State → Outcome RedisError (Struct × R.State)
  register_to_redis node device s = do
    s1 ← register (node_info_of node.column device) node.dev_eui node.dev_addr s
    ok (node_info_of node.column device, s1)
