-- ===== src/Devices.antt =====
-- Devices in the web server (snap_api/src/service/device/device.rs): the rows of the tables that speak
-- of devices, and the queries that find a device of a user. The tables are interfaces.
pub mod Modify
pub mod Deletion
pub mod Linking
pub mod Memory
pub mod Creation
pub mod Tests
use Prim.Native.String.{String}
use snapemu_workflow.Base.{
  ℕ, ◌≡◌, Bool, true, false, ◌&&◌, Option, none, some, List, [], ◌∷◌, map, ◌==◌, if◌then◌else◌,
  Outcome, ok, err, panic, stuck, ◌>>=◌, ok_or,
}
use snapemu_workflow.Groups.{filter, find}
use snapemu_workflow.Groups as G
use snapemu_workflow.Redis.{Str, Redis, IsRedis, RedisError}
use snapemu_workflow.Register.{NodeRow}
use snapemu_workflow.Tables.{Table, IsTable}

pub data DeviceType : Type 0 where
  lora_node lora_gate mqtt snap : DeviceType

pub data ShareType : Type 0 where
  share_user share_group : ShareType

pub record DevicesModel : Type 0 where
  pub id : ℕ
  pub eui : ℕ
  pub name : Str
  pub description : Str
  pub creator : ℕ
  pub enable : Bool
  pub period : ℕ
  pub script : Option ℕ
  pub data_id : Option ℕ
  pub product_id : Option ℕ
  pub device_type : DeviceType
  pub active_time : Option ℕ
  pub create_time : ℕ

pub record DeviceAuthorityModel : Type 0 where
  pub id : ℕ
  pub auth_creator : ℕ
  pub device_id : ℕ
  pub share_type : ShareType
  pub share_id : ℕ
  pub owner : Bool
  pub manager : Bool
  pub modify : Bool
  pub delete : Bool
  pub share : Bool
  pub create_time : ℕ

-- A row of the table of LoRa nodes, its columns as texts.
pub record NodeModel : Type 0 where
  pub id : ℕ
  pub device_id : ℕ
  pub node : NodeRow

pub record GateModel : Type 0 where
  pub id : ℕ
  pub device_id : ℕ
  pub region : Str
  pub eui : ℕ

pub record SnapModel : Type 0 where
  pub id : ℕ
  pub device_id : ℕ
  pub eui : ℕ
  pub key : List ℕ
  pub battery : Option ℕ
  pub charge : Bool

pub record MqttModel : Type 0 where
  pub id : ℕ
  pub device_id : ℕ
  pub eui : ℕ
  pub username : Str
  pub password : Str

-- A row of the values that a device sent, as far as the code here reads it.
pub record DataModel : Type 0 where
  pub id : ℕ
  pub device_id : ℕ
  pub create_time : ℕ

pub data MqttType : Type 0 where
  of_snap of_gateway of_integration : MqttType

-- `SnapIntegrationMqttModel`, the accounts of the broker.
pub record MqttToken : Type 0 where
  pub id : ℕ
  pub user_id : ℕ
  pub mqtt_type : MqttType
  pub name : Str
  pub username : Str
  pub password : Str
  pub enable : Bool
  pub create_time : ℕ

pub record FunctionModel : Type 0 where
  pub id : ℕ
  pub device : ℕ
  pub func_name : Str
  pub func_value : Str

-- The tables and redis, as interfaces.
pub record Stores : Type 1 where
  pub devices : Table DevicesModel
  pub auths : Table DeviceAuthorityModel
  pub nodes : Table NodeModel
  pub gates : Table GateModel
  pub snaps : Table SnapModel
  pub mqtts : Table MqttModel
  pub samples : Table DataModel
  pub tokens : Table MqttToken
  pub functions : Table FunctionModel
  pub groups : G.Tables
  pub caches : G.Cache
  pub redis : Redis

pub record World (S : Stores) : Type 0 where
  pub devices : S.devices.State
  pub auths : S.auths.State
  pub nodes : S.nodes.State
  pub gates : S.gates.State
  pub snaps : S.snaps.State
  pub mqtts : S.mqtts.State
  pub samples : S.samples.State
  pub tokens : S.tokens.State
  pub functions : S.functions.State
  pub groups : S.groups.State
  pub caches : S.caches.State
  pub redis : S.redis.State

pub record IsStores (S : Stores) : Type 0 where
  pub devices : IsTable S.devices
  pub device_key : (r : DevicesModel) → S.devices.key r ≡ r.id
  pub auths : IsTable S.auths
  pub nodes : IsTable S.nodes
  pub snaps : IsTable S.snaps
  pub samples : IsTable S.samples
  pub groups : G.IsTables S.groups
  pub redis : IsRedis S.redis

-- The messages of `ApiError` and the errors of redis.
pub data DeviceError : Type 0 where
  invalid_device not_owner device_missing gate_missing eui_missing invalid_script : DeviceError
  redis_error : RedisError → DeviceError

-- `?` on a result of redis.
abbrev pub try_redis : {A : Type 0} → Outcome RedisError A → Outcome DeviceError A
try_redis (ok a) = ok a
try_redis (err e) = err (redis_error e)
try_redis panic = panic
try_redis stuck = stuck

abbrev pub is_user : ShareType → Bool
is_user share_user = true
is_user share_group = false

abbrev pub is_lora_node : DeviceType → Bool
is_lora_node lora_node = true
is_lora_node _ = false

abbrev pub is_lora_gate : DeviceType → Bool
is_lora_gate lora_gate = true
is_lora_gate _ = false

-- `DeviceWithAuth`
pub record DeviceWithAuth : Type 0 where
  pub auth : DeviceAuthorityModel
  pub device : DevicesModel

-- The rows of a table with the device that each is related to, where there is one.
unfoldable pub also_related :
    List DevicesModel
    → List DeviceAuthorityModel
    → List (DeviceAuthorityModel × Option DevicesModel)
also_related devices [] = []
also_related devices (a ∷ auths) =
    (a, find (λ d. d.id == a.device_id) devices) ∷ also_related devices auths

abbrev pub found_device : DeviceAuthorityModel × Option DevicesModel → Option DeviceWithAuth
found_device (auth, none) = none
found_device (auth, some device) = some (record { auth = auth; device = device })

unfoldable pub keep_related :
    List (DeviceAuthorityModel × Option DevicesModel) → List DeviceWithAuth
keep_related [] = []
keep_related ((auth, none) ∷ rows) = keep_related rows
keep_related ((auth, some device) ∷ rows) =
    record { auth = auth; device = device } ∷ keep_related rows

-- Whether a row gives a right to the user himself.
abbrev pub shared_with : ℕ → DeviceAuthorityModel → Bool
shared_with user_id a = (a.share_id == user_id) && is_user a.share_type

abbrev pub has_id : ℕ → Option DevicesModel → Bool
has_id device_id none = false
has_id device_id (some d) = d.id == device_id

unfoldable pub query_all_with_auth :
    ℕ → List DeviceAuthorityModel → List DevicesModel → List DeviceWithAuth
query_all_with_auth user_id auths devices =
    keep_related (also_related devices (filter (shared_with user_id) auths))

unfoldable pub query_all : ℕ → List DeviceAuthorityModel → List DevicesModel → List DevicesModel
query_all user_id auths devices = map (λ it. it.device) (query_all_with_auth user_id auths devices)

unfoldable pub query_one_with_auth :
    ℕ → ℕ → List DeviceAuthorityModel → List DevicesModel → Outcome DeviceError DeviceWithAuth
query_one_with_auth user_id device_id auths devices = do
  found ←
      ok_or
        (find (λ p. shared_with user_id p.0 && has_id device_id p.1) (also_related devices auths))
        device_missing
  ok_or (found_device found) device_missing

unfoldable pub query_one :
    ℕ → ℕ → List DeviceAuthorityModel → List DevicesModel → Outcome DeviceError DevicesModel
query_one user_id device_id auths devices =
    query_one_with_auth user_id device_id auths devices >>= λ e. ok e.device
