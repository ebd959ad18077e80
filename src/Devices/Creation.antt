-- ===== src/Devices/Creation.antt =====
-- The settings that a new LoRa node gets (snap_api/src/service/lorawan/node.rs): those of the region, the
-- keys and addresses of the request, checked and parsed, those that the server of predefined devices
-- knows, and those that were read over Bluetooth. That server is a function that is asked.
pub mod Columns
pub mod Bluetooth
pub mod Insert
pub mod Keys
pub mod Addresses
pub mod Served
mod Tests
use snapemu_workflow.Base.{
  ℕ, ◌+◌, ◌-◌, ◌*◌, ◌/◌, ◌%◌, ◌^◌, ◌≡◌, Bool, true, false, not, ◌&&◌, ◌||◌, Option, none, some,
  List, [], ◌∷◌, map, length, replicate, ltb, ◌==◌, if◌then◌else◌, Outcome, ok, err, panic, stuck,
  ◌>>=◌, ◌>>◌, ensure, ok_or,
}
use snapemu_workflow.Base.Int.{ℤ, pos, negsuc, signed}
use snapemu_workflow.Base.Texts.{same}
use snapemu_workflow.Ids.{
  to_uppercase, Hex, DbErr, eui_try_from, addr_try_from, addr_to_string, key_try_from,
}
use snapemu_workflow.Radio.{
  LoRaRegion, eu868, us915, cn779, eu433, au915, cn470, as923_1, as923_2, as923_3, kr920, in865,
  ru864,
}
use snapemu_workflow.Redis.{Str, codes, RedisError}

pub data LoRaJoinType : Type 0 where
  otaa_join abp_join : LoRaJoinType

pub data ProductType : Type 0 where
  custom monitor controller gate : ProductType

-- The messages of `ApiError`, and the errors of the server of predefined devices and of redis.
pub data NodeError : Type 0 where
  blue_param_missing join_type_missing app_skey_missing nwk_skey_missing dev_addr_missing :
      NodeError
  app_key_missing app_eui_missing dev_eui_missing : NodeError
  bad_app_skey bad_nwk_skey bad_dev_addr bad_app_key bad_app_eui bad_dev_eui : NodeError
  device_already dev_eui_match dev_eui_already dev_addr_already search_device_error
        not_found_device :
      NodeError
  redis_failed : RedisError → NodeError

pub record JoinParam : Type 0 where
  pub app_skey : Option Str
  pub nwk_skey : Option Str
  pub dev_addr : Option Str
  pub app_key : Option Str
  pub app_eui : Option Str
  pub dev_eui : Option Str

pub record ExtraParm : Type 0 where
  pub class_b : Option Bool
  pub class_c : Option Bool

-- What an app read from a node; the fields that the code does not use are left out.
pub record BluetoothNode : Type 0 where
  pub join_type : Option ℤ
  pub jion_type : Option ℤ
  pub adr : ℤ
  pub duty_cycle : ℤ
  pub retry : ℤ
  pub dev_eui : ℕ
  pub app_eui : ℕ
  pub app_key : List ℕ
  pub dev_addr : ℕ
  pub nwk_skey : List ℕ
  pub app_skey : List ℕ
  pub rx1_delay : ℤ
  pub rx2_dr : ℤ
  pub rx2_freq : ℤ

pub record ReqLoraNode : Type 0 where
  pub device : Option ℕ
  pub name : Str
  pub eui : ℕ
  pub description : Str
  pub region : LoRaRegion
  pub join_type : LoRaJoinType
  pub join_parameter : JoinParam
  pub blue_name : Option Str
  pub blue_parm : Option BluetoothNode
  pub extra_parm : Option ExtraParm

-- `LoRaParameter` and `LoRaNode` of snap_api/src/service/device/define.rs.
pub record LoRaParameter : Type 0 where
  pub app_skey : Str
  pub nwk_skey : Str
  pub dev_addr : Str
  pub app_key : Str
  pub app_eui : Str
  pub dev_eui : Str
  pub adr : Bool
  pub rx1_delay : ℤ
  pub rx1_dro : ℤ
  pub rx2_dr : ℤ
  pub rx2_freq : ℤ

pub record LoRaNode : Type 0 where
  pub join_type : LoRaJoinType
  pub blue_name : Option Str
  pub join_parameter : LoRaParameter

pub data DeviceParameter : Type 0 where
  device_parameter : LoRaNode → DeviceParameter
  gate_parameter : DeviceParameter

pub record LoraNodeDeviceDefault : Type 0 where
  pub name : Str
  pub eui : ℕ
  pub description : Str
  pub region : LoRaRegion
  pub join_type : LoRaJoinType
  pub app_eui : ℕ
  pub blue_name : Option Str
  pub dev_eui : ℕ
  pub app_key : List ℕ
  pub dev_addr : ℕ
  pub nwk_skey : List ℕ
  pub app_skey : List ℕ
  pub class_b : Bool
  pub class_c : Bool
  pub adr : Bool
  pub rx1_delay : ℤ
  pub des_rx1_delay : ℤ
  pub rx1_dro : ℤ
  pub des_rx1_dro : ℤ
  pub rx2_dr : ℤ
  pub des_rx2_dr : ℤ
  pub rx2_freq : ℤ
  pub des_rx2_freq : ℤ
  pub d_retry : ℤ
  pub c_retry : ℤ
  pub dutycyle : ℤ
  pub product_type : ProductType

-- `x as i16` of an i32.
abbrev pub as_i16 : ℤ → ℤ
as_i16 (pos n) = signed (2 ^ 15) (n % 2 ^ 16)
as_i16 (negsuc n) = signed (2 ^ 15) (2 ^ 16 - 1 - n % 2 ^ 16)

abbrev pub is_int : ℕ → ℤ → Bool
is_int k (pos n) = n == k
is_int k (negsuc n) = false

abbrev pub nil_key : List ℕ
nil_key = replicate 16 0

-- `Checker::hex` of snap_api/src/utils/checker.rs.
unfoldable pub slice_include : ℕ → List ℕ → Bool
slice_include c [] = false
slice_include c (h ∷ table) = (h == c) || slice_include c table

abbrev pub hex_table : Str
hex_table = codes "0123456789abcdefABCDEF"

unfoldable pub check_hex : Str → Bool
check_hex [] = true
check_hex (c ∷ s) = slice_include c hex_table && check_hex s

abbrev pub or_else : {A : Type 0} → Option A → Option A → Option A
or_else none b = b
or_else (some a) b = some a

-- `map_err` on a parse.
abbrev pub parsed : {A : Type 0} → NodeError → Outcome DbErr A → Outcome NodeError A
parsed e (ok a) = ok a
parsed e (err d) = err e
parsed e panic = panic
parsed e stuck = stuck

-- A field that keeps its value where the text cannot be parsed.
abbrev pub parsed_or : {A : Type 0} → A → Outcome DbErr A → A
parsed_or old (ok a) = a
parsed_or old _ = old

-- The frequency and the data rate of the second window.
unfoldable pub rx2_of : LoRaRegion → ℕ × ℕ
rx2_of eu868 = (8695250, 0)
rx2_of us915 = (9233000, 8)
rx2_of cn779 = (7860000, 0)
rx2_of eu433 = (4346650, 0)
rx2_of au915 = (9233000, 8)
rx2_of cn470 = (5053000, 0)
rx2_of as923_1 = (9232000, 2)
rx2_of as923_2 = (9232000, 2)
rx2_of as923_3 = (9232000, 2)
rx2_of kr920 = (9219000, 0)
rx2_of in865 = (8665500, 2)
rx2_of ru864 = (8691000, 0)

abbrev pub or_false : Option Bool → Bool
or_false none = false
or_false (some b) = b

abbrev pub classes : Option ExtraParm → Bool × Bool
classes none = (false, false)
classes (some e) = (or_false e.class_b, or_false e.class_c)

-- A text that must be given, of a length, in hexadecimal digits.
abbrev pub checked : ℕ → NodeError → Str → Outcome NodeError Unit
checked n bad s = ensure ((length s == n) && check_hex s) bad

module _ (hex : Hex) where
  unfoldable pub fill_predefine : LoRaNode → LoraNodeDeviceDefault → LoraNodeDeviceDefault
  fill_predefine define this =
      let p = define.join_parameter in
      record this {
        join_type = define.join_type;
        blue_name = define.blue_name;
        nwk_skey = parsed_or this.nwk_skey (key_try_from hex p.nwk_skey);
        app_skey = parsed_or this.app_skey (key_try_from hex p.app_skey);
        dev_addr = parsed_or this.dev_addr (addr_try_from hex p.dev_addr);
        app_key = parsed_or this.app_key (key_try_from hex p.app_key);
        dev_eui = parsed_or this.dev_eui (eui_try_from hex p.dev_eui);
        app_eui = parsed_or this.app_eui (eui_try_from hex p.app_eui);
        adr = p.adr;
        rx2_freq = p.rx2_freq;
        rx2_dr = p.rx2_dr;
        rx1_delay = p.rx1_delay;
        rx1_dro = p.rx1_dro;
        des_rx2_freq = p.rx2_freq;
        des_rx2_dr = p.rx2_dr;
        des_rx1_delay = p.rx1_delay;
        des_rx1_dro = p.rx1_dro;
      }

-- `query_eui` asks the server of predefined devices.
module _ (hex : Hex) (query_eui : Str → Outcome NodeError (Option DeviceParameter)) where
  abbrev pub abp_with :
      Str
      → Str
      → Str
      → LoraNodeDeviceDefault
      → Option DeviceParameter
      → Outcome NodeError LoraNodeDeviceDefault
  abp_with app_skey nwk_skey dev_addr this none = do
    a ← parsed bad_app_key (key_try_from hex app_skey)
    n ← parsed bad_nwk_skey (key_try_from hex nwk_skey)
    d ← parsed bad_dev_addr (addr_try_from hex dev_addr)
    ok (record this { app_skey = a; nwk_skey = n; dev_addr = d })
  abp_with app_skey nwk_skey dev_addr this (some gate_parameter) = err dev_eui_match
  abp_with app_skey nwk_skey dev_addr this (some (device_parameter node)) =
      if not (same node.join_parameter.app_skey app_skey)
        || not (same node.join_parameter.nwk_skey nwk_skey)
      then err device_already
      else ok (fill_predefine hex node this)

  unfoldable pub abp :
      Option Str
      → Option Str
      → Option Str
      → LoraNodeDeviceDefault
      → Outcome NodeError LoraNodeDeviceDefault
  abp app_skey nwk_skey dev_addr this = do
    a ← ok_or app_skey app_skey_missing
    n ← ok_or nwk_skey nwk_skey_missing
    d ← ok_or dev_addr dev_addr_missing
    checked 32 bad_app_skey a
    checked 32 bad_nwk_skey n
    checked 8 bad_dev_addr d
    predefine ← query_eui (to_uppercase d)
    abp_with (to_uppercase a) (to_uppercase n) (to_uppercase d) this predefine

  abbrev pub otaa_with :
      Str
      → Str
      → Str
      → LoraNodeDeviceDefault
      → Option DeviceParameter
      → Outcome NodeError LoraNodeDeviceDefault
  otaa_with app_key app_eui dev_eui this none = do
    d ← parsed bad_dev_eui (eui_try_from hex dev_eui)
    e ← parsed bad_app_eui (eui_try_from hex app_eui)
    k ← parsed bad_app_key (key_try_from hex app_key)
    ok (record this { dev_eui = d; app_eui = e; app_key = k })
  otaa_with app_key app_eui dev_eui this (some gate_parameter) = err dev_eui_match
  otaa_with app_key app_eui dev_eui this (some (device_parameter node)) =
      if not (same node.join_parameter.app_key app_key)
        || not (same node.join_parameter.app_eui app_eui)
      then err device_already
      else ok (fill_predefine hex node this)

  unfoldable pub otaa :
      Option Str
      → Option Str
      → Option Str
      → LoraNodeDeviceDefault
      → Outcome NodeError LoraNodeDeviceDefault
  otaa app_key app_eui dev_eui this = do
    k ← ok_or app_key app_key_missing
    e ← ok_or app_eui app_eui_missing
    d ← ok_or dev_eui dev_eui_missing
    checked 32 bad_app_key k
    checked 16 bad_app_eui e
    checked 16 bad_dev_eui d
    predefine ← query_eui (to_uppercase d)
    otaa_with (to_uppercase k) (to_uppercase e) (to_uppercase d) this predefine
