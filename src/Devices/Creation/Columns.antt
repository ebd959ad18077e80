-- ===== src/Devices/Creation/Columns.antt =====
-- The columns of a new device and of a new node (`register_device` of snap_api/src/service/device/device.rs and
-- `insert_node` of service/lorawan/node.rs), as texts.
use Prim.Native.String.{String}
use snapemu_workflow.Base.{ℕ, Bool, true, false, Option, none, some, if◌then◌else◌}
use snapemu_workflow.Base.Int.{ℤ, pos}
use snapemu_workflow.Base.Dict.{HashMap, empty, insert as put}
use snapemu_workflow.Ids.{Hex, eui_to_string, addr_to_string, key_to_string}
use snapemu_workflow.Radio.{LoRaRegion}
use snapemu_workflow.Redis.{Str, text_eq}
use snapemu_workflow.Register.Services.{DeviceRow}
use snapemu_workflow.Devices.{DeviceType, DevicesModel}
use snapemu_workflow.Devices.Creation.{LoRaJoinType, ProductType, LoraNodeDeviceDefault, as_i16}

-- The texts of values.
pub record Texts : Type 0 where
  pub int : ℤ → Str
  pub bool : Bool → Str
  pub region : LoRaRegion → Str
  pub join_type : LoRaJoinType → Str
  pub product_type : ProductType → Str

abbrev pub or_id : (ℕ → Str) → Option ℕ → Option Str
or_id text none = none
or_id text (some n) = some (text n)

-- The columns of a new device that the register takes.
unfoldable pub device_columns : Texts → DevicesModel → DeviceRow
device_columns texts d =
    let num = λ (n : ℕ). texts.int (pos n) in
    put "creator" (num d.creator) (
      put "enable" (texts.bool d.enable) (
        put "period" (num d.period) (λ c.
          if text_eq.beq c "script"
          then or_id num d.script
          else if text_eq.beq c "active_time"
          then or_id num d.active_time
          else none)))

-- The columns that `insert_node` sets.
unfoldable pub node_columns : Hex → Texts → ℕ → LoraNodeDeviceDefault → HashMap String Str
node_columns hex texts device_id n =
    let zero_text = texts.int (pos 0) in
    put "device_id" (texts.int (pos device_id)) (
      put "region" (texts.region n.region) (
        put "join_type" (texts.join_type n.join_type) (
          put "app_eui" (eui_to_string hex n.app_eui) (
            put "dev_eui" (eui_to_string hex n.dev_eui) (
              put "app_key" (key_to_string hex n.app_key) (
                put "dev_addr" (addr_to_string hex n.dev_addr) (
                  put "nwk_skey" (key_to_string hex n.nwk_skey) (
                    put "app_skey" (key_to_string hex n.app_skey) (
                      put "class_b" (texts.bool n.class_b) (
                        put "class_c" (texts.bool n.class_c) (
                          put "adr" (texts.bool n.adr) (
                            put "rx1_delay" (texts.int n.rx1_delay) (
                              put "des_rx1_delay" (texts.int n.des_rx1_delay) (
                                put "rx1_dro" (texts.int n.rx1_dro) (
                                  put "des_rx1_dro" (texts.int n.des_rx1_dro) (
                                    put "rx2_dr" (texts.int n.rx2_dr) (
                                      put "des_rx2_dr" (texts.int n.des_rx2_dr) (
                                        put "rx2_freq" (texts.int n.rx2_freq) (
                                          put "des_rx2_freq" (texts.int n.des_rx2_freq) (
                                            put "d_retry" (texts.int (as_i16 n.d_retry)) (
                                              put "c_retry" (texts.int (as_i16 n.c_retry)) (
                                                put "product_type"
                                                  (texts.product_type n.product_type)
                                                  (put "dutycyle" (texts.int n.dutycyle) (
                                                    put "up_confirm" (texts.bool false) (
                                                      put "up_dr" zero_text (
                                                        put "power" zero_text (
                                                          put "charge" (texts.bool false) (
                                                            put "time_zone" zero_text (
                                                            put "firmware" zero_text (
                                                            put "dev_non" zero_text (
                                                            put "app_non" zero_text (
                                                            put "net_id" zero_text
                                                            empty))))))))))))))))))))))))))))))))

abbrev pub new_device_row : ℕ → ℕ → ℕ → Str → Str → DeviceType → ℕ → DevicesModel
new_device_row now user eui name description device_type id = record {
  id = id;
  eui = eui;
  name = name;
  description = description;
  creator = user;
  enable = true;
  period = 60;
  script = none;
  data_id = none;
  product_id = none;
  device_type = device_type;
  active_time = none;
  create_time = now;
}
