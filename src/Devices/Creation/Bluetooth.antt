-- ===== src/Devices/Creation/Bluetooth.antt =====
-- What was read of a node over Bluetooth (`with_bluetooth` of snap_api/src/service/lorawan/node.rs).
use snapemu_workflow.Base.{
  Bool, false, Option, none, some, if◌then◌else◌, Outcome, ok, err, panic, stuck, ◌>>=◌, ok_or,
}
use snapemu_workflow.Base.Int.{ℤ, pos}
use snapemu_workflow.Base.Texts.{same}
use snapemu_workflow.Redis.{Str, text_eq}
use snapemu_workflow.Devices.{DeviceError}
use snapemu_workflow.Devices.Creation.{
  LoRaJoinType, otaa_join, abp_join, monitor, NodeError, blue_param_missing, join_type_missing,
  not_found_device, ReqLoraNode, LoraNodeDeviceDefault, as_i16, is_int, or_else,
}

abbrev pub same_text : Option Str → Str → Bool
same_text none v = false
same_text (some t) v = same t v

-- `?` on the query of a device of the user.
abbrev pub found : {A : Type 0} → Outcome DeviceError A → Outcome NodeError A
found (ok a) = ok a
found (err e) = err not_found_device
found panic = panic
found stuck = stuck

-- The join type that was read over Bluetooth.
abbrev pub blue_join : ℤ → Outcome NodeError LoRaJoinType
blue_join t =
    if is_int 0 t then ok abp_join else if is_int 1 t then ok otaa_join else err join_type_missing

unfoldable pub with_bluetooth : ReqLoraNode → Outcome NodeError LoraNodeDeviceDefault
with_bluetooth req = do
  blue ← ok_or req.blue_parm blue_param_missing
  t ← ok_or (or_else blue.join_type blue.jion_type) join_type_missing
  join_type ← blue_join t
  ok (record {
    name = req.name;
    eui = req.eui;
    description = req.description;
    region = req.region;
    join_type = join_type;
    app_eui = blue.app_eui;
    blue_name = req.blue_name;
    dev_eui = blue.dev_eui;
    app_key = blue.app_key;
    dev_addr = blue.dev_addr;
    nwk_skey = blue.nwk_skey;
    app_skey = blue.app_skey;
    class_b = false;
    class_c = false;
    adr = is_int 1 blue.adr;
    rx1_delay = as_i16 blue.rx1_delay;
    des_rx1_delay = as_i16 blue.rx1_delay;
    rx1_dro = pos 0;
    des_rx1_dro = pos 0;
    rx2_dr = as_i16 blue.rx2_dr;
    des_rx2_dr = as_i16 blue.rx2_dr;
    rx2_freq = blue.rx2_freq;
    des_rx2_freq = blue.rx2_freq;
    d_retry = blue.retry;
    c_retry = blue.retry;
    dutycyle = blue.duty_cycle;
    product_type = monitor;
  })
