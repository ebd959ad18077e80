-- ===== src/Command/Builders.antt =====
-- The builders of commands (devices_manager/src/man/data.rs). A builder is the array of its bytes.
use snapemu_workflow.Base.{
  ℕ, ◌+◌, ◌-◌, ◌/◌, ◌^◌, Bool, List, [], ◌∷◌, ltb, if◌then◌else◌, Outcome, ok, panic, set,
}
use Prim.Native.Nat.{bit_and, bit_or}
use snapemu_workflow.Base.Bytes.{low_byte}
use snapemu_workflow.Command.{CommandError}

abbrev pub flag : Bool → ℕ
flag b = if b then 1 else 0

unfoldable pub query_device_new : List ℕ
query_device_new = 0 ∷ []

unfoldable pub query_io_builder_new : List ℕ
query_io_builder_new = 2 ∷ []

unfoldable pub query_timer_new : ℕ → List ℕ
query_timer_new num = 4 ∷ num ∷ []

-- `UpdateDeviceInfoBuilder`
unfoldable pub update_info_new : List ℕ
update_info_new = 1 ∷ 0 ∷ 0 ∷ 0 ∷ 0 ∷ 0 ∷ 0 ∷ 0 ∷ 0 ∷ 0 ∷ []

-- The calls that set something in it.
pub data InfoSetting : Type 0 where
  set_adr set_dutycycle set_dr set_power set_time_zone : ℕ → InfoSetting
  set_confirm : Bool → InfoSetting

abbrev set_two : List ℕ → ℕ → ℕ → List ℕ
set_two d i v = set (set d i (low_byte (v / 2 ^ 8))) (i + 1) (low_byte v)

unfoldable pub set_info : InfoSetting → List ℕ → List ℕ
set_info (set_adr adr) d = set d 1 adr
set_info (set_confirm confirm) d = set d 2 (flag confirm)
set_info (set_dutycycle dutycycle) d = set_two d 3 dutycycle
set_info (set_dr dr) d = set d 5 dr
set_info (set_power power) d = set_two d 6 power
set_info (set_time_zone time_zone) d = set_two d 8 time_zone

-- `UpdateTimerBuilder`
unfoldable pub update_timer_new : List ℕ
update_timer_new = 5 ∷ 0 ∷ 0 ∷ 0 ∷ 0 ∷ 0 ∷ 0 ∷ 0 ∷ []

pub data TimerSetting : Type 0 where
  set_num set_pin set_hour set_minute set_repeat : ℕ → TimerSetting
  set_enable set_action : Bool → TimerSetting

unfoldable pub set_timer : TimerSetting → List ℕ → List ℕ
set_timer (set_num num) d = set d 1 num
set_timer (set_enable enable) d = set d 2 (flag enable)
set_timer (set_pin pin) d = set d 3 pin
set_timer (set_action action) d = set d 4 (flag action)
set_timer (set_hour hour) d = set d 5 hour
set_timer (set_minute minute) d = set d 6 minute
set_timer (set_repeat repeat) d = set d 7 repeat

-- `UpdateIOBuilder`, with the four bytes behind the first two.
pub record UpdateIoBuilder : Type 0 where
  pub mutil : Bool
  pub mask_high : ℕ
  pub mask_low : ℕ
  pub value_high : ℕ
  pub value_low : ℕ

unfoldable pub update_io_builder_new : Bool → UpdateIoBuilder
update_io_builder_new mutil = record {
  mutil = mutil;
  mask_high = 0;
  mask_low = 0;
  value_high = 0;
  value_low = 0;
}

abbrev pub set_bit : ℕ → Bool → ℕ → ℕ
set_bit pin value x = if value then bit_or x (2 ^ pin) else bit_and x (255 - 2 ^ pin)

unfoldable pub set_io : ℕ → Bool → UpdateIoBuilder → Outcome CommandError UpdateIoBuilder
set_io pin value b =
    if ltb pin 16
    then ok (
        if b.mutil
        then (if ltb pin 8
            then record b {
              mask_low = bit_or b.mask_low (2 ^ pin);
              value_low = set_bit pin value b.value_low;
            }
            else record b {
              mask_high = bit_or b.mask_high (2 ^ (pin - 8));
              value_high = set_bit (pin - 8) value b.value_high;
            })
        else record b { mask_high = pin; mask_low = flag value })
    else panic

-- `data` of `UpdateIOBuilder`
unfoldable pub update_io_data : UpdateIoBuilder → List ℕ
update_io_data b =
    if b.mutil
    then 3 ∷ 1 ∷ b.mask_high ∷ b.mask_low ∷ b.value_high ∷ b.value_low ∷ []
    else 3 ∷ 0 ∷ b.mask_high ∷ b.mask_low ∷ []
