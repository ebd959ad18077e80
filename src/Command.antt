-- ===== src/Command.antt =====
-- The commands for devices with pins and timers (devices_manager/src/man/data.rs): the readers of a
-- command's bytes, and the builders of commands. The texts of errors are constructors.
pub mod Builders
pub mod Readers
pub mod Settings
mod Tests
use snapemu_workflow.Base.{
  ℕ, ◌+◌, ◌*◌, ◌-◌, ◌/◌, ◌%◌, ◌^◌, Bool, true, false, not, Option, none, some, List, [], ◌∷◌,
  length, ltb, ◌==◌, if◌then◌else◌, Outcome, ok, err, panic, ◌>>=◌, ◌>>◌, ensure, ok_or, index,
  slice_from, drop, get_elem?,
}

pub data CommandError : Type 0 where
  device_info_length update_info_length query_id_error io_too_short io_length timer_length :
      CommandError
  not_found_command unsupported_command not_found_port unsupported_port : CommandError

-- `DeviceInfo::new`
unfoldable pub device_info_new : List ℕ → Outcome CommandError (List ℕ)
device_info_new bytes = do ensure (length bytes == 12) device_info_length; ok bytes

-- `UpdateDeviceInfo::new`
unfoldable pub update_device_info_new : List ℕ → Outcome CommandError (List ℕ)
update_device_info_new bytes = do ensure (length bytes == 8) update_info_length; ok bytes

-- The methods of `UpdateDeviceInfo`, and the first of those of `DeviceInfo`, at once.
pub record InfoView : Type 0 where
  pub adr : ℕ
  pub comfirm : Bool
  pub dutycycle : ℕ
  pub dr : ℕ
  pub power : ℕ
  pub time_zone : ℕ

unfoldable pub big_endian_at : List ℕ → ℕ → Outcome CommandError ℕ
big_endian_at bytes i = do hi ← index bytes i; lo ← index bytes (i + 1); ok (hi * 2 ^ 8 + lo)

unfoldable pub info_view : List ℕ → Outcome CommandError InfoView
info_view bytes = do
  adr ← index bytes 0
  confirm ← index bytes 1
  dutycycle ← big_endian_at bytes 2
  dr ← index bytes 4
  power ← index bytes 5
  time_zone ← big_endian_at bytes 6
  ok (record {
    adr = adr;
    comfirm = not (confirm == 0);
    dutycycle = dutycycle;
    dr = dr;
    power = power;
    time_zone = time_zone;
  })

-- `DeviceInfo::battery` and `firmware`
unfoldable pub battery_and_firmware : List ℕ → Outcome CommandError (ℕ × ℕ)
battery_and_firmware bytes = do
  battery ← big_endian_at bytes 8
  firmware ← big_endian_at bytes 10
  ok (battery, firmware)

-- `QueryIO::new`
unfoldable pub query_io_new : List ℕ → Outcome CommandError (List ℕ)
query_io_new [] = ok []
query_io_new (b ∷ bytes) = do ensure (not (b == 0xff)) query_id_error; ok (b ∷ bytes)

-- `UpdateIO::new`: whether it has several pins, and the bytes behind the first.
unfoldable pub update_io_new : List ℕ → Outcome CommandError (Bool × List ℕ)
update_io_new bytes = do
  let len = length bytes
  ensure (not (ltb len 3)) io_too_short
  ensure (not ((len - 1) % 2 == 1)) io_length
  b ← index bytes 1
  ensure (not (b == 0xff)) io_length
  rest ← slice_from bytes 1
  ok (if len == 3 then (false, rest) else (true, rest))

pub record Io : Type 0 where
  pub id : ℕ
  pub value : Bool

-- `UpdateIO::state`: its loop takes two bytes in each round.
unfoldable pub state : List ℕ → Outcome CommandError (List Io)
state [] = ok []
state (id ∷ []) = panic
state (id ∷ (value ∷ rest)) = do v ← state rest; ok ((record { id = id; value = value == 1 }) ∷ v)

-- `IOTimer::new`
unfoldable pub io_timer_new : List ℕ → Outcome CommandError (List ℕ)
io_timer_new bytes = do ensure (length bytes == 7) timer_length; ok bytes

pub record TimerView : Type 0 where
  pub inex : ℕ
  pub enable : Bool
  pub io_number : ℕ
  pub action : Bool
  pub hour : ℕ
  pub minute : ℕ
  pub repeat : ℕ

-- The methods of `IOTimer` at once.
unfoldable pub timer_view : List ℕ → Outcome CommandError TimerView
timer_view bytes = do
  inex ← index bytes 0
  enable ← index bytes 1
  io_number ← index bytes 2
  action ← index bytes 3
  hour ← index bytes 4
  minute ← index bytes 5
  repeat ← index bytes 6
  ok (record {
    inex = inex;
    enable = not (enable == 0);
    io_number = io_number;
    action = not (action == 0);
    hour = hour;
    minute = minute;
    repeat = repeat;
  })

-- `IOComamd`
pub data IoCommand : Type 0 where
  device_info update_device_info query_io query_timer update_timer : List ℕ → IoCommand
  update_io : Bool → List ℕ → IoCommand

-- `LoRaIOFormater::format`
unfoldable pub format_command : ℕ → List ℕ → Outcome CommandError IoCommand
format_command command rest =
    if command == 0
    then (device_info_new rest >>= λ d. ok (device_info d))
    else if command == 1
    then (update_device_info_new rest >>= λ d. ok (update_device_info d))
    else if command == 2
    then (query_io_new rest >>= λ d. ok (query_io d))
    else if command == 3
    then (update_io_new rest >>= λ d. ok (update_io d.0 d.1))
    else if command == 4
    then (io_timer_new rest >>= λ d. ok (query_timer d))
    else if command == 5
    then (io_timer_new rest >>= λ d. ok (update_timer d))
    else err unsupported_command

unfoldable pub format : List ℕ → Outcome CommandError IoCommand
format payload = do
  command ← ok_or (get_elem? payload 0) not_found_command
  rest ← slice_from payload 1
  format_command command rest

pub data PayloadType : Type 0 where
  data_payload io_payload : List ℕ → PayloadType

-- `LoRaPayloadFormater::format`
unfoldable pub payload_format : Option ℕ → List ℕ → Outcome CommandError PayloadType
payload_format none payload = err not_found_port
payload_format (some port) payload =
    if port == 2
    then ok (data_payload payload)
    else if port == 3
    then ok (io_payload payload)
    else err unsupported_port
