-- ===== src/Sensor.antt =====
-- The sensor payload of an uplink (devices_manager/src/decode.rs, `up_data_decode`): records of a
-- sensor id, a length and typed items. The variables of the two loops are the states of `loop`.
pub mod Total
pub mod Frame
pub mod Items
pub mod Blocks
pub mod Panics
pub mod OpenArray
mod Tests
use snapemu_workflow.Base.{
  ℕ, zero, suc, ◌+◌, ◌-◌, ◌*◌, ◌/◌, ◌%◌, ◌^◌, Bool, true, false, Option, none, some, List, [], ◌∷◌,
  ◌++◌, length, ltb, leb, ◌==◌, if◌then◌else◌, Outcome, ok, err, ◌>>=◌, ◌>>◌, ensure, index, slice,
  Flow, again, done, loop,
}
use snapemu_workflow.Base.Bytes.{le16, test_bit, from_le_bytes}
use snapemu_workflow.Base.Int.{ℤ, pos, signed}

pub data ValueType : Type 0 where
  array f64 f32 bool i8 u8 i16 u16 i32 u32 : ValueType

-- One constructor for each message of `DataError`.
pub data DecodeError : Type 0 where
  unsupported_value_type : ℕ → DecodeError
  sensor_id_not_found data_length_not_found data_length_too_much : DecodeError
  not_found_array_length data_length_error : DecodeError
  not_found_length : ValueType → DecodeError

-- `ValueType::try_from(u8)`
unfoldable pub value_type : ℕ → Outcome DecodeError ValueType
value_type x =
    if x == 0
    then ok array
    else if x == 1
    then ok f64
    else if x == 2
    then ok f32
    else if x == 3
    then ok bool
    else if x == 4
    then ok i8
    else if x == 5
    then ok u8
    else if x == 6
    then ok i16
    else if x == 7
    then ok u16
    else if x == 8
    then ok i32
    else if x == 9
    then ok u32
    else err (unsupported_value_type x)

-- A float by its bits: as it was sent, or as the widening of the 32-bit float with these bits.
pub data Float : Type 0 where
  of_bits : ℕ → Float
  of_f32_bits : ℕ → Float

pub data Value : Type 0 where
  int : ℤ → Value
  float : Float → Value
  boolean : Bool → Value

pub record DecodeData : Type 0 where
  pub i : ℕ
  pub v : Value

pub record DeviceBattery : Type 0 where
  pub battery : ℕ
  pub charge : Bool

pub record DeviceIo : Type 0 where
  pub pin : ℕ
  pub modify : Bool
  pub mode : Bool
  pub value : Bool

pub record DecodeDataDecoded : Type 0 where
  pub items : List DecodeData
  pub io : List DeviceIo
  pub status : Option DeviceBattery

abbrev pub nothing_decoded : DecodeDataDecoded
nothing_decoded = record { items = []; io = []; status = none }

module _ (bytes : List ℕ) (data_len : ℕ) where
  -- Test that `width` bytes are left at `p`, copy them, and read them lowest byte first.
  unfoldable pub read_le : ℕ → ValueType → ℕ → Outcome DecodeError ℕ
  read_le width ty p = do
    ensure (leb (p + width) data_len) (not_found_length ty)
    u ← slice bytes p (p + width)
    ok (from_le_bytes u)

  -- The same for the types of one byte.
  unfoldable pub read_byte : ValueType → ℕ → Outcome DecodeError ℕ
  read_byte ty p = do ensure (leb (p + 1) data_len) (not_found_length ty); index bytes p

  -- The arms of `match pk_type`: the value, and the position behind it.
  unfoldable pub read_value : ValueType → ℕ → Outcome DecodeError (Value × ℕ)
  read_value array p = do
    ensure (leb p data_len) not_found_array_length
    arr_len ← index bytes p
    ensure (leb (p + 1 + arr_len) data_len) data_length_error
    v ← slice bytes (p + 1) (p + 1 + arr_len)
    ok (int (pos 0), p + 1 + arr_len)
  read_value f64 p = do u ← read_le 8 f64 p; ok (float (of_bits u), p + 8)
  read_value f32 p = do u ← read_le 4 f32 p; ok (float (of_f32_bits u), p + 4)
  read_value bool p = do u ← read_byte bool p; ok (boolean (if u == 0 then false else true), p + 1)
  read_value i8 p = do u ← read_byte i8 p; ok (int (signed (2 ^ 7) u), p + 1)
  read_value u8 p = do u ← read_byte u8 p; ok (int (pos u), p + 1)
  read_value i16 p = do u ← read_le 2 i16 p; ok (int (signed (2 ^ 15) u), p + 2)
  read_value u16 p = do u ← read_le 2 u16 p; ok (int (pos u), p + 2)
  read_value i32 p = do u ← read_le 4 i32 p; ok (int (signed (2 ^ 31) u), p + 4)
  read_value u32 p = do u ← read_le 4 u32 p; ok (int (pos u), p + 4)

  -- One round of the loop over the items of a record, on `parse_data_len` and `r.data`.
  unfoldable pub item_step :
      ℕ → ℕ × List DecodeData → Outcome DecodeError (Flow (ℕ × List DecodeData) (List DecodeData))
  item_step sensor_id (p, items) =
      if data_len == 0 then ok (done items) else if leb data_len p then ok (done items) else do
        b ← index bytes p
        ty ← value_type (b % 16)
        (v, p') ← read_value ty (p + 1)
        ok (again (p', items ++ (record { i = sensor_id * 16 + b / 16; v = v } ∷ [])))

  -- Each round takes a byte at least.
  unfoldable pub decode_items : ℕ → List DecodeData → Outcome DecodeError (List DecodeData)
  decode_items sensor_id items = loop (data_len + 1) (item_step sensor_id) (0, items)

  -- Sensor 0: the battery, and with four bytes whether it is charging.
  unfoldable pub decode_status : DecodeDataDecoded → Outcome DecodeError DecodeDataDecoded
  decode_status r =
      if data_len == 2
      then (index bytes 1 >>= λ level.
          ok (record r { status = some (record { battery = level; charge = false }) }))
      else if data_len == 4
      then (index bytes 1 >>= λ level. index bytes 3 >>= λ charging.
          ok (record r { status = some (record { battery = level; charge = charging == 1 }) }))
      else ok r

-- `for i in 0..io_num`
unfoldable pub io_pins : ℕ → ℕ → ℕ → ℕ → ℕ → List DeviceIo
io_pins modify mode status zero i = []
io_pins modify mode status (suc left) i =
    record {
      pin = i;
      modify = test_bit modify i;
      mode = test_bit mode i;
      value = test_bit status i;
    }
    ∷ io_pins modify mode status left (i + 1)

-- The masks of sensor 7, and its pins behind those that are there.
unfoldable pub decode_pins : List ℕ → ℕ → DecodeDataDecoded → Outcome DecodeError DecodeDataDecoded
decode_pins bytes io_num r = do
  b3 ← index bytes 3
  b4 ← index bytes 4
  b6 ← index bytes 6
  b7 ← index bytes 7
  b9 ← index bytes 9
  b10 ← index bytes 10
  let pins = io_pins (le16 b3 b4) (le16 b6 b7) (le16 b9 b10) io_num 0
  ok (record r { io = r.io ++ pins })

-- Sensor 7: the pins of the input and output port.
unfoldable pub decode_io : List ℕ → ℕ → DecodeDataDecoded → Outcome DecodeError DecodeDataDecoded
decode_io bytes data_len r =
    if data_len == 11
    then (index bytes 1 >>= λ io_num. if leb io_num 16 then decode_pins bytes io_num r else ok r)
    else ok r

-- What a record does by its sensor id.
unfoldable pub decode_body :
    ℕ → List ℕ → ℕ → DecodeDataDecoded → Outcome DecodeError DecodeDataDecoded
decode_body sensor_id body data_len r =
    if sensor_id == 0
    then decode_status body data_len r
    else if sensor_id == 7
    then decode_io body data_len r
    else do items ← decode_items body data_len sensor_id r.items; ok (record r { items = items })

-- One round of the loop over the records, on `current_len` and `r`.
unfoldable pub record_step :
    List ℕ
    → ℕ × DecodeDataDecoded
    → Outcome DecodeError (Flow (ℕ × DecodeDataDecoded) DecodeDataDecoded)
record_step bytes (current, r) = if current == length bytes then ok (done r) else do
  ensure (ltb (current + 2) (length bytes)) sensor_id_not_found
  lo ← index bytes current
  hi ← index bytes (current + 1)
  ensure (ltb (current + 3) (length bytes)) data_length_not_found
  data_len ← index bytes (current + 2)
  ensure (leb (current + 3 + data_len) (length bytes)) data_length_too_much
  body ← slice bytes (current + 3) (current + 3 + data_len)
  r' ← decode_body (le16 lo hi) body data_len r
  ok (again (current + 3 + data_len, r'))

-- Each round takes three bytes at least.
unfoldable pub up_data_decode : List ℕ → Outcome DecodeError DecodeDataDecoded
up_data_decode bytes = loop (length bytes + 1) (record_step bytes) (0, nothing_decoded)
