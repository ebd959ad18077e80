-- ===== src/Sensor/Frame.antt =====
-- The wire form of a sensor payload, as a device writes it: items, and records of items.
use snapemu_workflow.Base.{
  ℕ, ◌+◌, ◌*◌, ◌/◌, ◌%◌, ◌^◌, ◌≤◌, ◌<◌, ◌≡◌, refl, true, false, List, [], ◌∷◌, ◌++◌, length,
  length-append, arith, if◌then◌else◌, ◌==◌, ok, again, index-append_length, slice-append_length,
  slice_lt,
}
use snapemu_workflow.Base.Bytes.{from_le_bytes}
use snapemu_workflow.Base.Int.{pos, signed}
use mathlib.Core.List.{append_assoc}
use snapemu_workflow.Sensor.{
  ValueType, array, f64, f32, bool, i8, u8, i16, u16, i32, u32, Value, int, float, boolean, of_bits,
  of_f32_bits, DecodeData, DecodeError, value_type, read_le, read_byte, read_value, item_step,
}

pub record Item : Type 0 where
  pub pk_id : ℕ
  pub ty : ValueType
  pub body : List ℕ

-- The low nibble of a type byte.
abbrev pub type_code : ValueType → ℕ
type_code array = 0
type_code f64 = 1
type_code f32 = 2
type_code bool = 3
type_code i8 = 4
type_code u8 = 5
type_code i16 = 6
type_code u16 = 7
type_code i32 = 8
type_code u32 = 9

-- An array has any number of bytes that its length byte can say, every other type its own.
abbrev pub HasWidth : ValueType → ℕ → Type 0
HasWidth array n = n < 256
HasWidth f64 n = n ≡ 8
HasWidth f32 n = n ≡ 4
HasWidth bool n = n ≡ 1
HasWidth i8 n = n ≡ 1
HasWidth u8 n = n ≡ 1
HasWidth i16 n = n ≡ 2
HasWidth u16 n = n ≡ 2
HasWidth i32 n = n ≡ 4
HasWidth u32 n = n ≡ 4

-- What the bytes of a value mean, the lowest first.
abbrev pub value_of : ValueType → List ℕ → Value
value_of array body = int (pos 0)
value_of f64 body = float (of_bits (from_le_bytes body))
value_of f32 body = float (of_f32_bits (from_le_bytes body))
value_of bool body = boolean (if from_le_bytes body == 0 then false else true)
value_of i8 body = int (signed (2 ^ 7) (from_le_bytes body))
value_of u8 body = int (pos (from_le_bytes body))
value_of i16 body = int (signed (2 ^ 15) (from_le_bytes body))
value_of u16 body = int (pos (from_le_bytes body))
value_of i32 body = int (signed (2 ^ 31) (from_le_bytes body))
value_of u32 body = int (pos (from_le_bytes body))

pub record IsItem (it : Item) : Type 0 where
  pub pk_id_lt : it.pk_id < 16
  pub width : HasWidth it.ty (length it.body)

abbrev pub framed : ValueType → List ℕ → List ℕ
framed array body = length body ∷ body
framed _ body = body

abbrev pub encode_item : Item → List ℕ
encode_item it = (it.pk_id * 16 + type_code it.ty) ∷ framed it.ty it.body

abbrev pub encode_items : List Item → List ℕ
encode_items [] = []
encode_items (it ∷ its) = encode_item it ++ encode_items its

abbrev pub data_of : ℕ → Item → DecodeData
data_of sensor_id it = record { i = sensor_id * 16 + it.pk_id; v = value_of it.ty it.body }

value_type-type_code : (ty : ValueType) → value_type (type_code ty) ≡ ok ty
unfolding value_type
value_type-type_code array = refl
value_type-type_code _ = refl

module _ (pre post : List ℕ) (n : ℕ) where
  read_le_framed :
      (width : ℕ) (ty : ValueType) (body : List ℕ)
      → length body ≡ width
      → length pre + length body ≤ n
      → read_le (pre ++ (body ++ post)) n width ty (length pre) ≡ ok (from_le_bytes body)
  unfolding read_le
  read_le_framed width ty body w h =
      rw (← w) (ground (arith, slice-append_length {E = DecodeError} pre body post))

  read_byte_framed :
      (ty : ValueType) (body : List ℕ)
      → length body ≡ 1
      → length pre + length body ≤ n
      → read_byte (pre ++ (body ++ post)) n ty (length pre) ≡ ok (from_le_bytes body)
  unfolding read_byte from_le_bytes
  read_byte_framed ty [] w h = absurd (omega arith)
  read_byte_framed ty (b ∷ []) w h =
      ground (arith, index-append_length {E = DecodeError} pre (b ∷ post) 0 {a = b} refl)
  read_byte_framed ty (b ∷ c ∷ body) w h = absurd (omega arith)

  read_value-framed :
      (ty : ValueType) (body : List ℕ)
      → HasWidth ty (length body)
      → length pre + length (framed ty body) ≤ n
      → read_value (pre ++ (framed ty body ++ post)) n ty (length pre)
        ≡ ok (value_of ty body, length pre + length (framed ty body))
  unfolding read_value
  read_value-framed array body w h =
      let bytes = pre ++ (length body ∷ (body ++ post)) in
      let p = length pre in
      ground (
        arith,
        index-append_length {E = DecodeError} pre (length body ∷ (body ++ post)) 0 {a = length body}
            refl,
        slice_lt {E = DecodeError} bytes (p + 1) (p + 1 + length body),
        length-append pre (length body ∷ (body ++ post)),
        length-append body post,
      )
  read_value-framed f64 body w h = ground (arith, read_le_framed 8 f64 body w h)
  read_value-framed f32 body w h = ground (arith, read_le_framed 4 f32 body w h)
  read_value-framed bool body w h = ground (arith, read_byte_framed bool body w h)
  read_value-framed i8 body w h = ground (arith, read_byte_framed i8 body w h)
  read_value-framed u8 body w h = ground (arith, read_byte_framed u8 body w h)
  read_value-framed i16 body w h = ground (arith, read_le_framed 2 i16 body w h)
  read_value-framed u16 body w h = ground (arith, read_le_framed 2 u16 body w h)
  read_value-framed i32 body w h = ground (arith, read_le_framed 4 i32 body w h)
  read_value-framed u32 body w h = ground (arith, read_le_framed 4 u32 body w h)

type_code_lt : (ty : ValueType) → type_code ty < 16
type_code_lt array = omega arith
type_code_lt _ = omega arith

-- The two nibbles of a type byte.
low_nibble : (k c : ℕ) → c < 16 → (k * 16 + c) % 16 ≡ c
low_nibble k c h = omega arith

high_nibble : (k c : ℕ) → c < 16 → (k * 16 + c) / 16 ≡ k
high_nibble k c h = omega arith

module _ (pre post : List ℕ) (n : ℕ) where
  read_value_behind :
      (b : ℕ) (ty : ValueType) (body : List ℕ)
      → HasWidth ty (length body)
      → length pre + 1 + length (framed ty body) ≤ n
      → read_value (pre ++ (b ∷ (framed ty body ++ post))) n ty (length pre + 1)
        ≡ ok (value_of ty body, length pre + 1 + length (framed ty body))
  read_value_behind b ty body w h =
      rw (append_assoc pre (b ∷ []) (framed ty body ++ post), length-append pre (b ∷ [])) at
        (read_value-framed (pre ++ (b ∷ [])) post n ty body w (rw (length-append pre (b ∷ [])) h))

  -- An item whose bytes lie within the record is read as the value that they mean.
  pub item_step_framed :
      (sensor_id : ℕ) (it : Item) (items : List DecodeData)
      → IsItem it
      → length pre + length (encode_item it) ≤ n
      → item_step (pre ++ (encode_item it ++ post)) n sensor_id (length pre, items)
        ≡ ok (again (length pre + length (encode_item it), items ++ (data_of sensor_id it ∷ [])))
  unfolding item_step
  item_step_framed sensor_id it items w h =
      let b = it.pk_id * 16 + type_code it.ty in
      ground (
        arith,
        index-append_length {E = DecodeError} pre (b ∷ (framed it.ty it.body ++ post)) 0 {a = b}
            refl,
        low_nibble it.pk_id (type_code it.ty) (type_code_lt it.ty),
        high_nibble it.pk_id (type_code it.ty) (type_code_lt it.ty),
        value_type-type_code it.ty,
        read_value_behind b it.ty it.body w.width,
      )
