-- ===== src/Sensor/Total.antt =====
-- `up_data_decode` ends on every payload, and panics only where an array item has no length byte.
use snapemu_workflow.Base.{
  ℕ, ◌+◌, ◌-◌, ◌≤◌, ◌<◌, ◌≡◌, ◌≢◌, List, length, arith, ok, stuck, again, index, slice,
  loop-ne-stuck,
}
use snapemu_workflow.Sensor.{
  ValueType, array, Value, DecodeData, DecodeDataDecoded, value_type, read_le, read_byte,
  read_value, item_step, decode_items, decode_status, decode_pins, decode_io, decode_body,
  record_step, up_data_decode, nothing_decoded,
}

value_type-ne-stuck : (x : ℕ) → value_type x ≢ stuck
unfolding value_type
value_type-ne-stuck x e = ground arith

module _ (bytes : List ℕ) (n : ℕ) where
  read_value-ne-stuck : (ty : ValueType) (p : ℕ) → read_value bytes n ty p ≢ stuck
  unfolding read_value read_le read_byte index slice
  read_value-ne-stuck array p e = ground arith
  read_value-ne-stuck _ p e = ground arith

  read_value_moves :
      (ty : ValueType) (p : ℕ) (r : Value × ℕ) → read_value bytes n ty p ≡ ok r → p < r.1
  unfolding read_value read_le read_byte index slice
  read_value_moves array p (v, p') e = ground arith
  read_value_moves _ p (v, p') e = ground arith

  item_step-ne-stuck : (id : ℕ) (s : ℕ × List DecodeData) → item_step bytes n id s ≢ stuck
  unfolding item_step index slice
  item_step-ne-stuck id (p, items) e = grind (arith, value_type-ne-stuck, read_value-ne-stuck)

  item_step_moves :
      (id : ℕ) (s t : ℕ × List DecodeData)
      → item_step bytes n id s ≡ ok (again t)
      → (s.0 < n) × (s.0 < t.0)
  unfolding item_step index slice
  item_step_moves id (p, items) (p', items') e = grind (arith, read_value_moves)

  decode_items-ne-stuck : (id : ℕ) (items : List DecodeData) → decode_items bytes n id items ≢ stuck
  unfolding decode_items
  decode_items-ne-stuck id items =
      loop-ne-stuck (λ s. Unit) (λ s. n - s.0) (item_step bytes n id)
        (λ s h. item_step-ne-stuck id s) (λ s t h e. (tt, omega (arith, item_step_moves id s t e)))
        (n + 1) (0, items) (omega arith) tt

  decode_status-ne-stuck : (r : DecodeDataDecoded) → decode_status bytes n r ≢ stuck
  unfolding decode_status index slice
  decode_status-ne-stuck r e = ground arith

decode_pins-ne-stuck :
    (bytes : List ℕ) (num : ℕ) (r : DecodeDataDecoded) → decode_pins bytes num r ≢ stuck
unfolding decode_pins index slice
decode_pins-ne-stuck bytes num r e = ground arith

decode_io-ne-stuck : (bytes : List ℕ) (n : ℕ) (r : DecodeDataDecoded) → decode_io bytes n r ≢ stuck
unfolding decode_io index slice
decode_io-ne-stuck bytes n r e = grind (arith, decode_pins-ne-stuck)

decode_body-ne-stuck :
    (id : ℕ) (bytes : List ℕ) (n : ℕ) (r : DecodeDataDecoded) → decode_body id bytes n r ≢ stuck
unfolding decode_body
decode_body-ne-stuck id bytes n r e = ground (
  arith,
  decode_status-ne-stuck bytes n r,
  decode_io-ne-stuck bytes n r,
  decode_items-ne-stuck bytes n id r.items,
)

module _ (bytes : List ℕ) where
  record_step-ne-stuck : (s : ℕ × DecodeDataDecoded) → record_step bytes s ≢ stuck
  unfolding record_step index slice
  record_step-ne-stuck (c, r) e = grind (arith, decode_body-ne-stuck)

  record_step_moves :
      (s t : ℕ × DecodeDataDecoded)
      → record_step bytes s ≡ ok (again t)
      → (s.0 < t.0) × (t.0 ≤ length bytes)
  unfolding record_step index slice
  record_step_moves (c, r) (c', r') e = grind arith

-- On every payload the decoder ends: neither of its loops runs for ever.
pub up_data_decode-ne-stuck : (bytes : List ℕ) → up_data_decode bytes ≢ stuck
unfolding up_data_decode
up_data_decode-ne-stuck bytes =
    loop-ne-stuck (λ s. Unit) (λ s. length bytes - s.0) (record_step bytes)
      (λ s h. record_step-ne-stuck bytes s)
      (λ s t h e. (tt, omega (arith, record_step_moves bytes s t e))) (length bytes + 1)
      (0, nothing_decoded) (omega arith) tt
