-- ===== src/Sensor/OpenArray.antt =====
-- The payloads on which `up_data_decode` (devices_manager/src/decode.rs:174) panics: its test
-- `parse_data_len > data_len` lets a position through that is just behind the slice.
use snapemu_workflow.Base.{
  ℕ, zero, suc, ◌+◌, ◌-◌, ◌*◌, ◌%◌, ◌<◌, ◌≡◌, ◌≢◌, refl, List, [], ◌∷◌, ◌++◌, length, length-append,
  arith, ok, panic, loop, loop_panic, index-append_length, index_ge, map, All, ◌∙◌,
}
use snapemu_workflow.Sensor.{
  DecodeData, DecodeError, array, value_type, read_value, item_step, decode_items, decode_body,
  up_data_decode,
}
use snapemu_workflow.Sensor.Frame.{Item, IsItem, encode_items, data_of}
use snapemu_workflow.Sensor.Items.{items_advance, length-encode_items}
use snapemu_workflow.Sensor.Blocks.{
  Block, IsBlock, encode_blocks, decode_blocks, up_data_decode-encode_blocks,
}

open_array_panics :
    (pre : List ℕ) (n k : ℕ)
    → n ≡ length pre + 1
    → read_value (pre ++ (k * 16 ∷ [])) n array n ≡ panic
unfolding read_value
open_array_panics pre n k h =
    ground
      (arith, index_ge {E = DecodeError} (pre ++ (k * 16 ∷ [])) n, length-append pre (k * 16 ∷ []))

nibble_zero : (k : ℕ) → k * 16 % 16 ≡ 0
nibble_zero k = omega arith

value_type_zero : value_type 0 ≡ ok array
unfolding value_type
value_type_zero = refl

item_step_panics :
    (pre : List ℕ) (n k id pos : ℕ) (items : List DecodeData)
    → n ≡ length pre + 1
    → pos ≡ length pre
    → item_step (pre ++ (k * 16 ∷ [])) n id (pos, items) ≡ panic
unfolding item_step
item_step_panics pre n k id pos items h e = ground (
  arith,
  index-append_length {E = DecodeError} pre (k * 16 ∷ []) 0 {a = k * 16} refl,
  nibble_zero k,
  value_type_zero,
  open_array_panics pre n k h,
)

loop_item_panics :
    (pre : List ℕ) (n k id pos fuel : ℕ) (items : List DecodeData)
    → n ≡ length pre + 1
    → pos ≡ length pre
    → 0 < fuel
    → loop fuel (item_step (pre ++ (k * 16 ∷ [])) n id) (pos, items) ≡ panic
loop_item_panics pre n k id pos zero items h e f = elim f [ ]
loop_item_panics pre n k id pos (suc fuel) items h e f =
    loop_panic fuel (item_step (pre ++ (k * 16 ∷ [])) n id) (pos, items)
      (item_step_panics pre n k id pos items h e)

-- Well-formed items with the type byte of an array behind them.
abbrev pub open_body : List Item → ℕ → List ℕ
open_body its k = encode_items its ++ (k * 16 ∷ [])

decode_items_panics :
    (its : List Item) (k id : ℕ) (items : List DecodeData)
    → All IsItem its
    → decode_items (open_body its k) (length (open_body its k)) id items ≡ panic
unfolding decode_items
decode_items_panics its k id items h =
    let body = open_body its k in
    let n = length body in
    let size = length-append (encode_items its) (k * 16 ∷ []) in
    items_advance body n id [] its (k * 16 ∷ []) 0 items (n + 1 - length its) (n + 1) h refl refl
      (omega (arith, size)) (omega (arith, size, length-encode_items its))
    ∙ loop_item_panics (encode_items its) n k id (0 + length (encode_items its))
        (n + 1 - length its) (items ++ map (data_of id) its) (omega (arith, size)) (omega arith)
        (omega (arith, size, length-encode_items its))

-- A record of a sensor with items that ends in the type byte of an array stops the decoder by a
-- panic, whatever well-formed items stand before that byte and whatever records follow.
pub up_data_decode_open_array :
    (sensor_id k : ℕ) (its : List Item) (bs : List Block)
    → sensor_id < 65536
    → sensor_id ≢ 0
    → sensor_id ≢ 7
    → All IsItem its
    → length (open_body its k) < 256
    → All IsBlock bs
    → up_data_decode (encode_blocks (record { sensor_id = sensor_id; body = open_body its k } ∷ bs))
      ≡ panic
unfolding decode_blocks decode_body
up_data_decode_open_array sensor_id k its bs lt ns ni h size hs =
    let b : Block = record { sensor_id = sensor_id; body = open_body its k } in
    let good : IsBlock b = record {
      sensor_id_lt = lt;
      body_pos = omega (arith, length-append (encode_items its) (k * 16 ∷ []));
      body_lt = size;
    } in
    up_data_decode-encode_blocks (b ∷ bs) (good, hs)
    ∙ ground (arith, ns, ni, decode_items_panics its k sensor_id [] h)
