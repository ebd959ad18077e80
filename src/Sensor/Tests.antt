-- ===== src/Sensor/Tests.antt =====
-- Runs of `up_data_decode` on concrete payloads.
use snapemu_workflow.Base.{ℕ, ◌≡◌, refl, none, some, List, [], ◌∷◌, true, ok, panic}
use snapemu_workflow.Base.Int.{pos, negsuc}
use snapemu_workflow.Base.{loop, index, slice}
use snapemu_workflow.Base.Bytes.{from_le_bytes}
use snapemu_workflow.Base.{◌≢◌, arith, map, stuck}
use snapemu_workflow.Sensor.Blocks.{
  Sample, Block, block_of, encode_blocks, decode_blocks, all_data, up_data_decode-samples,
  up_data_decode-encode_blocks,
}
use snapemu_workflow.Sensor.Panics.{IsOpenRecord, up_data_decode-eq-panic}
use snapemu_workflow.Sensor.Total.{up_data_decode-ne-stuck}
use snapemu_workflow.Sensor.{i8, u16, array, nothing_decoded}
use snapemu_workflow.Sensor.{
  up_data_decode, int, record_step, decode_body, decode_status, decode_items, item_step, value_type,
  read_value, read_le, read_byte,
}

two_items :
    up_data_decode (1 ∷ 0 ∷ 5 ∷ 0x14 ∷ 0xff ∷ 0x27 ∷ 1 ∷ 2 ∷ [])
    ≡ ok (record {
      items = record { i = 17; v = int (negsuc 0) } ∷ record { i = 18; v = int (pos 513) } ∷ [];
      io = [];
      status = none;
    })
unfolding up_data_decode record_step loop index slice decode_body decode_status decode_items
    item_step value_type read_value read_le read_byte from_le_bytes
two_items = refl

battery :
    up_data_decode (0 ∷ 0 ∷ 4 ∷ 9 ∷ 80 ∷ 9 ∷ 1 ∷ [])
    ≡ ok (record { items = []; io = []; status = some (record { battery = 80; charge = true }) })
unfolding up_data_decode record_step loop index slice decode_body decode_status decode_items
    item_step value_type read_value read_le read_byte from_le_bytes
battery = refl

open_array : up_data_decode (1 ∷ 0 ∷ 1 ∷ 0x10 ∷ []) ≡ panic
unfolding up_data_decode record_step loop index slice decode_body decode_status decode_items
    item_step value_type read_value read_le read_byte from_le_bytes
open_array = refl

abbrev two_samples : List Sample
two_samples =
    record { sensor_id = 1; items = record { pk_id = 1; ty = i8; body = 255 ∷ [] } ∷ [] }
    ∷ record {
      sensor_id = 300;
      items =
          record { pk_id = 0; ty = array; body = [] }
          ∷ record { pk_id = 2; ty = u16; body = 1 ∷ 2 ∷ [] }
          ∷ [];
    }
    ∷ []

abbrev charged : List Block
charged = record { sensor_id = 0; body = 9 ∷ 80 ∷ 9 ∷ 1 ∷ [] } ∷ []

up_data_decode-samples_example :
    up_data_decode (encode_blocks (map block_of two_samples))
    ≡ ok (record { items = all_data two_samples; io = []; status = none })
up_data_decode-samples_example = up_data_decode-samples two_samples (ground arith)

up_data_decode-encode_blocks_example :
    up_data_decode (encode_blocks charged) ≡ decode_blocks charged nothing_decoded
up_data_decode-encode_blocks_example = up_data_decode-encode_blocks charged (omega arith)

up_data_decode-eq-panic_example : (c : ℕ) × IsOpenRecord (1 ∷ 0 ∷ 1 ∷ 0x10 ∷ []) c
up_data_decode-eq-panic_example = up_data_decode-eq-panic (1 ∷ 0 ∷ 1 ∷ 0x10 ∷ []) open_array

up_data_decode-ne-stuck_example : up_data_decode (1 ∷ 0 ∷ 9 ∷ []) ≢ stuck
up_data_decode-ne-stuck_example = up_data_decode-ne-stuck (1 ∷ 0 ∷ 9 ∷ [])
