-- ===== src/Sensor/Blocks.antt =====
-- The loop over the records of a payload (devices_manager/src/decode.rs) on records as a device writes
-- them: the framing for any bodies, and the round trip for bodies of values.
use snapemu_workflow.Base.{
  ℕ, zero, suc, ◌+◌, ◌/◌, ◌%◌, ◌≤◌, ◌<◌, ◌≡◌, ◌≢◌, refl, List, [], ◌∷◌, ◌++◌, map, length,
  length-append, arith, Outcome, ok, again, done, loop, loop_done, loop_bind, none,
  index-append_length, slice, slice-append_length, ◌>>=◌, sym, ap, ◌∙◌, All,
}
use mathlib.Core.Path.{fun_ext}
use mathlib.Core.List.{append_assoc, append-nil}
use snapemu_workflow.Sensor.{
  DecodeData, DecodeError, DecodeDataDecoded, decode_body, record_step, up_data_decode,
  nothing_decoded,
}
use snapemu_workflow.Sensor.Frame.{Item, IsItem, encode_items, data_of}
use snapemu_workflow.Sensor.Items.{length-encode_items, decode_items_framed}

-- A record as a device writes it, whatever its body is.
pub record Block : Type 0 where
  pub sensor_id : ℕ
  pub body : List ℕ

-- A body that is not empty and whose length fits in a byte.
pub record IsBlock (b : Block) : Type 0 where
  pub sensor_id_lt : b.sensor_id < 65536
  pub body_pos : 0 < length b.body
  pub body_lt : length b.body < 256

abbrev pub encode_block : Block → List ℕ
encode_block b = b.sensor_id % 256 ∷ b.sensor_id / 256 ∷ length b.body ∷ b.body

abbrev pub encode_blocks : List Block → List ℕ
encode_blocks [] = []
encode_blocks (b ∷ bs) = encode_block b ++ encode_blocks bs

-- The bodies, decoded one behind the other.
unfoldable pub decode_blocks :
    List Block → DecodeDataDecoded → Outcome DecodeError DecodeDataDecoded
decode_blocks [] r = ok r
decode_blocks (b ∷ bs) r = decode_body b.sensor_id b.body (length b.body) r >>= decode_blocks bs

length-encode_blocks : (bs : List Block) → length bs ≤ length (encode_blocks bs)
length-encode_blocks [] = omega arith
length-encode_blocks (b ∷ bs) =
    omega (arith, length-encode_blocks bs, length-append {0} b.body (encode_blocks bs))

slice_behind :
    (pre head mid post : List ℕ)
    → slice {E = DecodeError}
        (pre ++ (head ++ (mid ++ post)))
        (length pre + length head)
        (length pre + length head + length mid)
      ≡ ok mid
slice_behind pre head mid post =
    rw (append_assoc pre head (mid ++ post), length-append pre head) at
      (slice-append_length {E = DecodeError} (pre ++ head) mid post)

module _ (bytes : List ℕ) where
  record_step_framed :
      (pre : List ℕ) (b : Block) (post : List ℕ) (current : ℕ) (r : DecodeDataDecoded)
      → IsBlock b
      → bytes ≡ pre ++ (encode_block b ++ post)
      → current ≡ length pre
      → record_step bytes (current, r) ≡ (
          decode_body b.sensor_id b.body (length b.body) r >>= λ r'.
          ok (again (current + length (encode_block b), r')))
  unfolding record_step
  record_step_framed pre b post current r h eb ec =
      let at = λ (i : ℕ) (a : ℕ).
        index-append_length {E = DecodeError} pre (encode_block b ++ post) i {a = a} in
      let head = b.sensor_id % 256 ∷ b.sensor_id / 256 ∷ length b.body ∷ [] in
      rw (eb, ec)
        (ground (
          arith,
          at 0 (b.sensor_id % 256) refl,
          at 1 (b.sensor_id / 256) refl,
          at 2 (length b.body) refl,
          slice_behind pre head b.body post,
          length-append pre (encode_block b ++ post),
          length-append b.body post,
        ))

  record_step_end :
      (current : ℕ) (r : DecodeDataDecoded)
      → current ≡ length bytes
      → record_step bytes (current, r) ≡ ok (done r)
  unfolding record_step
  record_step_end current r h = ground arith

  blocks_loop :
      (pre : List ℕ) (bs : List Block) (current fuel : ℕ) (r : DecodeDataDecoded)
      → All IsBlock bs
      → bytes ≡ pre ++ encode_blocks bs
      → current ≡ length pre
      → length bs < fuel
      → loop fuel (record_step bytes) (current, r) ≡ decode_blocks bs r
  unfolding decode_blocks
  blocks_loop pre bs current zero r h eb ec f = elim f [ ]
  blocks_loop pre [] current (suc fuel) r h eb ec f =
      loop_done fuel (record_step bytes) (current, r) r
        (record_step_end current r (rw (eb, append-nil) ec))
  blocks_loop pre (b ∷ bs) current (suc fuel) r h eb ec f =
      let next = current + length (encode_block b) in
      loop_bind fuel (record_step bytes) (current, r) _ (λ r'. (next, r'))
        (record_step_framed pre b (encode_blocks bs) current r h.0 eb ec)
      ∙ ap (λ k. decode_body b.sensor_id b.body (length b.body) r >>= k)
          (fun_ext (λ r'.
            blocks_loop (pre ++ encode_block b) bs next fuel r' h.1
              (eb ∙ sym (append_assoc pre (encode_block b) (encode_blocks bs)))
              (omega (arith, length-append pre (encode_block b))) (omega arith)))

-- A payload of well-formed records is decoded record by record, and fails where a body fails.
pub up_data_decode-encode_blocks :
    (bs : List Block)
    → All IsBlock bs
    → up_data_decode (encode_blocks bs) ≡ decode_blocks bs nothing_decoded
unfolding up_data_decode
up_data_decode-encode_blocks bs h =
    blocks_loop (encode_blocks bs) [] bs 0 _ nothing_decoded h refl refl
      (omega (arith, length-encode_blocks bs))

-- The records of sensors whose items are values.
pub record Sample : Type 0 where
  pub sensor_id : ℕ
  pub items : List Item

pub record IsSample (s : Sample) : Type 0 where
  pub sensor_id_lt : s.sensor_id < 65536
  pub not_status : s.sensor_id ≢ 0
  pub not_io : s.sensor_id ≢ 7
  pub well_formed : All IsItem s.items
  pub items_pos : 0 < length s.items
  pub items_lt : length (encode_items s.items) < 256

abbrev pub block_of : Sample → Block
block_of s = record { sensor_id = s.sensor_id; body = encode_items s.items }

abbrev pub all_data : List Sample → List DecodeData
all_data [] = []
all_data (s ∷ ss) = map (data_of s.sensor_id) s.items ++ all_data ss

decode_body_sample :
    (s : Sample) (r : DecodeDataDecoded)
    → IsSample s
    → decode_body s.sensor_id (encode_items s.items) (length (encode_items s.items)) r
      ≡ ok (record r { items = r.items ++ map (data_of s.sensor_id) s.items })
unfolding decode_body
decode_body_sample s r h =
    ground
      (arith, h.not_status, h.not_io, decode_items_framed s.items s.sensor_id r.items h.well_formed)

decode_blocks_samples :
    (ss : List Sample) (r : DecodeDataDecoded)
    → All IsSample ss
    → decode_blocks (map block_of ss) r ≡ ok (record r { items = r.items ++ all_data ss })
unfolding decode_blocks
decode_blocks_samples [] r h = rw append-nil
decode_blocks_samples (s ∷ ss) r h =
    let got = map (data_of s.sensor_id) s.items in
    rw (decode_body_sample s r h.0) (
      decode_blocks_samples ss (record r { items = r.items ++ got }) h.1
      ∙ ap (λ xs. ok (record r { items = xs })) (append_assoc r.items got (all_data ss)))

samples-IsBlock : (ss : List Sample) → All IsSample ss → All IsBlock (map block_of ss)
samples-IsBlock [] h = tt
samples-IsBlock (s ∷ ss) h = (
  record {
    sensor_id_lt = h.0.sensor_id_lt;
    body_pos = omega (arith, h.0.items_pos, length-encode_items s.items);
    body_lt = h.0.items_lt;
  },
  samples-IsBlock ss h.1,
)

-- A payload of records of values decodes to those values, in order, and to nothing else.
pub up_data_decode-samples :
    (ss : List Sample)
    → All IsSample ss
    → up_data_decode (encode_blocks (map block_of ss))
      ≡ ok (record { items = all_data ss; io = []; status = none })
up_data_decode-samples ss h =
    up_data_decode-encode_blocks (map block_of ss) (samples-IsBlock ss h)
    ∙ decode_blocks_samples ss nothing_decoded h
