-- ===== src/Sensor/Panics.antt =====
-- Where `up_data_decode` (devices_manager/src/decode.rs) indexes a slice out of bounds.
use snapemu_workflow.Base.{
  ℕ, ◌+◌, ◌-◌, ◌%◌, ◌≤◌, ◌<◌, ◌≡◌, ◌≢◌, refl, List, length, get_elem?, get_elem?-take,
  get_elem?-drop, take, drop, length-take_le, length-drop, some, arith, ok, panic, loop-eq-panic,
  index, index-eq-panic, index_lt, slice-eq-panic, slice_lt,
}
use snapemu_workflow.Base.{
  Flow, Outcome, again, ensure, slice, leb, ltb, ◌==◌, Bool-cases, inl, inr,
}
use snapemu_workflow.Base.Results.{bind_ok}
use snapemu_workflow.Base.Bytes.{le16}
use snapemu_workflow.Sensor.{
  ValueType, array, DecodeData, DecodeError, DecodeDataDecoded, value_type, read_le, read_byte,
  read_value, item_step, decode_items, decode_status, decode_pins, decode_io, decode_body,
  record_step, up_data_decode, nothing_decoded, sensor_id_not_found, data_length_not_found,
  data_length_too_much,
}

value_type-ne-panic : (x : ℕ) → value_type x ≢ panic
unfolding value_type
value_type-ne-panic x e = ground arith

value_type-eq-array : (x : ℕ) → value_type x ≡ ok array → x ≡ 0
unfolding value_type
value_type-eq-array x e = ground arith

-- The last byte of a body has the low four bits of an array's type byte, and no length byte is behind it.
abbrev EndsOpen : List ℕ → ℕ → Type 0
EndsOpen bytes n = (p : ℕ) × (b : ℕ) × (get_elem? bytes p ≡ some b) × (b % 16 ≡ 0) × (p + 1 ≡ n)

module _ (bytes : List ℕ) (n : ℕ) (whole : n ≡ length bytes) where
  read_value-eq-panic :
      (ty : ValueType) (p : ℕ) → read_value bytes n ty p ≡ panic → (ty ≡ array) × (p ≡ n)
  unfolding read_value read_le read_byte
  read_value-eq-panic array p e = (refl, grind (arith, index-eq-panic, slice-eq-panic))
  read_value-eq-panic _ p e = absurd (grind (arith, index-eq-panic, slice-eq-panic))

  item_step_reads :
      (id : ℕ) (s : ℕ × List DecodeData) → item_step bytes n id s ≡ panic → s.0 < length bytes
  unfolding item_step
  item_step_reads id (p, items) e = ground arith

  item_step_open :
      (id : ℕ) (s : ℕ × List DecodeData) (b : ℕ)
      → index {E = DecodeError} bytes s.0 ≡ ok b
      → item_step bytes n id s ≡ panic
      → (b % 16 ≡ 0) × (s.0 + 1 ≡ n)
  unfolding item_step
  item_step_open id (p, items) b i e =
      grind (arith, value_type-ne-panic, value_type-eq-array, read_value-eq-panic)

  decode_items-eq-panic :
      (id : ℕ) (items : List DecodeData) → decode_items bytes n id items ≡ panic → EndsOpen bytes n
  unfolding decode_items
  decode_items-eq-panic id items e =
      let (s, _, q) =
        loop-eq-panic (λ s. Unit) (item_step bytes n id) (λ s t h k. tt) (n + 1) (0, items) tt e in
      let (b, i, g) = index_lt {E = DecodeError} bytes s.0 (item_step_reads id s q) in
      let (z, l) = item_step_open id s b i q in (s.0, b, g, z, l)

  decode_status-ne-panic : (r : DecodeDataDecoded) → decode_status bytes n r ≢ panic
  unfolding decode_status
  decode_status-ne-panic r e = grind (arith, index-eq-panic)

  decode_pins-ne-panic :
      (num : ℕ) (r : DecodeDataDecoded) → n ≡ 11 → decode_pins bytes num r ≢ panic
  unfolding decode_pins
  decode_pins-ne-panic num r h e = grind (arith, index-eq-panic)

  decode_io-ne-panic : (r : DecodeDataDecoded) → decode_io bytes n r ≢ panic
  unfolding decode_io
  decode_io-ne-panic r e = grind (arith, index-eq-panic, decode_pins-ne-panic)

  body_panic_in_items :
      (id : ℕ) (r : DecodeDataDecoded)
      → decode_body id bytes n r ≡ panic
      → (id ≢ 0) × (id ≢ 7) × (decode_items bytes n id r.items ≡ panic)
  unfolding decode_body
  body_panic_in_items id r e = (
    λ z. ground (arith, decode_status-ne-panic r),
    λ z. ground (arith, decode_io-ne-panic r),
    ground (arith, decode_status-ne-panic r, decode_io-ne-panic r),
  )

  decode_body-eq-panic :
      (id : ℕ) (r : DecodeDataDecoded)
      → decode_body id bytes n r ≡ panic
      → (id ≢ 0) × (id ≢ 7) × EndsOpen bytes n
  decode_body-eq-panic id r e =
      let (a, b, q) = body_panic_in_items id r e in (a, b, decode_items-eq-panic id r.items q)

-- The places where the records of a payload begin: the first at 0, each other behind the header of three bytes and
-- the body of the one before it.
pub data Starts (bytes : List ℕ) : ℕ → Type 0 where
  first : Starts bytes 0
  behind :
      (c n : ℕ)
      → Starts bytes c
      → get_elem? bytes (c + 2) ≡ some n
      → c + 3 + n ≤ length bytes
      → Starts bytes (c + 3 + n)

-- The record at `c` is of a sensor with items, it has a body, and the last byte of this has the low four bits of an
-- array's type byte.
pub record IsOpenRecord (bytes : List ℕ) (c : ℕ) : Type 0 where
  pub lo : ℕ
  pub hi : ℕ
  pub n : ℕ
  pub b : ℕ
  pub lo_at : get_elem? bytes c ≡ some lo
  pub hi_at : get_elem? bytes (c + 1) ≡ some hi
  pub n_at : get_elem? bytes (c + 2) ≡ some n
  pub starts : Starts bytes c
  pub not_empty : 0 < n
  pub inside : c + 3 + n ≤ length bytes
  pub not_status : le16 lo hi ≢ 0
  pub not_io : le16 lo hi ≢ 7
  pub last_at : get_elem? bytes (c + 2 + n) ≡ some b
  pub opens_array : b % 16 ≡ 0

module _ (bytes : List ℕ) where
  record_step_reads :
      (s : ℕ × DecodeDataDecoded) → record_step bytes s ≡ panic → s.0 + 3 < length bytes
  unfolding record_step
  record_step_reads (c, r) e = grind (arith, index-eq-panic)

  record_step_body :
      (s : ℕ × DecodeDataDecoded) (lo hi n : ℕ)
      → index {E = DecodeError} bytes s.0 ≡ ok lo
      → index {E = DecodeError} bytes (s.0 + 1) ≡ ok hi
      → index {E = DecodeError} bytes (s.0 + 2) ≡ ok n
      → record_step bytes s ≡ panic
      → (s.0 + 3 + n ≤ length bytes)
        × (decode_body (le16 lo hi) (take (s.0 + 3 + n - (s.0 + 3)) (drop (s.0 + 3) bytes)) n s.1
            ≡ panic)
  unfolding record_step
  record_step_body (c, r) lo hi n i j k e =
      ground (arith, slice_lt {E = DecodeError} bytes (c + 3) (c + 3 + n))

  body_at :
      (c n p : ℕ) {b : ℕ}
      → get_elem? (take (c + 3 + n - (c + 3)) (drop (c + 3) bytes)) p ≡ some b
      → p + 1 ≡ n
      → get_elem? bytes (c + 2 + n) ≡ some b
  body_at c n p h e =
      let same : c + 3 + p ≡ c + 2 + n = omega arith in
      rw (← same, ← get_elem?-drop (c + 3) bytes p)
        (get_elem?-take (c + 3 + n - (c + 3)) (drop (c + 3) bytes) p _ h)

  length-body :
      (c n : ℕ)
      → c + 3 + n ≤ length bytes
      → n ≡ length (take (c + 3 + n - (c + 3)) (drop (c + 3) bytes))
  length-body c n h = omega (
    arith,
    length-take_le (c + 3 + n - (c + 3)) (drop (c + 3) bytes)
        (omega (arith, length-drop (c + 3) bytes)),
  )

  record_step_starts :
      (s t : ℕ × DecodeDataDecoded)
      → Starts bytes s.0
      → record_step bytes s ≡ ok (again t)
      → Starts bytes t.0
  unfolding record_step
  record_step_starts (c, r) (d, q) starts e = elim (Bool-cases (c == length bytes)) [
    | inl over ↦ absurd (let f = rw over at e in cc)
    | inr more ↦
        let (u1, h1, e1) =
          bind_ok (ensure (ltb (c + 2) (length bytes)) sensor_id_not_found) _ (again (d, q))
            (rw more at e) in
        let (lo, h2, e2) = bind_ok (index bytes c) _ (again (d, q)) e1 in
        let (hi, h3, e3) = bind_ok (index bytes (c + 1)) _ (again (d, q)) e2 in
        let (u4, h4, e4) =
          bind_ok (ensure (ltb (c + 3) (length bytes)) data_length_not_found) _ (again (d, q)) e3 in
        let (n, h5, e5) = bind_ok (index bytes (c + 2)) _ (again (d, q)) e4 in
        let (u6, h6, e6) =
          bind_ok (ensure (leb (c + 3 + n) (length bytes)) data_length_too_much) _ (again (d, q))
            e5 in
        let (body, h7, e7) = bind_ok (slice bytes (c + 3) (c + 3 + n)) _ (again (d, q)) e6 in
        let (r', h8, e8) = bind_ok (decode_body (le16 lo hi) body n r) _ (again (d, q)) e7 in
        let inside = passed (c + 3 + n) (length bytes) h6 in
        let (m, i, at) = index_lt {E = DecodeError} bytes (c + 2) (omega arith) in
        let same_n = same_index (index bytes (c + 2)) m n i h5 in
        let moved = same_place (c + 3 + n) d r' q e8 in
        rw (← moved) (behind c n starts (rw (← same_n) at) inside)
  ]
    where
      same_index : (o : Outcome DecodeError ℕ) (m n : ℕ) → o ≡ ok m → o ≡ ok n → m ≡ n
      same_index o m n a b = cc

      same_place :
          (a b : ℕ) (x y : DecodeDataDecoded)
          → ◌≡◌ {A = Outcome DecodeError (Flow (ℕ × DecodeDataDecoded) DecodeDataDecoded)}
              (ok (again (a, x)))
              (ok (again (b, y)))
          → a ≡ b
      same_place a b x y e = cc

      passed : (a b : ℕ) {u : Unit} → ensure (leb a b) data_length_too_much ≡ ok u → a ≤ b
      passed a b e = ground arith

  record_step-eq-panic :
      (s : ℕ × DecodeDataDecoded)
      → Starts bytes s.0
      → record_step bytes s ≡ panic
      → IsOpenRecord bytes s.0
  record_step-eq-panic (c, r) starts e =
      let fits = record_step_reads (c, r) e in
      let (lo, i, il) = index_lt {E = DecodeError} bytes c (omega arith) in
      let (hi, j, jl) = index_lt {E = DecodeError} bytes (c + 1) (omega arith) in
      let (n, k, kl) = index_lt {E = DecodeError} bytes (c + 2) (omega arith) in
      let (inside, q) = record_step_body (c, r) lo hi n i j k e in
      let (ns, ni, (p, b, g, z, l)) =
        decode_body-eq-panic _ n (length-body c n inside) (le16 lo hi) r q in
      record {
        lo = lo;
        hi = hi;
        n = n;
        b = b;
        lo_at = il;
        hi_at = jl;
        n_at = kl;
        starts = starts;
        not_empty = omega arith;
        inside = inside;
        not_status = ns;
        not_io = ni;
        last_at = body_at c n p g l;
        opens_array = z;
      }

-- A payload on which the decoder panics has a record, where one begins behind the records before it, of a sensor other
-- than the battery and the pins and with a body, and the last byte of its body has the low four bits of an array.
pub up_data_decode-eq-panic :
    (bytes : List ℕ) → up_data_decode bytes ≡ panic → (c : ℕ) × IsOpenRecord bytes c
unfolding up_data_decode
up_data_decode-eq-panic bytes e =
    let ((c, r), starts, q) =
      loop-eq-panic (λ s. Starts bytes s.0) (record_step bytes) (record_step_starts bytes)
        (length bytes + 1) (0, nothing_decoded) first e in
    (c, record_step-eq-panic bytes (c, r) starts q)
