-- ===== src/Snap/Parse.antt =====
-- What `UpData::new` (devices_manager/src/protocol/snap/payload.rs) makes of a frame: header, length
-- field in one of three forms, payload, four bytes of MIC.
use snapemu_workflow.Base.{
  ℕ, ◌+◌, ◌-◌, ◌/◌, ◌%◌, ◌^◌, ◌<◌, ◌≡◌, sym, ◌∙◌, ap, true, List, [], ◌∷◌, ◌++◌, length,
  length-append, arith, ok, index, slice, slice_from, slice-append_length, slice_from_le,
  drop-append_length, slice_lt, drop,
}
use mathlib.Core.List.{append_assoc}
use snapemu_workflow.Base.Bytes.{le16, from_be_bytes}
use snapemu_workflow.Ids.{eui_from_be_bytes}
use snapemu_workflow.Snap.{
  CustomError, check_version, get_data_start, start_by_marker, UpData, up_data_new,
}

-- The three forms of the length field.
pub data Form : Type 0 where
  short medium long : Form

-- The payload lengths that a form can say; a frame is shorter than 2 ^ 32 bytes.
abbrev pub Fits : Form → ℕ → Type 0
Fits short n = n < 253
Fits medium n = n < 2 ^ 16
Fits long n = n < 2 ^ 32 - 23

abbrev pub length_field : Form → ℕ → List ℕ
length_field short n = n ∷ []
length_field medium n = 253 ∷ n % 256 ∷ n / 256 % 256 ∷ []
length_field long n = 254 ∷ n % 256 ∷ n / 2 ^ 8 % 256 ∷ n / 2 ^ 16 % 256 ∷ n / 2 ^ 24 % 256 ∷ []

abbrev pub start_of : Form → ℕ
start_of short = 15
start_of medium = 17
start_of long = 19

-- The payload and the MIC of a buffer, whatever stands before them.
pub tail_parts :
    (pre payload mic : List ℕ)
    → length mic ≡ 4
    → (slice {E = CustomError}
          (pre ++ (payload ++ mic))
          (length pre)
          (length (pre ++ (payload ++ mic)) - 4)
        ≡ ok payload)
      × (slice_from {E = CustomError}
            (pre ++ (payload ++ mic))
            (length (pre ++ (payload ++ mic)) - 4)
          ≡ ok mic)
tail_parts pre payload mic h = (
  rw mid (slice-append_length pre payload mic),
  rw end (
      slice_from_le (pre ++ (payload ++ mic)) (length (pre ++ payload))
        (omega (arith, sizes, length-append {0} pre payload))
      ∙ ap ok (
          ap (drop (length (pre ++ payload))) (sym (append_assoc pre payload mic))
          ∙ drop-append_length (pre ++ payload) mic)),
)
  where
    sizes : length (pre ++ (payload ++ mic)) ≡ length pre + length payload + 4
    sizes = omega (arith, length-append {0} pre (payload ++ mic), length-append {0} payload mic)

    mid : length (pre ++ (payload ++ mic)) - 4 ≡ length pre + length payload
    mid = omega (arith, sizes)

    end : length (pre ++ (payload ++ mic)) - 4 ≡ length (pre ++ payload)
    end = omega (arith, sizes, length-append {0} pre payload)

module _ (b1 b2 b3 b4 b5 b6 b7 b8 p_type port option c0 c1 : ℕ) where
  -- All that stands before the payload.
  abbrev pub head : Form → ℕ → List ℕ
  head form n =
      1
      ∷ b1
      ∷ b2
      ∷ b3
      ∷ b4
      ∷ b5
      ∷ b6
      ∷ b7
      ∷ b8
      ∷ p_type
      ∷ port
      ∷ option
      ∷ c0
      ∷ c1
      ∷ length_field form n

  abbrev pub frame : Form → List ℕ → List ℕ → List ℕ
  frame form payload mic = head form (length payload) ++ (payload ++ mic)

  pub length-frame :
      (form : Form) (payload mic : List ℕ)
      → length mic ≡ 4
      → length (frame form payload mic) ≡ start_of form + length payload + 4
  length-frame short payload mic h = omega (arith, length-append {0} payload mic)
  length-frame medium payload mic h = omega (arith, length-append {0} payload mic)
  length-frame long payload mic h = omega (arith, length-append {0} payload mic)

  start_by_marker-frame :
      (form : Form) (payload mic : List ℕ) (m : ℕ)
      → Fits form (length payload)
      → length mic ≡ 4
      → index {E = CustomError} (frame form payload mic) 14 ≡ ok m
      → start_by_marker (frame form payload mic) (start_of form + length payload + 4) m
        ≡ ok (start_of form)
  unfolding start_by_marker index
  start_by_marker-frame short payload mic m fits h e = ground arith
  start_by_marker-frame medium payload mic m fits h e = ground arith
  start_by_marker-frame long payload mic m fits h e = ground arith

  get_data_start-frame :
      (form : Form) (payload mic : List ℕ)
      → Fits form (length payload)
      → length mic ≡ 4
      → get_data_start (frame form payload mic) ≡ ok (start_of form)
  unfolding get_data_start check_version index
  get_data_start-frame short payload mic fits h = ground (
    arith,
    length-frame short payload mic h,
    start_by_marker-frame short payload mic (length payload) fits h,
  )
  get_data_start-frame medium payload mic fits h = ground (
    arith,
    length-frame medium payload mic h,
    start_by_marker-frame medium payload mic 253 fits h,
  )
  get_data_start-frame long payload mic fits h =
      ground
        (arith, length-frame long payload mic h, start_by_marker-frame long payload mic 254 fits h)

  parts :
      (form : Form) (payload mic : List ℕ)
      → length mic ≡ 4
      → (slice {E = CustomError}
            (frame form payload mic)
            (start_of form)
            (length (frame form payload mic) - 4)
          ≡ ok payload)
        × (slice_from {E = CustomError}
              (frame form payload mic)
              (length (frame form payload mic) - 4)
            ≡ ok mic)
  parts short payload mic h = tail_parts (head short (length payload)) payload mic h
  parts medium payload mic h = tail_parts (head medium (length payload)) payload mic h
  parts long payload mic h = tail_parts (head long (length payload)) payload mic h

  pub front :
      (form : Form) (payload mic : List ℕ)
      → slice {E = CustomError} (frame form payload mic) 1 9
        ≡ ok (b1 ∷ b2 ∷ b3 ∷ b4 ∷ b5 ∷ b6 ∷ b7 ∷ b8 ∷ [])
  front form payload mic = slice_lt (frame form payload mic) 1 9 (omega arith) (omega arith)

  abbrev pub parsed : Form → List ℕ → List ℕ → UpData
  parsed form payload mic = record {
    eui = from_be_bytes (b1 ∷ b2 ∷ b3 ∷ b4 ∷ b5 ∷ b6 ∷ b7 ∷ b8 ∷ []);
    enc = true;
    p_type = p_type;
    port = port;
    option = option;
    count = le16 c0 c1;
    payload_start = start_of form;
    payload = payload;
    bytes = frame form payload mic;
    mic = mic;
  }

  pub up_data_new-frame :
      (form : Form) (payload mic : List ℕ)
      → Fits form (length payload)
      → length mic ≡ 4
      → up_data_new (frame form payload mic) ≡ ok (parsed form payload mic)
  unfolding up_data_new index eui_from_be_bytes
  up_data_new-frame short payload mic fits h =
      let (p, m) = parts short payload mic h in
      ground (
        arith,
        get_data_start-frame short payload mic fits h,
        p,
        m,
        front short payload mic,
        length-frame short payload mic h,
      )
  up_data_new-frame medium payload mic fits h =
      let (p, m) = parts medium payload mic h in
      ground (
        arith,
        get_data_start-frame medium payload mic fits h,
        p,
        m,
        front medium payload mic,
        length-frame medium payload mic h,
      )
  up_data_new-frame long payload mic fits h =
      let (p, m) = parts long payload mic h in
      ground (
        arith,
        get_data_start-frame long payload mic fits h,
        p,
        m,
        front long payload mic,
        length-frame long payload mic h,
      )
