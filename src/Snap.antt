-- ===== src/Snap.antt =====
-- The frames of the vendor's own radio protocol (devices_manager/src/protocol/snap/payload.rs). The
-- AES stream cipher, the CMAC and base64 are parameters; their keys are lists of bytes.
pub mod Parse
pub mod Downlink
pub mod LongDownlink
pub mod Uplink
pub mod Wrap
mod Tests
use snapemu_workflow.Base.{
  ℕ, zero, suc, ◌+◌, ◌-◌, ◌*◌, ◌/◌, ◌%◌, ◌^◌, ◌≡◌, Bool, true, false, Option, none, some, List, [],
  ◌∷◌, ◌++◌, length, ltb, leb, ◌==◌, ◌&&◌, if◌then◌else◌, Outcome, ok, err, panic, ◌>>=◌, ◌>>◌,
  ensure, ok_or, or_panic, index, slice, slice_from, take, drop, replicate,
}
use snapemu_workflow.Base.Bytes.{le16, low_byte, from_be_bytes, to_be_bytes, to_le_bytes}
use Prim.Native.Nat.{bit_and, bit_or}
use snapemu_workflow.Ids.{eui_from_be_bytes, eui_to_bytes, eui_to_be_bytes}

pub data CustomError : Type 0 where
  key_length mic_mismatch : CustomError
  too_short unsupported_version length_mismatch eui_not_found too_long : CustomError

unfoldable pub check_version : ℕ → Bool
check_version version = version == 1

unfoldable pub is_uplink : ℕ → Bool
is_uplink uplink = uplink == 0

unfoldable pub is_downlink : ℕ → Bool
is_downlink downlink = downlink == 1

-- The arms of `match payload_len`, on the frame and its length.
unfoldable pub start_by_marker : List ℕ → ℕ → ℕ → Outcome CustomError ℕ
start_by_marker bytes len payload_len =
    if ltb payload_len 253
    then (if 18 + 1 + payload_len == len then ok 15 else err length_mismatch)
    else if payload_len == 253
    then (index bytes 15 >>= λ b15. index bytes 16 >>= λ b16.
        if 18 + 3 + le16 b15 b16 == len then ok 17 else err length_mismatch)
    else if payload_len == 254
    then (index bytes 15 >>= λ b15. index bytes 16 >>= λ b16. index bytes 17 >>= λ b17.
        index bytes 18 >>= λ b18.
        if (18 + 5 + (b15 + b16 * 2 ^ 8 + b17 * 2 ^ 16 + b18 * 2 ^ 24)) % 2 ^ 32 == len
        then ok 19
        else err length_mismatch)
    else err length_mismatch

-- Where the payload begins. The sums are of type u32.
unfoldable pub get_data_start : List ℕ → Outcome CustomError ℕ
get_data_start bytes = do
  let len = length bytes % 2 ^ 32
  ensure (leb 19 len) too_short
  version ← index bytes 0
  ensure (check_version version) unsupported_version
  payload_len ← index bytes 14
  start_by_marker bytes len payload_len

pub record UpData : Type 0 where
  pub eui : ℕ
  pub enc : Bool
  pub p_type : ℕ
  pub port : ℕ
  pub option : ℕ
  pub count : ℕ
  pub payload_start : ℕ
  pub payload : List ℕ
  pub bytes : List ℕ
  pub mic : List ℕ

-- `Vec::with_capacity(end - start)`: below zero the difference, or the capacity it wraps to, panics.
abbrev pub reserve : ℕ → ℕ → Outcome CustomError (Unit {0})
reserve end start = if leb start end then ok tt else panic

unfoldable pub up_data_new : List ℕ → Outcome CustomError UpData
up_data_new bytes = do
  payload_start ← get_data_start bytes
  s ← slice bytes 1 9
  eui ← ok_or (eui_from_be_bytes s) eui_not_found
  p_type ← index bytes 9
  port ← index bytes 10
  option ← index bytes 11
  b12 ← index bytes 12
  b13 ← index bytes 13
  let payload_end = length bytes - 4
  reserve payload_end payload_start
  payload ← slice bytes payload_start payload_end
  mic ← slice_from bytes payload_end
  ok (record {
    eui = eui;
    enc = true;
    p_type = p_type;
    port = port;
    option = option;
    count = le16 b12 b13;
    payload_start = payload_start;
    payload = payload;
    bytes = bytes;
    mic = mic;
  })

-- `option & UP_ACK == UP_ACK`
unfoldable pub up_data_ack : UpData → Bool
up_data_ack u = bit_and u.option 0x80 == 0x80

-- The values of type `Key` and the crates `ctr`, `cmac` and `base64`.
pub record Crypto : Type 0 where
  -- `Ctr128BE::<Aes128>::new(key, iv).apply_keystream(data)`
  pub apply_keystream : List ℕ → List ℕ → List ℕ → List ℕ
  -- `Cmac::<Aes128>`: `none` where the key has not the length of an AES key.
  pub cmac : List ℕ → List ℕ → Option (List ℕ)
  pub base64 : List ℕ → List ℕ
  -- A stream cipher keeps the length, and applied twice it gives the data back.
  pub length-apply : (key iv d : List ℕ) → length (apply_keystream key iv d) ≡ length d
  pub apply_twice : (key iv d : List ℕ) → apply_keystream key iv (apply_keystream key iv d) ≡ d
  -- A key of sixteen bytes is accepted, and a MAC has sixteen bytes.
  pub key_accepted : (key d : List ℕ) → length key ≡ 16 → (m : List ℕ) × (cmac key d ≡ some m)
  pub length-cmac : (key d m : List ℕ) → cmac key d ≡ some m → length m ≡ 16

-- The block of sixteen bytes that is put before the data of a MAC, and the initial value of a cipher.
abbrev pub header_block : List ℕ → ℕ → ℕ → ℕ → ℕ → ℕ → List ℕ
header_block eui count_lo count_hi len b14 b15 =
    eui ++ (count_lo ∷ count_hi ∷ 0 ∷ 0 ∷ low_byte len ∷ low_byte (len / 2 ^ 8) ∷ b14 ∷ b15 ∷ [])

module _ (c : Crypto) where
  -- `UpData::check_mic`
  unfoldable pub check_mic : UpData → List ℕ → Outcome CustomError Bool
  check_mic u key = do
    let len = length u.bytes - 4
    eui ← slice u.bytes 1 9
    b12 ← index u.bytes 12
    b13 ← index u.bytes 13
    covered ← slice u.bytes 0 len
    buf ← ok_or (c.cmac key (header_block eui b12 b13 len 0 1 ++ covered)) key_length
    x0 ← index buf 0
    x1 ← index buf 1
    x2 ← index buf 2
    x3 ← index buf 3
    y0 ← index u.mic 0
    y1 ← index u.mic 1
    y2 ← index u.mic 2
    y3 ← index u.mic 3
    ok (x0 == y0 && (x1 == y1 && (x2 == y2 && x3 == y3)))

  -- `UpData::decode_payload`: the payload is replaced by its plain text.
  unfoldable pub decode_payload : UpData → List ℕ → Outcome CustomError UpData
  decode_payload u key = do
    good ← check_mic u key
    ensure good mic_mismatch
    eui ← slice u.bytes 1 9
    b12 ← index u.bytes 12
    b13 ← index u.bytes 13
    let iv = header_block eui b12 b13 (length u.payload) 1 0
    ok (record u { payload = c.apply_keystream key iv u.payload })

-- `DownloadData` of the same file.
pub record DownloadData : Type 0 where
  pub eui : ℕ
  pub port : ℕ
  pub option : ℕ
  pub count : ℕ

unfoldable pub new_with_eui : ℕ → DownloadData
new_with_eui eui = record { eui = eui; port = 0; option = 0; count = 0 }

unfoldable pub set_ack : DownloadData → DownloadData
set_ack d = record d { option = bit_or d.option 0x40 }

unfoldable pub set_eui : ℕ → DownloadData → DownloadData
set_eui eui d = record d { eui = eui }

unfoldable pub set_counter : ℕ → DownloadData → DownloadData
set_counter count d = record d { count = count }

unfoldable pub set_port : ℕ → DownloadData → DownloadData
set_port port d = record d { port = port }

-- `match payload_len`: the sizes of the header, its length field and the MIC.
unfoldable pub header_and_mic_len : ℕ → Outcome CustomError ℕ
header_and_mic_len payload_len =
    if ltb payload_len 253
    then ok 19
    else if payload_len == 253
    then ok 21
    else if payload_len == 254
    then ok 23
    else err too_long

-- The length field.
unfoldable pub length_bytes : ℕ → ℕ → List ℕ
length_bytes header payload_len =
    (if header == 19 then low_byte payload_len ∷ [] else [])
    ++ ((if header == 21 then low_byte payload_len ∷ low_byte (payload_len / 2 ^ 8) ∷ [] else [])
        ++ (if header == 23
            then low_byte payload_len
              ∷ low_byte (payload_len / 2 ^ 8)
              ∷ low_byte (payload_len / 2 ^ 16)
              ∷ low_byte (payload_len / 2 ^ 24)
              ∷ []
            else []))

-- The buffer when the payload has been copied into it.
unfoldable pub plain_frame : DownloadData → ℕ → List ℕ → List ℕ
plain_frame d header payload =
    1 ∷ eui_to_be_bytes d.eui
    ++ (1
        ∷ d.port
        ∷ d.option
        ∷ low_byte d.count
        ∷ low_byte (d.count / 2 ^ 8)
        ∷ (length_bytes header (length payload) ++ payload))

module _ (c : Crypto) where
  -- `DownloadData::encode`, on the bytes that it is given.
  unfoldable pub encode : DownloadData → List ℕ → List ℕ → List ℕ
  encode d payload key =
      c.apply_keystream key
        (header_block (eui_to_bytes d.eui) (low_byte d.count) (low_byte (d.count / 2 ^ 8))
          (length payload) 0 0)
        payload

  -- `DownloadData::mic`
  unfoldable pub mic_of : List ℕ → List ℕ → Outcome CustomError (List ℕ)
  mic_of bytes key = do
    eui ← slice bytes 1 9
    b12 ← index bytes 12
    b13 ← index bytes 13
    result ← ok_or (c.cmac key (header_block eui b12 b13 (length bytes) 0 0 ++ bytes)) key_length
    slice result 0 4

  -- The frame of `encode_payload` before base64.
  unfoldable pub encode_frame : DownloadData → List ℕ → List ℕ → Outcome CustomError (List ℕ)
  encode_frame d payload key = do
    header ← header_and_mic_len (length payload)
    let buf = plain_frame d header payload
    rest ← slice_from buf (header - 4)
    let buf' = take (header - 4) buf ++ encode d rest key
    mic ← mic_of buf' key
    ok (buf' ++ mic)

  unfoldable pub encode_payload : DownloadData → List ℕ → List ℕ → Outcome CustomError (List ℕ)
  encode_payload d payload key = do frame ← encode_frame d payload key; ok (c.base64 frame)
