-- ===== src/Snap/Downlink.antt =====
-- The frames that `DownloadData::encode_payload` (devices_manager/src/protocol/snap/payload.rs) makes.
use snapemu_workflow.Base.{
  ℕ, ◌/◌, ◌%◌, ◌^◌, ◌≤◌, ◌<◌, ◌≡◌, refl, sym, ◌∙◌, ap, true, List, [], ◌∷◌, ◌++◌, length,
  length-append, arith, lt→ltb, ◌>>=◌, ok, slice_from_le, take, drop, slice_lt, index_lt,
  length-take_le,
}
use mathlib.Core.List.{append_assoc}
use snapemu_workflow.Base.Bytes.{
  le16, low_byte, from_be_bytes, to_be_bytes, to_le_bytes, from_be_bytes-to_be_bytes,
}
use mathlib.Core.Path.{ap₂}
use snapemu_workflow.Ids.{eui_to_be_bytes, eui_to_bytes}
use snapemu_workflow.Snap.{
  CustomError, UpData, up_data_new, Crypto, DownloadData, header_and_mic_len, length_bytes,
  plain_frame, encode, mic_of, encode_frame, encode_payload, header_block,
}
use snapemu_workflow.Snap.Parse.{short, head, frame, up_data_new-frame}

-- A list of eight is its elements.
pub record Eight (bs : List ℕ) : Type 0 where
  pub b1 : ℕ
  pub b2 : ℕ
  pub b3 : ℕ
  pub b4 : ℕ
  pub b5 : ℕ
  pub b6 : ℕ
  pub b7 : ℕ
  pub b8 : ℕ
  pub all : bs ≡ b1 ∷ b2 ∷ b3 ∷ b4 ∷ b5 ∷ b6 ∷ b7 ∷ b8 ∷ []

pub to_eight : (x : ℕ) → Eight (to_be_bytes 8 x)
unfolding to_be_bytes
to_eight x =
    unfold to_le_bytes in
    record { b1 = _; b2 = _; b3 = _; b4 = _; b5 = _; b6 = _; b7 = _; b8 = _; all = refl }

pub record IsDownload (d : DownloadData) : Type 0 where
  pub eui_lt : d.eui < 256 ^ 8
  pub count_lt : d.count < 2 ^ 16

module _ (c : Crypto) where
  -- With a key of sixteen bytes every buffer that has a header gets a MIC of four bytes.
  pub mic_of-total :
      (bytes key : List ℕ)
      → 14 ≤ length bytes
      → length key ≡ 16
      → (mic : List ℕ) × (mic_of c bytes key ≡ ok mic) × (length mic ≡ 4)
  unfolding mic_of
  mic_of-total bytes key h k =
      let eui : List ℕ = take 8 (drop 1 bytes) in
      let (b12, i, _) = index_lt {E = CustomError} bytes 12 (omega arith) in
      let (b13, j, _) = index_lt {E = CustomError} bytes 13 (omega arith) in
      let s = slice_lt {E = CustomError} bytes 1 9 (omega arith) (omega arith) in
      let (m, e) = c.key_accepted key (header_block eui b12 b13 (length bytes) 0 0 ++ bytes) k in
      let size = c.length-cmac key _ m e in
      let t = slice_lt {E = CustomError} m 0 4 (omega arith) (omega arith) in
      (take 4 m, rw (s, i, j, e) t, length-take_le 4 m (omega arith))

  encode_twice :
      (d : DownloadData) (payload key : List ℕ) → encode c d (encode c d payload key) key ≡ payload
  unfolding encode
  encode_twice d payload key =
      let iv = λ (n : ℕ).
        header_block (eui_to_bytes d.eui) (low_byte d.count) (low_byte (d.count / 2 ^ 8)) n 0 0 in
      ap (λ n. c.apply_keystream key (iv n) (c.apply_keystream key (iv (length payload)) payload))
        (c.length-apply key (iv (length payload)) payload)
      ∙ c.apply_twice key (iv (length payload)) payload

  pub length-encode :
      (d : DownloadData) (payload key : List ℕ) → length (encode c d payload key) ≡ length payload
  unfolding encode
  length-encode d payload key = c.length-apply key _ payload

low_byte_small : (n : ℕ) → n < 253 → n % 256 ≡ n
low_byte_small n h = omega arith

count_bytes : (n : ℕ) → n < 2 ^ 16 → le16 (n % 256) (n / 2 ^ 8 % 256) ≡ n
count_bytes n h = omega arith

-- The parts of a short frame, by the bytes of the EUI.
module _ (c : Crypto) (d : DownloadData) (payload key : List ℕ)
    (e : Eight (to_be_bytes 8 d.eui)) where
  abbrev top : ℕ → List ℕ
  top n =
      head e.b1 e.b2 e.b3 e.b4 e.b5 e.b6 e.b7 e.b8 1 d.port d.option (low_byte d.count)
        (low_byte (d.count / 2 ^ 8)) short n

  abbrev enciphered : List ℕ
  enciphered = encode c d payload key

  plain_frame-short :
      length payload < 253 → plain_frame d 19 payload ≡ top (length payload) ++ payload
  unfolding plain_frame length_bytes eui_to_be_bytes
  plain_frame-short h = rw (e.all, low_byte_small (length payload) h) refl

  encode_frame-short :
      length payload < 253
      → encode_frame c d payload key ≡ (
          mic_of c (top (length payload) ++ enciphered) key >>= λ mic.
          ok ((top (length payload) ++ enciphered) ++ mic))
  unfolding encode_frame header_and_mic_len
  encode_frame-short h =
      rw (lt→ltb (length payload) 253 h, plain_frame-short h)
        (rw (slice_from_le {E = CustomError} (top (length payload) ++ payload) 15 (omega arith))
          refl)

  short_frame :
      (mic : List ℕ)
      → (top (length payload) ++ enciphered) ++ mic
        ≡ frame e.b1 e.b2 e.b3 e.b4 e.b5 e.b6 e.b7 e.b8 1 d.port d.option
            (low_byte d.count)
            (low_byte (d.count / 2 ^ 8))
            short
            enciphered
            mic
  short_frame mic =
      append_assoc (top (length payload)) enciphered mic
      ∙ ap (λ n. top n ++ (enciphered ++ mic)) (sym (length-encode c d payload key))

  eui_read :
      IsDownload d
      → from_be_bytes (e.b1 ∷ e.b2 ∷ e.b3 ∷ e.b4 ∷ e.b5 ∷ e.b6 ∷ e.b7 ∷ e.b8 ∷ []) ≡ d.eui
  eui_read good = rw (← e.all) (from_be_bytes-to_be_bytes 8 d.eui good.eui_lt)

  abbrev read_back : List ℕ → List ℕ → UpData
  read_back f mic = record {
    eui = d.eui;
    enc = true;
    p_type = 1;
    port = d.port;
    option = d.option;
    count = d.count;
    payload_start = 15;
    payload = encode c d payload key;
    bytes = f;
    mic = mic;
  }

  parse_short :
      (mic : List ℕ)
      → IsDownload d
      → length payload < 253
      → length mic ≡ 4
      → up_data_new ((top (length payload) ++ enciphered) ++ mic)
        ≡ ok (read_back ((top (length payload) ++ enciphered) ++ mic) mic)
  parse_short mic good h l = rw (short_frame mic) (
      up_data_new-frame e.b1 e.b2 e.b3 e.b4 e.b5 e.b6 e.b7 e.b8 1 d.port d.option (low_byte d.count)
        (low_byte (d.count / 2 ^ 8)) short enciphered mic
        (omega (arith, length-encode c d payload key)) l
      ∙ ap₂
          (λ x n.
            ok
              (record (read_back
                (frame e.b1 e.b2 e.b3 e.b4 e.b5 e.b6 e.b7 e.b8 1 d.port d.option (low_byte d.count)
                  (low_byte (d.count / 2 ^ 8)) short enciphered mic)
                mic) { eui = x; count = n }))
          (eui_read good) (count_bytes d.count good.count_lt))

-- With a key of sixteen bytes, a payload of less than 253 bytes makes a frame that parses: it gives
-- back the EUI, the port, the option, the counter and the payload enciphered, and enciphering that
-- once more gives the payload.
pub up_data_new-encode_frame :
    (c : Crypto) (d : DownloadData) (payload key : List ℕ)
    → IsDownload d
    → length key ≡ 16
    → length payload < 253
    → (f : List ℕ) × (mic : List ℕ) × (encode_payload c d payload key ≡ ok (c.base64 f))
      × (up_data_new f
          ≡ ok (record {
            eui = d.eui;
            enc = true;
            p_type = 1;
            port = d.port;
            option = d.option;
            count = d.count;
            payload_start = 15;
            payload = encode c d payload key;
            bytes = f;
            mic = mic;
          }))
      × (encode c d (encode c d payload key) key ≡ payload)
unfolding encode_payload
up_data_new-encode_frame c d payload key good k h =
    let e = to_eight d.eui in
    let body = top c d payload key e (length payload) ++ encode c d payload key in
    let (mic, q, l) =
      mic_of-total c body key
        (omega (
          arith,
          length-append {0} (top c d payload key e (length payload)) (encode c d payload key),
        ))
        k in
    (
      body ++ mic,
      mic,
      rw (encode_frame-short c d payload key e h, q) refl,
      parse_short c d payload key e mic good h l,
      encode_twice c d payload key,
    )
