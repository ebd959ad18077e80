-- ===== src/Snap/LongDownlink.antt =====
-- The two longest payloads of `DownloadData::encode_payload`
-- (devices_manager/src/protocol/snap/payload.rs): the length field is written without its marker, so
-- it is a byte shorter than `header_and_mic_len` says.
use snapemu_workflow.Base.{
  ℕ, ◌/◌, ◌^◌, ◌≡◌, refl, some, List, [], ◌∷◌, ◌++◌, length, length-append, arith, ok, err, index,
  ◌⊎◌, inl, inr, if◌then◌else◌, ◌==◌, ◌>>=◌, slice_from_le, get_elem?,
}
use snapemu_workflow.Base.Bytes.{to_be_bytes, low_byte}
use snapemu_workflow.Ids.{eui_to_be_bytes}
use snapemu_workflow.Snap.{
  CustomError, Crypto, DownloadData, header_and_mic_len, length_bytes, plain_frame, encode, mic_of,
  encode_frame, encode_payload, up_data_new, get_data_start, check_version, start_by_marker,
  length_mismatch,
}
use snapemu_workflow.Snap.Downlink.{Eight, to_eight, mic_of-total, length-encode}

module _ (c : Crypto) (d : DownloadData) (p : ℕ) (rest key : List ℕ)
    (e : Eight (to_be_bytes 8 d.eui)) where
  abbrev start : List ℕ
  start =
      1
      ∷ e.b1
      ∷ e.b2
      ∷ e.b3
      ∷ e.b4
      ∷ e.b5
      ∷ e.b6
      ∷ e.b7
      ∷ e.b8
      ∷ 1
      ∷ d.port
      ∷ d.option
      ∷ low_byte d.count
      ∷ low_byte (d.count / 2 ^ 8)
      ∷ []

  -- What is covered by the MIC: the payload's first byte is not enciphered.
  abbrev body_253 : List ℕ
  body_253 = start ++ (253 ∷ 0 ∷ p ∷ encode c d rest key)

  abbrev body_254 : List ℕ
  body_254 = start ++ (254 ∷ 0 ∷ 0 ∷ 0 ∷ p ∷ encode c d rest key)

  plain_frame-253 : length rest ≡ 252 → plain_frame d 21 (p ∷ rest) ≡ start ++ (253 ∷ 0 ∷ p ∷ rest)
  unfolding plain_frame length_bytes eui_to_be_bytes
  plain_frame-253 h = rw (e.all, h) refl

  plain_frame-254 :
      length rest ≡ 253 → plain_frame d 23 (p ∷ rest) ≡ start ++ (254 ∷ 0 ∷ 0 ∷ 0 ∷ p ∷ rest)
  unfolding plain_frame length_bytes eui_to_be_bytes
  plain_frame-254 h = rw (e.all, h) refl

  encode_frame-253 :
      length rest ≡ 252
      → encode_frame c d (p ∷ rest) key ≡ (mic_of c body_253 key >>= λ mic. ok (body_253 ++ mic))
  unfolding encode_frame header_and_mic_len
  encode_frame-253 h =
      rw (h, plain_frame-253 h)
        (rw (slice_from_le {E = CustomError} (start ++ (253 ∷ 0 ∷ p ∷ rest)) 17 (omega arith)) refl)

  encode_frame-254 :
      length rest ≡ 253
      → encode_frame c d (p ∷ rest) key ≡ (mic_of c body_254 key >>= λ mic. ok (body_254 ++ mic))
  unfolding encode_frame header_and_mic_len
  encode_frame-254 h =
      rw (h, plain_frame-254 h)
        (rw
          (slice_from_le {E = CustomError} (start ++ (254 ∷ 0 ∷ 0 ∷ 0 ∷ p ∷ rest)) 19 (omega arith))
          refl)

  rejected_253 :
      (mic : List ℕ)
      → length rest ≡ 252
      → length mic ≡ 4
      → up_data_new (body_253 ++ mic) ≡ err length_mismatch
  unfolding up_data_new get_data_start check_version start_by_marker index
  rejected_253 mic h l =
      ground (arith, length-append (encode c d rest key) mic, length-encode c d rest key)

  rejected_254 :
      (mic : List ℕ)
      → length rest ≡ 253
      → length mic ≡ 4
      → up_data_new (body_254 ++ mic) ≡ err length_mismatch
  unfolding up_data_new get_data_start check_version start_by_marker index
  rejected_254 mic h l =
      ground (arith, length-append (encode c d rest key) mic, length-encode c d rest key)

-- With a key of sixteen bytes, a payload of 253 or of 254 bytes makes a frame that `UpData::new`
-- refuses as of the wrong length, and the payload's first byte stands in it in the clear.
pub long_frame_broken :
    (c : Crypto) (d : DownloadData) (p : ℕ) (rest key : List ℕ)
    → length key ≡ 16
    → (length rest ≡ 252) ⊎ (length rest ≡ 253)
    → (f : List ℕ) × (encode_payload c d (p ∷ rest) key ≡ ok (c.base64 f))
      × (up_data_new f ≡ err length_mismatch)
      × (get_elem? f (if length rest == 252 then 16 else 18) ≡ some p)
unfolding encode_payload
long_frame_broken c d p rest key k (inl h) =
    let e = to_eight d.eui in
    let body = body_253 c d p rest key e in
    let (mic, q, l) = mic_of-total c body key (omega arith) k in
    (
      body ++ mic,
      rw (encode_frame-253 c d p rest key e h, q) refl,
      rejected_253 c d p rest key e mic h l,
      rw h refl,
    )
long_frame_broken c d p rest key k (inr h) =
    let e = to_eight d.eui in
    let body = body_254 c d p rest key e in
    let (mic, q, l) = mic_of-total c body key (omega arith) k in
    (
      body ++ mic,
      rw (encode_frame-254 c d p rest key e h, q) refl,
      rejected_254 c d p rest key e mic h l,
      rw h refl,
    )
