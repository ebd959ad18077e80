-- ===== src/Snap/Uplink.antt =====
-- What the server makes of a device's frame: `UpData::new` and `decode_payload`
-- (devices_manager/src/protocol/snap/payload.rs).
use snapemu_workflow.Base.{
  ℕ, ◌-◌, ◌≡◌, ◌≢◌, refl, sym, ◌∙◌, ap, true, false, some, List, [], ◌∷◌, ◌++◌, length,
  length-append, arith, ◌==◌, ◌&&◌, ok, err, ◌>>=◌, index, slice, slice_prefix, take,
}
use mathlib.Core.List.{append_assoc}
use mathlib.Core.Path.{subst}
use snapemu_workflow.Snap.{
  CustomError, mic_mismatch, UpData, up_data_new, Crypto, header_block, check_mic, decode_payload,
}
use snapemu_workflow.Snap.Parse.{Form, Fits, head, parsed, up_data_new-frame, front}

-- The frame of a device: the header `h1` to `c1`, the plain text and the form of its length field.
module _ (c : Crypto) (key : List ℕ) (b1 b2 b3 b4 b5 b6 b7 b8 p_type port option c0 c1 : ℕ)
    (form : Form) (plain : List ℕ) where
  abbrev device : List ℕ
  device = b1 ∷ b2 ∷ b3 ∷ b4 ∷ b5 ∷ b6 ∷ b7 ∷ b8 ∷ []

  abbrev pub cipher_text : List ℕ
  cipher_text = c.apply_keystream key (header_block device c0 c1 (length plain) 1 0) plain

  abbrev pub covered : List ℕ
  covered =
      head b1 b2 b3 b4 b5 b6 b7 b8 p_type port option c0 c1 form (length cipher_text) ++ cipher_text

  abbrev pub mac_input : List ℕ
  mac_input = header_block device c0 c1 (length covered) 0 1 ++ covered

  abbrev received : List ℕ → UpData
  received mic = parsed b1 b2 b3 b4 b5 b6 b7 b8 p_type port option c0 c1 form cipher_text mic

  whole : (mic : List ℕ) → covered ++ mic ≡ (received mic).bytes
  whole mic =
      append_assoc (head b1 b2 b3 b4 b5 b6 b7 b8 p_type port option c0 c1 form (length cipher_text))
        cipher_text mic

  covered_part :
      (mic : List ℕ)
      → length mic ≡ 4
      → (length (received mic).bytes - 4 ≡ length covered)
        × (slice {E = CustomError} (received mic).bytes 0 (length covered) ≡ ok covered)
  covered_part mic h = (
    omega (arith, ap length (sym (whole mic)), length-append {0} covered mic),
    rw (whole mic) at (slice_prefix {E = CustomError} covered mic),
  )

  check_mic-received :
      (y0 y1 y2 y3 x0 x1 x2 x3 : ℕ) (r : List ℕ)
      → c.cmac key mac_input ≡ some (x0 ∷ x1 ∷ x2 ∷ x3 ∷ r)
      → check_mic c (received (y0 ∷ y1 ∷ y2 ∷ y3 ∷ [])) key
        ≡ ok (x0 == y0 && (x1 == y1 && (x2 == y2 && x3 == y3)))
  unfolding check_mic index
  check_mic-received y0 y1 y2 y3 x0 x1 x2 x3 r m =
      let mic : List ℕ = y0 ∷ y1 ∷ y2 ∷ y3 ∷ [] in
      let (size, part) = covered_part mic refl in
      rw (front b1 b2 b3 b4 b5 b6 b7 b8 p_type port option c0 c1 form cipher_text mic, size)
        (rw (part, m) refl)

  deciphered :
      c.apply_keystream key (header_block device c0 c1 (length cipher_text) 1 0) cipher_text ≡ plain
  deciphered =
      ap (λ n. c.apply_keystream key (header_block device c0 c1 n 1 0) cipher_text)
        (c.length-apply key (header_block device c0 c1 (length plain) 1 0) plain)
      ∙ c.apply_twice key (header_block device c0 c1 (length plain) 1 0) plain

  parse_received :
      (mic : List ℕ)
      → Fits form (length plain)
      → length mic ≡ 4
      → up_data_new (covered ++ mic) ≡ ok (received mic)
  parse_received mic fits h =
      let size = c.length-apply key (header_block device c0 c1 (length plain) 1 0) plain in
      ap up_data_new (whole mic)
      ∙ up_data_new-frame b1 b2 b3 b4 b5 b6 b7 b8 p_type port option c0 c1 form cipher_text mic
          (subst (Fits form) (sym size) fits) h

  decode_accepted :
      (mic : List ℕ)
      → check_mic c (received mic) key ≡ ok true
      → decode_payload c (received mic) key ≡ ok (record (received mic) { payload = plain })
  unfolding decode_payload index
  decode_accepted mic good =
      rw (good, front b1 b2 b3 b4 b5 b6 b7 b8 p_type port option c0 c1 form cipher_text mic)
        (ap (λ x. ok (record (received mic) { payload = x })) deciphered)

  decode_refused :
      (mic : List ℕ)
      → check_mic c (received mic) key ≡ ok false
      → decode_payload c (received mic) key ≡ err mic_mismatch
  unfolding decode_payload
  decode_refused mic bad = rw bad

-- The first four bytes of a MAC and a MIC, compared as the code compares them.
same_four :
    (y0 y1 y2 y3 x0 x1 x2 x3 : ℕ)
    → (y0 ∷ y1 ∷ y2 ∷ y3 ∷ []) ≢ (x0 ∷ x1 ∷ x2 ∷ x3 ∷ [])
    → (x0 == y0 && (x1 == y1 && (x2 == y2 && x3 == y3))) ≡ false
same_four y0 y1 y2 y3 x0 x1 x2 x3 h = ground (arith, h)

four_same : (x0 x1 x2 x3 : ℕ) → (x0 == x0 && (x1 == x1 && (x2 == x2 && x3 == x3))) ≡ true
four_same x0 x1 x2 x3 = ground arith

module _ (c : Crypto) (key : List ℕ) (b1 b2 b3 b4 b5 b6 b7 b8 p_type port option c0 c1 : ℕ)
    (form : Form) (plain : List ℕ) where
  abbrev pub sent : List ℕ
  sent = covered c key b1 b2 b3 b4 b5 b6 b7 b8 p_type port option c0 c1 form plain

  abbrev pub mac_of : List ℕ
  mac_of = mac_input c key b1 b2 b3 b4 b5 b6 b7 b8 p_type port option c0 c1 form plain

  abbrev pub delivered : List ℕ → UpData
  delivered = received c key b1 b2 b3 b4 b5 b6 b7 b8 p_type port option c0 c1 form plain

  accept :
      (m : List ℕ)
      → length m ≡ 16
      → c.cmac key mac_of ≡ some m
      → (length (take 4 m) ≡ 4) × (check_mic c (delivered (take 4 m)) key ≡ ok true)
  accept [] l e = absurd (omega arith)
  accept (x0 ∷ []) l e = absurd (omega arith)
  accept (x0 ∷ x1 ∷ []) l e = absurd (omega arith)
  accept (x0 ∷ x1 ∷ x2 ∷ []) l e = absurd (omega arith)
  accept (x0 ∷ x1 ∷ x2 ∷ x3 ∷ r) l e = (
    refl,
    check_mic-received c key b1 b2 b3 b4 b5 b6 b7 b8 p_type port option c0 c1 form plain x0 x1 x2 x3
          x0 x1 x2 x3 r e
        ∙ ap ok (four_same x0 x1 x2 x3),
  )

  refuse :
      (mic m : List ℕ)
      → length mic ≡ 4
      → length m ≡ 16
      → c.cmac key mac_of ≡ some m
      → mic ≢ take 4 m
      → check_mic c (delivered mic) key ≡ ok false
  refuse mic [] k l e d = absurd (omega arith)
  refuse mic (x0 ∷ []) k l e d = absurd (omega arith)
  refuse mic (x0 ∷ x1 ∷ []) k l e d = absurd (omega arith)
  refuse mic (x0 ∷ x1 ∷ x2 ∷ []) k l e d = absurd (omega arith)
  refuse [] (x0 ∷ x1 ∷ x2 ∷ x3 ∷ r) k l e d = absurd (omega arith)
  refuse (y0 ∷ []) (x0 ∷ x1 ∷ x2 ∷ x3 ∷ r) k l e d = absurd (omega arith)
  refuse (y0 ∷ y1 ∷ []) (x0 ∷ x1 ∷ x2 ∷ x3 ∷ r) k l e d = absurd (omega arith)
  refuse (y0 ∷ y1 ∷ y2 ∷ []) (x0 ∷ x1 ∷ x2 ∷ x3 ∷ r) k l e d = absurd (omega arith)
  refuse (y0 ∷ y1 ∷ y2 ∷ y3 ∷ z ∷ zs) (x0 ∷ x1 ∷ x2 ∷ x3 ∷ r) k l e d = absurd (omega arith)
  refuse (y0 ∷ y1 ∷ y2 ∷ y3 ∷ []) (x0 ∷ x1 ∷ x2 ∷ x3 ∷ r) k l e d =
      check_mic-received c key b1 b2 b3 b4 b5 b6 b7 b8 p_type port option c0 c1 form plain y0 y1 y2
        y3 x0 x1 x2 x3 r e
      ∙ ap ok (same_four y0 y1 y2 y3 x0 x1 x2 x3 d)

  -- A device's frame, in any of the three forms of its length field, is opened to its plain text when
  -- its MIC is the first four bytes of the MAC, and is refused for its MIC when it is any other.
  pub decode_uplink :
      (mic m : List ℕ)
      → Fits form (length plain)
      → length mic ≡ 4
      → c.cmac key mac_of ≡ some m
      → ((mic ≡ take 4 m)
          → (up_data_new (sent ++ mic) >>= λ u. decode_payload c u key)
            ≡ ok (record (delivered mic) { payload = plain }))
        × ((mic ≢ take 4 m)
            → (up_data_new (sent ++ mic) >>= λ u. decode_payload c u key) ≡ err mic_mismatch)
  decode_uplink mic m fits h e =
      let size = c.length-cmac key mac_of m e in
      let parsed_as =
        parse_received c key b1 b2 b3 b4 b5 b6 b7 b8 p_type port option c0 c1 form plain mic fits
          h in
      (
        λ same.
            let good : check_mic c (delivered mic) key ≡ ok true = rw same (accept m size e).1 in
            rw parsed_as (
              decode_accepted c key b1 b2 b3 b4 b5 b6 b7 b8 p_type port option c0 c1 form plain mic
                good),
        λ other. rw parsed_as (
            decode_refused c key b1 b2 b3 b4 b5 b6 b7 b8 p_type port option c0 c1 form plain mic
              (refuse mic m h size e other)),
      )
