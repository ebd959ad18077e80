-- ===== src/Ids/Laws.antt =====
-- Round trips of the identifiers: through their bytes, and through their text.
use snapemu_workflow.Base.{
  ℕ, ◌*◌, ◌^◌, ◌<◌, ◌≤◌, ◌≡◌, ◌↔◌, refl, inl, inr, Option-cases, ◌∙◌, ap, true, some, List, ◌++◌,
  length, length-append, take, take-append_length, arith, ok, All,
}
use snapemu_workflow.Base.Bytes.{
  IsByte, from_be_bytes, to_be_bytes, length-to_be_bytes, from_be_bytes-to_be_bytes,
  to_be_bytes-from_be_bytes, from_le_bytes-to_le_bytes, to_be_bytes-IsByte, from_be_bytes-lt,
}
use snapemu_workflow.Ids.{
  to_uppercase, Hex, eui_to_bytes, eui_to_be_bytes, eui_from_be_bytes, eui_from_array,
  addr_to_bytes, addr_from_array, is_abp_addr, is_otaa_addr, eui_to_string, eui_try_from,
  id_to_string, id_try_from, addr_to_string, addr_try_from, key_to_string, key_try_from,
  dev_addr_to_string, dev_addr_from_str,
}

-- An EUI at the front of a buffer is read back, whatever follows.
pub eui_from_be_bytes-append :
    (x : ℕ) (rest : List ℕ) → x < 256 ^ 8 → eui_from_be_bytes (eui_to_be_bytes x ++ rest) ≡ some x
unfolding eui_from_be_bytes eui_to_be_bytes
eui_from_be_bytes-append x rest h = ground (
  arith,
  front x rest,
  from_be_bytes-to_be_bytes 8 x h,
  length-append (to_be_bytes 8 x) rest,
  length-to_be_bytes 8 x,
)
  where
    front : (x : ℕ) (rest : List ℕ) → take 8 (to_be_bytes 8 x ++ rest) ≡ to_be_bytes 8 x
    front x rest = rw (length-to_be_bytes 8 x) at (take-append_length (to_be_bytes 8 x) rest)

-- The bytes of an EUI and of an address in radio order stand for them.
pub radio_order :
    (x a : ℕ)
    → x < 256 ^ 8
    → a < 256 ^ 4
    → (eui_from_array (eui_to_bytes x) ≡ x) × (addr_from_array (addr_to_bytes a) ≡ a)
unfolding eui_from_array eui_to_bytes addr_from_array addr_to_bytes
radio_order x a h k = (from_le_bytes-to_le_bytes 8 x h, from_le_bytes-to_le_bytes 4 a k)

-- An address is of exactly one kind, and of the over-the-air kind below 2 ^ 24.
pub addr_kind :
    (a : ℕ) → ((is_otaa_addr a ≡ true) ↔ (a < 2 ^ 24)) × ((is_abp_addr a ≡ true) ↔ (2 ^ 24 ≤ a))
unfolding is_otaa_addr is_abp_addr
addr_kind a = ((λ h. ground arith, λ h. ground arith), (λ h. ground arith, λ h. ground arith))

module _ (hex : Hex) where
  -- The text of a number of `n` bytes, decoded.
  decode_text :
      (n x : ℕ)
      → x < 256 ^ n
      → hex.decode_to_slice (hex.encode_upper (to_be_bytes n x)) n ≡ some (to_be_bytes n x)
  decode_text n x h =
      rw (length-to_be_bytes n x) at (hex.decode-encode (to_be_bytes n x) (to_be_bytes-IsByte n x))

  length-text : (n x : ℕ) → length (hex.encode_upper (to_be_bytes n x)) ≡ 2 * n
  length-text n x = hex.length-encode (to_be_bytes n x) ∙ ap (λ k. 2 * k) (length-to_be_bytes n x)

  -- The text of an EUI, of an id and of the two kinds of address reads back as the same value.
  pub try_from-to_string :
      (x a : ℕ)
      → x < 256 ^ 8
      → a < 256 ^ 4
      → (eui_try_from hex (eui_to_string hex x) ≡ ok x)
        × (id_try_from hex (id_to_string hex x) ≡ ok x)
        × (addr_try_from hex (addr_to_string hex a) ≡ ok a)
        × (dev_addr_from_str hex (dev_addr_to_string hex a) ≡ ok a)
  unfolding eui_try_from eui_to_string id_try_from id_to_string addr_try_from addr_to_string
      dev_addr_from_str dev_addr_to_string
  try_from-to_string x a h k =
      let eight = from_be_bytes-to_be_bytes 8 x h in
      let four = from_be_bytes-to_be_bytes 4 a k in
      (
        rw (length-text 8 x, decode_text 8 x h, eight) refl,
        rw (length-text 8 x, decode_text 8 x h, eight) refl,
        rw (length-text 4 a, decode_text 4 a k, four) refl,
        rw (decode_text 4 a k, four) refl,
      )

  -- A key of sixteen bytes reads back from its text.
  pub key_try_from-to_string :
      (k : List ℕ) → length k ≡ 16 → All IsByte k → key_try_from hex (key_to_string hex k) ≡ ok k
  unfolding key_try_from key_to_string
  key_try_from-to_string k l h =
      let size : length (hex.encode_upper k) ≡ 32 = omega (arith, hex.length-encode k) in
      let back : hex.decode_to_slice (hex.encode_upper k) 16 ≡ some k =
        rw l at (hex.decode-encode k h) in
      rw (size, back) refl

  value_is :
      (s : List ℕ) (x : ℕ) (b : List ℕ)
      → hex.decode_to_slice s 8 ≡ some b
      → eui_try_from hex s ≡ ok x
      → x ≡ from_be_bytes b
  unfolding eui_try_from
  value_is s x b d e = ground arith

  of_decoded :
      (s b : List ℕ)
      → hex.decode_to_slice s 8 ≡ some b
      → (from_be_bytes b < 256 ^ 8) × (to_be_bytes 8 (from_be_bytes b) ≡ b)
  of_decoded s b d =
      let (l, h, _) = hex.decode_fills s 8 b d in
      (rw l at (from_be_bytes-lt b h), rw l at (to_be_bytes-from_be_bytes b h))

  -- A text that is read as an EUI is the EUI's own text up to the case of its letters, it has sixteen
  -- bytes, and the EUI fits in eight.
  pub eui_to_string-try_from :
      (s : List ℕ) (x : ℕ)
      → eui_try_from hex s ≡ ok x
      → (length s ≡ 16) × (x < 256 ^ 8) × (eui_to_string hex x ≡ to_uppercase s)
  unfolding eui_try_from eui_to_string
  eui_to_string-try_from s x e = elim (Option-cases (hex.decode_to_slice s 8)) [
    | inl fails ↦ absurd (ground arith)
    | inr (b, d) ↦ (
      ground arith,
      rw (value_is s x b d e) (of_decoded s b d).0,
      rw (value_is s x b d e)
          (ap hex.encode_upper (of_decoded s b d).1 ∙ (hex.decode_fills s 8 b d).2),
    )
  ]
