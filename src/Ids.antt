-- ===== src/Ids.antt =====
-- The identifiers of devices (common_define/src/db/eui.rs, addr.rs, key.rs, common_define/src/id.rs
-- and the device address of common_define/src/lora.rs): numbers of a fixed width, their bytes in both
-- orders, and their hexadecimal text. The crate `hex` is a parameter. A text is the list of its bytes.
pub mod Laws
pub mod Digits
use snapemu_workflow.Base.{
  ℕ, ◌-◌, map, ◌*◌, ◌/◌, ◌^◌, ◌≡◌, Bool, not, Option, none, some, List, ltb, ◌==◌, if◌then◌else◌,
  length, take, Outcome, ok, err, panic, All, ◌>>=◌, ◌>>◌, ensure, ok_or,
}
use snapemu_workflow.Base.Bytes.{IsByte, from_be_bytes, from_le_bytes, to_be_bytes, to_le_bytes}

pub data DbErr : Type 0 where
  parse len max : DbErr

-- `str::to_uppercase` of an ASCII text: only the letters from a to z change.
unfoldable pub to_uppercase : List ℕ → List ℕ
to_uppercase = map (λ c. if ltb c 97 then c else if ltb c 123 then c - 32 else c)

-- The functions of `hex` that the program calls, and what its documentation says of them: `encode_upper` writes digits
-- in upper case, and `decode_to_slice` reads digits of both cases.
pub record Hex : Type 0 where
  pub encode_upper : List ℕ → List ℕ
  -- `decode_to_slice` into a slice of `n` bytes; `none` is its error.
  pub decode_to_slice : List ℕ → ℕ → Option (List ℕ)
  pub length-encode : (bs : List ℕ) → length (encode_upper bs) ≡ 2 * length bs
  pub decode-encode :
      (bs : List ℕ) → All IsByte bs → decode_to_slice (encode_upper bs) (length bs) ≡ some bs
  pub decode_fills :
      (s : List ℕ) (n : ℕ) (bs : List ℕ)
      → decode_to_slice s n ≡ some bs
      → (length bs ≡ n) × All IsByte bs × (encode_upper bs ≡ to_uppercase s)

-- `Eui`, a u64.
unfoldable pub eui_to_bytes : ℕ → List ℕ
eui_to_bytes = to_le_bytes 8

unfoldable pub eui_to_be_bytes : ℕ → List ℕ
eui_to_be_bytes = to_be_bytes 8

unfoldable pub eui_from_be_bytes : List ℕ → Option ℕ
eui_from_be_bytes s = if ltb (length s) 8 then none else some (from_be_bytes (take 8 s))

-- `From<[u8; 8]>`
unfoldable pub eui_from_array : List ℕ → ℕ
eui_from_array = from_le_bytes

-- `LoRaAddr`, a u32, and its `From<[u8; 4]>`.
unfoldable pub addr_to_bytes : ℕ → List ℕ
addr_to_bytes = to_le_bytes 4

unfoldable pub addr_from_array : List ℕ → ℕ
addr_from_array = from_le_bytes

-- `LoRaDevAddr::is_abp_addr`: any of the bits above the 24 of a network address.
unfoldable pub is_abp_addr : ℕ → Bool
is_abp_addr a = ltb 0 (a / 2 ^ 24)

unfoldable pub is_otaa_addr : ℕ → Bool
is_otaa_addr a = not (is_abp_addr a)

module _ (hex : Hex) where
  unfoldable pub eui_to_string : ℕ → List ℕ
  eui_to_string x = hex.encode_upper (to_be_bytes 8 x)

  unfoldable pub eui_try_from : List ℕ → Outcome DbErr ℕ
  eui_try_from value = do
    ensure (length value == 16) len
    b ← ok_or (hex.decode_to_slice value 8) parse
    ok (from_be_bytes b)

  unfoldable pub id_to_string : ℕ → List ℕ
  id_to_string x = hex.encode_upper (to_be_bytes 8 x)

  unfoldable pub id_try_from : List ℕ → Outcome DbErr ℕ
  id_try_from value = do
    ensure (length value == 16) len
    b ← ok_or (hex.decode_to_slice value 8) parse
    ok (from_be_bytes b)

  unfoldable pub addr_to_string : ℕ → List ℕ
  addr_to_string x = hex.encode_upper (to_be_bytes 4 x)

  unfoldable pub addr_try_from : List ℕ → Outcome DbErr ℕ
  addr_try_from value = do
    ensure (length value == 8) len
    b ← ok_or (hex.decode_to_slice value 4) parse
    ok (from_be_bytes b)

  -- A key is its sixteen bytes.
  unfoldable pub key_to_string : List ℕ → List ℕ
  key_to_string k = hex.encode_upper k

  unfoldable pub key_try_from : List ℕ → Outcome DbErr (List ℕ)
  key_try_from value = do
    ensure (length value == 32) len
    b ← ok_or (hex.decode_to_slice value 16) parse
    ok b

  -- `LoRaDevAddr`, whose `from_str` leaves the length to `hex`.
  unfoldable pub dev_addr_to_string : ℕ → List ℕ
  dev_addr_to_string x = hex.encode_upper (to_be_bytes 4 x)

  unfoldable pub dev_addr_from_str : List ℕ → Outcome DbErr ℕ
  dev_addr_from_str s = do buf ← ok_or (hex.decode_to_slice s 4) parse; ok (from_be_bytes buf)
