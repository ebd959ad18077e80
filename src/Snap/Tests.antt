-- ===== src/Snap/Tests.antt =====
-- An instance of the ciphers, and the theorems on frames at concrete values.
use snapemu_workflow.Base.{
  ℕ, true, suc, ◌+◌, ◌-◌, ◌≡◌, ◌≢◌, refl, ap, Option, none, some, List, [], ◌∷◌, ◌++◌, length,
  arith, ltb, ◌==◌, if◌then◌else◌, ok, err, map, take, replicate, ◌>>=◌,
}
use mathlib.Core.Path.{ap₂}
use snapemu_workflow.Base.Bytes.{to_be_bytes, to_le_bytes}
use snapemu_workflow.Snap.{
  Crypto, DownloadData, encode, encode_payload, up_data_new, decode_payload, mic_mismatch,
}
use snapemu_workflow.Snap.Parse.{short}
use snapemu_workflow.Snap.Downlink.{up_data_new-encode_frame}
use snapemu_workflow.Snap.Uplink.{sent, mac_of, delivered, decode_uplink}

abbrev flip : ℕ → ℕ
flip x = if ltb x 256 then 255 - x else x

abbrev sum : List ℕ → ℕ
sum [] = 0
sum (x ∷ xs) = x + sum xs

flip_twice : (x : ℕ) → flip (flip x) ≡ x
flip_twice x = ground arith

flips_twice : (xs : List ℕ) → map flip (map flip xs) ≡ xs
flips_twice [] = refl
flips_twice (x ∷ xs) = ap₂ (λ y ys. y ∷ ys) (flip_twice x) (flips_twice xs)

length-flips : (xs : List ℕ) → length (map flip xs) ≡ length xs
length-flips [] = refl
length-flips (x ∷ xs) = ap suc (length-flips xs)

abbrev sum_mac : List ℕ → List ℕ → Option (List ℕ)
sum_mac key d = if length key == 16 then some (to_be_bytes 4 (sum d) ++ replicate 12 0) else none

length-sum_mac : (key d m : List ℕ) → sum_mac key d ≡ some m → length m ≡ 16
unfolding to_be_bytes
length-sum_mac key d m e = unfold to_le_bytes in ground arith

sum_mac_accepts : (key d : List ℕ) → length key ≡ 16 → (m : List ℕ) × (sum_mac key d ≡ some m)
sum_mac_accepts key d h = (to_be_bytes 4 (sum d) ++ replicate 12 0, rw h refl)

abbrev flipping : Crypto
flipping = record {
  apply_keystream = λ key iv d. map flip d;
  cmac = sum_mac;
  base64 = λ d. d;
  length-apply = λ key iv d. length-flips d;
  apply_twice = λ key iv d. flips_twice d;
  key_accepted = sum_mac_accepts;
  length-cmac = length-sum_mac;
}

abbrev key : List ℕ
key = replicate 16 7

abbrev message : DownloadData
message = record { eui = 0x0102030405060708; port = 2; option = 0; count = 300 }

up_data_new-encode_frame_example :
    (f : List ℕ) × (mic : List ℕ) × (encode_payload flipping message (10 ∷ 20 ∷ []) key ≡ ok f)
    × (up_data_new f
        ≡ ok (record {
          eui = 0x0102030405060708;
          enc = true;
          p_type = 1;
          port = 2;
          option = 0;
          count = 300;
          payload_start = 15;
          payload = encode flipping message (10 ∷ 20 ∷ []) key;
          bytes = f;
          mic = mic;
        }))
    × (encode flipping message (encode flipping message (10 ∷ 20 ∷ []) key) key ≡ 10 ∷ 20 ∷ [])
up_data_new-encode_frame_example =
    up_data_new-encode_frame flipping message (10 ∷ 20 ∷ []) key
      (record { eui_lt = omega arith; count_lt = omega arith }) refl (omega arith)

abbrev plain : List ℕ
plain = 10 ∷ 20 ∷ []

abbrev on_air : List ℕ
on_air = sent flipping key 1 2 3 4 5 6 7 8 0 2 0 44 1 short plain

abbrev mac : List ℕ
mac =
    to_be_bytes 4 (sum (mac_of flipping key 1 2 3 4 5 6 7 8 0 2 0 44 1 short plain))
    ++ replicate 12 0

decode_uplink_example :
    ((take 4 mac ≡ take 4 mac)
      → (up_data_new (on_air ++ take 4 mac) >>= λ u. decode_payload flipping u key)
        ≡ ok (record (delivered flipping key 1 2 3 4 5 6 7 8 0 2 0 44 1 short plain (take 4 mac)) {
          payload = plain;
        }))
    × ((take 4 mac ≢ take 4 mac)
        → (up_data_new (on_air ++ take 4 mac) >>= λ u. decode_payload flipping u key)
          ≡ err mic_mismatch)
unfolding to_be_bytes to_le_bytes
decode_uplink_example =
    decode_uplink flipping key 1 2 3 4 5 6 7 8 0 2 0 44 1 short plain (take 4 mac) mac (omega arith)
      refl refl
