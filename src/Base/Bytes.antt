-- ===== src/Base/Bytes.antt =====
-- Bytes and machine words: `to_le_bytes`, `to_be_bytes` and their inverses, single bits, and casts.
use Prim.Native.Nat.{ℕ, zero, suc, ◌+◌, ◌*◌, ◌/◌, ◌%◌, ◌^◌, ◌<◌}
use mathlib.Core.Path.{◌≡◌, refl, ap, ◌∙◌}
use mathlib.Core.Bool.{Bool}
use mathlib.Core.List.{List, [], ◌∷◌, ◌++◌, reverse, reverse-reverse, reverse-cons}
use native.Mathlib.Nat.{pow-suc}
use native.Mathlib.Omega.{arith}
use snapemu_workflow.Base.Tests.{◌==◌}
use snapemu_workflow.Base.Lists.{length, length-append, All}

abbrev pub IsByte : ℕ → Type 0
IsByte b = b < 256

-- `x as u8`
abbrev pub low_byte : ℕ → ℕ
low_byte x = x % 256

-- `m & (1 << i) != 0`
abbrev pub test_bit : ℕ → ℕ → Bool
test_bit m i = m / 2 ^ i % 2 == 1

-- `lo as u16 | (hi as u16) << 8`, whose two parts share no bit.
abbrev pub le16 : ℕ → ℕ → ℕ
le16 lo hi = lo + hi * 256

-- The number that bytes stand for, the lowest first: `from_le_bytes`.
unfoldable pub from_le_bytes : List ℕ → ℕ
from_le_bytes [] = 0
from_le_bytes (b ∷ bs) = b + from_le_bytes bs * 256

-- The `n` lowest bytes of a number, the lowest first: `to_le_bytes` of an unsigned type of `n` bytes.
unfoldable pub to_le_bytes : ℕ → ℕ → List ℕ
to_le_bytes zero x = []
to_le_bytes (suc n) x = x % 256 ∷ to_le_bytes n (x / 256)

unfoldable pub from_be_bytes : List ℕ → ℕ
from_be_bytes bs = from_le_bytes (reverse bs)

unfoldable pub to_be_bytes : ℕ → ℕ → List ℕ
to_be_bytes n x = reverse (to_le_bytes n x)

pub length-to_le_bytes : (n x : ℕ) → length (to_le_bytes n x) ≡ n
unfolding to_le_bytes
length-to_le_bytes zero x = refl
length-to_le_bytes (suc n) x = ap suc (length-to_le_bytes n (x / 256))

pub to_le_bytes-IsByte : (n x : ℕ) → All IsByte (to_le_bytes n x)
unfolding to_le_bytes
to_le_bytes-IsByte zero x = tt
to_le_bytes-IsByte (suc n) x = (omega arith, to_le_bytes-IsByte n (x / 256))

high_part : (n x : ℕ) → x < 256 ^ n * 256 → x / 256 < 256 ^ n
high_part n x h = omega arith

pub from_le_bytes-to_le_bytes : (n x : ℕ) → x < 256 ^ n → from_le_bytes (to_le_bytes n x) ≡ x
unfolding from_le_bytes to_le_bytes
from_le_bytes-to_le_bytes zero x h = omega arith
from_le_bytes-to_le_bytes (suc n) x h =
    omega (arith, from_le_bytes-to_le_bytes n (x / 256) (high_part n x (rw (← pow-suc 256 n) h)))

low_part : (b x : ℕ) → b < 256 → (b + x * 256) % 256 ≡ b
low_part b x h = omega arith

rest_part : (b x : ℕ) → b < 256 → (b + x * 256) / 256 ≡ x
rest_part b x h = omega arith

pub to_le_bytes-from_le_bytes :
    (bs : List ℕ) → All IsByte bs → to_le_bytes (length bs) (from_le_bytes bs) ≡ bs
unfolding from_le_bytes to_le_bytes
to_le_bytes-from_le_bytes [] h = refl
to_le_bytes-from_le_bytes (b ∷ bs) h = rw (
  low_part b (from_le_bytes bs) h.0,
  rest_part b (from_le_bytes bs) h.0,
  to_le_bytes-from_le_bytes bs h.1,
)

pub from_le_bytes-lt : (bs : List ℕ) → All IsByte bs → from_le_bytes bs < 256 ^ length bs
unfolding from_le_bytes
from_le_bytes-lt [] h = omega arith
from_le_bytes-lt (b ∷ bs) h = rw pow-suc (omega (arith, from_le_bytes-lt bs h.1))

pub length-reverse : (xs : List ℕ) → length (reverse xs) ≡ length xs
length-reverse [] = refl
length-reverse (x ∷ xs) =
    rw reverse-cons (omega (arith, length-append {0} (reverse xs) (x ∷ []), length-reverse xs))

pub length-to_be_bytes : (n x : ℕ) → length (to_be_bytes n x) ≡ n
unfolding to_be_bytes
length-to_be_bytes n x = length-reverse (to_le_bytes n x) ∙ length-to_le_bytes n x

pub from_be_bytes-to_be_bytes : (n x : ℕ) → x < 256 ^ n → from_be_bytes (to_be_bytes n x) ≡ x
unfolding from_be_bytes to_be_bytes
from_be_bytes-to_be_bytes n x h = rw reverse-reverse (from_le_bytes-to_le_bytes n x h)

All-snoc : (xs : List ℕ) (x : ℕ) → All IsByte xs → IsByte x → All IsByte (xs ++ (x ∷ []))
All-snoc [] x h b = (b, tt)
All-snoc (y ∷ ys) x h b = (h.0, All-snoc ys x h.1 b)

pub All-reverse : (xs : List ℕ) → All IsByte xs → All IsByte (reverse xs)
All-reverse [] h = tt
All-reverse (x ∷ xs) h = rw reverse-cons (All-snoc (reverse xs) x (All-reverse xs h.1) h.0)

pub to_be_bytes-IsByte : (n x : ℕ) → All IsByte (to_be_bytes n x)
unfolding to_be_bytes
to_be_bytes-IsByte n x = All-reverse (to_le_bytes n x) (to_le_bytes-IsByte n x)

pub from_be_bytes-lt : (bs : List ℕ) → All IsByte bs → from_be_bytes bs < 256 ^ length bs
unfolding from_be_bytes
from_be_bytes-lt bs h = rw (length-reverse bs) at (from_le_bytes-lt (reverse bs) (All-reverse bs h))

pub to_be_bytes-from_be_bytes :
    (bs : List ℕ) → All IsByte bs → to_be_bytes (length bs) (from_be_bytes bs) ≡ bs
unfolding to_be_bytes from_be_bytes
to_be_bytes-from_be_bytes bs h =
    ap reverse
      (rw (length-reverse bs) at (to_le_bytes-from_le_bytes (reverse bs) (All-reverse bs h)))
    ∙ reverse-reverse bs
