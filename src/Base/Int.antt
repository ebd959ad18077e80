-- ===== src/Base/Int.antt =====
-- Signed integers over the native numbers, and two's complement.
use snapemu_workflow.Base.Tests.{ltb, if◌then◌else◌}
use Prim.Native.Nat.{ℕ, suc, ◌+◌, ◌-◌, ◌<◌}
use mathlib.Core.Bool.{Bool}

-- `negsuc n` is -(n + 1).
pub data ℤ : Type 0 where
  pos : ℕ → ℤ
  negsuc : ℕ → ℤ

-- The signed integer that a pattern of twice `half` values stands for: `x as i8` with half = 128.
abbrev pub signed : ℕ → ℕ → ℤ
signed half x = if ltb x half then pos x else negsuc (half + half - x - 1)

abbrev pub pos_part : ℤ → ℕ
pos_part (pos n) = n
pos_part (negsuc n) = 0

abbrev pub neg_part : ℤ → ℕ
neg_part (pos n) = 0
neg_part (negsuc n) = suc n

abbrev pub ltb_ℤ : ℤ → ℤ → Bool
ltb_ℤ a b = ltb (pos_part a + neg_part b) (pos_part b + neg_part a)

abbrev pub ◌<ℤ◌ : ℤ → ℤ → Type 0
◌<ℤ◌ a b = pos_part a + neg_part b < pos_part b + neg_part a
