-- ===== src/Base/Ends.antt =====
-- How a Rust function ends: with `Ok`, with `Err`, or by a panic. `stuck` is no end of the program's:
-- it says that the fuel of a modelled loop ran out.
use Prim.Native.Nat.{ℕ, ◌+◌, ◌-◌, ◌≤◌, ◌<◌}
use mathlib.Core.Path.{◌≡◌, ap, ◌∙◌}
use mathlib.Core.Bool.{Bool, true, false, ◌&&◌}
use mathlib.Core.Option.{Option, none, some}
use mathlib.Core.List.{List, ◌++◌}
use native.Mathlib.Omega.{arith}
use snapemu_workflow.Base.Tests.{leb, if◌then◌else◌}
use snapemu_workflow.Base.Lists.{
  length, length-append, get_elem?, get_elem?-append_length, take, drop, get_elem?_lt, get_elem?_ge,
  get_elem?-none, drop-append_length, take-append_length,
}

pub data Outcome (E A : Type 0) : Type 0 where
  ok : A → Outcome E A
  err : E → Outcome E A
  panic : Outcome E A
  stuck : Outcome E A

infixl 5 ◌>>=◌ ◌>>◌
abbrev pub ◌>>=◌ : {E A B : Type 0} → Outcome E A → (A → Outcome E B) → Outcome E B
ok a >>= f = f a
err e >>= f = err e
panic >>= f = panic
stuck >>= f = stuck

abbrev pub ◌>>◌ : {E B : Type 0} → Outcome E (Unit {0}) → Outcome E B → Outcome E B
m >> k = m >>= λ _. k

-- `return Err(e)` when the test fails.
abbrev pub ensure : {E : Type 0} → Bool → E → Outcome E (Unit {0})
ensure true e = ok tt
ensure false e = err e

abbrev pub ok_or : {E A : Type 0} → Option A → E → Outcome E A
ok_or none e = err e
ok_or (some a) e = ok a

abbrev pub or_panic : {E A : Type 0} → Option A → Outcome E A
or_panic none = panic
or_panic (some a) = ok a

module _ {E A : Type 0} where
  -- `l[i]`
  unfoldable pub index : List A → ℕ → Outcome E A
  index l i = or_panic (get_elem? l i)

  -- `&l[a..b]`
  unfoldable pub slice : List A → ℕ → ℕ → Outcome E (List A)
  slice l a b = if leb a b && leb b (length l) then ok (take (b - a) (drop a l)) else panic

  -- `&l[a..]`
  unfoldable pub slice_from : List A → ℕ → Outcome E (List A)
  slice_from l a = if leb a (length l) then ok (drop a l) else panic

  pub index_lt :
      (l : List A) (i : ℕ) → i < length l → (a : A) × (index l i ≡ ok a) × (get_elem? l i ≡ some a)
  unfolding index
  index_lt l i h = let (a, e) = get_elem?_lt l i h in (a, rw e, e)

  pub index-eq_some : (l : List A) (i : ℕ) (a : A) → get_elem? l i ≡ some a → index l i ≡ ok a
  unfolding index
  index-eq_some l i a h = rw h

  pub index_ge : (l : List A) (i : ℕ) → length l ≤ i → index l i ≡ panic
  unfolding index
  index_ge l i h = rw (get_elem?_ge l i h)

  pub slice_lt :
      (l : List A) (a b : ℕ) → a ≤ b → b ≤ length l → slice l a b ≡ ok (take (b - a) (drop a l))
  unfolding slice
  slice_lt l a b h k = ground arith

  pub slice_from_le : (l : List A) (a : ℕ) → a ≤ length l → slice_from l a ≡ ok (drop a l)
  unfolding slice_from
  slice_from_le l a h = ground arith

add_sub_left : (a b : ℕ) → a + b - a ≡ b
add_sub_left a b = omega arith

-- Reading behind a prefix.
module _ {E A : Type 0} where
  pub index-append_length :
      (pre post : List A) (i : ℕ) {a : A}
      → get_elem? post i ≡ some a
      → index {E = E} (pre ++ post) (length pre + i) ≡ ok a
  unfolding index
  index-append_length pre post i h = rw (get_elem?-append_length pre post i, h)

  pub slice-append_length :
      (pre mid post : List A)
      → slice {E = E} (pre ++ (mid ++ post)) (length pre) (length pre + length mid) ≡ ok mid
  slice-append_length pre mid post =
      slice_lt (pre ++ (mid ++ post)) (length pre) (length pre + length mid) (omega arith)
        (omega (arith, length-append {0} pre (mid ++ post), length-append {0} mid post))
      ∙ rw (drop-append_length pre (mid ++ post), add_sub_left (length pre) (length mid))
          (rw (take-append_length mid post))

module _ {E A : Type 0} where
  pub index-eq-panic : (l : List A) (i : ℕ) → index {E = E} l i ≡ panic → length l ≤ i
  unfolding index
  index-eq-panic l i h = ground (arith, get_elem?-none l i)

  pub index-eq-ok : (l : List A) (i : ℕ) (a : A) → index {E = E} l i ≡ ok a → get_elem? l i ≡ some a
  unfolding index
  index-eq-ok l i a h = ground arith

  pub slice-eq-panic : (l : List A) (a b : ℕ) → slice {E = E} l a b ≡ panic → a ≤ b → length l < b
  unfolding slice
  slice-eq-panic l a b h k = ground arith

  pub slice-eq-ok :
      (l m : List A) (a b : ℕ)
      → slice {E = E} l a b ≡ ok m
      → (a ≤ b) × (b ≤ length l) × (m ≡ take (b - a) (drop a l))
  unfolding slice
  slice-eq-ok l m a b h = ground arith

sub_zero : (n : ℕ) → n - 0 ≡ n
sub_zero n = omega arith

module _ {E A : Type 0} where
  pub slice_prefix : (pre post : List A) → slice {E = E} (pre ++ post) 0 (length pre) ≡ ok pre
  slice_prefix pre post =
      slice_lt (pre ++ post) 0 (length pre) (omega arith)
        (omega (arith, length-append {0} pre post))
      ∙ rw (sub_zero (length pre)) (ap ok (take-append_length pre post))
