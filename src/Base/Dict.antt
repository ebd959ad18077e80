-- ===== src/Base/Dict.antt =====
-- `std::collections::HashMap` as a function from keys to optional values. Only the operations that
-- the program uses are here, and none of them depends on the order of the entries.
use mathlib.Core.Path.{◌≡◌, refl}
use mathlib.Core.Logic.{◌↔◌, ◌≢◌, inl, inr}
use mathlib.Core.Bool.{Bool, true, false}
use mathlib.Core.Option.{Option, none, some}
use Prim.Native.Nat.{ℕ}
use snapemu_workflow.Base.Tests.{◌==◌ as nat_beq, if◌then◌else◌, ==_iff, Bool-cases}

pub record Eq (K : Type 0) : Type 0 where
  pub beq : K → K → Bool
  pub beq_iff : (a b : K) → (beq a b ≡ true) ↔ (a ≡ b)

instance abbrev pub nat_eq : Eq ℕ
nat_eq = record { beq = nat_beq; beq_iff = ==_iff }

abbrev pub HashMap : Type 0 → Type 0 → Type 0
HashMap K V = K → Option V

abbrev pub empty : {K V : Type 0} → HashMap K V
empty k = none

module _ {K : Type 0} ⦃e : Eq K⦄ where
  pub beq_refl : (k : K) → e.beq k k ≡ true
  beq_refl k = (e.beq_iff k k).1 refl

  pub beq_ne : (k j : K) → k ≢ j → e.beq k j ≡ false
  beq_ne k j h = elim (Bool-cases (e.beq k j)) [
    | inl same ↦ absurd (h ((e.beq_iff k j).0 same))
    | inr other ↦ other
  ]

module _ {K V : Type 0} ⦃e : Eq K⦄ where
  unfoldable pub insert : K → V → HashMap K V → HashMap K V
  insert k v m j = if e.beq k j then some v else m j

  unfoldable pub remove : K → HashMap K V → HashMap K V
  remove k m j = if e.beq k j then none else m j

  pub lookup-insert_self : (k : K) (v : V) (m : HashMap K V) → insert k v m k ≡ some v
  unfolding insert
  lookup-insert_self k v m = rw (beq_refl k)

  pub lookup-insert_ne : (k j : K) (v : V) (m : HashMap K V) → k ≢ j → insert k v m j ≡ m j
  unfolding insert
  lookup-insert_ne k j v m h = rw (beq_ne k j h)

  pub lookup-remove_self : (k : K) (m : HashMap K V) → remove k m k ≡ none
  unfolding remove
  lookup-remove_self k m = rw (beq_refl k)

  pub lookup-remove_ne : (k j : K) (m : HashMap K V) → k ≢ j → remove k m j ≡ m j
  unfolding remove
  lookup-remove_ne k j m h = rw (beq_ne k j h)
