-- ===== src/Base/Texts.antt =====
-- The functions of `str` that split a text at a separator, on the bytes of the text.
use Prim.Native.Nat.{ℕ}
use mathlib.Core.Path.{◌≡◌, refl}
use mathlib.Core.Logic.{◌≢◌, ◌↔◌}
use mathlib.Core.Bool.{Bool, true, false, ◌&&◌}
use mathlib.Core.Option.{Option, none, some}
use mathlib.Core.List.{List, [], ◌∷◌, ◌++◌}
use native.Mathlib.Omega.{arith}
use snapemu_workflow.Base.Tests.{◌==◌, if◌then◌else◌, ==_iff}
use snapemu_workflow.Base.Lists.{All}
use snapemu_workflow.Base.Dict.{Eq}

abbrev Str : Type 0
Str = List ℕ

-- Equality of texts.
abbrev pub same : List ℕ → List ℕ → Bool
same [] [] = true
same [] (b ∷ t) = false
same (a ∷ s) [] = false
same (a ∷ s) (b ∷ t) = (a == b) && same s t

pub same_iff : (s t : List ℕ) → (same s t ≡ true) ↔ (s ≡ t)
same_iff [] [] = (λ h. refl, λ h. refl)
same_iff [] (b ∷ t) = (λ h. cc, λ h. cc)
same_iff (a ∷ s) [] = (λ h. cc, λ h. cc)
same_iff (a ∷ s) (b ∷ t) = (λ h. ground (arith, same_iff s t), λ h. ground (arith, same_iff s t))

instance abbrev pub str_eq : Eq (List ℕ)
str_eq = record { beq = same; beq_iff = same_iff }

-- `str::strip_prefix` and `str::split_once`
unfoldable pub strip_prefix : Str → Str → Option Str
strip_prefix [] s = some s
strip_prefix (p ∷ prefix) [] = none
strip_prefix (p ∷ prefix) (c ∷ s) =
    let rest = strip_prefix prefix s in if p == c then rest else none

abbrev pub or_later : ℕ → Option (Str × Str) → Option Str → Option (Str × Str)
or_later c later (some rest) = some ([], rest)
or_later c none none = none
or_later c (some (before, after)) none = some (c ∷ before, after)

abbrev pub or_none : Option Str → Option (Str × Str)
or_none none = none
or_none (some rest) = some ([], rest)

unfoldable pub split_once : Str → Str → Option (Str × Str)
split_once sep [] = or_none (strip_prefix sep [])
split_once sep (c ∷ s) = let later = split_once sep s in or_later c later (strip_prefix sep (c ∷ s))

strip_prefix-append : (prefix s : Str) → strip_prefix prefix (prefix ++ s) ≡ some s
unfolding strip_prefix
strip_prefix-append [] s = refl
strip_prefix-append (p ∷ prefix) s = rw ((==_iff p p).1 refl, strip_prefix-append prefix s) refl

pub split_once-append : (p : ℕ) (sep s : Str) → split_once (p ∷ sep) ((p ∷ sep) ++ s) ≡ some ([], s)
unfolding split_once
split_once-append p sep s = rw (strip_prefix-append (p ∷ sep) s) refl

-- At a separator of one byte, which does not stand before it.
pub split_once_byte :
    (p : ℕ) (before after : Str)
    → All (λ c. c ≢ p) before
    → split_once (p ∷ []) (before ++ (p ∷ after)) ≡ some (before, after)
unfolding split_once strip_prefix
split_once_byte p [] after none_there = rw ((==_iff p p).1 refl) refl
split_once_byte p (c ∷ before) after (ne, none_there) =
    rw (differs, split_once_byte p before after none_there) refl
  where
    differs : (p == c) ≡ false
    differs = ground arith

-- A text without the separator is not split.
pub split_once-none : (p : ℕ) (s : Str) → All (λ c. c ≢ p) s → split_once (p ∷ []) s ≡ none
unfolding split_once strip_prefix
split_once-none p [] none_there = refl
split_once-none p (c ∷ s) (ne, none_there) = rw (differs, split_once-none p s none_there) refl
  where
    differs : (p == c) ≡ false
    differs = ground arith
