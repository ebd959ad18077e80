-- ===== src/Ids/Digits.antt =====
-- An instance of the functions of `hex`, in upper case.
use snapemu_workflow.Base.{
  ℕ, zero, suc, ◌+◌, ◌-◌, ◌*◌, ◌/◌, ◌%◌, ◌<◌, ◌≡◌, ◌≢◌, refl, ap, inl, inr, Option, none, some,
  List, [], ◌∷◌, length, arith, ltb, if◌then◌else◌, All, map, Option-cases,
}
use snapemu_workflow.Base.Bytes.{IsByte}
use snapemu_workflow.Ids.{Hex, to_uppercase}

abbrev digit : ℕ → ℕ
digit n = if ltb n 10 then 48 + n else 55 + n

abbrev value : ℕ → Option ℕ
value c =
    if ltb c 48
    then none
    else if ltb c 58
    then some (c - 48)
    else if ltb c 65
    then none
    else if ltb c 71
    then some (c - 55)
    else if ltb c 97
    then none
    else if ltb c 103
    then some (c - 87)
    else none

abbrev pub upper_digit : ℕ → ℕ
upper_digit c = if ltb c 97 then c else if ltb c 123 then c - 32 else c

abbrev encode_upper : List ℕ → List ℕ
encode_upper [] = []
encode_upper (b ∷ bs) = digit (b / 16) ∷ digit (b % 16) ∷ encode_upper bs

abbrev join : Option ℕ → Option ℕ → Option (List ℕ) → Option (List ℕ)
join (some h) (some l) (some bs) = some ((16 * h + l) ∷ bs)
join _ _ _ = none

abbrev decode_to_slice : List ℕ → ℕ → Option (List ℕ)
decode_to_slice [] zero = some []
decode_to_slice (h ∷ l ∷ s) (suc n) = join (value h) (value l) (decode_to_slice s n)
decode_to_slice _ _ = none

value-digit : (n : ℕ) → n < 16 → value (digit n) ≡ some n
value-digit n h = ground arith

digit-value : (c n : ℕ) → value c ≡ some n → (n < 16) × (digit n ≡ upper_digit c)
digit-value c n e = ground arith

pub length-encode_upper : (bs : List ℕ) → length (encode_upper bs) ≡ 2 * length bs
length-encode_upper [] = refl
length-encode_upper (b ∷ bs) = omega (arith, length-encode_upper bs)

pub decode_to_slice-encode_upper :
    (bs : List ℕ) → All IsByte bs → decode_to_slice (encode_upper bs) (length bs) ≡ some bs
decode_to_slice-encode_upper [] h = refl
decode_to_slice-encode_upper (b ∷ bs) (h, hs) =
    let whole : 16 * (b / 16) + b % 16 ≡ b = omega arith in
    rw
      (
        value-digit (b / 16) (omega arith),
        value-digit (b % 16) (omega arith),
        decode_to_slice-encode_upper bs hs,
      )
      (ap (λ x. some (x ∷ bs)) whole)

two_digits_none : {o : Option (List ℕ)} {bs : List ℕ} → o ≡ some bs → o ≢ none
two_digits_none e f = cc

two_digits :
    (h l x y : ℕ) (s ys bs : List ℕ) (n : ℕ)
    → value h ≡ some x
    → value l ≡ some y
    → decode_to_slice s n ≡ some ys
    → join (value h) (value l) (decode_to_slice s n) ≡ some bs
    → (length ys ≡ n) × All IsByte ys × (encode_upper ys ≡ map upper_digit s)
    → (length bs ≡ suc n)
      × All IsByte bs
      × (encode_upper bs ≡ upper_digit h ∷ upper_digit l ∷ map upper_digit s)
two_digits h l x y s ys bs n p q r e (i, j, k) =
    let found : some ((16 * x + y) ∷ ys) ≡ some bs = rw (p, q, r) at e in
    let whole : ((16 * x + y) ∷ ys) ≡ bs = cc in
    let (a, c) = digit-value h x p in
    let (b, d) = digit-value l y q in
    let high : (16 * x + y) / 16 ≡ x = omega arith in
    let low : (16 * x + y) % 16 ≡ y = omega arith in
    rw (← whole) (ap suc i, (omega arith, j), rw (high, low, c, d, k) refl)

pub decode_to_slice_fills :
    (s : List ℕ) (n : ℕ) (bs : List ℕ)
    → decode_to_slice s n ≡ some bs
    → (length bs ≡ n) × All IsByte bs × (encode_upper bs ≡ map upper_digit s)
decode_to_slice_fills [] zero [] e = (refl, tt, refl)
decode_to_slice_fills [] zero (b ∷ bs) e = absurd cc
decode_to_slice_fills (h ∷ l ∷ s) (suc n) bs e = elim (Option-cases (value h)) [
  | inl p ↦ absurd (two_digits_none e (ap (λ v. join v (value l) (decode_to_slice s n)) p))
  | inr (x, p) ↦ elim (Option-cases (value l)) [
    | inl q ↦ absurd (two_digits_none e (rw (p, q) refl))
    | inr (y, q) ↦ elim (Option-cases (decode_to_slice s n)) [
      | inl r ↦ absurd (two_digits_none e (rw (p, q, r) refl))
      | inr (ys, r) ↦ two_digits h l x y s ys bs n p q r e (decode_to_slice_fills s n ys r)
    ]
  ]
]
decode_to_slice_fills [] (suc n) bs e = absurd cc
decode_to_slice_fills (h ∷ []) zero bs e = absurd cc
decode_to_slice_fills (h ∷ []) (suc n) bs e = absurd cc
decode_to_slice_fills (h ∷ l ∷ s) zero bs e = absurd cc

pub decode_fills :
    (s : List ℕ) (n : ℕ) (bs : List ℕ)
    → decode_to_slice s n ≡ some bs
    → (length bs ≡ n) × All IsByte bs × (encode_upper bs ≡ to_uppercase s)
unfolding to_uppercase
decode_fills = decode_to_slice_fills

abbrev pub hex : Hex
hex = record {
  encode_upper = encode_upper;
  decode_to_slice = decode_to_slice;
  length-encode = length-encode_upper;
  decode-encode = decode_to_slice-encode_upper;
  decode_fills = decode_fills;
}
