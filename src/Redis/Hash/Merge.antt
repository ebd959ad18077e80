-- ===== src/Redis/Hash/Merge.antt =====
-- What is read back after a struct was written over an older hash.
use Prim.Native.String.{String}
use snapemu_workflow.Base.{
  ◌≡◌, ◌≢◌, ◌⊎◌, inl, inr, refl, sym, ap, ◌∙◌, Bool, true, false, not, ◌&&◌, arith, Option, none,
  some, [], ◌∷◌, ok, err,
}
use snapemu_workflow.Base.Dict.{insert as put, lookup-insert_self, lookup-insert_ne}
use snapemu_workflow.Redis.{Str, Fields, puts, text_eq, parse_error}
use snapemu_workflow.Redis.Hash.{Field, Schema, Struct, to_redis_args, field_from, fields_from}

-- No field of a struct has this name.
abbrev pub Fresh : String → Struct → Type 0
Fresh n [] = Unit
Fresh n ((m, v) ∷ fields) = (m ≢ n) × Fresh n fields

-- A value of the struct that a schema describes.
abbrev pub Fits : Schema → Struct → Type 0
Fits [] [] = Unit
Fits [] (x ∷ fields) = ⊥
Fits (f ∷ schema) [] = ⊥
Fits (f ∷ schema) ((n, v) ∷ fields) =
    (f.name ≡ n) × (f.required ≡ true → v ≢ none) × Fresh n fields × Fits schema fields

abbrev pub or_old : Option Str → Option Str → Option Str
or_old none old = old
or_old (some v) old = some v

-- A struct whose missing fields are those of an older hash.
unfoldable pub merge : Struct → Fields → Struct
merge [] h = []
merge ((n, v) ∷ fields) h = (n, or_old v (h n)) ∷ merge fields h

puts-Fresh :
    (fields : Struct) (n : String) (h : Fields)
    → Fresh n fields
    → puts (to_redis_args fields) h n ≡ h n
unfolding puts to_redis_args
puts-Fresh [] n h fresh = refl
puts-Fresh ((m, none) ∷ fields) n h fresh = puts-Fresh fields n h fresh.1
puts-Fresh ((m, some v) ∷ fields) n h fresh =
    puts-Fresh fields n (put m v h) fresh.1 ∙ lookup-insert_ne m n v h fresh.0

-- A hash that has every field of a struct, or else the older one's.
abbrev Agrees : Fields → Fields → Struct → Type 0
Agrees g h [] = Unit
Agrees g h ((n, v) ∷ fields) = (g n ≡ or_old v (h n)) × Agrees g h fields

Agrees-put :
    (g h : Fields) (n : String) (v : Str) (fields : Struct)
    → Fresh n fields
    → Agrees g (put n v h) fields
    → Agrees g h fields
Agrees-put g h n v [] fresh a = tt
Agrees-put g h n v ((m, w) ∷ fields) fresh a = (
  a.0 ∙ ap (or_old w) (lookup-insert_ne n m v h (λ e. fresh.0 (sym e))),
  Agrees-put g h n v fields fresh.1 a.1,
)

puts-Agrees :
    (schema : Schema) (fields : Struct) (h : Fields)
    → Fits schema fields
    → Agrees (puts (to_redis_args fields) h) h fields
unfolding puts to_redis_args
puts-Agrees [] [] h fits = tt
puts-Agrees [] (x ∷ fields) h fits = absurd fits
puts-Agrees (f ∷ schema) [] h fits = absurd fits
puts-Agrees (f ∷ schema) ((n, none) ∷ fields) h (e, whole, fresh, fits) =
    (puts-Fresh fields n h fresh, puts-Agrees schema fields h fits)
puts-Agrees (f ∷ schema) ((n, some v) ∷ fields) h (e, whole, fresh, fits) = (
  puts-Fresh fields n (put n v h) fresh ∙ lookup-insert_self n v h,
  Agrees-put (puts (to_redis_args fields) (put n v h)) h n v fields fresh
      (puts-Agrees schema fields (put n v h) fits),
)

field_from_required :
    (required : Bool) (v old : Option Str)
    → (required ≡ true → v ≢ none)
    → field_from required (or_old v old) ≡ ok (or_old v old)
unfolding field_from
field_from_required true none old whole = absurd (whole refl refl)
field_from_required false none none whole = refl
field_from_required false none (some w) whole = refl
field_from_required true (some v) old whole = refl
field_from_required false (some v) old whole = refl

fields_from-Agrees :
    (schema : Schema) (fields : Struct) (g h : Fields)
    → Fits schema fields
    → Agrees g h fields
    → fields_from schema g ≡ ok (merge fields h)
unfolding fields_from merge
fields_from-Agrees [] [] g h fits a = refl
fields_from-Agrees [] (x ∷ fields) g h fits a = absurd fits
fields_from-Agrees (f ∷ schema) [] g h fits a = absurd fits
fields_from-Agrees (f ∷ schema) ((n, v) ∷ fields) g h (e, whole, fresh, fits) a =
    rw
      (
        e,
        a.0,
        field_from_required f.required v (h n) whole,
        fields_from-Agrees schema fields g h fits a.1,
      )
      refl

pub fields_from-puts :
    (schema : Schema) (fields : Struct) (h : Fields)
    → Fits schema fields
    → fields_from schema (puts (to_redis_args fields) h) ≡ ok (merge fields h)
fields_from-puts schema fields h fits =
    fields_from-Agrees schema fields (puts (to_redis_args fields) h) h fits
      (puts-Agrees schema fields h fits)

-- A hash without a required field is not read.
pub fields_from_missing :
    (f : Field) (schema : Schema) (h : Fields)
    → f.required ≡ true
    → h f.name ≡ none
    → fields_from (f ∷ schema) h ≡ err parse_error
unfolding fields_from field_from
fields_from_missing f schema h e absent = rw (absent, e, field_from) refl

field_from-cases :
    (required : Bool) (v : Option Str)
    → (field_from required v ≡ ok v) ⊎ (field_from required v ≡ err parse_error)
unfolding field_from
field_from-cases true none = inr refl
field_from-cases false none = inl refl
field_from-cases true (some v) = inl refl
field_from-cases false (some v) = inl refl

pub fields_from_skip :
    (f : Field) (schema : Schema) (h : Fields)
    → fields_from schema h ≡ err parse_error
    → fields_from (f ∷ schema) h ≡ err parse_error
unfolding fields_from
fields_from_skip f schema h e = elim (field_from-cases f.required (h f.name)) [
  | inl read ↦ rw (read, e) refl
  | inr missing ↦ rw missing refl
]

-- Reading a hash ends with a struct or with an error of the parser.
pub fields_from-cases :
    (schema : Schema) (h : Fields)
    → ((i : Struct) × (fields_from schema h ≡ ok i)) ⊎ (fields_from schema h ≡ err parse_error)
unfolding fields_from
fields_from-cases [] h = inl ([], refl)
fields_from-cases (f ∷ schema) h = elim (field_from-cases f.required (h f.name)) [
  | inr missing ↦ inr (rw missing refl)
  | inl read ↦ elim (fields_from-cases schema h) [
    | inl (i, e) ↦ inl ((f.name, h f.name) ∷ i, rw (read, e) refl)
    | inr e ↦ inr (rw (read, e) refl)
  ]
]

-- Over an empty hash nothing is added.
pub merge_empty : (fields : Struct) → merge fields (λ n. none) ≡ fields
unfolding merge
merge_empty [] = refl
merge_empty ((n, none) ∷ fields) = ap (λ r. (n, none) ∷ r) (merge_empty fields)
merge_empty ((n, some v) ∷ fields) = ap (λ r. (n, some v) ∷ r) (merge_empty fields)

-- Tests of the two conditions on a struct.
abbrev pub is_fresh : String → Struct → Bool
is_fresh n [] = true
is_fresh n ((m, v) ∷ fields) = not (text_eq.beq m n) && is_fresh n fields

abbrev has : Bool → Option Str → Bool
has true none = false
has false none = true
has required (some v) = true

abbrev pub does_fit : Schema → Struct → Bool
does_fit [] [] = true
does_fit [] (x ∷ fields) = false
does_fit (f ∷ schema) [] = false
does_fit (f ∷ schema) ((n, v) ∷ fields) =
    text_eq.beq f.name n && (has f.required v && (is_fresh n fields && does_fit schema fields))

both : (a b : Bool) → (a && b) ≡ true → (a ≡ true) × (b ≡ true)
both a b h = ground arith

is_fresh→Fresh : (n : String) (fields : Struct) → is_fresh n fields ≡ true → Fresh n fields
is_fresh→Fresh n [] h = tt
is_fresh→Fresh n ((m, v) ∷ fields) h =
    let (other, rest) = both (not (text_eq.beq m n)) (is_fresh n fields) h in
    (λ e. ground (arith, (text_eq.beq_iff m n).1 e), is_fresh→Fresh n fields rest)

has_some : (required : Bool) (v : Option Str) → has required v ≡ true → required ≡ true → v ≢ none
has_some true none h r e = cc
has_some false none h r e = cc
has_some true (some v) h r e = cc
has_some false (some v) h r e = cc

pub does_fit→Fits :
    (schema : Schema) (fields : Struct) → does_fit schema fields ≡ true → Fits schema fields
does_fit→Fits [] [] h = tt
does_fit→Fits [] (x ∷ fields) h = cc
does_fit→Fits (f ∷ schema) [] h = cc
does_fit→Fits (f ∷ schema) ((n, v) ∷ fields) h =
    let (name, h1) = both (text_eq.beq f.name n) _ h in
    let (value, h2) = both (has f.required v) _ h1 in
    let (fresh, rest) = both (is_fresh n fields) (does_fit schema fields) h2 in
    (
      (text_eq.beq_iff f.name n).0 name,
      has_some f.required v value,
      is_fresh→Fresh n fields fresh,
      does_fit→Fits schema fields rest,
    )
