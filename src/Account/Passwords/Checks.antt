-- ===== src/Account/Passwords/Checks.antt =====
-- A password that was stored is recognised, unless it is too long.
use snapemu_workflow.Base.{
  ◌>>=◌, ℕ, zero, suc, ◌+◌, ◌^◌, ◌≤◌, ◌<◌, ◌≡◌, refl, sym, ap, ◌∙◌, true, false, Bool-cases, inl,
  inr, List, [], ◌++◌, length, length-append, ltb, leb, take, drop, if◌then◌else◌, ok, panic, slice,
  slice_lt, slice-append_length, arith,
}
use snapemu_workflow.Base.Texts.{same, same_iff}
use snapemu_workflow.Redis.{Str, codes}
use snapemu_workflow.Account.Passwords.{
  password_encode, hash_round, hash_rounds, hash8192, gen_password, check_password,
}

fits_buffer : (n : ℕ) → n ≤ 84 → leb (16 + n) 100 ≡ true
fits_buffer n h = ground arith

passes_buffer : (n : ℕ) → 84 < n → leb (16 + n) 100 ≡ false
passes_buffer n h = ground arith

module _ (md5 : List ℕ → List ℕ) where
  hash_rounds_short :
      (n : ℕ) (password : Str) (hash : List ℕ)
      → length password ≤ 84
      → (h : List ℕ) × (hash_rounds md5 n password hash ≡ ok h)
  unfolding hash_rounds hash_round
  hash_rounds_short zero password hash le = (hash, refl)
  hash_rounds_short (suc n) password hash le =
      let (h, e) = hash_rounds_short n password (md5 (hash ++ password)) le in
      (h, rw (fits_buffer (length password) le) e)

  hash_rounds_long :
      (n : ℕ) (password : Str) (hash : List ℕ)
      → 84 < length password
      → hash_rounds md5 (suc n) password hash ≡ panic
  unfolding hash_rounds hash_round
  hash_rounds_long n password hash lt = rw (passes_buffer (length password) lt) refl

  gen_password_long :
      (password salt : Str) → 84 < length password → gen_password md5 password salt ≡ panic
  unfolding gen_password hash8192
  gen_password_long password salt lt =
      rw (hash_rounds_long 8191 password (md5 (salt ++ password)) lt) refl

  -- The salt of a stored password.
  stored_salt :
      (salt rest : Str)
      → length salt ≡ 8
      → slice {E = Unit} (codes "$P$B" ++ (salt ++ rest)) 4 12 ≡ ok salt
  stored_salt salt rest e =
      ap (λ n. slice (codes "$P$B" ++ (salt ++ rest)) 4 (4 + n)) (sym e)
      ∙ slice-append_length (codes "$P$B") salt rest

  abbrev pub stored_of : Str → List ℕ → Str
  stored_of salt h = codes "$P$B" ++ (salt ++ password_encode h)

  long_enough :
      (salt : Str) (h : List ℕ) → length salt ≡ 8 → ltb (length (stored_of salt h)) 12 ≡ false
  long_enough salt h e = let n = length-append {0} salt (password_encode h) in ground arith

  check_stored :
      (password salt : Str) (h : List ℕ)
      → length salt ≡ 8
      → gen_password md5 password salt ≡ ok (stored_of salt h)
      → check_password md5 password (stored_of salt h) ≡ ok true
  unfolding check_password
  check_stored password salt h e gen =
      rw
        (
          long_enough salt h e,
          stored_salt salt (password_encode h) e,
          gen,
          (same_iff (stored_of salt h) (stored_of salt h)).1 refl,
        )
        refl

  gen_password_short :
      (password salt : Str)
      → length password ≤ 84
      → (h : List ℕ) × (gen_password md5 password salt ≡ ok (stored_of salt h))
  unfolding gen_password hash8192
  gen_password_short password salt le =
      let (h, e) = hash_rounds_short (2 ^ 13) password (md5 (salt ++ password)) le in (h, rw e refl)

  check_long :
      (password stored : Str)
      → 12 ≤ length stored
      → 84 < length password
      → check_password md5 password stored ≡ panic
  unfolding check_password
  check_long password stored l lt =
      rw
        (
          not_short (length stored) l,
          slice_lt {E = Unit} stored 4 12 (omega arith) l,
          gen_password_long password (take 8 (drop 4 stored)) lt,
        )
        refl
    where
      not_short : (n : ℕ) → 12 ≤ n → ltb n 12 ≡ false
      not_short n h = ground arith

  long_stored : (salt : Str) → length salt ≡ 8 → 12 ≤ length (stored_of salt [])
  long_stored salt e = let n = length-append {0} salt (password_encode []) in ground arith

  -- With a salt of eight bytes, a password of at most 84 bytes is stored as a text that the password
  -- is then recognised by. For a longer password there is a text at which checking panics, as
  -- storing it does.
  pub check_password-gen_password :
      (password salt : Str)
      → length salt ≡ 8
      → (stored : Str) × (gen_password md5 password salt
          ≡ (if leb (length password) 84 then ok stored else panic))
        × (check_password md5 password stored
            ≡ (if leb (length password) 84 then ok true else panic))
  check_password-gen_password password salt e = elim (Bool-cases (leb (length password) 84)) [
    | inl short ↦
        let (h, gen) = gen_password_short password salt (ground arith) in
        (stored_of salt h, rw short gen, rw short (check_stored password salt h e gen))
    | inr long ↦
        let lt : 84 < length password = ground arith in
        (
          stored_of salt [],
          rw long (gen_password_long password salt lt),
          rw long (check_long password (stored_of salt []) (long_stored salt e) lt),
        )
  ]

  pub gen_password-eq-ok :
      (password salt stored : Str)
      → gen_password md5 password salt ≡ ok stored
      → (h : List ℕ) × (stored ≡ stored_of salt h)
  gen_password-eq-ok password salt stored e = elim (Bool-cases (leb (length password) 84)) [
    | inl short ↦ let (h, gen) = gen_password_short password salt (ground arith) in (h, cc)
    | inr long ↦ let stop = gen_password_long password salt (ground arith) in absurd cc
  ]

  pub check_password_stored :
      (password salt : Str) (h : List ℕ)
      → length salt ≡ 8
      → check_password md5 password (stored_of salt h)
        ≡ (gen_password md5 password salt >>= (λ gen. ok (same gen (stored_of salt h))))
  unfolding check_password
  check_password_stored password salt h e =
      rw (long_enough salt h e, stored_salt salt (password_encode h) e) refl
