-- ===== src/Account/Passwords.antt =====
-- Passwords (snap_api/src/utils/passwd.rs, base64.rs), over the hash of the crate `md5`. Texts are lists
-- of their bytes, a hash is a list of 16 bytes, and a stored text is ASCII, so that a range of it always
-- begins and ends between letters.
pub mod Checks
use snapemu_workflow.Base.{
  ℕ, zero, suc, ◌+◌, ◌-◌, ◌*◌, ◌/◌, ◌%◌, ◌^◌, Bool, true, false, Option, none, some, List, [], ◌∷◌,
  ◌++◌, get_elem?, length, ltb, leb, if◌then◌else◌, Outcome, ok, err, panic, stuck, ◌>>=◌, slice,
}
use snapemu_workflow.Base.Texts.{same}
use snapemu_workflow.Redis.{Str, codes}

abbrev pub password_table : Str
password_table = codes "./0123456789ABCDEFGHIJKLMNOPQRSTUVWXYZabcdefghijklmnopqrstuvwxyz"

abbrev pub letter_or : Option ℕ → ℕ
letter_or none = 0
letter_or (some c) = c

-- The letter of the six bits from the bit `i` of `value` on.
abbrev pub letter : ℕ → ℕ → ℕ
letter value i = letter_or (get_elem? password_table (value / 2 ^ i % 64))

-- The rounds of the loop take three bytes each; the last one may have fewer.
unfoldable pub password_encode : List ℕ → Str
password_encode [] = []
password_encode (a ∷ []) = letter a 0 ∷ letter a 6 ∷ []
password_encode (a ∷ b ∷ []) =
    let value = a + b * 2 ^ 8 in letter value 0 ∷ letter value 6 ∷ letter value 12 ∷ []
password_encode (a ∷ b ∷ c ∷ source) =
    let value = a + b * 2 ^ 8 + c * 2 ^ 16 in
    letter value 0 ∷ letter value 6 ∷ letter value 12 ∷ letter value 18 ∷ password_encode source

module _ (md5 : List ℕ → List ℕ) where
  -- One round: the hash and the password are copied to the front of a buffer of 100 bytes.
  unfoldable pub hash_round : Str → List ℕ → Outcome Unit (List ℕ)
  hash_round password hash =
      if leb (16 + length password) 100 then ok (md5 (hash ++ password)) else panic

  unfoldable pub hash_rounds : ℕ → Str → List ℕ → Outcome Unit (List ℕ)
  hash_rounds zero password hash = ok hash
  hash_rounds (suc n) password hash = hash_round password hash >>= hash_rounds n password

  unfoldable pub hash8192 : Str → Str → Outcome Unit (List ℕ)
  hash8192 password salt = hash_rounds (2 ^ 13) password (md5 (salt ++ password))

  -- `_gen_password`, and `gen_password` with the random salt as its argument.
  unfoldable pub gen_password : Str → Str → Outcome Unit Str
  gen_password password salt = do
    hash ← hash8192 password salt
    ok (codes "$P$B" ++ (salt ++ password_encode hash))

  abbrev pub check_salted : Str → Str → Outcome Unit Bool
  check_salted password stored_password = do
    salt ← slice stored_password 4 12
    gen ← gen_password password salt
    ok (same gen stored_password)

  unfoldable pub check_password : Str → Str → Outcome Unit Bool
  check_password password stored_password =
      if ltb (length stored_password) 12 then ok false else check_salted password stored_password
