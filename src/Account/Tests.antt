-- ===== src/Account/Tests.antt =====
-- The theorems on accounts at concrete requests.
use snapemu_workflow.Base.{
  ℕ, zero, suc, ◌++◌, ◌^◌, ◌≤◌, ◌≡◌, ◌↔◌, refl, Bool, true, Option, none, some, List, [], ◌∷◌, All,
  arith, ok, err, if◌then◌else◌, length, replicate,
}
use snapemu_workflow.Redis.{Str, codes, Expiring}
use snapemu_workflow.Redis.Memory.{expiring, expiring-IsExpiring}
use snapemu_workflow.Account.{token_err, Stored}
use snapemu_workflow.Account.Tokens.{
  refresh_type, token_type_from_str, UserToken, User, create_token, token_login,
  authorize_current_user, refresh_key, delete_user_token, gen_access_token, refresh_row,
}
use snapemu_workflow.Account.Codes.{mailed, mailed_le}
use snapemu_workflow.Account.Passwords.{
  gen_password, password_encode, hash_round, hash_rounds, hash8192,
}
use snapemu_workflow.Account.Login.{UsersModel, user_of, local_login, local_login_iff, has_at}
use snapemu_workflow.Account.Sessions.{bearer, visits, visits-create_token, refresh_key_iff}
use snapemu_workflow.Account.Deletion.{token_login-delete_user_token, IsIssued}

abbrev memory : Expiring Stored
memory = expiring Stored

abbrev nothing : Str → Option (Stored × ℕ)
nothing k = none

abbrev encode : List ℕ → Str
encode bs = bs

abbrev pub ann : Str
ann = codes "a@x"

abbrev bob : Str
bob = codes "b@x"

mailed_le_example :
    mailed memory encode ann
      ((1, 7, bob) ∷ (2, 7, bob) ∷ (3, 7, bob) ∷ (4, 7, bob) ∷ (5, 7, bob) ∷ (60, 7, bob) ∷ [])
      nothing
    ≤ 5
mailed_le_example =
    mailed_le memory (expiring-IsExpiring Stored) encode ann 1
      ((1, 7, bob) ∷ (2, 7, bob) ∷ (3, 7, bob) ∷ (4, 7, bob) ∷ (5, 7, bob) ∷ (60, 7, bob) ∷ [])
      nothing
      (
        omega arith,
        omega arith,
        (
          omega arith,
          omega arith,
          (
            omega arith,
            omega arith,
            (omega arith, omega arith, (omega arith, omega arith, (omega arith, omega arith, tt))),
          ),
        ),
      )

abbrev user : User
user = record { id = 7; user_login = ann }

abbrev key : Str
key = codes "Nw9Xy"

visits-create_token_example :
    All
      (λ o. o ≡ ok (record { id = 7; name = ann }))
      (visits memory key
        (100 ∷ 800000 ∷ 1600000 ∷ [])
        (create_token memory 0 user key (codes "r") nothing).1).0
    × ((authorize_current_user memory 2500000
          (bearer key)
          (visits memory key
            (100 ∷ 800000 ∷ 1600000 ∷ [])
            (create_token memory 0 user key (codes "r") nothing).1).1).0
        ≡ err token_err)
visits-create_token_example =
    visits-create_token memory (expiring-IsExpiring Stored) user key (codes "r") 0 2500000
      (100 ∷ 800000 ∷ 1600000 ∷ []) nothing
      (omega arith, omega arith, (omega arith, omega arith, (omega arith, omega arith, tt)))
      (omega arith)

abbrev row : UserToken
row = refresh_row 7 (codes "r") 0

abbrev find : Str → Option (UserToken × Option User)
find t = some (row, some user)

refresh_key_iff_example :
    (refresh_key memory 5 find (codes "r") (codes "a2") (codes "r2") nothing
      ≡ ok (create_token memory 5 user (codes "a2") (codes "r2") nothing))
    ↔ ((w : UserToken) × (u : User) × (find (codes "r") ≡ some (w, some u))
        × (token_type_from_str w.token_type ≡ some refresh_type)
        × (5 ≤ w.expires_time)
        × (w.enable ≡ true)
        × (create_token memory 5 u (codes "a2") (codes "r2") nothing
            ≡ create_token memory 5 user (codes "a2") (codes "r2") nothing))
refresh_key_iff_example =
    refresh_key_iff memory find 5 (codes "r") (codes "a2") (codes "r2") nothing
      (create_token memory 5 user (codes "a2") (codes "r2") nothing)

abbrev issued_row : UserToken
issued_row = record {
  user_id = 7;
  token = gen_access_token (codes "Nw") (codes "9Xy");
  token_type = "Access";
  enable = true;
  expires_time = 900000;
}

abbrev find_all : (UserToken → Bool) → List UserToken
find_all p = issued_row ∷ []

issued : (p : UserToken → Bool) → All IsIssued (find_all p)
issued p = (
  (
    codes "Nw",
    codes "9Xy",
    (λ e. ground arith, (λ e. ground arith, tt)),
    (λ e. ground arith, (λ e. ground arith, (λ e. ground arith, tt))),
    refl,
  ),
  tt,
)

token_login-delete_user_token_example :
    (token_login memory 100 (gen_access_token (codes "Nw") (codes "9Xy")) (
      delete_user_token memory 50 find_all 7
        (create_token memory 0 user
          (gen_access_token (codes "Nw") (codes "9Xy"))
          (codes "r")
          nothing).1)).0
    ≡ ok (record { id = 7; name = ann })
token_login-delete_user_token_example =
    token_login-delete_user_token memory (expiring-IsExpiring Stored) find_all user
      (gen_access_token (codes "Nw") (codes "9Xy")) (codes "r") 0 50 100 nothing issued
      (omega arith) (omega arith)

-- A hash of sixteen bytes.
abbrev pub md5 : List ℕ → List ℕ
md5 s = length s ∷ replicate 15 7

-- What every round but the first gives.
abbrev fixed : List ℕ
fixed = 19 ∷ replicate 15 7

rounds : (n : ℕ) → hash_rounds md5 n (codes "123") fixed ≡ ok fixed
unfolding hash_rounds hash_round
rounds zero = refl
rounds (suc n) = rounds n

abbrev pub ann_row : UsersModel
ann_row = record {
  id = 5;
  u_id = 6;
  user_login = codes "ann";
  user_nick = codes "ann";
  email = some ann;
  active = true;
  active_token = [];
  picture = [];
  create_time = 0;
  password = codes "$P$B" ++ (codes "1f90657d" ++ password_encode fixed);
}

abbrev find_ann : (UsersModel → Bool) → Option UsersModel
find_ann p = if p ann_row then some ann_row else none

all_rounds :
    hash_rounds md5 (2 ^ 13) (codes "123") (md5 (codes "1f90657d" ++ codes "123")) ≡ ok fixed
unfolding hash_rounds hash_round
all_rounds = rounds 8191

pub ann_row-gen : gen_password md5 (codes "123") (codes "1f90657d") ≡ ok ann_row.password
unfolding gen_password hash8192
ann_row-gen = rw all_rounds refl

local_login_iff_example :
    (local_login md5 memory find_ann
        (record { username = ann; password = codes "wrong" })
        9
        (codes "t")
        (codes "r")
        nothing
      ≡ ok (create_token memory 9 (user_of ann_row) (codes "t") (codes "r") nothing))
    ↔ (gen_password md5 (codes "wrong") (codes "1f90657d") ≡ ok ann_row.password)
unfolding has_at
local_login_iff_example =
    local_login_iff md5 memory find_ann ann_row (codes "123") (codes "1f90657d") refl ann_row-gen
      (record { username = ann; password = codes "wrong" }) 9 (codes "t") (codes "r") nothing refl
