-- ===== src/Account.antt =====
-- The accounts of the web server (snap_api/src): the codes that are mailed to a user
-- (man/user_status.rs, service/user/signup.rs) and the tokens that let one in (service/user/token.rs,
-- login.rs, auth.rs). Redis is an interface; the database and the server of users are the functions
-- that ask them.
pub mod Codes
pub mod Tokens
pub mod Sessions
pub mod Deletion
pub mod Passwords
pub mod Login
pub mod Users
mod Tests
use snapemu_workflow.Base.{
  ℕ, ◌+◌, ◌-◌, ◌*◌, ◌/◌, ◌%◌, ◌^◌, Bool, true, false, not, ◌&&◌, Option, none, some, List, [], ◌∷◌,
  ◌++◌, map, ltb, leb, ◌==◌, if◌then◌else◌, Outcome, ok, err, ◌>>=◌, ◌>>◌, ensure, ok_or,
}
use snapemu_workflow.Base.Bytes.{to_be_bytes}
use snapemu_workflow.Redis.{Str, codes, Expiring}

pub data ApiError : Type 0 where
  not_valid_code email_limit not_found_email token_err access_timeout refresh_timeout : ApiError
  refresh_disabled require_refresh invalid_token auth_begin redis_type : ApiError
  unfounded login_error : ApiError

pub record RedisToken : Type 0 where
  pub id : ℕ
  pub name : Str

-- The values that redis keeps for accounts: how many mails were sent, a code, and a session.
pub data Stored : Type 0 where
  sent : ℕ → Stored
  code : Stored
  session : RedisToken → Stored

unfoldable pub email_key : Str → Str
email_key email = codes "email:" ++ email

-- `UserStatus::code`
unfoldable pub code_key : Str → Str → Str
code_key email c = codes "code:" ++ email

unfoldable pub token_key : Str → Str
token_key token = codes "token:" ++ token

abbrev pub max_count : ℕ
max_count = 5

-- A half byte, made a decimal digit.
abbrev pub decimal : ℕ → ℕ
decimal r = if ltb 9 r then r - 9 else r

-- The bytes of a new code, from a random u32.
unfoldable pub code_bytes : ℕ → List ℕ
code_bytes random = map (λ x. decimal (x / 16) * 2 ^ 4 + decimal (x % 16)) (to_be_bytes 4 random)

pub record EmailCount : Type 0 where
  pub key : Str
  pub count : ℕ

unfoldable pub limit : EmailCount → Bool
limit c = ltb c.count max_count

module _ (R : Expiring Stored) (now : ℕ) where
  unfoldable pub update_email_send_count : EmailCount → R.State → R.State
  update_email_send_count c s =
      let count = if leb max_count c.count then max_count else c.count + 1 in
      R.set_ex c.key (sent count) 100 now s

  abbrev pub some_code : Option Stored → Outcome ApiError Unit
  some_code none = err not_valid_code
  some_code (some v) = ok tt

  unfoldable pub valid_code : Str → Str → R.State → Outcome ApiError Unit
  valid_code email c s = some_code (R.get s now (code_key email c))

  -- `encode` is that of the crate `hex`.
  unfoldable pub gen_code : (List ℕ → Str) → ℕ → Str → R.State → Str × R.State
  gen_code encode random email s =
      let c = encode (code_bytes random) in (c, R.set_ex (code_key email c) code 100 now s)

  abbrev pub count_from : Str → Option Stored → Outcome ApiError EmailCount
  count_from k none = ok (record { key = k; count = 0 })
  count_from k (some (sent n)) = ok (record { key = k; count = n })
  count_from k (some code) = err redis_type
  count_from k (some (session t)) = err redis_type

  unfoldable pub email_send_count : Str → R.State → Outcome ApiError EmailCount
  email_send_count email s = count_from (email_key email) (R.get s now (email_key email))

  -- The end of `reset` and of `delete`: the name, the address and the code of the mail.
  unfoldable pub send_code :
      (List ℕ → Str) → ℕ → Str → Str → R.State → Outcome ApiError ((Str × Str × Str) × R.State)
  send_code encode random username email s = do
    c ← email_send_count email s
    ensure (limit c) email_limit
    let (mailed, s2) = gen_code encode random email (update_email_send_count c s) in
        ok ((username, email, mailed), s2)

  -- `find_remote` is the server of users if there is one, and `find` the database.
  module _ (find_remote : Option (Str → Option Str)) (find : Str → Option Str) where
    abbrev pub username_of : Str → Option (Str → Option Str) → Option Str
    username_of email (some check_email) = check_email email
    username_of email none = find email

    unfoldable pub reset :
        (List ℕ → Str) → ℕ → Str → R.State → Outcome ApiError ((Str × Str × Str) × R.State)
    reset encode random email s = do
      username ← ok_or (username_of email find_remote) not_found_email
      send_code encode random username email s

    abbrev pub known_remote : Str → Option (Str → Option Str) → Outcome ApiError Unit
    known_remote email (some check_email) =
        ok_or (check_email email) not_found_email >>= λ user. ok tt
    known_remote email none = ok tt

    unfoldable pub delete :
        (List ℕ → Str) → ℕ → Str → R.State → Outcome ApiError ((Str × Str × Str) × R.State)
    delete encode random email s = do
      known_remote email find_remote
      username ← ok_or (find email) not_found_email
      send_code encode random username email s
