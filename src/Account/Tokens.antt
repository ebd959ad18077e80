-- ===== src/Account/Tokens.antt =====
-- The tokens of users (snap_api/src/service/user/token.rs, login.rs, auth.rs). Rows of the table of
-- tokens are what the queries answer; random texts are arguments.
use text.Mathlib.Text.{◌==◌ as same_text}
use Prim.Native.String.{String}
use snapemu_workflow.Base.{
  ℕ, ◌+◌, ◌-◌, Bool, true, not, ◌&&◌, Option, none, some, List, [], ◌∷◌, ◌++◌, map, take, ltb, ◌==◌,
  if◌then◌else◌, Outcome, ok, err, ◌>>=◌, ok_or,
}
use snapemu_workflow.Base.Texts.{split_once}
use snapemu_workflow.Redis.{Str, codes, Expiring}
use snapemu_workflow.Account.{
  ApiError, token_err, access_timeout, refresh_timeout, refresh_disabled, require_refresh,
  invalid_token, auth_begin, redis_type, RedisToken, Stored, sent, code, session, token_key,
}

pub data TokenType : Type 0 where
  access_type refresh_type : TokenType

unfoldable pub token_type_from_str : String → Option TokenType
token_type_from_str t =
    if same_text t "Access"
    then some access_type
    else if same_text t "Refresh"
    then some refresh_type
    else none

-- `UserTokenModel`, its times in seconds.
pub record UserToken : Type 0 where
  pub user_id : ℕ
  pub token : Str
  pub token_type : String
  pub enable : Bool
  pub expires_time : ℕ

pub record User : Type 0 where
  pub id : ℕ
  pub user_login : Str

-- What a client is given.
pub record Token : Type 0 where
  pub access_token : Str
  pub expires : ℕ
  pub refresh_token : Str

abbrev pub access_expires : ℕ
access_expires = 864000

abbrev pub refresh_expires : ℕ
refresh_expires = 1296000

-- `gen_access_token`, of the text of the id and the text of a hash, each in base 64.
unfoldable pub gen_access_token : Str → Str → Str
gen_access_token id_text hash_text = id_text ++ take 20 hash_text

-- The rows that `access_token` and `refresh_token` insert.
unfoldable pub access_row : ℕ → Str → ℕ → UserToken
access_row user_id token now = record {
  user_id = user_id;
  token = token;
  token_type = "Access";
  enable = true;
  expires_time = now + access_expires;
}

unfoldable pub refresh_row : ℕ → Str → ℕ → UserToken
refresh_row user_id token now = record {
  user_id = user_id;
  token = token;
  token_type = "Refresh";
  enable = true;
  expires_time = now + refresh_expires;
}

abbrev pub auth_typed : ℕ → UserToken → TokenType → Outcome ApiError TokenType
auth_typed now token access_type =
    if ltb token.expires_time now
    then err access_timeout
    else if not token.enable
    then err access_timeout
    else ok access_type
auth_typed now token refresh_type =
    if ltb token.expires_time now
    then err refresh_timeout
    else if not token.enable
    then err refresh_disabled
    else ok refresh_type

unfoldable pub auth_token : ℕ → UserToken → Outcome ApiError TokenType
auth_token now token =
    ok_or (token_type_from_str token.token_type) token_err >>= auth_typed now token

module _ (R : Expiring Stored) (now : ℕ) where
  -- `create_token`: what the client is given, the rows that are inserted, and the session.
  unfoldable pub create_token :
      User → Str → Str → R.State → (Token × UserToken × UserToken) × R.State
  create_token user access refresh s =
      let r : RedisToken = record { id = user.id; name = user.user_login } in
      let answer : Token = record {
        access_token = access;
        expires = access_expires;
        refresh_token = refresh;
      } in
      (
        (answer, access_row user.id access now, refresh_row user.id refresh now),
        R.set_ex (token_key access) (session r) access_expires now s,
      )

  abbrev pub create_for :
      Option User
      → Str
      → Str
      → R.State
      → TokenType
      → Outcome ApiError ((Token × UserToken × UserToken) × R.State)
  create_for user access refresh s access_type = err require_refresh
  create_for (some user) access refresh s refresh_type = ok (create_token user access refresh s)
  create_for none access refresh s refresh_type = err invalid_token

  abbrev pub refresh_with :
      Str
      → Str
      → R.State
      → UserToken × Option User
      → Outcome ApiError ((Token × UserToken × UserToken) × R.State)
  refresh_with access refresh s (row, user) =
      auth_token now row >>= create_for user access refresh s

  -- `find` is the query of a token with its user.
  unfoldable pub refresh_key :
      (Str → Option (UserToken × Option User))
      → Str
      → Str
      → Str
      → R.State
      → Outcome ApiError ((Token × UserToken × UserToken) × R.State)
  refresh_key find token access refresh s =
      ok_or (find token) token_err >>= refresh_with access refresh s

  abbrev pub logged_in : Option Stored → Outcome ApiError RedisToken
  logged_in none = err token_err
  logged_in (some (session r)) = ok r
  logged_in (some (sent n)) = err redis_type
  logged_in (some code) = err redis_type

  -- `token_login`: the session is read and lives on for another `access_expires`.
  unfoldable pub token_login : Str → R.State → Outcome ApiError RedisToken × R.State
  token_login token s =
      (logged_in (R.get s now (token_key token)), R.expire (token_key token) access_expires now s)

  abbrev pub login_after : Option (Str × Str) → R.State → Outcome ApiError RedisToken × R.State
  login_after none s = (err auth_begin, s)
  login_after (some (before, auth)) s = token_login auth s

  unfoldable pub authorize_current_user : Str → R.State → Outcome ApiError RedisToken × R.State
  authorize_current_user auth_token s = login_after (split_once (codes "Bearer ") auth_token) s

  abbrev pub del_all : List Str → R.State → R.State
  del_all [] s = s
  del_all (k ∷ ks) s = del_all ks (R.del k s)

  -- `delete_user_token`, on redis; `find_all` is the query by a filter. The rows of the user are then
  -- deleted from the table.
  unfoldable pub delete_user_token : ((UserToken → Bool) → List UserToken) → ℕ → R.State → R.State
  delete_user_token find_all user_id s =
      let access_token = find_all (λ t.
        (t.user_id == user_id)
        && (same_text t.token_type "Access" && ltb (now - access_expires) t.expires_time)) in
      del_all (map (λ t. t.token) access_token) s
