-- ===== src/Account/Login.antt =====
-- The login by name and password of the web server itself: `local_login` of
-- snap_api/src/service/user/login.rs.
use snapemu_workflow.Base.{
  ℕ, ◌≡◌, ◌↔◌, refl, ap, Bool, true, false, Option, none, some, List, [], ◌∷◌, ◌||◌, ◌==◌, length,
  if◌then◌else◌, Outcome, ok, err, panic, stuck, ◌>>=◌, ok_or,
}
use snapemu_workflow.Base.Texts.{same, same_iff}
use snapemu_workflow.Redis.{Str, Expiring}
use snapemu_workflow.Account.{ApiError, unfounded, login_error, Stored}
use snapemu_workflow.Account.Passwords.{gen_password, check_password}
use snapemu_workflow.Account.Passwords.Checks.{stored_of, gen_password-eq-ok, check_password_stored}
use snapemu_workflow.Account.Tokens.{User, UserToken, Token, create_token}

-- A row of the table of users.
pub record UsersModel : Type 0 where
  pub id : ℕ
  pub u_id : ℕ
  pub user_login : Str
  pub user_nick : Str
  pub password : Str
  pub email : Option Str
  pub active : Bool
  pub active_token : Str
  pub picture : Str
  pub create_time : ℕ

-- The filter `UsersColumn::Email.eq`: a row without an address does not pass.
abbrev pub email_eq : Str → Option Str → Bool
email_eq username none = false
email_eq username (some e) = same e username

pub record LoginUser : Type 0 where
  pub username : Str
  pub password : Str

-- `contains("@")`
unfoldable pub has_at : Str → Bool
has_at [] = false
has_at (c ∷ s) = (c == 64) || has_at s

abbrev pub user_of : UsersModel → User
user_of user = record { id = user.id; user_login = user.user_login }

module _ (md5 : List ℕ → List ℕ) (R : Expiring Stored) where
  abbrev pub Answer : Type 0
  Answer = (Token × UserToken × UserToken) × R.State

  -- What follows the check of the password, which gives no error of its own.
  abbrev pub after_check : Answer → Outcome Unit Bool → Outcome ApiError Answer
  after_check token (ok true) = ok token
  after_check token (ok false) = err login_error
  after_check token (err e) = stuck
  after_check token panic = panic
  after_check token stuck = stuck

  -- `find` is the query of one user by a filter.
  unfoldable pub local_login :
      ((UsersModel → Bool) → Option UsersModel)
      → LoginUser
      → ℕ
      → Str
      → Str
      → R.State
      → Outcome ApiError Answer
  local_login find req_user now access refresh s = do
    user ←
        ok_or
          (if has_at req_user.username
            then find (λ u. email_eq req_user.username u.email)
            else find (λ u. same u.user_login req_user.username))
          unfounded
    after_check (create_token R now (user_of user) access refresh s)
        (check_password md5 req_user.password user.password)

  -- Whether a password that was hashed to `o` is let in.
  let_in :
      (token : Answer) (stored : Str) (o : Outcome Unit Str)
      → (after_check token (o >>= (λ g. ok (same g stored))) ≡ ok token) ↔ (o ≡ ok stored)
  let_in token stored (ok g) = known (same g stored) refl
    where
      known :
          (b : Bool)
          → same g stored ≡ b
          → (after_check token (ok b) ≡ ok token) ↔ (◌≡◌ {A = Outcome Unit Str} (ok g) (ok stored))
      known true e = (λ h. ap ok ((same_iff g stored).0 e), λ h. refl)
      known false e =
          (λ h. cc, λ h. let eq : g ≡ stored = cc in let yes = (same_iff g stored).1 eq in cc)
  let_in token stored (err e) = (λ h. cc, λ h. cc)
  let_in token stored panic = (λ h. cc, λ h. cc)
  let_in token stored stuck = (λ h. cc, λ h. cc)

module _ (md5 : List ℕ → List ℕ) (R : Expiring Stored) where
  -- The user that the query finds by the address or by the name, as the text has an @ or not.
  abbrev pub found : ((UsersModel → Bool) → Option UsersModel) → Str → Option UsersModel
  found find username =
      if has_at username
      then find (λ u. email_eq username u.email)
      else find (λ u. same u.user_login username)

  -- A user who is found, and whose password was stored with a salt of eight bytes, is logged in with a
  -- new token by exactly the passwords that are stored as the same text with that salt.
  pub local_login_iff :
      (find : (UsersModel → Bool) → Option UsersModel) (user : UsersModel) (password salt : Str)
      → length salt ≡ 8
      → gen_password md5 password salt ≡ ok user.password
      → (req_user : LoginUser) (now : ℕ) (access refresh : Str) (s : R.State)
      → found find req_user.username ≡ some user
      → (local_login md5 R find req_user now access refresh s
          ≡ ok (create_token R now (user_of user) access refresh s))
        ↔ (gen_password md5 req_user.password salt ≡ ok user.password)
  unfolding local_login
  local_login_iff find user password salt e gen req_user now access refresh s f =
      let (h, eq) = gen_password-eq-ok md5 password salt user.password gen in
      let token = create_token R now (user_of user) access refresh s in
      rw (f, eq, check_password_stored md5 req_user.password salt h e)
        (let_in md5 R token (stored_of md5 salt h) (gen_password md5 req_user.password salt))
