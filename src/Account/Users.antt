-- ===== src/Account/Users.antt =====
-- The users of the web server: signup, the login over the server of users, the reset and the change of a
-- password (snap_api/src/service/user/signup.rs, login.rs, info.rs). What the server of users does
-- (snap_api/src/man/user_manager.rs asks it) is an interface; random texts and times are arguments.
pub mod Entry
pub mod Changes
pub mod Deletion
pub mod Active
pub mod Requests
mod Tests
use snapemu_workflow.Base.{
  ℕ, ◌+◌, ◌≡◌, Bool, true, false, not, ◌&&◌, Option, none, some, List, [], ◌∷◌, ◌++◌, length, ltb,
  ◌==◌, if◌then◌else◌, Outcome, ok, err, panic, stuck,
}
use snapemu_workflow.Base.Texts.{same}
use snapemu_workflow.Groups.{find, Group}
use snapemu_workflow.Groups as G
use snapemu_workflow.Redis.{Str, codes, Expiring}
use snapemu_workflow.Tables.{Table, IsTable}
use snapemu_workflow.Account.{ApiError, Stored, valid_code}
use snapemu_workflow.Account.Login.{UsersModel, email_eq, LoginUser}
use snapemu_workflow.Account.Passwords.{gen_password, check_password}
use snapemu_workflow.Devices.Creation.{slice_include}

pub data UserError : Type 0 where
  email_format name_format name_exist email_exist not_found_email : UserError
  password_missing old_password_missing short not_found password_error unknown_user token_error
        already_active :
      UserError
  -- What the server of users answers, and the errors of the codes.
  remote_error : ℕ → UserError
  code_error : ApiError → UserError

-- `UserResp`
pub record UserResp : Type 0 where
  pub id : ℕ
  pub username : Str
  pub email : Option Str

pub record UserInfo : Type 0 where
  pub username : Str
  pub password : Str
  pub email : Str

pub record UserPutInfo : Type 0 where
  pub password : Option Str
  pub old_password : Option Str

pub record UserResetPassword : Type 0 where
  pub email : Str
  pub code : Str
  pub password : Str

-- The server of users: what it answers and what it then keeps.
pub record Remote : Type 1 where
  pub State : Type 0
  pub password_login : Str → Str → State → Outcome UserError UserResp × State
  pub password_signup : Str → Str → Str → State → Outcome UserError UserResp × State
  pub active_email : ℕ → Str → State → Outcome UserError UserResp × State
  pub check_email : Str → State → Outcome UserError (Option UserResp) × State
  pub reset_password : ℕ → Str → State → Outcome UserError UserResp × State
  pub change_password : ℕ → Str → Str → State → Outcome UserError UserResp × State
  pub delete_user : ℕ → State → Outcome UserError Unit × State

-- `has_remote` says whether the configuration names a server of users.
pub record Services : Type 1 where
  pub users : Table UsersModel
  pub groups : G.Tables
  pub caches : G.Cache
  pub remote : Remote
  pub has_remote : Bool

pub record World (S : Services) : Type 0 where
  pub users : S.users.State
  pub groups : S.groups.State
  pub caches : S.caches.State
  pub remote : S.remote.State

-- The name characters of `Checker::username`.
abbrev pub username_table : Str
username_table = codes "0123456789ABCDEFGHIJKLMNOPQRSTUVWXYZabcdefghijklmnopqrstuvwxyz-"

unfoldable pub check_username : Str → Bool
check_username [] = true
check_username (c ∷ s) = slice_include c username_table && check_username s

-- A request leaves the world that it has reached, also where it ends with an error.
abbrev pub Run : Services → Type 0 → Type 0
Run S A = World S → Outcome UserError A × World S

module _ {S : Services} {A B : Type 0} where
  abbrev pub next : (A → Run S B) → Outcome UserError A × World S → Outcome UserError B × World S
  next f (ok a, w) = f a w
  next f (err e, w) = (err e, w)
  next f (panic, w) = (panic, w)
  next f (stuck, w) = (stuck, w)

  infixr 1 ◌>>=◌
  abbrev pub ◌>>=◌ : Run S A → (A → Run S B) → Run S B
  ◌>>=◌ m f w = next f (m w)

  abbrev pub ◌>>◌ : Run S A → Run S B → Run S B
  ◌>>◌ m k w = next (λ a. k) (m w)

module _ {S : Services} where
  abbrev pub give : {A : Type 0} → A → Run S A
  give a w = (ok a, w)

  abbrev pub fail : {A : Type 0} → UserError → Run S A
  fail e w = (err e, w)

  abbrev pub check : Bool → UserError → Run S Unit
  check true e w = (ok tt, w)
  check false e w = (err e, w)

  abbrev pub must : {A : Type 0} → Option A → UserError → Run S A
  must none e w = (err e, w)
  must (some a) e w = (ok a, w)

  abbrev pub must_not : {A : Type 0} → Option A → UserError → Run S Unit
  must_not none e w = (ok tt, w)
  must_not (some a) e w = (err e, w)

  -- A hash panics or ends; it has no error.
  abbrev pub hashed : {A : Type 0} → Outcome Unit A → Run S A
  hashed (ok a) w = (ok a, w)
  hashed (err e) w = (stuck, w)
  hashed panic w = (panic, w)
  hashed stuck w = (stuck, w)

module _ (S : Services) where
  abbrev pub kept :
      {A : Type 0} → World S → Outcome UserError A × S.remote.State → Outcome UserError A × World S
  kept w (o, r) = (o, record w { remote = r })

  -- A question to the server of users.
  abbrev pub ask : {A : Type 0} → (S.remote.State → Outcome UserError A × S.remote.State) → Run S A
  ask q w = kept w (q w.remote)

  abbrev pub user_by : (UsersModel → Bool) → Run S (Option UsersModel)
  user_by p w = (ok (find p (S.users.rows w.users)), w)

  -- The new user, with his default group.
  unfoldable pub insert_user : (ℕ → UsersModel) → Run S UsersModel
  insert_user make w =
      let (user, users) = S.users.insert make w.users in
      let (group, groups) =
        S.groups.insert_group (codes "All") (codes "All") true user.id w.groups in
      (
        ok user,
        record w {
          users = users;
          groups = groups;
          caches = S.caches.delete_by_user_id user.id w.caches;
        },
      )

  unfoldable pub update_user : UsersModel → Run S Unit
  update_user user w = (ok tt, record w { users = S.users.update user w.users })

  abbrev pub activate : UserResp → Option Str → Run S Unit
  activate user none = give tt
  activate user (some email) = ask (S.remote.active_email user.id email) >>= λ r. give tt

  -- The id and the address that a new user gets; `uuid` is a new random one.
  unfoldable pub remote_signup : Bool → ℕ → UserInfo → Run S (ℕ × Option Str)
  remote_signup false uuid info = give (uuid, some info.email)
  remote_signup true uuid info = do
    auth_user ← ask (S.remote.password_signup info.username info.password info.email)
    activate auth_user auth_user.email
    give (auth_user.id, auth_user.email)

abbrev pub signup_row : UserInfo → ℕ × Option Str → Str → Str → ℕ → ℕ → UsersModel
signup_row info (u_id, email) password token now id = record {
  id = id;
  u_id = u_id;
  user_login = info.username;
  user_nick = info.username;
  password = password;
  email = email;
  active = true;
  active_token = token;
  picture = [];
  create_time = now;
}

-- The user who is inserted at the first login over the server of users.
abbrev pub login_row : UserResp → ℕ → ℕ → UsersModel
login_row auth_user now id = record {
  id = id;
  u_id = auth_user.id;
  user_login = auth_user.username;
  user_nick = auth_user.username;
  password = [];
  email = auth_user.email;
  active = true;
  active_token = [];
  picture = [];
  create_time = now;
}

module _ (S : Services) (md5 : List ℕ → List ℕ) where
  -- `email_ok` is the parse of an address by the crate `lettre`.
  unfoldable pub signup : (Str → Bool) → ℕ → ℕ → Str → Str → UserInfo → Run S ℕ
  signup email_ok now uuid salt token info = do
    check (email_ok info.email) email_format
    check (check_username info.username) name_format
    by_name ← user_by S (λ u. same u.user_login info.username)
    must_not by_name name_exist
    by_email ← user_by S (λ u. email_eq info.email u.email)
    must_not by_email email_exist
    remote ← remote_signup S S.has_remote uuid info
    password ← hashed (gen_password md5 info.password salt)
    user ← insert_user S (signup_row info remote password token now)
    give user.id

  abbrev pub or_new : UserResp → ℕ → Option UsersModel → Run S UsersModel
  or_new auth_user now none = insert_user S (login_row auth_user now)
  or_new auth_user now (some user) = give user

  -- `login` where there is a server of users, up to the token that the user gets.
  unfoldable pub remote_login : ℕ → LoginUser → Run S UsersModel
  remote_login now req_user = do
    auth_user ← ask S (S.remote.password_login req_user.username req_user.password)
    user ← user_by S (λ u. u.u_id == auth_user.id)
    or_new auth_user now user

  abbrev pub found_email : Option UserResp → Run S UserResp
  found_email o = must o not_found_email

  unfoldable pub reset_local : Str → UserResetPassword → Run S Unit
  reset_local salt req = do
    by_email ← user_by S (λ u. email_eq req.email u.email)
    model ← must by_email not_found_email
    password ← hashed (gen_password md5 req.password salt)
    update_user S (record model { password = password })

  unfoldable pub reset_remote : UserResetPassword → Run S Unit
  reset_remote req = do
    known ← ask S (S.remote.check_email req.email)
    user_remote ← must known not_found_email
    changed ← ask S (S.remote.reset_password user_remote.id req.password)
    give tt

  abbrev pub reset_valid : Str → UserResetPassword → Outcome ApiError Unit → Run S Unit
  reset_valid salt req (ok u) = if S.has_remote then reset_remote req else reset_local salt req
  reset_valid salt req (err e) = fail (code_error e)
  reset_valid salt req panic = λ w. (panic, w)
  reset_valid salt req stuck = λ w. (stuck, w)

  -- `codes_state` is what redis keeps of the codes that were mailed.
  unfoldable pub reset_password :
      (R : Expiring Stored) → ℕ → R.State → Str → UserResetPassword → Run S Unit
  reset_password R now codes_state salt req =
      reset_valid salt req (valid_code R now req.email req.code codes_state)

  abbrev pub remote_change : Bool → UsersModel → Str → Str → Run S Unit
  remote_change false u password old_password = give tt
  remote_change true u password old_password =
      ask S (S.remote.change_password u.u_id password old_password) >>= λ r. give tt

  unfoldable pub info : Str → ℕ → UserPutInfo → Run S Unit
  info salt user_id req = do
    password ← must req.password password_missing
    old_password ← must req.old_password old_password_missing
    check (not (ltb (length password) 8)) short
    by_id ← user_by S (λ u. u.id == user_id)
    u ← must by_id not_found
    remote_change S.has_remote u password old_password
    right ← hashed (check_password md5 old_password u.password)
    check right password_error
    new_password ← hashed (gen_password md5 password salt)
    update_user S (record u { password = new_password })

  abbrev pub activate_email : UsersModel → Run S Unit
  activate_email user = do
    email ← must user.email token_error
    answer ← ask S (S.remote.active_email user.u_id email)
    give tt

  unfoldable pub verify_active_token : Str → Run S Unit
  verify_active_token token = do
    check (not (same token [])) token_error
    db_user ← user_by S (λ u. same u.active_token token)
    user ← must db_user token_error
    check (not user.active) already_active
    activate_email user
