-- ===== src/Account/Users/Requests.antt =====
-- The requests of users one after the other.
use snapemu_workflow.Base.{
  ℕ, ◌≡◌, refl, inl, inr, Bool, true, false, not, Bool-cases, Option, none, some, List, [], ◌==◌,
  if◌then◌else◌, length, ltb, Outcome, ok, err, panic, stuck,
}
use snapemu_workflow.Base.Texts.{same}
use snapemu_workflow.Groups.{find}
use snapemu_workflow.Redis.{Str, Expiring}
use snapemu_workflow.Tables.{IsTable}
use snapemu_workflow.Tables.Rows.{find-All}
use snapemu_workflow.Account.{ApiError, Stored, valid_code}
use snapemu_workflow.Account.Login.{UsersModel, email_eq, LoginUser}
use snapemu_workflow.Account.Passwords.{gen_password, check_password}
use snapemu_workflow.Account.Users.{
  UserError, email_format, name_format, name_exist, email_exist, not_found_email, password_missing,
  old_password_missing, short, not_found, password_error, token_error, already_active, UserResp,
  UserInfo, UserPutInfo, UserResetPassword, Services, World, remote_signup, check_username, signup,
  signup_row, or_new, remote_login, login_row, reset_local, reset_remote, reset_valid,
  reset_password, remote_change, info, verify_active_token, activate,
}
use snapemu_workflow.Account.Users.Active.{
  AllActive, Keeps, Any, bind-Keeps, give-Keeps, check-Keeps, must-Keeps, must_not-Keeps,
  hashed-Keeps, ask-Keeps, user_by-Keeps, insert_user-Keeps, update_user-Keeps,
}

module _ (S : Services) (laws : IsTable S.users) (md5 : List ℕ → List ℕ) where
  activate-Keeps : (user : UserResp) (email : Option Str) → Keeps S (Any S) (activate S user email)
  activate-Keeps user none = give-Keeps S tt tt
  activate-Keeps user (some email) =
      bind-Keeps S _ _ (ask-Keeps S (S.remote.active_email user.id email))
        (λ r h. give-Keeps S tt tt)

  remote_signup-Keeps :
      (b : Bool) (uuid : ℕ) (req : UserInfo) → Keeps S (Any S) (remote_signup S b uuid req)
  unfolding remote_signup
  remote_signup-Keeps false uuid req = give-Keeps S (uuid, some req.email) tt
  remote_signup-Keeps true uuid req =
      bind-Keeps S _ _ (ask-Keeps S (S.remote.password_signup req.username req.password req.email))
        λ auth_user h.
          bind-Keeps S _ _ (activate-Keeps auth_user auth_user.email)
            λ r k. give-Keeps S (auth_user.id, auth_user.email) tt

  signup-Keeps :
      (email_ok : Str → Bool) (now uuid : ℕ) (salt token : Str) (req : UserInfo)
      → Keeps S (Any S) (signup S md5 email_ok now uuid salt token req)
  unfolding signup
  signup-Keeps email_ok now uuid salt token req =
      bind-Keeps S _ _ (check-Keeps S (email_ok req.email) email_format) λ a h1.
        bind-Keeps S _ _ (check-Keeps S (check_username req.username) name_format) λ b h2.
          bind-Keeps S _ _ (user_by-Keeps S (λ u. same u.user_login req.username)) λ by_name h3.
            bind-Keeps S _ _ (must_not-Keeps S by_name name_exist) λ c h4.
              bind-Keeps S _ _ (user_by-Keeps S (λ u. email_eq req.email u.email)) λ by_email h5.
                bind-Keeps S _ _ (must_not-Keeps S by_email email_exist) λ d h6.
                  bind-Keeps S _ _ (remote_signup-Keeps S.has_remote uuid req) λ remote h7.
                    bind-Keeps S _ _ (hashed-Keeps S (gen_password md5 req.password salt))
                      λ password h8.
                        bind-Keeps S _ _
                          (insert_user-Keeps S laws (signup_row req remote password token now)
                            (λ id. refl))
                          λ user h9. give-Keeps S user.id tt

  or_new-Keeps :
      (auth_user : UserResp) (now : ℕ) (o : Option UsersModel)
      → Keeps S (Any S) (or_new S md5 auth_user now o)
  or_new-Keeps auth_user now none = record {
    run = λ w active. (
      ((insert_user-Keeps S laws (login_row auth_user now) (λ id. refl)).run w active).0,
      λ u e. tt,
    );
  }
  or_new-Keeps auth_user now (some user) = give-Keeps S user tt

  remote_login-Keeps : (now : ℕ) (req : LoginUser) → Keeps S (Any S) (remote_login S md5 now req)
  unfolding remote_login
  remote_login-Keeps now req =
      bind-Keeps S _ _ (ask-Keeps S (S.remote.password_login req.username req.password))
        λ auth_user h.
          bind-Keeps S _ _ (user_by-Keeps S (λ u. u.u_id == auth_user.id))
            λ user k. or_new-Keeps auth_user now user

  reset_local-Keeps :
      (salt : Str) (req : UserResetPassword) → Keeps S (Any S) (reset_local S md5 salt req)
  unfolding reset_local
  reset_local-Keeps salt req =
      bind-Keeps S _ _ (user_by-Keeps S (λ u. email_eq req.email u.email)) λ by_email found.
        bind-Keeps S _ _ (must-Keeps S by_email not_found_email) λ model is.
          bind-Keeps S _ _ (hashed-Keeps S (gen_password md5 req.password salt)) λ password h.
            update_user-Keeps S laws (record model { password = password }) (found model is)

  reset_remote-Keeps : (req : UserResetPassword) → Keeps S (Any S) (reset_remote S md5 req)
  unfolding reset_remote
  reset_remote-Keeps req =
      bind-Keeps S _ _ (ask-Keeps S (S.remote.check_email req.email)) λ known h.
        bind-Keeps S _ _ (must-Keeps S known not_found_email) λ user_remote is.
          bind-Keeps S _ _ (ask-Keeps S (S.remote.reset_password user_remote.id req.password))
            λ r k. give-Keeps S tt tt

  reset_valid-Keeps :
      (salt : Str) (req : UserResetPassword) (o : Outcome ApiError Unit)
      → Keeps S (Any S) (reset_valid S md5 salt req o)
  reset_valid-Keeps salt req (ok u) = branch S.has_remote
    where
      branch :
          (b : Bool)
          → Keeps S (Any S) (if b then reset_remote S md5 req else reset_local S md5 salt req)
      branch true = reset_remote-Keeps req
      branch false = reset_local-Keeps salt req
  reset_valid-Keeps salt req (err e) = record { run = λ w active. (active, λ a f. tt) }
  reset_valid-Keeps salt req panic = record { run = λ w active. (active, λ a f. tt) }
  reset_valid-Keeps salt req stuck = record { run = λ w active. (active, λ a f. tt) }

  remote_change-Keeps :
      (b : Bool) (u : UsersModel) (password old_password : Str)
      → Keeps S (Any S) (remote_change S md5 b u password old_password)
  remote_change-Keeps false u password old_password = give-Keeps S tt tt
  remote_change-Keeps true u password old_password =
      bind-Keeps S _ _ (ask-Keeps S (S.remote.change_password u.u_id password old_password))
        (λ r h. give-Keeps S tt tt)

  info-Keeps : (salt : Str) (id : ℕ) (req : UserPutInfo) → Keeps S (Any S) (info S md5 salt id req)
  unfolding info
  info-Keeps salt id req =
      bind-Keeps S _ _ (must-Keeps S req.password password_missing) λ password h1.
        bind-Keeps S _ _ (must-Keeps S req.old_password old_password_missing) λ old_password h2.
          bind-Keeps S _ _ (check-Keeps S (not (ltb (length password) 8)) short) λ a h3.
            bind-Keeps S _ _ (user_by-Keeps S (λ u. u.id == id)) λ by_id found.
              bind-Keeps S _ _ (must-Keeps S by_id not_found) λ u is.
                bind-Keeps S _ _ (remote_change-Keeps S.has_remote u password old_password) λ b h4.
                  bind-Keeps S _ _ (hashed-Keeps S (check_password md5 old_password u.password))
                    λ right h5. bind-Keeps S _ _ (check-Keeps S right password_error) λ c h6.
                      bind-Keeps S _ _ (hashed-Keeps S (gen_password md5 password salt))
                        λ new_password h7.
                          update_user-Keeps S laws (record u { password = new_password })
                            (found u is)

-- The worlds that requests lead to, whatever the random texts and the times.
module _ (S : Services) (md5 : List ℕ → List ℕ) (R : Expiring Stored) where
  pub data Reach (w : World S) : World S → Type 0 where
    start : Reach w w
    signs_up :
        {v : World S} (email_ok : Str → Bool) (now uuid : ℕ) (salt token : Str) (req : UserInfo)
        → Reach w v
        → Reach w (signup S md5 email_ok now uuid salt token req v).1
    logs_in :
        {v : World S} (now : ℕ) (req : LoginUser)
        → Reach w v
        → Reach w (remote_login S md5 now req v).1
    resets :
        {v : World S} (now : ℕ) (codes_state : R.State) (salt : Str) (req : UserResetPassword)
        → Reach w v
        → Reach w (reset_password S md5 R now codes_state salt req v).1
    changes :
        {v : World S} (salt : Str) (id : ℕ) (req : UserPutInfo)
        → Reach w v
        → Reach w (info S md5 salt id req v).1

module _ (S : Services) (laws : IsTable S.users) (md5 : List ℕ → List ℕ) (R : Expiring Stored) where
  Reach-AllActive : (w v : World S) → AllActive S w → Reach S md5 R w v → AllActive S v
  unfolding reset_password
  Reach-AllActive w v active start = active
  Reach-AllActive w v active (signs_up {v = u} email_ok now uuid salt token req before) =
      ((signup-Keeps S laws md5 email_ok now uuid salt token req).run u
        (Reach-AllActive w u active before)).0
  Reach-AllActive w v active (logs_in {v = u} now req before) =
      ((remote_login-Keeps S laws md5 now req).run u (Reach-AllActive w u active before)).0
  Reach-AllActive w v active (resets {v = u} now codes_state salt req before) =
      ((reset_valid-Keeps S laws md5 salt req (valid_code R now req.email req.code codes_state)).run
        u (Reach-AllActive w u active before)).0
  Reach-AllActive w v active (changes {v = u} salt id req before) =
      ((info-Keeps S laws md5 salt id req).run u (Reach-AllActive w u active before)).0

  -- From a table whose users are all active, whatever users sign up, log in over the server of users, and reset and
  -- change passwords, with whatever results: all users are active, and the link that is to activate a user is
  -- refused, without a question to the server of users.
  pub verify_active_token_refused :
      (w v : World S) (token : Str)
      → AllActive S w
      → Reach S md5 R w v
      → AllActive S v × ((e : UserError) × (verify_active_token S md5 token v ≡ (err e, v)))
  unfolding verify_active_token
  verify_active_token_refused w v token active reach =
      let now_active = Reach-AllActive w v active reach in
      (
        now_active,
        elim (Bool-cases (same token [])) [
          | inl empty ↦ (token_error, rw empty refl)
          | inr given ↦
              let found : Option UsersModel =
                find (λ u. same u.active_token token) (S.users.rows v.users) in
              refused given found refl (λ u is.
                find-All (λ u. u.active ≡ true) (λ u. same u.active_token token)
                  (S.users.rows v.users) u now_active is)
        ],
      )
    where
      refused :
          same token [] ≡ false
          → (o : Option UsersModel)
          → find (λ u. same u.active_token token) (S.users.rows v.users) ≡ o
          → ((u : UsersModel) → o ≡ some u → u.active ≡ true)
          → (e : UserError) × (verify_active_token S md5 token v ≡ (err e, v))
      refused given none is active = (token_error, rw (given, is) refl)
      refused given (some u) is active = (already_active, rw (given, is, active u refl) refl)
