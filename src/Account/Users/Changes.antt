-- ===== src/Account/Users/Changes.antt =====
-- What a change and a reset of a password do.
use snapemu_workflow.Base.{
  ℕ, ◌+◌, ◌≤◌, ◌<◌, ◌≡◌, refl, sym, ap, ◌∙◌, true, false, ==_iff, none, some, List, [], length, ltb,
  lt→ltb, ◌==◌, ok, err, arith,
}
use snapemu_workflow.Groups.{find}
use snapemu_workflow.Redis.{Str, Expiring, IsExpiring}
use snapemu_workflow.Tables.{IsTable}
use snapemu_workflow.Tables.Rows.{find-replaced}
use snapemu_workflow.Account.{Stored, code, code_key, valid_code, gen_code}
use snapemu_workflow.Account.Login.{
  UsersModel, email_eq, LoginUser, has_at, user_of, local_login, local_login_iff,
}
use snapemu_workflow.Account.Passwords.{gen_password, check_password}
use snapemu_workflow.Account.Tokens.{create_token}
use snapemu_workflow.Account.Users.{
  password_error, UserResp, UserResetPassword, Services, World, insert_user, update_user, login_row,
  remote_login, reset_local, reset_password, info,
}

module _ (S : Services) (md5 : List ℕ → List ℕ) where
  -- With a server of users, for a user who has no password of his own: the change of a password of eight or more
  -- bytes is answered with an error, after the server has changed it.
  pub info_remote :
      (salt : Str) (u : UsersModel) (password old_password : Str) (w : World S) (resp : UserResp)
      (r : S.remote.State)
      → S.has_remote ≡ true
      → 8 ≤ length password
      → find (λ v. v.id == u.id) (S.users.rows w.users) ≡ some u
      → u.password ≡ []
      → S.remote.change_password u.u_id password old_password w.remote ≡ (ok resp, r)
      → info S md5 salt u.id
          (record { password = some password; old_password = some old_password })
          w
        ≡ (err password_error, record w { remote = r })
  unfolding info check_password
  info_remote salt u password old_password w resp r remote long found empty changed =
      rw (not_short (length password) long, found, remote, changed, empty) refl
    where
      not_short : (n : ℕ) → 8 ≤ n → ltb n 8 ≡ false
      not_short n h = ground arith

module _ (S : Services) (laws : IsTable S.users) (md5 : List ℕ → List ℕ) where
  -- A user who comes in over the server of users for the first time, and then changes the password to one of eight or
  -- more bytes: the server changes it, and the answer is an error.
  pub remote_login-info :
      (now : ℕ) (salt : Str) (req_user : LoginUser) (password : Str) (w : World S)
      (auth_user resp : UserResp) (s r : S.remote.State)
      → S.has_remote ≡ true
      → 8 ≤ length password
      → S.remote.password_login req_user.username req_user.password w.remote ≡ (ok auth_user, s)
      → find (λ u. u.u_id == auth_user.id) (S.users.rows w.users) ≡ none
      → S.remote.change_password auth_user.id password req_user.password s ≡ (ok resp, r)
      → (user : UsersModel) × (v : World S) × (remote_login S md5 now req_user w ≡ (ok user, v))
        × (info S md5 salt user.id
              (record { password = some password; old_password = some req_user.password })
              v
            ≡ (err password_error, record v { remote = r }))
  unfolding remote_login insert_user find
  remote_login-info now salt req_user password w auth_user resp s r remote long login new changed =
      let row = login_row auth_user now in
      let w1 : World S = record w { remote = s } in
      let user = (S.users.insert row w.users).0 in
      let v = (insert_user S row w1).1 in
      let (k, fresh, is, rows) = laws.rows-insert row w.users in
      (
        user,
        v,
        rw (login, new) refl,
        info_remote S md5 salt user password req_user.password v resp r remote long
            (rw (is, rows, (==_iff k k).1 refl) refl) (ap (λ u. u.password) is)
            (ap (λ u. S.remote.change_password u.u_id password req_user.password s) is ∙ changed),
      )

module _ (S : Services) (laws : IsTable S.users) (own_key : (u : UsersModel) → S.users.key u ≡ u.id)
    (md5 : List ℕ → List ℕ) (R : Expiring Stored) (kept : IsExpiring R) where
  -- Where there is no server of users: for a hundred seconds after a code was asked for an address with an @, whoever
  -- sends the address with any code whatever sets the password of its user, and can then log in with it.
  pub reset_password-local_login :
      (encode : List ℕ → Str) (random now t : ℕ) (salt : Str) (req : UserResetPassword)
      (codes_state : R.State) (w : World S) (model : UsersModel) (stored : Str) (later : ℕ)
      (access refresh : Str) (s : R.State)
      → S.has_remote ≡ false
      → now ≤ t
      → t < now + 100
      → length salt ≡ 8
      → has_at req.email ≡ true
      → find (λ u. email_eq req.email u.email) (S.users.rows w.users) ≡ some model
      → email_eq req.email model.email ≡ true
      → gen_password md5 req.password salt ≡ ok stored
      → (v : World S) × (reset_password S md5 R t
            (gen_code R now encode random req.email codes_state).1
            salt
            req
            w
          ≡ (ok tt, v))
        × (local_login md5 R
              (λ p. find p (S.users.rows v.users))
              (record { username = req.email; password = req.password })
              later
              access
              refresh
              s
            ≡ ok (create_token R later (user_of model) access refresh s))
  unfolding reset_password reset_local update_user valid_code gen_code code_key
  reset_password-local_login encode random now t salt req codes_state w model stored later access
        refresh s local after before size at known address made =
      let new : UsersModel = record model { password = stored } in
      let v : World S = record w { users = S.users.update new w.users } in
      let found =
        find-replaced S.users.key (λ u. email_eq req.email u.email) (S.users.rows w.users) model new
          (own_key new ∙ sym (own_key model)) address known in
      let login =
        local_login_iff md5 R (λ p. find p (S.users.rows v.users)) new req.password salt size made
          (record { username = req.email; password = req.password }) later access refresh s
          (rw (at, laws.rows-update new w.users) found) in
      (
        v,
        rw
            (
              kept.get-set_ex_self (code_key req.email req.code) code 100 now t codes_state after,
              lt→ltb t (now + 100) before,
              local,
              known,
              made,
            )
            refl,
        login.1 made,
      )
