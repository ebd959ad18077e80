-- ===== src/Account/Users/Entry.antt =====
-- Who signed up can log in.
use snapemu_workflow.Base.{
  ℕ, ◌≡◌, refl, sym, ap, ◌∙◌, inl, inr, Bool, true, false, ◌&&◌, Bool-cases, ==_iff, Option, none,
  some, List, [], ◌∷◌, length, ◌==◌, Outcome, ok, err, panic, stuck, arith,
}
use snapemu_workflow.Base.Texts.{same, same_iff}
use snapemu_workflow.Groups.{find}
use snapemu_workflow.Redis.{Str, Expiring}
use snapemu_workflow.Tables.{IsTable}
use snapemu_workflow.Account.{Stored}
use snapemu_workflow.Account.Login.{
  UsersModel, email_eq, has_at, user_of, local_login, local_login_iff,
}
use snapemu_workflow.Account.Passwords.{gen_password}
use snapemu_workflow.Account.Tokens.{create_token}
use snapemu_workflow.Devices.Creation.{slice_include}
use snapemu_workflow.Account.Users.{
  UserError, email_format, name_format, name_exist, email_exist, UserInfo, Services, World,
  username_table, check_username, Run, next, check, must_not, hashed, insert_user, remote_signup,
  signup_row, signup,
}

-- What a request that ended well says of its first step.
module _ {S : Services} {A B : Type 0} where
  next_ok :
      (o : Outcome UserError A) (u : World S) (f : A → Run S B) (b : B) (v : World S)
      → next f (o, u) ≡ (ok b, v)
      → (a : A) × (o ≡ ok a) × (f a u ≡ (ok b, v))
  next_ok (ok a) u f b v h = (a, refl, h)
  next_ok (err e) u f b v h = absurd (cc (ap (λ p. p.0) h))
  next_ok panic u f b v h = absurd (cc (ap (λ p. p.0) h))
  next_ok stuck u f b v h = absurd (cc (ap (λ p. p.0) h))

module _ {S : Services} {B : Type 0} where
  pub check_ok :
      (b : Bool) (e : UserError) (f : Unit → Run S B) (c : B) (w v : World S)
      → next f (check b e w) ≡ (ok c, v)
      → (b ≡ true) × (f tt w ≡ (ok c, v))
  check_ok true e f c w v h = (refl, h)
  check_ok false e f c w v h = absurd (cc (ap (λ p. p.0) h))

  pub must_not_ok :
      {A : Type 0} (o : Option A) (e : UserError) (f : Unit → Run S B) (c : B) (w v : World S)
      → next f (must_not o e w) ≡ (ok c, v)
      → (o ≡ none) × (f tt w ≡ (ok c, v))
  must_not_ok none e f c w v h = (refl, h)
  must_not_ok (some a) e f c w v h = absurd (cc (ap (λ p. p.0) h))

  pub hashed_ok :
      {A : Type 0} (o : Outcome Unit A) (f : A → Run S B) (c : B) (w v : World S)
      → next f (hashed o w) ≡ (ok c, v)
      → (a : A) × (o ≡ ok a) × (f a w ≡ (ok c, v))
  hashed_ok (ok a) f c w v h = (a, refl, h)
  hashed_ok (err e) f c w v h = absurd (cc (ap (λ p. p.0) h))
  hashed_ok panic f c w v h = absurd (cc (ap (λ p. p.0) h))
  hashed_ok stuck f c w v h = absurd (cc (ap (λ p. p.0) h))

no_at : (c : ℕ) → slice_include c username_table ≡ true → (c == 64) ≡ false
unfolding slice_include
no_at c h = elim (Bool-cases (c == 64)) [
  | inl e ↦ let is : c ≡ 64 = (==_iff c 64).0 e in absurd (let f = rw is at h in cc)
  | inr n ↦ n
]

-- No name has an @.
pub check_username-has_at : (s : Str) → check_username s ≡ true → has_at s ≡ false
unfolding check_username has_at
check_username-has_at [] h = refl
check_username-has_at (c ∷ s) h =
    let (first, rest) = both (slice_include c username_table) (check_username s) h in
    rw (no_at c first, check_username-has_at s rest) refl
  where
    both : (a b : Bool) → (a && b) ≡ true → (a ≡ true) × (b ≡ true)
    both a b h = ground arith

same_self : (s : Str) → same s s ≡ true
same_self s = (same_iff s s).1 refl

module _ (S : Services) (md5 : List ℕ → List ℕ) where
  -- What a signup without a server of users has checked and done.
  pub signup_ok :
      (email_ok : Str → Bool) (now uuid : ℕ) (salt token : Str) (info : UserInfo) (w v : World S)
      (id : ℕ)
      → S.has_remote ≡ false
      → signup S md5 email_ok now uuid salt token info w ≡ (ok id, v)
      → (password : Str) × (user : UsersModel) × (check_username info.username ≡ true)
        × (find (λ u. same u.user_login info.username) (S.users.rows w.users) ≡ none)
        × (find (λ u. email_eq info.email u.email) (S.users.rows w.users) ≡ none)
        × (gen_password md5 info.password salt ≡ ok password)
        × (insert_user S (signup_row info (uuid, some info.email) password token now) w
            ≡ (ok user, v))
        × (user.id ≡ id)
  unfolding signup remote_signup
  signup_ok email_ok now uuid salt token info w v id local h =
      let (e, h1) = check_ok (email_ok info.email) email_format _ id w v h in
      let (n, h2) = check_ok (check_username info.username) name_format _ id w v h1 in
      let (by_name, h3) =
        must_not_ok (find (λ u. same u.user_login info.username) (S.users.rows w.users)) name_exist
          _ id w v h2 in
      let (by_email, h4) =
        must_not_ok (find (λ u. email_eq info.email u.email) (S.users.rows w.users)) email_exist _
          id w v h3 in
      let h5 = rw local at h4 in
      let (password, made, h6) = hashed_ok (gen_password md5 info.password salt) _ id w v h5 in
      let row = insert_user S (signup_row info (uuid, some info.email) password token now) w in
      let (user, inserted, h7) = next_ok row.0 row.1 _ id v h6 in
      (
        password,
        user,
        n,
        by_name,
        by_email,
        made,
        both row.0 row.1 user inserted (ap (λ p. p.1) h7),
        cc (ap (λ p. p.0) h7),
      )
    where
      both :
          (o : Outcome UserError UsersModel) (x : World S) (user : UsersModel)
          → o ≡ ok user
          → x ≡ v
          → ◌≡◌ {A = Outcome UserError UsersModel × World S} (o, x) (ok user, v)
      both o x user e f = rw (e, f) refl

module _ (S : Services) (laws : IsTable S.users) (md5 : List ℕ → List ℕ) (R : Expiring Stored) where
  -- Where there is no server of users: who signed up, with a salt of eight bytes and an address with an @, can
  -- log in with the password by the name and by the address.
  pub signup-local_login :
      (email_ok : Str → Bool) (now uuid : ℕ) (salt token : Str) (info : UserInfo) (w v : World S)
      (id : ℕ) (t : ℕ) (access refresh : Str) (s : R.State)
      → S.has_remote ≡ false
      → length salt ≡ 8
      → has_at info.email ≡ true
      → signup S md5 email_ok now uuid salt token info w ≡ (ok id, v)
      → (user : UsersModel) × (user.id ≡ id)
        × (user.user_login ≡ info.username)
        × (local_login md5 R
              (λ p. find p (S.users.rows v.users))
              (record { username = info.username; password = info.password })
              t
              access
              refresh
              s
            ≡ ok (create_token R t (user_of user) access refresh s))
        × (local_login md5 R
              (λ p. find p (S.users.rows v.users))
              (record { username = info.email; password = info.password })
              t
              access
              refresh
              s
            ≡ ok (create_token R t (user_of user) access refresh s))
  unfolding insert_user find
  signup-local_login email_ok now uuid salt token info w v id t access refresh s local size at h =
      let (password, user, name, by_name, by_email, made, inserted, same_id) =
        signup_ok S md5 email_ok now uuid salt token info w v id local h in
      let row = signup_row info (uuid, some info.email) password token now in
      let (k, fresh, is, rows) = laws.rows-insert row w.users in
      let got : row k ≡ user = sym is ∙ cc (ap (λ p. p.0) inserted) in
      let left : S.users.rows v.users ≡ row k ∷ S.users.rows w.users =
        ap (λ p. S.users.rows p.1.users) (sym inserted) ∙ rows in
      let login =
        local_login_iff md5 R (λ p. find p (S.users.rows v.users)) (row k) info.password salt size
          made in
      (
        row k,
        ap (λ u. u.id) got ∙ same_id,
        refl,
        (login (record { username = info.username; password = info.password }) t access refresh s
              (rw (check_username-has_at info.username name, left, same_self info.username) refl)).1
            made,
        (login (record { username = info.email; password = info.password }) t access refresh s
              (rw (at, left, same_self info.email) refl)).1
            made,
      )
