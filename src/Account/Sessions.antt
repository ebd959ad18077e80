-- ===== src/Account/Sessions.antt =====
-- How long a token lets its user in, and which tokens are renewed.
use snapemu_workflow.Base.{
  ℕ, ◌+◌, ◌≤◌, ◌<◌, ◌≡◌, ◌↔◌, refl, ap, ◌∙◌, inl, inr, true, false, Option-cases, Option, none,
  some, List, [], ◌∷◌, ◌++◌, All, ltb, if◌then◌else◌, lt→ltb, Outcome, ok, err, ok_or, arith,
}
use snapemu_workflow.Base.Texts.{split_once-append}
use snapemu_workflow.Base.Results.{bind_ok, ok_or-some}
use snapemu_workflow.Redis.{Str, codes, Expiring, IsExpiring, text_eq}
use snapemu_workflow.Account.{ApiError, token_err, RedisToken, Stored, session, token_key}
use snapemu_workflow.Account.Tokens.{
  TokenType, access_type, refresh_type, token_type_from_str, UserToken, User, Token, access_expires,
  auth_typed, auth_token, create_token, token_login, authorize_current_user, refresh_key,
  create_for,
}

-- The header of a request with a token.
abbrev pub bearer : Str → Str
bearer token = codes "Bearer " ++ token

-- Times of which each is less than `access_expires` after the one before, and the last of them.
abbrev pub InUse : ℕ → List ℕ → Type 0
InUse t [] = Unit
InUse t (now ∷ times) = (t ≤ now) × (now < t + access_expires) × InUse now times

abbrev pub last : ℕ → List ℕ → ℕ
last t [] = t
last t (now ∷ times) = last now times

module _ (R : Expiring Stored) where
  -- The answers to requests with a token at these times, and the state after them.
  unfoldable pub visits : Str → List ℕ → R.State → List (Outcome ApiError RedisToken) × R.State
  visits token [] s = ([], s)
  visits token (now ∷ times) s =
      let (answer, t) = authorize_current_user R now (bearer token) s in
      let (answers, u) = visits token times t in (answer ∷ answers, u)

module _ (R : Expiring Stored) (laws : IsExpiring R) where
  authorize-bearer :
      (now : ℕ) (token : Str) (s : R.State)
      → authorize_current_user R now (bearer token) s ≡ token_login R now token s
  unfolding authorize_current_user
  authorize-bearer now token s = rw (split_once-append b'B' (codes "earer ") token) refl

  abbrev Lives : Str → RedisToken → ℕ → R.State → Type 0
  Lives token r t s =
      (u : ℕ)
      → t ≤ u
      → R.get s u (token_key token)
        ≡ (if ltb u (t + access_expires) then some (session r) else none)

  login_alive :
      (token : Str) (r : RedisToken) (t now : ℕ) (s : R.State)
      → t ≤ now
      → now < t + access_expires
      → Lives token r t s
      → ((token_login R now token s).0 ≡ ok r) × Lives token r now (token_login R now token s).1
  unfolding token_login
  login_alive token r t now s h l lives =
      let here_now : R.get s now (token_key token) ≡ some (session r) =
        lives now h ∙ rw (lt→ltb now (t + access_expires) l) refl in
      (
        rw here_now refl,
        λ u hu.
            laws.get-expire_self (token_key token) access_expires now u s hu
            ∙ ap (λ v. if ltb u (now + access_expires) then v else none) here_now,
      )

  visits_alive :
      (token : Str) (r : RedisToken) (t : ℕ) (times : List ℕ) (s : R.State)
      → InUse t times
      → Lives token r t s
      → All (λ o. o ≡ ok r) (visits R token times s).0
        × Lives token r (last t times) (visits R token times s).1
  unfolding visits
  visits_alive token r t [] s used lives = (tt, lives)
  visits_alive token r t (now ∷ times) s (h, l, used) lives =
      let (answer, kept) = login_alive token r t now s h l lives in
      let (answers, at_last) =
        visits_alive token r now times (token_login R now token s).1 used kept in
      rw (authorize-bearer now token s) ((answer, answers), at_last)

  login_late :
      (token : Str) (r : RedisToken) (t now : ℕ) (s : R.State)
      → t + access_expires ≤ now
      → Lives token r t s
      → (token_login R now token s).0 ≡ err token_err
  unfolding token_login
  login_late token r t now s h lives = rw (lives now (omega arith), not_before) refl
    where
      not_before : ltb now (t + access_expires) ≡ false
      not_before = ground arith

  -- A new access token lets its user in at every request, as long as each comes less than
  -- `access_expires` after the one before. From that time after the last request on it is refused.
  pub visits-create_token :
      (user : User) (access refresh : Str) (t late : ℕ) (times : List ℕ) (s : R.State)
      → InUse t times
      → last t times + access_expires ≤ late
      → All
          (λ o. o ≡ ok (record { id = user.id; name = user.user_login }))
          (visits R access times (create_token R t user access refresh s).1).0
        × ((authorize_current_user R late
              (bearer access)
              (visits R access times (create_token R t user access refresh s).1).1).0
            ≡ err token_err)
  unfolding create_token
  visits-create_token user access refresh t late times s used h =
      let r : RedisToken = record { id = user.id; name = user.user_login } in
      let s1 = R.set_ex (token_key access) (session r) access_expires t s in
      let lives : Lives access r t s1 =
        λ u hu. laws.get-set_ex_self (token_key access) (session r) access_expires t u s hu in
      let (answers, at_last) = visits_alive access r t times s1 used lives in
      (
        answers,
        rw (authorize-bearer late access (visits R access times s1).1)
            (login_late access r (last t times) late (visits R access times s1).1 h at_last),
      )

auth_typed_iff :
    (now : ℕ) (row : UserToken) (j k : TokenType)
    → (auth_typed now row j ≡ ok k) ↔ ((j ≡ k) × (now ≤ row.expires_time) × (row.enable ≡ true))
auth_typed_iff now row access_type k = (λ h. ground arith, λ (e, le, on). ground arith)
auth_typed_iff now row refresh_type k = (λ h. ground arith, λ (e, le, on). ground arith)

-- A row authenticates exactly if its type is known, its time has not passed and it is enabled.
pub auth_token_iff :
    (now : ℕ) (row : UserToken) (k : TokenType)
    → (auth_token now row ≡ ok k) ↔ (
        (token_type_from_str row.token_type ≡ some k)
        × (now ≤ row.expires_time)
        × (row.enable ≡ true))
unfolding auth_token
auth_token_iff now row k = elim (Option-cases (token_type_from_str row.token_type)) [
  | inl unknown ↦ (λ h. let wrong = rw unknown at h in cc wrong, λ (e, le, on). cc (unknown, e))
  | inr (j, known) ↦ (
    λ h.
        let (e, le, on) = (auth_typed_iff now row j k).0 (rw known at h) in
        (known ∙ ap some e, le, on),
    λ (e, le, on). rw known ((auth_typed_iff now row j k).1 (cc (known, e), le, on)),
  )
]

module _ (R : Expiring Stored) where
  create_for_ok :
      (now : ℕ) (user : Option User) (access refresh : Str) (s : R.State) (k : TokenType)
      (r : (Token × UserToken × UserToken) × R.State)
      → create_for R now user access refresh s k ≡ ok r
      → (k ≡ refresh_type)
        × ((u : User) × (user ≡ some u) × (create_token R now u access refresh s ≡ r))
  create_for_ok now user access refresh s access_type r h = cc
  create_for_ok now (some u) access refresh s refresh_type r h = (refl, (u, refl, cc))
  create_for_ok now none access refresh s refresh_type r h = cc

  -- A token is renewed exactly if the table has it as a refresh token, in time and enabled, of a user
  -- who is there; the answer is then that of a new login.
  pub refresh_key_iff :
      (find : Str → Option (UserToken × Option User)) (now : ℕ) (token access refresh : Str)
      (s : R.State) (r : (Token × UserToken × UserToken) × R.State)
      → (refresh_key R now find token access refresh s ≡ ok r) ↔ (
          (row : UserToken) × (user : User) × (find token ≡ some (row, some user))
          × (token_type_from_str row.token_type ≡ some refresh_type)
          × (now ≤ row.expires_time)
          × (row.enable ≡ true)
          × (create_token R now user access refresh s ≡ r))
  unfolding refresh_key
  refresh_key_iff find now token access refresh s r = (
    λ h.
        let ((row, user), found, after) = bind_ok (ok_or (find token) token_err) _ r h in
        let (k, auth, made) = bind_ok (auth_token now row) _ r after in
        let (kind, (u, there, created)) = create_for_ok now user access refresh s k r made in
        let (typed, le, on) = (auth_token_iff now row k).0 auth in
        (
          row,
          u,
          ok_or-some (find token) token_err (row, user) found ∙ ap (λ v. some (row, v)) there,
          typed ∙ ap some kind,
          le,
          on,
          created,
        ),
    λ (row, user, found, typed, le, on, created).
        rw (found, (auth_token_iff now row refresh_type).1 (typed, le, on)) (ap ok created),
  )
