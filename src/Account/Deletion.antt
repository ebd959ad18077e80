-- ===== src/Account/Deletion.antt =====
-- What the deletion of a user's tokens leaves of the sessions.
use snapemu_workflow.Base.{
  ℕ, zero, suc, ◌+◌, ◌<◌, ◌≤◌, ◌≡◌, ◌≢◌, refl, ap, ◌∙◌, Bool, some, List, [], ◌∷◌, ◌++◌, map, All,
  take, ok, lt→ltb,
}
use snapemu_workflow.Redis.{Str, Expiring, IsExpiring}
use snapemu_workflow.Account.{RedisToken, Stored, session, token_key}
use snapemu_workflow.Account.Tokens.{
  UserToken, User, access_expires, gen_access_token, create_token, logged_in, token_login, del_all,
  delete_user_token,
}

-- A text without a colon, as base 64 writes it.
abbrev pub HasNoColon : Str → Type 0
HasNoColon s = All (λ b. b ≢ b':') s

HasNoColon-append : (s t : Str) → HasNoColon s → HasNoColon t → HasNoColon (s ++ t)
HasNoColon-append [] t h k = k
HasNoColon-append (c ∷ s) t (h, hs) k = (h, HasNoColon-append s t hs k)

HasNoColon-take : (n : ℕ) (s : Str) → HasNoColon s → HasNoColon (take n s)
HasNoColon-take zero s h = tt
HasNoColon-take (suc n) [] h = tt
HasNoColon-take (suc n) (c ∷ s) (h, hs) = (h, HasNoColon-take n s hs)

-- A row whose token was made by `gen_access_token`.
abbrev pub IsIssued : UserToken → Type 0
IsIssued row =
    (id_text : Str) × (hash_text : Str) × HasNoColon id_text
    × HasNoColon hash_text
    × (row.token ≡ gen_access_token id_text hash_text)

issued_colon : (row : UserToken) → IsIssued row → HasNoColon row.token
unfolding gen_access_token
issued_colon row (i, h, hi, hh, e) =
    rw e (HasNoColon-append i (take 20 h) hi (HasNoColon-take 20 h hh))

token_key_colon : (token : Str) → HasNoColon (token_key token) → ⊥
unfolding token_key
token_key_colon token h = h.1.1.1.1.1.0 refl

module _ (R : Expiring Stored) (laws : IsExpiring R) where
  del_all-get :
      (rows : List UserToken) (deleted now : ℕ) (token : Str) (s : R.State)
      → All IsIssued rows
      → R.get (del_all R deleted (map (λ t. t.token) rows) s) now (token_key token)
        ≡ R.get s now (token_key token)
  del_all-get [] deleted now token s issued = refl
  del_all-get (row ∷ rows) deleted now token s (issued, others) =
      del_all-get rows deleted now token (R.del row.token s) others
      ∙ laws.get-del_ne row.token (token_key token) now s
          (λ e. token_key_colon token (rw e at (issued_colon row issued)))

  -- Where all tokens in the table were issued by the program, the deletion of a user's tokens leaves
  -- every session: the access token of a user lets its user in after it as before.
  pub token_login-delete_user_token :
      (find_all : (UserToken → Bool) → List UserToken) (user : User) (access refresh : Str)
      (t deleted now : ℕ) (s : R.State)
      → ((p : UserToken → Bool) → All IsIssued (find_all p))
      → t ≤ now
      → now < t + access_expires
      → (token_login R now access (
          delete_user_token R deleted find_all user.id
            (create_token R t user access refresh s).1)).0
        ≡ ok (record { id = user.id; name = user.user_login })
  unfolding token_login delete_user_token create_token
  token_login-delete_user_token find_all user access refresh t deleted now s issued h l =
      let r : RedisToken = record { id = user.id; name = user.user_login } in
      let s1 = R.set_ex (token_key access) (session r) access_expires t s in
      let kept = del_all-get (find_all _) deleted now access s1 (issued _) in
      let alive : R.get s1 now (token_key access) ≡ some (session r) =
        laws.get-set_ex_self (token_key access) (session r) access_expires t now s h
        ∙ rw (lt→ltb now (t + access_expires) l) refl in
      ap (logged_in R now) (kept ∙ alive)
