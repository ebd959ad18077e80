-- ===== src/Account/Codes.antt =====
-- How many codes are mailed, and what a code lets one do.
use snapemu_workflow.Base.{
  ℕ, suc, ◌+◌, ◌≤◌, ◌<◌, ◌≡◌, ◌≢◌, ◌⊎◌, refl, ap, ◌∙◌, inl, inr, false, Option, none, some, List,
  [], ◌∷◌, drop, get_elem?, ltb, leb, if◌then◌else◌, lt→ltb, ltb→lt, Bool-cases, Bool, true,
  Outcome, ok, err, panic, stuck, ◌>>◌, ensure, arith,
}
use snapemu_workflow.Redis.{Str, Expiring, IsExpiring}
use snapemu_workflow.Account.{
  ApiError, not_valid_code, Stored, sent, code, session, email_key, code_key, max_count, limit,
  update_email_send_count, some_code, valid_code, gen_code, code_bytes, email_send_count, send_code,
  email_limit,
}

-- `c` and `e`, the first letters of two kinds of key.
letters_ne : ◌≢◌ {A = Option ℕ} (some 99) (some 101)
letters_ne h = ground arith

pub code_key-ne-email_key : (x c y : Str) → code_key x c ≢ email_key y
unfolding code_key email_key
code_key-ne-email_key x c y e = letters_ne (ap (λ l. get_elem? l 0) e)

code_key_ne : (x c y d : Str) → x ≢ y → code_key x c ≢ code_key y d
unfolding code_key
code_key_ne x c y d ne e = ne (ap (drop 5) e)

-- A request for a code: its time, its random number and the name of the user.
abbrev pub Request : Type 0
Request = ℕ × ℕ × Str

-- Requests in the order of time, from `t` on and before `stop`.
abbrev pub InOrder : ℕ → ℕ → List Request → Type 0
InOrder t stop [] = Unit
InOrder t stop ((now, random, name) ∷ requests) =
    (t ≤ now) × (now < stop) × InOrder now stop requests

module _ (R : Expiring Stored) (encode : List ℕ → Str) where
  -- How many of the requests for an address are answered with a mail.
  abbrev tally : (R.State → ℕ) → R.State → Outcome ApiError ((Str × Str × Str) × R.State) → ℕ
  tally rest s (ok (m, t)) = suc (rest t)
  tally rest s (err e) = rest s
  tally rest s panic = rest s
  tally rest s stuck = rest s

  unfoldable pub mailed : Str → List Request → R.State → ℕ
  mailed email [] s = 0
  mailed email ((now, random, name) ∷ requests) s =
      tally (mailed email requests) s (send_code R now encode random name email s)

module _ (R : Expiring Stored) (laws : IsExpiring R) (encode : List ℕ → Str) where
  -- For a hundred seconds after a code was made for an address, any code whatever is taken as valid for
  -- it, and none from then on. Other addresses are not touched.
  pub valid_code-gen_code :
      (random now t : ℕ) (email other c : Str) (s : R.State)
      → now ≤ t
      → email ≢ other
      → (valid_code R t email c (gen_code R now encode random email s).1
          ≡ (if ltb t (now + 100) then ok tt else err not_valid_code))
        × (valid_code R t other c (gen_code R now encode random email s).1
            ≡ valid_code R t other c s)
  unfolding valid_code gen_code code_key
  valid_code-gen_code random now t email other c s h ne = (
    rw (laws.get-set_ex_self (code_key email c) code 100 now t s h)
        (live_or_late (ltb t (now + 100))),
    rw
        (laws.get-set_ex_ne (code_key email c) (code_key other c) code 100 now t s
          (code_key_ne email c other c ne))
        refl,
  )
    where
      live_or_late :
          (live : Bool)
          → some_code R t (if live then some code else none)
            ≡ (if live then ok tt else err not_valid_code)
      live_or_late true = refl
      live_or_late false = refl

  -- A mail that goes out: the count was below the limit, and is one more in the new state.
  abbrev Sends : ℕ → Str → ℕ → Str → R.State → R.State → Type 0
  Sends now email random name s t =
      (c : ℕ) × (c < max_count)
      × ((R.get s now (email_key email) ≡ none) × (c ≡ 0)
          ⊎ (R.get s now (email_key email) ≡ some (sent c)))
      × (t
          ≡ (gen_code R now encode random email
              (R.set_ex (email_key email) (sent (c + 1)) 100 now s)).1)

  one_more : (c : ℕ) → c < max_count → (if leb max_count c then max_count else c + 1) ≡ c + 1
  one_more c h = ground arith

  -- The same of what follows the reading of the count.
  send_counted :
      (now : ℕ) (email : Str) (random : ℕ) (name : Str) (m : Str × Str × Str) (s t : R.State)
      (c : ℕ)
      → ◌>>◌ {B = (Str × Str × Str) × R.State} (ensure (ltb c max_count) email_limit) (
          ok (
            (name, email, encode (code_bytes random)),
            (gen_code R now encode random email (
                R.set_ex
                  (email_key email)
                  (sent (if leb max_count c then max_count else c + 1))
                  100
                  now
                  s)).1,
          ))
        ≡ ok (m, t)
      → (c < max_count)
        × (t
            ≡ (gen_code R now encode random email
                (R.set_ex (email_key email) (sent (c + 1)) 100 now s)).1)
  send_counted now email random name m s t c h = elim (Bool-cases (ltb c max_count)) [
    | inl below ↦
        let lt = ltb→lt c max_count below in
        let done = rw (below, one_more c lt) at h in (lt, cc done)
    | inr above ↦ let refused = rw above at h in cc refused
  ]

  send_code_at :
      (now : ℕ) (email : Str) (random : ℕ) (name : Str) (m : Str × Str × Str) (s t : R.State)
      (v : Option Stored)
      → R.get s now (email_key email) ≡ v
      → send_code R now encode random name email s ≡ ok (m, t)
      → Sends now email random name s t
  unfolding send_code email_send_count limit update_email_send_count gen_code
  send_code_at now email random name m s t none e h =
      let (lt, new) = send_counted now email random name m s t 0 (rw e at h) in
      (0, lt, inl (e, refl), new)
  send_code_at now email random name m s t (some (sent c)) e h =
      let (lt, new) = send_counted now email random name m s t c (rw e at h) in (c, lt, inr e, new)
  send_code_at now email random name m s t (some code) e h = let refused = rw e at h in cc refused
  send_code_at now email random name m s t (some (session r)) e h =
      let refused = rw e at h in cc refused

  -- After `k` mails of the time before `stop`, the count is at least `k` until then.
  abbrev Counts : Str → ℕ → ℕ → ℕ → R.State → Type 0
  Counts email t stop k s =
      (k ≡ 0)
      ⊎ ((c : ℕ) × (k ≤ c)
          × ((u : ℕ) → t ≤ u → u < stop → R.get s u (email_key email) ≡ some (sent c)))

  at_least :
      (email : Str) (t stop k c : ℕ) (s : R.State)
      → t < stop
      → Counts email t stop k s
      → ((R.get s t (email_key email) ≡ none) × (c ≡ 0)
          ⊎ (R.get s t (email_key email) ≡ some (sent c)))
      → k ≤ c
  at_least email t stop k c s l (inl e) found = omega arith
  at_least email t stop k c s l (inr (d, le, counts)) (inl (e, z)) =
      let now = counts t (omega arith) l in cc
  at_least email t stop k c s l (inr (d, le, counts)) (inr e) =
      let now = counts t (omega arith) l in let same : d ≡ c = cc (now, e) in omega arith

  Sends-Counts :
      (email : Str) (from t stop k random : ℕ) (name : Str) (s u : R.State)
      → stop ≤ from + 100
      → from ≤ t
      → t < stop
      → Counts email t stop k s
      → Sends t email random name s u
      → (k < max_count) × Counts email t stop (suc k) u
  unfolding gen_code
  Sends-Counts email from t stop k random name s u w h l counts (c, lt, found, new) =
      let le = at_least email t stop k c s l counts found in
      let s1 = R.set_ex (email_key email) (sent (c + 1)) 100 t s in
      let k2 = code_key email (encode (code_bytes random)) in
      (
        omega arith,
        inr (
          c + 1,
          omega arith,
          λ v hv hs. rw new (
              laws.get-set_ex_ne k2 (email_key email) code 100 t v s1
                (code_key-ne-email_key email (encode (code_bytes random)) email)
              ∙ laws.get-set_ex_self (email_key email) (sent (c + 1)) 100 t v s hv
              ∙ rw (lt→ltb v (t + 100) (omega arith)) refl),
        ),
      )

  Counts-later :
      (email : Str) (t now stop k : ℕ) (s : R.State)
      → t ≤ now
      → Counts email t stop k s
      → Counts email now stop k s
  Counts-later email t now stop k s h (inl e) = inl e
  Counts-later email t now stop k s h (inr (c, le, counts)) =
      inr (c, le, λ u hu hs. counts u (omega arith) hs)

  tally_le :
      (k : ℕ) (rest : R.State → ℕ) (s : R.State)
      (o : Outcome ApiError ((Str × Str × Str) × R.State))
      → k + rest s ≤ max_count
      → ((m : Str × Str × Str) (t : R.State) → o ≡ ok (m, t) → suc k + rest t ≤ max_count)
      → k + tally R encode rest s o ≤ max_count
  tally_le k rest s (ok (m, t)) same more = omega (arith, more m t refl)
  tally_le k rest s (err x) same more = same
  tally_le k rest s panic same more = same
  tally_le k rest s stuck same more = same

  mailed_from :
      (email : Str) (from t stop k : ℕ) (requests : List Request) (s : R.State)
      → stop ≤ from + 100
      → from ≤ t
      → InOrder t stop requests
      → k ≤ max_count
      → Counts email t stop k s
      → k + mailed R encode email requests s ≤ max_count
  unfolding mailed
  mailed_from email from t stop k [] s w h order le counts = omega arith
  mailed_from email from t stop k ((now, random, name) ∷ requests) s w h (l, before, order) le
        counts =
      let later = Counts-later email t now stop k s l counts in
      tally_le k (mailed R encode email requests) s (send_code R now encode random name email s)
        (mailed_from email from now stop k requests s w (omega arith) order le later)
        (λ m u e.
          let sends =
            send_code_at now email random name m s u (R.get s now (email_key email)) refl e in
          let (lt, more) =
            Sends-Counts email from now stop k random name s u w (omega arith) before later sends in
          mailed_from email from now stop (suc k) requests u w (omega arith) order (omega arith)
            more)

  -- Of the requests for an address within a hundred seconds, in whatever state they find the store, at
  -- most five are answered with a mail.
  pub mailed_le :
      (email : Str) (from : ℕ) (requests : List Request) (s : R.State)
      → InOrder from (from + 100) requests
      → mailed R encode email requests s ≤ 5
  mailed_le email from requests s order = omega (
    arith,
    mailed_from email from from (from + 100) 0 requests s (omega arith) (omega arith) order
        (omega arith) (inl refl),
  )
