-- ===== src/Redis.antt =====
-- The server that keeps the shared state of the services, redis, as far as the program relies on it.
-- Its commands are parameters; `IsRedis` and `IsExpiring` say what its documentation promises.
pub mod Hash
pub mod Memory
use text.Mathlib.Text.{◌==◌ as same_text}
use text.Mathlib.TextEquality.{eq_iff}
use Prim.Native.String.{String}
use Prim.Native.Char.{code}
use snapemu_workflow.Base.{
  ℕ, ◌+◌, ◌<◌, ◌≤◌, ◌≡◌, ◌≢◌, ◌⊎◌, Bool, true, false, Option, none, some, List, [], ◌∷◌, ltb,
  if◌then◌else◌, Outcome, ok, err, ◌>>=◌,
}
use snapemu_workflow.Base.Dict.{Eq, HashMap, empty, insert as put, remove}

-- A key or a value: the bytes of a text.
abbrev pub Str : Type 0
Str = List ℕ

-- The bytes of a literal of ASCII characters.
abbrev pub codes : String → Str
codes String.[] = []
codes (String.◌∷◌ c s) = code c ∷ codes s

instance abbrev pub text_eq : Eq String
text_eq = record { beq = same_text; beq_iff = eq_iff }

-- The fields of a hash.
abbrev pub Fields : Type 0
Fields = HashMap String Str

pub data Entry : Type 0 where
  absent : Entry
  string : Str → Entry
  hash : Fields → Entry

pub data RedisError : Type 0 where
  wrong_type wrong_arguments parse_error : RedisError

-- What a `HSET` of several fields leaves in a hash.
unfoldable pub puts : List (String × Str) → Fields → Fields
puts [] h = h
puts ((n, v) ∷ args) h = puts args (put n v h)

pub record Redis : Type 1 where
  pub State : Type 0
  pub look : State → Str → Entry
  pub set : Str → Str → State → State
  pub del : Str → State → State
  -- `HSET` and `HDEL` on a key that holds no string.
  pub hset : Str → List (String × Str) → State → State
  pub hdel : Str → String → State → State

pub record IsRedis (R : Redis) : Type 0 where
  pub look-set_self : (k v : Str) (s : R.State) → R.look (R.set k v s) k ≡ string v
  pub look-set_ne : (k j v : Str) (s : R.State) → k ≢ j → R.look (R.set k v s) j ≡ R.look s j
  pub look-del_self : (k : Str) (s : R.State) → R.look (R.del k s) k ≡ absent
  pub look-del_ne : (k j : Str) (s : R.State) → k ≢ j → R.look (R.del k s) j ≡ R.look s j
  pub look-hset_absent :
      (k : Str) (args : List (String × Str)) (s : R.State)
      → R.look s k ≡ absent
      → R.look (R.hset k args s) k ≡ hash (puts args empty)
  pub look-hset_hash :
      (k : Str) (args : List (String × Str)) (h : Fields) (s : R.State)
      → R.look s k ≡ hash h
      → R.look (R.hset k args s) k ≡ hash (puts args h)
  pub look-hset_ne :
      (k j : Str) (args : List (String × Str)) (s : R.State)
      → k ≢ j
      → R.look (R.hset k args s) j ≡ R.look s j
  -- A hash whose last field goes is gone.
  pub look-hdel_hash :
      (k : Str) (f : String) (h : Fields) (s : R.State)
      → R.look s k ≡ hash h
      → (R.look (R.hdel k f s) k ≡ hash (remove f h))
        ⊎ ((R.look (R.hdel k f s) k ≡ absent) × ((n : String) → remove f h n ≡ none))
  pub look-hdel_absent :
      (k : Str) (f : String) (s : R.State) → R.look s k ≡ absent → R.look (R.hdel k f s) k ≡ absent
  pub look-hdel_ne :
      (k j : Str) (f : String) (s : R.State) → k ≢ j → R.look (R.hdel k f s) j ≡ R.look s j

-- Keys that expire, with values as the program writes and reads them, at times in seconds: `GET`, `SET … EX`, `GETEX … EX` and `DEL`.
pub record Expiring (V : Type 0) : Type 1 where
  pub State : Type 0
  pub get : State → ℕ → Str → Option V
  pub set_ex : Str → V → ℕ → ℕ → State → State
  pub expire : Str → ℕ → ℕ → State → State
  pub del : Str → State → State

pub record IsExpiring {V : Type 0} (R : Expiring V) : Type 0 where
  -- A value that is set at `now` for `ex` seconds.
  pub get-set_ex_self :
      (k : Str) (v : V) (ex now t : ℕ) (s : R.State)
      → now ≤ t
      → R.get (R.set_ex k v ex now s) t k ≡ (if ltb t (now + ex) then some v else none)
  pub get-set_ex_ne :
      (k j : Str) (v : V) (ex now t : ℕ) (s : R.State)
      → k ≢ j
      → R.get (R.set_ex k v ex now s) t j ≡ R.get s t j
  -- A key that is there at `now` lives on for `ex` seconds.
  pub get-expire_self :
      (k : Str) (ex now t : ℕ) (s : R.State)
      → now ≤ t
      → R.get (R.expire k ex now s) t k ≡ (if ltb t (now + ex) then R.get s now k else none)
  pub get-expire_ne :
      (k j : Str) (ex now t : ℕ) (s : R.State)
      → k ≢ j
      → R.get (R.expire k ex now s) t j ≡ R.get s t j
  pub get-del_self : (k : Str) (t : ℕ) (s : R.State) → R.get (R.del k s) t k ≡ none
  pub get-del_ne : (k j : Str) (t : ℕ) (s : R.State) → k ≢ j → R.get (R.del k s) t j ≡ R.get s t j

abbrev pub present : Entry → Bool
present absent = false
present (string v) = true
present (hash h) = true

-- The commands, with their errors.
module _ (R : Redis) where
  unfoldable pub get : Str → R.State → Outcome RedisError (Option Str)
  get k s = elim (R.look s k) [
    | absent ↦ ok none
    | string v ↦ ok (some v)
    | hash h ↦ err wrong_type
  ]

  abbrev pub exists : Str → R.State → Bool
  exists k s = present (R.look s k)

  unfoldable pub hget : Str → String → R.State → Outcome RedisError (Option Str)
  hget k f s = elim (R.look s k) [
    | absent ↦ ok none
    | string v ↦ err wrong_type
    | hash h ↦ ok (h f)
  ]

  unfoldable pub hset_args : Str → List (String × Str) → R.State → Outcome RedisError R.State
  hset_args k [] s = err wrong_arguments
  hset_args k (a ∷ args) s = elim (R.look s k) [
    | string v ↦ err wrong_type
    | _ ↦ ok (R.hset k (a ∷ args) s)
  ]

  unfoldable pub hdel_arg : Str → String → R.State → Outcome RedisError R.State
  hdel_arg k f s = elim (R.look s k) [ string v ↦ err wrong_type | _ ↦ ok (R.hdel k f s) ]
