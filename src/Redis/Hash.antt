-- ===== src/Redis/Hash.antt =====
-- The hash of a struct that derives `RedisOps` (hash_name/src/lib.rs): the fields that it writes and
-- the reading of them. The text of a single value is left as it is.
pub mod Merge
use Prim.Native.String.{String}
use snapemu_workflow.Base.{
  ℕ, Bool, true, false, Option, none, some, List, [], ◌∷◌, Outcome, ok, err, ◌>>=◌,
}
use snapemu_workflow.Redis.{
  Str, Fields, Entry, absent, string, hash, RedisError, wrong_type, parse_error,
}

-- A field of a struct; one of an option type is not `required`.
pub record Field : Type 0 where
  pub name : String
  pub required : Bool

abbrev pub Schema : Type 0
Schema = List Field

-- A value of the struct, field by field.
abbrev pub Struct : Type 0
Struct = List (String × Option Str)

-- `ToRedisArgs`: only a field that has a value is written.
unfoldable pub to_redis_args : Struct → List (String × Str)
to_redis_args [] = []
to_redis_args ((n, none) ∷ fields) = to_redis_args fields
to_redis_args ((n, some v) ∷ fields) = (n, v) ∷ to_redis_args fields

-- `FromRedisValue` of one field, where `none` is `Nil`.
unfoldable pub field_from : Bool → Option Str → Outcome RedisError (Option Str)
field_from true none = err parse_error
field_from false none = ok none
field_from required (some v) = ok (some v)

unfoldable pub fields_from : Schema → Fields → Outcome RedisError Struct
fields_from [] h = ok []
fields_from (f ∷ schema) h = do
  v ← field_from f.required (h f.name)
  rest ← fields_from schema h
  ok ((f.name, v) ∷ rest)

-- `FromRedisValue` of the whole, on what `HGETALL` answers: nothing where there is no key.
unfoldable pub from_redis_value : Schema → Entry → Outcome RedisError (Option Struct)
from_redis_value schema absent = ok none
from_redis_value schema (string v) = err wrong_type
from_redis_value schema (hash h) = fields_from schema h >>= λ fields. ok (some fields)
