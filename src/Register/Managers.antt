-- ===== src/Register/Managers.antt =====
-- The managers of nodes (devices_manager/src/man/lora.rs): a node is looked for in redis and then in the
-- database, and the keys of a join are kept until the node's first message.
pub mod Cached
use Prim.Native.String.{String}
use snapemu_workflow.Base.{
  ℕ, Bool, Option, none, some, List, [], ◌∷◌, ◌++◌, Outcome, ok, err, panic, stuck, ◌>>=◌, ok_or,
}
use snapemu_workflow.Ids.{Hex, addr_to_string}
use snapemu_workflow.Redis.{Str, codes, Redis, RedisError, get}
use snapemu_workflow.Redis.Hash.{Struct}
use snapemu_workflow.Register.{NodeRow, register_to_redis, load_by_addr}

pub data DeviceError : Type 0 where
  redis : RedisError → DeviceError
  empty_error : DeviceError

abbrev pub lift : {A : Type 0} → Outcome RedisError A → Outcome DeviceError A
lift (ok a) = ok a
lift (err e) = err (redis e)
lift panic = panic
lift stuck = stuck

-- What the query of the node with its device answers.
abbrev pub Row : Type 0
Row = NodeRow × Option (String → Option Str)

module _ (hex : Hex) (R : Redis) where
  abbrev pub register_row : R.State → Row → Outcome DeviceError (Struct × R.State)
  register_row s (node, none) = err empty_error
  register_row s (node, some device) = lift (register_to_redis hex R node device s)

  abbrev pub or_database :
      Option Row → R.State → Option Struct → Outcome DeviceError (Struct × R.State)
  or_database row s (some info) = ok (info, s)
  or_database none s none = err empty_error
  or_database (some row) s none = register_row s row

  -- `get_node_with_gateway`, the part on the node's info; `find` is the query by address.
  unfoldable pub get_node_with_gateway :
      (ℕ → Option Row) → ℕ → R.State → Outcome DeviceError (Struct × R.State)
  get_node_with_gateway find dev_addr s =
      lift (load_by_addr hex R dev_addr s) >>= or_database (find dev_addr) s

  unfoldable pub activate_key : ℕ → Str
  activate_key dev_addr = codes "lora:otaa:" ++ addr_to_string hex dev_addr

  -- `new_otaa_node`, the part that keeps the keys, as the text `info_json`.
  unfoldable pub save_otaa_info : ℕ → Str → R.State → R.State
  save_otaa_info dev_addr info_json s = R.set (activate_key dev_addr) info_json s

  abbrev pub taken : ℕ → R.State → Option Str → Option Str × R.State
  taken dev_addr s none = (none, s)
  taken dev_addr s (some info) = (some info, R.del (activate_key dev_addr) s)

  unfoldable pub get_otaa_info : ℕ → R.State → Outcome RedisError (Option Str × R.State)
  get_otaa_info dev_addr s = do info ← get R (activate_key dev_addr) s; ok (taken dev_addr s info)

  unfoldable pub otaa_active : ℕ → R.State → R.State
  otaa_active dev_addr s = R.del (activate_key dev_addr) s
