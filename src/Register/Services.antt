-- ===== src/Register/Services.antt =====
-- What the web server does to the register of nodes: the rows of the database that redis lacks are
-- registered at its start (snap_api/src/man/sync_device.rs), and a node whose settings were changed is
-- registered anew (snap_api/src/service/lorawan/node.rs).
pub mod Synced
use Prim.Native.String.{String}
use snapemu_workflow.Base.{
  ℕ, Bool, true, false, Option, none, some, List, [], ◌∷◌, if◌then◌else◌, Outcome, ok, err, ◌>>=◌,
}
use snapemu_workflow.Ids.{Hex}
use snapemu_workflow.Redis.{Str, Redis, RedisError}
use snapemu_workflow.Redis.Hash.{Struct}
use snapemu_workflow.Register.{NodeRow, check_eui, unregister, register_to_redis}

-- A row of the device of a node, its text by column.
abbrev pub DeviceRow : Type 0
DeviceRow = String → Option Str

-- The rows of nodes that have a device.
unfoldable pub with_device : List (NodeRow × Option DeviceRow) → List (NodeRow × DeviceRow)
with_device [] = []
with_device ((node, none) ∷ rows) = with_device rows
with_device ((node, some device) ∷ rows) = (node, device) ∷ with_device rows

module _ (hex : Hex) (R : Redis) where
  unfoldable pub sync_one : NodeRow → DeviceRow → R.State → Outcome RedisError R.State
  sync_one node device s =
      if check_eui hex R node.dev_eui s
      then ok s
      else (register_to_redis hex R node device s >>= λ r. ok r.1)

  unfoldable pub sync_all : List (NodeRow × DeviceRow) → R.State → Outcome RedisError R.State
  sync_all [] s = ok s
  sync_all ((node, device) ∷ rows) s = sync_one node device s >>= sync_all rows

  unfoldable pub sync_node :
      List (NodeRow × Option DeviceRow) → R.State → Outcome RedisError R.State
  sync_node rows s = sync_all (with_device rows) s

  -- The end of `update_blue`, after the row was changed: `node` is the new one.
  unfoldable pub reregister : NodeRow → DeviceRow → R.State → Outcome RedisError (Struct × R.State)
  reregister node device s =
      register_to_redis hex R node device (unregister hex R node.dev_eui node.dev_addr s)
