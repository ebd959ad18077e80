-- ===== src/Register/Managers/Cached.antt =====
-- A node that was fetched from the database is then served by redis, and the keys of a join are given
-- out once.
use Prim.Native.String.{String}
use snapemu_workflow.Base.{ℕ, ◌^◌, ◌<◌, ◌≡◌, ◌≢◌, refl, ap, ◌∙◌, Option, none, some, drop, ok, err}
use snapemu_workflow.Base.Dict.{empty}
use snapemu_workflow.Ids.{Hex}
use snapemu_workflow.Redis.{Str, absent, Redis, IsRedis, parse_error}
use snapemu_workflow.Redis.Hash.{from_redis_value}
use snapemu_workflow.Redis.Hash.Merge.{Fits, merge_empty}
use snapemu_workflow.Register.{
  node_info, addr_key, node_info_of, NodeRow, register_to_redis, load_by_addr, load_by_eui,
  update_by_addr,
}
use snapemu_workflow.Register.Keys.{addr_to_string_inj}
use snapemu_workflow.Register.Nodes.{register-load, get-string}
use snapemu_workflow.Register.Updates.{get_absent, update_by_addr_unregistered}
use snapemu_workflow.Register.Managers.{
  redis, Row, get_node_with_gateway, activate_key, save_otaa_info, get_otaa_info,
}

module _ (hex : Hex) (R : Redis) (laws : IsRedis R) where
  load_by_addr-absent :
      (a : ℕ) (s : R.State) → R.look s (addr_key hex a) ≡ absent → load_by_addr hex R a s ≡ ok none
  unfolding load_by_addr from_redis_value
  load_by_addr-absent a s e = rw e refl

  -- A node that redis does not know and the database does is given as its row says, with counters of
  -- zero. From then on it is given the same, by its EUI too and whatever the database says.
  pub get_node_with_gateway_twice :
      (find later : ℕ → Option Row) (node : NodeRow) (device : String → Option Str) (s : R.State)
      → node.dev_eui < 256 ^ 8
      → node.dev_addr < 256 ^ 4
      → Fits node_info (node_info_of node.column device)
      → find node.dev_addr ≡ some (node, some device)
      → R.look s (addr_key hex node.dev_addr) ≡ absent
      → (t : R.State) × (get_node_with_gateway hex R find node.dev_addr s
          ≡ ok (node_info_of node.column device, t))
        × (get_node_with_gateway hex R later node.dev_addr t
            ≡ ok (node_info_of node.column device, t))
        × (load_by_eui hex R node.dev_eui t ≡ ok (some (node_info_of node.column device)))
  unfolding get_node_with_gateway register_to_redis
  get_node_with_gateway_twice find later node device s he ha fits found missing =
      let info = node_info_of node.column device in
      let (t, done, by_eui, by_addr, euis, addrs) =
        register-load hex R laws info node.dev_eui node.dev_addr empty s he ha fits
          (rw missing refl) in
      (
        t,
        rw (load_by_addr-absent node.dev_addr s missing, found, done) refl,
        rw (by_addr, merge_empty info) refl,
        rw (merge_empty info) at by_eui,
      )

  -- After an update by address of a node that redis does not know, the node is not found any more: the
  -- hash of one field is an error, and the database is not asked.
  pub get_node_with_gateway_partial :
      (find : ℕ → Option Row) (addr : ℕ) (key : String) (v : Str) (s : R.State)
      → R.look s (addr_key hex addr) ≡ absent
      → (t : R.State) × (update_by_addr hex R addr key v s ≡ ok t)
        × (get_node_with_gateway hex R find addr t ≡ err (redis parse_error))
  unfolding get_node_with_gateway
  get_node_with_gateway_partial find addr key v s missing =
      let (t, done, before, after) = update_by_addr_unregistered hex R laws addr key v s missing in
      (t, done, rw after refl)

  -- The keys that a join leaves for an address are given out once, and no other address gets them.
  pub get_otaa_info_once :
      (addr other : ℕ) (info_json : Str) (s : R.State)
      → addr < 256 ^ 4
      → other < 256 ^ 4
      → addr ≢ other
      → (t : R.State) × (get_otaa_info hex R addr (save_otaa_info hex R addr info_json s)
          ≡ ok (some info_json, t))
        × (get_otaa_info hex R addr t ≡ ok (none, t))
        × (R.look t (activate_key hex R other) ≡ R.look s (activate_key hex R other))
  unfolding get_otaa_info save_otaa_info activate_key
  get_otaa_info_once addr other info_json s ha ho ne =
      let k = activate_key hex R addr in
      let s1 = R.set k info_json s in
      let apart : k ≢ activate_key hex R other =
        λ e. ne (addr_to_string_inj hex addr other ha ho (ap (drop 10) e)) in
      (
        R.del k s1,
        rw (get-string R laws k info_json s1 (laws.look-set_self k info_json s)) refl,
        rw (get_absent R k (R.del k s1) (laws.look-del_self k s1)) refl,
        laws.look-del_ne k (activate_key hex R other) s1 apart
            ∙ laws.look-set_ne k (activate_key hex R other) info_json s apart,
      )
