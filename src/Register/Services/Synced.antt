-- ===== src/Register/Services/Synced.antt =====
-- After a synchronisation redis knows all nodes, and a node that is registered anew leaves its old
-- address behind.
use snapemu_workflow.Base.{
  ℕ, ◌^◌, ◌<◌, ◌≡◌, ◌≢◌, refl, ap, ◌∙◌, inl, inr, true, false, Bool-cases, Option, some, List, [],
  ◌∷◌, All, ok,
}
use snapemu_workflow.Base.Dict.{empty}
use snapemu_workflow.Ids.{Hex}
use snapemu_workflow.Redis.{Entry, absent, string, hash, present, Redis, IsRedis}
use snapemu_workflow.Redis.Hash.{Struct, from_redis_value}
use snapemu_workflow.Redis.Hash.Merge.{Fits, merge, merge_empty}
use snapemu_workflow.Register.{
  node_info, eui_key, addr_key, NodeRow, node_info_of, check_eui, unregister, register_to_redis,
  load_by_addr, load_by_eui, load_addr_key,
}
use snapemu_workflow.Register.Nodes.{Holds, register-load, unregister-load, unregister-absent}
use snapemu_workflow.Register.States.{IsLinked, Holds-some, IsLinked-registers}
use snapemu_workflow.Register.Updates.{get_absent}
use snapemu_workflow.Register.Services.{
  DeviceRow, with_device, sync_one, sync_all, sync_node, reregister,
}

-- A row whose numbers have their widths and whose columns fill the struct.
abbrev pub IsRow : NodeRow × DeviceRow → Type 0
IsRow (node, device) =
    (node.dev_eui < 256 ^ 8)
    × (node.dev_addr < 256 ^ 4)
    × Fits node_info (node_info_of node.column device)

module _ (hex : Hex) (R : Redis) where
  -- All EUIs that are registered before have the same second key after.
  abbrev pub Keeps : R.State → R.State → Type 0
  Keeps s t =
      (x : ℕ)
      → x < 256 ^ 8
      → check_eui hex R x s ≡ true
      → R.look t (eui_key hex x) ≡ R.look s (eui_key hex x)

  check_eui_kept :
      (s t : R.State) (x : ℕ)
      → x < 256 ^ 8
      → Keeps s t
      → check_eui hex R x s ≡ true
      → check_eui hex R x t ≡ true
  unfolding check_eui
  check_eui_kept s t x hx keeps e = ap present (keeps x hx e) ∙ e

module _ (hex : Hex) (R : Redis) (laws : IsRedis R) where
  absent_there :
      {y : ℕ} (x : ℕ) (s : R.State)
      → y ≡ x
      → check_eui hex R x s ≡ true
      → check_eui hex R y s ≡ false
      → ⊥
  absent_there x s same e missing = cc (ap (λ z. check_eui hex R z s) same, e, missing)

  known :
      (x : ℕ) (t : R.State) (i : Struct) (entry : Entry)
      → R.look t (eui_key hex x) ≡ entry
      → load_by_eui hex R x t ≡ ok (some i)
      → check_eui hex R x t ≡ true
  unfolding check_eui load_by_eui load_addr_key
  known x t i absent e load =
      let nothing = rw (get_absent R (eui_key hex x) t e) at load in cc nothing
  known x t i (string v) e load = ap present e
  known x t i (hash h) e load = ap present e

  sync_one-Keeps :
      (node : NodeRow) (device : DeviceRow) (s : R.State)
      → IsRow (node, device)
      → IsLinked hex R s
      → (t : R.State) × (sync_one hex R node device s ≡ ok t)
        × IsLinked hex R t
        × Keeps hex R s t
        × (check_eui hex R node.dev_eui t ≡ true)
  unfolding sync_one register_to_redis
  sync_one-Keeps node device s (he, ha, fits) linked =
      elim (Bool-cases (check_eui hex R node.dev_eui s)) [
        | inl there ↦ (s, rw there refl, linked, λ x hx e. refl, there)
        | inr missing ↦
            let info = node_info_of node.column device in
            let (h, held) =
              Holds-some (R.look s (addr_key hex node.dev_addr)) (linked.1 node.dev_addr ha) in
            let (t, done, by_eui, by_addr, euis, addrs) =
              register-load hex R laws info node.dev_eui node.dev_addr h s he ha fits held in
            (
              t,
              rw (missing, done) refl,
              IsLinked-registers hex R laws info node.dev_eui node.dev_addr s t he ha fits linked
                  done,
              λ x hx e. euis x hx (λ same. absent_there x s same e missing),
              known node.dev_eui t (merge info h) (R.look t (eui_key hex node.dev_eui)) refl by_eui,
            )
      ]

  sync_all-Keeps :
      (rows : List (NodeRow × DeviceRow)) (s : R.State)
      → All IsRow rows
      → IsLinked hex R s
      → (t : R.State) × (sync_all hex R rows s ≡ ok t)
        × IsLinked hex R t
        × Keeps hex R s t
        × All (λ row. check_eui hex R row.0.dev_eui t ≡ true) rows
  unfolding sync_all
  sync_all-Keeps [] s are linked = (s, refl, linked, λ x hx e. refl, tt)
  sync_all-Keeps ((node, device) ∷ rows) s (is_row, are) linked =
      let (s1, done1, linked1, keeps1, known1) = sync_one-Keeps node device s is_row linked in
      let (t, done, linked2, keeps, all_known) = sync_all-Keeps rows s1 are linked1 in
      (
        t,
        rw (done1, done) refl,
        linked2,
        λ x hx e. keeps x hx (check_eui_kept hex R s s1 x hx keeps1 e) ∙ keeps1 x hx e,
        (check_eui_kept hex R s1 t node.dev_eui is_row.0 keeps known1, all_known),
      )

  -- From a state with linked keys the synchronisation of rows ends well: all nodes with a device are
  -- registered then, keys are linked, and the second keys that were there before are as they were.
  pub sync_node-Keeps :
      (rows : List (NodeRow × Option DeviceRow)) (s : R.State)
      → All IsRow (with_device rows)
      → IsLinked hex R s
      → (t : R.State) × (sync_node hex R rows s ≡ ok t)
        × IsLinked hex R t
        × Keeps hex R s t
        × All (λ row. check_eui hex R row.0.dev_eui t ≡ true) (with_device rows)
  unfolding sync_node
  sync_node-Keeps rows s are linked = sync_all-Keeps (with_device rows) s are linked

  -- A node that is registered anew with another address is found by its EUI with the new settings, but
  -- what the old address finds does not change.
  pub reregister-old_address :
      (node : NodeRow) (device : DeviceRow) (old : ℕ) (s : R.State)
      → IsRow (node, device)
      → old < 256 ^ 4
      → node.dev_addr ≢ old
      → (t : R.State) × (reregister hex R node device s ≡ ok (node_info_of node.column device, t))
        × (load_by_eui hex R node.dev_eui t ≡ ok (some (node_info_of node.column device)))
        × (load_by_addr hex R old t ≡ load_by_addr hex R old s)
  unfolding reregister register_to_redis load_by_addr
  reregister-old_address node device old s (he, ha, fits) ho ne =
      let info = node_info_of node.column device in
      let s1 = unregister hex R node.dev_eui node.dev_addr s in
      let (by_eui1, by_addr1, euis1, addrs1) =
        unregister-load hex R laws node.dev_eui node.dev_addr s he ha in
      let gone : Holds (R.look s1 (addr_key hex node.dev_addr)) empty =
        rw (unregister-absent hex R laws node.dev_eui node.dev_addr s) refl in
      let (t, done, by_eui, by_addr, euis, addrs) =
        register-load hex R laws info node.dev_eui node.dev_addr empty s1 he ha fits gone in
      (
        t,
        rw done refl,
        rw (merge_empty info) at by_eui,
        ap (from_redis_value node_info) (addrs old ho ne ∙ addrs1 old ho ne),
      )
