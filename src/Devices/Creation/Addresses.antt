-- ===== src/Devices/Creation/Addresses.antt =====
-- The addresses of the nodes that are created.
use snapemu_workflow.Base.{
  ℕ, ◌≡◌, ◌≢◌, ◌⊎◌, refl, sym, ap, ◌∙◌, inl, inr, Bool, true, false, not, ◌||◌, Bool-cases, ==_iff,
  Option, none, some, List, [], ◌∷◌, All, length, ◌==◌, if◌then◌else◌, Outcome, ok, ensure, ok_or,
}
use snapemu_workflow.Base.Results.{bind_ok}
use snapemu_workflow.Groups.{find}
use snapemu_workflow.Ids.{to_uppercase, Hex, key_try_from, addr_try_from}
use snapemu_workflow.Base.Texts.{same}
use snapemu_workflow.Redis.{Str}
use snapemu_workflow.Register.{check_addr, register_to_redis}
use snapemu_workflow.Devices.{
  DevicesModel, NodeModel, FunctionModel, lora_node, Stores, World, IsStores,
}
use snapemu_workflow.Devices.Creation.{
  LoRaJoinType, otaa_join, abp_join, NodeError, dev_addr_already, ReqLoraNode, LoRaNode,
  DeviceParameter, device_parameter, gate_parameter, LoraNodeDeviceDefault, app_skey_missing,
  nwk_skey_missing, dev_addr_missing, bad_app_skey, bad_nwk_skey, bad_dev_addr, bad_app_key, parsed,
  checked, fill_predefine, abp_with, abp, otaa,
}
use snapemu_workflow.Devices.Creation.Insert.{
  try_redis, has_addr, none_found, valid_addr, create_addr, with_join, default_of, with_default,
  register_device, set_blue, new_func_blue, name_blue, not_used, row_of, inserted,
  register_inserted, insert_node, create_default,
}
use snapemu_workflow.Devices.Creation.Columns.{Texts, device_columns}

-- The devices addresses of the rows are pairwise different.
abbrev pub IsDistinct : List NodeModel → Type 0
IsDistinct [] = Unit
IsDistinct (r ∷ rows) = All (λ m. m.node.dev_addr ≢ r.node.dev_addr) rows × IsDistinct rows

none_of : {A : Type 0} (e : NodeError) (o : Option A) (u : Unit) → none_found e o ≡ ok u → o ≡ none
none_of e none u h = refl
none_of e (some a) u h = cc

pub find-none_All :
    (addr : ℕ) (rows : List NodeModel)
    → find (has_addr addr) rows ≡ none
    → All (λ m. m.node.dev_addr ≢ addr) rows
unfolding find
find-none_All addr [] h = tt
find-none_All addr (r ∷ rows) h = elim (Bool-cases (r.node.dev_addr == addr)) [
  | inl same_ ↦ absurd (let e = rw same_ at h in cc)
  | inr other ↦ (
    λ e. let yes_ = (==_iff r.node.dev_addr addr).1 e in absurd cc,
    find-none_All addr rows (rw other at h),
  )
]

module _ (hex : Hex) (query_eui : Str → Outcome NodeError (Option DeviceParameter))
    (S : Stores) where
  pub valid_addr-none :
      (addr : ℕ) (w : World S) (b : Bool)
      → valid_addr hex query_eui S addr w ≡ ok b
      → find (has_addr addr) (S.nodes.rows w.nodes) ≡ none
  unfolding valid_addr
  valid_addr-none addr w b h =
      let (u, e, rest) =
        bind_ok (none_found dev_addr_already (find (has_addr addr) (S.nodes.rows w.nodes))) _ b h in
      none_of dev_addr_already _ u e

  pub create_addr-none :
      (draws : List ℕ) (w : World S) (addr : ℕ)
      → create_addr hex query_eui S draws w ≡ ok addr
      → find (has_addr addr) (S.nodes.rows w.nodes) ≡ none
  unfolding create_addr
  create_addr-none [] w addr h = absurd cc
  create_addr-none (a ∷ draws) w addr h =
      let (known, e, rest) = bind_ok (valid_addr hex query_eui S a w) _ addr h in
      last (create_addr-none draws w addr) known e rest
    where
      last :
          (create_addr hex query_eui S draws w ≡ ok addr
            → find (has_addr addr) (S.nodes.rows w.nodes) ≡ none)
          → (known : Bool) → valid_addr hex query_eui S a w ≡ ok known
          → (if known then create_addr hex query_eui S draws w else ok a) ≡ ok addr
          → find (has_addr addr) (S.nodes.rows w.nodes) ≡ none
      last ih true e rest = ih rest
      last ih false e rest =
          let same_ : a ≡ addr = cc in rw (sym same_) (valid_addr-none a w false e)

  -- The server of predefined devices has devices by address for nodes that do not join.
  abbrev pub IsByAddress : Type 0
  IsByAddress =
      (d : Str) (n : LoRaNode)
      → length d ≡ 8
      → query_eui (to_uppercase d) ≡ ok (some (device_parameter n))
      → n.join_type ≡ abp_join

  abp_with-join_type :
      (a n d : Str) (this t : LoraNodeDeviceDefault) (p : Option DeviceParameter)
      → ((m : LoRaNode) → p ≡ some (device_parameter m) → m.join_type ≡ abp_join)
      → this.join_type ≡ abp_join
      → abp_with hex query_eui a n d this p ≡ ok t
      → t.join_type ≡ abp_join
  unfolding fill_predefine
  abp_with-join_type a n d this t none by j h =
      let (k1, e1, h1) = bind_ok (parsed bad_app_key (key_try_from hex a)) _ t h in
      let (k2, e2, h2) = bind_ok (parsed bad_nwk_skey (key_try_from hex n)) _ t h1 in
      let (k3, e3, h3) = bind_ok (parsed bad_dev_addr (addr_try_from hex d)) _ t h2 in
      let made : record this { app_skey = k1; nwk_skey = k2; dev_addr = k3 } ≡ t = cc in
      rw (sym made) j
  abp_with-join_type a n d this t (some gate_parameter) by j h = absurd cc
  abp_with-join_type a n d this t (some (device_parameter node)) by j h =
      elim (Bool-cases
        (not (same node.join_parameter.app_skey a) || not (same node.join_parameter.nwk_skey n))) [
          | inl other ↦ absurd (let e = rw other at h in cc)
          | inr agree ↦
              let e = rw agree at h in
              let made : fill_predefine hex node this ≡ t = cc in rw (sym made) (by node refl)
        ]

  checked-length :
      (n : ℕ) (bad : NodeError) (s : Str) (u : Unit) → checked n bad s ≡ ok u → length s ≡ n
  checked-length n bad s u h = elim (Bool-cases (length s == n)) [
    | inl e ↦ (==_iff (length s) n).0 e
    | inr e ↦ absurd (let f = rw e at h in cc)
  ]

  abp-join_type :
      IsByAddress
      → (a n d : Option Str) (this t : LoraNodeDeviceDefault) → this.join_type ≡ abp_join
      → abp hex query_eui a n d this ≡ ok t
      → t.join_type ≡ abp_join
  unfolding abp
  abp-join_type by oa on od this t j h =
      let (a, ea, h1) = bind_ok (ok_or oa app_skey_missing) _ t h in
      let (n, en, h2) = bind_ok (ok_or on nwk_skey_missing) _ t h1 in
      let (d, ed, h3) = bind_ok (ok_or od dev_addr_missing) _ t h2 in
      let (u1, c1, h4) = bind_ok (checked 32 bad_app_skey a) _ t h3 in
      let (u2, c2, h5) = bind_ok (checked 32 bad_nwk_skey n) _ t h4 in
      let (u3, c3, h6) = bind_ok (checked 8 bad_dev_addr d) _ t h5 in
      let (p, q, h7) = bind_ok (query_eui (to_uppercase d)) _ t h6 in
      abp_with-join_type (to_uppercase a) (to_uppercase n) (to_uppercase d) this t p
        (λ m e. by d m (checked-length 8 bad_dev_addr d u3 c3) (q ∙ ap (λ x. ok x) e)) j h7

  set_by_type :
      (t : LoRaJoinType) (req : ReqLoraNode) (draws : List ℕ) (w : World S)
      (this node : LoraNodeDeviceDefault)
      → IsByAddress
      → this.join_type ≡ t
      → with_join hex query_eui S req draws w t this ≡ ok node
      → (node.join_type ≡ abp_join) ⊎ (find (has_addr node.dev_addr) (S.nodes.rows w.nodes) ≡ none)
  set_by_type otaa_join req draws w this node by j h =
      let p = req.join_parameter in
      let (t, e, h1) = bind_ok (otaa hex query_eui p.app_key p.app_eui p.dev_eui this) _ node h in
      let (addr, c, h2) = bind_ok (create_addr hex query_eui S draws w) _ node h1 in
      let made : record t { dev_addr = addr } ≡ node = cc in
      inr (rw (sym made) (create_addr-none draws w addr c))
  set_by_type abp_join req draws w this node by j h =
      let p = req.join_parameter in
      let (t, e, h1) = bind_ok (abp hex query_eui p.app_skey p.nwk_skey p.dev_addr this) _ node h in
      let made : record t { dev_eui = req.eui } ≡ node = cc in
      inl (rw (sym made) (abp-join_type by p.app_skey p.nwk_skey p.dev_addr this t j e))

-- The row that `insert_node` adds.
module _ (hex : Hex) (texts : Texts) (S : Stores) (laws : IsStores S) where
  set_blue_nodes :
      (id : ℕ) (name : Option Str) (w : World S) → (name_blue S id name w).nodes ≡ w.nodes
  unfolding new_func_blue
  set_blue_nodes id none w = refl
  set_blue_nodes id (some name) w = found _
    where
      found : (f : Option FunctionModel) → (set_blue S id name f w).nodes ≡ w.nodes
      found none = refl
      found (some f) = elim (Bool-cases (same f.func_value name)) [
        | inl e ↦ rw e refl
        | inr e ↦ rw e refl
      ]

  not_used-none :
      (node : LoraNodeDeviceDefault) (t : LoRaJoinType) (w : World S) (u : Unit)
      → t ≡ abp_join
      → not_used hex texts S node t w ≡ ok u
      → find (has_addr node.dev_addr) (S.nodes.rows w.nodes) ≡ none
  unfolding not_used
  not_used-none node otaa_join w u j h = absurd cc
  not_used-none node abp_join w u j h =
      let (v, e, h1) =
        bind_ok (ensure (not (check_addr hex S.redis node.dev_addr w.redis)) dev_addr_already) _ u
          h in
      none_of dev_addr_already _ u h1

  pub inserted-rows :
      (now user : ℕ) (node : LoraNodeDeviceDefault) (w : World S)
      → (device id : ℕ) × ((inserted hex texts S now user node w).1
          ≡ row_of hex texts S node device id)
        × (S.nodes.rows (inserted hex texts S now user node w).2.nodes
            ≡ row_of hex texts S node device id ∷ S.nodes.rows w.nodes)
  unfolding inserted register_device
  inserted-rows now user node w =
      let device =
        (register_device S now user node.eui node.name node.description lora_node w).0.id in
      let (key, fresh, made, rows) =
        laws.nodes.rows-insert (row_of hex texts S node device) w.nodes in
      (device, key, made, rw (set_blue_nodes device node.blue_name) rows)

  register_inserted_nodes :
      (i : DevicesModel × NodeModel × World S) (id : ℕ) (v : World S)
      → register_inserted hex texts S i ≡ ok (id, v)
      → v.nodes ≡ i.2.nodes
  register_inserted_nodes (device, model, w) id v h =
      let (r, done, made) =
        bind_ok
          (try_redis
            (register_to_redis hex S.redis model.node (device_columns texts device) w.redis))
          _ (id, v) h in
      let same_ : record w { redis = r.1 } ≡ v = cc in rw (sym same_) refl

  pub insert_node-rows :
      (now user id : ℕ) (node : LoraNodeDeviceDefault) (w v : World S)
      → insert_node hex texts S now user node w ≡ ok (id, v)
      → (u : Unit) × (row : NodeModel) × (not_used hex texts S node node.join_type w ≡ ok u)
        × (S.nodes.rows v.nodes ≡ row ∷ S.nodes.rows w.nodes)
        × (row.node.dev_addr ≡ node.dev_addr)
  unfolding insert_node
  insert_node-rows now user id node w v h =
      let (u, free, h1) = bind_ok (not_used hex texts S node node.join_type w) _ (id, v) h in
      let (device, key, made, rows) = inserted-rows now user node w in
      (
        u,
        row_of hex texts S node device key,
        free,
        ap S.nodes.rows (register_inserted_nodes (inserted hex texts S now user node w) id v h1)
            ∙ rows,
        refl,
      )

module _ (hex : Hex) (query_eui : Str → Outcome NodeError (Option DeviceParameter)) (texts : Texts)
    (S : Stores) (laws : IsStores S) where
  -- A node that is created from a request without what was read over Bluetooth has an address that no other
  -- node in the table has, if the devices that are predefined by address are ones that do not join.
  pub create_default-IsDistinct :
      IsByAddress hex query_eui S
      → (now user id : ℕ) (draws : List ℕ) (req : ReqLoraNode) (w v : World S)
      → IsDistinct (S.nodes.rows w.nodes)
      → create_default hex query_eui texts S now user draws req w ≡ ok (id, v)
      → IsDistinct (S.nodes.rows v.nodes)
  unfolding create_default with_default default_of
  create_default-IsDistinct by now user id draws req w v distinct h =
      let (node, made, h1) = bind_ok (with_default hex query_eui S req draws w) _ (id, v) h in
      let (u, row, free, rows, same_addr) =
        insert_node-rows hex texts S laws now user id node w v h1 in
      let unused : find (has_addr node.dev_addr) (S.nodes.rows w.nodes) ≡ none =
        elim (set_by_type hex query_eui S req.join_type req draws w (default_of hex query_eui S req)
          node by refl made) [
            | inl j ↦ not_used-none hex texts S laws node node.join_type w u j free
            | inr e ↦ e
          ] in
      rw (rows, same_addr) (find-none_All node.dev_addr (S.nodes.rows w.nodes) unused, distinct)
