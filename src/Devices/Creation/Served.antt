-- ===== src/Devices/Creation/Served.antt =====
-- A node that is created, in the register; and the draws of an address.
use snapemu_workflow.Base.{
  ℕ, ◌^◌, ◌<◌, ◌≡◌, refl, ap, ◌∙◌, inl, inr, true, false, Bool-cases, Option, none, some, List, [],
  ◌∷◌, ◌++◌, All, Outcome, ok, err,
}
use snapemu_workflow.Base.Int.{pos}
use snapemu_workflow.Base.Results.{bind_ok}
use snapemu_workflow.Base.Dict.{insert as put}
use snapemu_workflow.Base.Texts.{same}
use snapemu_workflow.Groups.{find}
use snapemu_workflow.Ids.{Hex, eui_to_string, addr_to_string, key_to_string}
use snapemu_workflow.Redis.{Str, Fields, codes}
use snapemu_workflow.Redis.Hash.{Struct}
use snapemu_workflow.Redis.Hash.Merge.{Fits, merge, does_fit→Fits}
use snapemu_workflow.Register.{
  node_info, node_info_of, addr_key, register_to_redis, load_by_eui, load_by_addr,
}
use snapemu_workflow.Register.Nodes.{Holds, register-load}
use snapemu_workflow.Devices.{
  DevicesModel, NodeModel, FunctionModel, lora_node, Stores, World, IsStores,
}
use snapemu_workflow.Devices.Creation.{
  NodeError, dev_addr_already, DeviceParameter, LoraNodeDeviceDefault, as_i16,
}
use snapemu_workflow.Devices.Creation.Insert.{
  has_addr, valid_addr, create_addr, row_of, register_device, inserted, register_inserted,
  insert_node, name_blue, new_func_blue, set_blue, not_used,
}
use snapemu_workflow.Devices.Creation.Columns.{Texts, device_columns, node_columns, new_device_row}

module _ (hex : Hex) (query_eui : Str → Outcome NodeError (Option DeviceParameter))
    (S : Stores) where
  -- A draw that the server of predefined devices knows and that is not in the table.
  abbrev pub IsPredefined : World S → ℕ → Type 0
  IsPredefined w a =
      (find (has_addr a) (S.nodes.rows w.nodes) ≡ none)
      × ((p : DeviceParameter) × (query_eui (addr_to_string hex a) ≡ ok (some p)))

  predefined_known :
      (w : World S) (a : ℕ) → IsPredefined w a → valid_addr hex query_eui S a w ≡ ok true
  unfolding valid_addr
  predefined_known w a (e, (p, q)) = rw (e, q) refl

  create_addr-append :
      (known rest : List ℕ) (w : World S)
      → All (IsPredefined w) known
      → create_addr hex query_eui S (known ++ rest) w ≡ create_addr hex query_eui S rest w
  unfolding create_addr
  create_addr-append [] rest w all = refl
  create_addr-append (a ∷ known) rest w (known_a, all) =
      rw (predefined_known w a known_a) (create_addr-append known rest w all)

  -- An address is found as soon as one is drawn that is neither predefined nor in the table, if all draws before
  -- it are only predefined.
  pub create_addr-free :
      (known draws : List ℕ) (addr : ℕ) (w : World S)
      → All (IsPredefined w) known
      → find (has_addr addr) (S.nodes.rows w.nodes) ≡ none
      → query_eui (addr_to_string hex addr) ≡ ok none
      → create_addr hex query_eui S (known ++ (addr ∷ draws)) w ≡ ok addr
  unfolding create_addr valid_addr
  create_addr-free known draws addr w all free new =
      create_addr-append known (addr ∷ draws) w all ∙ rw (free, new) refl

  -- A draw of an address that is in the table ends the search with an error, whatever the draws after it, if all
  -- draws before it are only predefined.
  pub create_addr-taken :
      (known draws : List ℕ) (addr : ℕ) (w : World S) (row : NodeModel)
      → All (IsPredefined w) known
      → find (has_addr addr) (S.nodes.rows w.nodes) ≡ some row
      → create_addr hex query_eui S (known ++ (addr ∷ draws)) w ≡ err dev_addr_already
  unfolding create_addr valid_addr
  create_addr-taken known draws addr w row all taken =
      create_addr-append known (addr ∷ draws) w all ∙ rw taken refl

module _ (hex : Hex) (texts : Texts) (S : Stores) (laws : IsStores S) where
  -- The row of the device that `register_device` makes, as far as the register takes it.
  info-Fits :
      (id : ℕ) (node : LoraNodeDeviceDefault) (device : DevicesModel)
      → Fits node_info (node_info_of (node_columns hex texts id node) (device_columns texts device))
  unfolding node_info_of node_columns device_columns put
  info-Fits id node device = scripts device.script device.active_time refl refl
    where
      scripts :
          (a b : Option ℕ)
          → device.script ≡ a
          → device.active_time ≡ b
          → Fits node_info
              (node_info_of (node_columns hex texts id node) (device_columns texts device))
      scripts none none e f =
          does_fit→Fits node_info
            (node_info_of (node_columns hex texts id node) (device_columns texts device))
            (rw (e, f) refl)
      scripts none (some y) e f =
          does_fit→Fits node_info
            (node_info_of (node_columns hex texts id node) (device_columns texts device))
            (rw (e, f) refl)
      scripts (some x) none e f =
          does_fit→Fits node_info
            (node_info_of (node_columns hex texts id node) (device_columns texts device))
            (rw (e, f) refl)
      scripts (some x) (some y) e f =
          does_fit→Fits node_info
            (node_info_of (node_columns hex texts id node) (device_columns texts device))
            (rw (e, f) refl)

  -- What the register has of the node.
  abbrev pub info_of : LoraNodeDeviceDefault → DevicesModel → Struct
  info_of node device =
      node_info_of (node_columns hex texts device.id node) (device_columns texts device)

  register_inserted_load :
      (device : DevicesModel) (model : NodeModel) (x v : World S) (id key : ℕ)
      (node : LoraNodeDeviceDefault) (h : Fields)
      → node.dev_eui < 256 ^ 8
      → node.dev_addr < 256 ^ 4
      → model ≡ row_of hex texts S node device.id key
      → Holds (S.redis.look x.redis (addr_key hex node.dev_addr)) h
      → register_inserted hex texts S (device, model, x) ≡ ok (id, v)
      → (device.id ≡ id)
        × (load_by_eui hex S.redis node.dev_eui v.redis ≡ ok (some (merge (info_of node device) h)))
        × (load_by_addr hex S.redis node.dev_addr v.redis
            ≡ ok (some (merge (info_of node device) h)))
  unfolding register_to_redis
  register_inserted_load device model x v id key node h be ba made held done =
      let info = info_of node device in
      let (t, registered, by_eui, by_addr, euis, addrs) =
        register-load hex S.redis laws.redis info node.dev_eui node.dev_addr h x.redis be ba
          (info-Fits device.id node device) held in
      let ends : register_inserted hex texts S (device, model, x)
          ≡ ok (device.id, record x { redis = t }) =
        rw (made, registered) refl in
      let both : ◌≡◌ {A = ℕ × World S} (device.id, record x { redis = t }) (id, v) = cc in
      let stored : t ≡ v.redis = ap (λ p. p.1.redis) both in
      (ap (λ p. p.0) both, rw (← stored) by_eui, rw (← stored) by_addr)

  name_blue_redis :
      (id : ℕ) (name : Option Str) (w : World S) → (name_blue S id name w).redis ≡ w.redis
  unfolding new_func_blue
  name_blue_redis id none w = refl
  name_blue_redis id (some name) w = found _
    where
      found : (f : Option FunctionModel) → (set_blue S id name f w).redis ≡ w.redis
      found none = refl
      found (some f) = elim (Bool-cases (same f.func_value name)) [
        | inl e ↦ rw e refl
        | inr e ↦ rw e refl
      ]

  -- What the server is to load of a new node of a user: the settings under their names, the counters at 0, and for what
  -- a new node has not, the older field.
  abbrev pub served : ℕ → ℕ → LoraNodeDeviceDefault → Fields → Struct
  served user id node h =
      let zero_text = some (texts.int (pos 0)) in
      ("user_id", some (texts.int (pos user)))
      ∷ ("device_id", some (texts.int (pos id)))
      ∷ ("region", some (texts.region node.region))
      ∷ ("join_type", some (texts.join_type node.join_type))
      ∷ ("app_eui", some (eui_to_string hex node.app_eui))
      ∷ ("dev_eui", some (eui_to_string hex node.dev_eui))
      ∷ ("app_key", some (key_to_string hex node.app_key))
      ∷ ("dev_addr", some (addr_to_string hex node.dev_addr))
      ∷ ("nwk_skey", some (key_to_string hex node.nwk_skey))
      ∷ ("app_skey", some (key_to_string hex node.app_skey))
      ∷ ("class_b", some (texts.bool node.class_b))
      ∷ ("class_c", some (texts.bool node.class_c))
      ∷ ("adr", some (texts.bool node.adr))
      ∷ ("rx1_delay", some (texts.int node.rx1_delay))
      ∷ ("des_rx1_delay", some (texts.int node.des_rx1_delay))
      ∷ ("rx1_dro", some (texts.int node.rx1_dro))
      ∷ ("des_rx1_dro", some (texts.int node.des_rx1_dro))
      ∷ ("rx2_dr", some (texts.int node.rx2_dr))
      ∷ ("des_rx2_dr", some (texts.int node.des_rx2_dr))
      ∷ ("rx2_freq", some (texts.int node.rx2_freq))
      ∷ ("des_rx2_freq", some (texts.int node.des_rx2_freq))
      ∷ ("d_retry", some (texts.int (as_i16 node.d_retry)))
      ∷ ("c_retry", some (texts.int (as_i16 node.c_retry)))
      ∷ ("product_type", some (texts.product_type node.product_type))
      ∷ ("dutycyle", some (texts.int node.dutycyle))
      ∷ ("up_confirm", some (texts.bool false))
      ∷ ("up_dr", zero_text)
      ∷ ("up_count", some (codes "0"))
      ∷ ("down_count", some (codes "0"))
      ∷ ("power", zero_text)
      ∷ ("battery", h "battery")
      ∷ ("charge", some (texts.bool false))
      ∷ ("time_zone", zero_text)
      ∷ ("firmware", zero_text)
      ∷ ("dev_non", zero_text)
      ∷ ("app_non", zero_text)
      ∷ ("net_id", zero_text)
      ∷ ("enable", some (texts.bool true))
      ∷ ("period", some (texts.int (pos 60)))
      ∷ ("script", h "script")
      ∷ ("active_time", h "active_time")
      ∷ ("gateway", h "gateway")
      ∷ []

  served_new :
      (now user id : ℕ) (node : LoraNodeDeviceDefault) (device : DevicesModel) (h : Fields)
      → device ≡ new_device_row now user node.eui node.name node.description lora_node id
      → merge (info_of node device) h ≡ served user device.id node h
  unfolding node_info_of node_columns device_columns put merge
  served_new now user id node device h is = rw is refl

  -- A node that was created, whose address and EUI fit and whose address holds no text in the register, is loaded by
  -- its EUI and by its address with each of its settings under its own name, the keys and addresses in their texts,
  -- with the counters at 0, with the id that is the answer for its device, and with the user; fields that a new node
  -- has not are those that were there.
  pub insert_node-load :
      (now user id : ℕ) (node : LoraNodeDeviceDefault) (w v : World S) (h : Fields)
      → node.dev_eui < 256 ^ 8
      → node.dev_addr < 256 ^ 4
      → Holds (S.redis.look w.redis (addr_key hex node.dev_addr)) h
      → insert_node hex texts S now user node w ≡ ok (id, v)
      → (load_by_eui hex S.redis node.dev_eui v.redis ≡ ok (some (served user id node h)))
        × (load_by_addr hex S.redis node.dev_addr v.redis ≡ ok (some (served user id node h)))
  unfolding insert_node inserted register_device
  insert_node-load now user id node w v h be ba held done =
      let (u, free, h1) = bind_ok (not_used hex texts S node node.join_type w) _ (id, v) done in
      let (made, w1) = register_device S now user node.eui node.name node.description lora_node w in
      let (key, fresh, row, rows) =
        laws.nodes.rows-insert (row_of hex texts S node made.id) w.nodes in
      let (number, new, is, listed) =
        laws.devices.rows-insert
          (new_device_row now user node.eui node.name node.description lora_node) w.devices in
      let (same_id, by_eui, by_addr) =
        register_inserted_load made _ _ v id key node h be ba row
          (rw (name_blue_redis made.id node.blue_name _) held) h1 in
      let loaded =
        served_new now user number node made h is ∙ ap (λ i. served user i node h) same_id in
      (rw loaded at by_eui, rw loaded at by_addr)
