-- ===== src/Devices/Modify/Settings.antt =====
-- The register of a node and its row in the table, when settings are changed.
use Prim.Native.String.{String}
use snapemu_workflow.Base.{
  ℕ, ◌≡◌, refl, sym, ◌∙◌, false, none, some, List, [], ◌∷◌, ◌++◌, ok, All, ◌==◌,
}
use snapemu_workflow.Base.Dict.{insert as put, lookup-insert_self}
use snapemu_workflow.Groups.{find}
use snapemu_workflow.Ids.{Hex}
use snapemu_workflow.Redis.{Str, Fields, string, hash, Redis, IsRedis, text_eq}
use snapemu_workflow.Register.{NodeRow, eui_key, addr_key}
use snapemu_workflow.Register.Keys.{eui_key-ne-addr_key}
use snapemu_workflow.Register.Updates.{update_by_eui-cases}
use snapemu_workflow.Devices.{DevicesModel, NodeModel, lora_node, Stores, World}
use snapemu_workflow.Devices.Modify.{
  DeviceModify, Change, node_changes, set_column, or_old, apply_changes, update_node,
}
use snapemu_workflow.Devices.Modify.Asked.{
  fields_after, node_after, asked, given, fields_after-latest, node_after-latest, named,
  column-Named, field-Named,
}

fields_after-append :
    (a b : List Change) (h : Fields) → fields_after (a ++ b) h ≡ fields_after b (fields_after a h)
fields_after-append [] b h = refl
fields_after-append ((column, field, none) ∷ a) b h = fields_after-append a b h
fields_after-append ((column, field, some v) ∷ a) b h = fields_after-append a b (put field v h)

node_after-append :
    (a b : List Change) (node : NodeRow)
    → node_after (a ++ b) node ≡ node_after b (node_after a node)
node_after-append [] b node = refl
node_after-append ((column, field, none) ∷ a) b node = node_after-append a b node
node_after-append ((column, field, some v) ∷ a) b node =
    node_after-append a b (set_column column v node)

fields_after_other :
    (changes : List Change) (h : Fields) (n : String)
    → All (λ c. text_eq.beq c.1 n ≡ false) changes
    → fields_after changes h n ≡ h n
unfolding put
fields_after_other [] h n other = refl
fields_after_other ((column, field, none) ∷ changes) h n (o, other) =
    fields_after_other changes h n other
fields_after_other ((column, field, some v) ∷ changes) h n (o, other) =
    fields_after_other changes (put field v h) n other ∙ rw o refl

module _ (hex : Hex) (R : Redis) where
  -- The EUI leads to the hash of an address, which has these fields.
  abbrev pub Leads : ℕ → ℕ → Fields → R.State → Type 0
  Leads eui addr h s =
      (R.look s (eui_key hex eui) ≡ string (addr_key hex addr))
      × (R.look s (addr_key hex addr) ≡ hash h)

module _ (hex : Hex) (R : Redis) (laws : IsRedis R) where
  pub apply_changes-Leads :
      (changes : List Change) (eui addr : ℕ) (h : Fields) (node : NodeRow) (s : R.State)
      → Leads hex R eui addr h s
      → (t : R.State) × (apply_changes hex R eui changes node s ≡ ok (node_after changes node, t))
        × Leads hex R eui addr (fields_after changes h) t
  unfolding apply_changes
  apply_changes-Leads [] eui addr h node s leads = (s, refl, leads)
  apply_changes-Leads ((column, field, none) ∷ changes) eui addr h node s leads =
      apply_changes-Leads changes eui addr h node s leads
  apply_changes-Leads ((column, field, some v) ∷ changes) eui addr h node s (key, at) =
      let (t, done, after, others) =
        (update_by_eui-cases hex R laws eui field v (addr_key hex addr) h s).2 key at in
      let still = others (eui_key hex eui) (λ e. eui_key-ne-addr_key hex eui addr (sym e)) in
      let (u, ends, leads) =
        apply_changes-Leads changes eui addr (put field v h) (set_column column v node) t
          (still ∙ key, after) in
      (u, rw done ends, leads)

module _ (hex : Hex) (S : Stores) (laws : IsRedis S.redis) where
  -- What `update_node` makes of a node that is in its table and in the register.
  update_node-done :
      (device : DevicesModel) (info : DeviceModify) (w : World S) (row : NodeModel) (addr : ℕ)
      (h : Fields)
      → device.device_type ≡ lora_node
      → find (λ n. n.device_id == device.id) (S.nodes.rows w.nodes) ≡ some row
      → Leads hex S.redis device.eui addr h w.redis
      → (t : S.redis.State) × (update_node hex S device info w
          ≡ ok (
            record device {
              name = or_old info.name device.name;
              description = or_old info.description device.description;
            },
            record w {
              nodes =
                  S.nodes.update
                    (record row { node = node_after (node_changes info) row.node })
                    w.nodes;
              redis = t;
            },
          ))
        × Leads hex S.redis device.eui addr (fields_after (node_changes info) h) t
  unfolding update_node
  update_node-done device info w row addr h node found leads =
      let (t, done, after) =
        apply_changes-Leads hex S.redis laws (node_changes info) device.eui addr h row.node w.redis
          leads in
      (t, rw (node, found, done) refl, after)

  -- A node that is in its table, and whose EUI leads to its fields in the register, is changed in both, as long as no
  -- session key of the application is given: a column and the field of the same name then have what the request asks for
  -- under this name, and where it asks for nothing what they had; the name and the description of the device likewise.
  pub update_node-Agrees :
      (device : DevicesModel) (info : DeviceModify) (w : World S) (row : NodeModel) (addr : ℕ)
      (h : Fields) (n : String)
      → info.app_skey ≡ none
      → device.device_type ≡ lora_node
      → find (λ n. n.device_id == device.id) (S.nodes.rows w.nodes) ≡ some row
      → Leads hex S.redis device.eui addr h w.redis
      → (d : DevicesModel) × (t : S.redis.State) × (node : NodeRow) × (g : Fields) × (update_node
            hex S device info w
          ≡ ok (
            d,
            record w { nodes = S.nodes.update (record row { node = node }) w.nodes; redis = t },
          ))
        × Leads hex S.redis device.eui addr g t
        × (g n ≡ given (asked info n) (h n))
        × (node.column n ≡ given (asked info n) (row.node.column n))
        × (d.name ≡ or_old info.name device.name)
        × (d.description ≡ or_old info.description device.description)
  update_node-Agrees device info w row addr h n no_key node found leads =
      let (t, done, after) = update_node-done device info w row addr h node found leads in
      (
        record device {
          name = or_old info.name device.name;
          description = or_old info.description device.description;
        },
        t,
        node_after (node_changes info) row.node,
        fields_after (node_changes info) h,
        done,
        after,
        fields_after-latest (node_changes info) h n ∙ field-Named info n (h n) no_key (named n),
        node_after-latest (node_changes info) row.node n
            ∙ column-Named info n (row.node.column n) no_key (named n),
        refl,
        refl,
      )

  -- A session key of the application is stored in the table, but in the register it is written over the
  -- key that a join takes, also where another such key is given. The session key of the register stays.
  pub update_node-app_skey :
      (device : DevicesModel) (info : DeviceModify) (w : World S) (row : NodeModel) (addr : ℕ)
      (h : Fields) (key : Str)
      → info.app_skey ≡ some key
      → device.device_type ≡ lora_node
      → find (λ n. n.device_id == device.id) (S.nodes.rows w.nodes) ≡ some row
      → Leads hex S.redis device.eui addr h w.redis
      → (d : DevicesModel) × (t : S.redis.State) × (node : NodeRow) × (g : Fields) × (update_node
            hex S device info w
          ≡ ok (
            d,
            record w { nodes = S.nodes.update (record row { node = node }) w.nodes; redis = t },
          ))
        × Leads hex S.redis device.eui addr g t
        × (node.column "app_skey" ≡ some key)
        × (g "app_key" ≡ some key)
        × (g "app_skey" ≡ h "app_skey")
  unfolding node_changes set_column
  update_node-app_skey device info w row addr h key given node found leads =
      let (t, done, after) = update_node-done device info w row addr h node found leads in
      let last : Change = ("app_skey", "app_key", info.app_skey) in
      let before : List Change =
        ("region", "region", info.region)
        ∷ ("class_c", "class_c", info.class_c)
        ∷ ("join_type", "join_type", info.join_type)
        ∷ ("app_eui", "app_eui", info.app_eui)
        ∷ ("app_key", "app_key", info.app_key)
        ∷ ("nwk_skey", "nwk_skey", info.nwk_skey)
        ∷ [] in
      (
        record device {
          name = or_old info.name device.name;
          description = or_old info.description device.description;
        },
        t,
        node_after (node_changes info) row.node,
        fields_after (node_changes info) h,
        done,
        after,
        rw (node_after-append before (last ∷ []) row.node, given)
            (lookup-insert_self "app_skey" key (node_after before row.node).column),
        rw (fields_after-append before (last ∷ []) h, given)
            (lookup-insert_self "app_key" key (fields_after before h)),
        fields_after_other (node_changes info) h "app_skey"
            (refl, (refl, (refl, (refl, (refl, (refl, (refl, tt))))))),
      )
