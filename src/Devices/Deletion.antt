-- ===== src/Devices/Deletion.antt =====
-- The deletion of one device and of all devices of a user: `delete` and `delete_by_user_id` of
-- snap_api/src/service/device/device.rs, with what they call in snap_api/src/service/snap.rs, mqtt.rs,
-- lorawan/node.rs, lorawan/gateway.rs and data/update.rs.
pub mod Left
pub mod Users
use snapemu_workflow.Base.{
  ℕ, ◌≡◌, Bool, true, false, ◌&&◌, Option, none, some, List, [], ◌∷◌, ◌++◌, ◌==◌, if◌then◌else◌,
  Outcome, ok, err, panic, stuck, ◌>>=◌, ok_or,
}
use snapemu_workflow.Base.Texts.{same}
use snapemu_workflow.Groups.{find, unlink_device_all}
use snapemu_workflow.Ids.{Hex, eui_to_string, id_to_string}
use snapemu_workflow.Redis.{Str, codes}
use snapemu_workflow.Register.{unregister}
use snapemu_workflow.Register.Others.{gateway_unregister, snap_unregister}
use snapemu_workflow.Tables.{Table, is_in, delete_row}
use snapemu_workflow.Devices.{
  DeviceType, lora_node, lora_gate, mqtt, snap, DevicesModel, DeviceAuthorityModel, NodeModel,
  GateModel, MqttToken, MqttType, of_snap, of_gateway, of_integration, DeviceError, invalid_device,
  not_owner, device_missing, gate_missing, eui_missing, DeviceWithAuth, query_all_with_auth,
  query_one_with_auth, Stores, World,
}

abbrev pub is_gateway : MqttType → Bool
is_gateway of_gateway = true
is_gateway _ = false

-- `map_err`
abbrev pub or_invalid : {A : Type 0} → Outcome DeviceError A → Outcome DeviceError A
or_invalid (ok a) = ok a
or_invalid (err e) = err invalid_device
or_invalid panic = panic
or_invalid stuck = stuck

-- The devices that a user owns, and the ids by type.
pub record Owned : Type 0 where
  pub can_delete : List ℕ
  pub lora_nodes : List ℕ
  pub lora_gates : List ℕ
  pub mqtts : List ℕ
  pub snaps : List ℕ

abbrev pub none_owned : Owned
none_owned = record { can_delete = []; lora_nodes = []; lora_gates = []; mqtts = []; snaps = [] }

unfoldable pub add_owned : ℕ → DeviceType → Owned → Owned
add_owned id lora_node o = record o {
  can_delete = id ∷ o.can_delete;
  lora_nodes = id ∷ o.lora_nodes;
}
add_owned id lora_gate o = record o {
  can_delete = id ∷ o.can_delete;
  lora_gates = id ∷ o.lora_gates;
}
add_owned id mqtt o = record o { can_delete = id ∷ o.can_delete; mqtts = id ∷ o.mqtts }
add_owned id snap o = record o { can_delete = id ∷ o.can_delete; snaps = id ∷ o.snaps }

unfoldable pub owned_of : List DeviceWithAuth → Owned
owned_of [] = none_owned
owned_of (d ∷ devices) =
    let rest = owned_of devices in
    if d.auth.owner then add_owned d.device.id d.device.device_type rest else rest

module _ (S : Stores) where
  unfoldable pub delete_snap : List ℕ → World S → World S
  delete_snap ids w = record w { snaps = S.snaps.delete_many (λ r. is_in ids r.device_id) w.snaps }

  unfoldable pub delete_lora_node : List ℕ → World S → World S
  delete_lora_node ids w = record w {
    nodes = S.nodes.delete_many (λ r. is_in ids r.device_id) w.nodes;
  }

  unfoldable pub delete_lora_gateway : List ℕ → World S → World S
  delete_lora_gateway ids w = record w {
    gates = S.gates.delete_many (λ r. is_in ids r.device_id) w.gates;
  }

  unfoldable pub delete_device_auth : List ℕ → World S → World S
  delete_device_auth ids w = record w {
    auths = S.auths.delete_many (λ r. is_in ids r.device_id) w.auths;
  }

  unfoldable pub delete_list : List ℕ → World S → World S
  delete_list ids w = record w { devices = S.devices.delete_many (λ r. is_in ids r.id) w.devices }

  unfoldable pub delete_by_device_id_array : List ℕ → World S → World S
  delete_by_device_id_array ids w = record w {
    samples = S.samples.delete_many (λ r. is_in ids r.device_id) w.samples;
  }

  unfoldable pub delete_by_device_id : ℕ → World S → World S
  delete_by_device_id id w = record w {
    samples = S.samples.delete_many (λ r. r.device_id == id) w.samples;
  }

  unfoldable pub delete_mqtt : ℕ → World S → World S
  delete_mqtt id w = record w { mqtts = S.mqtts.delete_many (λ r. r.device_id == id) w.mqtts }

module _ (hex : Hex) (S : Stores) where
  -- `DeviceCache::delete_by_user_id`
  unfoldable pub delete_cache : ℕ → World S → World S
  delete_cache user w = record w {
    redis = S.redis.del (codes "cache:device:" ++ id_to_string hex user) w.redis;
  }

  -- The first list is that of the nodes, as in the code.
  unfoldable pub delete_by_user_id : ℕ → World S → World S
  delete_by_user_id user w =
      let devices = query_all_with_auth user (S.auths.rows w.auths) (S.devices.rows w.devices) in
      let o = owned_of devices in
      let w1 = delete_snap S o.lora_nodes w in
      let w2 = delete_lora_node S o.lora_nodes w1 in
      let w3 = delete_lora_gateway S o.lora_gates w2 in
      let w4 = delete_by_device_id_array S o.can_delete w3 in
      let w5 = delete_list S o.can_delete w4 in
      delete_cache user (delete_device_auth S o.can_delete w5)

  -- `SnapDeviceService::delete`
  unfoldable pub delete_snap_device : ℕ → World S → Outcome DeviceError (World S)
  delete_snap_device id w = do
    model ← ok_or (find (λ r. r.device_id == id) (S.snaps.rows w.snaps)) eui_missing
    ok (record w { redis = snap_unregister hex S.redis model.eui w.redis })

  unfoldable pub delete_node : ℕ → World S → Outcome DeviceError (World S)
  delete_node id w = do
    row ← ok_or (find (λ r. r.device_id == id) (S.nodes.rows w.nodes)) device_missing
    ok (record w {
      redis = unregister hex S.redis row.node.dev_eui row.node.dev_addr w.redis;
      nodes = delete_row S.nodes row w.nodes;
    })

  abbrev pub delete_token : Option MqttToken → S.tokens.State → S.tokens.State
  delete_token none s = s
  delete_token (some token) s = delete_row S.tokens token s

  unfoldable pub delete_gateway : ℕ → World S → Outcome DeviceError (World S)
  delete_gateway id w = do
    gate ← ok_or (find (λ r. r.device_id == id) (S.gates.rows w.gates)) gate_missing
    let name = eui_to_string hex gate.eui
    let token = find (λ t. same t.username name && is_gateway t.mqtt_type) (S.tokens.rows w.tokens)
    ok (record w {
      redis = gateway_unregister hex S.redis gate.eui w.redis;
      tokens = delete_token token w.tokens;
      gates = delete_row S.gates gate w.gates;
    })

  unfoldable pub delete_typed : DeviceType → ℕ → World S → Outcome DeviceError (World S)
  delete_typed snap id w = delete_snap_device id w >>= λ v. ok (delete_by_device_id S id v)
  delete_typed mqtt id w = ok (delete_mqtt S id w)
  delete_typed lora_node id w = delete_node id w >>= λ v. ok (delete_by_device_id S id v)
  delete_typed lora_gate id w = delete_gateway id w

  unfoldable pub delete_owned : ℕ → DevicesModel → World S → Outcome DeviceError (World S)
  delete_owned device_id device w = do
    let w1 : World S = record w { groups = unlink_device_all S.groups S.caches device.id w.groups }
    w2 ← delete_typed device.device_type device_id w1
    let w3 : World S = record w2 { devices = delete_row S.devices device w2.devices }
    ok (record w3 { auths = S.auths.delete_many (λ r. r.device_id == device_id) w3.auths })

  unfoldable pub delete_device : ℕ → ℕ → World S → Outcome DeviceError (World S)
  delete_device device_id user w = do
    d ←
        or_invalid
          (query_one_with_auth user device_id (S.auths.rows w.auths) (S.devices.rows w.devices))
    if d.auth.owner then delete_owned device_id d.device w else err not_owner
