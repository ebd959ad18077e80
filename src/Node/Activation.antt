-- ===== src/Node/Activation.antt =====
-- The uplink of a LoRa node (devices_manager/src/service/lorawan_node.rs, `decode_enc_payload` and
-- `decode_node_payload`): the first message after a join puts the keys of the join into force.
pub mod Joined
use snapemu_workflow.Base.{
  ℕ, Bool, true, false, Option, none, some, ltb, if◌then◌else◌, Outcome, ok, err, panic, stuck,
}
use snapemu_workflow.Node.{Counters, MicError, mic_error, payload_decode, is_repetition}

-- `LoRaOTAANodeInfo`; `K` is the pair of session keys.
pub record OtaaInfo (K : Type 0) : Type 0 where
  pub keys : K
  pub dev_nonce : ℕ
  pub app_nonce : ℕ
  pub net_id : ℕ

-- A node: what the `NodeInfo` in hand and redis have of it, and the keys of a join that wait.
pub record Session (K : Type 0) : Type 0 where
  pub keys : K
  pub dev_non : ℕ
  pub app_non : ℕ
  pub net_id : ℕ
  pub counters : Counters
  pub otaa : Option (OtaaInfo K)

pub data UplinkError : Type 0 where
  empty_error mic : UplinkError

-- The node of the next message, whose info is loaded from redis.
unfoldable pub reload : {K : Type 0} → Session K → Session K
reload s = record s {
  counters = record s.counters {
    up_count = s.counters.stored_up;
    down_count = s.counters.stored_down;
  };
}

-- The keys of the join, with the counter of the message for both stored counters.
unfoldable pub activate : {K : Type 0} → ℕ → OtaaInfo K → Session K → Session K
activate up_count info s = record s {
  keys = info.keys;
  dev_non = info.dev_nonce;
  app_non = info.app_nonce;
  net_id = info.net_id;
  counters = record s.counters { stored_up = up_count; stored_down = up_count };
}

module _ {K D : Type 0} where
  abbrev pub checked :
      ℕ → Bool → OtaaInfo K → Session K → Option D → Outcome UplinkError Unit × Session K
  checked up_count registered info s none = (err empty_error, s)
  checked up_count registered info s (some d) =
      if registered then (ok tt, activate up_count info s) else (err empty_error, s)

  -- `decrypt_mic` of the message by the keys and the counter; `registered` is whether the database has
  -- the node.
  module _ (decrypt_mic : K → ℕ → Option D) (registered : Bool) where
    abbrev pub activate_with :
        ℕ → Session K → Option (OtaaInfo K) → Outcome UplinkError Unit × Session K
    activate_with up_count s none = (ok tt, s)
    activate_with up_count s (some info) =
        checked up_count registered info (record s { otaa = none }) (decrypt_mic info.keys up_count)

    unfoldable pub try_activate : ℕ → Session K → Outcome UplinkError Unit × Session K
    try_activate up_count s = if ltb up_count 5 then activate_with up_count s s.otaa else (ok tt, s)

    abbrev pub counted :
        Session K → Outcome MicError (D × Counters) → Outcome UplinkError (Option D) × Session K
    counted s (ok (d, counters)) = (ok (some d), record s { counters = counters })
    counted s (err e) = (err mic, s)
    counted s panic = (panic, s)
    counted s stuck = (stuck, s)

    -- `none` is a message that is passed over as a repetition.
    unfoldable pub decode_node_payload : ℕ → Session K → Outcome UplinkError (Option D) × Session K
    decode_node_payload up_count s =
        if is_repetition s.counters.up_count up_count
        then (ok none, s)
        else counted s (payload_decode (decrypt_mic s.keys) up_count s.counters)

    abbrev pub go_on :
        ℕ → Outcome UplinkError Unit × Session K → Outcome UplinkError (Option D) × Session K
    go_on up_count (ok u, s) = decode_node_payload up_count s
    go_on up_count (err e, s) = (err e, s)
    go_on up_count (panic, s) = (panic, s)
    go_on up_count (stuck, s) = (stuck, s)

    unfoldable pub decode_enc_payload : ℕ → Session K → Outcome UplinkError (Option D) × Session K
    decode_enc_payload up_count s = go_on up_count (try_activate up_count s)
