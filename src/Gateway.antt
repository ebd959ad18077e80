-- ===== src/Gateway.antt =====
-- The packets of gateways (devices_manager/src/protocol/lora/source/udp.rs) and their tokens
-- (common_define/src/lorawan_bridge.rs). The reader of JSON is a parameter, and `S`, `R`, `D` stand for
-- a status, for received packets and for what is sent down. The texts of errors are constructors.
pub mod Packets
mod Tests
use snapemu_workflow.Base.{
  ℕ, ◌+◌, ◌%◌, ◌/◌, ◌^◌, ◌*◌, Bool, not, Option, none, some, List, [], ◌∷◌, ◌++◌, length, ltb, ◌==◌,
  if◌then◌else◌, Outcome, ok, err, panic, ◌>>=◌, ◌>>◌, ensure, ok_or, index, slice, slice_from,
}
use snapemu_workflow.Base.Bytes.{from_le_bytes, to_le_bytes}
use snapemu_workflow.Ids.{eui_from_be_bytes, eui_to_bytes}

pub data PacketError : Type 0 where
  invalid invalid_version invalid_payload invalid_event invalid_token invalid_eui : PacketError

-- `GatewayToken`, a u16.
unfoldable pub token_from_slice : List ℕ → Option ℕ
token_from_slice (a ∷ (b ∷ [])) = some (from_le_bytes (a ∷ b ∷ []))
token_from_slice _ = none

unfoldable pub as_bytes_token : ℕ → List ℕ
as_bytes_token token = to_le_bytes 2 token

pub data GatewayEventType (S R : Type 0) : Type 0 where
  status : S → GatewayEventType S R
  push_data : R → GatewayEventType S R
  pull tx_ack : GatewayEventType S R

pub record UpPack (S R : Type 0) : Type 0 where
  pub rxpk : Option R
  pub stat : Option S

-- A status goes before packets.
unfoldable pub event_of : {S R : Type 0} → UpPack S R → Option (GatewayEventType S R)
event_of up = elim up.stat [
  | some stat ↦ some (status stat)
  | none ↦ elim up.rxpk [ some rxpk ↦ some (push_data rxpk) | none ↦ none ]
]

pub record GatewayUpData (S R : Type 0) : Type 0 where
  pub eui : ℕ
  pub version : ℕ
  pub token : ℕ
  pub event : GatewayEventType S R

module _ {S R : Type 0} (from_slice : List ℕ → Option (UpPack S R)) where
  unfoldable pub split_push_and_state : List ℕ → Option (GatewayEventType S R)
  split_push_and_state s = elim (from_slice s) [ some up ↦ event_of up | none ↦ none ]

  unfoldable pub decode_event : List ℕ → ℕ → Outcome PacketError (GatewayEventType S R)
  decode_event s kind =
      if kind == 0
      then (slice_from s 12 >>= λ payload. ok_or (split_push_and_state payload) invalid_payload)
      else if kind == 2
      then ok pull
      else if kind == 5
      then ok tx_ack
      else err invalid_event

  -- `UdpForward::decode`, but for the time and the address.
  unfoldable pub decode_packet : List ℕ → Outcome PacketError (GatewayUpData S R)
  decode_packet s = do
    ensure (not (ltb (length s) 12)) invalid
    version ← index s 0
    ensure (version == 2) invalid_version
    kind ← index s 3
    event ← decode_event s kind
    t ← slice s 1 3
    token ← ok_or (token_from_slice t) invalid_token
    e ← slice s 4 12
    eui ← ok_or (eui_from_be_bytes e) invalid_eui
    ok (record { eui = eui; version = version; token = token; event = event })

-- The bytes that `down`, `push_ack` and `pull_ack` send where the gateway has an address.
unfoldable pub down : ℕ → ℕ → List ℕ → List ℕ
down version token s = version ∷ (as_bytes_token token ++ (3 ∷ s))

unfoldable pub push_ack : ℕ → ℕ → List ℕ
push_ack version token = version ∷ (as_bytes_token token ++ (1 ∷ []))

unfoldable pub pull_ack : ℕ → ℕ → ℕ → List ℕ
pull_ack version token eui = version ∷ (as_bytes_token token ++ (4 ∷ eui_to_bytes eui))
