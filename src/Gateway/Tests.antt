-- ===== src/Gateway/Tests.antt =====
-- The theorems on gateways' packets at concrete ones.
use snapemu_workflow.Base.{ℕ, ◌≡◌, ◌≢◌, Option, none, some, List, [], ◌∷◌, ok, err, ◌>>=◌, ok_or}
use snapemu_workflow.Base.Bytes.{from_be_bytes, from_le_bytes}
use snapemu_workflow.Gateway.{
  UpPack, GatewayUpData, GatewayEventType, pull, tx_ack, decode_packet, split_push_and_state,
  invalid_event, invalid_payload,
}
use snapemu_workflow.Gateway.Packets.{packet, decode_packet-packet}

-- Any byte stands for received packets, and no byte for nothing.
abbrev reader : List ℕ → Option (UpPack ℕ (List ℕ))
reader [] = none
reader (b ∷ bs) = some (record { rxpk = some (b ∷ bs); stat = none })

abbrev read_as : GatewayEventType ℕ (List ℕ) → GatewayUpData ℕ (List ℕ)
read_as event = record {
  eui = from_be_bytes (1 ∷ 2 ∷ 3 ∷ 4 ∷ 5 ∷ 6 ∷ 7 ∷ 8 ∷ []);
  version = 2;
  token = from_le_bytes (77 ∷ 88 ∷ []);
  event = event;
}

decode_packet-packet_example :
    (decode_packet reader (packet 2 77 88 2 1 2 3 4 5 6 7 8 (9 ∷ [])) ≡ ok (read_as pull))
    × (decode_packet reader (packet 2 77 88 5 1 2 3 4 5 6 7 8 (9 ∷ [])) ≡ ok (read_as tx_ack))
    × (decode_packet reader (packet 2 77 88 0 1 2 3 4 5 6 7 8 (9 ∷ [])) ≡ (
        ok_or (split_push_and_state reader (9 ∷ [])) invalid_payload >>= λ event.
        ok (read_as event)))
    × ((kind : ℕ)
        → kind ≢ 0
        → kind ≢ 2
        → kind ≢ 5
        → decode_packet reader (packet 2 77 88 kind 1 2 3 4 5 6 7 8 (9 ∷ [])) ≡ err invalid_event)
decode_packet-packet_example = decode_packet-packet reader 77 88 1 2 3 4 5 6 7 8 (9 ∷ [])
