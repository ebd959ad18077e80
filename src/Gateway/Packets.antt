-- ===== src/Gateway/Packets.antt =====
-- Which packets of a gateway are read, and the answers to them.
use snapemu_workflow.Base.{
  ℕ, ◌≡◌, ◌≢◌, refl, ap, ◌∙◌, false, Option, List, [], ◌∷◌, ◌++◌, length, arith, ltb, ok, err,
  ◌>>=◌, ok_or, index, slice_from_le, slice_lt, All,
}
use snapemu_workflow.Base.Bytes.{IsByte, from_le_bytes, from_be_bytes, to_le_bytes-from_le_bytes}
use snapemu_workflow.Ids.{eui_from_be_bytes, eui_to_bytes}
use mathlib.Core.Path.{ap₂}
use snapemu_workflow.Gateway.{
  PacketError, invalid_event, invalid_payload, token_from_slice, as_bytes_token, GatewayEventType,
  pull, tx_ack, GatewayUpData, UpPack, split_push_and_state, decode_event, decode_packet, push_ack,
  pull_ack,
}

-- A gateway's packet: its version, token, kind and EUI, and what follows.
abbrev pub packet : ℕ → ℕ → ℕ → ℕ → ℕ → ℕ → ℕ → ℕ → ℕ → ℕ → ℕ → ℕ → List ℕ → List ℕ
packet version t0 t1 kind e1 e2 e3 e4 e5 e6 e7 e8 rest =
    version ∷ t0 ∷ t1 ∷ kind ∷ e1 ∷ e2 ∷ e3 ∷ e4 ∷ e5 ∷ e6 ∷ e7 ∷ e8 ∷ rest

module _ {S R : Type 0} (from_slice : List ℕ → Option (UpPack S R))
    (t0 t1 e1 e2 e3 e4 e5 e6 e7 e8 : ℕ) (rest : List ℕ) where
  whole_packet :
      (kind : ℕ)
      → decode_packet from_slice (packet 2 t0 t1 kind e1 e2 e3 e4 e5 e6 e7 e8 rest) ≡ (
          decode_event from_slice (packet 2 t0 t1 kind e1 e2 e3 e4 e5 e6 e7 e8 rest) kind
          >>= λ event. ok (record {
            eui = from_be_bytes (e1 ∷ e2 ∷ e3 ∷ e4 ∷ e5 ∷ e6 ∷ e7 ∷ e8 ∷ []);
            version = 2;
            token = from_le_bytes (t0 ∷ t1 ∷ []);
            event = event;
          }))
  unfolding decode_packet index token_from_slice eui_from_be_bytes
  whole_packet kind =
      let p : List ℕ = packet 2 t0 t1 kind e1 e2 e3 e4 e5 e6 e7 e8 rest in
      let s = slice_lt {E = PacketError} p 1 3 (omega arith) (omega arith) in
      let e = slice_lt {E = PacketError} p 4 12 (omega arith) (omega arith) in
      let long : ltb (length p) 12 ≡ false = ground arith in rw long (rw (s, e) refl)

  abbrev up_data : GatewayEventType S R → GatewayUpData S R
  up_data event = record {
    eui = from_be_bytes (e1 ∷ e2 ∷ e3 ∷ e4 ∷ e5 ∷ e6 ∷ e7 ∷ e8 ∷ []);
    version = 2;
    token = from_le_bytes (t0 ∷ t1 ∷ []);
    event = event;
  }

  -- A packet of version 2 with all of its header: with kind 2 it is a pull and with kind 5 an
  -- acknowledgement, with kind 0 it is what the reader of JSON makes of the bytes behind the header, and
  -- is refused where that makes nothing, and with any other kind it is refused. The EUI is the header's
  -- in big-endian order and the token in little-endian order.
  pub decode_packet-packet :
      (decode_packet from_slice (packet 2 t0 t1 2 e1 e2 e3 e4 e5 e6 e7 e8 rest) ≡ ok (up_data pull))
      × (decode_packet from_slice (packet 2 t0 t1 5 e1 e2 e3 e4 e5 e6 e7 e8 rest)
          ≡ ok (up_data tx_ack))
      × (decode_packet from_slice (packet 2 t0 t1 0 e1 e2 e3 e4 e5 e6 e7 e8 rest) ≡ (
          ok_or (split_push_and_state from_slice rest) invalid_payload >>= λ event.
          ok (up_data event)))
      × ((kind : ℕ)
          → kind ≢ 0
          → kind ≢ 2
          → kind ≢ 5
          → decode_packet from_slice (packet 2 t0 t1 kind e1 e2 e3 e4 e5 e6 e7 e8 rest)
            ≡ err invalid_event)
  unfolding decode_event
  decode_packet-packet = (
    whole_packet 2 ∙ refl,
    whole_packet 5 ∙ refl,
    whole_packet 0
        ∙ ap
            (λ r.
              (r >>= λ payload. ok_or (split_push_and_state from_slice payload) invalid_payload)
              >>= λ event. ok (up_data event))
            (slice_from_le {E = PacketError} (packet 2 t0 t1 0 e1 e2 e3 e4 e5 e6 e7 e8 rest) 12
              (omega arith)),
    λ kind a b c.
        whole_packet kind
        ∙ ap (λ r. r >>= λ event. ok (up_data event))
            (other_kind kind (packet 2 t0 t1 kind e1 e2 e3 e4 e5 e6 e7 e8 rest) a b c),
  )
    where
      other_kind :
          (kind : ℕ) (s : List ℕ)
          → kind ≢ 0
          → kind ≢ 2
          → kind ≢ 5
          → decode_event from_slice s kind ≡ err invalid_event
      other_kind kind s a b c = ground (arith, a, b, c)

-- The answers to a packet whose header is bytes: a push is acknowledged with the packet's version and
-- token, and so is a pull, with the packet's EUI behind them in the opposite order.
pub acks_echo :
    {S R : Type 0} (from_slice : List ℕ → Option (UpPack S R)) (t0 t1 e1 e2 e3 e4 e5 e6 e7 e8 : ℕ)
    (rest : List ℕ) (up : GatewayUpData S R)
    → All IsByte (t0 ∷ t1 ∷ [])
    → All IsByte (e8 ∷ e7 ∷ e6 ∷ e5 ∷ e4 ∷ e3 ∷ e2 ∷ e1 ∷ [])
    → decode_packet from_slice (packet 2 t0 t1 2 e1 e2 e3 e4 e5 e6 e7 e8 rest) ≡ ok up
    → (push_ack up.version up.token ≡ 2 ∷ t0 ∷ t1 ∷ 1 ∷ [])
      × (pull_ack up.version up.token up.eui
          ≡ 2 ∷ t0 ∷ t1 ∷ 4 ∷ e8 ∷ e7 ∷ e6 ∷ e5 ∷ e4 ∷ e3 ∷ e2 ∷ e1 ∷ [])
unfolding push_ack pull_ack as_bytes_token eui_to_bytes from_be_bytes
acks_echo from_slice t0 t1 e1 e2 e3 e4 e5 e6 e7 e8 rest up ht he e =
    let read = (decode_packet-packet from_slice t0 t1 e1 e2 e3 e4 e5 e6 e7 e8 rest).0 in
    let is_up : up_data from_slice t0 t1 e1 e2 e3 e4 e5 e6 e7 e8 rest pull ≡ up = cc in
    let token = to_le_bytes-from_le_bytes (t0 ∷ t1 ∷ []) ht in
    let eui = to_le_bytes-from_le_bytes (e8 ∷ e7 ∷ e6 ∷ e5 ∷ e4 ∷ e3 ∷ e2 ∷ e1 ∷ []) he in
    rw (← is_up) (ap (λ t. 2 ∷ (t ++ (1 ∷ []))) token, ap₂ (λ t x. 2 ∷ (t ++ (4 ∷ x))) token eui)
