-- ===== src/Node.antt =====
-- What a LoRa node sends up (devices_manager/src/service/lorawan_node.rs): the caches that gather the
-- copies of a message from several gateways, and the counter of a node's messages.
pub mod Cache
pub mod Counter
pub mod Activation
mod Tests
use snapemu_workflow.Base.{
  ℕ, ◌+◌, ◌-◌, ◌%◌, ◌^◌, Bool, true, false, not, ◌&&◌, ◌||◌, Option, none, some, ltb, ◌==◌,
  if◌then◌else◌, Outcome, ok, err,
}
use snapemu_workflow.Base.Int.{ℤ, ltb_ℤ}
use snapemu_workflow.Base.Dict.{Eq, HashMap, nat_eq, insert as put, remove}

-- A first value is kept; a later one takes its place if it is better. The answer is whether it was the
-- first.
unfoldable pub keep : {V : Type 0} → (V → V → Bool) → V → Option V → Bool × V
keep better v none = (true, v)
keep better v (some queue) = (false, if better v queue then v else queue)

-- What `DataCache` looks at in a message: its 16-bit counter and the signal strength. `rest` is the
-- remainder of it.
pub record DataItem (R : Type 0) : Type 0 where
  pub fcnt : ℕ
  pub rssi : ℤ
  pub rest : R

abbrev pub data_better : {R : Type 0} → DataItem R → DataItem R → Bool
data_better v queue = ltb queue.fcnt v.fcnt || ((queue.fcnt == v.fcnt) && ltb_ℤ queue.rssi v.rssi)

-- `DataCache::insert`, without the removal that it schedules; that is a later `data_get`.
unfoldable pub data_insert :
    {R : Type 0} → ℕ → DataItem R → HashMap ℕ (DataItem R) → Bool × HashMap ℕ (DataItem R)
data_insert addr item m =
    let (first, kept) = keep data_better item (m addr) in (first, put addr kept m)

unfoldable pub data_get :
    {R : Type 0} → ℕ → HashMap ℕ (DataItem R) → Option (DataItem R) × HashMap ℕ (DataItem R)
data_get addr m = (m addr, remove addr m)

-- What `RequestCache` looks at in a join request.
pub record JoinItem (R : Type 0) : Type 0 where
  pub rssi : ℤ
  pub rest : R

abbrev pub join_better : {R : Type 0} → JoinItem R → JoinItem R → Bool
join_better v queue = ltb_ℤ queue.rssi v.rssi

-- `RequestCache`, whose keys `K` are the texts of the two EUIs.
unfoldable pub request_insert :
    {K R : Type 0} ⦃e : Eq K⦄
    → K
    → JoinItem R
    → HashMap K (JoinItem R)
    → Bool × HashMap K (JoinItem R)
request_insert key item m =
    let (first, kept) = keep join_better item (m key) in (first, put key kept m)

unfoldable pub request_get :
    {K R : Type 0} ⦃e : Eq K⦄
    → K
    → HashMap K (JoinItem R)
    → Option (JoinItem R) × HashMap K (JoinItem R)
request_get key m = (m key, remove key m)

-- The counters of a node: those of the `NodeInfo` in hand and those that redis stores.
pub record Counters : Type 0 where
  pub up_count : ℕ
  pub down_count : ℕ
  pub stored_up : ℕ
  pub stored_down : ℕ

pub data MicError : Type 0 where
  mic_error : MicError

unfoldable pub update_up_count : ℕ → Counters → Counters
update_up_count n s = record s { stored_up = n }

unfoldable pub reset_down_count : Counters → Counters
reset_down_count s = record s { down_count = 0; stored_down = 0 }

-- `current_up_count.wrapping_sub(pre_count)`
unfoldable pub up_count_diff : ℕ → ℕ → ℕ
up_count_diff up_count current = (current + 2 ^ 16 - up_count % 2 ^ 16) % 2 ^ 16

-- The 32-bit counter that is tried for a message that carries `current`.
unfoldable pub new_up_count : ℕ → ℕ → ℕ
new_up_count up_count current =
    let diff = up_count_diff up_count current in
    if ltb diff (2 ^ 15)
    then (up_count + diff) % 2 ^ 32
    else ((up_count + 2 ^ 16) % 2 ^ 32 + diff) % 2 ^ 32

-- `payload_decode`; `decrypt_mic` is that of the message and the node's keys, by the counter.
module _ {D : Type 0} (decrypt_mic : ℕ → Option D) where
  unfoldable pub decode_reset : ℕ → Counters → Option D → Outcome MicError (D × Counters)
  decode_reset current s (some o) = ok (o, reset_down_count (update_up_count current s))
  decode_reset current s none = err mic_error

  unfoldable pub decode_counted : ℕ → Counters → Option D → Outcome MicError (D × Counters)
  decode_counted current s (some o) = ok (o, update_up_count (new_up_count s.up_count current) s)
  decode_counted current s none = decode_reset current s (decrypt_mic current)

  unfoldable pub payload_decode : ℕ → Counters → Outcome MicError (D × Counters)
  payload_decode current s =
      decode_counted current s (decrypt_mic (new_up_count s.up_count current))

-- The test of `decode_node_payload` that a message came before.
unfoldable pub is_repetition : ℕ → ℕ → Bool
is_repetition node_up_count up_count =
    let up_count_pre = node_up_count % 2 ^ 16 in
    (up_count_pre == up_count) && not ((up_count == 0) || (up_count_pre == 1))
