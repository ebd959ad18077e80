-- ===== src/Node/Tests.antt =====
-- The theorems on nodes at concrete messages.
use snapemu_workflow.Node.{is_repetition}
use snapemu_workflow.Node.Activation.{OtaaInfo, Session, empty_error, decode_enc_payload}
use snapemu_workflow.Node.Activation.Joined.{decode_enc_payload-joined, decode_enc_payload-lost}
use snapemu_workflow.Base.{
  ℕ, ◌^◌, ◌<◌, ◌≤◌, ◌≡◌, ◌≢◌, ◌⊎◌, refl, arith, true, false, Option, none, some, [], ◌∷◌, ◌==◌,
  if◌then◌else◌, ok, err,
}
use snapemu_workflow.Base.Int.{negsuc}
use snapemu_workflow.Base.Dict.{empty, nat_eq}
use snapemu_workflow.Node.{Counters, mic_error, payload_decode, DataItem, data_get}
use snapemu_workflow.Node.Counter.{InWindow, payload_decode-genuine}
use snapemu_workflow.Node.Cache.{Among, IsStrongest, data_inserts, data_get-IsBest}

-- A message whose MIC fits one counter only.
abbrev only_at : ℕ → ℕ → Option ℕ
only_at t x = if x == t then some 99 else none

only_at_other : (t x : ℕ) → x ≢ t → only_at t x ≡ none
only_at_other t x h = ground (arith, h)

abbrev counters : Counters
counters = record { up_count = 65530; down_count = 3; stored_up = 65530; stored_down = 3 }

payload_decode-genuine_example :
    (InWindow 65530 65541
      → payload_decode (only_at 65541) 5 counters ≡ ok (99, record counters { stored_up = 65541 }))
    × (¬ InWindow 65530 65541
        → 65541 < 2 ^ 16
        → payload_decode (only_at 65541) 5 counters
          ≡ ok (99, record counters { down_count = 0; stored_up = 65541; stored_down = 0 }))
    × (¬ InWindow 65530 65541
        → 2 ^ 16 ≤ 65541
        → payload_decode (only_at 65541) 5 counters ≡ err mic_error)
payload_decode-genuine_example =
    payload_decode-genuine (only_at 65541) 65541 99 counters (omega arith) (omega arith) refl
      (only_at_other 65541)

abbrev strong : DataItem ℕ
strong = record { fcnt = 8; rssi = negsuc 40; rest = 1 }

abbrev weak : DataItem ℕ
weak = record { fcnt = 8; rssi = negsuc 90; rest = 2 }

data_get-IsBest_example :
    (kept : DataItem ℕ) × ((data_inserts 5 (weak ∷ strong ∷ []) empty).0 ≡ true ∷ false ∷ [])
    × ((data_get 5 (data_inserts 5 (weak ∷ strong ∷ []) empty).1).0 ≡ some kept)
    × Among kept (weak ∷ strong ∷ [])
    × IsStrongest (weak ∷ strong ∷ []) kept
    × ((data_get 5 (data_get 5 (data_inserts 5 (weak ∷ strong ∷ []) empty).1).1).0 ≡ none)
data_get-IsBest_example = data_get-IsBest 5 weak (strong ∷ []) empty refl

abbrev join_info : OtaaInfo ℕ
join_info = record { keys = 9; dev_nonce = 1; app_nonce = 2; net_id = 3 }

-- A node whose join with the keys 9 waits; its old keys are 3.
abbrev joining : Session ℕ
joining = record {
  keys = 3;
  dev_non = 0;
  app_non = 0;
  net_id = 0;
  counters = record { up_count = 70; down_count = 5; stored_up = 70; stored_down = 5 };
  otaa = some join_info;
}

-- A message with the counter 1 under the keys 9, and one that fits nothing.
abbrev first_message : ℕ → ℕ → Option ℕ
first_message k x = if k == 9 then (if x == 1 then some 42 else none) else none

abbrev noise : ℕ → ℕ → Option ℕ
noise k x = none

only_one : (x : ℕ) → x ≢ 1 → first_message 9 x ≡ none
only_one x ne = ground arith

is_fresh : is_repetition 70 1 ≡ false
unfolding is_repetition
is_fresh = refl

decode_enc_payload-joined_example :
    (t : Session ℕ) × (decode_enc_payload first_message true 1 joining ≡ (ok (some 42), t))
    × (t.keys ≡ 9)
    × (t.otaa ≡ none)
    × (t.counters.stored_up ≡ 1)
    × ((t.counters.stored_down ≡ 1) ⊎ (t.counters.stored_down ≡ 0))
decode_enc_payload-joined_example =
    decode_enc_payload-joined first_message 1 join_info 42 joining (omega arith) refl refl only_one
      is_fresh

decode_enc_payload-lost_example :
    (decode_enc_payload noise true 0 joining ≡ (err empty_error, record joining { otaa = none }))
    × ((d : ℕ)
        → (decode_enc_payload first_message true 1 (record joining { otaa = none })).0
          ≢ ok (some d))
decode_enc_payload-lost_example =
    decode_enc_payload-lost first_message noise true 0 1 join_info joining (omega arith) refl refl
      (λ x. refl)
