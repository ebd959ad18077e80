-- ===== src/Queue.antt =====
-- The messages that wait for their device (`DownloadDataCache` and `DownloadResponse` of
-- devices_manager/src/man/data.rs). The static COUNTER is a field of the cache, since nothing else uses
-- it. A call is one step: `insert` takes its id before it takes the lock, so two overlapping insertions
-- could also enter a queue in the other order of their ids, which is left out here.
pub mod History
pub mod Front
pub mod Invariant
pub mod Absent
mod Tests
use snapemu_workflow.Base.{
  ℕ, ◌+◌, ◌%◌, ◌^◌, Bool, true, false, Option, none, some, List, [], ◌∷◌, ◌++◌, ◌==◌, if◌then◌else◌,
}
use snapemu_workflow.Base.Dict.{HashMap, nat_eq, insert as put, remove}

pub record DownloadData : Type 0 where
  pub port : ℕ
  pub up_count : Option ℕ
  pub bytes : List ℕ
  pub id : ℕ

unfoldable pub new_io : List ℕ → DownloadData
new_io command = record { port = 3; up_count = none; bytes = command; id = 0 }

unfoldable pub new_data : List ℕ → DownloadData
new_data bytes = record { port = 2; up_count = none; bytes = bytes; id = 0 }

unfoldable pub new_data_with_id : List ℕ → ℕ → ℕ → DownloadData
new_data_with_id bytes id port = record { port = port; up_count = none; bytes = bytes; id = id }

pub record DownloadDataWrap : Type 0 where
  pub data_of : DownloadData
  pub count : ℕ
  pub down_id : ℕ

pub record DownloadDataCache : Type 0 where
  pub counter : ℕ
  pub waiting : HashMap ℕ (List DownloadDataWrap)

-- The queue with a message at its end: pushed, or in a new queue.
unfoldable pub push_back : Option (List DownloadDataWrap) → DownloadDataWrap → List DownloadDataWrap
push_back (some d) w = d ++ (w ∷ [])
push_back none w = w ∷ []

unfoldable pub insert : ℕ → DownloadData → DownloadDataCache → ℕ × DownloadDataCache
insert eui message c =
    let wrap : DownloadDataWrap = record { data_of = message; count = 0; down_id = c.counter } in
    (
      c.counter,
      record {
        counter = (c.counter + 1) % 2 ^ 64;
        waiting = put eui (push_back (c.waiting eui) wrap) c.waiting;
      },
    )

abbrev pub is_some : {A : Type 0} → Option A → Bool
is_some (some a) = true
is_some none = false

abbrev pub front : Option (List DownloadDataWrap) → Option DownloadDataWrap
front (some (w ∷ v)) = some w
front _ = none

-- `false` where the queue is empty.
abbrev pub is_down_id : ℕ → Option DownloadDataWrap → Bool
is_down_id counter (some f) = f.down_id == counter
is_down_id counter none = false

unfoldable pub repetition_task : ℕ → ℕ → DownloadDataCache → Bool
repetition_task eui counter c = is_down_id counter (front (c.waiting eui))

unfoldable pub has : ℕ → DownloadDataCache → Bool
has eui c = is_some (front (c.waiting eui))

-- `get_mut` and `pop_front`, on what the map holds: an emptied queue stays in the map.
unfoldable pub pop_from :
    ℕ
    → DownloadDataCache
    → Option (List DownloadDataWrap)
    → Option DownloadDataWrap × DownloadDataCache
pop_from eui c (some (w ∷ v)) = (some w, record c { waiting = put eui v c.waiting })
pop_from eui c (some []) = (none, c)
pop_from eui c none = (none, c)

abbrev pub message_of : Option DownloadDataWrap → Option DownloadData
message_of (some e) = some e.data_of
message_of none = none

unfoldable pub pop : ℕ → DownloadDataCache → Option DownloadData × DownloadDataCache
pop eui c = let (w, c') = pop_from eui c (c.waiting eui) in (message_of w, c')

unfoldable pub commit : ℕ → DownloadDataCache → DownloadDataCache
commit eui c = (pop_from eui c (c.waiting eui)).1

-- `DownloadResponse`: the senders of one-shot channels that wait for the answer of a device.
unfoldable pub has_response : {S : Type 0} → ℕ → HashMap ℕ S → Bool
has_response eui d = is_some (d eui)

unfoldable pub get_response : {S : Type 0} → ℕ → HashMap ℕ S → Option S × HashMap ℕ S
get_response eui d = (d eui, remove eui d)

-- `add` with the sender of the channel that it makes; the answer says whether it was put.
unfoldable pub add_response : {S : Type 0} → ℕ → S → HashMap ℕ S → Bool × HashMap ℕ S
add_response eui tx d = if has_response eui d then (false, d) else (true, put eui tx d)
