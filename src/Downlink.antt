-- ===== src/Downlink.antt =====
-- How a message is sent down to a device (devices_manager/src/man/lora.rs): the timetable of a gateway,
-- the dispatch of a task, its repetitions, and the task of a device that sent something up.
pub mod Timeline
pub mod Repetition
pub mod Pull
mod Tests
use snapemu_workflow.Base.{
  ℕ, suc, zero, ◌+◌, ◌-◌, ◌%◌, ◌^◌, Bool, true, false, Option, none, some, List, ltb, if◌then◌else◌,
}
use snapemu_workflow.Base.Dict.{HashMap, nat_eq, insert as put}
use snapemu_workflow.Queue.{
  DownloadData, DownloadDataCache, insert, pop, commit, is_some, repetition_task as is_next,
}
use snapemu_workflow.Queue.History.{Call, run}

abbrev pub time_duration : ℕ
time_duration = 2000000

-- The two arms of `get_time`: the wait and the stored time. Times are microseconds in a u64.
unfoldable pub time_slot : ℕ → Option ℕ → ℕ × ℕ
time_slot now none = (0, (now + time_duration) % 2 ^ 64)
time_slot now (some pre) =
    if ltb pre now
    then (0, (now + time_duration) % 2 ^ 64)
    else (pre - now, (pre + time_duration) % 2 ^ 64)

-- `GatewayTimeline::get_time` at the time `now`.
unfoldable pub get_time : ℕ → ℕ → HashMap ℕ ℕ → ℕ × HashMap ℕ ℕ
get_time now gateway g = let (wait, next) = time_slot now (g gateway) in (wait, put gateway next g)

-- What `repetition_task` has done: its sends, whether it ran to its end, and the cache.
pub record Repeated : Type 0 where
  pub sends : ℕ
  pub ended : Bool
  pub cache : DownloadDataCache

-- The loop of `repetition_task`, of which `left` rounds are left. `env i` are the calls of other tasks
-- during the sleep of round `i` and before it, and `send i` says whether the message of that round
-- could be built and sent.
module _ (env : ℕ → List Call) (send : ℕ → Bool) (device_eui counter : ℕ) where
  unfoldable pub repetition_loop : ℕ → ℕ → DownloadDataCache → Repeated
  repetition_loop zero repetition c = record {
    sends = repetition;
    ended = true;
    cache = run (env repetition) c;
  }
  repetition_loop (suc left) repetition c =
      let slept = run (env repetition) c in
      let rest = repetition_loop left (suc repetition) slept in
      if is_next device_eui counter slept
      then (if send repetition
          then rest
          else record { sends = repetition; ended = false; cache = slept })
      else record { sends = repetition; ended = true; cache = slept }

  -- Ten rounds at most, and then `commit`; an error returns before it.
  unfoldable pub repetition_task : DownloadDataCache → Repeated
  repetition_task c =
      let done = repetition_loop 10 0 c in
      if done.ended then record done { cache = commit device_eui done.cache } else done

-- What `dispatch_task` reads of `NodeInfo`.
pub record NodeView : Type 0 where
  pub dev_eui : ℕ
  pub class_c : Bool
  pub gateway : Option ℕ
  pub up_count : ℕ

abbrev pub with_up_count : NodeView → DownloadData → DownloadData
with_up_count node task = record task { up_count = some node.up_count }

-- The arguments of the `repetition_task` that is spawned, its EUI and its counter.
abbrev pub Spawned : Type 0
Spawned = Option (ℕ × ℕ)

-- `LoRaNode::dispatch_task`; `ready` says whether the gateway was found and the message built.
unfoldable pub dispatch_to :
    NodeView → Option ℕ → DownloadData → DownloadDataCache → Spawned × DownloadDataCache
dispatch_to node (some gateway_eui) task c =
    let (counter, c') = insert node.dev_eui (with_up_count node task) c in
    (some (gateway_eui, counter), c')
dispatch_to node none task c = (none, c)

unfoldable pub dispatch_task :
    NodeView → Bool → DownloadData → DownloadDataCache → Spawned × DownloadDataCache
dispatch_task node ready task c =
    if node.class_c
    then (if ready then dispatch_to node node.gateway task c else (none, c))
    else (none, c)

-- How `dispatch_task_now` ends.
pub data Dispatched : Type 0 where
  sent_now queued not_sent : Dispatched

-- `LoRaNode::dispatch_task_now`: a task that cannot go out at once waits for the device.
unfoldable pub dispatch_now_to :
    NodeView → Option ℕ → Bool → DownloadData → DownloadDataCache → Dispatched × DownloadDataCache
dispatch_now_to node (some gateway_eui) ready task c =
    if ready then (sent_now, c) else (not_sent, c)
dispatch_now_to node none ready task c =
    (queued, (insert node.dev_eui (with_up_count node task) c).1)

unfoldable pub dispatch_task_now :
    NodeView → Bool → DownloadData → DownloadDataCache → Dispatched × DownloadDataCache
dispatch_task_now node ready task c =
    if node.class_c
    then dispatch_now_to node node.gateway ready task c
    else (queued, (insert node.dev_eui (with_up_count node task) c).1)

-- What `pull_task` sends to a device that sent something up.
pub data Reply : Type 0 where
  with_task : DownloadData → Reply
  ack no_reply : Reply

unfoldable pub reply_of : Option DownloadData → Bool → Reply
reply_of (some task) confirm = if is_some task.up_count then with_task task else no_reply
reply_of none confirm = if confirm then ack else no_reply

unfoldable pub pull_task : ℕ → Bool → DownloadDataCache → Reply × DownloadDataCache
pull_task eui confirm c = let (task, c') = pop eui c in (reply_of task confirm, c')
