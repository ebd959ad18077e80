-- ===== src/Downlink/Tests.antt =====
-- The theorems on messages sent down, at concrete devices and caches.
use snapemu_workflow.Base.{ℕ, ◌≡◌, refl, arith, true, none, some, List, [], ◌∷◌, ◌++◌}
use snapemu_workflow.Base.Dict.{empty, insert as put, nat_eq}
use snapemu_workflow.Queue.{DownloadData, DownloadDataWrap, DownloadDataCache, insert, push_back}
use snapemu_workflow.Queue.History.{pop_call, insert_call, queue, run}
use snapemu_workflow.Queue.Invariant.{IsNumbered, run-IsNumbered}
use snapemu_workflow.Downlink.{
  NodeView, with_up_count, dispatch_task, repetition_task, get_time, time_slot,
}
use snapemu_workflow.Downlink.Timeline.{Request, Spaced, send_times, send_times-Spaced}
use snapemu_workflow.Downlink.Repetition.{dispatch_task_repeats_nothing}

abbrev requests : List Request
requests =
    record { now = 100; gateway = 1 }
    ∷ record { now = 150; gateway = 2 }
    ∷ record { now = 200; gateway = 1 }
    ∷ record { now = 9000000; gateway = 1 }
    ∷ []

three_slots : send_times 1 requests empty ≡ 100 ∷ 2000100 ∷ 9000000 ∷ []
unfolding get_time time_slot put
three_slots = refl

send_times-Spaced_example : Spaced (send_times 1 requests empty)
send_times-Spaced_example =
    send_times-Spaced 1 9000000 requests
      (omega arith, (omega arith, (omega arith, (omega arith, tt)))) (omega arith)

abbrev nothing_waits : DownloadDataCache
nothing_waits = record { counter = 0; waiting = empty }

abbrev message : ℕ → DownloadData
message n = record { port = 2; up_count = none; bytes = n ∷ []; id = 0 }

abbrev two_wait : DownloadDataCache
two_wait = run (insert_call 5 (message 1) ∷ insert_call 5 (message 2) ∷ []) nothing_waits

two_wait-IsNumbered : IsNumbered two_wait
two_wait-IsNumbered =
    run-IsNumbered (insert_call 5 (message 1) ∷ insert_call 5 (message 2) ∷ []) nothing_waits
      (omega arith) (record { ascending = λ eui. tt; below = λ eui. tt })

abbrev first : DownloadDataWrap
first = record { data_of = message 1; count = 0; down_id = 0 }

abbrev second : DownloadDataWrap
second = record { data_of = message 2; count = 0; down_id = 1 }

queue-two_wait : queue 5 two_wait ≡ first ∷ second ∷ []
unfolding insert put push_back
queue-two_wait = refl

abbrev class_c_node : NodeView
class_c_node = record { dev_eui = 5; class_c = true; gateway = some 9; up_count = 44 }

dispatch_task_repeats_nothing_example :
    (dispatch_task class_c_node true (message 3) two_wait ≡ (
      some (9, two_wait.counter),
      (insert 5 (with_up_count class_c_node (message 3)) two_wait).1,
    ))
    × (queue 5 (insert 5 (with_up_count class_c_node (message 3)) two_wait).1
        ≡ queue 5 two_wait
          ++ (record {
            data_of = with_up_count class_c_node (message 3);
            count = 0;
            down_id = two_wait.counter;
          }
              ∷ []))
    × ((repetition_task
          (λ i. pop_call 5 ∷ [])
          (λ i. true)
          9
          two_wait.counter
          (insert 5 (with_up_count class_c_node (message 3)) two_wait).1).sends
        ≡ 0)
    × (queue 5
          (repetition_task
            (λ i. pop_call 5 ∷ [])
            (λ i. true)
            9
            two_wait.counter
            (insert 5 (with_up_count class_c_node (message 3)) two_wait).1).cache
        ≡ queue 5
            (run (pop_call 5 ∷ []) (insert 5 (with_up_count class_c_node (message 3)) two_wait).1))
unfolding insert
dispatch_task_repeats_nothing_example =
    dispatch_task_repeats_nothing class_c_node (message 3) two_wait 9 (λ i. pop_call 5 ∷ [])
      (λ i. true) refl refl (ground arith) two_wait-IsNumbered (omega arith)
