-- ===== src/Queue/Tests.antt =====
-- The theorems on waiting messages at a concrete cache.
use snapemu_workflow.Base.{ℕ, ◌≡◌, some, List, [], ◌∷◌, ◌++◌}
use snapemu_workflow.Base.Dict.{empty}
use snapemu_workflow.Queue.{DownloadData, DownloadDataCache}
use snapemu_workflow.Queue.History.{
  Call, insert_call, pop_call, commit_call, run, queue, messages, all_removed, fifo,
}
use snapemu_workflow.Queue.Invariant.{IsNumbered}

abbrev nothing_waits : DownloadDataCache
nothing_waits = record { counter = 0; waiting = empty }

nothing_waits-IsNumbered : IsNumbered nothing_waits
nothing_waits-IsNumbered = record { ascending = λ eui. tt; below = λ eui. tt }

abbrev message : ℕ → DownloadData
message n = record { port = 2; up_count = some 7; bytes = n ∷ []; id = 0 }

abbrev calls : List Call
calls =
    insert_call 5 (message 1)
    ∷ insert_call 6 (message 2)
    ∷ insert_call 5 (message 3)
    ∷ pop_call 5
    ∷ commit_call 6
    ∷ []

fifo_example :
    all_removed 5 calls nothing_waits ++ messages (queue 5 (run calls nothing_waits))
    ≡ message 1 ∷ message 3 ∷ []
fifo_example = fifo 5 calls nothing_waits
