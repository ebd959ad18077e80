-- ===== src/Downlink/Repetition.antt =====
-- The repetitions of a message that was sent down.
use snapemu_workflow.Base.{
  ℕ, suc, zero, ◌+◌, ◌^◌, ◌<◌, ◌≤◌, ◌≡◌, ◌≢◌, refl, sym, ap, ◌∙◌, Bool, true, false, Option, none,
  some, List, [], ◌∷◌, ◌++◌, length, arith, ◌==◌,
}
use snapemu_workflow.Queue.{
  DownloadData, DownloadDataWrap, DownloadDataCache, insert, pop, commit, front, is_down_id,
  repetition_task as is_next,
}
use snapemu_workflow.Queue.History.{
  Call, pop_call, contents, queue-pop, queue, run, tail_of, queue-insert_self, queue-commit,
  queue-commit_ne,
}
use snapemu_workflow.Queue.Invariant.{IsNumbered, Ascending, counter-insert}
use snapemu_workflow.Queue.Front.{pop_head}
use snapemu_workflow.Queue.Absent.{run-Without, insert-Without, not_at_front}
use snapemu_workflow.Downlink.{
  repetition_loop, repetition_task, NodeView, with_up_count, dispatch_task, dispatch_to,
}

module _ (env : ℕ → List Call) (send : ℕ → Bool) (device_eui counter : ℕ) where
  loop_sends_le :
      (left repetition : ℕ) (c : DownloadDataCache)
      → (repetition_loop env send device_eui counter left repetition c).sends ≤ repetition + left
  unfolding repetition_loop
  loop_sends_le zero repetition c = omega arith
  loop_sends_le (suc left) repetition c =
      ground (arith, loop_sends_le left (suc repetition) (run (env repetition) c))

  -- A message is repeated ten times at most.
  pub sends_le :
      (c : DownloadDataCache) → (repetition_task env send device_eui counter c).sends ≤ 10
  unfolding repetition_task
  sends_le c = ground (arith, loop_sends_le 10 0 c)

  loop_not_next :
      (left repetition : ℕ) (c : DownloadDataCache)
      → is_next device_eui counter (run (env repetition) c) ≡ false
      → repetition_loop env send device_eui counter (suc left) repetition c
        ≡ record { sends = repetition; ended = true; cache = run (env repetition) c }
  unfolding repetition_loop
  loop_not_next left repetition c h = rw h refl

  -- If the message does not stand first when the first sleep ends, it is not repeated, and what does
  -- stand first is dropped.
  pub not_next :
      (c : DownloadDataCache)
      → is_next device_eui counter (run (env 0) c) ≡ false
      → repetition_task env send device_eui counter c
        ≡ record { sends = 0; ended = true; cache = commit device_eui (run (env 0) c) }
  unfolding repetition_task
  not_next c h = rw (loop_not_next 9 0 c h) refl

insert_id : (e : ℕ) (d : DownloadData) (c : DownloadDataCache) → (insert e d c).0 ≡ c.counter
unfolding insert
insert_id e d c = refl

==_refl : (n : ℕ) → (n == n) ≡ true
==_refl n = ground arith

-- A task that is dispatched to a device whose gateway has another EUI is never repeated, whatever the
-- other tasks do, and its repetition task leaves the device's queue as the other tasks left it.
pub dispatch_task_repeats_nothing :
    (node : NodeView) (task : DownloadData) (c : DownloadDataCache) (gateway_eui : ℕ)
    (env : ℕ → List Call) (send : ℕ → Bool)
    → node.class_c ≡ true
    → node.gateway ≡ some gateway_eui
    → node.dev_eui ≢ gateway_eui
    → IsNumbered c
    → suc c.counter + length (env 0) < 2 ^ 64
    → (dispatch_task node true task c
        ≡ (some (gateway_eui, c.counter), (insert node.dev_eui (with_up_count node task) c).1))
      × (queue node.dev_eui (insert node.dev_eui (with_up_count node task) c).1
          ≡ queue node.dev_eui c
            ++ (record { data_of = with_up_count node task; count = 0; down_id = c.counter } ∷ []))
      × ((repetition_task env send gateway_eui c.counter
            (insert node.dev_eui (with_up_count node task) c).1).sends
          ≡ 0)
      × (queue node.dev_eui
            (repetition_task env send gateway_eui c.counter
              (insert node.dev_eui (with_up_count node task) c).1).cache
          ≡ queue node.dev_eui (run (env 0) (insert node.dev_eui (with_up_count node task) c).1))
unfolding dispatch_task dispatch_to
dispatch_task_repeats_nothing node task c gateway_eui env send cls gw other good room =
    let task' : DownloadData = with_up_count node task in
    let c' : DownloadDataCache = (insert node.dev_eui task' c).1 in
    let step = counter-insert node.dev_eui task' c (omega arith) in
    let absent = insert-Without node.dev_eui gateway_eui task' c good other in
    let later =
      run-Without c.counter gateway_eui (env 0) c' (omega (arith, step)) (omega (arith, step))
        absent in
    let front_other = not_at_front c.counter gateway_eui (run (env 0) c') later.0 in
    let whole = not_next env send gateway_eui c.counter c' front_other in
    (
      rw (cls, gw) (ap (λ k. (some (gateway_eui, k), c')) (insert_id node.dev_eui task' c)),
      queue-insert_self node.dev_eui task' c,
      ap (λ r. r.sends) whole,
      ap (λ r. queue node.dev_eui r.cache) whole
          ∙ queue-commit_ne gateway_eui node.dev_eui (run (env 0) c') (λ e. other (sym e)),
    )

-- The message at the front of a queue is the next one, by its id and by no other.
next_is :
    (eui k : ℕ) (c : DownloadDataCache) (w : DownloadDataWrap) (v : List DownloadDataWrap)
    → queue eui c ≡ w ∷ v
    → is_next eui k c ≡ (w.down_id == k)
unfolding is_next
next_is eui k c w v e = go (c.waiting eui) e
  where
    go :
        (o : Option (List DownloadDataWrap))
        → contents o ≡ w ∷ v
        → is_down_id k (front o) ≡ (w.down_id == k)
    go none q = absurd cc
    go (some []) q = absurd cc
    go (some (x ∷ u)) q = ap (λ l. is_down_id k (front (some l))) q

loop_unanswered :
    (eui : ℕ) (left repetition : ℕ) (c : DownloadDataCache) (w : DownloadDataWrap)
    (v : List DownloadDataWrap)
    → queue eui c ≡ w ∷ v
    → repetition_loop (λ i. []) (λ i. true) eui w.down_id left repetition c
      ≡ record { sends = repetition + left; ended = true; cache = c }
unfolding repetition_loop
loop_unanswered eui zero repetition c w v e =
    ap (λ n. record { sends = n; ended = true; cache = c }) (omega arith)
loop_unanswered eui (suc left) repetition c w v e =
    rw (next_is eui w.down_id c w v e, ==_refl w.down_id)
      (loop_unanswered eui left (suc repetition) c w v e
        ∙ ap (λ n. record { sends = n; ended = true; cache = c }) (omega arith))

-- A message that stays at the front of its device's queue, which no other task changes, is repeated
-- ten times if every send works, and then it leaves the queue.
pub unanswered :
    (eui : ℕ) (c : DownloadDataCache) (w : DownloadDataWrap) (v : List DownloadDataWrap)
    → queue eui c ≡ w ∷ v
    → ((repetition_task (λ i. []) (λ i. true) eui w.down_id c).sends ≡ 10)
      × (queue eui (repetition_task (λ i. []) (λ i. true) eui w.down_id c).cache ≡ v)
unfolding repetition_task
unanswered eui c w v e =
    rw (loop_unanswered eui 10 0 c w v e) (refl, queue-commit eui c ∙ ap tail_of e)

-- A message that its device takes during the first sleep is not repeated; the message that waited
-- behind it leaves the queue too, unsent.
pub taken_drops_next :
    (eui : ℕ) (env : ℕ → List Call) (send : ℕ → Bool) (c : DownloadDataCache)
    (w x : DownloadDataWrap) (v : List DownloadDataWrap)
    → IsNumbered c
    → queue eui c ≡ w ∷ x ∷ v
    → env 0 ≡ pop_call eui ∷ []
    → ((pop eui c).0 ≡ some w.data_of)
      × ((repetition_task env send eui w.down_id c).sends ≡ 0)
      × (queue eui (repetition_task env send eui w.down_id c).cache ≡ v)
taken_drops_next eui env send c w x v good e p =
    let popped : queue eui (run (env 0) c) ≡ x ∷ v = rw p ((queue-pop eui c).0 ∙ ap tail_of e) in
    let ids : Ascending (w ∷ x ∷ v) = rw e at (good.ascending eui) in
    let later : is_next eui w.down_id (run (env 0) c) ≡ false =
      next_is eui w.down_id (run (env 0) c) x v popped ∙ ground (arith, ids.0.0) in
    let whole = not_next env send eui w.down_id c later in
    (
      pop_head eui c w (x ∷ v) e,
      ap (λ r. r.sends) whole,
      ap (λ r. queue eui r.cache) whole ∙ queue-commit eui (run (env 0) c) ∙ ap tail_of popped,
    )
