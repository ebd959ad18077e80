-- ===== src/Queue/Absent.antt =====
-- Ids that a queue has not and will not have.
use snapemu_workflow.Base.{
  ℕ, ◌+◌, ◌^◌, ◌<◌, ◌≤◌, ◌≡◌, ◌≢◌, refl, false, Option, none, some, List, [], ◌∷◌, ◌++◌, length,
  All, arith,
}
use snapemu_workflow.Queue.{
  DownloadData, DownloadDataWrap, DownloadDataCache, insert, repetition_task, is_down_id, front,
}
use snapemu_workflow.Queue.History.{
  Call, insert_call, pop_call, commit_call, queue, contents, after, run, queue-insert_ne,
}
use snapemu_workflow.Queue.Invariant.{
  IsNumbered, Below, All-tail_of, queue_after-insert, queue_after-pop, queue_after-commit,
  counter-after,
}

-- An id that a queue has not, and that is not to come, does not appear in it.
abbrev pub Without : ℕ → List DownloadDataWrap → Type 0
Without k v = All (λ x. x.down_id ≢ k) v

Without-snoc :
    (k : ℕ) (v : List DownloadDataWrap) (w : DownloadDataWrap)
    → Without k v
    → w.down_id ≢ k
    → Without k (v ++ (w ∷ []))
Without-snoc k [] w b h = (h, tt)
Without-snoc k (x ∷ v) w (b, bs) h = (b, Without-snoc k v w bs h)

after-Without :
    (k eui : ℕ) (call : Call) (c : DownloadDataCache)
    → k < c.counter
    → Without k (queue eui c)
    → Without k (queue eui (after call c))
after-Without k eui (insert_call e d) c h p =
    queue_after-insert (Without k) eui c p e d
      (λ same. Without-snoc k (queue eui c) _ p (λ q. omega (arith, q)))
after-Without k eui (pop_call e) c h p =
    queue_after-pop (Without k) eui c p e (All-tail_of _ (queue eui c) p)
after-Without k eui (commit_call e) c h p =
    queue_after-commit (Without k) eui c p e (All-tail_of _ (queue eui c) p)

pub run-Without :
    (k eui : ℕ) (calls : List Call) (c : DownloadDataCache)
    → c.counter + length calls < 2 ^ 64
    → k < c.counter
    → Without k (queue eui c)
    → (Without k (queue eui (run calls c)))
      × (k < (run calls c).counter)
      × ((run calls c).counter ≤ c.counter + length calls)
run-Without k eui [] c h l p = (p, l, omega arith)
run-Without k eui (call ∷ calls) c h l p =
    let step = counter-after call c (omega arith) in
    let (q, m, n) =
      run-Without k eui calls (after call c) (omega (arith, step.1)) (omega (arith, step.0))
        (after-Without k eui call c l p) in
    (q, m, omega (arith, step.1))

Below-Without : (k : ℕ) (v : List DownloadDataWrap) → Below k v → Without k v
Below-Without k [] b = tt
Below-Without k (x ∷ v) (b, bs) = (λ q. omega (arith, q), Below-Without k v bs)

pub not_at_front :
    (k eui : ℕ) (c : DownloadDataCache) → Without k (queue eui c) → repetition_task eui k c ≡ false
unfolding repetition_task
not_at_front k eui c p = go (c.waiting eui) p
  where
    go :
        (o : Option (List DownloadDataWrap))
        → Without k (contents o)
        → is_down_id k (front o) ≡ false
    go none q = refl
    go (some []) q = refl
    go (some (w ∷ v)) (q, qs) = ground (arith, q)

-- A message that is inserted for a device gets an id that no other queue has.
pub insert-Without :
    (e eui : ℕ) (d : DownloadData) (c : DownloadDataCache)
    → IsNumbered c
    → e ≢ eui
    → Without c.counter (queue eui (insert e d c).1)
insert-Without e eui d c good h =
    rw (queue-insert_ne e eui d c h) (Below-Without c.counter (queue eui c) (good.below eui))
