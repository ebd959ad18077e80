-- ===== src/Queue/Invariant.antt =====
-- The ids of the waiting messages.
use snapemu_workflow.Base.{
  ℕ, suc, ◌+◌, ◌^◌, ◌<◌, ◌≤◌, ◌≡◌, refl, Option, none, some, List, [], ◌∷◌, ◌++◌, ◌==◌, length, All,
  arith, inl, inr, Bool-cases, ==_iff,
}
use snapemu_workflow.Queue.{
  DownloadData, DownloadDataWrap, DownloadDataCache, insert, pop, pop_from, commit,
}
use snapemu_workflow.Queue.History.{
  Call, insert_call, pop_call, commit_call, queue, after, run, tail_of, queue-insert_self,
  queue-insert_ne, queue-pop, queue-pop_ne, queue-commit, queue-commit_ne, ==_ne,
}

abbrev pub Ascending : List DownloadDataWrap → Type 0
Ascending [] = Unit
Ascending (w ∷ v) = All (λ x. w.down_id < x.down_id) v × Ascending v

abbrev pub Below : ℕ → List DownloadDataWrap → Type 0
Below n v = All (λ x. x.down_id < n) v

-- In every queue the ids ascend and are below the counter.
pub record IsNumbered (c : DownloadDataCache) : Type 0 where
  pub ascending : (eui : ℕ) → Ascending (queue eui c)
  pub below : (eui : ℕ) → Below c.counter (queue eui c)

Below-suc : (n : ℕ) (v : List DownloadDataWrap) → Below n v → Below (suc n) v
Below-suc n [] b = tt
Below-suc n (x ∷ v) (b, bs) = (omega arith, Below-suc n v bs)

All-snoc_lt :
    (k : ℕ) (v : List DownloadDataWrap) (w : DownloadDataWrap)
    → All (λ x. k < x.down_id) v
    → k < w.down_id
    → All (λ x. k < x.down_id) (v ++ (w ∷ []))
All-snoc_lt k [] w a h = (h, tt)
All-snoc_lt k (x ∷ v) w (a, rest) h = (a, All-snoc_lt k v w rest h)

Below-snoc :
    (n : ℕ) (v : List DownloadDataWrap) (w : DownloadDataWrap)
    → Below n v
    → w.down_id < n
    → Below n (v ++ (w ∷ []))
Below-snoc n [] w b h = (h, tt)
Below-snoc n (x ∷ v) w (b, bs) h = (b, Below-snoc n v w bs h)

Ascending-snoc :
    (v : List DownloadDataWrap) (w : DownloadDataWrap)
    → Ascending v
    → Below w.down_id v
    → Ascending (v ++ (w ∷ []))
Ascending-snoc [] w a b = (tt, tt)
Ascending-snoc (x ∷ v) w (a, rest) (b, bs) =
    (All-snoc_lt x.down_id v w a b, Ascending-snoc v w rest bs)

Ascending-tail_of : (v : List DownloadDataWrap) → Ascending v → Ascending (tail_of v)
Ascending-tail_of [] a = tt
Ascending-tail_of (x ∷ v) (a, rest) = rest

pub All-tail_of :
    (P : DownloadDataWrap → Type 0) (v : List DownloadDataWrap) → All P v → All P (tail_of v)
All-tail_of P [] a = tt
All-tail_of P (x ∷ v) (a, rest) = rest

-- The counter moves by one with an insertion, and not otherwise.
pub counter-insert :
    (e : ℕ) (d : DownloadData) (c : DownloadDataCache)
    → suc c.counter < 2 ^ 64
    → (insert e d c).1.counter ≡ suc c.counter
unfolding insert
counter-insert e d c h = omega arith

counter-pop_from :
    (e : ℕ) (c : DownloadDataCache) (o : Option (List DownloadDataWrap))
    → (pop_from e c o).1.counter ≡ c.counter
unfolding pop_from
counter-pop_from e c none = refl
counter-pop_from e c (some []) = refl
counter-pop_from e c (some (w ∷ v)) = refl

counter-pop : (e : ℕ) (c : DownloadDataCache) → (pop e c).1.counter ≡ c.counter
unfolding pop
counter-pop e c = counter-pop_from e c (c.waiting e)

counter-commit : (e : ℕ) (c : DownloadDataCache) → (commit e c).counter ≡ c.counter
unfolding commit
counter-commit e c = counter-pop_from e c (c.waiting e)

module _ (P : List DownloadDataWrap → Type 0) (eui : ℕ) (c : DownloadDataCache)
    (p : P (queue eui c)) where
  -- What an insertion keeps of the queue of `eui`, if the new message keeps it.
  pub queue_after-insert :
      (e : ℕ) (d : DownloadData)
      → (e ≡ eui → P (queue eui c ++ (record { data_of = d; count = 0; down_id = c.counter } ∷ [])))
      → P (queue eui (insert e d c).1)
  queue_after-insert e d new = elim (Bool-cases (e == eui)) [
    | inl s ↦
        let same : e ≡ eui = (==_iff e eui).0 s in
        rw same (rw (queue-insert_self eui d c) (new same))
    | inr n ↦ rw (queue-insert_ne e eui d c (==_ne e eui n)) p
  ]

  pub queue_after-pop : (e : ℕ) → P (tail_of (queue eui c)) → P (queue eui (pop e c).1)
  queue_after-pop e new = elim (Bool-cases (e == eui)) [
    | inl s ↦ let same : e ≡ eui = (==_iff e eui).0 s in rw same (rw (queue-pop eui c).0 new)
    | inr n ↦ rw (queue-pop_ne e eui c (==_ne e eui n)) p
  ]

  pub queue_after-commit : (e : ℕ) → P (tail_of (queue eui c)) → P (queue eui (commit e c))
  queue_after-commit e new = elim (Bool-cases (e == eui)) [
    | inl s ↦ let same : e ≡ eui = (==_iff e eui).0 s in rw same (rw (queue-commit eui c) new)
    | inr n ↦ rw (queue-commit_ne e eui c (==_ne e eui n)) p
  ]

-- Every call keeps the numbering, while the counter does not wrap.
after-IsNumbered :
    (call : Call) (c : DownloadDataCache)
    → suc c.counter < 2 ^ 64
    → IsNumbered c
    → IsNumbered (after call c)
after-IsNumbered (insert_call e d) c h good = record {
  ascending = λ eui.
      queue_after-insert Ascending eui c (good.ascending eui) e d
        (λ same. Ascending-snoc (queue eui c) _ (good.ascending eui) (good.below eui));
  below = λ eui. rw (counter-insert e d c h) (
      queue_after-insert (Below (suc c.counter)) eui c
        (Below-suc c.counter (queue eui c) (good.below eui)) e d
        (λ same.
          Below-snoc (suc c.counter) (queue eui c) _
            (Below-suc c.counter (queue eui c) (good.below eui)) (omega arith)));
}
after-IsNumbered (pop_call e) c h good = record {
  ascending = λ eui.
      queue_after-pop Ascending eui c (good.ascending eui) e
        (Ascending-tail_of (queue eui c) (good.ascending eui));
  below = λ eui. rw (counter-pop e c) (
      queue_after-pop (Below c.counter) eui c (good.below eui) e
        (All-tail_of _ (queue eui c) (good.below eui)));
}
after-IsNumbered (commit_call e) c h good = record {
  ascending = λ eui.
      queue_after-commit Ascending eui c (good.ascending eui) e
        (Ascending-tail_of (queue eui c) (good.ascending eui));
  below = λ eui. rw (counter-commit e c) (
      queue_after-commit (Below c.counter) eui c (good.below eui) e
        (All-tail_of _ (queue eui c) (good.below eui)));
}

pub counter-after :
    (call : Call) (c : DownloadDataCache)
    → suc c.counter < 2 ^ 64
    → (c.counter ≤ (after call c).counter) × ((after call c).counter ≤ suc c.counter)
counter-after (insert_call e d) c h =
    (omega (arith, counter-insert e d c h), omega (arith, counter-insert e d c h))
counter-after (pop_call e) c h = (omega (arith, counter-pop e c), omega (arith, counter-pop e c))
counter-after (commit_call e) c h =
    (omega (arith, counter-commit e c), omega (arith, counter-commit e c))

-- From a cache whose ids ascend in every queue and are below the counter, any calls that cannot wrap
-- the 64-bit counter lead to such a cache.
pub run-IsNumbered :
    (calls : List Call) (c : DownloadDataCache)
    → c.counter + length calls < 2 ^ 64
    → IsNumbered c
    → IsNumbered (run calls c)
run-IsNumbered [] c h good = good
run-IsNumbered (call ∷ calls) c h good =
    let step = counter-after call c (omega arith) in
    run-IsNumbered calls (after call c) (omega (arith, step.1))
      (after-IsNumbered call c (omega arith) good)
