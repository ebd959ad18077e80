-- ===== src/Queue/History.antt =====
-- The cache as a collection of queues: what is taken out is what was put in, in the same order.
use snapemu_workflow.Base.{
  ℕ, ◌≡◌, ◌≢◌, refl, sym, ◌∙◌, ap, false, Option, none, some, List, [], ◌∷◌, ◌++◌, ◌==◌, map,
  if◌then◌else◌, inl, inr, Bool-cases, ==_iff, arith,
}
use mathlib.Core.List.{append_assoc, append-nil, map-append}
use snapemu_workflow.Base.Dict.{
  HashMap, nat_eq, insert as put, lookup-insert_self, lookup-insert_ne,
}
use snapemu_workflow.Queue.{
  DownloadData, DownloadDataWrap, DownloadDataCache, insert, push_back, message_of, pop_from, pop,
  commit,
}

-- A call of the cache's methods that changes it.
pub data Call : Type 0 where
  insert_call : ℕ → DownloadData → Call
  pop_call : ℕ → Call
  commit_call : ℕ → Call

abbrev pub contents : Option (List DownloadDataWrap) → List DownloadDataWrap
contents (some v) = v
contents none = []

-- The queue of a device, empty where the map has none.
abbrev pub queue : ℕ → DownloadDataCache → List DownloadDataWrap
queue eui c = contents (c.waiting eui)

abbrev pub messages : List DownloadDataWrap → List DownloadData
messages v = map (λ w. w.data_of) v

abbrev pub taken : Option DownloadData → List DownloadData
taken (some d) = d ∷ []
taken none = []

abbrev pub head_message : List DownloadDataWrap → List DownloadData
head_message [] = []
head_message (w ∷ v) = w.data_of ∷ []

-- The cache after a call.
abbrev pub after : Call → DownloadDataCache → DownloadDataCache
after (insert_call eui d) c = (insert eui d c).1
after (pop_call eui) c = (pop eui c).1
after (commit_call eui) c = commit eui c

-- What a call takes from the queue of `eui`, handed out or dropped.
abbrev pub removed : ℕ → Call → DownloadDataCache → List DownloadData
removed eui (insert_call e d) c = []
removed eui (pop_call e) c = if e == eui then taken (pop e c).0 else []
removed eui (commit_call e) c = if e == eui then head_message (queue e c) else []

abbrev pub inserted : ℕ → Call → List DownloadData
inserted eui (insert_call e d) = if e == eui then d ∷ [] else []
inserted eui (pop_call e) = []
inserted eui (commit_call e) = []

abbrev pub run : List Call → DownloadDataCache → DownloadDataCache
run [] c = c
run (call ∷ calls) c = run calls (after call c)

abbrev pub all_removed : ℕ → List Call → DownloadDataCache → List DownloadData
all_removed eui [] c = []
all_removed eui (call ∷ calls) c = removed eui call c ++ all_removed eui calls (after call c)

abbrev pub all_inserted : ℕ → List Call → List DownloadData
all_inserted eui [] = []
all_inserted eui (call ∷ calls) = inserted eui call ++ all_inserted eui calls

contents-push_back :
    (o : Option (List DownloadDataWrap)) (w : DownloadDataWrap)
    → push_back o w ≡ contents o ++ (w ∷ [])
unfolding push_back
contents-push_back (some v) w = refl
contents-push_back none w = refl

stored_self :
    (eui : ℕ) (v : List DownloadDataWrap) (m : HashMap ℕ (List DownloadDataWrap))
    → contents (put eui v m eui) ≡ v
stored_self eui v m = ap contents (lookup-insert_self eui v m)

stored_ne :
    (e eui : ℕ) (v : List DownloadDataWrap) (m : HashMap ℕ (List DownloadDataWrap))
    → e ≢ eui
    → contents (put e v m eui) ≡ contents (m eui)
stored_ne e eui v m h = ap contents (lookup-insert_ne e eui v m h)

pub queue-insert_self :
    (eui : ℕ) (d : DownloadData) (c : DownloadDataCache)
    → queue eui (insert eui d c).1
      ≡ queue eui c ++ (record { data_of = d; count = 0; down_id = c.counter } ∷ [])
unfolding insert
queue-insert_self eui d c = stored_self eui _ c.waiting ∙ contents-push_back (c.waiting eui) _

pub queue-insert_ne :
    (e eui : ℕ) (d : DownloadData) (c : DownloadDataCache)
    → e ≢ eui
    → queue eui (insert e d c).1 ≡ queue eui c
unfolding insert
queue-insert_ne e eui d c h = stored_ne e eui _ c.waiting h

abbrev pub tail_of : List DownloadDataWrap → List DownloadDataWrap
tail_of [] = []
tail_of (w ∷ v) = v

-- Taking from a queue: the head goes, and the other queues do not change.
queue-pop_from :
    (eui : ℕ) (c : DownloadDataCache) (o : Option (List DownloadDataWrap))
    → c.waiting eui ≡ o
    → (queue eui (pop_from eui c o).1 ≡ tail_of (contents o))
      × (taken (message_of (pop_from eui c o).0) ≡ head_message (contents o))
unfolding pop_from
queue-pop_from eui c none e = (ap contents e, refl)
queue-pop_from eui c (some []) e = (ap contents e, refl)
queue-pop_from eui c (some (w ∷ v)) e = (stored_self eui v c.waiting, refl)

queue-pop_from_ne :
    (e eui : ℕ) (c : DownloadDataCache) (o : Option (List DownloadDataWrap))
    → e ≢ eui
    → queue eui (pop_from e c o).1 ≡ queue eui c
unfolding pop_from
queue-pop_from_ne e eui c none h = refl
queue-pop_from_ne e eui c (some []) h = refl
queue-pop_from_ne e eui c (some (w ∷ v)) h = stored_ne e eui v c.waiting h

pub queue-pop :
    (eui : ℕ) (c : DownloadDataCache)
    → (queue eui (pop eui c).1 ≡ tail_of (queue eui c))
      × (taken (pop eui c).0 ≡ head_message (queue eui c))
unfolding pop
queue-pop eui c = queue-pop_from eui c (c.waiting eui) refl

pub queue-commit :
    (eui : ℕ) (c : DownloadDataCache) → queue eui (commit eui c) ≡ tail_of (queue eui c)
unfolding commit
queue-commit eui c = (queue-pop_from eui c (c.waiting eui) refl).0

pub queue-pop_ne :
    (e eui : ℕ) (c : DownloadDataCache) → e ≢ eui → queue eui (pop e c).1 ≡ queue eui c
unfolding pop
queue-pop_ne e eui c h = queue-pop_from_ne e eui c (c.waiting e) h

pub queue-commit_ne :
    (e eui : ℕ) (c : DownloadDataCache) → e ≢ eui → queue eui (commit e c) ≡ queue eui c
unfolding commit
queue-commit_ne e eui c h = queue-pop_from_ne e eui c (c.waiting e) h

head_and_tail : (v : List DownloadDataWrap) → head_message v ++ messages (tail_of v) ≡ messages v
head_and_tail [] = refl
head_and_tail (w ∷ v) = refl

pub ==_ne : (a b : ℕ) → (a == b) ≡ false → a ≢ b
==_ne a b h = ground arith

same_insert :
    (eui e : ℕ) (d : DownloadData) (c : DownloadDataCache)
    → e ≡ eui
    → messages (queue eui (insert e d c).1) ≡ messages (queue eui c) ++ (d ∷ [])
same_insert eui e d c same = rw same (
    ap messages (queue-insert_self eui d c)
    ∙ map-append (λ w. w.data_of) (queue eui c)
        (record { data_of = d; count = 0; down_id = c.counter } ∷ []))

same_pop :
    (eui e : ℕ) (c : DownloadDataCache)
    → e ≡ eui
    → taken (pop e c).0 ++ messages (queue eui (pop e c).1) ≡ messages (queue eui c) ++ []
same_pop eui e c same =
    rw (same, (queue-pop eui c).0, (queue-pop eui c).1)
      (head_and_tail (queue eui c) ∙ sym (append-nil (messages (queue eui c))))

same_commit :
    (eui e : ℕ) (c : DownloadDataCache)
    → e ≡ eui
    → head_message (queue e c) ++ messages (queue eui (commit e c)) ≡ messages (queue eui c) ++ []
same_commit eui e c same =
    rw (same, queue-commit eui c)
      (head_and_tail (queue eui c) ∙ sym (append-nil (messages (queue eui c))))

-- One call.
balanced :
    (eui : ℕ) (call : Call) (c : DownloadDataCache)
    → removed eui call c ++ messages (queue eui (after call c))
      ≡ messages (queue eui c) ++ inserted eui call
balanced eui (insert_call e d) c = elim (Bool-cases (e == eui)) [
  | inl s ↦ rw s (same_insert eui e d c ((==_iff e eui).0 s))
  | inr n ↦ rw n (
      ap messages (queue-insert_ne e eui d c (==_ne e eui n))
      ∙ sym (append-nil (messages (queue eui c))))
]
balanced eui (pop_call e) c = elim (Bool-cases (e == eui)) [
  | inl s ↦ rw s (same_pop eui e c ((==_iff e eui).0 s))
  | inr n ↦ rw n (
      ap messages (queue-pop_ne e eui c (==_ne e eui n))
      ∙ sym (append-nil (messages (queue eui c))))
]
balanced eui (commit_call e) c = elim (Bool-cases (e == eui)) [
  | inl s ↦ rw s (same_commit eui e c ((==_iff e eui).0 s))
  | inr n ↦ rw n (
      ap messages (queue-commit_ne e eui c (==_ne e eui n))
      ∙ sym (append-nil (messages (queue eui c))))
]

-- Whatever the calls, what a device's queue held and what was inserted for it is, in this order, what
-- was taken from it and then what it still holds.
pub fifo :
    (eui : ℕ) (calls : List Call) (c : DownloadDataCache)
    → all_removed eui calls c ++ messages (queue eui (run calls c))
      ≡ messages (queue eui c) ++ all_inserted eui calls
fifo eui [] c = sym (append-nil (messages (queue eui c)))
fifo eui (call ∷ calls) c =
    append_assoc (removed eui call c) (all_removed eui calls (after call c)) _
    ∙ ap (λ v. removed eui call c ++ v) (fifo eui calls (after call c))
    ∙ sym (
        append_assoc (removed eui call c) (messages (queue eui (after call c)))
          (all_inserted eui calls))
    ∙ ap (λ v. v ++ all_inserted eui calls) (balanced eui call c)
    ∙ append_assoc (messages (queue eui c)) (inserted eui call) (all_inserted eui calls)
