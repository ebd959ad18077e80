-- ===== src/Downlink/Pull.antt =====
-- The tasks that wait for a device until it sends something up.
use snapemu_workflow.Base.{
  ℕ, ◌≡◌, sym, ap, arith, ◌∙◌, Bool, true, false, List, [], ◌∷◌, ◌++◌, length, map, if◌then◌else◌,
}
use mathlib.Core.Path.{ap₂}
use snapemu_workflow.Queue.{DownloadData, DownloadDataCache, pop}
use snapemu_workflow.Queue.History.{queue, messages, queue-insert_self}
use snapemu_workflow.Queue.Front.{pop-messages, pop_empty}
use mathlib.Core.List.{map-append, append-nil, append_assoc}
use snapemu_workflow.Downlink.{
  NodeView, with_up_count, dispatch_task_now, Reply, with_task, ack, no_reply, pull_task, reply_of,
}

abbrev pub dispatch_all : NodeView → List DownloadData → DownloadDataCache → DownloadDataCache
dispatch_all node [] c = c
dispatch_all node (t ∷ ts) c = dispatch_all node ts (dispatch_task_now node true t c).1

-- The replies to a device's messages, which ask for an answer or not.
abbrev pub pull_all : ℕ → List Bool → DownloadDataCache → List Reply
pull_all eui [] c = []
pull_all eui (b ∷ bs) c = let (r, c') = pull_task eui b c in r ∷ pull_all eui bs c'

abbrev pub no_task : Bool → Reply
no_task b = if b then ack else no_reply

messages-dispatch_task_now :
    (node : NodeView) (t : DownloadData) (c : DownloadDataCache)
    → node.class_c ≡ false
    → messages (queue node.dev_eui (dispatch_task_now node true t c).1)
      ≡ messages (queue node.dev_eui c) ++ (with_up_count node t ∷ [])
unfolding dispatch_task_now
messages-dispatch_task_now node t c a = rw a (
    ap messages (queue-insert_self node.dev_eui (with_up_count node t) c)
    ∙ map-append (λ w. w.data_of) (queue node.dev_eui c)
        (record { data_of = with_up_count node t; count = 0; down_id = c.counter } ∷ []))

messages-dispatch_all :
    (node : NodeView) (ts : List DownloadData) (c : DownloadDataCache)
    → node.class_c ≡ false
    → messages (queue node.dev_eui (dispatch_all node ts c))
      ≡ messages (queue node.dev_eui c) ++ map (with_up_count node) ts
messages-dispatch_all node [] c a = sym (append-nil (messages (queue node.dev_eui c)))
messages-dispatch_all node (t ∷ ts) c a =
    messages-dispatch_all node ts (dispatch_task_now node true t c).1 a
    ∙ ap (λ v. v ++ map (with_up_count node) ts) (messages-dispatch_task_now node t c a)
    ∙ append_assoc (messages (queue node.dev_eui c)) (with_up_count node t ∷ [])
        (map (with_up_count node) ts)

-- A queue of messages that all carry a count, pulled.
pull_all-messages :
    (eui : ℕ) (node : NodeView) (ts : List DownloadData) (bs : List Bool) (last : Bool)
    (c : DownloadDataCache)
    → messages (queue eui c) ≡ map (with_up_count node) ts
    → length bs ≡ length ts
    → pull_all eui (bs ++ (last ∷ [])) c
      ≡ map (λ t. with_task (with_up_count node t)) ts ++ (no_task last ∷ [])
unfolding pull_task reply_of
pull_all-messages eui node [] [] last c e l = ap (λ o. reply_of o last ∷ []) (pop_empty eui c e)
pull_all-messages eui node [] (b ∷ bs) last c e l = absurd (omega arith)
pull_all-messages eui node (t ∷ ts) [] last c e l = absurd (omega arith)
pull_all-messages eui node (t ∷ ts) (b ∷ bs) last c e l =
    let (head, rest) = pop-messages eui c (with_up_count node t) (map (with_up_count node) ts) e in
    ap₂ (λ r rs. r ∷ rs) (ap (λ o. reply_of o b) head)
      (pull_all-messages eui node ts bs last (pop eui c).1 rest (omega arith))

-- The tasks that are dispatched to a device not of class C, whose queue was empty, are what it gets in
-- answer to its next messages, one each and in order; the message after these gets an acknowledgement
-- if it asks for one, and else nothing.
pub pull_task-dispatch_task_now :
    (node : NodeView) (ts : List DownloadData) (bs : List Bool) (last : Bool)
    (c : DownloadDataCache)
    → node.class_c ≡ false
    → queue node.dev_eui c ≡ []
    → length bs ≡ length ts
    → pull_all node.dev_eui (bs ++ (last ∷ [])) (dispatch_all node ts c)
      ≡ map (λ t. with_task (with_up_count node t)) ts ++ (no_task last ∷ [])
pull_task-dispatch_task_now node ts bs last c a empty l =
    pull_all-messages node.dev_eui node ts bs last (dispatch_all node ts c)
      (messages-dispatch_all node ts c a
        ∙ ap (λ v. messages v ++ map (with_up_count node) ts) empty)
      l
