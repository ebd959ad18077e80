-- ===== src/Queue/Front.antt =====
-- What `pop` takes from a queue.
use snapemu_workflow.Base.{◌≡◌, refl, ap, ◌∙◌, ℕ, Option, none, some, List, [], ◌∷◌}
use snapemu_workflow.Queue.{DownloadData, DownloadDataWrap, DownloadDataCache, pop}
use snapemu_workflow.Queue.History.{queue, messages, taken, head_message, tail_of, queue-pop}

-- What `pop` hands out is the message at the front.
pub pop_head :
    (eui : ℕ) (c : DownloadDataCache) (w : DownloadDataWrap) (v : List DownloadDataWrap)
    → queue eui c ≡ w ∷ v
    → (pop eui c).0 ≡ some w.data_of
pop_head eui c w v e = go (pop eui c).0 ((queue-pop eui c).1 ∙ ap head_message e)
  where
    go : (o : Option DownloadData) → taken o ≡ w.data_of ∷ [] → o ≡ some w.data_of
    go none h = absurd cc
    go (some d) h = cc

-- `pop` on the messages of a queue.
pub pop-messages :
    (eui : ℕ) (c : DownloadDataCache) (d : DownloadData) (ds : List DownloadData)
    → messages (queue eui c) ≡ d ∷ ds
    → ((pop eui c).0 ≡ some d) × (messages (queue eui (pop eui c).1) ≡ ds)
pop-messages eui c d ds e = go (queue eui c) refl e
  where
    go :
        (v : List DownloadDataWrap)
        → queue eui c ≡ v
        → messages v ≡ d ∷ ds
        → ((pop eui c).0 ≡ some d) × (messages (queue eui (pop eui c).1) ≡ ds)
    go [] q m = absurd cc
    go (w ∷ v) q m =
        let head : w.data_of ≡ d = cc in
        let rest : messages v ≡ ds = cc in
        (
          pop_head eui c w v q ∙ ap some head,
          ap messages ((queue-pop eui c).0 ∙ ap tail_of q) ∙ rest,
        )

pub pop_empty :
    (eui : ℕ) (c : DownloadDataCache) → messages (queue eui c) ≡ [] → (pop eui c).0 ≡ none
pop_empty eui c e = go (queue eui c) refl e (pop eui c).0 (queue-pop eui c).1
  where
    go :
        (v : List DownloadDataWrap)
        → queue eui c ≡ v
        → messages v ≡ []
        → (o : Option DownloadData) → taken o ≡ head_message (queue eui c)
        → o ≡ none
    go v q m none t = refl
    go [] q m (some d) t = let bad : d ∷ [] ≡ [] = t ∙ ap head_message q in absurd cc
    go (w ∷ v) q m (some d) t = absurd cc
