-- ===== src/Downlink/Timeline.antt =====
-- The messages of a gateway are sent two seconds apart or more.
use snapemu_workflow.Base.{
  ℕ, ◌+◌, ◌*◌, ◌^◌, ◌<◌, ◌≤◌, ◌≡◌, sym, ap, ◌∙◌, Option, none, some, List, [], ◌∷◌, ◌==◌,
  if◌then◌else◌, length, All, arith, inl, inr, Bool-cases, ==_iff,
}
use snapemu_workflow.Base.Dict.{
  HashMap, nat_eq, empty, insert as put, lookup-insert_self, lookup-insert_ne,
}
use mathlib.Core.Path.{subst}
use snapemu_workflow.Downlink.{time_slot, get_time, time_duration}
use snapemu_workflow.Queue.History.{==_ne}

-- A call of `get_time`.
pub record Request : Type 0 where
  pub now : ℕ
  pub gateway : ℕ

-- When the callers for one gateway send, having slept for the wait that they were given.
abbrev pub send_times : ℕ → List Request → HashMap ℕ ℕ → List ℕ
send_times gateway [] g = []
send_times gateway (r ∷ rs) g =
    let (wait, g') = get_time r.now r.gateway g in
    let rest = send_times gateway rs g' in
    if r.gateway == gateway then (r.now + wait) ∷ rest else rest

-- Every time is at least `time_duration` after the one before it.
abbrev pub Spaced : List ℕ → Type 0
Spaced [] = Unit
Spaced (t ∷ []) = Unit
Spaced (t ∷ (u ∷ ts)) = (t + time_duration ≤ u) × Spaced (u ∷ ts)

abbrev NoneBefore : Option ℕ → List ℕ → Type 0
NoneBefore (some p) (t ∷ ts) = p ≤ t
NoneBefore _ _ = Unit

abbrev InBound : ℕ → Option ℕ → Type 0
InBound bound none = Unit
InBound bound (some p) = p ≤ bound

-- The slot is not before the time that was stored, and the time that is stored is the slot's end.
slot :
    (now bound : ℕ) (o : Option ℕ) (ts : List ℕ)
    → now ≤ bound
    → InBound bound o
    → bound + time_duration < 2 ^ 64
    → ((time_slot now o).1 ≡ now + (time_slot now o).0 + time_duration)
      × ((time_slot now o).1 ≤ bound + time_duration)
      × NoneBefore o ((now + (time_slot now o).0) ∷ ts)
unfolding time_slot
slot now bound none ts h k l = (omega arith, omega arith, tt)
slot now bound (some p) ts h k l = (ground arith, ground arith, ground arith)

NoneBefore-nil : (o : Option ℕ) → NoneBefore o []
NoneBefore-nil none = tt
NoneBefore-nil (some p) = tt

prepend :
    (t next : ℕ) (ts : List ℕ)
    → next ≡ t + time_duration
    → Spaced ts
    → NoneBefore (some next) ts
    → Spaced (t ∷ ts)
prepend t next [] e s n = tt
prepend t next (u ∷ ts) e s n = (omega arith, s)

module _ (gateway latest : ℕ) where
  Spaced-from :
      (rs : List Request) (g : HashMap ℕ ℕ) (bound : ℕ)
      → All (λ r. r.now ≤ latest) rs
      → latest ≤ bound
      → InBound bound (g gateway)
      → bound + time_duration * length rs < 2 ^ 64
      → Spaced (send_times gateway rs g) × NoneBefore (g gateway) (send_times gateway rs g)
  unfolding get_time
  Spaced-from [] g bound h l b k = (tt, NoneBefore-nil (g gateway))
  Spaced-from (r ∷ rs) g bound (h, hs) l b k = elim (Bool-cases (r.gateway == gateway)) [
    | inl s ↦
        let same : r.gateway ≡ gateway = (==_iff r.gateway gateway).0 s in
        let next : ℕ = (time_slot r.now (g r.gateway)).1 in
        let g' : HashMap ℕ ℕ = put r.gateway next g in
        let (end, top, after) =
          slot r.now bound (g r.gateway) (send_times gateway rs g') (omega arith)
            (subst (λ x. InBound bound (g x)) (sym same) b) (omega arith) in
        let stored : g' gateway ≡ some next =
          ap g' (sym same) ∙ lookup-insert_self r.gateway next g in
        let (sp, nb) =
          Spaced-from rs g' (bound + time_duration) hs (omega arith) (rw stored top)
            (omega arith) in
        rw s (
          prepend (r.now + (time_slot r.now (g r.gateway)).0) next (send_times gateway rs g') end sp
              (rw stored at nb),
          subst
              (λ x.
                NoneBefore (g x)
                  ((r.now + (time_slot r.now (g r.gateway)).0) ∷ send_times gateway rs g'))
              same after,
        )
    | inr n ↦
        let g' : HashMap ℕ ℕ = put r.gateway (time_slot r.now (g r.gateway)).1 g in
        let kept =
          lookup-insert_ne r.gateway gateway (time_slot r.now (g r.gateway)).1 g
            (==_ne r.gateway gateway n) in
        let (sp, nb) = Spaced-from rs g' bound hs l (rw kept b) (omega arith) in
        rw n (sp, rw kept at nb)
  ]

-- Whatever the requests and their gateways, where no time is after `latest` and the last slot's end is
-- below 2 ^ 64, each gateway's sends are `time_duration` apart or more, in the order of the requests.
pub send_times-Spaced :
    (gateway latest : ℕ) (rs : List Request)
    → All (λ r. r.now ≤ latest) rs
    → latest + time_duration * length rs < 2 ^ 64
    → Spaced (send_times gateway rs empty)
send_times-Spaced gateway latest rs h k =
    (Spaced-from gateway latest rs empty latest h (omega arith) tt k).0
