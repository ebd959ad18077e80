-- ===== src/Groups/Tests.antt =====
-- The theorems on groups at concrete tables.
use snapemu_workflow.Base.{
  ℕ, ◌+◌, ◌-◌, ◌^◌, ◌<◌, ◌≡◌, ◌≢◌, ◌∙◌, sym, ap, refl, inl, inr, false, some, List, [], ◌∷◌, ◌==◌,
  arith, ok,
}
use snapemu_workflow.Groups.{
  Group, MapRow, find, device_group, device_group_max_order, raise, first_order, lower, set_order,
  device_default_group, is_device, unlink_device_all,
}
use snapemu_workflow.Groups.Bounds.{In, IsLow}
use snapemu_workflow.Groups.Order.{IsRanked, IsFirst, device_group-IsFirst}
use snapemu_workflow.Groups.Ranks.{
  Step, Reach, steps, start, next, tops, unlinks_device, Reach-IsRanked,
}
use snapemu_workflow.Groups.Memory.{memory, memory-IsTables, cache}

abbrev Tables : Type 0
Tables = List Group × List MapRow

-- Two devices of the user 7 in the group 3, the second on top.
abbrev row : ℕ → ℕ → ℕ → MapRow
row id device order = record {
  id = id;
  user_id = 7;
  device_id = device;
  group_id = 3;
  dev_order = order;
}

abbrev two : List MapRow
two = row 1 10 0 ∷ row 2 20 1 ∷ []

abbrev group : Group
group = record { id = 3; name = []; description = []; default_group = false; owner = 7 }

abbrev tables : Tables
tables = (group ∷ [], two)

two_own : (r q : MapRow) → In r two → In q two → r.id ≡ q.id → r ≡ q
two_own r q (inl h) (inl k) e = h ∙ sym k
two_own r q (inl h) (inr (inl k)) e =
    let a = ap (λ y. y.id) h in let b = ap (λ y. y.id) k in absurd (omega arith)
two_own r q (inr (inl h)) (inl k) e =
    let a = ap (λ y. y.id) h in let b = ap (λ y. y.id) k in absurd (omega arith)
two_own r q (inr (inl h)) (inr (inl k)) e = h ∙ sym k
two_own r q (inr (inr h)) k e = absurd h
two_own r q h (inr (inr k)) e = absurd k

two_ranks :
    (r q : MapRow)
    → In r two
    → In q two
    → r.user_id ≡ q.user_id
    → r.group_id ≡ q.group_id
    → r.dev_order ≡ q.dev_order
    → r.dev_order ≢ 0
    → r.id ≡ q.id
two_ranks r q (inl h) k u g o nonzero = absurd (nonzero (ap (λ y. y.dev_order) h))
two_ranks r q (inr (inl h)) (inl k) u g o nonzero = absurd (nonzero (o ∙ ap (λ y. y.dev_order) k))
two_ranks r q (inr (inl h)) (inr (inl k)) u g o nonzero = ap (λ y. y.id) h ∙ sym (ap (λ y. y.id) k)
two_ranks r q (inr (inr h)) k u g o nonzero = absurd h
two_ranks r q h (inr (inr k)) u g o nonzero = absurd k

two-IsRanked : IsRanked two
two-IsRanked = (two_own, two_ranks)

two-IsLow : (bound : ℕ) → 1 < bound → IsLow bound two
two-IsLow bound lt r (inl e) = let order = ap (λ y. y.dev_order) e in omega (arith, order, lt)
two-IsLow bound lt r (inr (inl e)) = let order = ap (λ y. y.dev_order) e in omega (arith, order, lt)
two-IsLow bound lt r (inr (inr h)) = absurd h

found_row : find (is_device 7 10 3) two ≡ some (row 1 10 0)
unfolding find
found_row = refl

found_group : find (λ h. h.id == 3) (group ∷ []) ≡ some group
unfolding find
found_group = refl

found_item : find {A = Group × ℕ} (λ item. item.0.id == 3) ((group, 2) ∷ []) ≡ some (group, 2)
unfolding find
found_item = refl

device_group-IsFirst_example :
    (t : Tables) × (device_group memory 7 10 3 tables ≡ ok t)
    × (device_default_group memory 7 10 3 tables ≡ t)
    × ((top : MapRow) × (top.user_id ≡ 7)
        × (top.group_id ≡ 3)
        × (top.device_id ≡ 10)
        × IsFirst top t.1)
device_group-IsFirst_example =
    device_group-IsFirst memory memory-IsTables 7 10 3 (row 1 10 0) tables two-IsRanked
      (two-IsLow (2 ^ 31 - 1) (omega arith)) found_row

abbrev topped : Tables
topped = (group ∷ [], row 1 10 2 ∷ row 2 20 1 ∷ [])

tops_first : Step memory cache tables topped
unfolding device_group device_group_max_order raise first_order lower find set_order
tops_first = tops 7 10 3 refl

abbrev two_steps : Reach memory cache tables (unlink_device_all memory cache 20 topped)
two_steps = next (next start tops_first) (unlinks_device 20 refl)

Reach-IsRanked_example :
    IsRanked (unlink_device_all memory cache 20 topped).1
    × IsLow (2 + steps memory cache two_steps) (unlink_device_all memory cache 20 topped).1
Reach-IsRanked_example =
    Reach-IsRanked memory memory-IsTables cache 2 tables (unlink_device_all memory cache 20 topped)
      two_steps (omega arith) two-IsRanked (two-IsLow 2 (omega arith))
