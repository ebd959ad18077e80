-- ===== src/Groups/Stale.antt =====
-- A group that is deleted stays in the cache of its owner.
use snapemu_workflow.Base.{
  ℕ, ◌≡◌, refl, Bool, false, not, none, some, List, [], ◌∷◌, ◌==◌, ok, Bool-cases, inl, inr, ==_iff,
}
use snapemu_workflow.Groups.{
  Group, filter, find, Tables, IsTables, Cache, delete_one, select_by_group_id,
}

find-filter :
    (p : Group → Bool) (groups : List Group) → find p (filter (λ g. not (p g)) groups) ≡ none
unfolding find filter
find-filter p [] = refl
find-filter p (g ∷ groups) = elim (Bool-cases (p g)) [
  | inl holds ↦ rw holds (find-filter p groups)
  | inr fails ↦ rw (fails, fails, find-filter p groups) refl
]

module _ (T : Tables) (laws : IsTables T) (C : Cache) where
  -- The owner deletes a group that is not the default one: it goes from the table, but where the owner's
  -- cache has it, it is still answered, with the cached number of devices.
  pub select_by_group_id-delete_one :
      (count : Group → ℕ) (user id n : ℕ) (g : Group) (v : List (Group × ℕ)) (s : T.State)
      (c : C.State)
      → find (λ h. h.id == id) (T.groups s) ≡ some g
      → g.id ≡ id
      → g.owner ≡ user
      → g.default_group ≡ false
      → C.load_by_user_id user c ≡ some v
      → find (λ item. item.0.id == id) v ≡ some (g, n)
      → (t : T.State) × (delete_one T C user id s ≡ ok t)
        × (find (λ h. h.id == id) (T.groups t) ≡ none)
        × (select_by_group_id T C count user id t c ≡ (ok (g, n), c))
  unfolding delete_one select_by_group_id
  select_by_group_id-delete_one count user id n g v s c found own owned free load item = (
    T.delete_groups (λ h. h.id == g.id) s,
    rw (found, (==_iff g.owner user).1 owned, free) refl,
    rw (own, laws.groups-delete_groups (λ h. h.id == id) s)
        (find-filter (λ h. h.id == id) (T.groups s)),
    rw (load, item) refl,
  )
