-- ===== src/Devices/Linking/Change.antt =====
-- What the change of a group does.
use snapemu_workflow.Base.{
  ℕ, ◌+◌, ◌≡◌, ◌≢◌, refl, sym, ap, ◌∙◌, inl, inr, Bool, true, false, ◌||◌, Bool-cases, ==_iff,
  Option, none, some, List, [], ◌==◌, if◌then◌else◌, ok, arith,
}
use snapemu_workflow.Base.Texts.{same, same_iff}
use snapemu_workflow.Groups.{Group, find, is_device, Tables, IsTables, Cache, select_by_group_id}
use snapemu_workflow.Redis.{Str}
use snapemu_workflow.Tables.{is_in}
use snapemu_workflow.Tables.Rows.{find-passes, find-replaced}
use snapemu_workflow.Devices.{Stores, World, IsStores}
use snapemu_workflow.Devices.Linking.{
  usable, put_group, same_set, ReqPutDeviceGroup, changes, changed, edited, edit, unlink_each,
  link_some, unlink_some, update_group,
}
use snapemu_workflow.Devices.Linking.Counts.{count, links, link_each-links, unlink_each-links}

-- The text that is given, or else the old one.
abbrev given : Option Str → Str → Str
given none old = old
given (some new) old = new

changed-given : (o : Option Str) (old : Str) → changed o old ≡ given o old
changed-given none old = refl
changed-given (some new) old = elim (Bool-cases (same new old)) [
  | inl e ↦ rw e (sym ((same_iff new old).0 e))
  | inr n ↦ rw n refl
]

abbrev with_texts : ReqPutDeviceGroup → Group → Group
with_texts req g = record g {
  name = given req.name g.name;
  description = given req.description g.description;
}

edited-with_texts : (req : ReqPutDeviceGroup) (g : Group) → edited req g ≡ with_texts req g
unfolding edited
edited-with_texts req g =
    rw (changed-given req.name g.name, changed-given req.description g.description) refl

unchanged : (o : Option Str) (old : Str) → changes o old ≡ false → changed o old ≡ old
unchanged none old h = refl
unchanged (some new) old h = elim (Bool-cases (same new old)) [
  | inl e ↦ rw e refl
  | inr n ↦ let f = rw n at h in absurd cc
]

abbrev listed : Option (List ℕ) → List ℕ
listed none = []
listed (some ids) = ids

-- The user may use the devices of a list.
abbrev Allowed : (List ℕ → List ℕ) → Option (List ℕ) → Type 0
Allowed known none = Unit
Allowed known (some ids) = same_set ids (known ids) ≡ true

module _ (T : Tables) (laws : IsTables T) (C : Cache) where
  edit-find :
      (req : ReqPutDeviceGroup) (g : Group) (id : ℕ) (s : T.State)
      → find (λ h. h.id == id) (T.groups s) ≡ some g
      → find (λ h. h.id == id) (T.groups (edit T C req g s)) ≡ some (edited req g)
  unfolding edit edited
  edit-find req g id s found =
      let passes = find-passes (λ h. h.id == id) (T.groups s) g found in
      elim (Bool-cases (changes req.name g.name || changes req.description g.description)) [
        | inl yes_ ↦
            rw (yes_, laws.groups-update_group (edited req g) s)
              (find-replaced (λ h. h.id) (λ h. h.id == id) (T.groups s) g (edited req g) refl passes
                found)
        | inr no_ ↦
            let (n, d) =
              neither (changes req.name g.name) (changes req.description g.description) no_ in
            rw (no_, unchanged req.name g.name n, unchanged req.description g.description d) found
      ]
    where
      neither : (a b : Bool) → (a || b) ≡ false → (a ≡ false) × (b ≡ false)
      neither a b h = ground arith

  edit-maps :
      (req : ReqPutDeviceGroup) (g : Group) (s : T.State) → T.maps (edit T C req g s) ≡ T.maps s
  unfolding edit
  edit-maps req g s =
      elim (Bool-cases (changes req.name g.name || changes req.description g.description)) [
        | inl yes_ ↦ rw yes_ (laws.maps-update_group (edited req g) s)
        | inr no_ ↦ rw no_ refl
      ]

  link_some-links :
      (known : List ℕ → List ℕ) (group user : ℕ) (o : Option (List ℕ)) (s : T.State) (c : C.State)
      (g : Group)
      → find (λ h. h.id == group) (T.groups s) ≡ some g
      → Allowed known o
      → (t : T.State) × (d : C.State) × (link_some T C known group user o s c ≡ ok (t, d))
        × (T.groups t ≡ T.groups s)
        × ((device : ℕ)
            → links T user device group t
              ≡ count (λ x. x == device) (listed o) + links T user device group s)
  unfolding count
  link_some-links known group user none s c g is allowed = (s, c, refl, refl, λ device. omega arith)
  link_some-links known group user (some ids) s c g is allowed =
      let (t, d, runs, groups, counts) = link_each-links T laws C group user ids s c (g, is) in
      (t, d, rw allowed runs, groups, counts)

  unlink_some-links :
      (known : List ℕ → List ℕ) (group user : ℕ) (o : Option (List ℕ)) (s : T.State) (c : C.State)
      → Allowed known o
      → (t : T.State) × (d : C.State) × (unlink_some T C known group user o s c ≡ ok (t, d))
        × (T.groups t ≡ T.groups s)
        × ((device : ℕ)
            → links T user device group t
              ≡ (if is_in (listed o) device then 0 else links T user device group s))
  unfolding is_in
  unlink_some-links known group user none s c allowed = (s, c, refl, refl, λ device. refl)
  unlink_some-links known group user (some ids) s c allowed =
      let r = unlink_each T C group user ids s c in
      (
        r.0,
        r.1,
        rw allowed refl,
        (unlink_each-links T laws C group user ids s c 0).0,
        λ device. (unlink_each-links T laws C group user ids s c device).1,
      )

  update_group-links :
      (known : List ℕ → List ℕ) (id user : ℕ) (req : ReqPutDeviceGroup) (s : T.State) (c : C.State)
      (g : Group)
      → find (λ h. h.id == id) (T.groups s) ≡ some g
      → g.owner ≡ user
      → g.default_group ≡ false
      → Allowed known req.devices
      → Allowed known req.remove
      → (t : T.State) × (d : C.State) × (update_group T C known id user req s c ≡ ok (t, d))
        × (find (λ h. h.id == id) (T.groups t) ≡ some (with_texts req g))
        × ((device : ℕ)
            → links T user device id t ≡ (
                if is_in (listed req.remove) device
                then 0
                else count (λ x. x == device) (listed req.devices) + links T user device id s))
  unfolding update_group
  update_group-links known id user req s c g found owned free may_link may_unlink =
      let e : g.id ≡ id = (==_iff g.id id).0 (find-passes (λ h. h.id == id) (T.groups s) g found) in
      let (s1, c1, linked, groups1, links1) =
        link_some-links known id user req.devices s c g found may_link in
      let (s2, c2, left, groups2, links2) =
        unlink_some-links known id user req.remove s1 c1 may_unlink in
      (
        edit T C req g s2,
        c2,
        rw (found, (==_iff g.owner user).1 owned, free, e, linked, left) refl,
        edit-find req g id s2 (rw (groups2, groups1) found) ∙ ap some (edited-with_texts req g),
        λ device.
            ap (count (is_device user device id)) (edit-maps req g s2)
            ∙ links2 device
            ∙ rw (links1 device) refl,
      )

  -- The owner renames a group that is not the default one, and names no devices: the table has the new name, but where
  -- the owner's cache has the group, it is still answered as it was.
  pub select_by_group_id-update_group :
      (counts : Group → ℕ) (known : List ℕ → List ℕ) (id user n : ℕ) (name : Str) (s : T.State)
      (c : C.State) (g : Group) (v : List (Group × ℕ))
      → find (λ h. h.id == id) (T.groups s) ≡ some g
      → g.owner ≡ user
      → g.default_group ≡ false
      → name ≢ g.name
      → C.load_by_user_id user c ≡ some v
      → find (λ item. item.0.id == id) v ≡ some (g, n)
      → (t : T.State) × (update_group T C known id user
            (record { devices = none; remove = none; name = some name; description = none })
            s
            c
          ≡ ok (t, c))
        × (find (λ h. h.id == id) (T.groups t) ≡ some (record g { name = name }))
        × (select_by_group_id T C counts user id t c ≡ (ok (g, n), c))
  unfolding update_group select_by_group_id edited
  select_by_group_id-update_group counts known id user n name s c g v found owned free new load
        item =
      let req : ReqPutDeviceGroup = record {
        devices = none;
        remove = none;
        name = some name;
        description = none;
      } in
      (
        edit T C req g s,
        rw (found, (==_iff g.owner user).1 owned, free) refl,
        edit-find req g id s found ∙ rw (other) refl,
        rw (load, item) refl,
      )
    where
      other : same name g.name ≡ false
      other = elim (Bool-cases (same name g.name)) [
        | inl e ↦ absurd (new ((same_iff name g.name).0 e))
        | inr n ↦ n
      ]

module _ (S : Stores) (laws : IsStores S) where
  -- The owner changes a group that is not the default one, and has a right on the devices of both lists: the change ends
  -- well, the group has the new name and description where they are given, the devices to remove are in it no more, and
  -- every other device is in it as often as before and as it is among the devices to add, taken together.
  pub put_group-links :
      (id user : ℕ) (req : ReqPutDeviceGroup) (w : World S) (g : Group)
      → find (λ h. h.id == id) (S.groups.groups w.groups) ≡ some g
      → g.owner ≡ user
      → g.default_group ≡ false
      → Allowed (usable S user w) req.devices
      → Allowed (usable S user w) req.remove
      → (v : World S) × (put_group S id user req w ≡ ok v)
        × (find (λ h. h.id == id) (S.groups.groups v.groups) ≡ some (with_texts req g))
        × ((device : ℕ)
            → links S.groups user device id v.groups ≡ (
                if is_in (listed req.remove) device
                then 0
                else count (λ x. x == device) (listed req.devices)
                  + links S.groups user device id w.groups))
  unfolding put_group
  put_group-links id user req w g found owned free may_link may_unlink =
      let (t, d, runs, named, counts) =
        update_group-links S.groups laws.groups S.caches (usable S user w) id user req w.groups
          w.caches g found owned free may_link may_unlink in
      (record w { groups = t; caches = d }, rw runs refl, named, counts)
