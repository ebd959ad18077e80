-- ===== src/Devices/Deletion/Left.antt =====
-- What the deletion of a device leaves.
use snapemu_workflow.Base.{
  ℕ, ◌≡◌, refl, sym, Bool, true, false, ◌&&◌, Option, none, some, List, [], ◌∷◌, All, ◌==◌, ==_iff,
  if◌then◌else◌, Outcome, ok, err, panic, stuck, ◌>>=◌, ok_or, arith,
}
use snapemu_workflow.Base.Results.{bind_ok, ok_or-some}
use snapemu_workflow.Groups.{filter, find, unlink_device_all}
use snapemu_workflow.Ids.{Hex}
use snapemu_workflow.Tables.{delete_row}
use snapemu_workflow.Tables.Rows.{All-map, All-deleted, find-none, find-passes, find-All}
use snapemu_workflow.Devices.{
  DeviceType, lora_node, lora_gate, mqtt, snap, DevicesModel, DeviceAuthorityModel, DeviceError,
  not_owner, device_missing, DeviceWithAuth, also_related, found_device, keep_related, shared_with,
  has_id, query_all_with_auth, query_one_with_auth, Stores, World, IsStores,
}
use snapemu_workflow.Devices.Deletion.{
  or_invalid, delete_snap_device, delete_node, delete_gateway, delete_mqtt, delete_by_device_id,
  delete_typed, delete_owned, delete_device,
}

ok_injective : {E A : Type 0} (a b : A) → ◌≡◌ {A = Outcome E A} (ok a) (ok b) → a ≡ b
ok_injective a b h = cc

-- No row of a device with the id is found for anyone.
module _ (device_id : ℕ) where
  abbrev Lacks : List DevicesModel → Type 0
  Lacks = All (λ d. (d.id == device_id) ≡ false)

  related-Lacks :
      (devices : List DevicesModel) (o : Option DevicesModel) (n : ℕ)
      → Lacks devices
      → find (λ d. d.id == n) devices ≡ o
      → has_id device_id o ≡ false
  related-Lacks devices none n lacks h = refl
  related-Lacks devices (some d) n lacks h =
      find-All (λ d. (d.id == device_id) ≡ false) (λ d. d.id == n) devices d lacks h

  also_related-Lacks :
      (devices : List DevicesModel) (auths : List DeviceAuthorityModel)
      → Lacks devices
      → All (λ p. has_id device_id p.1 ≡ false) (also_related devices auths)
  unfolding also_related
  also_related-Lacks devices [] lacks = tt
  also_related-Lacks devices (a ∷ auths) lacks = (
    related-Lacks devices (find (λ d. d.id == a.device_id) devices) a.device_id lacks refl,
    also_related-Lacks devices auths lacks,
  )

  keep_related-Lacks :
      (rows : List (DeviceAuthorityModel × Option DevicesModel))
      → All (λ p. has_id device_id p.1 ≡ false) rows
      → All (λ d. (d.device.id == device_id) ≡ false) (keep_related rows)
  unfolding keep_related
  keep_related-Lacks [] all = tt
  keep_related-Lacks ((a, none) ∷ rows) (e, all) = keep_related-Lacks rows all
  keep_related-Lacks ((a, some d) ∷ rows) (e, all) = (e, keep_related-Lacks rows all)

  no_test : (b c : Bool) → c ≡ false → (b && c) ≡ false
  no_test b c e = ground arith

  query_one-Lacks :
      (user : ℕ) (auths : List DeviceAuthorityModel) (devices : List DevicesModel)
      → Lacks devices
      → query_one_with_auth user device_id auths devices ≡ err device_missing
  unfolding query_one_with_auth
  query_one-Lacks user auths devices lacks =
      let all =
        All-map (λ p. has_id device_id p.1 ≡ false)
          (λ p. (shared_with user p.0 && has_id device_id p.1) ≡ false) (also_related devices auths)
          (λ p. no_test (shared_with user p.0) (has_id device_id p.1))
          (also_related-Lacks devices auths lacks) in
      rw
        (find-none (λ p. shared_with user p.0 && has_id device_id p.1) (also_related devices auths)
          all)
        refl

-- The device that is found has the id that was asked for, and its right is one of the user.
found_device_found :
    (user id : ℕ) (p : DeviceAuthorityModel × Option DevicesModel) (d : DeviceWithAuth)
    → (shared_with user p.0 && has_id id p.1) ≡ true
    → found_device p ≡ some d
    → (d.device.id ≡ id) × (shared_with user d.auth ≡ true)
found_device_found user id (a, none) d passes h = absurd cc
found_device_found user id (a, some e) d passes h =
    let made : record { auth = a; device = e } ≡ d = cc in
    rw (sym made) (
      (==_iff e.id id).0 (right (shared_with user a) (e.id == id) passes),
      left (shared_with user a) (e.id == id) passes,
    )
  where
    right : (b c : Bool) → (b && c) ≡ true → c ≡ true
    right b c e = ground arith

    left : (b c : Bool) → (b && c) ≡ true → b ≡ true
    left b c e = ground arith

pub query_one_found :
    (user id : ℕ) (auths : List DeviceAuthorityModel) (devices : List DevicesModel)
    (d : DeviceWithAuth)
    → query_one_with_auth user id auths devices ≡ ok d
    → (d.device.id ≡ id) × (shared_with user d.auth ≡ true)
unfolding query_one_with_auth
query_one_found user id auths devices d h =
    let (p, found, made) =
      bind_ok
        (ok_or (find (λ p. shared_with user p.0 && has_id id p.1) (also_related devices auths))
          device_missing)
        _ d h in
    found_device_found user id p d
      (find-passes (λ p. shared_with user p.0 && has_id id p.1) (also_related devices auths) p
        (ok_or-some _ device_missing p found))
      (ok_or-some (found_device p) device_missing d made)

module _ (hex : Hex) (S : Stores) where
  -- The tables that the deletion by type does not touch.
  abbrev Keeps : World S → World S → Type 0
  Keeps w v =
      (v.devices ≡ w.devices) × (v.auths ≡ w.auths) × (v.groups ≡ w.groups) × (v.snaps ≡ w.snaps)

  Keeps-bind :
      {A : Type 0} (m : Outcome DeviceError A) (f : A → World S) (w v : World S)
      → (m >>= λ a. ok (f a)) ≡ ok v
      → ((a : A) → m ≡ ok a → Keeps w (f a))
      → Keeps w v
  Keeps-bind m f w v h keeps =
      let (a, e, made) = bind_ok m (λ a. ok (f a)) v h in
      rw (sym (ok_injective (f a) v made)) (keeps a e)

  delete_typed-Keeps :
      (t : DeviceType) (id : ℕ) (w v : World S) → delete_typed hex S t id w ≡ ok v → Keeps w v
  unfolding delete_typed delete_snap_device delete_node delete_gateway delete_mqtt
      delete_by_device_id
  delete_typed-Keeps snap id w v h =
      Keeps-bind _ _ w v h (λ u e. Keeps-bind _ _ w u e (λ r f. (refl, refl, refl, refl)))
  delete_typed-Keeps lora_node id w v h =
      Keeps-bind _ _ w v h (λ u e. Keeps-bind _ _ w u e (λ r f. (refl, refl, refl, refl)))
  delete_typed-Keeps lora_gate id w v h = Keeps-bind _ _ w v h (λ r f. (refl, refl, refl, refl))
  delete_typed-Keeps mqtt id w v h = rw (sym (ok_injective _ v h)) (refl, refl, refl, refl)

  -- No table of devices, rights or groups speaks of the device any more.
  abbrev pub IsForgotten : ℕ → World S → Type 0
  IsForgotten id v =
      All (λ d. (d.id == id) ≡ false) (S.devices.rows v.devices)
      × All (λ a. (a.device_id == id) ≡ false) (S.auths.rows v.auths)
      × All (λ m. (m.device_id == id) ≡ false) (S.groups.maps v.groups)

  delete_owned-IsForgotten :
      IsStores S
      → (id : ℕ) (device : DevicesModel) (w v : World S) → device.id ≡ id
      → delete_owned hex S id device w ≡ ok v
      → IsForgotten id v × (v.snaps ≡ w.snaps)
  unfolding delete_owned delete_row unlink_device_all
  delete_owned-IsForgotten laws id device w v same h =
      let w1 : World S = record w {
        groups = unlink_device_all S.groups S.caches device.id w.groups;
      } in
      let (u, typed, done) = bind_ok (delete_typed hex S device.device_type id w1) _ v h in
      let (e_devices, e_auths, e_groups, e_snaps) =
        delete_typed-Keeps device.device_type id w1 u typed in
      rw (sym (ok_injective _ v done)) (
        (
          rw
              (laws.devices.rows-delete_many (λ r. S.devices.key r == S.devices.key device)
                u.devices)
              (All-map (λ d. (S.devices.key d == S.devices.key device) ≡ false)
                (λ d. (d.id == id) ≡ false) _
                (λ d e. rw (laws.device_key d, laws.device_key device, same) at e)
                (All-deleted (λ r. S.devices.key r == S.devices.key device)
                  (S.devices.rows u.devices))),
          rw (laws.auths.rows-delete_many (λ r. r.device_id == id) u.auths)
              (All-deleted (λ r. r.device_id == id) (S.auths.rows u.auths)),
          rw (e_groups, laws.groups.maps-delete_maps (λ r. r.device_id == device.id) w.groups, same)
              (All-deleted (λ r. r.device_id == id) (S.groups.maps w.groups)),
        ),
        e_snaps,
      )

  -- A device is deleted for its owner only: the user has a right on it that says so. It is then found for
  -- no user, alone or among all of his devices, and is in no group. The table of snap devices is as before.
  pub delete_device_found :
      IsStores S
      → (id user : ℕ) (w v : World S) → delete_device hex S id user w ≡ ok v
      → ((d : DeviceWithAuth) × (shared_with user d.auth ≡ true)
          × (d.auth.owner ≡ true)
          × (query_one_with_auth user id (S.auths.rows w.auths) (S.devices.rows w.devices) ≡ ok d))
        × ((other : ℕ)
            → (query_one_with_auth other id (S.auths.rows v.auths) (S.devices.rows v.devices)
                ≡ err device_missing)
              × All
                  (λ d. (d.device.id == id) ≡ false)
                  (query_all_with_auth other (S.auths.rows v.auths) (S.devices.rows v.devices)))
        × All (λ m. (m.device_id == id) ≡ false) (S.groups.maps v.groups)
        × (v.snaps ≡ w.snaps)
  unfolding delete_device query_all_with_auth
  delete_device_found laws id user w v h =
      let (d, asked, rest) =
        bind_ok
          (or_invalid
            (query_one_with_auth user id (S.auths.rows w.auths) (S.devices.rows w.devices)))
          _ v h in
      let found = valid _ d asked in
      let (same, shared) =
        query_one_found user id (S.auths.rows w.auths) (S.devices.rows w.devices) d found in
      let (owner, deleted) = owned d.auth.owner _ rest in
      let ((no_device, no_auth, no_map), snaps) =
        delete_owned-IsForgotten laws id d.device w v same deleted in
      (
        (d, shared, owner, found),
        λ other. (
          query_one-Lacks id other (S.auths.rows v.auths) (S.devices.rows v.devices) no_device,
          keep_related-Lacks id _ (
              also_related-Lacks id (S.devices.rows v.devices)
                (filter (shared_with other) (S.auths.rows v.auths)) no_device),
        ),
        no_map,
        snaps,
      )
    where
      valid :
          (o : Outcome DeviceError DeviceWithAuth) (d : DeviceWithAuth)
          → or_invalid o ≡ ok d
          → o ≡ ok d
      valid (ok a) d h = h
      valid (err e) d h = cc
      valid panic d h = cc
      valid stuck d h = cc

      owned :
          (b : Bool) (o : Outcome DeviceError (World S))
          → (if b then o else err not_owner) ≡ ok v
          → (b ≡ true) × (o ≡ ok v)
      owned true o h = (refl, h)
      owned false o h = cc
