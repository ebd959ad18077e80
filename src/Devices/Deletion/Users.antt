-- ===== src/Devices/Deletion/Users.antt =====
-- What the deletion of all devices of a user leaves.
use mathlib.Core.Path.{subst}
use snapemu_workflow.Base.{
  ℕ, ◌≡◌, ◌≢◌, refl, sym, ap, ◌∙◌, inl, inr, Bool, true, false, not, Bool-cases, Option, none, some,
  List, [], ◌∷◌, ◌++◌, All, ◌==◌, ==_iff, get_elem?, arith,
}
use snapemu_workflow.Groups.{filter, find}
use snapemu_workflow.Ids.{Hex, id_to_string}
use snapemu_workflow.Redis.{codes}
use snapemu_workflow.Register.{addr_key, load_by_addr}
use snapemu_workflow.Tables.{is_in}
use snapemu_workflow.Tables.Rows.{
  All-map, find-passes, filter-all, filter-swap, is_in_tail, is_in_head,
}
use snapemu_workflow.Devices.{
  DeviceType, lora_node, lora_gate, mqtt, snap, DevicesModel, DeviceAuthorityModel, DeviceWithAuth,
  also_related, keep_related, shared_with, query_all_with_auth, Stores, World, IsStores,
}
use snapemu_workflow.Devices.Deletion.{
  Owned, add_owned, owned_of, delete_snap, delete_lora_node, delete_lora_gateway,
  delete_device_auth, delete_list, delete_by_device_id_array, delete_cache, delete_by_user_id,
}

add_owned_id : (id : ℕ) (t : DeviceType) (o : Owned) → is_in (add_owned id t o).can_delete id ≡ true
unfolding add_owned
add_owned_id id lora_node o = is_in_head id o.can_delete
add_owned_id id lora_gate o = is_in_head id o.can_delete
add_owned_id id mqtt o = is_in_head id o.can_delete
add_owned_id id snap o = is_in_head id o.can_delete

add_owned_keeps :
    (id : ℕ) (t : DeviceType) (o : Owned) (x : ℕ)
    → is_in o.can_delete x ≡ true
    → is_in (add_owned id t o).can_delete x ≡ true
unfolding add_owned
add_owned_keeps id lora_node o x h = is_in_tail id o.can_delete x h
add_owned_keeps id lora_gate o x h = is_in_tail id o.can_delete x h
add_owned_keeps id mqtt o x h = is_in_tail id o.can_delete x h
add_owned_keeps id snap o x h = is_in_tail id o.can_delete x h

-- The device of each entry is among those to delete, if the entry says that it is owned.
abbrev IsListed : Owned → DeviceWithAuth → Type 0
IsListed o d = d.auth.owner ≡ true → is_in o.can_delete d.device.id ≡ true

owned_of_own :
    (d : DeviceWithAuth) (devices : List DeviceWithAuth)
    → d.auth.owner ≡ true
    → owned_of (d ∷ devices) ≡ add_owned d.device.id d.device.device_type (owned_of devices)
unfolding owned_of
owned_of_own d devices e = rw e refl

owned_of_other :
    (d : DeviceWithAuth) (devices : List DeviceWithAuth)
    → d.auth.owner ≡ false
    → owned_of (d ∷ devices) ≡ owned_of devices
unfolding owned_of
owned_of_other d devices e = rw e refl

owned_of-IsListed : (devices : List DeviceWithAuth) → All (IsListed (owned_of devices)) devices
owned_of-IsListed [] = tt
owned_of-IsListed (d ∷ devices) = elim (Bool-cases d.auth.owner) [
  | inl owner ↦
      let o = owned_of devices in
      subst (λ all. All (IsListed all) (d ∷ devices)) (sym (owned_of_own d devices owner))
        (
          λ e. add_owned_id d.device.id d.device.device_type o,
          All-map (IsListed o) (IsListed (add_owned d.device.id d.device.device_type o)) devices
              (λ x h own. add_owned_keeps d.device.id d.device.device_type o x.device.id (h own))
              (owned_of-IsListed devices),
        )
  | inr other ↦
      subst (λ all. All (IsListed all) (d ∷ devices)) (sym (owned_of_other d devices other))
        (λ e. absurd cc, owned_of-IsListed devices)
]

-- A user of snap devices only has no nodes.
no_nodes :
    (devices : List DeviceWithAuth)
    → All (λ d. d.device.device_type ≡ snap) devices
    → (owned_of devices).lora_nodes ≡ []
unfolding owned_of add_owned
no_nodes [] all = refl
no_nodes (d ∷ devices) (e, all) = elim (Bool-cases d.auth.owner) [
  | inl owner ↦ rw (owner, e) (no_nodes devices all)
  | inr other ↦ rw other (no_nodes devices all)
]

-- Entries whose device is not among the ids `ids`, where the others are not the user's own.
module _ (devices : List DevicesModel) (ids : List ℕ) where
  -- A right, and what it is related to among the devices.
  abbrev Related : List DeviceAuthorityModel → Type 0
  Related auths =
      All (λ d. d.auth.owner ≡ true → is_in ids d.device.id ≡ true)
        (keep_related (also_related devices auths))

  abbrev left : List DevicesModel
  left = filter (λ d. not (is_in ids d.id)) devices

  find_left :
      (p : DevicesModel → Bool) (rows : List DevicesModel) (d : DevicesModel)
      → find p (filter (λ d. not (is_in ids d.id)) rows) ≡ some d
      → (e : DevicesModel) × (find p rows ≡ some e)
  unfolding find filter
  find_left p [] d h = absurd cc
  find_left p (x ∷ rows) d h = elim (Bool-cases (p x)) [
    | inl first ↦ (x, rw first refl)
    | inr later ↦ elim (Bool-cases (is_in ids x.id)) [
      | inl gone ↦ let (e, f) = find_left p rows d (rw gone at h) in (e, rw (later, f) refl)
      | inr kept ↦
          let (e, f) = find_left p rows d (rw later at (rw kept at h)) in (e, rw (later, f) refl)
    ]
  ]

  -- A right that is left, with what it is related to among the devices that are left.
  unowned :
      (auths : List DeviceAuthorityModel)
      → Related auths
      → All
          (λ d. d.auth.owner ≡ false)
          (keep_related (also_related left (filter (λ a. not (is_in ids a.device_id)) auths)))
  unfolding filter also_related keep_related
  unowned [] related = tt
  unowned (a ∷ auths) related = elim (Bool-cases (is_in ids a.device_id)) [
    | inl gone ↦ rw gone (unowned auths (rest (find (λ d. d.id == a.device_id) devices) related))
    | inr kept ↦ rw kept (
        alone (find (λ d. d.id == a.device_id) left) refl kept
          (unowned auths (rest (find (λ d. d.id == a.device_id) devices) related)))
  ]
    where
      rest :
          (o : Option DevicesModel)
          → All
              (λ d. d.auth.owner ≡ true → is_in ids d.device.id ≡ true)
              (keep_related ((a, o) ∷ also_related devices auths))
          → Related auths
      rest none all = all
      rest (some d) all = all.1

      was :
          (o : Option DevicesModel) (e : DevicesModel)
          → o ≡ some e
          → All
              (λ d. d.auth.owner ≡ true → is_in ids d.device.id ≡ true)
              (keep_related ((a, o) ∷ also_related devices auths))
          → a.owner ≡ true
          → is_in ids e.id ≡ true
      was none e h all owner = absurd cc
      was (some d) e h all owner = let same : d ≡ e = cc in rw (sym same) (all.0 owner)

      alone :
          (o : Option DevicesModel)
          → find (λ d. d.id == a.device_id) left ≡ o
          → is_in ids a.device_id ≡ false
          → All
              (λ d. d.auth.owner ≡ false)
              (keep_related (also_related left (filter (λ b. not (is_in ids b.device_id)) auths)))
          → All
              (λ d. d.auth.owner ≡ false)
              (keep_related
                ((a, o) ∷ also_related left (filter (λ b. not (is_in ids b.device_id)) auths)))
      alone none e kept all = all
      alone (some d) e kept all = elim (Bool-cases a.owner) [
        | inr other ↦ (other, all)
        | inl owner ↦
            let (x, f) = find_left (λ d. d.id == a.device_id) devices d e in
            let listed = was (find (λ d. d.id == a.device_id) devices) x f related owner in
            let same =
              (==_iff x.id a.device_id).0 (find-passes (λ d. d.id == a.device_id) devices x f) in
            absurd (cc (listed, same, kept))
      ]

-- `c` and `i`, the first letters of the two kinds of key.
letters_ne : ◌≢◌ {A = Option ℕ} (some 99) (some 105)
letters_ne h = ground arith

module _ (hex : Hex) where
  cache_key-ne-addr_key :
      (user addr : ℕ) → codes "cache:device:" ++ id_to_string hex user ≢ addr_key hex addr
  unfolding addr_key
  cache_key-ne-addr_key user addr e = letters_ne (ap (λ l. get_elem? l 0) e)

module _ (hex : Hex) (S : Stores) (laws : IsStores S) where
  -- After the deletion of a user's devices, every right that the user still has on a device is not that of
  -- its owner.
  pub delete_by_user_id-unowned :
      (user : ℕ) (w : World S)
      → All
          (λ d. d.auth.owner ≡ false)
          (query_all_with_auth user
            (S.auths.rows (delete_by_user_id hex S user w).auths)
            (S.devices.rows (delete_by_user_id hex S user w).devices))
  unfolding delete_by_user_id delete_snap delete_lora_node delete_lora_gateway delete_device_auth
      delete_list delete_by_device_id_array delete_cache query_all_with_auth
  delete_by_user_id-unowned user w =
      let auths = S.auths.rows w.auths in
      let devices = S.devices.rows w.devices in
      let ids = (owned_of (query_all_with_auth user auths devices)).can_delete in
      rw
        (
          laws.auths.rows-delete_many (λ r. is_in ids r.device_id) w.auths,
          laws.devices.rows-delete_many (λ r. is_in ids r.id) w.devices,
          filter-swap (shared_with user) (λ r. not (is_in ids r.device_id)) auths,
        )
        (unowned devices ids (filter (shared_with user) auths)
          (owned_of-IsListed (query_all_with_auth user auths devices)))

  -- The nodes of the user stay in the register: for every address, what is loaded from redis is what was
  -- loaded before.
  pub delete_by_user_id-load_by_addr :
      (user addr : ℕ) (w : World S)
      → load_by_addr hex S.redis addr (delete_by_user_id hex S user w).redis
        ≡ load_by_addr hex S.redis addr w.redis
  unfolding delete_by_user_id delete_snap delete_lora_node delete_lora_gateway delete_device_auth
      delete_list delete_by_device_id_array delete_cache load_by_addr
  delete_by_user_id-load_by_addr user addr w =
      rw
        (laws.redis.look-del_ne (codes "cache:device:" ++ id_to_string hex user) (addr_key hex addr)
          w.redis (cache_key-ne-addr_key hex user addr))
        refl

  -- Where all devices of a user are snap devices, the table of snap devices is left as it was.
  pub delete_by_user_id-snaps :
      (user : ℕ) (w : World S)
      → All
          (λ d. d.device.device_type ≡ snap)
          (query_all_with_auth user (S.auths.rows w.auths) (S.devices.rows w.devices))
      → S.snaps.rows (delete_by_user_id hex S user w).snaps ≡ S.snaps.rows w.snaps
  unfolding delete_by_user_id delete_snap delete_lora_node delete_lora_gateway delete_device_auth
      delete_list delete_by_device_id_array delete_cache is_in
  delete_by_user_id-snaps user w snaps =
      let devices = query_all_with_auth user (S.auths.rows w.auths) (S.devices.rows w.devices) in
      laws.snaps.rows-delete_many (λ r. is_in (owned_of devices).lora_nodes r.device_id) w.snaps
      ∙ rw (no_nodes devices snaps)
          (filter-all (λ r. true) (S.snaps.rows w.snaps) (every (S.snaps.rows w.snaps)))
    where
      every : {Row : Type 0} (rows : List Row) → All (λ r. ◌≡◌ {A = Bool} true true) rows
      every [] = tt
      every (r ∷ rows) = (refl, every rows)
