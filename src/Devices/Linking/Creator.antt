-- ===== src/Devices/Linking/Creator.antt =====
-- The groups of a new device.
use snapemu_workflow.Base.{
  ℕ, ◌+◌, ◌≡◌, ◌≢◌, refl, ◌∙◌, true, ◌&&◌, ==_iff, Option, none, some, List, ◌∷◌, All, ◌==◌, ok,
}
use snapemu_workflow.Groups.{Group, find, Tables, IsTables, Cache}
use snapemu_workflow.Redis.{codes}
use snapemu_workflow.Devices.{Stores, World, IsStores}
use snapemu_workflow.Devices.Linking.{
  query_user_default_group, link_to_default_group, owner_right, own_device, load_default,
  default_or_new, default_or_query,
}
use snapemu_workflow.Devices.Linking.Counts.{
  Known, one_more, count, links, links-insert_map, link_groups-links,
}

module _ (T : Tables) (laws : IsTables T) (C : Cache) where
  default-maps :
      (user : ℕ) (s : T.State) (c : C.State)
      → T.maps (query_user_default_group T C user s c).1 ≡ T.maps s
  unfolding query_user_default_group
  default-maps user s c = by_cache (load_default (C.load_by_user_id user c))
    where
      by_table : (o : Option Group) → T.maps (default_or_new T C user o s).1 ≡ T.maps s
      by_table (some g) = refl
      by_table none = laws.maps-insert_group (codes "All") (codes "All") true user s

      by_cache : (o : Option (Group × ℕ)) → T.maps (default_or_query T C user o s).1 ≡ T.maps s
      by_cache (some item) = refl
      by_cache none = by_table (find (λ g. (g.owner == user) && g.default_group) (T.groups s))

module _ (S : Stores) (laws : IsStores S) where
  -- A new device of a user, where the id of its link to the default group is not that of the group, and all groups of
  -- the request are there: it comes into the default group once more, and into every group as often as the request names
  -- it, also into the default group; and the user gets all rights on it.
  pub own_device-links :
      (now user device : ℕ) (groups : List ℕ) (w : World S)
      → (link_to_default_group S.groups S.caches user device w.groups w.caches).0.group_id
        ≢ (link_to_default_group S.groups S.caches user device w.groups w.caches).0.id
      → All
          (Known S.groups (link_to_default_group S.groups S.caches user device w.groups w.caches).1)
          groups
      → (v : World S) × (own_device S now user device groups w ≡ ok v)
        × ((g : ℕ)
            → links S.groups user device g v.groups
              ≡ count
                  (λ x. x == g)
                  ((query_user_default_group S.groups S.caches user w.groups w.caches).0.id
                    ∷ groups)
                + links S.groups user device g w.groups)
        × ((id : ℕ) × (S.auths.rows v.auths
              ≡ owner_right user device now id ∷ S.auths.rows w.auths))
  unfolding own_device link_to_default_group count
  own_device-links now user device groups w other known =
      let default = query_user_default_group S.groups S.caches user w.groups w.caches in
      let first = link_to_default_group S.groups S.caches user device w.groups w.caches in
      let (t, d, runs, counts) =
        link_groups-links S.groups laws.groups S.caches first.0 groups user device first.1 first.2
          other known in
      let (id, fresh, is, rows) = laws.auths.rows-insert (owner_right user device now) w.auths in
      (
        record w {
          groups = t;
          caches = d;
          auths = (S.auths.insert (owner_right user device now) w.auths).1;
        },
        rw runs refl,
        λ g.
            counts g
            ∙ rw
                (
                  links-insert_map S.groups laws.groups user device default.0.id user device g
                      default.1,
                  (==_iff user user).1 refl,
                  (==_iff device device).1 refl,
                  default-maps S.groups laws.groups S.caches user w.groups w.caches,
                )
                (one_more (default.0.id == g) (count (λ x. x == g) groups)
                  (links S.groups user device g w.groups)),
        (id, rows),
      )
