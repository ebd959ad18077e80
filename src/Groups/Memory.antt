-- ===== src/Groups/Memory.antt =====
-- An instance of the tables, as lists of rows, and one of the cache.
use snapemu_workflow.Base.{
  ℕ, suc, ◌≤◌, ◌≢◌, refl, Bool, not, List, [], ◌∷◌, map, All, ltb, ◌==◌, if◌then◌else◌, arith,
}
use snapemu_workflow.Base.Dict.{HashMap, insert as put, remove, nat_eq}
use snapemu_workflow.Groups.{Group, MapRow, filter, set_order, Tables, IsTables, Cache}

abbrev greater : ℕ → ℕ → ℕ
greater a b = if ltb a b then b else a

-- Above the ids of all rows.
abbrev fresh_id : List MapRow → ℕ
fresh_id [] = 0
fresh_id (r ∷ rows) = greater (suc r.id) (fresh_id rows)

All-below : (rows : List MapRow) (n : ℕ) → fresh_id rows ≤ n → All (λ r. r.id ≢ n) rows
All-below [] n h = tt
All-below (r ∷ rows) n h =
    let (own, rest) = parts (suc r.id) (fresh_id rows) h in
    (λ e. ground arith, All-below rows n rest)
  where
    parts : (a b : ℕ) → greater a b ≤ n → (a ≤ n) × (b ≤ n)
    parts a b h = ground arith

abbrev pub new_row : ℕ → ℕ → ℕ → List MapRow → MapRow
new_row user device group rows = record {
  id = fresh_id rows;
  user_id = user;
  device_id = device;
  group_id = group;
  dev_order = 0;
}

abbrev pub new_group : List ℕ → List ℕ → Bool → ℕ → Group
new_group name description default owner = record {
  id = owner;
  name = name;
  description = description;
  default_group = default;
  owner = owner;
}

abbrev pub memory : Tables
memory = record {
  State = List Group × List MapRow;
  groups = λ s. s.0;
  maps = λ s. s.1;
  insert_group = λ name description default owner s.
      let g = new_group name description default owner in (g, (g ∷ s.0, s.1));
  delete_groups = λ p s. (filter (λ g. not (p g)) s.0, s.1);
  insert_map = λ user device group s.
      (new_row user device group s.1, (s.0, new_row user device group s.1 ∷ s.1));
  update_order = λ id order s. (s.0, map (set_order id order) s.1);
  update_group = λ g s. (map (λ h. if h.id == g.id then g else h) s.0, s.1);
  delete_maps = λ p s. (s.0, filter (λ r. not (p r)) s.1);
}

pub memory-IsTables : IsTables memory
memory-IsTables = record {
  groups-delete_groups = λ p s. refl;
  maps-insert_map =
      λ user device group s. (fresh_id s.1, All-below s.1 (fresh_id s.1) (omega arith), refl);
  maps-update_order = λ id order s. refl;
  maps-delete_maps = λ p s. refl;
  maps-delete_groups = λ p s. refl;
  groups-delete_maps = λ p s. refl;
  groups-insert_map = λ user device group s. refl;
  maps-insert_group = λ name description default owner s. refl;
  groups-update_group = λ g s. refl;
  maps-update_group = λ g s. refl;
}

abbrev pub cache : Cache
cache = record {
  State = HashMap ℕ (List (Group × ℕ));
  load_by_user_id = λ user c. c user;
  save_by_user_id = λ user v c. put user v c;
  delete_by_user_id = λ user c. remove user c;
}
