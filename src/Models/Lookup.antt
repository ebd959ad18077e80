-- ===== src/Models/Lookup.antt =====
-- Which package a value is looked up in.
use snapemu_workflow.Base.{
  ℕ, ◌+◌, ◌*◌, ◌^◌, ◌<◌, ◌≡◌, ◌≢◌, refl, sym, ap, ◌∙◌, Bool, true, false, Option, none, some, List,
  [], ◌∷◌, All, ◌==◌, lt→ltb, if◌then◌else◌, ok, arith,
}
use snapemu_workflow.Base.Dict.{HashMap, empty, insert as put, nat_eq}
use snapemu_workflow.Base.Texts.{split_once_byte, split_once-none}
use snapemu_workflow.Models.{
  Text, ModelName, ModelPackage, Model, ModelRoot, ModelMapEntry, ModelMap, package_entry,
  add_package, add_packages, add_models, new_with_root, entity_of, data_of, get_entry,
  get_data_name, data_name_from, format_tag,
}

-- All ids of a root are in range.
abbrev pub IsInRange : List Model → Type 0
IsInRange models =
    All (λ model. All (λ pk. (pk.id < 16) × (model.sensor_id < 65536)) model.packages) models

abbrev pub or_else : Option ModelMapEntry → Option ModelMapEntry → Option ModelMapEntry
or_else none old = old
or_else (some e) old = some e

-- The last package of an id, and the last package of a sensor and an id.
abbrev pub last_package : ℕ → List ModelPackage → Option ModelMapEntry
last_package id [] = none
last_package id (pk ∷ packages) =
    or_else (last_package id packages) (if pk.id == id then some (package_entry pk) else none)

abbrev pub last_entry : ℕ → ℕ → List Model → Option ModelMapEntry
last_entry sensor id [] = none
last_entry sensor id (model ∷ models) =
    or_else (last_entry sensor id models)
      (if model.sensor_id == sensor then last_package id model.packages else none)

or_else_assoc : (a b c : Option ModelMapEntry) → or_else (or_else a b) c ≡ or_else a (or_else b c)
or_else_assoc none b c = refl
or_else_assoc (some e) b c = refl

-- The keys of two sensors and ids.
key_test :
    (s i t j : ℕ)
    → i < 16
    → j < 16
    → (s * 2 ^ 4 + i == t * 2 ^ 4 + j) ≡ (if s == t then i == j else false)
key_test s i t j h k = ground arith

or_else_skip :
    (b : Bool) (old : Option ModelMapEntry) → or_else (if b then none else none) old ≡ old
or_else_skip true old = refl
or_else_skip false old = refl

-- A later package goes before an earlier one.
or_else_step :
    (b c : Bool) (p : Option ModelMapEntry) (q : ModelMapEntry) (old : Option ModelMapEntry)
    → or_else (if b then p else none) (if (if b then c else false) then some q else old)
      ≡ or_else (if b then or_else p (if c then some q else none) else none) old
or_else_step false c p q old = refl
or_else_step true true none q old = refl
or_else_step true false none q old = refl
or_else_step true true (some e) q old = refl
or_else_step true false (some e) q old = refl

module _ (sensor id : ℕ) (range : id < 16) where
  abbrev At : HashMap ℕ ModelMapEntry → Option ModelMapEntry
  At m = m (sensor * 2 ^ 4 + id)

  add_packages-At :
      (s : ℕ) (m : HashMap ℕ ModelMapEntry) (packages : List ModelPackage)
      → All (λ pk. (pk.id < 16) × (s < 65536)) packages
      → (n : HashMap ℕ ModelMapEntry) × (add_packages s m packages ≡ ok n)
        × (At n ≡ or_else (if s == sensor then last_package id packages else none) (At m))
  unfolding add_packages add_package put
  add_packages-At s m [] ranges = (m, refl, sym (or_else_skip (s == sensor) (At m)))
  add_packages-At s m (pk ∷ packages) ((h, k), ranges) =
      let m1 = put (s * 2 ^ 4 + pk.id) (package_entry pk) m in
      let (n, done, at) = add_packages-At s m1 packages ranges in
      let there : At m1 ≡ (
          if (if s == sensor then pk.id == id else false) then some (package_entry pk) else At m) =
        ap (λ b. if b then some (package_entry pk) else At m)
          (key_test s pk.id sensor id h range) in
      (
        n,
        rw (lt→ltb pk.id 16 h, lt→ltb s 65536 k) done,
        at
            ∙ ap (or_else (if s == sensor then last_package id packages else none)) there
            ∙ or_else_step (s == sensor) (pk.id == id) (last_package id packages) (package_entry pk)
                (At m),
      )

  add_models-At :
      (m : HashMap ℕ ModelMapEntry) (models : List Model)
      → IsInRange models
      → (n : HashMap ℕ ModelMapEntry) × (add_models m models ≡ ok n)
        × (At n ≡ or_else (last_entry sensor id models) (At m))
  unfolding add_models
  add_models-At m [] ranges = (m, refl, refl)
  add_models-At m (model ∷ models) (range1, ranges) =
      let (m1, done1, at1) = add_packages-At model.sensor_id m model.packages range1 in
      let (n, done, at) = add_models-At m1 models ranges in
      (
        n,
        rw (done1, done) refl,
        at
            ∙ ap (or_else (last_entry sensor id models)) at1
            ∙ sym (
                or_else_assoc (last_entry sensor id models)
                  (if model.sensor_id == sensor then last_package id model.packages else none)
                  (At m)),
      )

or_else-none : (e : Option ModelMapEntry) → or_else e none ≡ e
or_else-none none = refl
or_else-none (some e) = refl

-- With all ids in range the map is made, and the value `item` of a sensor has the entry and the data of
-- the last package of that sensor and item in the file, or the default ones if there is none.
pub new_with_root-last_entry :
    (root : ModelRoot) (sensor item : ℕ) (zh : Bool)
    → IsInRange root.models
    → item < 16
    → (m : ModelMap) × (new_with_root root ≡ ok m)
      × (get_entry m (sensor * 16 + item) zh ≡ entity_of m zh (last_entry sensor item root.models))
      × (get_data_name m (sensor * 16 + item) ≡ data_of m (last_entry sensor item root.models))
unfolding new_with_root get_entry get_data_name
new_with_root-last_entry root sensor item zh ranges h =
    let (n, done, at) = add_models-At sensor item h empty root.models ranges in
    let m : ModelMap = record { entries = n; default_entry = root.default_model } in
    let found = at ∙ or_else-none (last_entry sensor item root.models) in
    (m, rw done refl, ap (entity_of m zh) found, ap (data_of m) found)

-- A pair of names whose first part has no comma is read back from its tag, and a text without a comma
-- stands for both names.
pub data_name_from-format_tag :
    (n : ModelName) (s : Text)
    → All (λ c. c ≢ b',') n.zh
    → All (λ c. c ≢ b',') s
    → (data_name_from (format_tag n) ≡ n) × (data_name_from s ≡ record { zh = s; en = s })
unfolding data_name_from format_tag
data_name_from-format_tag n s h k =
    (rw (split_once_byte b',' n.zh n.en h) refl, rw (split_once-none b',' s k) refl)
