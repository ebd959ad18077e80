-- ===== src/Models.antt =====
-- The names and units of the values that sensors report (snap_model/src/lib.rs). Texts are lists of
-- their bytes.
pub mod Lookup
mod Tests
use snapemu_workflow.Base.{
  ℕ, ◌+◌, ◌*◌, ◌^◌, Bool, ◌&&◌, Option, none, some, List, [], ◌∷◌, ◌++◌, ltb, if◌then◌else◌,
  Outcome, ok, err, panic, ◌>>=◌,
}
use snapemu_workflow.Base.Dict.{HashMap, empty, insert as put, nat_eq}
use snapemu_workflow.Base.Texts.{split_once}
use snapemu_workflow.Sensor.{ValueType, f32}

abbrev pub Text : Type 0
Text = List ℕ

-- `ModelPackageName` and `ModelEntityName`
pub record ModelName : Type 0 where
  pub zh : Text
  pub en : Text

pub record ModelPackage : Type 0 where
  pub id : ℕ
  pub unit : Text
  pub v_type : ValueType
  pub name : ModelName

pub record Model : Type 0 where
  pub sensor_id : ℕ
  pub sensor_name : Text
  pub packages : List ModelPackage

-- `DefaultModel` and `DefaultEntry`
pub record DefaultModel : Type 0 where
  pub unit : Text
  pub name : ModelName

pub record ModelRoot : Type 0 where
  pub default_model : DefaultModel
  pub models : List Model

pub record ModelMapEntry : Type 0 where
  pub unit : Text
  pub v_type : ValueType
  pub name : ModelName

pub record ModelMap : Type 0 where
  pub entries : HashMap ℕ ModelMapEntry
  pub default_entry : DefaultModel

pub record ModelEntity : Type 0 where
  pub unit : Text
  pub v_type : Option ValueType
  pub name : Text

abbrev pub Entries : Type 0
Entries = Outcome Unit (HashMap ℕ ModelMapEntry)

unfoldable pub package_entry : ModelPackage → ModelMapEntry
package_entry pk = record { unit = pk.unit; v_type = pk.v_type; name = pk.name }

-- `assert!`
abbrev pub assert : Bool → Entries → Entries
assert b rest = if b then rest else panic

-- One package of a sensor. The parts of `sensor_id << 4 | id` share no bit, by the assertions.
unfoldable pub add_package : ℕ → HashMap ℕ ModelMapEntry → ModelPackage → Entries
add_package sensor_id m pk =
    assert (ltb pk.id 0x10)
      (assert (ltb sensor_id 0x10000) (ok (put (sensor_id * 2 ^ 4 + pk.id) (package_entry pk) m)))

unfoldable pub add_packages : ℕ → HashMap ℕ ModelMapEntry → List ModelPackage → Entries
add_packages sensor_id m [] = ok m
add_packages sensor_id m (pk ∷ packages) =
    add_package sensor_id m pk >>= λ m1. add_packages sensor_id m1 packages

unfoldable pub add_models : HashMap ℕ ModelMapEntry → List Model → Entries
add_models m [] = ok m
add_models m (model ∷ models) =
    add_packages model.sensor_id m model.packages >>= λ m1. add_models m1 models

unfoldable pub new_with_root : ModelRoot → Outcome Unit ModelMap
new_with_root root = add_models empty root.models >>= λ m.
    ok (record { entries = m; default_entry = root.default_model })

-- `zh` is whether the language is that.
unfoldable pub get_default_entry : ModelMap → Bool → ModelEntity
get_default_entry m zh = record {
  unit = m.default_entry.unit;
  v_type = none;
  name = if zh then m.default_entry.name.zh else m.default_entry.name.en;
}

abbrev pub entity_of : ModelMap → Bool → Option ModelMapEntry → ModelEntity
entity_of m zh none = get_default_entry m zh
entity_of m zh (some s) = record {
  unit = s.unit;
  v_type = some s.v_type;
  name = if zh then s.name.zh else s.name.en;
}

unfoldable pub get_entry : ModelMap → ℕ → Bool → ModelEntity
get_entry m data_id zh = entity_of m zh (m.entries data_id)

-- `DataMap`
pub record DataMap : Type 0 where
  pub unit : Text
  pub v_type : ValueType
  pub name : ModelName

abbrev pub data_of : ModelMap → Option ModelMapEntry → DataMap
data_of m none = record { unit = m.default_entry.unit; v_type = f32; name = m.default_entry.name }
data_of m (some s) = record { unit = s.unit; v_type = s.v_type; name = s.name }

unfoldable pub get_data_name : ModelMap → ℕ → DataMap
get_data_name m data_id = data_of m (m.entries data_id)

abbrev pub name_of : Text → Option (Text × Text) → ModelName
name_of s none = record { zh = s; en = s }
name_of s (some (zh, en)) = record { zh = zh; en = en }

-- `From<&str>` of `DataName`
unfoldable pub data_name_from : Text → ModelName
data_name_from s = name_of s (split_once (b',' ∷ []) s)

unfoldable pub format_tag : ModelName → Text
format_tag n = n.zh ++ (b',' ∷ n.en)
