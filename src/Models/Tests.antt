-- ===== src/Models/Tests.antt =====
-- The theorems on models at a concrete file.
use snapemu_workflow.Base.{ℕ, ◌+◌, ◌*◌, ◌≡◌, ◌≢◌, true, [], ◌∷◌, All, ok, arith}
use snapemu_workflow.Sensor.{u16}
use snapemu_workflow.Models.{
  ModelName, ModelPackage, ModelRoot, ModelMap, new_with_root, entity_of, data_of, get_entry,
  get_data_name,
}
use snapemu_workflow.Models.Lookup.{IsInRange, last_entry, new_with_root-last_entry}

abbrev label : ℕ → ModelName
label c = record { zh = c ∷ []; en = c ∷ c ∷ [] }

abbrev pack : ℕ → ModelPackage
pack c = record { id = 1; unit = c ∷ []; v_type = u16; name = label c }

abbrev root : ModelRoot
root = record {
  default_model = record { unit = []; name = label 65 };
  models = record { sensor_id = 3; sensor_name = []; packages = pack 66 ∷ pack 67 ∷ [] } ∷ [];
}

root-IsInRange : IsInRange root.models
root-IsInRange = (((omega arith, omega arith), ((omega arith, omega arith), tt)), tt)

new_with_root-last_entry_example :
    (m : ModelMap) × (new_with_root root ≡ ok m)
    × (get_entry m (3 * 16 + 1) true ≡ entity_of m true (last_entry 3 1 root.models))
    × (get_data_name m (3 * 16 + 1) ≡ data_of m (last_entry 3 1 root.models))
new_with_root-last_entry_example =
    new_with_root-last_entry root 3 1 true root-IsInRange (omega arith)

no_comma : All {A = ℕ} (λ c. c ≢ b',') (b'a' ∷ [])
no_comma = (λ e. ground arith, tt)
